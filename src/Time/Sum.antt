-- ===== src/Time/Sum.antt =====
-- `add_time` and `subtract_time` on the instants that the times stand for.
use carrotos.Base.{ℕ, ◌+◌, ◌/◌, ◌^◌, ◌<◌, ◌≤◌, ◌≡◌, ◌⊎◌, inl, inr, dec_lt, arith}
use carrotos.Time.{Timeval, add_time, subtract_time, add_time_us, of_us}
use carrotos.Time.Compare.{IsNormal, instant}

-- The sum of two normal times is normal and stands for the sum of their instants, if the seconds
-- leave room for the carry.
pub add_time-instant :
    {a b : Timeval}
    → IsNormal a
    → IsNormal b
    → a.tv_sec + b.tv_sec + 1 < 2 ^ 64
    → IsNormal (add_time a b) × (instant (add_time a b) ≡ instant a + instant b)
unfolding add_time
add_time-instant v w room = (ground arith, ground arith)

pub of_us-IsNormal : (us : ℕ) → IsNormal (of_us us) × (instant (of_us us) ≡ us)
of_us-IsNormal us = (omega arith, omega arith)

-- Adding a count of microseconds to a normal time gives a normal time whose instant is later by
-- that count, if the seconds leave room for the carry.
pub add_time_us-instant :
    {a : Timeval} (us : ℕ)
    → IsNormal a
    → a.tv_sec + us / 1000000 + 1 < 2 ^ 64
    → IsNormal (add_time_us a us) × (instant (add_time_us a us) ≡ instant a + us)
unfolding add_time_us
add_time_us-instant {a} us v room =
    let n = of_us-IsNormal us in
    let s = add_time-instant v (n.0) room in (s.0, omega (arith, s.1, n.1))

-- Of two normal times, the first no earlier than the second and with seconds of 64 bits,
-- `subtract_time` gives a normal time that stands for the difference of the instants, if the first
-- has no fewer microseconds. If it has fewer, what is given is no normal time, and stands for
-- 2 ^ 32 microseconds more than the difference.
pub subtract_time_off :
    {a b : Timeval}
    → IsNormal a
    → IsNormal b
    → a.tv_sec < 2 ^ 64
    → instant b ≤ instant a
    → ((b.tv_microsec ≤ a.tv_microsec)
        × IsNormal (subtract_time a b)
        × (instant (subtract_time a b) + instant b ≡ instant a))
      ⊎ ((a.tv_microsec < b.tv_microsec)
          × (¬ IsNormal (subtract_time a b))
          × (instant (subtract_time a b) + instant b ≡ instant a + 2 ^ 32))
unfolding subtract_time
subtract_time_off {a} {b} v w s h = elim (dec_lt a.tv_microsec b.tv_microsec) [
  | no k ↦ inl (omega arith, ground arith, ground arith)
  | yes k ↦ inr (k, λ n. let lt = n.us_lt in ground arith, ground arith)
]
