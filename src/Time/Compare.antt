-- ===== src/Time/Compare.antt =====
-- The four comparisons of core/time.h against the order of the instants that the times stand for.
use carrotos.Base.{ℕ, ◌+◌, ◌*◌, ◌<◌, ◌≤◌, ◌≡◌, ◌↔◌, true, arith}
use carrotos.Time.{Timeval, later, later_or_same, earlier, earlier_or_same}

-- A time as the code means it: the microseconds below one second.
pub record IsNormal (t : Timeval) : Type 0 where
  pub us_lt : t.tv_microsec < 1000000

-- The instant in microseconds.
abbrev pub instant : Timeval → ℕ
instant t = t.tv_sec * 1000000 + t.tv_microsec

-- Between normal times the four comparisons decide the four orders of their instants.
pub compare_instants :
    {a b : Timeval}
    → IsNormal a
    → IsNormal b
    → ((later a b ≡ true) ↔ (instant b < instant a))
      × ((later_or_same a b ≡ true) ↔ (instant b ≤ instant a))
      × ((earlier a b ≡ true) ↔ (instant a < instant b))
      × ((earlier_or_same a b ≡ true) ↔ (instant a ≤ instant b))
unfolding later later_or_same earlier earlier_or_same
compare_instants v w = (
  (ground arith, ground arith),
  (ground arith, ground arith),
  (ground arith, ground arith),
  (ground arith, ground arith),
)
