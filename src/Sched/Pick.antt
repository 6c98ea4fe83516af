-- ===== src/Sched/Pick.antt =====
-- The round-robin search of the timer handlers.
use carrotos.Base.{
  ℕ, zero, suc, ◌+◌, ◌-◌, ◌%◌, ◌<◌, ◌≤◌, ◌≡◌, ◌≢◌, refl, Bool, true, false, ◌&&◌, not, Option, none,
  some, arith, ◌==◌, length, dec_lt, if◌then◌else◌, Bool-cases, inl, inr,
}
use carrotos.Thread.{Thread, Threads}
use carrotos.Thread.State.{state_is, ready}
use carrotos.Thread.Table.{thread_at}
use carrotos.Sched.{pick_loop, pick}

is_ready : Option Thread → Bool
is_ready none = false
is_ready (some t) = state_is t.state ready

-- A slot that the search may choose: not the idle thread's, and its thread is ready.
unfoldable pub runnable : Threads → ℕ → Bool
unfolding is_ready
runnable ts idx = not (idx == 0) && is_ready (thread_at ts idx)

pub runnable-eq :
    (ts : Threads) (idx : ℕ) {t : Thread}
    → thread_at ts idx ≡ some t
    → runnable ts idx ≡ (not (idx == 0) && state_is t.state ready)
unfolding runnable
runnable-eq ts idx at = rw (at, is_ready)

-- The slot `j` places after `current`, round the table.
abbrev pub place : Threads → ℕ → ℕ → ℕ
place ts current j = (current + j) % length ts

-- What the search from the place `i` over `k` places comes to.
pub data Picked (ts : Threads) (current i k r : ℕ) : Type 0 where
  nobody :
      r ≡ 0
      → ((j : ℕ) → i ≤ j → j < i + k → runnable ts (place ts current j) ≡ false)
      → Picked ts current i k r
  found :
      (j : ℕ)
      → i ≤ j
      → j < i + k
      → r ≡ place ts current j
      → runnable ts r ≡ true
      → ((m : ℕ) → i ≤ m → m < j → runnable ts (place ts current m) ≡ false)
      → Picked ts current i k r

pick_loop-suc :
    (ts : Threads) (current k i : ℕ)
    → pick_loop ts current (suc k) i ≡ (
        if runnable ts (place ts current i)
        then place ts current i
        else pick_loop ts current k (i + 1))
unfolding pick_loop runnable
pick_loop-suc ts current k i = ground arith

-- One more place in front, which is not to be chosen.
module _ (ts : Threads) (current i : ℕ) (miss : runnable ts (place ts current i) ≡ false) where
  miss_from :
      (n : ℕ)
      → ((j : ℕ) → i + 1 ≤ j → j < n → runnable ts (place ts current j) ≡ false)
      → (j : ℕ) → i ≤ j
      → j < n
      → runnable ts (place ts current j) ≡ false
  miss_from n rest j p q = elim (dec_lt i j) [
    | yes lt ↦ rest j (omega arith) q
    | no ge ↦ let e : j ≡ i = omega arith in rw e miss
  ]

  extend : {k r : ℕ} → Picked ts current (i + 1) k r → Picked ts current i (suc k) r
  extend {k} (nobody e all) = nobody e (miss_from (i + suc k) (λ j p q. all j p (omega arith)))
  extend {k} (found j p q e hit before) =
      found j (omega arith) (omega arith) e hit (miss_from j before)

pick_loop-Picked :
    (ts : Threads) (current k i : ℕ) → Picked ts current i k (pick_loop ts current k i)
unfolding pick_loop
pick_loop-Picked ts current zero i = nobody refl (λ j p q. absurd (omega arith))
pick_loop-Picked ts current (suc k) i =
    rw (pick_loop-suc ts current k i) (elim (Bool-cases (runnable ts (place ts current i))) [
      | inl e ↦ rw e (found i (omega arith) (omega arith) refl e (λ m p q. absurd (omega arith)))
      | inr e ↦ rw e (extend ts current i e (pick_loop-Picked ts current k (i + 1)))
    ])

-- The search looks at every other slot once, in the order of the table from the current slot on
-- and round its end: what it returns is the first that holds a ready thread and is not slot 0,
-- and it returns 0 exactly where there is none.
pub pick-Picked :
    (ts : Threads) (current : ℕ) → Picked ts current 1 (length ts - 1) (pick ts current)
unfolding pick
pick-Picked ts current = pick_loop-Picked ts current (length ts - 1) 1

pub runnable-ne_zero : (ts : Threads) (idx : ℕ) → runnable ts idx ≡ true → idx ≢ 0
unfolding runnable
runnable-ne_zero ts idx h = ground arith

pub runnable_thread :
    (ts : Threads) (idx : ℕ)
    → runnable ts idx ≡ true
    → (t : Thread) × (thread_at ts idx ≡ some t) × (state_is t.state ready ≡ true)
unfolding runnable
runnable_thread ts idx h = ground arith

-- A search that finds something finds a slot with a ready thread.
pub pick-runnable :
    (ts : Threads) (current : ℕ) → pick ts current ≢ 0 → runnable ts (pick ts current) ≡ true
pick-runnable ts current ne = from (pick-Picked ts current) ne
  where
    from : {i k r : ℕ} → Picked ts current i k r → r ≢ 0 → runnable ts r ≡ true
    from (nobody e all) ne = absurd (ne e)
    from (found j p q e hit before) ne = hit
