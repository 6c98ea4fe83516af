-- ===== src/Sched/Yield.antt =====
-- `timer_tick1`, the handler behind `scheduler_yeild`.
use carrotos.Base.{ℕ, ◌≢◌, arith, ltb, Bool-cases, inl, inr}
use carrotos.Thread.{Thread}
use carrotos.Sched.{Frame, Kernel, finish_yield, timer_tick1}
use carrotos.Sched.Save.{NoneRuns}
use carrotos.Sched.Switch.{
  Holds, IsMid, IsScheduled, Returns, returned, switch_from-Returns, enter_idle-RunsNext,
  tick_with-ends,
}

finish_yield-Returns :
    (c : ℕ) (curr : Thread) (n : ℕ) (k : Kernel)
    → IsMid c curr k
    → (n ≢ 0 → Holds k.threads n)
    → NoneRuns k.threads
    → Returns (finish_yield c curr n k)
unfolding finish_yield
finish_yield-Returns c curr n k v found none_runs = elim (Bool-cases (ltb 1 n)) [
  | inl e ↦ rw e (switch_from-Returns c curr n k v (found (ground arith)))
  | inr e ↦ rw e (returned (enter_idle-RunsNext k v.indexed v.idle_in none_runs))
]

-- From a scheduled state in which no thread is running, as when the thread that yields has first
-- given itself a state in which it does not run, a yield returns a number, and leaves the core
-- running exactly the thread of that number, or idle with the number 0 and no thread running.
pub timer_tick1-Returns :
    (f : Frame) {k : Kernel} → IsScheduled k → NoneRuns k.threads → Returns (timer_tick1 f k)
unfolding timer_tick1
timer_tick1-Returns f {k} v none_runs =
    tick_with-ends Returns finish_yield f k
      (λ curr n k' w h keeps.
        finish_yield-Returns k.core.current_thread curr n k' w h (keeps none_runs))
      v
