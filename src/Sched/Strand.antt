-- ===== src/Sched/Strand.antt =====
-- A thread that yields while it is still in the state of a running one, and what becomes of it.
use carrotos.Base.{ℕ, ◌≤◌, ◌≡◌, ◌≢◌, refl, ap, ◌∙◌, true, false, some, arith, ltb, ℕ_discrete}
use carrotos.Thread.{Thread, Threads}
use carrotos.Thread.State.{state_is, running, ended_but_not_cleaned}
use carrotos.Thread.Table.{thread_at, put_thread, map_option, thread_at-put_thread, thread_at-lt}
use carrotos.Sched.{
  wake_sleeper, Frame, Kernel, run, save_context, pick, enter_idle, finish_yield, bury, saved,
  tick_with, timer_tick1,
}
use carrotos.Sched.Pick.{runnable, pick-runnable}
use carrotos.Sched.Save.{
  Indexed, put-Indexed, handle_sleeping_thread-Indexed, thread_at-handle_sleeping_thread,
}
use carrotos.Sched.Switch.{deref-some}
use carrotos.Sched.Stranded.{
  wake_sleeper-running, IsStranded, enter_idle-IsStranded, TicksOn, TicksOn-IsStranded,
}

-- The running thread after the first part of the handler: as it was, its registers saved.
saved-running :
    (f : Frame) (k : Kernel) {t : Thread}
    → thread_at k.threads k.core.current_thread ≡ some t
    → t.state ≡ running
    → thread_at (saved f k t).threads k.core.current_thread ≡ some (save_context f k.core t)
unfolding saved map_option save_context
saved-running f k {t} at r =
    let c = k.core.current_thread in
    let new = save_context f k.core t in
    let stored : thread_at (put_thread k.threads c new) c ≡ some new =
      thread_at-put_thread k.threads c new c (thread_at-lt k.threads c at) ∙ ground arith in
    thread_at-handle_sleeping_thread f.clock (put_thread k.threads c new) c
    ∙ ap (map_option (wake_sleeper f.clock c)) stored
    ∙ ap some (wake_sleeper-running f.clock c new r)

bury-running : (f : Frame) (c : ℕ) (t : Thread) (k : Kernel) → t.state ≡ running → bury f c t k ≡ k
unfolding bury state_is
bury-running f c t k r = let e : state_is t.state ended_but_not_cleaned ≡ false = rw r in rw e

finish_yield-few :
    (c : ℕ) (t : Thread) (n : ℕ) (k : Kernel) → n ≤ 1 → finish_yield c t n k ≡ run 0 (enter_idle k)
unfolding finish_yield
finish_yield-few c t n k few = let e : ltb 1 n ≡ false = ground arith in rw e

enter_idle-current : (k : Kernel) → (enter_idle k).core.current_thread ≡ 0
unfolding enter_idle
enter_idle-current k = refl

enter_idle-threads : (k : Kernel) → (enter_idle k).threads ≡ k.threads
unfolding enter_idle
enter_idle-threads k = refl

saved-Indexed :
    (f : Frame) (k : Kernel) (t : Thread)
    → Indexed k.threads
    → thread_at k.threads k.core.current_thread ≡ some t
    → Indexed (saved f k t).threads
unfolding saved save_context
saved-Indexed f k t all at =
    let c = k.core.current_thread in
    handle_sleeping_thread-Indexed f.clock (put_thread k.threads c (save_context f k.core t)) (
      put-Indexed k.threads c (save_context f k.core t) (thread_at-lt k.threads c at) all
        (all c t at))

few : (ts : Threads) (j : ℕ) → ((i : ℕ) → runnable ts i ≡ true → i ≤ 1) → pick ts j ≤ 1
few ts j only = elim (ℕ_discrete (pick ts j) 0) [
  | yes z ↦ omega arith
  | no ne ↦ only (pick ts j) (pick-runnable ts j ne)
]

-- A thread, not number 0, that yields while it is still in the state of a running thread, as
-- `syscall_read_mouse` does, when no other thread is ready but number 1 at most: the handler goes
-- idle, and however many timer interrupts and yields of any kind come after that, the thread keeps
-- that state and is not the current one, as long as nothing but those handlers changes the table.
pub timer_tick1_strands :
    (f : Frame) (k : Kernel) {t : Thread}
    → Indexed k.threads
    → thread_at k.threads k.core.current_thread ≡ some t
    → t.state ≡ running
    → k.core.current_thread ≢ 0
    → ((i : ℕ) → runnable (saved f k t).threads i ≡ true → i ≤ 1)
    → (k1 : Kernel) × (timer_tick1 f k ≡ run 0 k1)
      × ((k2 : Kernel)
          → TicksOn k1 k2
          → (k2.core.current_thread ≢ k.core.current_thread)
            × ((u : Thread) × (thread_at k2.threads k.core.current_thread ≡ some u)
                × (u.state ≡ running)))
unfolding timer_tick1 tick_with save_context
timer_tick1_strands f k {t} all at r ne only =
    let c = k.core.current_thread in
    let k1 = saved f k t in
    let new = save_context f k.core t in
    let at1 : thread_at k1.threads c ≡ some new = saved-running f k at r in
    let unburied : bury f c new k1 ≡ k1 = bury-running f c new k1 r in
    let at2 : thread_at (bury f c new k1).threads c ≡ some new =
      ap (λ (k2 : Kernel). thread_at k2.threads c) unburied ∙ at1 in
    let stranded : IsStranded c (enter_idle k1) =
      enter_idle-IsStranded c k1 ne
        (record { indexed = saved-Indexed f k t all at; thread = new; at = at1; state = r }) in
    (
      enter_idle k1,
      deref-some k.threads c _ at
          ∙ deref-some k1.threads c _ at1
          ∙ deref-some (bury f c new k1).threads c _ at2
          ∙ ap (finish_yield c new (pick k1.threads c)) unburied
          ∙ finish_yield-few c new (pick k1.threads c) k1 (few k1.threads c only),
      λ k2 later.
          let v = TicksOn-IsStranded c ne later stranded in
          (v.away, (v.runs.thread, v.runs.at, v.runs.state)),
    )
