-- ===== src/Sched/Idle.antt =====
-- The timer tick while the core idles.
use carrotos.Base.{◌+◌, ◌%◌, ◌^◌, ◌≡◌, ◌≢◌, refl, ap, ◌∙◌, arith, ◌==◌, Bool-cases, inl, inr}
use carrotos.Thread.{Threads}
use carrotos.Thread.Table.{thread_at, map_option}
use carrotos.Sched.{
  Frame, Kernel, run, wake_sleeper, handle_sleeping_thread, pick, timer_tick_from_idle,
}
use carrotos.Sched.Save.{
  Indexed, NoneRuns, handle_sleeping_thread-Indexed, handle_sleeping_thread-NoneRuns,
  thread_at-handle_sleeping_thread,
}
use carrotos.Sched.Switch.{
  Holds, IsScheduled, RunsNext, idled, deref-some, pick-Holds, enter-RunsNext,
}

-- The idle thread is still there once the sleepers are woken.
idle_stays : (f : Frame) (ts : Threads) → Holds ts 0 → Holds (handle_sleeping_thread f.clock ts) 0
unfolding map_option
idle_stays f ts (t, at) = (
  wake_sleeper f.clock 0 t,
  thread_at-handle_sleeping_thread f.clock ts 0 ∙ ap (map_option (wake_sleeper f.clock 0)) at,
)

-- A core that runs no thread, over a table that is in order.
idle-RunsNext :
    (k : Kernel)
    → Indexed k.threads
    → Holds k.threads 0
    → NoneRuns k.threads
    → k.core.current_thread ≡ 0
    → RunsNext (run 0 k)
idle-RunsNext k all idle_in none_runs cur =
    idled refl
      (record {
        indexed = all;
        idle_in = idle_in;
        current_in = (idle_in.0, ap (thread_at k.threads) cur ∙ idle_in.1);
        only = λ i t h r. absurd (none_runs i t h r);
      })
      cur none_runs

-- From a scheduled state in which no thread is running, the timer tick of an idle core comes to
-- one of two ends: the thread whose number it returns is the current one and the only one running;
-- or it returns 0 and no thread is running. The state is scheduled again in both cases.
pub timer_tick_from_idle-RunsNext :
    (f : Frame) {k : Kernel}
    → IsScheduled k
    → NoneRuns k.threads
    → RunsNext (timer_tick_from_idle f k)
unfolding timer_tick_from_idle
timer_tick_from_idle-RunsNext f {k} v none_runs =
    let ts = handle_sleeping_thread f.clock k.threads in
    let all = handle_sleeping_thread-Indexed f.clock k.threads v.indexed in
    let idle_in = idle_stays f k.threads v.idle_in in
    let none_now = handle_sleeping_thread-NoneRuns f.clock k.threads none_runs in
    elim (Bool-cases (pick ts 0 == 0)) [
      | inl e ↦ rw e (idle-RunsNext _ all idle_in none_now refl)
      | inr e ↦
          let ne : pick ts 0 ≢ 0 = ground arith in
          let (t, at) = pick-Holds ts 0 ne in
          let k1 = record k { current_tick = (k.current_tick + 1) % 2 ^ 64; threads = ts } in
          rw (e, deref-some ts (pick ts 0) _ at)
            (enter-RunsNext k1 (pick ts 0) t k.core.current_thread_user_rsp all idle_in none_now at)
    ]
