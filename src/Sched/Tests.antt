-- ===== src/Sched/Tests.antt =====
-- Runs of the timer handlers on a table of four slots.
use carrotos.Base.{
  ℕ, zero, suc, ◌≤◌, ◌≡◌, ◌≢◌, Bool, true, ◌&&◌, refl, none, some, [], ◌∷◌, arith, false,
}
use carrotos.Time.{Timeval}
use carrotos.Thread.{Thread, Threads, Context, alu}
use carrotos.Thread.State.{ThreadState, state_is, running, ready, blocked_other, not_exist}
use carrotos.Thread.Table.{thread_at, each_thread}
use carrotos.Sched.{
  Frame, Kernel, run, save_context, pick, pick_loop, handle_sleeping_thread, wake_sleeper, saved,
  timer_tick_from_non_idle, timer_tick1,
}
use carrotos.Sched.Pick.{runnable}
use carrotos.Sched.Save.{Indexed, RunsOnly, NoneRuns}
use carrotos.Sched.Switch.{IsScheduled, RunsNext, Returns, timer_tick_from_non_idle-RunsNext}
use carrotos.Sched.Yield.{timer_tick1-Returns}
use carrotos.Sched.Stranded.{TicksOn}
use carrotos.Sched.Strand.{timer_tick1_strands}
use carrotos.Sched.Fair.{RunsWithin, ready_runs_within}

abbrev time : ℕ → Timeval
time s = record { tv_sec = s; tv_microsec = 0 }

abbrev registers : Context
registers = record {
  r15 = 0;
  r14 = 0;
  r13 = 0;
  r12 = 0;
  r11 = 0;
  r10 = 0;
  r9 = 0;
  r8 = 0;
  rdi = 0;
  rsi = 0;
  rbp = 0;
  rbx = 0;
  rdx = 0;
  rcx = 0;
  rax = 0;
  rip = 0x400000;
  cs = 0x23;
  rflags = 0x202;
  rsp = 0x7000;
  ss = 0x1B;
  gs24 = 0x9000;
  xsave_area = 0;
  fs_base = 0;
  gs_base = 0;
}

abbrev thread : ℕ → ThreadState → Thread
thread tid state = record {
  pid = 1;
  tid = tid;
  state = state;
  wakeup_time = time 10;
  stack_addr = 0;
  kernel_stack_addr = 0x8000;
  context = registers;
  ptid = 0;
  signal = 0;
  signal_mask = 0;
  sleep_flag_addr = 0;
  context_type = alu;
  lock_time = time 0;
  return_code = 0;
}

abbrev frame : ℕ → Frame
frame now = record { old_rsp = 0x8000; stack = λ i. 0; clock = λ i. time now; local_addr = 0x5000 }

abbrev kernel : Threads → ℕ → Kernel
kernel ts current = record {
  threads = ts;
  current_tick = 0;
  core = record {
    current_thread = current;
    current_thread_kernel_rsp = 0;
    current_thread_user_rsp = 0;
    gs_base = 0;
    fpu = 0;
  };
  memory_map = λ i. 1;
}

-- Slot 1 runs, slot 2 sleeps until 10, slot 3 is ready.
abbrev busy : Kernel
busy =
    kernel
      (some (thread 0 not_exist)
        ∷ some (thread 1 running)
        ∷ some (thread 2 blocked_other)
        ∷ some (thread 3 ready)
        ∷ [])
      1

busy-Indexed : Indexed busy.threads
busy-Indexed zero t h = cc
busy-Indexed (suc zero) t h = cc
busy-Indexed (suc (suc zero)) t h = cc
busy-Indexed (suc (suc (suc zero))) t h = cc
busy-Indexed (suc (suc (suc (suc i)))) t h = cc

busy-RunsOnly : RunsOnly busy.threads 1
busy-RunsOnly zero t h r = cc
busy-RunsOnly (suc zero) t h r = refl
busy-RunsOnly (suc (suc zero)) t h r = cc
busy-RunsOnly (suc (suc (suc zero))) t h r = cc
busy-RunsOnly (suc (suc (suc (suc i)))) t h r = cc

busy-IsScheduled : IsScheduled busy
busy-IsScheduled = record {
  indexed = busy-Indexed;
  idle_in = (thread 0 not_exist, refl);
  current_in = (thread 1 running, refl);
  only = busy-RunsOnly;
}

timer_tick_from_non_idle-RunsNext_example : RunsNext (timer_tick_from_non_idle (frame 9) busy)
timer_tick_from_non_idle-RunsNext_example =
    timer_tick_from_non_idle-RunsNext (frame 9) busy-IsScheduled

ready_runs_within_example : RunsWithin 3 (frame 11 ∷ frame 12 ∷ []) busy
ready_runs_within_example =
    ready_runs_within 3 2 (frame 11 ∷ frame 12 ∷ []) busy-IsScheduled refl refl (omega arith) refl
      (omega arith) (omega arith) (omega arith)

pick_passes_sleeper : pick busy.threads 1 ≡ 3
unfolding pick pick_loop state_is
pick_passes_sleeper = refl

-- Slot 2 has gone to sleep and is about to yield.
abbrev resting : Kernel
resting =
    kernel
      (some (thread 0 not_exist)
        ∷ none
        ∷ some (thread 2 blocked_other)
        ∷ some (thread 3 ready)
        ∷ [])
      2

resting-Indexed : Indexed resting.threads
resting-Indexed zero t h = cc
resting-Indexed (suc zero) t h = cc
resting-Indexed (suc (suc zero)) t h = cc
resting-Indexed (suc (suc (suc zero))) t h = cc
resting-Indexed (suc (suc (suc (suc i)))) t h = cc

resting-NoneRuns : NoneRuns resting.threads
resting-NoneRuns zero t h r = cc
resting-NoneRuns (suc zero) t h r = cc
resting-NoneRuns (suc (suc zero)) t h r = cc
resting-NoneRuns (suc (suc (suc zero))) t h r = cc
resting-NoneRuns (suc (suc (suc (suc i)))) t h r = cc

resting-IsScheduled : IsScheduled resting
resting-IsScheduled = record {
  indexed = resting-Indexed;
  idle_in = (thread 0 not_exist, refl);
  current_in = (thread 2 blocked_other, refl);
  only = λ i t h r. absurd (resting-NoneRuns i t h r);
}

timer_tick1-Returns_example : Returns (timer_tick1 (frame 9) resting)
timer_tick1-Returns_example = timer_tick1-Returns (frame 9) resting-IsScheduled resting-NoneRuns

-- Slot 2 is still running when it yields, and only thread 1 is ready.
abbrev polling : Kernel
polling =
    kernel (some (thread 0 not_exist) ∷ some (thread 1 ready) ∷ some (thread 2 running) ∷ []) 2

polling-Indexed : Indexed polling.threads
polling-Indexed zero t h = cc
polling-Indexed (suc zero) t h = cc
polling-Indexed (suc (suc zero)) t h = cc
polling-Indexed (suc (suc (suc i))) t h = cc

and_false : (b : Bool) → (b && false) ≡ false
and_false true = refl
and_false false = refl

not_both : (b : Bool) → b ≡ false → b ≡ true → ⊥
not_both b e f = cc

one_ready : (i : ℕ) → runnable (saved (frame 9) polling (thread 2 running)).threads i ≡ true → i ≤ 1
unfolding runnable saved save_context handle_sleeping_thread each_thread wake_sleeper state_is
one_ready zero h = omega arith
one_ready (suc zero) h = omega arith
one_ready (suc (suc zero)) h = cc
one_ready (suc (suc (suc i))) h = absurd (not_both _ (and_false _) h)

timer_tick1_strands_example :
    (k1 : Kernel) × (timer_tick1 (frame 9) polling ≡ run 0 k1)
    × ((k2 : Kernel)
        → TicksOn k1 k2
        → (k2.core.current_thread ≢ 2)
          × ((u : Thread) × (thread_at k2.threads 2 ≡ some u) × (u.state ≡ running)))
timer_tick1_strands_example =
    timer_tick1_strands (frame 9) polling polling-Indexed refl refl (omega arith) one_ready

-- The core idles; slot 3 is ready.
abbrev waiting : Kernel
waiting = kernel resting.threads 0

waiting-IsScheduled : IsScheduled waiting
waiting-IsScheduled = record {
  indexed = resting-Indexed;
  idle_in = (thread 0 not_exist, refl);
  current_in = (thread 0 not_exist, refl);
  only = λ i t h r. absurd (resting-NoneRuns i t h r);
}
