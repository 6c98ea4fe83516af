-- ===== src/Sync/Tests.antt =====
-- Runs of sleeping and waiting.
use carrotos.Base.{
  ℕ, zero, suc, leb, ◌+◌, ◌*◌, ◌/◌, ◌≡◌, refl, true, some, [], ◌∷◌, arith, if◌then◌else◌,
}
use carrotos.Time.{Timeval, Timespec, earlier}
use carrotos.Time.Compare.{IsNormal, instant}
use carrotos.Thread.{Thread, Threads, Context, alu}
use carrotos.Thread.State.{ThreadState, state_is, ready, blocked_other, running, blocked_futex}
use carrotos.Thread.Table.{thread_at}
use carrotos.Sched.{handle_sleeping_thread}
use carrotos.Paging.{Paging, is_paged}
use carrotos.Sync.{
  waits, is_waiter, user_thread_current_sleep, pause_thread_futex, resume_thread_futex,
}
use carrotos.Sync.Wake.{user_thread_current_sleep_wakes, pause_thread_futex_waits}
use carrotos.Sync.Resume.{Resumes, resume_thread_futex-Resumes}

abbrev time : ℕ → Timeval
time s = record { tv_sec = s; tv_microsec = 0 }

abbrev registers : Context
registers = record {
  r15 = 0;
  r14 = 0;
  r13 = 0;
  r12 = 0;
  r11 = 0;
  r10 = 0;
  r9 = 0;
  r8 = 0;
  rdi = 0;
  rsi = 0;
  rbp = 0;
  rbx = 0;
  rdx = 0;
  rcx = 0;
  rax = 0;
  rip = 0;
  cs = 0;
  rflags = 0;
  rsp = 0;
  ss = 0;
  gs24 = 0;
  xsave_area = 0;
  fs_base = 0;
  gs_base = 0;
}

abbrev thread : ℕ → ThreadState → ℕ → ℕ → Thread
thread tid state came futex = record {
  pid = 1;
  tid = tid;
  state = state;
  wakeup_time = time 0;
  stack_addr = 0;
  kernel_stack_addr = 0;
  context = registers;
  ptid = 0;
  signal = 0;
  signal_mask = 0;
  sleep_flag_addr = futex;
  context_type = alu;
  lock_time = time came;
  return_code = 0;
}

-- Slots 1 and 2 wait for the futex at 64, slot 2 for longer.
abbrev table : Threads
table =
    some (thread 0 running 0 0)
    ∷ some (thread 1 blocked_futex 7 64)
    ∷ some (thread 2 blocked_futex 5 64)
    ∷ []

now-IsNormal : IsNormal (time 9)
now-IsNormal = record { us_lt = omega arith }

abbrev half_second : Timespec
half_second = record { tv_sec = 0; tv_nanosec = 500000000 }

user_thread_current_sleep_wakes_example :
    (left : Threads) × (new : Thread) × (user_thread_current_sleep (time 9) half_second 0 table
      ≡ some left)
    × (thread_at (handle_sleeping_thread (λ i. time 10) left) 0 ≡ some new)
    × (new.state ≡ (
        if leb (instant (time 9) + 0 * 1000000 + 500000000 / 1000) (instant (time 10))
        then ready
        else blocked_other))
user_thread_current_sleep_wakes_example =
    user_thread_current_sleep_wakes (time 9) half_second 0 table (λ i. time 10) now-IsNormal
      (record { us_lt = omega arith }) (omega arith) (omega arith) refl

-- Every line leads to block 0, and every address is paged.
abbrev mapped : Paging
mapped = record { line = λ t i. 7; memory_map = λ b. 1; cr3 = λ pid. 0 }

pause_thread_futex_waits_example :
    (left : Threads) × (new : Thread) × (pause_thread_futex mapped
        (λ a. 3)
        (time 9)
        0
        64
        3
        (some half_second)
        table
      ≡ waits left)
    × (new.state ≡ blocked_futex)
    × (new.sleep_flag_addr ≡ 64)
    × ((clock : ℕ → Timeval) → thread_at (handle_sleeping_thread clock left) 0 ≡ some new)
unfolding is_paged
pause_thread_futex_waits_example =
    pause_thread_futex_waits mapped (λ a. 3) (time 9) 0 64 (some half_second) table refl refl refl

waiters_came :
    (j : ℕ) (u : Thread)
    → thread_at table j ≡ some u
    → is_waiter 1 64 u ≡ true
    → earlier u.lock_time (time 9) ≡ true
unfolding earlier is_waiter state_is
waiters_came zero u h w = let e : thread 0 running 0 0 ≡ u = cc in rw (← e) refl
waiters_came (suc zero) u h w = let e : thread 1 blocked_futex 7 64 ≡ u = cc in rw (← e) refl
waiters_came (suc (suc zero)) u h w = let e : thread 2 blocked_futex 5 64 ≡ u = cc in rw (← e) refl
waiters_came (suc (suc (suc j))) u h w = cc

resume_thread_futex-Resumes_example : Resumes 1 64 table (resume_thread_futex (time 9) 1 64 table)
resume_thread_futex-Resumes_example = resume_thread_futex-Resumes (time 9) 1 64 table waiters_came
