-- ===== src/Life.antt =====
-- How processes and threads begin and end, core/scheduler.h. A call takes the tables, the page
-- tables and the block map, and returns them; `none` is a null pointer that is followed, a `panic`
-- for want of memory, or a store outside the thread table.
pub mod Create
pub mod End
pub mod Ended
pub mod Registered
pub mod Leak
use carrotos.Base.{ℕ, ◌+◌, ◌-◌, ◌%◌, ◌^◌, List, []}
use carrotos.Time.{Timeval}
use carrotos.Thread.{Threads, Thread, Context, alu}
use carrotos.Thread.State.{ThreadState}
use carrotos.Process.{Processes}
use carrotos.Paging.{Paging}

-- The tables. `lock_addr` is the address of the field `lock` of a process; `raised` are the entries
-- of `processes_info_ptr` whose pointer a call has raised by one, the latest first: the
-- processes themselves stay as they were here, whatever is read through such a pointer later.
pub record System : Type 0 where
  pub threads : Threads
  pub processes : Processes
  pub paging : Paging
  pub lock_addr : ℕ → ℕ
  pub raised : List ℕ

-- What stays as it is: the kernel's blocks end at `first` and memory at `total`; `past` is the word
-- behind the thread table; `phys_addr` is what an unset variable of the mapping call holds.
pub record Limits : Type 0 where
  pub first : ℕ
  pub total : ℕ
  pub past : ℕ
  pub phys_addr : ℕ

-- `a - b` in 64 bits.
abbrev pub sub64 : ℕ → ℕ → ℕ
sub64 a b = (a + (2 ^ 64 - b)) % 2 ^ 64

-- A context of zeros but for what the calls set.
abbrev pub start_context : (rsp rip cs ss : ℕ) → Context
start_context rsp rip cs ss = record {
  r15 = 0;
  r14 = 0;
  r13 = 0;
  r12 = 0;
  r11 = 0;
  r10 = 0;
  r9 = 0;
  r8 = 0;
  rdi = 0;
  rsi = 0;
  rbp = 0;
  rbx = 0;
  rdx = 0;
  rcx = 0;
  rax = 0;
  rip = rip;
  cs = cs;
  rflags = 0x202;
  rsp = rsp;
  ss = ss;
  gs24 = 0;
  xsave_area = 0;
  fs_base = 0;
  gs_base = 0;
}

-- The structure of a thread in an erased block, with what the calls set.
abbrev pub new_thread :
    (pid tid : ℕ)
    → (state : ThreadState) → (stack_addr kernel_stack_addr ptid : ℕ) → (context : Context) → Thread
new_thread pid tid state stack_addr kernel_stack_addr ptid context = record {
  pid = pid;
  tid = tid;
  state = state;
  wakeup_time = record { tv_sec = 0; tv_microsec = 0 };
  stack_addr = stack_addr;
  kernel_stack_addr = kernel_stack_addr;
  context = context;
  ptid = ptid;
  signal = 0;
  signal_mask = 0;
  sleep_flag_addr = 0;
  context_type = alu;
  lock_time = record { tv_sec = 0; tv_microsec = 0 };
  return_code = 0;
}
