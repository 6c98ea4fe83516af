-- ===== src/Thread.antt =====
-- The thread table of core/scheduler.h: `thread_info_t`, its states, and the table
-- `threads_info_ptr`, whose entries are pointers that may be null.
pub mod State
pub mod Table
use carrotos.Base.{ℕ, Option, List}
use carrotos.Time.{Timeval}
use carrotos.Thread.State.{ThreadState}

pub data ContextType : Type 0 where
  alu sse : ContextType

-- `user_thread_context`; the 832 bytes of `xsave_area` are one value.
pub record Context : Type 0 where
  pub r15 : ℕ
  pub r14 : ℕ
  pub r13 : ℕ
  pub r12 : ℕ
  pub r11 : ℕ
  pub r10 : ℕ
  pub r9 : ℕ
  pub r8 : ℕ
  pub rdi : ℕ
  pub rsi : ℕ
  pub rbp : ℕ
  pub rbx : ℕ
  pub rdx : ℕ
  pub rcx : ℕ
  pub rax : ℕ
  pub rip : ℕ
  pub cs : ℕ
  pub rflags : ℕ
  pub rsp : ℕ
  pub ss : ℕ
  pub gs24 : ℕ
  pub xsave_area : ℕ
  pub fs_base : ℕ
  pub gs_base : ℕ

-- `thread_info_t`
pub record Thread : Type 0 where
  pub pid : ℕ
  pub tid : ℕ
  pub state : ThreadState
  pub wakeup_time : Timeval
  pub stack_addr : ℕ
  pub kernel_stack_addr : ℕ
  pub context : Context
  pub ptid : ℕ
  pub signal : ℕ
  pub signal_mask : ℕ
  pub sleep_flag_addr : ℕ
  pub context_type : ContextType
  pub lock_time : Timeval
  pub return_code : ℕ

-- `threads_info_ptr`, of `MAX_THREADS_COUNT` entries.
abbrev pub Threads : Type 0
Threads = List (Option Thread)
