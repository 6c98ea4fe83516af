-- ===== src/Process.antt =====
-- The process table of core/scheduler.h: `process_info_t`, its states, and the table
-- `processes_info_ptr`, whose entries are pointers that may be null.
pub mod Table
use carrotos.Base.{ℕ, Option, List}
use carrotos.Text.{Text}

-- `process_state_t`
pub data ProcessState : Type 0 where
  absent running idle stopped ended_but_not_cleaned handling_signal : ProcessState

-- `process_info_t`; `sm` holds the pointers to the shared memories.
pub record Process : Type 0 where
  pub pid : ℕ
  pub state : ProcessState
  pub main_thread_id : ℕ
  pub signal : ℕ
  pub threads_count : ℕ
  pub pgid : ℕ
  pub sid : ℕ
  pub fd_addr : ℕ
  pub parent_pid : ℕ
  pub heap_start_addr : ℕ
  pub heap_end_addr : ℕ
  pub sig_handlers : List ℕ
  pub uid : ℕ
  pub gid : ℕ
  pub euid : ℕ
  pub egid : ℕ
  pub reuid : ℕ
  pub regid : ℕ
  pub resuid : ℕ
  pub resgid : ℕ
  pub lock : ℕ
  pub return_code : ℕ
  pub sm : List ℕ
  pub cmd_line : Text
  pub env : Text
  pub cwd : Text

-- `processes_info_ptr`, of `MAX_PROCESSES_COUNT` entries.
abbrev pub Processes : Type 0
Processes = List (Option Process)
