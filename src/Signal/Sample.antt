-- ===== src/Signal/Sample.antt =====
-- A small system for the tests of Life and Signal: the idle thread, a thread of the kernel, and the
-- main thread of process 2, whose tables map nothing yet.
use carrotos.Base.{ℕ, ◌+◌, ◌-◌, ◌^◌, Option, none, some, List, [], ◌∷◌}
use carrotos.Thread.{Thread}
use carrotos.Thread.State.{ThreadState, idle, ready, blocked_pid}
use carrotos.Process.{Process, running}
use carrotos.Paging.{Paging, hm}
use carrotos.Life.{System, Limits, new_thread, start_context}
use carrotos.Life.Create.{zero_process}

abbrev pub limits : Limits
limits = record { first = 1; total = 40; past = 7; phys_addr = 0 }

abbrev pub thread : (pid tid : ℕ) → ThreadState → Thread
thread pid tid state = new_thread pid tid state 8192 0 0 (start_context 8192 0 35 27)

-- It waits for any child to end.
abbrev pub parent : Thread
parent = record (thread 1 1 blocked_pid) { sleep_flag_addr = 2 ^ 64 - 1 }

abbrev pub process : (pid parent_pid signal : ℕ) → Process
process pid parent_pid signal = record zero_process {
  pid = pid;
  state = running;
  parent_pid = parent_pid;
  signal = signal;
  fd_addr = hm + 81920;
  threads_count = 2;
}

abbrev pub tables : Paging
tables = record { line = λ table index. 0; memory_map = λ block. 0; cr3 = λ pid. hm + 4096 }

abbrev pub small : (rest : List (Option Thread)) → System
small rest = record {
  threads = some (thread 0 0 idle) ∷ some parent ∷ some (thread 2 2 ready) ∷ rest;
  processes = some (process 0 0 0) ∷ some (process 1 1 0) ∷ some (process 2 1 10) ∷ none ∷ [];
  paging = tables;
  lock_addr = λ pid. 65536 + pid;
  raised = [];
}

-- What a call that returned has left.
abbrev pub left_by : System → Option (ℕ × System) → System
left_by other none = other
left_by other (some (value, sys)) = sys
