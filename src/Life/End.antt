-- ===== src/Life/End.antt =====
-- Ending processes and threads, core/scheduler.h.
use carrotos.Base.{
  ℕ, zero, suc, ◌+◌, ◌-◌, ◌*◌, ◌/◌, ◌%◌, ◌^◌, Bool, true, false, ◌&&◌, ◌||◌, not, Option, none,
  some, [], ◌∷◌, ◌==◌, if◌then◌else◌,
}
use carrotos.Base.Step.{◌>>=◌}
use carrotos.Thread.{Threads, Thread}
use carrotos.Thread.State.{state_is, not_exist, ready, blocked_pid, ended_but_not_cleaned}
use carrotos.Thread.Table.{thread_at, put_thread, each_thread}
use carrotos.Process.{Process, Processes, ProcessState}
use carrotos.Process as P
use carrotos.Process.Table.{process_at, put_process}
use carrotos.Memory.{MemoryMap, free_block, set_memory_block_used_when_boot}
use carrotos.Paging.{Paging, Lines, hm, decrease_paging_of_process_with_virt_addr}
use carrotos.Life.{System, sub64}

-- `page_line & 0x000FFFFFFFFFF000`: bits 12 to 51.
unfoldable pub pageline_to_low_addr : ℕ → ℕ
pageline_to_low_addr page_line = page_line / 2 ^ 12 % 2 ^ 40 * 2 ^ 12

-- The loop over the lines of a table from line `i` on; a line without an address is skipped.
unfoldable pub free_entries :
    (ℕ → MemoryMap → MemoryMap) → Lines → (page_addr rounds i : ℕ) → MemoryMap → MemoryMap
unfolding pageline_to_low_addr
free_entries free line page_addr zero i map = map
free_entries free line page_addr (suc rounds) i map =
    let entry = pageline_to_low_addr (line page_addr i) in
    free_entries free line page_addr rounds (i + 1)
      (if entry == 0 then map else free (entry + hm) map)

-- `free_page_hm(page_addr, lv)`; level 0 is a page, which is freed alone.
unfoldable pub free_page_hm : (lv : ℕ) → Lines → (page_addr : ℕ) → MemoryMap → MemoryMap
unfolding free_entries
free_page_hm zero line page_addr map = free_block page_addr map
free_page_hm (suc lv) line page_addr map = free_block page_addr (
    free_entries (free_page_hm lv line) line page_addr (if lv == 3 then hm / 2 ^ 39 else 512) 0 map)

-- A loop over the processes that are there, each changed on its own.
unfoldable pub each_process : (Process → Process) → Processes → Processes
each_process f [] = []
each_process f (none ∷ ps) = none ∷ each_process f ps
each_process f (some p ∷ ps) = some (f p) ∷ each_process f ps

-- The children of a process are given to process 1.
unfoldable pub adopt : (pid : ℕ) → Process → Process
adopt pid p = if p.parent_pid == pid then record p { parent_pid = 1 } else p

unfoldable pub is_over : ProcessState → Bool
is_over P.stopped = true
is_over P.ended_but_not_cleaned = true
is_over P.absent = true
is_over _ = false

unfoldable pub count_children_running : (pid : ℕ) → Processes → ℕ
unfolding is_over
count_children_running pid [] = 0
count_children_running pid (none ∷ ps) = count_children_running pid ps
count_children_running pid (some p ∷ ps) =
    (if p.parent_pid == pid && not (is_over p.state) then 1 else 0) + count_children_running pid ps

abbrev pub woken : Thread → Thread
woken t = record t { state = ready; sleep_flag_addr = 0 }

-- A thread of the parent that waits: for any child, where none is counted, or for this one.
unfoldable pub wake_for_child : (lock_addr children : ℕ) → Thread → Thread
wake_for_child lock_addr children t =
    let first = if t.sleep_flag_addr == 2 ^ 64 - 1 && children == 0 then woken t else t in
    if first.sleep_flag_addr == lock_addr then woken first else first

unfoldable pub wake_parent : (parent_pid lock_addr children : ℕ) → ℕ → Thread → Thread
unfolding wake_for_child
wake_parent parent_pid lock_addr children i t =
    if not (t.pid == parent_pid) || not (state_is t.state blocked_pid)
    then t
    else wake_for_child lock_addr children t

-- The two blocks of the descriptors are taken at `fd_addr / 4096`, `HM` and all.
unfoldable pub free_descriptors : (fd_addr : ℕ) → MemoryMap → MemoryMap
unfolding set_memory_block_used_when_boot
free_descriptors fd_addr map =
    set_memory_block_used_when_boot (fd_addr / 4096 + 1) false
      (set_memory_block_used_when_boot (fd_addr / 4096) false map)

unfoldable pub end_process : (pid return_code : ℕ) → System → Option System
end_process pid return_code sys = do
  stopping ← process_at sys.processes pid
  let map =
      free_descriptors stopping.fd_addr
        (free_page_hm 4 sys.paging.line (sys.paging.cr3 pid) sys.paging.memory_map)
  let stopped = put_process sys.processes pid (record stopping { state = P.stopped })
  let adopted = each_process (adopt pid) stopped
  own ← process_at adopted pid
  let closed = put_process adopted pid (record own { fd_addr = 0; return_code = return_code })
  let children = count_children_running pid closed
  some (record sys {
    threads = each_thread (wake_parent own.parent_pid (sys.lock_addr pid) children) 0 sys.threads;
    processes = closed;
    paging = record sys.paging { memory_map = map };
  })

-- The test for null is the wrong way round: entries that are there are passed over, and the first
-- null pointer is followed.
unfoldable pub stop_threads : Threads → Option Threads
stop_threads [] = some []
stop_threads (none ∷ ts) = none
stop_threads (some t ∷ ts) = do rest ← stop_threads ts; some (some t ∷ rest)

unfoldable pub stop_process : System → Option System
unfolding stop_threads
stop_process sys = do threads ← stop_threads sys.threads; some (record sys { threads = threads })

unfoldable pub end_with_process : (pid : ℕ) → ℕ → Thread → Thread
end_with_process pid i t =
    if t.pid == pid
      && not (state_is t.state not_exist)
      && not (state_is t.state ended_but_not_cleaned)
    then record t { state = ended_but_not_cleaned }
    else t

-- `mark_process_as_ended` of the current process, whose number is `pid`.
unfoldable pub mark_process_as_ended : (pid : ℕ) → System → Option System
mark_process_as_ended pid sys = do
  proc ← process_at sys.processes pid
  some (record sys {
    processes = put_process sys.processes pid (record proc { state = P.ended_but_not_cleaned });
    threads = each_thread (end_with_process pid) 0 sys.threads;
  })

-- The four blocks below the top of a stack, from the first on.
unfoldable pub unmap_stack : (pid stack_addr : ℕ) → (rounds i : ℕ) → Paging → Paging
unfolding decrease_paging_of_process_with_virt_addr
unmap_stack pid stack_addr zero i paging = paging
unmap_stack pid stack_addr (suc rounds) i paging =
    unmap_stack pid stack_addr rounds (i + 1)
      (decrease_paging_of_process_with_virt_addr paging pid (sub64 stack_addr (i * 4096)))

-- `mark_current_thread_as_ended` by the thread `tid` of the process `pid`; the count of threads
-- goes round at 0.
unfoldable pub mark_current_thread_as_ended : (tid pid return_code : ℕ) → System → Option System
mark_current_thread_as_ended tid pid return_code sys = do
  t ← thread_at sys.threads tid
  proc ← process_at sys.processes pid
  let left = sub64 proc.threads_count 1
  let marked = record sys {
    threads =
        put_thread sys.threads tid
          (record t { state = ended_but_not_cleaned; return_code = return_code });
    paging = unmap_stack pid t.stack_addr 4 1 sys.paging;
    processes = put_process sys.processes pid (record proc { threads_count = left });
  }
  (if left == 0 then mark_process_as_ended pid marked else some marked)
