-- ===== src/Life/Create.antt =====
-- Registering processes and threads, core/scheduler.h.
use carrotos.Base.{
  ℕ, zero, suc, ◌+◌, ◌-◌, ◌*◌, ◌%◌, ◌^◌, not, Option, none, some, [], ◌∷◌, ◌==◌, ltb, if◌then◌else◌,
  length, replicate,
}
use carrotos.Thread.{Threads}
use carrotos.Thread.State.{not_exist, ready, idle}
use carrotos.Thread.Table.{thread_at, put_thread}
use carrotos.Process.{Process, Processes}
use carrotos.Process as P
use carrotos.Process.Table.{process_at, put_process}
use carrotos.Memory.{get_continuous_free_blocks, get_a_free_slot}
use carrotos.Paging.{
  Paging, Lines, hm, erase_block, is_paged, get_a_free_block_addr,
  increase_paging_of_process_with_virt_addr,
}
use carrotos.Life.{System, Limits, sub64, start_context, new_thread}
use carrotos.Base.Step.{◌>>=◌}

-- A word of the thread table as the search for a slot reads it: 0 for a free slot.
unfoldable pub slot_word : (past : ℕ) → Threads → ℕ → ℕ
slot_word past ts i =
    if ltb i (length ts) then elim (thread_at ts i) [ none ↦ 0 | some t ↦ 1 ] else past

-- A free slot from `start` on. The search looks at the word behind the table as well; a store there
-- is `none`.
unfoldable pub find_thread_slot : Limits → (start : ℕ) → Threads → Option ℕ
unfolding slot_word get_a_free_slot
find_thread_slot lim start ts = do
  i ← get_a_free_slot (slot_word lim.past ts) start (length ts)
  (if ltb i (length ts) then some i else none)

-- `while (true)` over the stacks from the top of the address space down; each round goes down by
-- five blocks. `turns` is how many rounds are made at most.
unfoldable pub find_stack_top : Paging → (pid : ℕ) → (turns : ℕ) → (thread_stack_top : ℕ) → Option ℕ
find_stack_top paging pid zero thread_stack_top = none
find_stack_top paging pid (suc turns) thread_stack_top =
    let rest = find_stack_top paging pid turns (sub64 thread_stack_top (5 * 4096)) in
    if not (is_paged paging pid (sub64 thread_stack_top 4096)) then some thread_stack_top else rest

-- The four blocks below the top, the loop from round `i` on.
unfoldable pub map_stack :
    Limits → (pid thread_stack_top : ℕ) → (rounds i : ℕ) → Paging → Option Paging
map_stack lim pid thread_stack_top zero i paging = some paging
map_stack lim pid thread_stack_top (suc rounds) i paging =
    elim (increase_paging_of_process_with_virt_addr lim.first lim.total lim.phys_addr paging pid
      (sub64 (sub64 thread_stack_top (i * 4096)) 4096)) [
        | none ↦ none
        | some (addr, mapped) ↦ map_stack lim pid thread_stack_top rounds (i + 1) mapped
      ]

-- `erase_block(addr + i * 4096)` from `i` on.
unfoldable pub erase_blocks : (rounds i : ℕ) → (addr : ℕ) → Lines → Lines
unfolding erase_block
erase_blocks zero i addr line = line
erase_blocks (suc rounds) i addr line =
    erase_blocks rounds (i + 1) addr (erase_block (addr + i * 4096) line)

-- Five erased blocks for the structure of a thread and its kernel stack: their address.
unfoldable pub thread_blocks : Limits → Paging → Option (ℕ × Paging)
unfolding get_continuous_free_blocks erase_blocks
thread_blocks lim paging = do
  (block, map) ← get_continuous_free_blocks lim.first lim.total 5 paging.memory_map
  let addr = (block * 4096 + hm) % 2 ^ 64
  some (addr, record paging { memory_map = map; line = erase_blocks 5 0 addr paging.line })

-- The structure in a free slot from 2 on.
unfoldable pub place_thread :
    Limits
    → (pid entry_point_addr thread_stack_top addr : ℕ) → Paging
    → System
    → Option (ℕ × System)
unfolding find_thread_slot
place_thread lim pid entry_point_addr thread_stack_top addr paging sys = do
  thread_id ← find_thread_slot lim 2 sys.threads
  some (
    thread_id,
    record sys {
      threads = put_thread sys.threads thread_id (
          new_thread pid thread_id not_exist thread_stack_top (addr + 5 * 4096) 0
            (start_context thread_stack_top entry_point_addr 0x23 0x1b));
      paging = paging;
      raised = (pid + 4) ∷ sys.raised;
    },
  )

-- `&processes_info_ptr[pid]` is taken for the address of the process, so the count that is raised
-- is the pointer four entries on.
unfoldable pub register_a_thread :
    Limits → (turns : ℕ) → (pid entry_point_addr : ℕ) → System → Option (ℕ × System)
unfolding find_stack_top map_stack thread_blocks place_thread
register_a_thread lim turns pid entry_point_addr sys = do
  thread_stack_top ← find_stack_top sys.paging pid turns (hm - 4096)
  mapped ← map_stack lim pid thread_stack_top 4 0 sys.paging
  (addr, paging) ← thread_blocks lim mapped
  place_thread lim pid entry_point_addr thread_stack_top addr paging sys

-- The entry point is the word at the top of the stack that is handed in.
unfoldable pub register_a_sub_thread :
    Limits → (word : ℕ → ℕ) → (pid stack_top_addr ptid : ℕ) → System → Option (ℕ × System)
unfolding thread_blocks find_thread_slot
register_a_sub_thread lim word pid stack_top_addr ptid sys = do
  (addr, paging) ← thread_blocks lim sys.paging
  thread_id ← find_thread_slot lim 1 sys.threads
  some (
    thread_id,
    record sys {
      threads = put_thread sys.threads thread_id (
          new_thread pid thread_id ready stack_top_addr (addr + 5 * 4096) ptid
            (start_context stack_top_addr (word stack_top_addr) 0x23 0x1b));
      paging = paging;
      raised = (pid + 4) ∷ sys.raised;
    },
  )

unfoldable pub register_a_kernel_thread :
    Limits → (entry_point_addr : ℕ) → System → Option (ℕ × System)
unfolding thread_blocks find_thread_slot
register_a_kernel_thread lim entry_point_addr sys = do
  (addr, paging) ← thread_blocks lim sys.paging
  thread_id ← find_thread_slot lim 1 sys.threads
  some (
    thread_id,
    record sys {
      threads = put_thread sys.threads thread_id (
          new_thread 1 thread_id ready (addr + 5 * 4096) (addr + 5 * 4096) 0
            (start_context (addr + 5 * 4096) entry_point_addr 0x08 0x10));
      paging = paging;
    },
  )

-- A process in an erased block.
abbrev pub zero_process : Process
zero_process = record {
  pid = 0;
  state = P.absent;
  main_thread_id = 0;
  signal = 0;
  threads_count = 0;
  pgid = 0;
  sid = 0;
  fd_addr = 0;
  parent_pid = 0;
  heap_start_addr = 0;
  heap_end_addr = 0;
  sig_handlers = replicate 64 0;
  uid = 0;
  gid = 0;
  euid = 0;
  egid = 0;
  reuid = 0;
  regid = 0;
  resuid = 0;
  resgid = 0;
  lock = 0;
  return_code = 0;
  sm = replicate 64 0;
  cmd_line = [];
  env = [];
  cwd = [];
}

-- An erased block for the structure of a process.
unfoldable pub process_block : Limits → Paging → Option Paging
unfolding get_a_free_block_addr erase_block
process_block lim paging = do
  (addr, map) ← get_a_free_block_addr lim.first lim.total paging.memory_map
  some (record paging { memory_map = map; line = erase_block addr paging.line })

-- The group and the session are read `parent_pid` structures behind the new one, where `stray` is.
unfoldable pub setup_process_info :
    Limits → (stray : ℕ × ℕ) → (pid parent_pid : ℕ) → System → Option System
unfolding process_block get_continuous_free_blocks
setup_process_info lim stray pid parent_pid sys = do
  paging ← process_block lim sys.paging
  (block, map) ← get_continuous_free_blocks lim.first lim.total 20 paging.memory_map
  let (group, session) = if parent_pid == pid then (pid, pid) else stray
  some (record sys {
    processes = put_process sys.processes pid (record zero_process {
      pid = pid;
      state = P.running;
      fd_addr = (block * 4096 + hm) % 2 ^ 64;
      parent_pid = parent_pid;
      pgid = group;
      sid = session;
    });
    paging = record paging { memory_map = map };
  })

-- The kernel's own top table becomes that of process 0.
unfoldable pub setup_idle_process_info : Limits → (page_table_l4 : ℕ) → System → Option System
unfolding process_block
setup_idle_process_info lim page_table_l4 sys = do
  paging ← process_block lim sys.paging
  some (record sys {
    processes = put_process sys.processes 0 (record zero_process { state = P.idle });
    paging = record paging {
      cr3 = λ pid. if pid == 0 then (page_table_l4 + hm) % 2 ^ 64 else paging.cr3 pid;
    };
  })

-- `erase_mem8` clears the structure and no more, so it is that of an erased block.
unfoldable pub setup_kernel_process : Limits → (page_table_l4 : ℕ) → System → Option System
unfolding get_a_free_block_addr
setup_kernel_process lim page_table_l4 sys = do
  (addr, map) ← get_a_free_block_addr lim.first lim.total sys.paging.memory_map
  some (record sys {
    processes = put_process sys.processes 1 (record zero_process { state = P.running });
    paging = record sys.paging {
      memory_map = map;
      cr3 = λ pid. if pid == 1 then (page_table_l4 + hm) % 2 ^ 64 else sys.paging.cr3 pid;
    };
  })

unfoldable pub register_idle_thread : Limits → (xsleep_top xsleep : ℕ) → System → Option System
unfolding process_block
register_idle_thread lim xsleep_top xsleep sys = do
  proc ← process_at sys.processes 0
  paging ← process_block lim sys.paging
  some (record sys {
    threads =
        put_thread sys.threads 0
          (new_thread 0 0 idle 0 0 0 (start_context xsleep_top xsleep 0x8 0x10));
    processes =
        put_process sys.processes 0
          (record proc { threads_count = (proc.threads_count + 1) % 2 ^ 64 });
    paging = paging;
  })
