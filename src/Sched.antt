-- ===== src/Sched.antt =====
-- The scheduler of core/interrupt.h: the three timer handlers and what they call. A handler is
-- one step: it runs with interrupts off and under `threads_info_lock`, which asm/scheduler.asm
-- releases after the switch. Parameters of a step: the interrupted stack and its address, the
-- clock as `get_time_us` gives it for each slot of the table, and the address of the local
-- variable that `end_thread` takes.
pub mod Pick
pub mod Save
pub mod Switch
pub mod Yield
pub mod Stranded
pub mod Strand
pub mod Fair
pub mod Idle
mod Tests
use carrotos.Base.{
  ℕ, zero, suc, ◌+◌, ◌-◌, ◌*◌, ◌/◌, ◌%◌, ◌^◌, Bool, true, false, ◌&&◌, not, Option, none, some,
  ◌==◌, ltb, if◌then◌else◌, length, bit_and,
}
use carrotos.Memory.{MemoryMap, set_memory_block_used_when_boot}
use carrotos.Time.{Timeval, later_or_same}
use carrotos.Thread.{Thread, Threads, Context, ContextType, alu, sse}
use carrotos.Thread.State.{state_is, ready, running, blocked_other, ended_but_not_cleaned, dead}
use carrotos.Thread.Table.{thread_at, put_thread, each_thread}

-- What is kept for the core: the words at gs:8, gs:16 and gs:24, the GS base of the running
-- thread, and the state of the floating-point unit that `xsave_context` stores.
pub record Core : Type 0 where
  pub current_thread : ℕ
  pub current_thread_kernel_rsp : ℕ
  pub current_thread_user_rsp : ℕ
  pub gs_base : ℕ
  pub fpu : ℕ

pub record Kernel : Type 0 where
  pub threads : Threads
  pub current_tick : ℕ
  pub core : Core
  pub memory_map : MemoryMap

-- What the processor pushed and the handler's stub: the words from `old_rsp` on.
pub record Frame : Type 0 where
  pub old_rsp : ℕ
  pub stack : ℕ → ℕ
  pub clock : ℕ → Timeval
  pub local_addr : ℕ

-- A handler returns the thread to run; it faults at a null `curr`; and it can end without a
-- `return`, so that the stub takes whatever the register holds.
pub data Tick : Type 0 where
  fault : Tick
  no_value : Kernel → Tick
  run : ℕ → Kernel → Tick

unfoldable pub wake_sleeper : (ℕ → Timeval) → ℕ → Thread → Thread
wake_sleeper clock i curr =
    if state_is curr.state blocked_other && later_or_same (clock i) curr.wakeup_time
    then record curr { state = ready }
    else curr

-- `handle_slepping_thread`
pub handle_sleeping_thread : (ℕ → Timeval) → Threads → Threads
unfolding wake_sleeper each_thread
handle_sleeping_thread clock ts = each_thread (wake_sleeper clock) 0 ts

-- The search for the next thread, with the rounds left and the loop's `i`; 0 if there is none.
pub pick_loop : Threads → ℕ → ℕ → ℕ → ℕ
pick_loop ts current zero i = 0
pick_loop ts current (suc k) i =
    let rest = pick_loop ts current k (i + 1) in
    let idx = (current + i) % length ts in
    if idx == 0 then rest else elim (thread_at ts idx) [
      | none ↦ rest
      | some t ↦ if state_is t.state ready then idx else rest
    ]

pub pick : Threads → ℕ → ℕ
unfolding pick_loop
pick ts current = pick_loop ts current (length ts - 1) 1

-- The exit code that `end_thread` leaves: -2 stands for "keep the code that is there".
end_code : Thread → ℕ → ℕ
end_code t return_code = if return_code == 2 ^ 64 - 2 then t.return_code else return_code

-- The four blocks that `end_thread` gives back are counted from the address of its own local
-- variable, not from that of the thread.
free_four : ℕ → MemoryMap → MemoryMap
unfolding set_memory_block_used_when_boot
free_four block m =
    let free = λ (i : ℕ) (n : MemoryMap). set_memory_block_used_when_boot (block + i + 1) false n in
    free 3 (free 2 (free 1 (free 0 m)))

-- `end_thread(tid, return_code)` at a slot that holds `t`.
pub end_thread : Frame → ℕ → Thread → ℕ → Kernel → Kernel
unfolding end_code free_four
end_thread f tid t return_code k = record k {
  threads =
      put_thread k.threads tid (record t { state = dead; return_code = end_code t return_code });
  memory_map = free_four (f.local_addr / 4096) k.memory_map;
}

is_sse : ContextType → Bool
is_sse alu = false
is_sse sse = true

-- The registers of the interrupted thread go into its context.
pub save_context : Frame → Core → Thread → Thread
unfolding is_sse
save_context f core curr =
    let stack = f.stack in
    let from_user = bit_and (stack 16) 0x3 == 0x3 in
    let user_segments = ltb 0x10 (stack 16) in
    record curr {
      context = record {
        rax = stack 0;
        rcx = stack 1;
        rdx = stack 2;
        rbx = stack 3;
        rbp = stack 4;
        rsi = stack 5;
        rdi = stack 6;
        r8 = stack 7;
        r9 = stack 8;
        r10 = stack 9;
        r11 = stack 10;
        r12 = stack 11;
        r13 = stack 12;
        r14 = stack 13;
        r15 = stack 14;
        rip = stack 15;
        rflags = stack 17;
        cs = if user_segments then 0x23 else 0x08;
        ss = if user_segments then 0x1B else 0x10;
        rsp = if from_user then stack 18 else (f.old_rsp + 20 * 8) % 2 ^ 64;
        gs24 = core.current_thread_user_rsp;
        xsave_area = if is_sse curr.context_type then core.fpu else curr.context.xsave_area;
        fs_base = curr.context.fs_base;
        gs_base = curr.context.gs_base;
      };
    }

-- The new thread's words go to gs:8 and gs:16; its GS base and, if it uses it, its
-- floating-point state are loaded. `user_rsp` is what stands at gs:24 afterwards.
pub enter : Kernel → ℕ → Thread → (user_rsp : ℕ) → Kernel
unfolding is_sse
enter k new_tid t user_rsp = record k {
  threads = put_thread k.threads new_tid (record t { state = running });
  core = record {
    current_thread = t.tid;
    current_thread_kernel_rsp = t.kernel_stack_addr;
    current_thread_user_rsp = user_rsp;
    gs_base = t.context.gs_base;
    fpu = if is_sse t.context_type then t.context.xsave_area else k.core.fpu;
  };
}

-- No thread runs: thread 0 idles.
pub enter_idle : Kernel → Kernel
enter_idle k = record k {
  core = record {
    current_thread = 0;
    current_thread_kernel_rsp = 0;
    current_thread_user_rsp = 0;
    gs_base = 0;
    fpu = k.core.fpu;
  };
}

-- `threads_info_ptr[i]->...`: a fault where the pointer is null.
pub deref : Threads → ℕ → (Thread → Tick) → Tick
deref ts i use_it = elim (thread_at ts i) [ none ↦ fault | some t ↦ use_it t ]

-- The timer tick while the core idles: nothing is saved, and gs:24 and the GS base stay where no
-- thread is found.
pub timer_tick_from_idle : Frame → Kernel → Tick
unfolding handle_sleeping_thread pick enter deref
timer_tick_from_idle f k =
    let k1 = record k {
      current_tick = (k.current_tick + 1) % 2 ^ 64;
      threads = handle_sleeping_thread f.clock k.threads;
    } in
    let new_tid = pick k1.threads 0 in
    let rest = record k1 {
      core = record (k1.core) { current_thread = 0; current_thread_kernel_rsp = 0 };
    } in
    if new_tid == 0
    then run 0 rest
    else deref k1.threads new_tid
        (λ t. run new_tid (enter k1 new_tid t k1.core.current_thread_user_rsp))

-- A thread that was running goes back among the ready ones.
pub give_back : ℕ → Thread → Threads → Threads
give_back current curr ts =
    if state_is curr.state running
    then put_thread ts current (record curr { state = ready })
    else ts

-- The old thread is given back, and the new one entered.
pub switch_from : ℕ → Thread → ℕ → Kernel → Tick
unfolding give_back enter deref
switch_from current curr new_tid k =
    let k1 = record k { threads = give_back current curr k.threads } in
    deref k1.threads new_tid (λ t. run new_tid (enter k1 new_tid t t.context.gs24))

-- The end of the tick, `curr` being the interrupted thread as it is by then.
pub finish_tick : ℕ → Thread → ℕ → Kernel → Tick
unfolding switch_from enter_idle
finish_tick current curr new_tid k =
    if not (new_tid == 0)
    then switch_from current curr new_tid k
    else if state_is curr.state running
    then run current k
    else if not (state_is curr.state ready)
    then run 0 (enter_idle k)
    else no_value k

-- The end of a yield: a new thread is entered only if its number is above 1.
pub finish_yield : ℕ → Thread → ℕ → Kernel → Tick
unfolding switch_from enter_idle
finish_yield current curr new_tid k =
    if ltb 1 new_tid then switch_from current curr new_tid k else run 0 (enter_idle k)

-- A thread that has ended is put away; the code handed over is -1.
pub bury : Frame → ℕ → Thread → Kernel → Kernel
unfolding end_thread
bury f current curr k =
    if state_is curr.state ended_but_not_cleaned
    then end_thread f current curr (2 ^ 64 - 1) k
    else k

-- The tick counted, the registers saved, and the sleepers woken whose time has come.
pub saved : Frame → Kernel → Thread → Kernel
unfolding handle_sleeping_thread save_context
saved f k old = record k {
  current_tick = (k.current_tick + 1) % 2 ^ 64;
  threads =
      handle_sleeping_thread f.clock
        (put_thread k.threads k.core.current_thread (save_context f k.core old));
}

-- The part that the two handlers share. `curr` is read through its pointer after each change.
pub tick_with : (ℕ → Thread → ℕ → Kernel → Tick) → Frame → Kernel → Tick
unfolding saved pick bury deref
tick_with finish f k =
    let current = k.core.current_thread in
    deref k.threads current λ old.
      let k1 = saved f k old in
      deref k1.threads current λ curr.
        let k2 = bury f current curr k1 in
        deref k2.threads current λ curr'. finish current curr' (pick k1.threads current) k2

-- The timer tick in a running thread.
pub timer_tick_from_non_idle : Frame → Kernel → Tick
unfolding tick_with finish_tick
timer_tick_from_non_idle f k = tick_with finish_tick f k

-- What `scheduler_yeild` comes to: the thread gives up the core of its own accord.
pub timer_tick1 : Frame → Kernel → Tick
unfolding tick_with finish_yield
timer_tick1 f k = tick_with finish_yield f k
