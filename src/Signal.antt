-- ===== src/Signal.antt =====
-- Signals: the masks and the sending of core/ipc/signal.h, the handlers of core/interrupt.h and the
-- calls of core/syscall/syscall2.h. The state and its faults are those of Life.
pub mod Handle
pub mod Return
pub mod Kill
pub mod Freeze
mod Sample
mod Tests
use carrotos.Base.{
  ℕ, ◌+◌, ◌-◌, ◌%◌, ◌^◌, Bool, true, false, ◌&&◌, ◌||◌, not, Option, none, some, List, [], ◌∷◌,
  ◌==◌, ltb, if◌then◌else◌, get_or, set, bit_and, bit_or,
}
use carrotos.Base.Slots.{find_strict, each_strict}
use carrotos.Base.Step.{◌>>=◌}
use carrotos.Thread.{Threads, Thread}
use carrotos.Thread.State.{state_is, not_exist, ready, blocked_other, waiting_signal}
use carrotos.Thread.Table.{thread_at, put_thread, each_thread}
use carrotos.Process.{Process, ProcessState}
use carrotos.Process as P
use carrotos.Process.Table.{process_at, put_process}
use carrotos.Sync.{einval, eagain}
use carrotos.Life.{System, Limits}
use carrotos.Life.Create.{register_a_thread}
use carrotos.Life.End.{
  end_process, stop_process, mark_process_as_ended, mark_current_thread_as_ended,
}

abbrev pub esrch : ℕ
esrch = 2 ^ 64 - 3

abbrev pub eacces : ℕ
eacces = 2 ^ 64 - 13

abbrev pub max_signal : ℕ
max_signal = 63

-- A mask is 64 bits.
unfoldable pub mask_a_signal : (mask signal_num : ℕ) → ℕ
mask_a_signal mask signal_num =
    if ltb max_signal signal_num then mask else bit_or mask (2 ^ signal_num)

unfoldable pub unmask_a_signal : (mask signal_num : ℕ) → ℕ
unmask_a_signal mask signal_num =
    if ltb max_signal signal_num then mask else bit_and mask (2 ^ 64 - 1 - 2 ^ signal_num)

unfoldable pub do_mask_a_signal : (mask signal_num : ℕ) → (action : Bool) → ℕ
unfolding mask_a_signal unmask_a_signal
do_mask_a_signal mask signal_num action =
    if action then mask_a_signal mask signal_num else unmask_a_signal mask signal_num

-- The callers have looked that the number is at most 63.
unfoldable pub is_signal_masked : (signal_num signal_mask : ℕ) → Bool
is_signal_masked signal_num signal_mask = not (bit_and signal_mask (2 ^ signal_num) == 0)

unfoldable pub is_handling : ProcessState → Bool
is_handling P.handling_signal = true
is_handling _ = false

unfoldable pub is_absent : ProcessState → Bool
is_absent P.absent = true
is_absent _ = false

-- The threads of a process wait, but for the one that handles the signal.
unfoldable pub wait_for_handler : (pid handler_tid : ℕ) → ℕ → Thread → Thread
wait_for_handler pid handler_tid i t =
    if t.pid == pid && not (handler_tid == i) then record t { state = waiting_signal } else t

-- The new thread is made ready, and the process handles the signal.
unfoldable pub begin_handler : (pid handler_tid : ℕ) → System → Option System
begin_handler pid handler_tid sys = do
  handler ← thread_at sys.threads handler_tid
  proc ← process_at sys.processes pid
  some (record sys {
    threads = put_thread sys.threads handler_tid (record handler { state = ready });
    processes = put_process sys.processes pid (record proc { state = P.handling_signal });
  })

-- `sig_handlers` has 64 entries, and the calls send no number above 63; for one that is, the source
-- reads the fields behind, and 0 stands here.
unfoldable pub run_handler : Limits → (turns pid sig : ℕ) → Process → System → Option (ℕ × System)
run_handler lim turns pid sig proc sys = do
  (handler_tid, registered) ← register_a_thread lim turns pid (get_or proc.sig_handlers sig 0) sys
  begun ← begin_handler pid handler_tid registered
  let threads = each_thread (wait_for_handler pid handler_tid) 0 begun.threads
  some (handler_tid, record begun { threads = threads })

unfoldable pub with_zero : Option System → Option (ℕ × System)
with_zero none = none
with_zero (some sys) = some (0, sys)

unfoldable pub handle_signal_process : Limits → (turns pid : ℕ) → System → Option (ℕ × System)
unfolding with_zero
handle_signal_process lim turns pid sys = do
  proc ← process_at sys.processes pid
  (if is_handling proc.state
      then some (0, sys)
      else if proc.signal == 9
      then with_zero (end_process pid 255 sys)
      else if proc.signal == 19
      then with_zero (stop_process sys)
      else run_handler lim turns pid (proc.signal % 2 ^ 8) proc sys)

-- Here the handler's own thread is made to wait, too, and null pointers are followed.
unfoldable pub wait_all : (pid : ℕ) → Thread → Thread
wait_all pid t = if t.pid == pid then record t { state = waiting_signal } else t

unfoldable pub handle_signal_thread : Limits → (turns tid : ℕ) → System → Option (ℕ × System)
handle_signal_thread lim turns tid sys = do
  thread ← thread_at sys.threads tid
  (if thread.signal == 0 then some (0, sys) else do
    proc ← process_at sys.processes thread.pid
    (handler_tid, registered) ←
        register_a_thread lim turns thread.pid (get_or proc.sig_handlers thread.signal 0) sys
    begun ← begin_handler thread.pid handler_tid registered
    threads ← each_strict (wait_all thread.pid) begun.threads
    some (handler_tid, record begun { threads = threads }))

-- A thread of the process at which the signal is not masked.
unfoldable pub takes_signal : (pid sig : ℕ) → Thread → Bool
unfolding is_signal_masked
takes_signal pid sig t = t.pid == pid && not (is_signal_masked sig t.signal_mask)

-- What is returned is an error, or nothing known: the code ends without `return`.
unfoldable pub send_signal_to_process : Limits → (turns pid sig : ℕ) → System → Option System
send_signal_to_process lim turns pid sig sys = if ltb max_signal sig then some sys else do
  found ← find_strict (takes_signal pid sig) sys.threads 0
  elim found [
    | none ↦ end_process pid 9 sys
    | some i ↦ do
      t ← thread_at sys.threads i
      proc ← process_at sys.processes pid
      (handler_tid, handled) ← handle_signal_process lim turns pid (record sys {
        threads = put_thread sys.threads i (record t { signal = sig });
        processes = put_process sys.processes pid (record proc { signal = sig });
      })
      some handled
  ]

unfoldable pub send_signal_to_thread :
    Limits → (turns pid tid sig : ℕ) → System → Option (ℕ × System)
send_signal_to_thread lim turns pid tid sig sys =
    if ltb max_signal sig then some (einval, sys) else elim (thread_at sys.threads tid) [
      | none ↦ some (esrch, sys)
      | some t ↦
          if not (t.pid == pid)
          then some (esrch, sys)
          else if is_signal_masked sig t.signal_mask
          then some (eacces, sys)
          else do
            (handler_tid, handled) ←
                handle_signal_thread lim turns tid
                  (record sys { threads = put_thread sys.threads tid (record t { signal = sig }) })
            some (0, handled)
    ]

-- A ready thread of the process is blocked.
unfoldable pub block_ready : (pid : ℕ) → Thread → Thread
block_ready pid t =
    if t.pid == pid && state_is t.state ready then record t { state = blocked_other } else t

-- What `sys_kill` does when the signal has been sent; `current_pid` is the process that calls.
unfoldable pub after_kill : Limits → (turns current_pid pid sig : ℕ) → System → Option (ℕ × System)
after_kill lim turns current_pid pid sig sys =
    if sig == 9
    then (do marked ← mark_process_as_ended current_pid sys; some (0, marked))
    else if sig == 19
    then (do
      threads ← each_strict (block_ready pid) sys.threads
      some (0, record sys { threads = threads }))
    else do
      let blocked = record sys { threads = each_thread (λ i. block_ready pid) 0 sys.threads }
      proc ← process_at blocked.processes pid
      (if is_handling proc.state then some (eagain, blocked) else do
        (handler_tid, handled) ← handle_signal_process lim turns pid blocked
        some (0, handled))

unfoldable pub sys_kill : Limits → (turns current_pid pid sig : ℕ) → System → Option (ℕ × System)
sys_kill lim turns current_pid pid sig sys =
    if ltb max_signal sig then some (einval, sys) else elim (process_at sys.processes pid) [
      | none ↦ some (esrch, sys)
      | some target ↦ if is_absent target.state then some (esrch, sys) else do
        sent ← send_signal_to_process lim turns pid sig sys
        after_kill lim turns current_pid pid sig sent
    ]

unfoldable pub sys_tgkill : Limits → (turns pid tid sig : ℕ) → System → Option (ℕ × System)
sys_tgkill lim turns pid tid sig sys =
    if ltb sig 1 || ltb max_signal sig then some (einval, sys) else do
      proc ← process_at sys.processes pid
      (if is_absent proc.state then some (esrch, sys) else do
        t ← thread_at sys.threads tid
        (if state_is t.state not_exist then some (esrch, sys) else do
          (handler_tid, handled) ←
              handle_signal_thread lim turns tid
                (record sys { threads = put_thread sys.threads tid (record t { signal = sig }) })
          some (0, handled)))

-- The handler that is installed; what the call stores through `oldact` is left out.
unfoldable pub sys_rt_sigaction : (pid signum : ℕ) → (act : Option ℕ) → System → Option (ℕ × System)
sys_rt_sigaction pid signum act sys =
    if ltb max_signal signum || signum == 9 || signum == 19 then some (einval, sys) else elim act [
      | none ↦ some (0, sys)
      | some sa_handler ↦ do
        proc ← process_at sys.processes pid
        some (
          0,
          record sys {
            processes =
                put_process sys.processes pid
                  (record proc { sig_handlers = set proc.sig_handlers signum sa_handler });
          },
        )
    ]

unfoldable pub go_on : (pid : ℕ) → ℕ → Thread → Thread
go_on pid i t =
    if t.pid == pid && state_is t.state waiting_signal then record t { state = ready } else t

unfoldable pub sys_rt_sigreturn : (pid tid : ℕ) → System → Option (ℕ × System)
sys_rt_sigreturn pid tid sys = do
  ended ← mark_current_thread_as_ended tid pid tid sys
  let threads = each_thread (go_on pid) 0 ended.threads
  proc ← process_at ended.processes pid
  t ← thread_at threads tid
  some (
    0,
    record ended {
      processes = put_process ended.processes pid (record proc { state = P.running });
      threads = put_thread threads tid (record t { signal = 0 });
    },
  )

-- The mask that is left, and what goes to `oldset`; `how` is 0 to block, 1 to unblock, 2 to set.
unfoldable pub sigprocmask : (tid how : ℕ) → (new_set : Option ℕ) → Threads → ℕ × Option ℕ × Threads
sigprocmask tid how new_set ts = elim new_set [
  | none ↦ (einval, none, ts)
  | some mask ↦ elim (thread_at ts tid) [
    | none ↦ (esrch, none, ts)
    | some curr ↦
        let store = λ (m : ℕ). put_thread ts tid (record curr { signal_mask = m }) in
        if how == 0
        then (0, some curr.signal_mask, store (bit_or curr.signal_mask mask))
        else if how == 1
        then (0, some curr.signal_mask, store (bit_and curr.signal_mask (2 ^ 64 - 1 - mask)))
        else if how == 2
        then (0, some curr.signal_mask, store mask)
        else (einval, some curr.signal_mask, ts)
  ]
]
