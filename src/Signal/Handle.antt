-- ===== src/Signal/Handle.antt =====
-- A process that takes a signal, core/interrupt.h: what `handle_signal_process` leaves.
use carrotos.Base.{
  ℕ, ◌%◌, ◌^◌, ◌≤◌, ◌≡◌, ◌≢◌, refl, sym, ap, ◌∙◌, true, false, none, some, Bool-cases, inl, inr,
  arith, ◌==◌, length, get_or,
}
use carrotos.Base.Slots.{slot_at-put_self, slot_at-put_ne, slot_at-lt}
use carrotos.Base.Step.{◌>>=◌}
use carrotos.Thread.{Thread, Threads}
use carrotos.Thread.State.{ready, waiting_signal}
use carrotos.Thread.Table.{thread_at, put_thread, each_thread, thread_at-each_some}
use carrotos.Process.{Process}
use carrotos.Process as P
use carrotos.Process.Table.{process_at, put_process}
use carrotos.Life.{System, Limits, start_context, new_thread}
use carrotos.Life.Create.{register_a_thread}
use carrotos.Life.Registered.{Registers, IsFirstFree, register_a_thread-Registers}
use carrotos.Signal.{
  is_handling, wait_for_handler, begin_handler, run_handler, handle_signal_process,
}

abbrev pub waits : Thread → Thread
waits t = record t { state = waiting_signal }

-- What a process that has begun to handle a signal is: a new thread of it is ready at the handler,
-- all its other threads wait, the process is marked, and no thread of another process is changed.
pub record Handles (sys : System) (pid entry_point_addr h : ℕ) (p : Process) (v : System)
    : Type 0 where
  pub handler : Thread
  pub slot : IsFirstFree sys.threads 2 h
  pub there : thread_at v.threads h ≡ some handler
  pub is_ready : handler.state ≡ ready
  pub own : handler.pid ≡ pid
  pub entry : handler.context.rip ≡ entry_point_addr
  pub process : process_at v.processes pid ≡ some (record p { state = P.handling_signal })
  pub stopped :
      (i : ℕ) (t : Thread)
      → i ≢ h
      → thread_at sys.threads i ≡ some t
      → t.pid ≡ pid
      → thread_at v.threads i ≡ some (waits t)
  pub others :
      (i : ℕ) (t : Thread)
      → thread_at sys.threads i ≡ some t
      → t.pid ≢ pid
      → thread_at v.threads i ≡ some t

wait-own : (pid h i : ℕ) (t : Thread) → i ≢ h → t.pid ≡ pid → wait_for_handler pid h i t ≡ waits t
unfolding wait_for_handler
wait-own pid h i t ne mine =
    let own_test : (t.pid == pid) ≡ true = ground arith in
    let other_test : (h == i) ≡ false = ground (arith, ne) in rw (own_test, other_test) refl

wait-handler : (pid h : ℕ) (t : Thread) → wait_for_handler pid h h t ≡ t
unfolding wait_for_handler
wait-handler pid h t =
    let own_test : (h == h) ≡ true = ground arith in
    elim (Bool-cases (t.pid == pid)) [ inl e ↦ rw (e, own_test) refl | inr e ↦ rw e refl ]

wait-other : (pid h i : ℕ) (t : Thread) → t.pid ≢ pid → wait_for_handler pid h i t ≡ t
unfolding wait_for_handler
wait-other pid h i t ne =
    let own_test : (t.pid == pid) ≡ false = ground (arith, ne) in rw own_test refl

module _ (lim : Limits) (turns pid sig h : ℕ) (sys w : System) {p : Process}
    (at_pid : process_at sys.processes pid ≡ some p) (ok : 2 ≤ length sys.threads)
    (done : register_a_thread lim turns pid (get_or p.sig_handlers sig 0) sys ≡ some (h, w)) where
  abbrev entry_of : ℕ
  entry_of = get_or p.sig_handlers sig 0

  registered : Registers sys pid entry_of h w
  registered = register_a_thread-Registers lim turns pid entry_of sys ok done

  abbrev made : Thread
  made =
      new_thread pid h ready registered.stack registered.kernel_stack 0
        (start_context registered.stack entry_of 0x23 0x1b)

  abbrev begun_threads : Threads
  begun_threads = put_thread w.threads h made

  pub after_handler : System
  after_handler = record w {
    threads = each_thread (wait_for_handler pid h) 0 begun_threads;
    processes = put_process w.processes pid (record p { state = P.handling_signal });
  }

  process_kept : process_at w.processes pid ≡ some p
  process_kept = ap (λ ps. process_at ps pid) registered.processes ∙ at_pid

  pub run_handler_total : run_handler lim turns pid sig p sys ≡ some (h, after_handler)
  unfolding run_handler begin_handler after_handler
  run_handler_total =
      rw (done, ◌>>=◌) (rw (registered.there, ◌>>=◌) (rw (process_kept, ◌>>=◌) refl))

  begun-other :
      (i : ℕ) {t : Thread}
      → i ≢ h
      → thread_at sys.threads i ≡ some t
      → thread_at begun_threads i ≡ some t
  begun-other i ne at_i =
      slot_at-put_ne w.threads made (λ e. ne (sym e)) ∙ registered.others i ne ∙ at_i

  pub not_handler : (i : ℕ) {t : Thread} → thread_at sys.threads i ≡ some t → i ≢ h
  not_handler i at_i e = let free : thread_at sys.threads i ≡ none = rw e registered.slot.free in cc

  pub run_handler-Handles : Handles sys pid entry_of h p after_handler
  unfolding after_handler
  run_handler-Handles =
      let wait = wait_for_handler pid h in
      record {
        handler = made;
        slot = registered.slot;
        there =
            thread_at-each_some wait begun_threads h
              (slot_at-put_self w.threads h made (slot_at-lt w.threads h registered.there))
            ∙ ap some (wait-handler pid h made);
        is_ready = refl;
        own = refl;
        entry = refl;
        process =
            slot_at-put_self w.processes pid (record p { state = P.handling_signal })
              (slot_at-lt w.processes pid process_kept);
        stopped = λ i t ne at_i mine.
            thread_at-each_some wait begun_threads i (begun-other i ne at_i)
            ∙ ap some (wait-own pid h i t ne mine);
        others = λ i t at_i other.
            thread_at-each_some wait begun_threads i (begun-other i (not_handler i at_i) at_i)
            ∙ ap some (wait-other pid h i t other);
      }

module _ (lim : Limits) (turns pid h : ℕ) (sys w : System) {p : Process}
    (at_pid : process_at sys.processes pid ≡ some p) (ok : 2 ≤ length sys.threads)
    (idle : is_handling p.state ≡ false) (not_kill : p.signal ≢ 9) (not_stop : p.signal ≢ 19)
    (done : register_a_thread lim turns pid (get_or p.sig_handlers (p.signal % 2 ^ 8) 0) sys
      ≡ some (h, w)) where
  -- A process that is there, is not handling a signal, and has one that is neither the kill nor the
  -- stop signal, where a thread for the handler can be registered: `handle_signal_process` returns
  -- the number of that thread, and it leaves what `Handles` says.
  pub handle_signal_process-Handles :
      (v : System) × (handle_signal_process lim turns pid sys ≡ some (h, v))
      × Handles sys pid (get_or p.sig_handlers (p.signal % 2 ^ 8) 0) h p v
  unfolding handle_signal_process
  handle_signal_process-Handles =
      let kill_test : (p.signal == 9) ≡ false = ground (arith, not_kill) in
      let stop_test : (p.signal == 19) ≡ false = ground (arith, not_stop) in
      let sig = p.signal % 2 ^ 8 in
      (
        after_handler lim turns pid sig h sys w at_pid ok done,
        rw (at_pid, ◌>>=◌)
            (rw (idle, kill_test, stop_test)
              (run_handler_total lim turns pid sig h sys w at_pid ok done)),
        run_handler-Handles lim turns pid sig h sys w at_pid ok done,
      )
