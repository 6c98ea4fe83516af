-- ===== src/Signal/Return.antt =====
-- The way back from a signal's handler, `sys_rt_sigreturn` of core/syscall/syscall2.h.
use carrotos.Base.{
  ℕ, ◌%◌, ◌^◌, ◌≤◌, ◌<◌, ◌≡◌, ◌≢◌, refl, sym, ap, ◌∙◌, true, false, some, Bool-cases, inl, inr,
  arith, ◌==◌, length, get_or,
}
use carrotos.Base.Slots.{slot_at-put_self, slot_at-put_ne, slot_at-lt}
use carrotos.Base.Step.{◌>>=◌}
use carrotos.Thread.{Thread, Threads}
use carrotos.Thread.State.{
  ThreadState, state_is, ready, waiting_signal, ended_but_not_cleaned, state_is_refl,
}
use carrotos.Thread.Table.{thread_at, put_thread, each_thread, thread_at-each_some}
use carrotos.Process.{Process}
use carrotos.Process as P
use carrotos.Process.Table.{process_at, put_process}
use carrotos.Life.{System, Limits, sub64}
use carrotos.Life.Create.{register_a_thread}
use carrotos.Life.End.{unmap_stack, mark_current_thread_as_ended}
use carrotos.Signal.{is_handling, go_on, handle_signal_process, sys_rt_sigreturn}
use carrotos.Signal.Handle.{waits, Handles, handle_signal_process-Handles}

-- After the return the process runs, and each of its threads that was there before the signal is
-- ready, whatever it was doing then; no thread of another process is changed.
pub record Revives (sys : System) (pid h : ℕ) (v : System) : Type 0 where
  pub process : Process
  pub there : process_at v.processes pid ≡ some process
  pub runs : process.state ≡ P.running
  pub handler : Thread
  pub handler_there : thread_at v.threads h ≡ some handler
  pub handler_over : handler.state ≡ ended_but_not_cleaned
  pub revived :
      (i : ℕ) (t : Thread)
      → i ≢ h
      → thread_at sys.threads i ≡ some t
      → t.pid ≡ pid
      → thread_at v.threads i ≡ some (record t { state = ready })
  pub others :
      (i : ℕ) (t : Thread)
      → i ≢ h
      → thread_at sys.threads i ≡ some t
      → t.pid ≢ pid
      → thread_at v.threads i ≡ some t

go_on-waits :
    (pid i : ℕ) (t : Thread) → t.pid ≡ pid → go_on pid i (waits t) ≡ record t { state = ready }
unfolding go_on
go_on-waits pid i t mine =
    let own_test : (t.pid == pid) ≡ true = ground arith in
    rw (own_test, state_is_refl waiting_signal) refl

go_on-other : (pid i : ℕ) (t : Thread) → t.pid ≢ pid → go_on pid i t ≡ t
unfolding go_on
go_on-other pid i t ne =
    let own_test : (t.pid == pid) ≡ false = ground (arith, ne) in rw own_test refl

ended_not_waiting : state_is ended_but_not_cleaned waiting_signal ≡ false
unfolding state_is
ended_not_waiting = refl

go_on-ended : (pid i : ℕ) (t : Thread) → t.state ≡ ended_but_not_cleaned → go_on pid i t ≡ t
unfolding go_on
go_on-ended pid i t over =
    let test : state_is t.state waiting_signal ≡ false =
      ap (λ (s : ThreadState). state_is s waiting_signal) over ∙ ended_not_waiting in
    elim (Bool-cases (t.pid == pid)) [ inl e ↦ rw (e, test) refl | inr e ↦ rw e refl ]

module _ (sys : System) (pid entry h : ℕ) (p : Process) (v : System)
    (handles : Handles sys pid entry h p v) (count : (sub64 p.threads_count 1 == 0) ≡ false) where
  abbrev over : Thread
  over = record handles.handler { state = ended_but_not_cleaned; return_code = h }

  abbrev proc : Process
  proc = record p { state = P.handling_signal }

  abbrev marked : System
  marked = record v {
    threads = put_thread v.threads h over;
    paging = unmap_stack pid handles.handler.stack_addr 4 1 v.paging;
    processes =
        put_process v.processes pid (record proc { threads_count = sub64 p.threads_count 1 });
  }

  marked_total : mark_current_thread_as_ended h pid h v ≡ some marked
  unfolding mark_current_thread_as_ended
  marked_total = rw (handles.there, ◌>>=◌) (rw (handles.process, ◌>>=◌) (rw count refl))

  abbrev gone_on : Threads
  gone_on = each_thread (go_on pid) 0 marked.threads

  handler_gone_on : thread_at gone_on h ≡ some over
  handler_gone_on =
      thread_at-each_some (go_on pid) marked.threads h
        (slot_at-put_self v.threads h over (slot_at-lt v.threads h handles.there))
      ∙ ap some (go_on-ended pid h over refl)

  process_marked :
      process_at marked.processes pid
      ≡ some (record proc { threads_count = sub64 p.threads_count 1 })
  process_marked =
      slot_at-put_self v.processes pid (record proc { threads_count = sub64 p.threads_count 1 })
        (slot_at-lt v.processes pid handles.process)

  abbrev returned : System
  returned = record marked {
    processes =
        put_process marked.processes pid
          (record p { threads_count = sub64 p.threads_count 1; state = P.running });
    threads = put_thread gone_on h (record over { signal = 0 });
  }

  returned_total : sys_rt_sigreturn pid h v ≡ some (0, returned)
  unfolding sys_rt_sigreturn
  returned_total =
      rw (marked_total, ◌>>=◌) (rw (process_marked, ◌>>=◌) (rw (handler_gone_on, ◌>>=◌) refl))

  elsewhere :
      (i : ℕ) {t : Thread}
      → i ≢ h
      → thread_at v.threads i ≡ some t
      → thread_at returned.threads i ≡ some (go_on pid i t)
  elsewhere i ne at_i =
      slot_at-put_ne gone_on (record over { signal = 0 }) (λ e. ne (sym e))
      ∙ thread_at-each_some (go_on pid) marked.threads i
          (slot_at-put_ne v.threads over (λ e. ne (sym e)) ∙ at_i)

  returned-Revives : Revives sys pid h returned
  returned-Revives = record {
    process = record p { threads_count = sub64 p.threads_count 1; state = P.running };
    there =
        slot_at-put_self marked.processes pid
          (record p { threads_count = sub64 p.threads_count 1; state = P.running })
          (slot_at-lt marked.processes pid process_marked);
    runs = refl;
    handler = record over { signal = 0 };
    handler_there =
        slot_at-put_self gone_on h (record over { signal = 0 })
          (slot_at-lt gone_on h handler_gone_on);
    handler_over = refl;
    revived = λ i t ne at_i mine.
        elsewhere i ne (handles.stopped i t ne at_i mine) ∙ ap some (go_on-waits pid i t mine);
    others = λ i t ne at_i other.
        elsewhere i ne (handles.others i t at_i other) ∙ ap some (go_on-other pid i t other);
  }

module _ (lim : Limits) (turns pid h : ℕ) (sys w : System) {p : Process}
    (at_pid : process_at sys.processes pid ≡ some p) (ok : 2 ≤ length sys.threads)
    (idle : is_handling p.state ≡ false) (not_kill : p.signal ≢ 9) (not_stop : p.signal ≢ 19)
    (count : p.threads_count < 2 ^ 64) (not_last : p.threads_count ≢ 1)
    (done : register_a_thread lim turns pid (get_or p.sig_handlers (p.signal % 2 ^ 8) 0) sys
      ≡ some (h, w)) where
  -- A process takes a signal as in `handle_signal_process-Handles`, its count of threads is not 1,
  -- and the handler's thread then returns from the signal: both calls return, and they leave what
  -- `Revives` says. A thread of the process that was asleep, waiting or dead is ready now.
  pub sys_rt_sigreturn-handle_signal_process :
      (v : System) × (x : System) × (handle_signal_process lim turns pid sys ≡ some (h, v))
      × (sys_rt_sigreturn pid h v ≡ some (0, x))
      × Revives sys pid h x
  sys_rt_sigreturn-handle_signal_process =
      let (v, taken, handles) =
        handle_signal_process-Handles lim turns pid h sys w at_pid ok idle not_kill not_stop done in
      let entry = get_or p.sig_handlers (p.signal % 2 ^ 8) 0 in
      let left : (sub64 p.threads_count 1 == 0) ≡ false = ground (arith, not_last) in
      (
        v,
        returned sys pid entry h p v handles left,
        taken,
        returned_total sys pid entry h p v handles left,
        returned-Revives sys pid entry h p v handles left,
      )
