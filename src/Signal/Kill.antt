-- ===== src/Signal/Kill.antt =====
-- `sys_kill` of core/syscall/syscall2.h with the kill signal.
use carrotos.Base.{
  ℕ, ◌≡◌, ◌≢◌, refl, sym, ap, ◌∙◌, ◌⊎◌, inl, inr, Bool-cases, true, false, some, arith, ◌==◌,
}
use carrotos.Base.Slots.{slot_at-put_self, slot_at-put_ne, slot_at-lt}
use carrotos.Base.Step.{◌>>=◌}
use carrotos.Thread.{Thread}
use carrotos.Thread.State.{state_is, not_exist, ended_but_not_cleaned, eq_of_state_is}
use carrotos.Thread.Table.{thread_at, each_thread, thread_at-each_some}
use carrotos.Process.{Process}
use carrotos.Process as P
use carrotos.Process.Table.{process_at, put_process}
use carrotos.Life.{System, Limits}
use carrotos.Life.End.{end_with_process, mark_process_as_ended}
use carrotos.Signal.{is_absent, send_signal_to_process, after_kill, sys_kill}

-- A thread that is marked as ended.
abbrev pub IsOver : Thread → Type 0
IsOver t = (t.state ≡ not_exist) ⊎ (t.state ≡ ended_but_not_cleaned)

end_with_process-IsOver : (pid i : ℕ) (t : Thread) → t.pid ≡ pid → IsOver (end_with_process pid i t)
unfolding end_with_process
end_with_process-IsOver pid i t mine =
    let own_test : (t.pid == pid) ≡ true = ground arith in
    elim (Bool-cases (state_is t.state not_exist)) [
      | inl e ↦ rw (own_test, e) (inl (eq_of_state_is t.state not_exist e))
      | inr e ↦ elim (Bool-cases (state_is t.state ended_but_not_cleaned)) [
        | inl e' ↦ rw (own_test, e, e') (inr (eq_of_state_is t.state ended_but_not_cleaned e'))
        | inr e' ↦ rw (own_test, e, e') (inr refl)
      ]
    ]

end_with_process-other : (pid i : ℕ) (t : Thread) → t.pid ≢ pid → end_with_process pid i t ≡ t
unfolding end_with_process
end_with_process-other pid i t other =
    let own_test : (t.pid == pid) ≡ false = ground arith in rw own_test refl

module _ (lim : Limits) (turns current pid : ℕ) (sys w : System) {target caller : Process}
    (at_pid : process_at sys.processes pid ≡ some target) (exists : is_absent target.state ≡ false)
    (sent : send_signal_to_process lim turns pid 9 sys ≡ some w)
    (at_caller : process_at w.processes current ≡ some caller) where
  -- The kill signal sent by `sys_kill` from the process `current` to a process that is there: where
  -- sending it returns and `current` is still in the table, the call returns 0, and it is `current`,
  -- whatever the target was, that it marks as ended, with every thread of it; what sending the
  -- signal has left of the other processes and of their threads stays as it is.
  pub sys_kill_ends_caller :
      (v : System) × (sys_kill lim turns current pid 9 sys ≡ some (0, v))
      × (process_at v.processes current ≡ some (record caller { state = P.ended_but_not_cleaned }))
      × ((q : ℕ) → q ≢ current → process_at v.processes q ≡ process_at w.processes q)
      × ((i : ℕ) (t : Thread)
          → thread_at w.threads i ≡ some t
          → t.pid ≡ current
          → (u : Thread) × (thread_at v.threads i ≡ some u) × IsOver u)
      × ((i : ℕ) (t : Thread)
          → thread_at w.threads i ≡ some t
          → t.pid ≢ current
          → thread_at v.threads i ≡ some t)
  unfolding sys_kill after_kill mark_process_as_ended
  sys_kill_ends_caller =
      let ended = record caller { state = P.ended_but_not_cleaned } in
      let v : System = record w {
        processes = put_process w.processes current ended;
        threads = each_thread (end_with_process current) 0 w.threads;
      } in
      (
        v,
        rw at_pid (rw exists (rw (sent, ◌>>=◌) (rw (at_caller, ◌>>=◌) refl))),
        slot_at-put_self w.processes current ended (slot_at-lt w.processes current at_caller),
        λ q other. slot_at-put_ne w.processes ended (λ e. other (sym e)),
        λ i t at_i mine. (
          end_with_process current i t,
          thread_at-each_some (end_with_process current) w.threads i at_i,
          end_with_process-IsOver current i t mine,
        ),
        λ i t at_i other.
            thread_at-each_some (end_with_process current) w.threads i at_i
            ∙ ap some (end_with_process-other current i t other),
      )
