-- ===== src/Life/Ended.antt =====
-- What `end_process` leaves, core/scheduler.h.
use carrotos.Base.{
  ℕ, zero, suc, ◌-◌, ◌^◌, ◌≡◌, ◌≢◌, refl, sym, ap, ◌∙◌, ◌⊎◌, inl, inr, Bool-cases, true, false,
  none, some, [], ◌∷◌, arith, ◌==◌,
}
use carrotos.Base.Slots.{slot_at-put_self, slot_at-put_ne, slot_at-lt}
use carrotos.Base.Step.{◌>>=◌}
use carrotos.Thread.{Thread}
use carrotos.Thread.State.{ThreadState, state_is, blocked_pid, state_is_refl}
use carrotos.Thread.Table.{thread_at, each_thread, thread_at-each_some}
use carrotos.Process.{Process, Processes}
use carrotos.Process as P
use carrotos.Process.Table.{process_at, put_process}
use carrotos.Life.{System}
use carrotos.Life.End.{
  free_page_hm, each_process, adopt, count_children_running, woken, wake_for_child, wake_parent,
  free_descriptors, end_process,
}

-- What the loop over the processes leaves in an entry.
process_at-each_process :
    (f : Process → Process) (ps : Processes) (i : ℕ) {p : Process}
    → process_at ps i ≡ some p
    → process_at (each_process f ps) i ≡ some (f p)
unfolding each_process
process_at-each_process f [] i h = cc
process_at-each_process f (none ∷ ps) zero h = cc
process_at-each_process f (some q ∷ ps) zero {p} h = let e : q ≡ p = cc in rw e refl
process_at-each_process f (none ∷ ps) (suc i) h = process_at-each_process f ps i h
process_at-each_process f (some q ∷ ps) (suc i) h = process_at-each_process f ps i h

-- The process itself, before and after the children are given away.
abbrev pub stopped_table : (pid : ℕ) → Process → Processes → Processes
stopped_table pid p ps = put_process ps pid (record p { state = P.stopped })

abbrev pub own : (pid : ℕ) → Process → Process
own pid p = adopt pid (record p { state = P.stopped })

abbrev pub closed_table : (pid return_code : ℕ) → Process → Processes → Processes
closed_table pid return_code p ps =
    put_process (each_process (adopt pid) (stopped_table pid p ps)) pid
      (record (own pid p) { fd_addr = 0; return_code = return_code })

abbrev pub after_end : (pid return_code : ℕ) → System → Process → System
after_end pid return_code sys p = record sys {
  threads =
      each_thread
        (wake_parent (own pid p).parent_pid (sys.lock_addr pid)
          (count_children_running pid (closed_table pid return_code p sys.processes)))
        0 sys.threads;
  processes = closed_table pid return_code p sys.processes;
  paging = record sys.paging {
    memory_map =
        free_descriptors p.fd_addr
          (free_page_hm 4 sys.paging.line (sys.paging.cr3 pid) sys.paging.memory_map);
  };
}

module _ (pid return_code : ℕ) (sys : System) {p : Process}
    (at_pid : process_at sys.processes pid ≡ some p) where
  own_there :
      process_at (each_process (adopt pid) (stopped_table pid p sys.processes)) pid
      ≡ some (own pid p)
  own_there = process_at-each_process (adopt pid) (stopped_table pid p sys.processes) pid (
      slot_at-put_self sys.processes pid (record p { state = P.stopped })
        (slot_at-lt sys.processes pid at_pid))

  pub end_process_total : end_process pid return_code sys ≡ some (after_end pid return_code sys p)
  unfolding end_process
  end_process_total = rw (at_pid, ◌>>=◌) (rw (own_there, ◌>>=◌) refl)

-- The other way round: what an entry was before the loop.
each_process_from :
    (f : Process → Process) (ps : Processes) (i : ℕ) {q : Process}
    → process_at (each_process f ps) i ≡ some q
    → (p : Process) × (process_at ps i ≡ some p) × (q ≡ f p)
unfolding each_process
each_process_from f [] i h = cc
each_process_from f (none ∷ ps) zero h = cc
each_process_from f (some p ∷ ps) zero h = (p, refl, cc)
each_process_from f (none ∷ ps) (suc i) h = each_process_from f ps i h
each_process_from f (some p ∷ ps) (suc i) h = each_process_from f ps i h

adopt-parent : (pid : ℕ) (p : Process) → pid ≢ 1 → (adopt pid p).parent_pid ≢ pid
unfolding adopt
adopt-parent pid p ne e = ground (arith, ne)

adopt-state : (pid : ℕ) (p : Process) → (adopt pid p).state ≡ p.state
unfolding adopt
adopt-state pid p = elim (Bool-cases (p.parent_pid == pid)) [
  | inl e ↦ rw e refl
  | inr e ↦ rw e refl
]

count_children_none :
    (pid : ℕ) (ps : Processes)
    → ((i : ℕ) (p : Process) → process_at ps i ≡ some p → p.parent_pid ≢ pid)
    → count_children_running pid ps ≡ 0
unfolding count_children_running
count_children_none pid [] h = refl
count_children_none pid (none ∷ ps) h = count_children_none pid ps (λ i. h (suc i))
count_children_none pid (some p ∷ ps) h =
    let ne : p.parent_pid ≢ pid = h 0 p refl in
    let rest = count_children_none pid ps (λ i. h (suc i)) in
    let test : (p.parent_pid == pid) ≡ false = ground (arith, ne) in rw test (omega (arith, rest))

-- What ending a process leaves: itself stopped, with no descriptors and the code; no process that
-- has it for a parent; every other entry as it was but for that; the threads that do not belong to
-- its parent as they were; and those of its parent that wait for it or for any child, ready.
pub record Ends (sys : System) (pid return_code parent : ℕ) (v : System) : Type 0 where
  pub ended : Process
  pub there : process_at v.processes pid ≡ some ended
  pub is_stopped : ended.state ≡ P.stopped
  pub closed : ended.fd_addr ≡ 0
  pub code : ended.return_code ≡ return_code
  pub orphans : (i : ℕ) (q : Process) → process_at v.processes i ≡ some q → q.parent_pid ≢ pid
  pub others :
      (i : ℕ) (q : Process)
      → i ≢ pid
      → process_at sys.processes i ≡ some q
      → process_at v.processes i ≡ some (adopt pid q)
  pub unrelated :
      (i : ℕ) (t : Thread)
      → thread_at sys.threads i ≡ some t
      → t.pid ≢ parent
      → thread_at v.threads i ≡ some t
  pub waiting :
      (i : ℕ) (t : Thread)
      → thread_at sys.threads i ≡ some t
      → t.pid ≡ parent
      → t.state ≡ blocked_pid
      → (t.sleep_flag_addr ≡ 2 ^ 64 - 1) ⊎ (t.sleep_flag_addr ≡ sys.lock_addr pid)
      → thread_at v.threads i ≡ some (woken t)

wake_parent-other :
    (parent lock_addr children i : ℕ) (t : Thread)
    → t.pid ≢ parent
    → wake_parent parent lock_addr children i t ≡ t
unfolding wake_parent
wake_parent-other parent lock_addr children i t ne =
    let test : (t.pid == parent) ≡ false = ground (arith, ne) in rw test refl

wake_for_any :
    (lock_addr : ℕ) (t : Thread)
    → (t.sleep_flag_addr == 2 ^ 64 - 1) ≡ true
    → wake_for_child lock_addr 0 t ≡ woken t
unfolding wake_for_child
wake_for_any lock_addr t any =
    rw any (elim (Bool-cases (0 == lock_addr)) [ inl e ↦ rw e refl | inr e ↦ rw e refl ])

wake_for_child-waiting :
    (lock_addr : ℕ) (t : Thread)
    → (t.sleep_flag_addr ≡ 2 ^ 64 - 1) ⊎ (t.sleep_flag_addr ≡ lock_addr)
    → wake_for_child lock_addr 0 t ≡ woken t
wake_for_child-waiting lock_addr t (inl any) = wake_for_any lock_addr t (ground arith)
wake_for_child-waiting lock_addr t (inr lock) =
    let here : (t.sleep_flag_addr == lock_addr) ≡ true = ground arith in
    elim (Bool-cases (t.sleep_flag_addr == 2 ^ 64 - 1)) [
      | inl any ↦ wake_for_any lock_addr t any
      | inr one ↦ unfold wake_for_child in rw one (rw here refl)
    ]

wake_parent-waiting :
    (parent lock_addr i : ℕ) (t : Thread)
    → t.pid ≡ parent
    → t.state ≡ blocked_pid
    → (t.sleep_flag_addr ≡ 2 ^ 64 - 1) ⊎ (t.sleep_flag_addr ≡ lock_addr)
    → wake_parent parent lock_addr 0 i t ≡ woken t
unfolding wake_parent
wake_parent-waiting parent lock_addr i t mine blocked flag =
    let own_test : (t.pid == parent) ≡ true = ground arith in
    let state_test : state_is t.state blocked_pid ≡ true =
      ap (λ (st : ThreadState). state_is st blocked_pid) blocked ∙ state_is_refl blocked_pid in
    rw (own_test, state_test) (wake_for_child-waiting lock_addr t flag)

module _ (pid return_code : ℕ) (sys : System) {p : Process}
    (at_pid : process_at sys.processes pid ≡ some p) (ne : pid ≢ 1) where
  abbrev table : Processes
  table = each_process (adopt pid) (stopped_table pid p sys.processes)

  abbrev last : Process
  last = record (own pid p) { fd_addr = 0; return_code = return_code }

  last_there : process_at (closed_table pid return_code p sys.processes) pid ≡ some last
  last_there =
      slot_at-put_self table pid last (slot_at-lt table pid (own_there pid return_code sys at_pid))

  others_there :
      (i : ℕ)
      → i ≢ pid
      → process_at (closed_table pid return_code p sys.processes) i ≡ process_at table i
  others_there i i_p = slot_at-put_ne table last (λ e. i_p (sym e))

  no_children :
      (i : ℕ) (q : Process)
      → process_at (closed_table pid return_code p sys.processes) i ≡ some q
      → q.parent_pid ≢ pid
  no_children i q h = elim (Bool-cases (i == pid)) [
    | inl e ↦
        let same : i ≡ pid = ground arith in
        let here : process_at (closed_table pid return_code p sys.processes) i ≡ some last =
          rw same last_there in
        let eq : q ≡ last = cc in rw eq (adopt-parent pid (record p { state = P.stopped }) ne)
    | inr e ↦
        let other : i ≢ pid = ground arith in
        let (r, at_r, eq) =
          each_process_from (adopt pid) (stopped_table pid p sys.processes) i
            (sym (others_there i other) ∙ h) in
        rw eq (adopt-parent pid r ne)
  ]

  -- A process that is there and not process 1: ending it returns, and leaves what `Ends` says; the
  -- parent is process 1 where the process was its own parent.
  pub end_process-Ends :
      (v : System) × (end_process pid return_code sys ≡ some v)
      × Ends sys pid return_code (own pid p).parent_pid v
  end_process-Ends =
      let parent = (own pid p).parent_pid in
      let closed = closed_table pid return_code p sys.processes in
      let wake = wake_parent parent (sys.lock_addr pid) (count_children_running pid closed) in
      let none_left : count_children_running pid closed ≡ 0 =
        count_children_none pid closed no_children in
      (
        after_end pid return_code sys p,
        end_process_total pid return_code sys at_pid,
        record {
          ended = last;
          there = last_there;
          is_stopped = adopt-state pid (record p { state = P.stopped });
          closed = refl;
          code = refl;
          orphans = no_children;
          others = λ i q i_p at_i.
              others_there i i_p
              ∙ process_at-each_process (adopt pid) (stopped_table pid p sys.processes) i (
                  slot_at-put_ne sys.processes (record p { state = P.stopped }) (λ e. i_p (sym e))
                  ∙ at_i);
          unrelated = λ i t at_i other.
              thread_at-each_some wake sys.threads i at_i
              ∙ ap some (
                  wake_parent-other parent (sys.lock_addr pid) (count_children_running pid closed) i
                    t other);
          waiting = λ i t at_i mine blocked flag.
              thread_at-each_some wake sys.threads i at_i
              ∙ ap (λ n. some (wake_parent parent (sys.lock_addr pid) n i t)) none_left
              ∙ ap some (wake_parent-waiting parent (sys.lock_addr pid) i t mine blocked flag);
        },
      )
