-- ===== src/Signal/Freeze.antt =====
-- `send_signal_to_thread` of core/ipc/signal.h.
use carrotos.Base.{
  ℕ, zero, suc, ◌≤◌, ◌<◌, ◌≡◌, ◌≢◌, refl, sym, ap, ◌∙◌, ◌⊎◌, inl, inr, true, false, Option, none,
  some, List, [], ◌∷◌, arith, ◌==◌, ltb, get_or, length, length-set, ℕ_discrete,
}
use carrotos.Base.Slots.{slot_at, each_strict, slot_at-put_self, slot_at-put_ne, slot_at-lt}
use carrotos.Base.Step.{◌>>=◌}
use carrotos.Thread.{Thread, Threads}
use carrotos.Thread.State.{ready, waiting_signal}
use carrotos.Thread.Table.{thread_at, put_thread}
use carrotos.Process.{Process}
use carrotos.Process as P
use carrotos.Process.Table.{process_at, put_process}
use carrotos.Life.{System, Limits}
use carrotos.Life.Create.{register_a_thread}
use carrotos.Signal.{
  is_signal_masked, begin_handler, wait_all, handle_signal_thread, send_signal_to_thread,
}

-- The entries after a loop that follows every pointer.
abbrev Follows {ℓ} : {A : Type ℓ} → (A → A) → List (Option A) → List (Option A) → Type ℓ
Follows {A} f xs ys =
    ((i : ℕ) → i < length xs → (a : A) × (slot_at xs i ≡ some a) × (slot_at ys i ≡ some (f a)))
    × (length ys ≡ length xs)

Follows-cons {ℓ} :
    {A : Type ℓ} (f : A → A) (a : A) (xs ys : List (Option A))
    → Follows f xs ys
    → Follows f (some a ∷ xs) (some (f a) ∷ ys)
Follows-cons {A} f a xs ys (all, same) = (each, ap suc same)
  where
    each :
        (i : ℕ)
        → i < length (some a ∷ xs)
        → (b : A) × (slot_at (some a ∷ xs) i ≡ some b) × (slot_at (some (f a) ∷ ys) i ≡ some (f b))
    each zero h = (a, refl, refl)
    each (suc i) h = all i (omega arith)

-- Such a loop faults where an entry is null, and else has changed every entry.
each_strict_cases {ℓ} :
    {A : Type ℓ} (f : A → A) (xs : List (Option A))
    → ((j : ℕ) × (j < length xs) × (slot_at xs j ≡ none) × (each_strict f xs ≡ none))
      ⊎ ((ys : List (Option A)) × (each_strict f xs ≡ some ys) × Follows f xs ys)
unfolding each_strict
each_strict_cases f [] = inr ([], refl, (λ i h. absurd (omega arith), refl))
each_strict_cases f (none ∷ xs) = inl (0, omega arith, refl, refl)
each_strict_cases f (some a ∷ xs) = elim (each_strict_cases f xs) [
  | inl (j, h, n, e) ↦ inl (suc j, omega arith, n, rw e refl)
  | inr (ys, e, v) ↦ inr (some (f a) ∷ ys, rw e refl, Follows-cons f a xs ys v)
]

wait_all-own : (pid : ℕ) (t : Thread) → t.pid ≡ pid → (wait_all pid t).state ≡ waiting_signal
unfolding wait_all
wait_all-own pid t mine = let own_test : (t.pid == pid) ≡ true = ground arith in rw own_test refl

wait_all-other : (pid : ℕ) (t : Thread) → t.pid ≢ pid → wait_all pid t ≡ t
unfolding wait_all
wait_all-other pid t other =
    let own_test : (t.pid == pid) ≡ false = ground arith in rw own_test refl

-- What has become of the threads when a process waits for its signal to be handled: those of the
-- process wait, and the others are as they were.
pub record Freezes (pid h : ℕ) (before after : Threads) : Type 0 where
  pub all_wait :
      (i : ℕ) (t : Thread)
      → thread_at before i ≡ some t
      → t.pid ≡ pid
      → (u : Thread) × (thread_at after i ≡ some u) × (u.state ≡ waiting_signal)
  pub handler_waits : (u : Thread) × (thread_at after h ≡ some u) × (u.state ≡ waiting_signal)
  pub others :
      (i : ℕ) (t : Thread) → thread_at before i ≡ some t → t.pid ≢ pid → thread_at after i ≡ some t

-- With the table `before` that the handler's thread `h` has been registered in: a fault, which comes
-- exactly of a null pointer in it, or the value, and the process frozen.
pub data FaultsOrFreezes (pid h value : ℕ) (before : Threads) (r : Option (ℕ × System))
    : Type 0 where
  faults :
      (j : ℕ)
      → j < length before
      → thread_at before j ≡ none
      → r ≡ none
      → FaultsOrFreezes pid h value before r
  freezes :
      (v : System)
      → ((j : ℕ) → j < length before → thread_at before j ≢ none)
      → r ≡ some (value, v)
      → Freezes pid h before v.threads
      → FaultsOrFreezes pid h value before r

module _ (pid h : ℕ) (before : Threads) {handler : Thread}
    (there : thread_at before h ≡ some handler) (own : handler.pid ≡ pid) where
  abbrev begun : Threads
  begun = put_thread before h (record handler { state = ready })

  begun-length : length begun ≡ length before
  begun-length = length-set before h (some (record handler { state = ready }))

  begun_self : thread_at begun h ≡ some (record handler { state = ready })
  begun_self =
      slot_at-put_self before h (record handler { state = ready }) (slot_at-lt before h there)

  begun_ne : {i : ℕ} → i ≢ h → thread_at begun i ≡ thread_at before i
  begun_ne other = slot_at-put_ne before (record handler { state = ready }) (λ e. other (sym e))

  begun_null : (j : ℕ) → thread_at begun j ≡ none → thread_at before j ≡ none
  begun_null j null = elim (ℕ_discrete j h) [
    | no e ↦ sym (begun_ne e) ∙ null
    | yes e ↦
        let full : thread_at begun j ≡ some (record handler { state = ready }) = rw e begun_self in
        cc
  ]

  begun_full :
      (after : Threads)
      → Follows (wait_all pid) begun after
      → (j : ℕ) → j < length before
      → thread_at before j ≢ none
  begun_full after (all, same) j inside null = elim (ℕ_discrete j h) [
    | no e ↦
        let (a, from, to) = all j (omega (arith, inside, begun-length)) in
        let gone = begun_ne e ∙ null in cc
    | yes e ↦ let full : thread_at before j ≡ some handler = rw e there in cc
  ]

  Freezes-of_Follows :
      (after : Threads) → Follows (wait_all pid) begun after → Freezes pid h before after
  Freezes-of_Follows after (all, same) = record {
    all_wait = λ i t at mine. elim (ℕ_discrete i h) [
      | yes e ↦ rw e handler_stops
      | no e ↦ (wait_all pid t, step i t (begun_ne e ∙ at), wait_all-own pid t mine)
    ];
    handler_waits = handler_stops;
    others = λ i t at other. elim (ℕ_discrete i h) [
      | yes e ↦ absurd (other (owned i t at e))
      | no e ↦ step i t (begun_ne e ∙ at) ∙ ap some (wait_all-other pid t other)
    ];
  }
    where
      step :
          (i : ℕ) (t : Thread)
          → thread_at begun i ≡ some t
          → thread_at after i ≡ some (wait_all pid t)
      step i t at =
          let (a, from, to) = all i (slot_at-lt begun i at) in
          let same_thread : a ≡ t = cc in to ∙ ap (λ x. some (wait_all pid x)) same_thread

      handler_stops : (u : Thread) × (thread_at after h ≡ some u) × (u.state ≡ waiting_signal)
      handler_stops = (
        wait_all pid (record handler { state = ready }),
        step h (record handler { state = ready }) begun_self,
        wait_all-own pid (record handler { state = ready }) own,
      )

      owned : (i : ℕ) (t : Thread) → thread_at before i ≡ some t → i ≡ h → t.pid ≡ pid
      owned i t at e =
          let at_h : thread_at before h ≡ some t = ap (thread_at before) (sym e) ∙ at in
          let same_thread : t ≡ handler = cc in ap (λ (x : Thread). x.pid) same_thread ∙ own

abbrev finish : (pid h : ℕ) → System → Option (ℕ × System)
finish pid h w = begin_handler pid h w >>= λ begun.
    each_strict (wait_all pid) begun.threads >>= λ threads.
    some (h, record begun { threads = threads })

finish-Freezes :
    (pid h : ℕ) (w : System) {handler : Thread} {p : Process}
    → thread_at w.threads h ≡ some handler
    → handler.pid ≡ pid
    → process_at w.processes pid ≡ some p
    → FaultsOrFreezes pid h h w.threads (finish pid h w)
unfolding begin_handler
finish-Freezes pid h w {handler} {p} there own at_pid =
    let b = begun pid h w.threads there own in
    let started : System = record w {
      threads = b;
      processes = put_process w.processes pid (record p { state = P.handling_signal });
    } in
    let begins : begin_handler pid h w ≡ some started =
      rw (there, ◌>>=◌) (rw (at_pid, ◌>>=◌) refl) in
    elim (each_strict_cases (wait_all pid) b) [
      | inl (j, inside, null, e) ↦
          faults j (omega (arith, inside, begun-length pid h w.threads there own))
            (begun_null pid h w.threads there own j null) (rw (begins, ◌>>=◌) (rw (e, ◌>>=◌) refl))
      | inr (ts, e, v) ↦
          freezes (record started { threads = ts }) (begun_full pid h w.threads there own ts v)
            (rw (begins, ◌>>=◌) (rw (e, ◌>>=◌) refl))
            (Freezes-of_Follows pid h w.threads there own ts v)
    ]

module _ (lim : Limits) (turns tid sig h : ℕ) (sys w : System) {t : Thread} {p : Process}
    (at_tid : thread_at sys.threads tid ≡ some t) (some_signal : 0 < sig) (valid : sig ≤ 63)
    (unmasked : is_signal_masked sig t.signal_mask ≡ false)
    (at_pid : process_at sys.processes t.pid ≡ some p) where
  abbrev signalled : System
  signalled = record sys { threads = put_thread sys.threads tid (record t { signal = sig }) }

  handled :
      register_a_thread lim turns t.pid (get_or p.sig_handlers sig 0) signalled ≡ some (h, w)
      → handle_signal_thread lim turns tid signalled ≡ finish t.pid h w
  unfolding handle_signal_thread
  handled done =
      let there : thread_at signalled.threads tid ≡ some (record t { signal = sig }) =
        slot_at-put_self sys.threads tid (record t { signal = sig })
          (slot_at-lt sys.threads tid at_tid) in
      let zero_test : (sig == 0) ≡ false = ground arith in
      rw (there, ◌>>=◌) (rw zero_test (rw (at_pid, ◌>>=◌) (rw (done, ◌>>=◌) refl)))

  -- Where the handler has run, the sender gets 0.
  sent :
      send_signal_to_thread lim turns t.pid tid sig sys
      ≡ (handle_signal_thread lim turns tid signalled >>= λ r. some (0, r.1))
  unfolding send_signal_to_thread
  sent =
      let range_test : ltb 63 sig ≡ false = ground arith in
      let own_test : (t.pid == t.pid) ≡ true = ground arith in
      rw range_test (rw at_tid (rw (own_test, unmasked) refl))

  -- A thread, its process, a signal between 1 and 63 that the thread does not mask, and a thread
  -- `h` of the process that has been registered for the handler: the call of
  -- `send_signal_to_thread` faults where the table then has a null pointer, and only there. Where it
  -- has none, the call returns 0, and all threads of the process, the one that was to run the
  -- handler among them, wait for the signal to be handled, and those of other processes are as they
  -- were.
  pub send_signal_to_thread_freezes :
      {handler : Thread} {q : Process}
      → register_a_thread lim turns t.pid (get_or p.sig_handlers sig 0) signalled ≡ some (h, w)
      → thread_at w.threads h ≡ some handler
      → handler.pid ≡ t.pid
      → process_at w.processes t.pid ≡ some q
      → FaultsOrFreezes t.pid h 0 w.threads (send_signal_to_thread lim turns t.pid tid sig sys)
  send_signal_to_thread_freezes done there own at_q =
      let whole = sent ∙ ap (λ r. r >>= λ (x : ℕ × System). some (0, x.1)) (handled done) in
      elim (finish-Freezes t.pid h w there own at_q)
        as (λ _.
          FaultsOrFreezes t.pid h 0 w.threads (send_signal_to_thread lim turns t.pid tid sig sys)) [
            | faults j inside null e ↦ faults j inside null (whole ∙ rw (e, ◌>>=◌) refl)
            | freezes v full e all ↦ freezes v full (whole ∙ rw (e, ◌>>=◌) refl) all
          ]
