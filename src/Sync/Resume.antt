-- ===== src/Sync/Resume.antt =====
-- Which waiting thread a futex wakes.
use carrotos.Base.{
  ℕ, zero, suc, ◌+◌, ◌≡◌, refl, ap, ◌∙◌, true, false, Option, none, some, [], ◌∷◌, arith,
  Bool-cases, inl, inr,
}
use mathlib.Core.Path.{subst}
use carrotos.Time.{Timeval, earlier}
use carrotos.Thread.{Thread, Threads}
use carrotos.Thread.Table.{thread_at, put_thread}
use carrotos.Sync.{
  einval, is_waiter, Search, search_step, search_loop, woken, Resumed, returns, wake_found,
  resume_thread_futex,
}

-- The order of the times that waiters came, as `earlier` has it.
earlier_asym : (a b : Timeval) → earlier a b ≡ true → earlier b a ≡ false
unfolding earlier
earlier_asym a b h = ground arith

earlier_trans : (a b c : Timeval) → earlier a b ≡ true → earlier b c ≡ true → earlier a c ≡ true
unfolding earlier
earlier_trans a b c h k = ground arith

earlier_irrefl : (a : Timeval) → earlier a a ≡ false
unfolding earlier
earlier_irrefl a = ground arith

earlier_no_sooner :
    (a b c : Timeval) → earlier b c ≡ true → earlier a c ≡ false → earlier a b ≡ false
unfolding earlier
earlier_no_sooner a b c h k = ground arith

module _ (pid futex_ptr : ℕ) where
  -- No waiter of the table came before a time.
  abbrev NoneBefore : Threads → Timeval → Type 0
  NoneBefore ts a =
      (j : ℕ) (u : Thread)
      → thread_at ts j ≡ some u
      → is_waiter pid futex_ptr u ≡ true
      → earlier u.lock_time a ≡ false

  -- What the loop over the slots from `i` on makes of a search.
  data Outcome (ts : Threads) (i : ℕ) (s r : Search) : Type 0 where
    kept :
        r.resume_tid ≡ s.resume_tid
        → r.earliest ≡ s.earliest
        → NoneBefore ts s.earliest
        → Outcome ts i s r
    moved :
        (j : ℕ) (t : Thread)
        → thread_at ts j ≡ some t
        → is_waiter pid futex_ptr t ≡ true
        → r.resume_tid ≡ some (i + j)
        → earlier t.lock_time s.earliest ≡ true
        → NoneBefore ts t.lock_time
        → Outcome ts i s r

  -- One more slot in front.
  NoneBefore-cons :
      (x : Option Thread) (ts : Threads) (a : Timeval)
      → ((u : Thread)
          → x ≡ some u
          → is_waiter pid futex_ptr u ≡ true
          → earlier u.lock_time a ≡ false)
      → NoneBefore ts a
      → NoneBefore (x ∷ ts) a
  NoneBefore-cons x ts a head rest zero u h w = head u h w
  NoneBefore-cons x ts a head rest (suc j) u h w = rest j u h w

  -- The head is no waiter, or comes no earlier than what the search has.
  pass :
      (x : Option Thread) (ts : Threads) (i : ℕ) {s r : Search}
      → ((u : Thread)
          → x ≡ some u
          → is_waiter pid futex_ptr u ≡ true
          → earlier u.lock_time s.earliest ≡ false)
      → Outcome ts (i + 1) s r
      → Outcome (x ∷ ts) i s r
  pass x ts i head (kept e f all) = kept e f (NoneBefore-cons x ts _ head all)
  pass x ts i {s} head (moved j t at w e before all) =
      let here : i + 1 + j ≡ i + suc j = omega arith in
      moved (suc j) t at w (e ∙ ap some here) before (
        NoneBefore-cons x ts t.lock_time
          (λ u h v. earlier_no_sooner u.lock_time t.lock_time s.earliest before (head u h v)) all)

  -- The head is a waiter that comes before what the search has.
  take_over :
      (t : Thread) (ts : Threads) (i : ℕ) {s r : Search}
      → is_waiter pid futex_ptr t ≡ true
      → earlier t.lock_time s.earliest ≡ true
      → Outcome ts
          (i + 1)
          (record { found_thread = true; resume_tid = some i; earliest = t.lock_time })
          r
      → Outcome (some t ∷ ts) i s r
  take_over t ts i w before (kept e f all) =
      let here : i ≡ i + 0 = omega arith in
      moved zero t refl w (e ∙ ap some here) before (
        NoneBefore-cons (some t) ts t.lock_time
          (λ u h v.
            let same : t ≡ u = cc in
            subst (λ (x : Thread). earlier x.lock_time t.lock_time ≡ false) same
              (earlier_irrefl t.lock_time))
          all)
  take_over t ts i {s} w before (moved j u at v e sooner all) =
      let here : i + 1 + j ≡ i + suc j = omega arith in
      moved (suc j) u at v (e ∙ ap some here)
        (earlier_trans u.lock_time t.lock_time s.earliest sooner before)
        (NoneBefore-cons (some t) ts u.lock_time
          (λ x h y.
            let same : t ≡ x = cc in
            subst (λ (z : Thread). earlier z.lock_time u.lock_time ≡ false) same
              (earlier_asym u.lock_time t.lock_time sooner))
          all)

  forget :
      {ts : Threads} {i : ℕ} {s r : Search}
      → Outcome ts i (record s { found_thread = true }) r
      → Outcome ts i s r
  forget (kept e f all) = kept e f all
  forget (moved j t at w e before all) = moved j t at w e before all

  search_loop-Outcome :
      (ts : Threads) (i : ℕ) (s : Search) → Outcome ts i s (search_loop pid futex_ptr i ts s)
  unfolding search_loop search_step
  search_loop-Outcome [] i s = kept refl refl (λ j u h w. cc)
  search_loop-Outcome (none ∷ ts) i s =
      pass none ts i (λ u h w. cc) (search_loop-Outcome ts (i + 1) s)
  search_loop-Outcome (some t ∷ ts) i s = elim (Bool-cases (is_waiter pid futex_ptr t)) [
    | inr other ↦ rw other (
        pass (some t) ts i
          (λ u h w.
            let same : t ≡ u = cc in
            let no : is_waiter pid futex_ptr u ≡ false =
              subst (λ (x : Thread). is_waiter pid futex_ptr x ≡ false) same other in
            cc)
          (search_loop-Outcome ts (i + 1) s))
    | inl w ↦ elim (Bool-cases (earlier t.lock_time s.earliest)) [
      | inl before ↦ rw (w, before) (take_over t ts i w before (search_loop-Outcome ts (i + 1) _))
      | inr after ↦
          rw (w, after)
            (forget (
              pass (some t) ts i
                (λ u h v.
                  let same : t ≡ u = cc in
                  subst (λ (x : Thread). earlier x.lock_time s.earliest ≡ false) same after)
                (search_loop-Outcome ts (i + 1) _)))
    ]
  ]

  -- Whether the loop saw a waiter.
  data Seen (ts : Threads) (s r : Search) : Type 0 where
    nobody :
        r.found_thread ≡ s.found_thread
        → ((j : ℕ) (u : Thread) → thread_at ts j ≡ some u → is_waiter pid futex_ptr u ≡ false)
        → Seen ts s r
    somebody :
        (j : ℕ) (u : Thread)
        → thread_at ts j ≡ some u
        → is_waiter pid futex_ptr u ≡ true
        → r.found_thread ≡ true
        → Seen ts s r

  search_step-found :
      (i : ℕ) (t : Thread) (s : Search)
      → s.found_thread ≡ true
      → (search_step pid futex_ptr i t s).found_thread ≡ true
  unfolding search_step
  search_step-found i t s h = ground arith

  search_step-sees :
      (i : ℕ) (t : Thread) (s : Search)
      → is_waiter pid futex_ptr t ≡ true
      → (search_step pid futex_ptr i t s).found_thread ≡ true
  unfolding search_step
  search_step-sees i t s w = elim (Bool-cases (earlier t.lock_time s.earliest)) [
    | inl e ↦ rw (w, e)
    | inr e ↦ rw (w, e)
  ]

  search_loop-found :
      (ts : Threads) (i : ℕ) (s : Search)
      → s.found_thread ≡ true
      → (search_loop pid futex_ptr i ts s).found_thread ≡ true
  unfolding search_loop
  search_loop-found [] i s h = h
  search_loop-found (none ∷ ts) i s h = search_loop-found ts (i + 1) s h
  search_loop-found (some t ∷ ts) i s h =
      search_loop-found ts (i + 1) (search_step pid futex_ptr i t s) (search_step-found i t s h)

  Seen-cons :
      (x : Option Thread) (ts : Threads) {s r : Search}
      → ((u : Thread) → x ≡ some u → is_waiter pid futex_ptr u ≡ false)
      → Seen ts s r
      → Seen (x ∷ ts) s r
  Seen-cons x ts head (nobody e all) = nobody e (both all)
    where
      both :
          ((j : ℕ) (u : Thread) → thread_at ts j ≡ some u → is_waiter pid futex_ptr u ≡ false)
          → (j : ℕ) (u : Thread) → thread_at (x ∷ ts) j ≡ some u
          → is_waiter pid futex_ptr u ≡ false
      both all zero u h = head u h
      both all (suc j) u h = all j u h
  Seen-cons x ts head (somebody j u at w e) = somebody (suc j) u at w e

  search_loop-Seen :
      (ts : Threads) (i : ℕ) (s : Search) → Seen ts s (search_loop pid futex_ptr i ts s)
  unfolding search_loop search_step
  search_loop-Seen [] i s = nobody refl (λ j u h. cc)
  search_loop-Seen (none ∷ ts) i s = Seen-cons none ts (λ u h. cc) (search_loop-Seen ts (i + 1) s)
  search_loop-Seen (some t ∷ ts) i s = elim (Bool-cases (is_waiter pid futex_ptr t)) [
    | inr other ↦ rw other (
        Seen-cons (some t) ts
          (λ u h.
            let same : t ≡ u = cc in
            subst (λ (x : Thread). is_waiter pid futex_ptr x ≡ false) same other)
          (search_loop-Seen ts (i + 1) s))
    | inl w ↦
        somebody zero t refl w (
          search_loop-found ts (i + 1) (search_step pid futex_ptr i t s) (search_step-sees i t s w))
  ]

-- What `resume_thread_futex` does with a table: it returns an error and changes nothing where no
-- thread of the process waits for the futex, and else it wakes a waiter than whose `lock_time` none
-- of the waiters has an earlier one. (Only a wait with a timeout has stored its time there.)
pub data Resumes (pid futex_ptr : ℕ) (ts : Threads) : Resumed → Type 0 where
  nobody_waits :
      ((j : ℕ) (u : Thread) → thread_at ts j ≡ some u → is_waiter pid futex_ptr u ≡ false)
      → Resumes pid futex_ptr ts (returns einval ts)
  wakes :
      (i : ℕ) (t : Thread)
      → thread_at ts i ≡ some t
      → is_waiter pid futex_ptr t ≡ true
      → NoneBefore pid futex_ptr ts t.lock_time
      → Resumes pid futex_ptr ts (returns 0 (put_thread ts i (woken t)))

module _ (now : Timeval) (pid futex_ptr : ℕ) (ts : Threads) where
  abbrev start : Search
  start = record { found_thread = false; resume_tid = none; earliest = now }

  abbrev final : Search
  final = search_loop pid futex_ptr 0 ts start

  not_found :
      final.found_thread ≡ false → resume_thread_futex now pid futex_ptr ts ≡ returns einval ts
  unfolding resume_thread_futex
  not_found e = rw e

  found_slot :
      (i : ℕ) (t : Thread)
      → final.found_thread ≡ true
      → final.resume_tid ≡ some i
      → thread_at ts i ≡ some t
      → resume_thread_futex now pid futex_ptr ts ≡ returns 0 (put_thread ts i (woken t))
  unfolding resume_thread_futex wake_found
  found_slot i t e f at = rw (e, f, at, wake_found)

  -- `resume_thread_futex` wakes one of the threads of the process that wait for the futex, one whose
  -- `lock_time` is the least of theirs, and changes nothing else; it returns an error, with the
  -- table as it was, where no thread waits. Every waiter's `lock_time` is before the time that the
  -- clock reads now.
  pub resume_thread_futex-Resumes :
      ((j : ℕ) (u : Thread)
        → thread_at ts j ≡ some u
        → is_waiter pid futex_ptr u ≡ true
        → earlier u.lock_time now ≡ true)
      → Resumes pid futex_ptr ts (resume_thread_futex now pid futex_ptr ts)
  resume_thread_futex-Resumes came =
      choose (search_loop-Seen pid futex_ptr ts 0 start)
        (search_loop-Outcome pid futex_ptr ts 0 start)
    where
      choose :
          Seen pid futex_ptr ts start final
          → Outcome pid futex_ptr ts 0 start final
          → Resumes pid futex_ptr ts (resume_thread_futex now pid futex_ptr ts)
      choose (nobody e all) o = rw (not_found e) (nobody_waits all)
      choose (somebody j u at w e) (kept f g none_before) =
          let yes_before = came j u at w in let no_before = none_before j u at w in cc
      choose (somebody j u at w e) (moved i t there v f before all) =
          let here : 0 + i ≡ i = omega arith in
          rw (found_slot i t e (f ∙ ap some here) there) (wakes i t there v all)
