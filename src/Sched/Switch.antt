-- ===== src/Sched/Switch.antt =====
-- What a timer handler leaves: a core that runs exactly the thread that the handler returned.
use carrotos.Base.{
  ℕ, ◌<◌, ◌^◌, ◌-◌, ◌≡◌, ◌≢◌, refl, sym, ap, ◌∙◌, true, false, some, arith, ◌==◌, length,
  Bool-cases, inl, inr,
}
use mathlib.Core.Path.{subst}
use carrotos.Thread.{Thread, Threads}
use carrotos.Thread.State.{
  state_is, ready, running, dead, ended_but_not_cleaned, state_is_refl, eq_of_state_is,
}
use carrotos.Thread.Table.{thread_at, put_thread, map_option, thread_at-put_thread, thread_at-lt}
use carrotos.Sched.{
  Frame, Kernel, Tick, no_value, run, wake_sleeper, save_context, pick, end_thread, enter,
  enter_idle, switch_from, finish_tick, deref, end_code, give_back, bury, saved, tick_with,
  timer_tick_from_non_idle,
}
use carrotos.Sched.Pick.{pick-runnable, runnable_thread}
use carrotos.Sched.Save.{
  Indexed, RunsOnly, NoneRuns, put-Indexed, put-RunsOnly, put-NoneRuns, RunsOnly-of_NoneRuns,
  handle_sleeping_thread-Indexed, handle_sleeping_thread-RunsOnly, handle_sleeping_thread-NoneRuns,
  thread_at-handle_sleeping_thread,
}

-- A slot that holds a thread.
abbrev pub Holds : Threads → ℕ → Type 0
Holds ts i = (t : Thread) × (thread_at ts i ≡ some t)

-- The state between two ticks: each thread in the slot of its number, the idle thread in slot 0,
-- the current thread's slot filled, and no thread running but the current one.
pub record IsScheduled (k : Kernel) : Type 0 where
  pub indexed : Indexed k.threads
  pub idle_in : Holds k.threads 0
  pub current_in : Holds k.threads k.core.current_thread
  pub only : RunsOnly k.threads k.core.current_thread

-- What a handler may come to, besides a fault: the thread that it returns is the current one and
-- is running; it returns 0 and no thread is running; or it returns nothing, which it does only
-- where the current thread has become ready and there is no other.
pub data RunsNext : Tick → Type 0 where
  entered :
      {n : ℕ} {k : Kernel} (t : Thread)
      → IsScheduled k
      → k.core.current_thread ≡ n
      → thread_at k.threads n ≡ some t
      → t.state ≡ running
      → RunsNext (run n k)
  idled :
      {n : ℕ} {k : Kernel}
      → n ≡ 0
      → IsScheduled k
      → k.core.current_thread ≡ 0
      → NoneRuns k.threads
      → RunsNext (run n k)
  undecided :
      {k : Kernel} (t : Thread)
      → IsScheduled k
      → thread_at k.threads k.core.current_thread ≡ some t
      → t.state ≡ ready
      → RunsNext (no_value k)

pub Holds-put :
    (ts : Threads) (c : ℕ) (t : Thread) (i : ℕ)
    → c < length ts
    → Holds ts i
    → Holds (put_thread ts c t) i
Holds-put ts c t i inside (old, at) = elim (Bool-cases (i == c)) [
  | inl e ↦ (t, rw (thread_at-put_thread ts c t i inside, e))
  | inr e ↦ (old, rw (thread_at-put_thread ts c t i inside, e) at)
]

Holds-lt : (ts : Threads) (i : ℕ) → Holds ts i → i < length ts
Holds-lt ts i (t, at) = thread_at-lt ts i at

-- The current thread is not the running one, so there is none.
NoneRuns-of_stopped :
    (ts : Threads) (c : ℕ) (curr : Thread)
    → RunsOnly ts c
    → thread_at ts c ≡ some curr
    → curr.state ≢ running
    → NoneRuns ts
NoneRuns-of_stopped ts c curr only at stopped i t h r =
    let e : i ≡ c = only i t h r in
    let there : thread_at ts i ≡ some curr = rw e at in
    let same : t ≡ curr = ground (arith, there) in stopped (rw (← same) r)

-- No thread runs, and slot `n` holds one: it is entered.
pub enter-RunsNext :
    (k : Kernel) (n : ℕ) (t : Thread) (user_rsp : ℕ)
    → Indexed k.threads
    → Holds k.threads 0
    → NoneRuns k.threads
    → thread_at k.threads n ≡ some t
    → RunsNext (run n (enter k n t user_rsp))
unfolding enter
enter-RunsNext k n t user_rsp all idle_in none_runs at =
    let inside = thread_at-lt k.threads n at in
    let new = record t { state = running } in
    let own : t.tid ≡ n = all n t at in
    let there : thread_at (put_thread k.threads n new) n ≡ some new =
      thread_at-put_thread k.threads n new n inside ∙ ground arith in
    entered new
      (record {
        indexed = put-Indexed k.threads n new inside all own;
        idle_in = Holds-put k.threads n new 0 inside idle_in;
        current_in = subst (Holds (put_thread k.threads n new)) (sym own) (new, there);
        only =
            subst (RunsOnly (put_thread k.threads n new)) (sym own)
              (RunsOnly-of_NoneRuns k.threads n new inside none_runs);
      })
      own there refl

-- The table in the middle of a handler.
pub record IsMid (c : ℕ) (curr : Thread) (k : Kernel) : Type 0 where
  pub indexed : Indexed k.threads
  pub idle_in : Holds k.threads 0
  pub only : RunsOnly k.threads c
  pub current : k.core.current_thread ≡ c
  pub at : thread_at k.threads c ≡ some curr

not_running : (t : Thread) → state_is t.state running ≡ false → t.state ≢ running
not_running t e h =
    let yes_running : state_is t.state running ≡ true = rw h (state_is_refl running) in cc

pub deref-some :
    (ts : Threads) (i : ℕ) (g : Thread → Tick) {t : Thread}
    → thread_at ts i ≡ some t
    → deref ts i g ≡ g t
unfolding deref
deref-some ts i g h = rw (h, deref)

module _ (c : ℕ) (curr : Thread) (ts : Threads) (at : thread_at ts c ≡ some curr) where
  back : Thread
  back = record curr { state = ready }

  give_back-Indexed : Indexed ts → Indexed (give_back c curr ts)
  unfolding give_back back
  give_back-Indexed all = elim (Bool-cases (state_is curr.state running)) [
    | inl e ↦ rw e (put-Indexed ts c back (thread_at-lt ts c at) all (all c curr at))
    | inr e ↦ rw e all
  ]

  pub give_back-Holds : (i : ℕ) → Holds ts i → Holds (give_back c curr ts) i
  unfolding give_back back
  give_back-Holds i h = elim (Bool-cases (state_is curr.state running)) [
    | inl e ↦ rw e (Holds-put ts c back i (thread_at-lt ts c at) h)
    | inr e ↦ rw e h
  ]

  give_back-NoneRuns : RunsOnly ts c → NoneRuns (give_back c curr ts)
  unfolding give_back back
  give_back-NoneRuns only = elim (Bool-cases (state_is curr.state running)) [
    | inl e ↦ rw e (put-NoneRuns ts c back (thread_at-lt ts c at) only (λ h. cc))
    | inr e ↦ rw e (NoneRuns-of_stopped ts c curr only at (not_running curr e))
  ]

-- A handler that returns a number, and leaves what it should.
pub data Returns : Tick → Type 0 where
  returned : {n : ℕ} {k : Kernel} → RunsNext (run n k) → Returns (run n k)

RunsNext-of_Returns : {r : Tick} → Returns r → RunsNext r
RunsNext-of_Returns (returned v) = v

pub switch_from-Returns :
    (c : ℕ) (curr : Thread) (n : ℕ) (k : Kernel)
    → IsMid c curr k
    → Holds k.threads n
    → Returns (switch_from c curr n k)
unfolding switch_from
switch_from-Returns c curr n k v h =
    let (t, at) = give_back-Holds c curr k.threads v.at n h in
    rw (deref-some (give_back c curr k.threads) n _ at) (
      returned (
        enter-RunsNext (record k { threads = give_back c curr k.threads }) n t t.context.gs24
          (give_back-Indexed c curr k.threads v.at v.indexed)
          (give_back-Holds c curr k.threads v.at 0 v.idle_in)
          (give_back-NoneRuns c curr k.threads v.at v.only) at))

pub enter_idle-RunsNext :
    (k : Kernel)
    → Indexed k.threads
    → Holds k.threads 0
    → NoneRuns k.threads
    → RunsNext (run 0 (enter_idle k))
unfolding enter_idle
enter_idle-RunsNext k all idle_in none_runs =
    idled refl
      (record {
        indexed = all;
        idle_in = idle_in;
        current_in = idle_in;
        only = λ i t h r. absurd (none_runs i t h r);
      })
      refl none_runs

-- The first part of a handler.
module _ (f : Frame) (k : Kernel) (old : Thread) where
  pub saved-IsMid :
      IsScheduled k
      → thread_at k.threads k.core.current_thread ≡ some old
      → (curr : Thread) × IsMid k.core.current_thread curr (saved f k old)
  unfolding saved save_context map_option
  saved-IsMid v at =
      let c = k.core.current_thread in
      let new = save_context f k.core old in
      let inside = thread_at-lt k.threads c at in
      let ts = put_thread k.threads c new in
      let stored : thread_at ts c ≡ some new =
        thread_at-put_thread k.threads c new c inside ∙ ground arith in
      let first = Holds-put k.threads c new 0 inside v.idle_in in
      (
        wake_sleeper f.clock c new,
        record {
          indexed =
              handle_sleeping_thread-Indexed f.clock ts
                (put-Indexed k.threads c new inside v.indexed (v.indexed c old at));
          idle_in = (
            wake_sleeper f.clock 0 first.0,
            thread_at-handle_sleeping_thread f.clock ts 0
                ∙ ap (map_option (wake_sleeper f.clock 0)) first.1,
          );
          only =
              handle_sleeping_thread-RunsOnly f.clock ts c
                (put-RunsOnly k.threads c new inside v.only);
          current = refl;
          at =
              thread_at-handle_sleeping_thread f.clock ts c
              ∙ ap (map_option (wake_sleeper f.clock c)) stored;
        },
      )

  saved-NoneRuns :
      IsScheduled k
      → thread_at k.threads k.core.current_thread ≡ some old
      → NoneRuns k.threads
      → NoneRuns (saved f k old).threads
  unfolding saved save_context
  saved-NoneRuns v at none_runs =
      let c = k.core.current_thread in
      handle_sleeping_thread-NoneRuns f.clock (put_thread k.threads c (save_context f k.core old)) (
        put-NoneRuns k.threads c (save_context f k.core old) (thread_at-lt k.threads c at) v.only
          (none_runs c old at))

module _ (f : Frame) (c : ℕ) (curr : Thread) (k : Kernel) (v : IsMid c curr k) where
  pub bury-IsMid : (curr' : Thread) × IsMid c curr' (bury f c curr k)
  unfolding bury end_thread
  bury-IsMid = elim (Bool-cases (state_is curr.state ended_but_not_cleaned)) [
    | inl e ↦
        let gone = record curr { state = dead; return_code = end_code curr (2 ^ 64 - 1) } in
        let inside = thread_at-lt k.threads c v.at in
        rw e (
          gone,
          record {
            indexed = put-Indexed k.threads c gone inside v.indexed (v.indexed c curr v.at);
            idle_in = Holds-put k.threads c gone 0 inside v.idle_in;
            only = put-RunsOnly k.threads c gone inside v.only;
            current = v.current;
            at = thread_at-put_thread k.threads c gone c inside ∙ ground arith;
          },
        )
    | inr e ↦ rw e (curr, v)
  ]

  pub bury-Holds : (i : ℕ) → Holds k.threads i → Holds (bury f c curr k).threads i
  unfolding bury end_thread
  bury-Holds i h = elim (Bool-cases (state_is curr.state ended_but_not_cleaned)) [
    | inl e ↦ rw e (Holds-put k.threads c _ i (thread_at-lt k.threads c v.at) h)
    | inr e ↦ rw e h
  ]

  bury-NoneRuns : NoneRuns k.threads → NoneRuns (bury f c curr k).threads
  unfolding bury end_thread
  bury-NoneRuns none_runs = elim (Bool-cases (state_is curr.state ended_but_not_cleaned)) [
    | inl e ↦ rw e (put-NoneRuns k.threads c _ (thread_at-lt k.threads c v.at) v.only (λ h. cc))
    | inr e ↦ rw e none_runs
  ]

-- What is found by the search is there to be entered.
pub pick-Holds : (ts : Threads) (c : ℕ) → pick ts c ≢ 0 → Holds ts (pick ts c)
pick-Holds ts c ne =
    let (t, at, r) = runnable_thread ts (pick ts c) (pick-runnable ts c ne) in (t, at)

-- Any end of a handler, by what holds after it.
pub tick_with-ends :
    (P : Tick → Type 0) (finish : ℕ → Thread → ℕ → Kernel → Tick) (f : Frame) (k : Kernel)
    → ((curr : Thread) (n : ℕ) (k' : Kernel)
        → IsMid k.core.current_thread curr k'
        → (n ≢ 0 → Holds k'.threads n)
        → (NoneRuns k.threads → NoneRuns k'.threads)
        → P (finish k.core.current_thread curr n k'))
    → IsScheduled k
    → P (tick_with finish f k)
unfolding tick_with
tick_with-ends P finish f k ends v =
    let c = k.core.current_thread in
    let (old, at) = v.current_in in
    let (curr, mid) = saved-IsMid f k old v at in
    let k1 = saved f k old in
    let (curr', mid') = bury-IsMid f c curr k1 mid in
    rw
      (
        deref-some k.threads c _ at,
        deref-some k1.threads c _ mid.at,
        deref-some (bury f c curr k1).threads c _ mid'.at,
      )
      (ends curr' (pick k1.threads c) (bury f c curr k1) mid'
        (λ ne. bury-Holds f c curr k1 mid (pick k1.threads c) (pick-Holds k1.threads c ne))
        (λ h. bury-NoneRuns f c curr k1 mid (saved-NoneRuns f k old v at h)))

IsScheduled-of_mid : (c : ℕ) (curr : Thread) (k : Kernel) → IsMid c curr k → IsScheduled k
IsScheduled-of_mid c curr k v = record {
  indexed = v.indexed;
  idle_in = v.idle_in;
  current_in = subst (Holds k.threads) (sym v.current) (curr, v.at);
  only = subst (RunsOnly k.threads) (sym v.current) v.only;
}

finish_tick-RunsNext :
    (c : ℕ) (curr : Thread) (n : ℕ) (k : Kernel)
    → IsMid c curr k
    → (n ≢ 0 → Holds k.threads n)
    → RunsNext (finish_tick c curr n k)
unfolding finish_tick
finish_tick-RunsNext c curr n k v found = elim (Bool-cases (n == 0)) [
  | inr e ↦ rw e (RunsNext-of_Returns (switch_from-Returns c curr n k v (found (ground arith))))
  | inl e ↦ elim (Bool-cases (state_is curr.state running)) [
    | inl r ↦
        rw (e, r)
          (entered curr (IsScheduled-of_mid c curr k v) v.current v.at
            (eq_of_state_is curr.state running r))
    | inr r ↦ elim (Bool-cases (state_is curr.state ready)) [
      | inl s ↦
          rw (e, r, s)
            (undecided curr (IsScheduled-of_mid c curr k v) (rw v.current v.at)
              (eq_of_state_is curr.state ready s))
      | inr s ↦
          rw (e, r, s)
            (enter_idle-RunsNext k v.indexed v.idle_in
              (NoneRuns-of_stopped k.threads c curr v.only v.at (not_running curr r)))
    ]
  ]
]

-- From a scheduled state the timer tick in a running thread comes to one of three ends and never
-- to a null pointer: the thread whose number it returns is the current one and the only one
-- running; or it returns 0 and no thread is running; or it ends without a value, and then the
-- current thread is ready. The state is scheduled again in each case.
pub timer_tick_from_non_idle-RunsNext :
    (f : Frame) {k : Kernel} → IsScheduled k → RunsNext (timer_tick_from_non_idle f k)
unfolding timer_tick_from_non_idle
timer_tick_from_non_idle-RunsNext f {k} v =
    tick_with-ends RunsNext finish_tick f k
      (λ curr n k' w h _. finish_tick-RunsNext k.core.current_thread curr n k' w h) v
