-- ===== src/Sched/Stranded.antt =====
-- A thread that is in the state of a running one while it is not the current thread: no timer
-- handler and no yield takes it out of that.
use carrotos.Base.{
  ℕ, ◌<◌, ◌+◌, ◌%◌, ◌^◌, ◌≡◌, ◌≢◌, refl, sym, ap, ◌∙◌, true, false, some, arith, ◌==◌, ltb, length,
  Bool-cases, Option-cases, inl, inr,
}
use mathlib.Core.Path.{subst}
use carrotos.Thread.{Thread, Threads}
use carrotos.Thread.State.{state_is, ready, running, blocked_other, ended_but_not_cleaned}
use carrotos.Thread.Table.{thread_at, put_thread, map_option, thread_at-put_thread, thread_at-lt}
use carrotos.Time.{Timeval}
use carrotos.Sched.{
  wake_sleeper, Frame, Kernel, Tick, fault, run, no_value, handle_sleeping_thread, save_context,
  pick, end_thread, enter, enter_idle, give_back, switch_from, finish_tick, finish_yield, bury,
  saved, tick_with, deref, timer_tick_from_idle, timer_tick_from_non_idle, timer_tick1,
}
use carrotos.Sched.Pick.{runnable, pick-runnable, runnable-eq}
use carrotos.Sched.Save.{
  Indexed, put-Indexed, handle_sleeping_thread-Indexed, thread_at-handle_sleeping_thread,
}

pub wake_sleeper-running :
    (clock : ℕ → Timeval) (i : ℕ) (t : Thread) → t.state ≡ running → wake_sleeper clock i t ≡ t
unfolding wake_sleeper state_is
wake_sleeper-running clock i t r = let e : state_is t.state blocked_other ≡ false = rw r in rw e

pub runnable-running :
    (ts : Threads) (c : ℕ) (t : Thread)
    → thread_at ts c ≡ some t
    → t.state ≡ running
    → runnable ts c ≡ false
unfolding state_is
runnable-running ts c t at r =
    let e : state_is t.state ready ≡ false = rw r in runnable-eq ts c at ∙ rw e (ground arith)

-- What a handler leaves, if it does not fault.
data Leaves (P : Kernel → Type 0) : Tick → Type 0 where
  left_fault : Leaves P fault
  left_run : {n : ℕ} {k : Kernel} → P k → Leaves P (run n k)
  left_nothing : {k : Kernel} → P k → Leaves P (no_value k)

Leaves-deref :
    (P : Kernel → Type 0) (ts : Threads) (i : ℕ) (g : Thread → Tick)
    → ((t : Thread) → thread_at ts i ≡ some t → Leaves P (g t))
    → Leaves P (deref ts i g)
unfolding deref
Leaves-deref P ts i g h = elim (Option-cases (thread_at ts i)) [
  | inl e ↦ rw (deref, e) left_fault
  | inr (t, e) ↦ rw (deref, e) (h t e)
]

-- Each thread is in the slot of its number, and that of slot `c` is in the state of a running one.
pub record Runs (c : ℕ) (ts : Threads) : Type 0 where
  pub indexed : Indexed ts
  pub thread : Thread
  pub at : thread_at ts c ≡ some thread
  pub state : thread.state ≡ running

-- It is not the current one.
pub record IsStranded (c : ℕ) (k : Kernel) : Type 0 where
  pub runs : Runs c k.threads
  pub away : k.core.current_thread ≢ c

module _ (c : ℕ) where
  put-Runs :
      (ts : Threads) (j : ℕ) (new : Thread)
      → j < length ts
      → new.tid ≡ j
      → j ≢ c
      → Runs c ts
      → Runs c (put_thread ts j new)
  put-Runs ts j new inside own other v = record {
    indexed = put-Indexed ts j new inside v.indexed own;
    thread = v.thread;
    at =
        let e : (c == j) ≡ false = ground arith in
        thread_at-put_thread ts j new c inside ∙ rw e v.at;
    state = v.state;
  }

  sleepers-Runs :
      (f : Frame) (ts : Threads) → Runs c ts → Runs c (handle_sleeping_thread f.clock ts)
  unfolding map_option
  sleepers-Runs f ts v = record {
    indexed = handle_sleeping_thread-Indexed f.clock ts v.indexed;
    thread = v.thread;
    at =
        thread_at-handle_sleeping_thread f.clock ts c
        ∙ ap (map_option _) v.at
        ∙ ap some (wake_sleeper-running f.clock c v.thread v.state);
    state = v.state;
  }

  pick-ne : (ts : Threads) (current : ℕ) → c ≢ 0 → Runs c ts → pick ts current ≢ c
  pick-ne ts current ne v e =
      let hit = pick-runnable ts current (λ z. ne (sym e ∙ z)) in
      let at_c : runnable ts c ≡ true = ap (runnable ts) (sym e) ∙ hit in
      let miss = runnable-running ts c v.thread v.at v.state in cc

  saved-Runs :
      (f : Frame) (k : Kernel) (old : Thread)
      → thread_at k.threads k.core.current_thread ≡ some old
      → IsStranded c k
      → Runs c (saved f k old).threads
  unfolding saved save_context
  saved-Runs f k old at v =
      let cur = k.core.current_thread in
      sleepers-Runs f (put_thread k.threads cur (save_context f k.core old)) (
        put-Runs k.threads cur (save_context f k.core old) (thread_at-lt k.threads cur at)
          (v.runs.indexed cur old at) v.away v.runs)

  module _ (j : ℕ) (curr : Thread) (other : j ≢ c) where
    bury-Runs :
        (f : Frame) (k : Kernel)
        → thread_at k.threads j ≡ some curr
        → Runs c k.threads
        → Runs c (bury f j curr k).threads
    unfolding bury end_thread
    bury-Runs f k at v = elim (Bool-cases (state_is curr.state ended_but_not_cleaned)) [
      | inl e ↦
          rw e (put-Runs k.threads j _ (thread_at-lt k.threads j at) (v.indexed j curr at) other v)
      | inr e ↦ rw e v
    ]

    give_back-Runs :
        (ts : Threads) → thread_at ts j ≡ some curr → Runs c ts → Runs c (give_back j curr ts)
    unfolding give_back
    give_back-Runs ts at v = elim (Bool-cases (state_is curr.state running)) [
      | inl e ↦ rw e (put-Runs ts j _ (thread_at-lt ts j at) (v.indexed j curr at) other v)
      | inr e ↦ rw e v
    ]

  enter-IsStranded :
      (k : Kernel) (n : ℕ) (t : Thread) (user_rsp : ℕ)
      → thread_at k.threads n ≡ some t
      → n ≢ c
      → Runs c k.threads
      → IsStranded c (enter k n t user_rsp)
  unfolding enter
  enter-IsStranded k n t user_rsp at other v = record {
    runs = put-Runs k.threads n _ (thread_at-lt k.threads n at) (v.indexed n t at) other v;
    away = λ e. other (sym (v.indexed n t at) ∙ e);
  }

  bury-current :
      (f : Frame) (j : ℕ) (curr : Thread) (k : Kernel)
      → (bury f j curr k).core.current_thread ≡ k.core.current_thread
  unfolding bury end_thread
  bury-current f j curr k = elim (Bool-cases (state_is curr.state ended_but_not_cleaned)) [
    | inl e ↦ rw e refl
    | inr e ↦ rw e refl
  ]

  pub enter_idle-IsStranded : (k : Kernel) → c ≢ 0 → Runs c k.threads → IsStranded c (enter_idle k)
  unfolding enter_idle
  enter_idle-IsStranded k ne v = record { runs = v; away = λ e. ne (sym e) }

  switch_from-Leaves :
      (j : ℕ) (curr : Thread) (n : ℕ) (k : Kernel)
      → j ≢ c
      → thread_at k.threads j ≡ some curr
      → Runs c k.threads
      → n ≢ c
      → Leaves (IsStranded c) (switch_from j curr n k)
  unfolding switch_from
  switch_from-Leaves j curr n k other at v n_ne =
      let ts = give_back j curr k.threads in
      Leaves-deref (IsStranded c) ts n _ (λ t at_n. left_run (
        enter-IsStranded (record k { threads = ts }) n t t.context.gs24 at_n n_ne
          (give_back-Runs j curr other k.threads at v)))

  -- What the end of a handler is given.
  record IsEnd (j : ℕ) (curr : Thread) (n : ℕ) (k : Kernel) : Type 0 where
    stranded : IsStranded c k
    current : k.core.current_thread ≡ j
    at : thread_at k.threads j ≡ some curr
    chosen : n ≢ c

  tick_with-Leaves :
      (finish : ℕ → Thread → ℕ → Kernel → Tick) (f : Frame) {k : Kernel}
      → ((j : ℕ) (curr : Thread) (n : ℕ) (k' : Kernel)
          → IsEnd j curr n k'
          → Leaves (IsStranded c) (finish j curr n k'))
      → c ≢ 0
      → IsStranded c k
      → Leaves (IsStranded c) (tick_with finish f k)
  unfolding tick_with saved
  tick_with-Leaves finish f {k} ends ne v =
      let j = k.core.current_thread in
      Leaves-deref (IsStranded c) k.threads j _ (λ old at.
        let k1 = saved f k old in
        let v1 : Runs c k1.threads = saved-Runs f k old at v in
        Leaves-deref (IsStranded c) k1.threads j _ (λ curr at1.
          let k2 = bury f j curr k1 in
          let kept : k2.core.current_thread ≡ j = bury-current f j curr k1 in
          Leaves-deref (IsStranded c) k2.threads j _ (λ curr' at2.
            ends j curr' (pick k1.threads j) k2 (record {
              stranded = record {
                runs = bury-Runs j curr v.away f k1 at1 v1;
                away = λ e. v.away (sym kept ∙ e);
              };
              current = kept;
              at = at2;
              chosen = pick-ne k1.threads j ne v1;
            }))))

  finish_tick-Leaves :
      c ≢ 0
      → (j : ℕ) (curr : Thread) (n : ℕ) (k : Kernel) → IsEnd j curr n k
      → Leaves (IsStranded c) (finish_tick j curr n k)
  unfolding finish_tick
  finish_tick-Leaves ne j curr n k v =
      let away : j ≢ c = λ e. v.stranded.away (v.current ∙ e) in
      elim (Bool-cases (n == 0)) [
        | inr e ↦ rw e (switch_from-Leaves j curr n k away v.at v.stranded.runs v.chosen)
        | inl e ↦ elim (Bool-cases (state_is curr.state running)) [
          | inl r ↦ rw (e, r) (left_run v.stranded)
          | inr r ↦ elim (Bool-cases (state_is curr.state ready)) [
            | inl s ↦ rw (e, r, s) (left_nothing v.stranded)
            | inr s ↦ rw (e, r, s) (left_run (enter_idle-IsStranded k ne v.stranded.runs))
          ]
        ]
      ]

  finish_yield-Leaves :
      c ≢ 0
      → (j : ℕ) (curr : Thread) (n : ℕ) (k : Kernel) → IsEnd j curr n k
      → Leaves (IsStranded c) (finish_yield j curr n k)
  unfolding finish_yield
  finish_yield-Leaves ne j curr n k v =
      let away : j ≢ c = λ e. v.stranded.away (v.current ∙ e) in
      elim (Bool-cases (ltb 1 n)) [
        | inl e ↦ rw e (switch_from-Leaves j curr n k away v.at v.stranded.runs v.chosen)
        | inr e ↦ rw e (left_run (enter_idle-IsStranded k ne v.stranded.runs))
      ]

  from_idle-Leaves :
      (f : Frame) {k : Kernel}
      → c ≢ 0
      → IsStranded c k
      → Leaves (IsStranded c) (timer_tick_from_idle f k)
  unfolding timer_tick_from_idle
  from_idle-Leaves f {k} ne v =
      let ts = handle_sleeping_thread f.clock k.threads in
      let v1 : Runs c ts = sleepers-Runs f k.threads v.runs in
      elim (Bool-cases (pick ts 0 == 0)) [
        | inl e ↦ rw e (left_run (record { runs = v1; away = λ h. ne (sym h) }))
        | inr e ↦ rw e (
            Leaves-deref (IsStranded c) ts (pick ts 0) _ (λ t at. left_run (
              enter-IsStranded
                (record k { current_tick = (k.current_tick + 1) % 2 ^ 64; threads = ts })
                (pick ts 0) t k.core.current_thread_user_rsp at (pick-ne ts 0 ne v1) v1)))
      ]

-- A run of one of the three timer handlers, whichever it is, that does not fault.
pub data Ticks (f : Frame) (k k' : Kernel) : Type 0 where
  idle_tick : {n : ℕ} → timer_tick_from_idle f k ≡ run n k' → Ticks f k k'
  busy_tick : {n : ℕ} → timer_tick_from_non_idle f k ≡ run n k' → Ticks f k k'
  busy_end : timer_tick_from_non_idle f k ≡ no_value k' → Ticks f k k'
  yield : {n : ℕ} → timer_tick1 f k ≡ run n k' → Ticks f k k'

-- Any number of them.
pub data TicksOn : Kernel → Kernel → Type 0 where
  no_tick : {k : Kernel} → TicksOn k k
  tick : {f : Frame} {k k' k'' : Kernel} → Ticks f k k' → TicksOn k' k'' → TicksOn k k''

module _ (P : Kernel → Type 0) where
  Leaves-run : {r : Tick} → Leaves P r → (n : ℕ) (k : Kernel) → r ≡ run n k → P k
  Leaves-run left_fault n k e = cc
  Leaves-run (left_run {k = l} v) n k e = let same : l ≡ k = cc in subst P same v
  Leaves-run (left_nothing v) n k e = cc

  Leaves-no_value : {r : Tick} → Leaves P r → (k : Kernel) → r ≡ no_value k → P k
  Leaves-no_value left_fault k e = cc
  Leaves-no_value (left_run v) k e = cc
  Leaves-no_value (left_nothing {k = l} v) k e = let same : l ≡ k = cc in subst P same v

module _ (c : ℕ) (ne : c ≢ 0) where
  Ticks-IsStranded : (f : Frame) {k k' : Kernel} → Ticks f k k' → IsStranded c k → IsStranded c k'
  unfolding timer_tick_from_non_idle timer_tick1
  Ticks-IsStranded f {k' = k'} (idle_tick e) v =
      Leaves-run (IsStranded c) (from_idle-Leaves c f ne v) _ k' e
  Ticks-IsStranded f {k' = k'} (busy_tick e) v =
      Leaves-run (IsStranded c) (tick_with-Leaves c finish_tick f (finish_tick-Leaves c ne) ne v) _
        k' e
  Ticks-IsStranded f {k' = k'} (busy_end e) v =
      Leaves-no_value (IsStranded c)
        (tick_with-Leaves c finish_tick f (finish_tick-Leaves c ne) ne v) k' e
  Ticks-IsStranded f {k' = k'} (yield e) v =
      Leaves-run (IsStranded c) (tick_with-Leaves c finish_yield f (finish_yield-Leaves c ne) ne v)
        _ k' e

  pub TicksOn-IsStranded : {k k' : Kernel} → TicksOn k k' → IsStranded c k → IsStranded c k'
  TicksOn-IsStranded no_tick v = v
  TicksOn-IsStranded (tick {f} t rest) v = TicksOn-IsStranded rest (Ticks-IsStranded f t v)
