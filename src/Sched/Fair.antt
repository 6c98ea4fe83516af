-- ===== src/Sched/Fair.antt =====
-- No starvation: the timer tick comes round to every ready thread.
use carrotos.Base.{
  ℕ, ◌+◌, ◌-◌, ◌<◌, ◌≤◌, ◌≡◌, ◌≢◌, refl, sym, ap, ◌∙◌, true, false, not, ◌&&◌, some, List, [], ◌∷◌,
  arith, ◌==◌, length, Bool-cases, inl, inr, dec_lt, ℕ_discrete,
}
use mathlib.Core.Path.{subst}
use native.Mathlib.Nat.{mod-eq_of_lt, mod-eq-sub-mod, mod-add-mod}
use carrotos.Time.{Timeval}
use carrotos.Thread.{Thread, Threads}
use carrotos.Thread.State.{
  state_is, ready, running, blocked_other, ended_but_not_cleaned, state_is_refl,
}
use carrotos.Thread.Table.{
  thread_at, put_thread, map_option, thread_at-put_thread, length-put_thread, thread_at-lt,
}
use carrotos.Sched.{
  Frame, Kernel, Tick, run, wake_sleeper, save_context, pick, end_thread, enter, give_back,
  switch_from, finish_tick, bury, saved, tick_with, timer_tick_from_non_idle,
}
use carrotos.Sched.Pick.{
  runnable, runnable-eq, runnable-ne_zero, place, Picked, nobody, found, pick-Picked,
}
use carrotos.Sched.Save.{thread_at-handle_sleeping_thread, length-handle_sleeping_thread}
use carrotos.Sched.Switch.{
  IsScheduled, RunsNext, entered, idled, undecided, deref-some, saved-IsMid, bury-IsMid, bury-Holds,
  pick-Holds, give_back-Holds, timer_tick_from_non_idle-RunsNext,
}

put_other :
    (ts : Threads) (c : ℕ) (x : Thread) (i : ℕ)
    → c < length ts
    → i ≢ c
    → thread_at (put_thread ts c x) i ≡ thread_at ts i
put_other ts c x i inside ne =
    let e : (i == c) ≡ false = ground arith in thread_at-put_thread ts c x i inside ∙ rw e refl

-- A ready thread that is not the current one, and the parts of a handler.
module _ (i : ℕ) (x : Thread) (waits : x.state ≡ ready) where
  wake-ready : (clock : ℕ → Timeval) (j : ℕ) → wake_sleeper clock j x ≡ x
  unfolding wake_sleeper state_is
  wake-ready clock j = let e : state_is x.state blocked_other ≡ false = rw waits in rw e

  saved-ready :
      (f : Frame) (k : Kernel) (old : Thread)
      → thread_at k.threads k.core.current_thread ≡ some old
      → i ≢ k.core.current_thread
      → thread_at k.threads i ≡ some x
      → thread_at (saved f k old).threads i ≡ some x
  unfolding saved map_option
  saved-ready f k old at ne there =
      let c = k.core.current_thread in
      let ts = put_thread k.threads c (save_context f k.core old) in
      thread_at-handle_sleeping_thread f.clock ts i
      ∙ ap (map_option (wake_sleeper f.clock i)) (
          put_other k.threads c (save_context f k.core old) i (thread_at-lt k.threads c at) ne
          ∙ there)
      ∙ ap some (wake-ready f.clock i)

  bury-ready :
      (f : Frame) (c : ℕ) (curr : Thread) (k : Kernel)
      → thread_at k.threads c ≡ some curr
      → i ≢ c
      → thread_at k.threads i ≡ some x
      → thread_at (bury f c curr k).threads i ≡ some x
  unfolding bury end_thread
  bury-ready f c curr k at ne there =
      elim (Bool-cases (state_is curr.state ended_but_not_cleaned)) [
        | inl e ↦ rw e (put_other k.threads c _ i (thread_at-lt k.threads c at) ne ∙ there)
        | inr e ↦ rw e there
      ]

  give_back-ready :
      (c : ℕ) (curr : Thread) (ts : Threads)
      → thread_at ts c ≡ some curr
      → i ≢ c
      → thread_at ts i ≡ some x
      → thread_at (give_back c curr ts) i ≡ some x
  unfolding give_back
  give_back-ready c curr ts at ne there = elim (Bool-cases (state_is curr.state running)) [
    | inl e ↦ rw e (put_other ts c _ i (thread_at-lt ts c at) ne ∙ there)
    | inr e ↦ rw e there
  ]

  enter-ready :
      (k : Kernel) (n : ℕ) (t : Thread) (rsp : ℕ)
      → thread_at k.threads n ≡ some t
      → i ≢ n
      → thread_at k.threads i ≡ some x
      → thread_at (enter k n t rsp).threads i ≡ some x
  unfolding enter
  enter-ready k n t rsp at ne there =
      put_other k.threads n _ i (thread_at-lt k.threads n at) ne ∙ there

length-saved :
    (f : Frame) (k : Kernel) (old : Thread) → length (saved f k old).threads ≡ length k.threads
unfolding saved
length-saved f k old =
    length-handle_sleeping_thread f.clock _ ∙ length-put_thread k.threads k.core.current_thread _

length-bury :
    (f : Frame) (c : ℕ) (curr : Thread) (k : Kernel)
    → length (bury f c curr k).threads ≡ length k.threads
unfolding bury end_thread
length-bury f c curr k = elim (Bool-cases (state_is curr.state ended_but_not_cleaned)) [
  | inl e ↦ rw e (length-put_thread k.threads c _)
  | inr e ↦ rw e
]

length-give_back : (c : ℕ) (curr : Thread) (ts : Threads) → length (give_back c curr ts) ≡ length ts
unfolding give_back
length-give_back c curr ts = elim (Bool-cases (state_is curr.state running)) [
  | inl e ↦ rw e (length-put_thread ts c _)
  | inr e ↦ rw e
]

length-enter :
    (k : Kernel) (n : ℕ) (t : Thread) (rsp : ℕ)
    → length (enter k n t rsp).threads ≡ length k.threads
unfolding enter
length-enter k n t rsp = length-put_thread k.threads n _

-- What a tick that finds slot `n` does to the other ready threads.
record Passes (i : ℕ) (x : Thread) (f : Frame) (k : Kernel) (n : ℕ) : Type 0 where
  next : Kernel
  runs : timer_tick_from_non_idle f k ≡ run n next
  waits : i ≢ n → thread_at next.threads i ≡ some x
  same_length : length next.threads ≡ length k.threads

finish_tick-found :
    (c : ℕ) (curr : Thread) (n : ℕ) (k : Kernel)
    → n ≢ 0
    → finish_tick c curr n k ≡ switch_from c curr n k
unfolding finish_tick
finish_tick-found c curr n k ne = let e : (n == 0) ≡ false = ground arith in rw e

tick-Passes :
    (i : ℕ) (x : Thread) (f : Frame) (k : Kernel) (old : Thread)
    → IsScheduled k
    → thread_at k.threads k.core.current_thread ≡ some old
    → x.state ≡ ready
    → thread_at k.threads i ≡ some x
    → i ≢ k.core.current_thread
    → pick (saved f k old).threads k.core.current_thread ≢ 0
    → Passes i x f k (pick (saved f k old).threads k.core.current_thread)
unfolding timer_tick_from_non_idle tick_with switch_from
tick-Passes i x f k old v at waits there away ne =
    let c = k.core.current_thread in
    let k1 = saved f k old in
    let n = pick k1.threads c in
    let (curr, mid) = saved-IsMid f k old v at in
    let k2 = bury f c curr k1 in
    let (curr', mid') = bury-IsMid f c curr k1 mid in
    let (t, at_n) =
      give_back-Holds c curr' k2.threads mid'.at n
        (bury-Holds f c curr k1 mid n (pick-Holds k1.threads c ne)) in
    let k3 = record k2 { threads = give_back c curr' k2.threads } in
    record {
      next = enter k3 n t t.context.gs24;
      runs =
          deref-some k.threads c _ at
          ∙ deref-some k1.threads c _ mid.at
          ∙ deref-some k2.threads c _ mid'.at
          ∙ finish_tick-found c curr' n k2 ne
          ∙ deref-some k3.threads n _ at_n;
      waits = λ other. enter-ready i x waits k3 n t t.context.gs24 at_n other (
          give_back-ready i x waits c curr' k2.threads mid'.at away (
            bury-ready i x waits f c curr k1 mid.at away
              (saved-ready i x waits f k old at away there)));
      same_length =
          length-enter k3 n t t.context.gs24
          ∙ length-give_back c curr' k2.threads
          ∙ length-bury f c curr k1
          ∙ length-saved f k old;
    }

-- What is known of the next state when a tick returns a thread.
next-IsScheduled :
    {r : Tick}
    → RunsNext r
    → (n : ℕ) (k : Kernel) → r ≡ run n k
    → n ≢ 0
    → IsScheduled k × (k.core.current_thread ≡ n)
next-IsScheduled (entered {n = m} {k = l} t v cur at st) n k e ne =
    let same : l ≡ k = cc in
    let same_n : m ≡ n = cc in
    (subst IsScheduled same v, ap (λ (q : Kernel). q.core.current_thread) (sym same) ∙ cur ∙ same_n)
next-IsScheduled (idled {n = m} z v cur none_runs) n k e ne =
    let same_n : m ≡ n = cc in absurd (ne (sym same_n ∙ z))
next-IsScheduled (undecided t v at st) n k e ne = cc

-- Slot `i` comes to run within the ticks given.
pub data RunsWithin (i : ℕ) : List Frame → Kernel → Type 0 where
  now :
      {f : Frame} {fs : List Frame} {k k' : Kernel}
      → timer_tick_from_non_idle f k ≡ run i k'
      → RunsWithin i (f ∷ fs) k
  later :
      {f : Frame} {fs : List Frame} {k k' : Kernel} {n : ℕ}
      → timer_tick_from_non_idle f k ≡ run n k'
      → RunsWithin i fs k'
      → RunsWithin i (f ∷ fs) k

place-place :
    (ts ts' : Threads) (c n d j : ℕ)
    → length ts' ≡ length ts
    → n ≡ place ts c j
    → j ≤ d
    → place ts' n (d - j) ≡ place ts c d
place-place ts ts' c n d j l e h =
    let sum : c + j + (d - j) ≡ c + d = omega arith in rw (l, e, mod-add-mod, sum)

place-ne : (ts : Threads) (c d : ℕ) → c < length ts → 0 < d → d < length ts → place ts c d ≢ c
place-ne ts c d inside pos lt = elim (dec_lt (c + d) (length ts)) [
  | yes short ↦ rw (mod-eq_of_lt short) (omega arith)
  | no round ↦
      let back : c + d - length ts < length ts = omega arith in
      rw (mod-eq-sub-mod {n = c + d} {m = length ts} (omega arith), mod-eq_of_lt back) (omega arith)
]

-- The search stops at the place of a ready thread, or before.
pick_within :
    (ts : Threads) (c d : ℕ) {r : ℕ}
    → Picked ts c 1 (length ts - 1) r
    → 0 < d
    → d < length ts
    → runnable ts (place ts c d) ≡ true
    → (j : ℕ) × (1 ≤ j) × (j ≤ d) × (r ≡ place ts c j) × (runnable ts r ≡ true)
pick_within ts c d (nobody e all) pos lt hit = let miss = all d pos (omega arith) in cc
pick_within ts c d (found j p q e good before) pos lt hit = elim (dec_lt d j) [
  | yes past ↦ let miss = before d pos past in cc
  | no within ↦ (j, p, omega arith, e, good)
]

ready_and :
    (i : ℕ) (x : Thread) → x.state ≡ ready → i ≢ 0 → (not (i == 0) && state_is x.state ready) ≡ true
ready_and i x waits ne =
    let e : (i == 0) ≡ false = ground arith in rw (e, waits) (state_is_refl ready)

runs_within :
    (i : ℕ) (x : Thread) (fs : List Frame) (d : ℕ) (k : Kernel)
    → x.state ≡ ready
    → i ≢ 0
    → IsScheduled k
    → thread_at k.threads i ≡ some x
    → place k.threads k.core.current_thread d ≡ i
    → 0 < d
    → d < length k.threads
    → d ≤ length fs
    → RunsWithin i fs k
runs_within i x [] d k waits ne v there at pos lt enough = absurd (omega arith)
runs_within i x (f ∷ fs) d k waits ne v there at pos lt enough =
    let c = k.core.current_thread in
    let (old, cur) = v.current_in in
    let ts = (saved f k old).threads in
    let away : i ≢ c = rw (← at) (place-ne k.threads c d (thread_at-lt k.threads c cur) pos lt) in
    let ready1 : thread_at ts i ≡ some x = saved-ready i x waits f k old cur away there in
    let same : length ts ≡ length k.threads = length-saved f k old in
    let at1 : place ts c d ≡ i = rw same at in
    let hit : runnable ts (place ts c d) ≡ true =
      rw at1 (runnable-eq ts i ready1 ∙ ready_and i x waits ne) in
    let (j, one, within, n_at, good) =
      pick_within ts c d (pick-Picked ts c) pos (omega (arith, same)) hit in
    let n = pick ts c in
    let n_ne : n ≢ 0 = runnable-ne_zero ts n good in
    let step = tick-Passes i x f k old v cur waits there away n_ne in
    let (v', now_n) =
      next-IsScheduled (timer_tick_from_non_idle-RunsNext f v) n step.next step.runs n_ne in
    let same' : length step.next.threads ≡ length ts = step.same_length ∙ sym same in
    let at' : place step.next.threads step.next.core.current_thread (d - j) ≡ i =
      ap (λ m. place step.next.threads m (d - j)) now_n
      ∙ place-place ts step.next.threads c n d j same' n_at within
      ∙ at1 in
    elim (ℕ_discrete i n) [
      | yes e ↦ now (step.runs ∙ ap (λ m. run m step.next) (sym e))
      | no other ↦
          let short : j ≢ d = λ e. other (sym at1 ∙ ap (place ts c) (sym e) ∙ sym n_at) in
          later step.runs (
            runs_within i x fs (d - j) step.next waits ne v' (step.waits other) at'
              (omega (arith, short)) (omega (arith, same', same)) (omega arith))
    ]

-- Every ready thread comes to run: from a scheduled state with a ready thread in slot `i`, not
-- slot 0, `d` places after the current one round the table, ticks of the timer reach it within `d`
-- ticks, if nothing but those ticks happens in between. (`d` is below the size of the table.)
pub ready_runs_within :
    (i d : ℕ) (fs : List Frame) {k : Kernel} {x : Thread}
    → IsScheduled k
    → thread_at k.threads i ≡ some x
    → x.state ≡ ready
    → i ≢ 0
    → place k.threads k.core.current_thread d ≡ i
    → 0 < d
    → d < length k.threads
    → d ≤ length fs
    → RunsWithin i fs k
ready_runs_within i d fs {k} {x} v there waits ne at pos lt enough =
    runs_within i x fs d k waits ne v there at pos lt enough
