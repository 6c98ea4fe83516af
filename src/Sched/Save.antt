-- ===== src/Sched/Save.antt =====
-- What the steps of a handler keep of the thread table: each thread stands in the slot of its own
-- number, and at most the current one is running.
use carrotos.Base.{
  ℕ, ◌+◌, ◌<◌, ◌≡◌, ◌≢◌, sym, ap, ◌∙◌, ◌⊎◌, some, arith, ◌==◌, length, if◌then◌else◌, inl, inr,
}
use carrotos.Time.{Timeval}
use carrotos.Thread.{Thread, Threads}
use carrotos.Thread.State.{running}
use carrotos.Thread.Table.{
  thread_at, put_thread, each_thread, map_option, thread_at-each_thread, length-each_thread,
  thread_at-put_thread,
}
use carrotos.Sched.{wake_sleeper, handle_sleeping_thread}

-- A thread stands in the slot of its own number.
abbrev pub Indexed : Threads → Type 0
Indexed ts = (i : ℕ) (t : Thread) → thread_at ts i ≡ some t → t.tid ≡ i

-- At most the thread of slot `c` is running; no thread is.
abbrev pub RunsOnly : Threads → ℕ → Type 0
RunsOnly ts c = (i : ℕ) (t : Thread) → thread_at ts i ≡ some t → t.state ≡ running → i ≡ c

abbrev pub NoneRuns : Threads → Type 0
NoneRuns ts = (i : ℕ) (t : Thread) → thread_at ts i ≡ some t → t.state ≢ running

-- What stands in a slot after a store: the new thread, or what stood there.
put_cases :
    (ts : Threads) (c : ℕ) (new : Thread) (i : ℕ) (t : Thread)
    → c < length ts
    → thread_at (put_thread ts c new) i ≡ some t
    → ((i ≡ c) × (new ≡ t)) ⊎ (thread_at ts i ≡ some t)
put_cases ts c new i t inside h =
    let stored : (if i == c then some new else thread_at ts i) ≡ some t =
      sym (thread_at-put_thread ts c new i inside) ∙ h in
    ground (arith, stored)

module _ (ts : Threads) (c : ℕ) (new : Thread) (inside : c < length ts) where
  pub put-Indexed : Indexed ts → new.tid ≡ c → Indexed (put_thread ts c new)
  put-Indexed all own i t h = elim (put_cases ts c new i t inside h) [
    | inl (e, f) ↦ rw (← f, e) own
    | inr old ↦ all i t old
  ]

  -- Whatever is stored in the slot that may run.
  pub put-RunsOnly : RunsOnly ts c → RunsOnly (put_thread ts c new) c
  put-RunsOnly only i t h r = elim (put_cases ts c new i t inside h) [
    | inl (e, f) ↦ e
    | inr old ↦ only i t old r
  ]

  -- The one that ran no longer does.
  pub put-NoneRuns : RunsOnly ts c → new.state ≢ running → NoneRuns (put_thread ts c new)
  put-NoneRuns only stopped i t h r = elim (put_cases ts c new i t inside h) [
    | inl (e, f) ↦ stopped (rw f r)
    | inr old ↦
        let e : i ≡ c = only i t old r in
        let now : thread_at (put_thread ts c new) i ≡ some new =
          thread_at-put_thread ts c new i inside ∙ (rw e (ground arith)) in
        let same : new ≡ t = ground (arith, now) in stopped (rw same r)
  ]

-- No thread runs, so any one may be made to.
pub RunsOnly-of_NoneRuns :
    (ts : Threads) (c : ℕ) (new : Thread)
    → c < length ts
    → NoneRuns ts
    → RunsOnly (put_thread ts c new) c
RunsOnly-of_NoneRuns ts c new inside none_runs =
    put-RunsOnly ts c new inside (λ i t h r. absurd (none_runs i t h r))

-- A loop over the table that changes no number and sets nobody running.
module _ (f : ℕ → Thread → Thread) (ts : Threads) where
  each_cases :
      (i : ℕ) (t : Thread)
      → thread_at (each_thread f 0 ts) i ≡ some t
      → (old : Thread) × (thread_at ts i ≡ some old) × (f (0 + i) old ≡ t)
  unfolding map_option
  each_cases i t h =
      let e : map_option (f (0 + i)) (thread_at ts i) ≡ some t =
        sym (thread_at-each_thread f 0 ts i) ∙ h in
      ground (arith, e)

  pub each-Indexed :
      ((i : ℕ) (t : Thread) → (f i t).tid ≡ t.tid) → Indexed ts → Indexed (each_thread f 0 ts)
  each-Indexed same all i t h =
      let (old, at, e) = each_cases i t h in rw (← e) (same (0 + i) old ∙ all i old at)

  pub each-RunsOnly :
      (c : ℕ)
      → ((i : ℕ) (t : Thread) → (f i t).state ≡ running → t.state ≡ running)
      → RunsOnly ts c
      → RunsOnly (each_thread f 0 ts) c
  each-RunsOnly c same only i t h r =
      let (old, at, e) = each_cases i t h in only i old at (same (0 + i) old (rw e r))

wake-tid : (clock : ℕ → Timeval) (i : ℕ) (t : Thread) → (wake_sleeper clock i t).tid ≡ t.tid
unfolding wake_sleeper
wake-tid clock i t = ground arith

wake-running :
    (clock : ℕ → Timeval) (i : ℕ) (t : Thread)
    → (wake_sleeper clock i t).state ≡ running
    → t.state ≡ running
unfolding wake_sleeper
wake-running clock i t h = ground arith

module _ (clock : ℕ → Timeval) (ts : Threads) where
  pub handle_sleeping_thread-Indexed : Indexed ts → Indexed (handle_sleeping_thread clock ts)
  unfolding handle_sleeping_thread
  handle_sleeping_thread-Indexed = each-Indexed (wake_sleeper clock) ts (wake-tid clock)

  pub handle_sleeping_thread-RunsOnly :
      (c : ℕ) → RunsOnly ts c → RunsOnly (handle_sleeping_thread clock ts) c
  unfolding handle_sleeping_thread
  handle_sleeping_thread-RunsOnly c = each-RunsOnly (wake_sleeper clock) ts c (wake-running clock)

  pub handle_sleeping_thread-NoneRuns : NoneRuns ts → NoneRuns (handle_sleeping_thread clock ts)
  unfolding handle_sleeping_thread
  handle_sleeping_thread-NoneRuns none_runs i t h r =
      let (old, at, e) = each_cases (wake_sleeper clock) ts i t h in
      none_runs i old at (wake-running clock (0 + i) old (rw e r))

  pub length-handle_sleeping_thread : length (handle_sleeping_thread clock ts) ≡ length ts
  unfolding handle_sleeping_thread
  length-handle_sleeping_thread = length-each_thread (wake_sleeper clock) 0 ts

  pub thread_at-handle_sleeping_thread :
      (i : ℕ)
      → thread_at (handle_sleeping_thread clock ts) i
        ≡ map_option (wake_sleeper clock i) (thread_at ts i)
  unfolding handle_sleeping_thread
  thread_at-handle_sleeping_thread i =
      let e : 0 + i ≡ i = omega arith in
      thread_at-each_thread (wake_sleeper clock) 0 ts i
      ∙ ap (λ j. map_option (wake_sleeper clock j) (thread_at ts i)) e
