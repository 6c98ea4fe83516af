-- ===== src/Sync/Wake.antt =====
-- How long a thread sleeps.
use carrotos.Base.{
  ℕ, ◌+◌, ◌*◌, ◌/◌, ◌%◌, ◌^◌, ◌<◌, ◌≡◌, refl, ap, ◌∙◌, true, false, Option, none, some, arith,
  Bool-cases, inl, inr, ◌==◌, if◌then◌else◌, leb,
}
use carrotos.Time.{Timeval, Timespec, add_time, later_or_same}
use carrotos.Time.Compare.{IsNormal, instant, compare_instants}
use carrotos.Time.Sum.{add_time-instant}
use carrotos.Thread.{Thread, Threads}
use carrotos.Thread.State.{state_is, ready, blocked_other, blocked_futex, state_is_refl}
use carrotos.Thread.Table.{thread_at, put_thread, map_option, thread_at-put_thread, thread_at-lt}
use carrotos.Sched.{wake_sleeper, handle_sleeping_thread}
use carrotos.Sched.Save.{thread_at-handle_sleeping_thread}
use carrotos.Paging.{Paging, is_paged}
use carrotos.Sync.{change_thread, user_thread_current_sleep, waits, wait_futex, pause_thread_futex}

change_thread-some :
    (ts : Threads) (i : ℕ) (change : Thread → Thread) {t : Thread}
    → thread_at ts i ≡ some t
    → change_thread ts i change ≡ some (put_thread ts i (change t))
unfolding change_thread
change_thread-some ts i change h = rw (h, change_thread)

-- A slot just stored, after the sleepers' loop.
woken_slot :
    (clock : ℕ → Timeval) (ts : Threads) (i : ℕ) (new : Thread) {t : Thread}
    → thread_at ts i ≡ some t
    → thread_at (handle_sleeping_thread clock (put_thread ts i new)) i
      ≡ some (wake_sleeper clock i new)
unfolding map_option
woken_slot clock ts i new h =
    let stored : thread_at (put_thread ts i new) i ≡ some new =
      thread_at-put_thread ts i new i (thread_at-lt ts i h) ∙ ground arith in
    thread_at-handle_sleeping_thread clock (put_thread ts i new) i
    ∙ ap (map_option (wake_sleeper clock i)) stored

-- The sleepers' loop looks at the instants.
sleeper-state :
    (clock : ℕ → Timeval) (i : ℕ) (t : Thread)
    → t.state ≡ blocked_other
    → IsNormal (clock i)
    → IsNormal t.wakeup_time
    → (wake_sleeper clock i t).state
      ≡ (if leb (instant t.wakeup_time) (instant (clock i)) then ready else blocked_other)
unfolding wake_sleeper
sleeper-state clock i t h v w =
    let e : state_is t.state blocked_other ≡ true = rw h (state_is_refl blocked_other) in
    let due = (compare_instants v w).1 in
    elim (Bool-cases (later_or_same (clock i) t.wakeup_time)) [
      | inl l ↦
          let f : leb (instant t.wakeup_time) (instant (clock i)) ≡ true =
            ground (arith, due.0 l) in
          rw (e, l, f)
      | inr l ↦
          let f : leb (instant t.wakeup_time) (instant (clock i)) ≡ false = ground (arith, due.1) in
          rw (e, l, f, h)
    ]

-- A thread that goes to sleep at a normal time, for less than a second beyond whole seconds and
-- where the seconds leave room for the sum, is in the table on which it yields; a tick of the
-- timer then makes it ready if the clock reads the end of that time or later, and leaves it
-- blocked otherwise.
pub user_thread_current_sleep_wakes :
    (now : Timeval) (req : Timespec) (tid : ℕ) (ts : Threads) (clock : ℕ → Timeval) {t : Thread}
    → IsNormal now
    → IsNormal (clock tid)
    → req.tv_nanosec < 1000000000
    → now.tv_sec + req.tv_sec + 1 < 2 ^ 64
    → thread_at ts tid ≡ some t
    → (table : Threads) × (new : Thread) × (user_thread_current_sleep now req tid ts ≡ some table)
      × (thread_at (handle_sleeping_thread clock table) tid ≡ some new)
      × (new.state ≡ (
          if leb (instant now + req.tv_sec * 1000000 + req.tv_nanosec / 1000) (instant (clock tid))
          then ready
          else blocked_other))
unfolding user_thread_current_sleep
user_thread_current_sleep_wakes now req tid ts clock {t} normal v nanos room at =
    let reqv : Timeval = record {
      tv_sec = req.tv_sec;
      tv_microsec = req.tv_nanosec / 1000 % 2 ^ 32;
    } in
    let reqv_normal : IsNormal reqv = record { us_lt = omega arith } in
    let wake_time = add_time now reqv in
    let sum = add_time-instant normal reqv_normal room in
    let new = record t { state = blocked_other; wakeup_time = wake_time } in
    let ends : instant wake_time ≡ instant now + req.tv_sec * 1000000 + req.tv_nanosec / 1000 =
      omega (arith, sum.1) in
    (
      put_thread ts tid new,
      wake_sleeper clock tid new,
      change_thread-some ts tid (λ u. record u { state = blocked_other; wakeup_time = wake_time })
          at,
      woken_slot clock ts tid new at,
      rw (← ends) (sleeper-state clock tid new refl v sum.0),
    )

wake_sleeper-futex :
    (clock : ℕ → Timeval) (i : ℕ) (t : Thread)
    → t.state ≡ blocked_futex
    → wake_sleeper clock i t ≡ t
unfolding wake_sleeper state_is
wake_sleeper-futex clock i t h = let e : state_is t.state blocked_other ≡ false = rw h in rw e

wait_futex-state :
    (now : Timeval) (futex_ptr : ℕ) (timeout : Option Timespec) (t : Thread)
    → ((wait_futex now futex_ptr timeout t).state ≡ blocked_futex)
      × ((wait_futex now futex_ptr timeout t).sleep_flag_addr ≡ futex_ptr)
unfolding wait_futex
wait_futex-state now futex_ptr none t = (refl, refl)
wait_futex-state now futex_ptr (some timeout) t = (refl, refl)

pauses :
    (paging : Paging) (word : ℕ → ℕ) (now : Timeval) (tid futex_ptr : ℕ) (timeout : Option Timespec)
    (ts : Threads) {t : Thread}
    → thread_at ts tid ≡ some t
    → is_paged paging t.pid futex_ptr ≡ true
    → is_paged paging t.pid (futex_ptr + 4) ≡ true
    → pause_thread_futex paging word now tid futex_ptr (word futex_ptr) timeout ts
      ≡ waits (put_thread ts tid (wait_futex now futex_ptr timeout t))
unfolding pause_thread_futex
pauses paging word now tid futex_ptr timeout ts at low high =
    let hit : (word futex_ptr == word futex_ptr) ≡ true = ground arith in
    rw (at, pause_thread_futex, low, high, hit)

-- A call of `pause_thread_futex` whose futex is mapped and holds the value expected leaves the
-- thread waiting, and no tick of the timer wakes it, whatever its clock reads and whatever timeout
-- was given.
pub pause_thread_futex_waits :
    (paging : Paging) (word : ℕ → ℕ) (now : Timeval) (tid futex_ptr : ℕ) (timeout : Option Timespec)
    (ts : Threads) {t : Thread}
    → thread_at ts tid ≡ some t
    → is_paged paging t.pid futex_ptr ≡ true
    → is_paged paging t.pid (futex_ptr + 4) ≡ true
    → (table : Threads) × (new : Thread) × (pause_thread_futex paging word now tid futex_ptr
          (word futex_ptr)
          timeout
          ts
        ≡ waits table)
      × (new.state ≡ blocked_futex)
      × (new.sleep_flag_addr ≡ futex_ptr)
      × ((clock : ℕ → Timeval) → thread_at (handle_sleeping_thread clock table) tid ≡ some new)
pause_thread_futex_waits paging word now tid futex_ptr timeout ts {t} at low high =
    let new = wait_futex now futex_ptr timeout t in
    let state = wait_futex-state now futex_ptr timeout t in
    (
      put_thread ts tid new,
      new,
      pauses paging word now tid futex_ptr timeout ts at low high,
      state.0,
      state.1,
      λ clock. woken_slot clock ts tid new at ∙ ap some (wake_sleeper-futex clock tid new state.0),
    )
