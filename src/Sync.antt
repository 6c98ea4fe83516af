-- ===== src/Sync.antt =====
-- Threads that sleep and wait, core/scheduler.h and core/ipc/sync.h. A call that puts the current
-- thread to sleep ends in `scheduler_yeild`, which is `timer_tick1`: what it leaves is the thread
-- table on which that handler runs. The number of the current thread, the clock's reading and the
-- word in memory at an address are parameters. A null pointer that is followed is `none`.
pub mod Wake
pub mod Resume
mod Tests
use carrotos.Base.{
  ℕ, zero, suc, ◌+◌, ◌-◌, ◌*◌, ◌/◌, ◌%◌, ◌^◌, Bool, true, false, ◌&&◌, not, Option, none, some,
  List, [], ◌∷◌, ◌==◌, if◌then◌else◌,
}
use carrotos.Time.{Timeval, Timespec, timespec_to_timeval, add_time, add_time_us, earlier}
use carrotos.Thread.{Thread, Threads}
use carrotos.Thread.State.{
  ThreadState, state_is, not_exist, ready, blocked_futex, blocked_network, blocked_other,
}
use carrotos.Thread.Table.{thread_at, put_thread}
use carrotos.Base.Slots.{each_strict}
use carrotos.Paging.{Paging, is_paged}

-- `threads_info_ptr[i]` changed in place.
unfoldable pub change_thread : Threads → ℕ → (Thread → Thread) → Option Threads
change_thread ts i change = elim (thread_at ts i) [
  | none ↦ none
  | some t ↦ some (put_thread ts i (change t))
]

-- `user_thread_current_sleep(req)`; the microseconds are cut to 32 bits.
unfoldable pub user_thread_current_sleep : (now : Timeval) → Timespec → ℕ → Threads → Option Threads
unfolding change_thread
user_thread_current_sleep now req tid ts =
    let reqv : Timeval = record {
      tv_sec = req.tv_sec;
      tv_microsec = req.tv_nanosec / 1000 % 2 ^ 32;
    } in
    let wake_time = add_time now reqv in
    change_thread ts tid (λ t. record t { state = blocked_other; wakeup_time = wake_time })

-- `kernel_thread_sleep(duration_us)`
unfoldable pub kernel_thread_sleep : (now : Timeval) → ℕ → ℕ → Threads → Option Threads
unfolding change_thread
kernel_thread_sleep now duration_us tid ts =
    let wt = add_time_us now (duration_us % 2 ^ 32) in
    change_thread ts tid (λ thread. record thread { wakeup_time = wt; state = blocked_other })

-- `kernel_thread_sleep_on_network(addr)`
unfoldable pub kernel_thread_sleep_on_network : ℕ → ℕ → Threads → Option Threads
unfolding change_thread
kernel_thread_sleep_on_network addr tid ts =
    change_thread ts tid
      (λ thread. record thread { state = blocked_network; sleep_flag_addr = addr })

-- `sleep_by_resource(flag_addr, state)`
unfoldable pub sleep_by_resource : ℕ → ThreadState → ℕ → Threads → Option Threads
unfolding change_thread
sleep_by_resource flag_addr state tid ts =
    let state' = if state_is state not_exist then blocked_other else state in
    change_thread ts tid (λ t. record t { sleep_flag_addr = flag_addr; state = state' })

-- An error, or the table on which the thread waits; a fault at a null pointer.
pub data Pause : Type 0 where
  fault : Pause
  failed : ℕ → Pause
  waits : Threads → Pause

abbrev pub efault : ℕ
efault = 2 ^ 64 - 14

abbrev pub eagain : ℕ
eagain = 2 ^ 64 - 11

abbrev pub einval : ℕ
einval = 2 ^ 64 - 22

-- The record of a thread that waits for a futex; a `timeout` of `none` is the null pointer.
pub wait_futex : (now : Timeval) → ℕ → Option Timespec → Thread → Thread
wait_futex now futex_ptr none thread = record thread {
  state = blocked_futex;
  sleep_flag_addr = futex_ptr;
}
wait_futex now futex_ptr (some timeout) thread = record thread {
  state = blocked_futex;
  wakeup_time = add_time now (timespec_to_timeval timeout);
  lock_time = now;
  sleep_flag_addr = futex_ptr;
}

unfoldable pub pause_thread_futex :
    Paging → (word : ℕ → ℕ) → (now : Timeval) → ℕ → ℕ → ℕ → Option Timespec → Threads → Pause
unfolding wait_futex
pause_thread_futex paging word now tid futex_ptr expected_val timeout ts = elim (thread_at ts tid) [
  | none ↦ fault
  | some thread ↦
      if not (is_paged paging thread.pid futex_ptr && is_paged paging thread.pid (futex_ptr + 4))
      then failed efault
      else if not (word futex_ptr == expected_val)
      then failed eagain
      else waits (put_thread ts tid (wait_futex now futex_ptr timeout thread))
]

-- A thread of the process that waits for the futex.
pub is_waiter : ℕ → ℕ → Thread → Bool
is_waiter pid futex_ptr t =
    t.pid == pid && state_is t.state blocked_futex && t.sleep_flag_addr == futex_ptr

-- `found_thread`, `resume_tid`, which holds nothing at first, and `earliest`.
pub record Search : Type 0 where
  pub found_thread : Bool
  pub resume_tid : Option ℕ
  pub earliest : Timeval

pub search_step : ℕ → ℕ → ℕ → Thread → Search → Search
unfolding is_waiter
search_step pid futex_ptr i t s =
    if is_waiter pid futex_ptr t
    then (if earlier t.lock_time s.earliest
        then record { found_thread = true; resume_tid = some i; earliest = t.lock_time }
        else record s { found_thread = true })
    else s

-- The loop over the table from slot `i` on.
pub search_loop : ℕ → ℕ → ℕ → Threads → Search → Search
unfolding search_step
search_loop pid futex_ptr i [] s = s
search_loop pid futex_ptr i (none ∷ ts) s = search_loop pid futex_ptr (i + 1) ts s
search_loop pid futex_ptr i (some t ∷ ts) s =
    search_loop pid futex_ptr (i + 1) ts (search_step pid futex_ptr i t s)

abbrev pub no_time : Timeval
no_time = record { tv_sec = 0; tv_microsec = 0 }

pub woken : Thread → Thread
woken t = record t {
  state = ready;
  sleep_flag_addr = 0;
  wakeup_time = no_time;
  lock_time = no_time;
}

-- The value returned and the table; `undefined` where the uninitialised `resume_tid` is used.
pub data Resumed : Type 0 where
  undefined : Resumed
  returns : ℕ → Threads → Resumed

-- The slot that the search came to is woken.
pub wake_found : Threads → Option ℕ → Resumed
unfolding woken
wake_found ts none = undefined
wake_found ts (some tid) = elim (thread_at ts tid) [
  | none ↦ undefined
  | some t ↦ returns 0 (put_thread ts tid (woken t))
]

unfoldable pub resume_thread_futex : (now : Timeval) → (pid futex_ptr : ℕ) → Threads → Resumed
unfolding search_loop wake_found
resume_thread_futex now pid futex_ptr ts =
    let s =
      search_loop pid futex_ptr 0 ts
        (record { found_thread = false; resume_tid = none; earliest = now }) in
    if not s.found_thread then returns einval ts else wake_found ts s.resume_tid

-- A waiter of one futex made to wait for another.
pub moved : (pid uaddr uaddr2 : ℕ) → Thread → Thread
unfolding is_waiter
moved pid uaddr uaddr2 t =
    if is_waiter pid uaddr t then record t { sleep_flag_addr = uaddr2 } else t

pub count_waiters : (pid uaddr : ℕ) → Threads → ℕ
unfolding is_waiter
count_waiters pid uaddr [] = 0
count_waiters pid uaddr (none ∷ ts) = count_waiters pid uaddr ts
count_waiters pid uaddr (some t ∷ ts) =
    let rest = count_waiters pid uaddr ts in if is_waiter pid uaddr t then rest + 1 else rest

pub returns_count : ℕ → Resumed → Resumed
returns_count n undefined = undefined
returns_count n (returns _ ts) = returns n ts

-- `move_futex(uaddr, op, uaddr2, val3)`: the loop follows every pointer of the table, so that with a
-- free slot in it nothing is returned.
unfoldable pub move_futex :
    Paging → (word : ℕ → ℕ) → (now : Timeval) → (pid uaddr uaddr2 val3 : ℕ) → Threads → Resumed
unfolding moved count_waiters resume_thread_futex returns_count
move_futex paging word now pid uaddr uaddr2 val3 ts =
    if not (is_paged paging pid uaddr && is_paged paging pid (uaddr + 4))
    then returns efault ts
    else (elim (each_strict (moved pid uaddr uaddr2) ts) [
      | none ↦ undefined
      | some ts' ↦
          let n = count_waiters pid uaddr ts in
          if word uaddr2 == val3
          then returns_count n (resume_thread_futex now pid uaddr2 ts')
          else returns n ts'
    ])
