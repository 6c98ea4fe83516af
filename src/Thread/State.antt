-- ===== src/Thread/State.antt =====
-- `thread_state_t` of core/scheduler.h, in the order of the source, and its comparison.
use carrotos.Base.{ℕ, ◌≡◌, refl, sym, ap, ◌∙◌, Bool, true, [], ◌∷◌, arith, ◌==◌, get_or}

pub data ThreadState : Type 0 where
  not_exist ready running blocked_key blocked_mouse blocked_io blocked_network : ThreadState
  blocked_uds blocked_pid blocked_futex blocked_other idle dead : ThreadState
  ended_but_not_cleaned waiting_signal : ThreadState

-- The number that the enumeration gives a state.
abbrev pub number : ThreadState → ℕ
number not_exist = 0
number ready = 1
number running = 2
number blocked_key = 3
number blocked_mouse = 4
number blocked_io = 5
number blocked_network = 6
number blocked_uds = 7
number blocked_pid = 8
number blocked_futex = 9
number blocked_other = 10
number idle = 11
number dead = 12
number ended_but_not_cleaned = 13
number waiting_signal = 14

-- `a == b`
unfoldable pub state_is : ThreadState → ThreadState → Bool
state_is a b = number a == number b

state_of : ℕ → ThreadState
state_of n =
    get_or
      (not_exist ∷ ready ∷ running ∷ blocked_key ∷ blocked_mouse ∷ blocked_io ∷ blocked_network
        ∷ blocked_uds ∷ blocked_pid ∷ blocked_futex ∷ blocked_other ∷ idle ∷ dead
        ∷ ended_but_not_cleaned ∷ waiting_signal ∷ [])
      n not_exist

state_of-number : (s : ThreadState) → state_of (number s) ≡ s
unfolding state_of
state_of-number not_exist = refl
state_of-number _ = refl

pub state_is_refl : (s : ThreadState) → state_is s s ≡ true
unfolding state_is
state_is_refl not_exist = refl
state_is_refl _ = refl

pub eq_of_state_is : (a b : ThreadState) → state_is a b ≡ true → a ≡ b
unfolding state_is
eq_of_state_is a b h =
    let e : number a ≡ number b = ground arith in
    sym (state_of-number a) ∙ ap state_of e ∙ state_of-number b
