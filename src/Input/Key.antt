-- ===== src/Input/Key.antt =====
-- The keyboard, core/input/key.h with `scancode_to_ascii` of core/input/input.h: from the scan codes
-- to the events.
use carrotos.Base.{
  ℕ, ◌+◌, ◌-◌, ◌%◌, Bool, true, false, ◌&&◌, ◌||◌, List, [], ◌∷◌, ◌==◌, ltb, leb, if◌then◌else◌,
  bit_and, bit_or, get_or, set,
}
use carrotos.Time.{Timeval}

-- `scancode_map`; the cells behind the last one named are 0, and those behind 128 are not there.
abbrev scancode_map : List ℕ
scancode_map =
    0 ∷ 27 ∷ 49 ∷ 50 ∷ 51 ∷ 52 ∷ 53 ∷ 54 ∷ 55 ∷ 56 ∷ 57 ∷ 48 ∷ 45 ∷ 61 ∷ 8 ∷ 9 ∷ 113 ∷ 119 ∷ 101
    ∷ 114 ∷ 116 ∷ 121 ∷ 117 ∷ 105 ∷ 111 ∷ 112 ∷ 91 ∷ 93 ∷ 10 ∷ 0 ∷ 97 ∷ 115 ∷ 100 ∷ 102 ∷ 103 ∷ 104
    ∷ 106 ∷ 107 ∷ 108 ∷ 59 ∷ 39 ∷ 96 ∷ 0 ∷ 92 ∷ 122 ∷ 120 ∷ 99 ∷ 118 ∷ 98 ∷ 110 ∷ 109 ∷ 44 ∷ 46 ∷ 47
    ∷ 0 ∷ 42 ∷ 0 ∷ 32 ∷ 0 ∷ []

unfoldable pub scancode_to_ascii : ℕ → ℕ
scancode_to_ascii sc = get_or scancode_map sc 0

-- `is_modifier_key(full_sc)`: the argument has 8 bits, so the codes with a prefix never fit.
unfoldable pub is_modifier_key : ℕ → Bool
is_modifier_key full_sc =
    full_sc == 0x2A
    || full_sc == 0x36
    || full_sc == 0x1D
    || full_sc == 0xE01D
    || full_sc == 0x38
    || full_sc == 0xE038
    || full_sc == 0xE05B
    || full_sc == 0xE05C

pub data InputAction : Type 0 where
  ia_none : InputAction
  ia_press : InputAction
  ia_release : InputAction
  ia_hold : InputAction
  ia_move : InputAction
  ia_hold_move : InputAction

pub record InputEvent : Type 0 where
  pub time : Timeval
  pub type_ : ℕ
  pub code : ℕ
  pub action : InputAction

-- The static variables and the events.
pub record Keyboard : Type 0 where
  pub kb_modifiers_byte : ℕ
  pub kb_e0_prefix : Bool
  pub input_buffer : List InputEvent
  pub input_buffer_w_index : ℕ
  pub input_buffer_r_index : ℕ

abbrev pub max_input_buffer_len : ℕ
max_input_buffer_len = 170

-- The bit of a modifier, 0 for any other key.
pub modifier_bit : ℕ → ℕ
modifier_bit full_sc =
    if full_sc == 0x2A
    then 1
    else if full_sc == 0x36
    then 2
    else if full_sc == 0x1D
    then 4
    else if full_sc == 0xE01D
    then 8
    else if full_sc == 0x38
    then 16
    else if full_sc == 0xE038
    then 32
    else if full_sc == 0xE05B
    then 64
    else if full_sc == 0xE05C
    then 128
    else 0

unfoldable pub with_modifier : ℕ → Bool → ℕ → ℕ
unfolding modifier_bit
with_modifier full_sc pressed b =
    if pressed then bit_or b (modifier_bit full_sc) else bit_and b (255 - modifier_bit full_sc)

-- What a combination asks for: nothing, a signal to the current process, a reboot, a terminal.
pub data Combination : Type 0 where
  no_combination : Combination
  sends_signal : ℕ → Combination
  reboots : Combination
  switches : ℕ → Combination

-- The keys F1 to F12, and the delete key.
pub with_alt : ℕ → Combination
with_alt full_sc =
    if full_sc == 0xE053
    then reboots
    else if leb 0x3B full_sc && leb full_sc 0x44
    then switches (full_sc - 0x3A)
    else if full_sc == 0x57
    then switches 11
    else if full_sc == 0x58
    then switches 12
    else no_combination

unfoldable pub handle_special_keys_combinations : (kb_modifiers_byte full_sc : ℕ) → Combination
unfolding with_alt
handle_special_keys_combinations b full_sc =
    if bit_and b 0xC == 0
    then no_combination
    else if bit_and b 0x30 == 0
    then (if full_sc == 0x2E
        then sends_signal 2
        else if full_sc == 0x2C
        then sends_signal 20
        else no_combination)
    else with_alt full_sc

-- What a scan code does: the state, and a combination, or the code of the event stored, or neither.
pub data Scanned : Type 0 where
  prefix : Scanned
  combination : Combination → Scanned
  event : ℕ → Scanned

-- The event is stored without a look at the reading index.
pub store_event : (now : Timeval) → Bool → ℕ → Keyboard → Keyboard
store_event now pressed code kb = record kb {
  input_buffer = set kb.input_buffer kb.input_buffer_w_index (record {
    time = now;
    type_ = 1;
    code = code;
    action = if pressed then ia_press else ia_release;
  });
  input_buffer_w_index = (kb.input_buffer_w_index + 1) % max_input_buffer_len;
}

-- From the modifiers on; `sc` without its highest bit.
pub scanned : (now : Timeval) → Bool → (sc full_sc : ℕ) → Keyboard → Keyboard × Scanned
unfolding store_event with_modifier handle_special_keys_combinations
scanned now pressed sc full_sc kb =
    let kb' = record kb {
      kb_modifiers_byte = with_modifier full_sc pressed kb.kb_modifiers_byte;
    } in
    let code = if sc == 0 then full_sc else sc in
    elim (handle_special_keys_combinations kb'.kb_modifiers_byte full_sc) [
      | no_combination ↦ (store_event now pressed code kb', event code)
      | sends_signal n ↦ (kb', combination (sends_signal n))
      | reboots ↦ (kb', combination reboots)
      | switches n ↦ (kb', combination (switches n))
    ]

-- `isr_keyboard_handler` up to `pour_keys_and_resume_thread`, on the byte `sc` that the port gives.
unfoldable pub isr_keyboard_handler : (now : Timeval) → ℕ → Keyboard → Keyboard × Scanned
unfolding scanned
isr_keyboard_handler now sc kb =
    let pressed = ltb sc 0x80 in
    let full_sc = if kb.kb_e0_prefix then 0xE000 + sc else sc in
    if sc == 0xE0
    then (record kb { kb_e0_prefix = true }, prefix)
    else scanned now pressed (if pressed then sc else sc - 0x80)
        (if pressed then full_sc else full_sc - 0x80) (record kb { kb_e0_prefix = false })
