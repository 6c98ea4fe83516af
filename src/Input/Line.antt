-- ===== src/Input/Line.antt =====
-- The keys of a terminal, core/input/key.h: from the events into the ring of the terminal, and from
-- there to the threads that read them. What a thread that waits leaves is a step of Sched.
use carrotos.Base.{
  ℕ, zero, suc, ◌+◌, ◌-◌, ◌%◌, ◌^◌, Bool, true, false, not, ◌&&◌, ◌||◌, Option, none, some, List,
  [], ◌∷◌, ◌==◌, ltb, leb, if◌then◌else◌, get_or,
}
use carrotos.Fifo.{Read, fifo_read16, fifo_write16}
use carrotos.Thread.{Threads}
use carrotos.Thread.State.{blocked_key}
use carrotos.Sync.{change_thread}
use carrotos.Process.{Process}
use carrotos.Input.Tty.{
  InputKey, Tty, TtyMode, mode_none, mode_pty, mode_cli, mode_gui, tty_size, no_key, is_printable,
  access_tty_allowed, wake_thread_by_input_event,
}
use carrotos.Input.Key.{
  Keyboard, InputEvent, InputAction, ia_release, is_modifier_key, scancode_to_ascii,
  max_input_buffer_len,
}

-- `wait_key_current_thread(tty)` up to its yield, `lock_addr` being the address of `tty->locked`.
unfoldable pub wait_key_current_thread : (lock_addr tid : ℕ) → Threads → Option Threads
unfolding change_thread
wait_key_current_thread lock_addr tid ts =
    change_thread ts tid
      (λ this_thread. record this_thread { sleep_flag_addr = lock_addr; state = blocked_key })

-- `read_input_to_thread_buffer(tty, buffer)` up to the wait that follows a count of 0.
unfoldable pub read_input_to_thread_buffer : Tty → Read InputKey
read_input_to_thread_buffer tty =
    fifo_read16 no_key tty.input_buf tty.in_tail tty.in_head tty_size 1

-- The search for the first enter, with `k` rounds left.
unfoldable pub find_enter : List InputKey → (tail head k i : ℕ) → Option ℕ
find_enter buf tail head zero i = none
find_enter buf tail head (suc k) i =
    let rest = find_enter buf tail head k (i + 1) in
    let j = (i + tail) % tty_size in
    if j == head then none else if (get_or buf j no_key).key == 10 then some i else rest

-- What is read, by where the enter is.
unfoldable pub line_before : Tty → ℕ → Option ℕ → Read InputKey
line_before tty len none = record { count = 0; out = []; tail = tty.in_tail }
line_before tty len (some i) =
    let count = if ltb i len then i else len in
    let r = fifo_read16 no_key tty.input_buf tty.in_tail tty.in_head tty_size count in
    record { count = count; out = r.out; tail = r.tail }

unfoldable pub read_input_line_to_thread_buffer : Tty → ℕ → Read InputKey
unfolding find_enter line_before
read_input_line_to_thread_buffer tty len =
    line_before tty len (find_enter tty.input_buf tty.in_tail tty.in_head tty_size 0)

-- One turn of `tty_read_key_halt`: refused, the keys and the terminal, or the table with the thread
-- asleep, where `none` is the fault at the null pointer of a thread that is not in it. In a
-- console the next turn follows when it wakes; in another mode the call returns 0 then.
pub data KeyRead : Type 0 where
  refused : ℕ → KeyRead
  read_keys : Read InputKey → Tty → KeyRead
  asleep : Option Threads → KeyRead

-- By the mode.
unfoldable pub read_by_mode : TtyMode → Tty → ℕ → Read InputKey
unfolding read_input_line_to_thread_buffer read_input_to_thread_buffer
read_by_mode mode_cli tty len = read_input_line_to_thread_buffer tty len
read_by_mode mode_none tty len = read_input_to_thread_buffer tty
read_by_mode mode_pty tty len = read_input_to_thread_buffer tty
read_by_mode mode_gui tty len = read_input_to_thread_buffer tty

unfoldable pub tty_read_key_halt :
    (lock_addr tid : ℕ) → Option Process → Tty → ℕ → Threads → KeyRead
unfolding read_by_mode wait_key_current_thread
tty_read_key_halt lock_addr tid proc tty buffer_size ts =
    let r = read_by_mode tty.mode tty buffer_size in
    if not (access_tty_allowed (some tty) proc)
    then refused (2 ^ 64 - 1)
    else if r.count == 0
    then asleep (wait_key_current_thread lock_addr tid ts)
    else read_keys r (record tty { in_tail = r.tail })

-- `(x == 0) ? (TTY_INPUT_SIZE - 1) : (x - 1)`
pub before : ℕ → ℕ
before x = if x == 0 then tty_size - 1 else x - 1

-- The loop of a backspace from the head `h` back to the tail; the head afterwards. With `k` turns
-- it is `none` where they were not enough.
pub drop_last : ℕ → List InputKey → (tail head h : ℕ) → Option ℕ
unfolding before
drop_last zero buf tail head h = none
drop_last (suc k) buf tail head h =
    let rest = drop_last k buf tail head (before h) in
    if h == tail then some head else if is_printable (get_or buf h no_key) then some h else rest

-- The output's head is moved only where the terminal echoes.
pub drop_output : ℕ → Tty → Option Tty
unfolding drop_last before
drop_output k tty =
    elim (drop_last k tty.output_buf tty.out_tail tty.out_head (before tty.out_head)) [
      | none ↦ none
      | some h ↦ some (record tty { out_head = h })
    ]

unfoldable pub handle_backspace_input : ℕ → Tty → Option Tty
unfolding drop_last drop_output before
handle_backspace_input k tty =
    elim (drop_last k tty.input_buf tty.in_tail tty.in_head (before tty.in_head)) [
      | none ↦ none
      | some h ↦
          let tty' = record tty { in_head = h } in
          let shorter = drop_output k tty' in if not tty.echo then some tty' else shorter
    ]

-- A key into the output, where the terminal echoes.
pub echoed : InputKey → Tty → Tty
echoed key tty =
    let w = fifo_write16 tty.output_buf tty.out_tail tty.out_head tty_size (key ∷ []) in
    if tty.echo then record tty { output_buf = w.buf; out_head = w.head } else tty

pub is_cli : TtyMode → Bool
is_cli mode_none = false
is_cli mode_pty = false
is_cli mode_cli = true
is_cli mode_gui = false

abbrev with_threads : Threads → Option Tty → Option (Tty × Threads)
with_threads ts none = none
with_threads ts (some tty) = some (tty, ts)

pub is_release : InputAction → Bool
is_release ia_release = true
is_release _ = false

pub has_mode : TtyMode → Bool
has_mode mode_none = false
has_mode _ = true

-- `write_1_event_input_to_tty(tty, data)`; `next_key` is the key of `data[1]`, which is what follows
-- the key on the caller's stack.
unfoldable pub write_1_event_input_to_tty :
    (turns lock_addr next_key : ℕ) → InputKey → Tty → Threads → Option (Tty × Threads)
unfolding echoed is_cli handle_backspace_input
write_1_event_input_to_tty turns lock_addr next_key key tty ts =
    let w = fifo_write16 tty.input_buf tty.in_tail tty.in_head tty_size (key ∷ []) in
    let tty' = echoed key (record tty { input_buf = w.buf; in_head = w.head }) in
    let shorter : Option (Tty × Threads) = with_threads ts (handle_backspace_input turns tty) in
    if key.key == 8
    then shorter
    else if is_cli tty.mode && next_key == 10
    then some (tty', wake_thread_by_input_event lock_addr ts)
    else some (tty', ts)

-- `tty_read_first_non_modifier_key_from_input_buffer(ev)`, with `k` rounds left: the action, `none`
-- for the value 0, with the key, the index to read at next in any case.
pub first_key : (junk : InputEvent) → ℕ → Keyboard → ℕ → Option (InputAction × InputKey) × ℕ
first_key junk zero kb r = (none, r)
first_key junk (suc k) kb r =
    let rest = first_key junk k kb ((r + 1) % 2 ^ 64 % max_input_buffer_len) in
    let tmp = get_or kb.input_buffer r junk in
    let key : InputKey = record {
      modifier = kb.kb_modifiers_byte;
      key = scancode_to_ascii (tmp.code % 256);
    } in
    if r == kb.input_buffer_w_index
    then (none, r)
    else if is_modifier_key (tmp.code % 256)
    then rest
    else (some (tmp.action, key), (r + 1) % 2 ^ 64 % max_input_buffer_len)

-- The cases of `process_shift`.
abbrev shifted : List (ℕ × ℕ)
shifted =
    (49, 33)
    ∷ (50, 64)
    ∷ (51, 35)
    ∷ (52, 36)
    ∷ (53, 37)
    ∷ (54, 94)
    ∷ (55, 38)
    ∷ (56, 42)
    ∷ (57, 40)
    ∷ (48, 41)
    ∷ (45, 95)
    ∷ (61, 43)
    ∷ (91, 123)
    ∷ (93, 125)
    ∷ (92, 124)
    ∷ (59, 58)
    ∷ (39, 34)
    ∷ (44, 60)
    ∷ (46, 62)
    ∷ (47, 63)
    ∷ []

-- The case of a character, or the character.
pub case_of : ℕ → List (ℕ × ℕ) → ℕ
case_of c [] = c
case_of c ((from, to) ∷ cases) = let rest = case_of c cases in if c == from then to else rest

unfoldable pub process_shift : ℕ → ℕ
unfolding case_of
process_shift c = if leb 97 c && leb c 122 then c - 32 else case_of c shifted

-- `pour_keys_and_resume_cli` from the event that was read on: the key in the terminal `tty0`.
pub pour_key :
    (turns lock_addr next_key kb_modifiers_byte : ℕ)
    → Option (InputAction × InputKey)
    → Tty
    → Threads
    → Option (Tty × Threads)
unfolding process_shift is_release has_mode write_1_event_input_to_tty
pour_key turns lock_addr next_key modifiers none tty ts = some (tty, ts)
pour_key turns lock_addr next_key modifiers (some (action, ev)) tty ts =
    let alone = modifiers == 2 || modifiers == 1 in
    let key = record ev { key = if alone then process_shift ev.key else ev.key } in
    let written = write_1_event_input_to_tty turns lock_addr next_key key tty ts in
    if not (is_release action) || key.key == 0 || not (has_mode tty.mode)
    then some (tty, ts)
    else written

-- The next key of the events; with the state of the keyboard.
unfoldable pub pour_keys_and_resume_cli :
    (junk : InputEvent)
    → (turns lock_addr next_key : ℕ) → Keyboard
    → Tty
    → Threads
    → Keyboard × Option (Tty × Threads)
unfolding first_key pour_key
pour_keys_and_resume_cli junk turns lock_addr next_key kb tty ts =
    let (found, r) = first_key junk max_input_buffer_len kb kb.input_buffer_r_index in
    (
      record kb { input_buffer_r_index = r },
      pour_key turns lock_addr next_key kb.kb_modifiers_byte found tty ts,
    )
