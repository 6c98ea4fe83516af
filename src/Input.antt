-- ===== src/Input.antt =====
-- The mouse, core/input/mouse.h: the handler of its interrupt, the packets, and the reads of
-- programs. `static` variables are the fields of a record.
pub mod Packet
pub mod Tty
pub mod Key
pub mod Line
pub mod Stuck
mod Tests
use carrotos.Base.{
  ℕ, zero, suc, ◌+◌, ◌-◌, ◌*◌, ◌/◌, ◌%◌, ◌^◌, Bool, true, false, not, List, [], ◌∷◌, ◌==◌, ltb,
  if◌then◌else◌, bit_and, bit_or,
}
use carrotos.Fifo.{Read, Written, fifo_read24, fifo_write24}

-- The static variables; `mouse_buffer` as its bytes.
pub record Mouse : Type 0 where
  pub mouse_int_global : ℕ
  pub mouse_x_sign : Bool
  pub mouse_y_sign : Bool
  pub mouse_left_button_down : Bool
  pub mouse_right_button_down : Bool
  pub mouse_middle_button_down : Bool
  pub mouse_x_delta : ℕ
  pub mouse_y_delta : ℕ
  pub mouse_buffer : List ℕ
  pub mouse_buffer_head : ℕ
  pub mouse_buffer_tail : ℕ

-- `4096 / 3`
abbrev pub mouse_cells : ℕ
mouse_cells = 1365

-- The variables at the start.
abbrev pub boot_mouse : List ℕ → Mouse
boot_mouse buf = record {
  mouse_int_global = 0;
  mouse_x_sign = true;
  mouse_y_sign = true;
  mouse_left_button_down = false;
  mouse_right_button_down = false;
  mouse_middle_button_down = false;
  mouse_x_delta = 0;
  mouse_y_delta = 0;
  mouse_buffer = buf;
  mouse_buffer_head = 0;
  mouse_buffer_tail = 0;
}

abbrev set_bit : Bool → ℕ → ℕ → ℕ
set_bit on bit b = if on then bit_or b bit else b

unfoldable pub create_buttons_byte : (left middle right x_sign y_sign : Bool) → ℕ
create_buttons_byte left middle right x_sign y_sign =
    bit_or
      (set_bit y_sign 0x20
        (set_bit x_sign 0x10 (set_bit middle 0x4 (set_bit right 0x2 (set_bit left 0x1 0)))))
      0x8

-- What a read returns, what it stores, and the state.
unfoldable pub read_mouse_buffer : Mouse → ℕ → Read ℕ
read_mouse_buffer m len =
    fifo_read24 m.mouse_buffer m.mouse_buffer_tail m.mouse_buffer_head mouse_cells len

-- The call hands over three cells from the address of a packet, which is one: `behind1` and
-- `behind2` are the three bytes behind it on the stack, and the three behind those.
unfoldable pub write_mouse_buffer :
    (behind1 behind2 : List ℕ)
    → (left middle right x_sign y_sign : Bool) → (x_delta y_delta : ℕ) → Mouse
    → Mouse
unfolding create_buttons_byte
write_mouse_buffer behind1 behind2 left middle right x_sign y_sign x_delta y_delta m =
    let pkt = create_buttons_byte left middle right x_sign y_sign ∷ x_delta ∷ y_delta ∷ [] in
    let w =
      fifo_write24 m.mouse_buffer m.mouse_buffer_tail m.mouse_buffer_head mouse_cells
        (pkt ∷ behind1 ∷ behind2 ∷ []) in
    record m { mouse_buffer = w.buf; mouse_buffer_head = w.head }

abbrev has_bit : ℕ → ℕ → Bool
has_bit b bit = not (bit_and b bit == 0)

-- The first byte of three; the test is on `mouse_int`.
pub first_byte : (mouse_int mouse_byte : ℕ) → Mouse → Mouse
first_byte mouse_int mouse_byte m = if not (has_bit mouse_int 8) then m else record m {
  mouse_x_sign = has_bit mouse_byte 0x10;
  mouse_y_sign = has_bit mouse_byte 0x20;
  mouse_left_button_down = has_bit mouse_byte 0x1;
  mouse_right_button_down = has_bit mouse_byte 0x2;
  mouse_middle_button_down = has_bit mouse_byte 0x4;
}

-- `mouse_y_delta` and the write.
pub third_byte : (behind1 behind2 : List ℕ) → (mouse_byte : ℕ) → Mouse → Mouse
unfolding write_mouse_buffer
third_byte behind1 behind2 mouse_byte m =
    write_mouse_buffer behind1 behind2 m.mouse_left_button_down m.mouse_middle_button_down
      m.mouse_right_button_down m.mouse_x_sign m.mouse_y_sign m.mouse_x_delta mouse_byte
      (record m { mouse_y_delta = mouse_byte })

unfoldable pub isr_mouse_handler : (behind1 behind2 : List ℕ) → (mouse_byte : ℕ) → Mouse → Mouse
unfolding first_byte third_byte
isr_mouse_handler behind1 behind2 mouse_byte m =
    let mouse_int = m.mouse_int_global in
    let m' = record m { mouse_int_global = (mouse_int + 1) % 256 % 3 } in
    if mouse_int == 0
    then first_byte mouse_int mouse_byte m'
    else if mouse_int == 1
    then record m' { mouse_x_delta = mouse_byte }
    else if mouse_int == 2
    then third_byte behind1 behind2 mouse_byte m'
    else m'

-- An error; a count of bytes, the bytes stored and the state; or the yield, after which
-- `syscall_read_mouse_finish` runs.
pub data MouseRead : Type 0 where
  fails : ℕ → MouseRead
  gives : ℕ → List ℕ → Mouse → MouseRead
  yields : MouseRead

-- The bytes are in the buffer of the program.
pub give_read : Mouse → Read ℕ → MouseRead
give_read m r = gives (r.count * 3) r.out (record m { mouse_buffer_tail = r.tail })

unfoldable pub syscall_read_mouse : Mouse → ℕ → (non_blocking_flags : Bool) → MouseRead
unfolding read_mouse_buffer give_read
syscall_read_mouse m len non_blocking_flags =
    let r = read_mouse_buffer m (len / 3) in
    if ltb len 3
    then fails (2 ^ 64 - 22)
    else if not (r.count == 0)
    then give_read m r
    else if non_blocking_flags
    then fails (2 ^ 64 - 11)
    else yields

-- From the return of `scheduler_yeild` on.
unfoldable pub syscall_read_mouse_finish : Mouse → ℕ → MouseRead
unfolding read_mouse_buffer give_read
syscall_read_mouse_finish m len = give_read m (read_mouse_buffer m (len / 3))
