-- ===== src/Input/Tests.antt =====
-- The mouse at the start, with an empty buffer.
use carrotos.Base.{
  ℕ, ◌≡◌, refl, true, false, [], ◌∷◌, ◌++◌, arith, replicate, length-replicate, take,
}
use carrotos.Base.{Option, some}
use carrotos.Thread.{Threads}
use carrotos.Thread.State.{running}
use carrotos.Life.{new_thread, start_context}
use carrotos.Fifo.{fifo_read16, read_loop}
use carrotos.Process.{Process}
use carrotos.Life.Create.{zero_process}
use carrotos.Input.Tty.{Tty, InputKey, no_key, mode_cli, access_tty_allowed}
use carrotos.Input.Line.{
  find_enter, read_input_line_to_thread_buffer, line_before, tty_read_key_halt, asleep,
  wait_key_current_thread,
}
use carrotos.Input.Stuck.{tty_read_key_halt_sticks}
use carrotos.Input.{Mouse, boot_mouse, create_buttons_byte}
use carrotos.Input.Packet.{
  IsUntouched, HasRing, Arrival, on_bytes, held, room, isr_mouse_handler_loses,
}

no_buttons : create_buttons_byte false false false true true ≡ 0x38
unfolding create_buttons_byte
no_buttons = refl

left_right : create_buttons_byte true false true false false ≡ 0xB
unfolding create_buttons_byte
left_right = refl

abbrev start : Mouse
start = boot_mouse (replicate 4095 0)

start-IsUntouched : IsUntouched start
start-IsUntouched = record {
  x_sign = refl;
  y_sign = refl;
  left = refl;
  right = refl;
  middle = refl;
}

start-HasRing : HasRing start
start-HasRing = record {
  fits = rw (length-replicate {A = ℕ} 4095 0) (omega arith);
  tail_lt = omega arith;
  head_lt = omega arith;
}

abbrev at : ℕ → Arrival
at b = record { byte = b; behind1 = 1 ∷ 2 ∷ 3 ∷ []; behind2 = 4 ∷ 5 ∷ 6 ∷ [] }

-- The left button is down in the first byte.
isr_mouse_handler_loses_example :
    let m' = on_bytes (at 9 ∷ at 20 ∷ at 30 ∷ []) (on_bytes [] start) in
    (m'.mouse_int_global ≡ 0)
    × (held m'
        ≡ held (on_bytes [] start)
          ++ take
              (room (on_bytes [] start))
              ((0x38 ∷ 20 ∷ 30 ∷ []) ∷ (1 ∷ 2 ∷ 3 ∷ []) ∷ (4 ∷ 5 ∷ 6 ∷ []) ∷ []))
unfolding on_bytes
isr_mouse_handler_loses_example =
    isr_mouse_handler_loses [] (at 9) (at 20) (at 30) start-IsUntouched refl start-HasRing refl refl

abbrev at_key : ℕ → InputKey
at_key c = record { modifier = 0; key = c }

-- The line "a", then a "b".
abbrev console : ℕ → ℕ → Tty
console tail head = record {
  id = 1;
  foreground_pgid = 0;
  sid = 2;
  in_head = head;
  in_tail = tail;
  out_head = 0;
  out_tail = 0;
  is_active = 1;
  echo = true;
  mode = mode_cli;
  input_buf = at_key 97 ∷ at_key 10 ∷ at_key 98 ∷ replicate 885 no_key;
  output_buf = [];
}

abbrev owner : Option Process
owner = some (record zero_process { sid = 2 })

-- The thread that reads.
abbrev reader : Threads
reader = some (new_thread 1 0 running 8192 0 0 (start_context 8192 0 35 27)) ∷ []

tty_read_key_halt_sticks_example :
    tty_read_key_halt 64 0 owner (console 1 3) 80 reader
    ≡ asleep (wait_key_current_thread 64 0 reader)
unfolding find_enter read_input_line_to_thread_buffer line_before fifo_read16 read_loop
    access_tty_allowed
tty_read_key_halt_sticks_example =
    tty_read_key_halt_sticks (console 0 2) (console 1 3) 80 {i = 1} (omega arith) refl (omega arith)
      64 0 owner 80 reader refl refl (omega arith) refl refl
