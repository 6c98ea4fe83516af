-- ===== src/Input/Packet.antt =====
-- What three bytes of the mouse do.
use carrotos.Base.{
  ℕ, ◌*◌, ◌<◌, ◌≤◌, ◌≡◌, refl, ap₂, ◌∙◌, true, false, List, [], ◌∷◌, ◌++◌, inl, inr, arith, length,
  ◌-◌, take, ◌==◌, Bool-cases,
}
use carrotos.Fifo.{fifo_write24, fifo_write_with_size}
use carrotos.Fifo.Step.{used}
use carrotos.Fifo.Queue.{IsRing, contents, fifo_write16_lem}
use carrotos.Fifo.Cells.{
  no_units, one_more, unit_cells, length-unit_cells, fifo_write_with_size-fifo_write16,
}
use carrotos.Input.{
  Mouse, mouse_cells, create_buttons_byte, first_byte, third_byte, write_mouse_buffer,
  isr_mouse_handler,
}

-- The buttons as they are at the start.
pub record IsUntouched (m : Mouse) : Type 0 where
  pub x_sign : m.mouse_x_sign ≡ true
  pub y_sign : m.mouse_y_sign ≡ true
  pub left : m.mouse_left_button_down ≡ false
  pub right : m.mouse_right_button_down ≡ false
  pub middle : m.mouse_middle_button_down ≡ false

-- The handler on each byte of a list, with the stack as it is at each.
pub record Arrival : Type 0 where
  pub byte : ℕ
  pub behind1 : List ℕ
  pub behind2 : List ℕ

unfoldable pub on_bytes : List Arrival → Mouse → Mouse
on_bytes [] m = m
on_bytes (a ∷ rest) m = on_bytes rest (isr_mouse_handler a.behind1 a.behind2 a.byte m)

-- The table with one packet more, the pointer moved on.
abbrev with_packet : List ℕ → List ℕ → ℕ → Mouse → Mouse
with_packet s1 s2 b m =
    let w =
      fifo_write24 m.mouse_buffer m.mouse_buffer_tail m.mouse_buffer_head mouse_cells
        ((0x38 ∷ m.mouse_x_delta ∷ b ∷ []) ∷ s1 ∷ s2 ∷ []) in
    record m {
      mouse_int_global = 0;
      mouse_y_delta = b;
      mouse_buffer = w.buf;
      mouse_buffer_head = w.head;
    }

-- What the handler writes in each of its branches says nothing of the buttons.
kept :
    {m : Mouse} (i x y h : ℕ) (buf : List ℕ)
    → IsUntouched m
    → IsUntouched (record m {
      mouse_int_global = i;
      mouse_x_delta = x;
      mouse_y_delta = y;
      mouse_buffer = buf;
      mouse_buffer_head = h;
    })
kept i x y h buf u = record {
  x_sign = u.x_sign;
  y_sign = u.y_sign;
  left = u.left;
  right = u.right;
  middle = u.middle;
}

module _ (s1 s2 : List ℕ) (b : ℕ) (m : Mouse) where
  handler_first :
      m.mouse_int_global ≡ 0 → isr_mouse_handler s1 s2 b m ≡ record m { mouse_int_global = 1 }
  unfolding isr_mouse_handler first_byte
  handler_first z = rw z refl

  handler_second :
      m.mouse_int_global ≡ 1
      → isr_mouse_handler s1 s2 b m ≡ record m { mouse_int_global = 2; mouse_x_delta = b }
  unfolding isr_mouse_handler
  handler_second z = rw z refl

  handler_third :
      IsUntouched m → m.mouse_int_global ≡ 2 → isr_mouse_handler s1 s2 b m ≡ with_packet s1 s2 b m
  unfolding isr_mouse_handler third_byte write_mouse_buffer create_buttons_byte
  handler_third u z = rw (z, u.x_sign, u.y_sign, u.left, u.right, u.middle) refl

  handler-IsUntouched_other :
      m.mouse_int_global == 0 ≡ false
      → m.mouse_int_global == 1 ≡ false
      → m.mouse_int_global == 2 ≡ false
      → IsUntouched m
      → IsUntouched (isr_mouse_handler s1 s2 b m)
  unfolding isr_mouse_handler
  handler-IsUntouched_other e0 e1 e2 u = rw (e0, e1, e2) (kept _ _ _ _ _ u)

  handler-IsUntouched : IsUntouched m → IsUntouched (isr_mouse_handler s1 s2 b m)
  handler-IsUntouched u = elim (Bool-cases (m.mouse_int_global == 0)) [
    | inl e ↦ rw (handler_first (ground arith)) (kept 1 _ _ _ _ u)
    | inr e0 ↦ elim (Bool-cases (m.mouse_int_global == 1)) [
      | inl e ↦ rw (handler_second (ground arith)) (kept 2 b _ _ _ u)
      | inr e1 ↦ elim (Bool-cases (m.mouse_int_global == 2)) [
        | inl e ↦ rw (handler_third u (ground arith)) (kept 0 _ b _ _ u)
        | inr e2 ↦ handler-IsUntouched_other e0 e1 e2 u
      ]
    ]
  ]

-- No byte of the mouse changes the buttons or the signs.
pub on_bytes-IsUntouched :
    (bytes : List Arrival) {m : Mouse} → IsUntouched m → IsUntouched (on_bytes bytes m)
unfolding on_bytes
on_bytes-IsUntouched [] u = u
on_bytes-IsUntouched (a ∷ rest) u =
    on_bytes-IsUntouched rest (handler-IsUntouched a.behind1 a.behind2 a.byte _ u)

-- Three bytes where a packet starts.
three_bytes :
    (a b c : Arrival) (m : Mouse)
    → IsUntouched m
    → m.mouse_int_global ≡ 0
    → on_bytes (a ∷ b ∷ c ∷ []) m
      ≡ with_packet c.behind1 c.behind2 c.byte (record m { mouse_x_delta = b.byte })
unfolding on_bytes
three_bytes a b c m u z =
    rw
      (
        handler_first a.behind1 a.behind2 a.byte m z,
        handler_second b.behind1 b.behind2 b.byte (record m { mouse_int_global = 1 }) refl,
      )
      (handler_third c.behind1 c.behind2 c.byte
        (record m { mouse_int_global = 2; mouse_x_delta = b.byte }) (kept 2 b.byte _ _ _ u) refl)

-- The packets in the buffer that were not read yet, oldest first, each as its bytes.
abbrev pub held : Mouse → List (List ℕ)
held m =
    contents [] (unit_cells 3 m.mouse_buffer 0 mouse_cells) m.mouse_buffer_tail m.mouse_buffer_head
      mouse_cells

-- The buffer has its bytes, and the pointers are inside.
pub record HasRing (m : Mouse) : Type 0 where
  pub fits : mouse_cells * 3 ≤ length m.mouse_buffer
  pub tail_lt : m.mouse_buffer_tail < mouse_cells
  pub head_lt : m.mouse_buffer_head < mouse_cells

abbrev pub room : Mouse → ℕ
room m = mouse_cells - 1 - used mouse_cells m.mouse_buffer_tail m.mouse_buffer_head

HasRing-IsRing :
    {m : Mouse}
    → HasRing m
    → IsRing
        (unit_cells 3 m.mouse_buffer 0 mouse_cells)
        m.mouse_buffer_tail
        m.mouse_buffer_head
        mouse_cells
HasRing-IsRing {m} v = record {
  fits = rw (length-unit_cells 3 m.mouse_buffer 0 mouse_cells) (omega arith);
  tail_lt = v.tail_lt;
  head_lt = v.head_lt;
  small = omega arith;
}

with_packet-held :
    (s1 s2 : List ℕ) (b : ℕ) {m : Mouse}
    → HasRing m
    → length s1 ≡ 3
    → length s2 ≡ 3
    → held (with_packet s1 s2 b m)
      ≡ held m ++ take (room m) ((0x38 ∷ m.mouse_x_delta ∷ b ∷ []) ∷ s1 ∷ s2 ∷ [])
unfolding fifo_write24 fifo_write_with_size
with_packet-held s1 s2 b {m} v e1 e2 =
    let units =
      one_more {x = 0x38 ∷ m.mouse_x_delta ∷ b ∷ []} refl (one_more e1 (one_more e2 no_units)) in
    let same =
      fifo_write_with_size-fifo_write16 3 {size = mouse_cells} (omega arith) m.mouse_buffer
        m.mouse_buffer_tail m.mouse_buffer_head units v.head_lt v.fits in
    ap₂ (λ cells head. contents [] cells m.mouse_buffer_tail head mouse_cells) same.buf same.head
    ∙ (fifo_write16_lem [] _ (HasRing-IsRing v)).held

-- Whatever bytes the mouse has sent before, and wherever in the buffer the ring is: of three bytes
-- where a packet starts, the handler puts a packet into the ring, as far as there is room, that has
-- the second and the third, and for the first the one of a mouse at rest, without a button pressed
-- and with both signs; and behind it two packets more, the six bytes that followed on the stack.
pub isr_mouse_handler_loses :
    (before : List Arrival) (a b c : Arrival) {m0 : Mouse}
    → IsUntouched m0
    → (on_bytes before m0).mouse_int_global ≡ 0
    → HasRing (on_bytes before m0)
    → length c.behind1 ≡ 3
    → length c.behind2 ≡ 3
    → let m = on_bytes before m0 in
      let m' = on_bytes (a ∷ b ∷ c ∷ []) m in
      (m'.mouse_int_global ≡ 0)
      × (held m'
          ≡ held m ++ take (room m) ((0x38 ∷ b.byte ∷ c.byte ∷ []) ∷ c.behind1 ∷ c.behind2 ∷ []))
isr_mouse_handler_loses before a b c {m0} u z v e1 e2 =
    let m = on_bytes before m0 in
    let same = three_bytes a b c m (on_bytes-IsUntouched before u) z in
    rw same (
      refl,
      with_packet-held c.behind1 c.behind2 c.byte {m = record m { mouse_x_delta = b.byte }}
          (record { fits = v.fits; tail_lt = v.tail_lt; head_lt = v.head_lt }) e1 e2,
    )
