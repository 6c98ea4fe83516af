-- ===== src/Fifo/Cells.antt =====
-- A ring of units of bytes, `fifo_read24` and `fifo_read_with_size` with their sisters, is a ring
-- of cells, so that what holds of one holds of the other.
use carrotos.Base.{
  ℕ, zero, suc, ◌+◌, ◌*◌, ◌≤◌, ◌<◌, ◌^◌, ◌≡◌, inl, inr, refl, sym, ap, ap₂, ◌∙◌, List, [], ◌∷◌,
  ◌++◌, arith, length, get_or, set, ◌==◌, Bool-cases,
}
use carrotos.Fifo.{
  next, Read, Written, fifo_read_with_size, fifo_write_with_size, fifo_read16, fifo_write16,
  read_bytes, write_bytes, read_units, write_units, read_loop, write_loop,
}
use carrotos.Fifo.Step.{next-lt}
use carrotos.Fifo.Unit.{length-write_bytes, read_bytes-write_bytes_out, read_bytes-write_bytes}

-- The cells `i`, `i + 1`, ... of a buffer, each as its bytes.
pub unit_cells : (unit : ℕ) → List ℕ → ℕ → ℕ → List (List ℕ)
unit_cells unit buf i zero = []
unit_cells unit buf i (suc n) = read_bytes buf (i * unit) unit ∷ unit_cells unit buf (suc i) n

-- Every cell has the bytes of a unit.
pub data AreUnits (unit : ℕ) : List (List ℕ) → Type 0 where
  no_units : AreUnits unit []
  one_more :
      {x : List ℕ} {xs : List (List ℕ)}
      → length x ≡ unit
      → AreUnits unit xs
      → AreUnits unit (x ∷ xs)

pub concat : List (List ℕ) → List ℕ
concat [] = []
concat (x ∷ xs) = x ++ concat xs

-- Cells do not overlap.
apart : (i j u : ℕ) → i < j → i * u + u ≤ j * u
apart i zero u h = omega arith
apart zero (suc j) u h = omega arith
apart (suc i) (suc j) u h = omega (arith, apart i j u (omega arith))

shift : (i k u : ℕ) → (i + suc k) * u ≡ (suc i + k) * u
shift i k u = ap (λ z. z * u) (omega arith)

here : (i u : ℕ) → (i + 0) * u ≡ i * u
here i u = ap (λ z. z * u) (omega arith)

module _ (unit : ℕ) where
  pub length-unit_cells : (buf : List ℕ) (i n : ℕ) → length (unit_cells unit buf i n) ≡ n
  unfolding unit_cells
  length-unit_cells buf i zero = refl
  length-unit_cells buf i (suc n) = ap suc (length-unit_cells buf (suc i) n)

  get_or-unit_cells :
      (buf : List ℕ) (i n k : ℕ)
      → k < n
      → get_or (unit_cells unit buf i n) k [] ≡ read_bytes buf ((i + k) * unit) unit
  unfolding unit_cells
  get_or-unit_cells buf i zero k h = absurd (omega arith)
  get_or-unit_cells buf i (suc n) zero h = ap (λ z. read_bytes buf z unit) (sym (here i unit))
  get_or-unit_cells buf i (suc n) (suc k) h =
      get_or-unit_cells buf (suc i) n k (omega arith)
      ∙ ap (λ z. read_bytes buf z unit) (sym (shift i k unit))

  unit_cells-write_out :
      (buf : List ℕ) (i n j : ℕ) (x : List ℕ)
      → length x ≡ unit
      → j < i
      → unit_cells unit (write_bytes buf (j * unit) x) i n ≡ unit_cells unit buf i n
  unfolding unit_cells
  unit_cells-write_out buf i zero j x e h = refl
  unit_cells-write_out buf i (suc n) j x e h =
      ap₂ (λ a l. a ∷ l)
        (read_bytes-write_bytes_out buf (j * unit) x (i * unit) unit
          (inr (omega (arith, apart j i unit h))))
        (unit_cells-write_out buf (suc i) n j x e (omega arith))

  unit_cells-write_bytes :
      (buf : List ℕ) (i n k : ℕ) (x : List ℕ)
      → length x ≡ unit
      → k < n
      → (i + n) * unit ≤ length buf
      → unit_cells unit (write_bytes buf ((i + k) * unit) x) i n ≡ set (unit_cells unit buf i n) k x
  unfolding unit_cells
  unit_cells-write_bytes buf i zero k x e h fits = absurd (omega arith)
  unit_cells-write_bytes buf i (suc n) zero x e h fits =
      ap (λ z. unit_cells unit (write_bytes buf z x) i (suc n)) (here i unit)
      ∙ ap₂ (λ a l. a ∷ l) first (unit_cells-write_out buf (suc i) n i x e (omega arith))
    where
      inside : i * unit + unit ≤ length buf
      inside = omega (arith, apart i (i + suc n) unit (omega arith))

      first : read_bytes (write_bytes buf (i * unit) x) (i * unit) unit ≡ x
      first =
          ap (λ z. read_bytes (write_bytes buf (i * unit) x) (i * unit) z) (sym e)
          ∙ read_bytes-write_bytes buf (i * unit) x (omega (arith, inside))
  unit_cells-write_bytes buf i (suc n) (suc k) x e h fits =
      ap (λ z. unit_cells unit (write_bytes buf z x) i (suc n)) (shift i k unit)
      ∙ ap₂ (λ a l. a ∷ l)
          (read_bytes-write_bytes_out buf ((suc i + k) * unit) x (i * unit) unit
            (inl (apart i (suc i + k) unit (omega arith))))
          (unit_cells-write_bytes buf (suc i) n k x e (omega arith)
            (omega (arith, shift i n unit, fits)))

  -- The same, from the start of the buffer.
  get_or-unit_cells_start :
      (buf : List ℕ) (n k : ℕ)
      → k < n
      → get_or (unit_cells unit buf 0 n) k [] ≡ read_bytes buf (k * unit) unit
  get_or-unit_cells_start buf n k h =
      get_or-unit_cells buf 0 n k h ∙ ap (λ z. read_bytes buf (z * unit) unit) (omega arith)

  unit_cells-write_bytes_start :
      (buf : List ℕ) (n k : ℕ) (x : List ℕ)
      → length x ≡ unit
      → k < n
      → n * unit ≤ length buf
      → unit_cells unit (write_bytes buf (k * unit) x) 0 n ≡ set (unit_cells unit buf 0 n) k x
  unit_cells-write_bytes_start buf n k x e h fits =
      ap (λ z. unit_cells unit (write_bytes buf (z * unit) x) 0 n) (omega arith)
      ∙ unit_cells-write_bytes buf 0 n k x e h (omega (arith, fits, ap (λ z. z * unit) zero_plus))
    where
      zero_plus : 0 + n ≡ n
      zero_plus = omega arith

-- What a write of units leaves against what a write of cells leaves.
pub record IsSameWrite (unit size : ℕ) (w : Written ℕ) (c : Written (List ℕ)) : Type 0 where
  pub count : w.count ≡ c.count
  pub head : w.head ≡ c.head
  pub buf : unit_cells unit w.buf 0 size ≡ c.buf

pub record IsSameRead (r : Read ℕ) (c : Read (List ℕ)) : Type 0 where
  pub count : r.count ≡ c.count
  pub tail : r.tail ≡ c.tail
  pub out : r.out ≡ concat c.out

module _ (unit : ℕ) {size : ℕ} (small : size < 2 ^ 63) where
  pub write_units-IsSameWrite :
      {xs : List (List ℕ)} (buf : List ℕ) (tail head n : ℕ)
      → AreUnits unit xs
      → head < size
      → size * unit ≤ length buf
      → IsSameWrite unit size
          (write_units unit tail size xs buf head n)
          (write_loop tail size xs (unit_cells unit buf 0 size) head n)
  unfolding write_units write_loop
  write_units-IsSameWrite buf tail head n no_units h fits = record {
    count = refl;
    head = refl;
    buf = refl;
  }
  write_units-IsSameWrite buf tail head n (one_more {x} {xs} e rest) h fits =
      elim (Bool-cases (tail == next size head)) [
        | inl full ↦ rw full (record { count = refl; head = refl; buf = refl })
        | inr room ↦
            rw (room, sym (unit_cells-write_bytes_start unit buf size head x e h fits))
              (write_units-IsSameWrite (write_bytes buf (head * unit) x) tail (next size head)
                (n + 1) rest (next-lt small h) (rw (length-write_bytes buf (head * unit) x) fits))
      ]

  pub read_units-IsSameRead :
      (buf : List ℕ) (head k tail n : ℕ)
      → tail < size
      → IsSameRead
          (read_units unit buf head size k tail n)
          (read_loop [] (unit_cells unit buf 0 size) head size k tail n)
  unfolding read_units read_loop concat
  read_units-IsSameRead buf head zero tail n h = record { count = refl; tail = refl; out = refl }
  read_units-IsSameRead buf head (suc k) tail n h = elim (Bool-cases (tail == head)) [
    | inl empty ↦ rw empty (record { count = refl; tail = refl; out = refl })
    | inr more ↦
        let rest = read_units-IsSameRead buf head k (next size tail) (n + 1) (next-lt small h) in
        rw more (record {
          count = rest.count;
          tail = rest.tail;
          out = ap₂ (λ a l. a ++ l) (sym (get_or-unit_cells_start unit buf size tail h)) rest.out;
        })
  ]

  -- On a table of `size` units, `fifo_write_with_size` does what `fifo_write16` does on the table of
  -- the cells: the same count and head, and the same cells afterwards.
  pub fifo_write_with_size-fifo_write16 :
      (buf : List ℕ) (tail head : ℕ) {input : List (List ℕ)}
      → AreUnits unit input
      → head < size
      → size * unit ≤ length buf
      → IsSameWrite unit size
          (fifo_write_with_size buf tail head size input unit)
          (fifo_write16 (unit_cells unit buf 0 size) tail head size input)
  unfolding fifo_write_with_size fifo_write16
  fifo_write_with_size-fifo_write16 buf tail head units h fits =
      write_units-IsSameWrite buf tail head 0 units h fits

  -- On a table of `size` units, `fifo_read_with_size` does what `fifo_read16` does on the table of
  -- the cells: the same count and tail, and the bytes of the cells that it hands out.
  pub fifo_read_with_size-fifo_read16 :
      (buf : List ℕ) (tail head len : ℕ)
      → tail < size
      → IsSameRead
          (fifo_read_with_size buf tail head size len unit)
          (fifo_read16 [] (unit_cells unit buf 0 size) tail head size len)
  unfolding fifo_read_with_size fifo_read16
  fifo_read_with_size-fifo_read16 buf tail head len h = read_units-IsSameRead buf head len tail 0 h
