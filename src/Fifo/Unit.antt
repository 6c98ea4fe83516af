-- ===== src/Fifo/Unit.antt =====
-- The bytes of cells that are copied in and out of a ring as units.
use carrotos.Base.{
  ℕ, zero, suc, ◌+◌, ◌≤◌, ◌<◌, ◌≡◌, ◌⊎◌, inl, refl, ap₂, ◌∙◌, List, [], ◌∷◌, arith, length, get_or,
  set, get_or-set_self, get_or-set_ne, length-set,
}
use carrotos.Fifo.{read_bytes, write_bytes}

pub length-write_bytes :
    (buf : List ℕ) (i : ℕ) (xs : List ℕ) → length (write_bytes buf i xs) ≡ length buf
unfolding write_bytes
length-write_bytes buf i [] = refl
length-write_bytes buf i (x ∷ xs) = length-write_bytes (set buf i x) (suc i) xs ∙ length-set buf i x

-- A byte outside the cell that is written.
get_or-write_bytes_out :
    (buf : List ℕ) (i : ℕ) (xs : List ℕ) {j : ℕ}
    → (j < i) ⊎ (i + length xs ≤ j)
    → get_or (write_bytes buf i xs) j 0 ≡ get_or buf j 0
unfolding write_bytes
get_or-write_bytes_out buf i [] h = refl
get_or-write_bytes_out buf i (x ∷ xs) {j} h =
    get_or-write_bytes_out (set buf i x) (suc i) xs (ground arith)
    ∙ get_or-set_ne buf x 0 (ground arith)

pub read_bytes-write_bytes_out :
    (buf : List ℕ) (i : ℕ) (xs : List ℕ) (j n : ℕ)
    → (j + n ≤ i) ⊎ (i + length xs ≤ j)
    → read_bytes (write_bytes buf i xs) j n ≡ read_bytes buf j n
unfolding read_bytes
read_bytes-write_bytes_out buf i xs j zero h = refl
read_bytes-write_bytes_out buf i xs j (suc n) h =
    ap₂ (λ a l. a ∷ l) (get_or-write_bytes_out buf i xs (ground arith))
      (read_bytes-write_bytes_out buf i xs (suc j) n (ground arith))

-- A cell that was written is read back.
pub read_bytes-write_bytes :
    (buf : List ℕ) (i : ℕ) (xs : List ℕ)
    → i + length xs ≤ length buf
    → read_bytes (write_bytes buf i xs) i (length xs) ≡ xs
unfolding read_bytes write_bytes
read_bytes-write_bytes buf i [] h = refl
read_bytes-write_bytes buf i (x ∷ xs) h =
    ap₂ (λ a l. a ∷ l)
      (get_or-write_bytes_out (set buf i x) (suc i) xs (inl (omega arith))
        ∙ get_or-set_self buf i x 0 (omega arith))
      (read_bytes-write_bytes (set buf i x) (suc i) xs (rw (length-set buf i x) (omega arith)))
