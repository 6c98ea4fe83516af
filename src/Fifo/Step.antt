-- ===== src/Fifo/Step.antt =====
-- One step of a pointer round the ring, and the number of cells in use.
use carrotos.Base.{ℕ, ◌+◌, ◌-◌, ◌%◌, ◌^◌, ◌<◌, ◌≡◌, ◌≢◌, arith, ◌==◌, leb, if◌then◌else◌, dec_lt}
use native.Mathlib.Nat.{mod-eq_of_lt, mod_self}
use carrotos.Fifo.{next}

-- The cells in use, from `tail` up to `head` round the ring.
abbrev pub used : ℕ → ℕ → ℕ → ℕ
used size tail head = if leb tail head then head - tail else head + size - tail

module _ {size x : ℕ} (small : size < 2 ^ 63) (x_lt : x < size) where
  pub next_lem : next size x ≡ (if x + 1 == size then 0 else x + 1)
  next_lem = elim (dec_lt (x + 1) size) [
    | yes h ↦ rw (no_wrap, mod-eq_of_lt h) (ground arith)
    | no h ↦ rw (no_wrap, last h, mod_self) (ground arith)
  ]
    where
      no_wrap : (x + 1) % 2 ^ 64 ≡ x + 1
      no_wrap = omega arith

      last : ¬ (x + 1 < size) → x + 1 ≡ size
      last h = omega arith

  pub next-lt : next size x < size
  next-lt = ground (arith, next_lem)

module _ {size tail head : ℕ} (small : size < 2 ^ 63) (t : tail < size) (h : head < size) where
  pub used-lt : used size tail head < size
  used-lt = ground arith

  pub used-next_tail : tail ≢ head → used size tail head ≡ used size (next size tail) head + 1
  used-next_tail ne = ground (arith, next_lem small t)

  pub used-next_head :
      tail ≢ next size head → used size tail (next size head) ≡ used size tail head + 1
  used-next_head ne = ground (arith, next_lem small h)

  pub used_full : tail ≡ next size head → used size tail head ≡ size - 1
  used_full e = ground (arith, next_lem small h)

  pub used_not_full : tail ≢ next size head → used size tail head < size - 1
  used_not_full ne = ground (arith, next_lem small h)
