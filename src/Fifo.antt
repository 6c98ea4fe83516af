-- ===== src/Fifo.antt =====
-- The ring buffers of libs/mem/mem.h: `fifo_read8` and its seven sisters. One slot always stays
-- free, so `tail == head` means empty. A buffer is the list of its cells; what a read stores
-- through `out`, and what a write takes through `in`, is the list of the cells in order.
-- The pointers `*tail` and `*head` come in as numbers and go out beside the count.
pub mod Step
pub mod Unit
pub mod Cells
pub mod Queue
mod Tests
use carrotos.Base.{
  ℕ, zero, suc, ◌+◌, ◌*◌, ◌%◌, ◌^◌, List, [], ◌∷◌, ◌++◌, ◌==◌, if◌then◌else◌, get_or, set,
}

-- `(x + 1) % buf_size` in `uint64_t`.
abbrev pub next : ℕ → ℕ → ℕ
next size x = (x + 1) % 2 ^ 64 % size

-- What a call returns, with what it leaves in `*tail` and what it stores through `out`.
pub record Read {ℓ} (A : Type ℓ) : Type ℓ where
  pub count : ℕ
  pub out : List A
  pub tail : ℕ

pub record Written {ℓ} (A : Type ℓ) : Type ℓ where
  pub count : ℕ
  pub buf : List A
  pub head : ℕ

module _ {ℓ} {A : Type ℓ} (junk : A) where
  -- The loop of a read with `k` rounds left; `junk` stands for a cell outside the buffer.
  unfoldable pub read_loop : (buf : List A) (head size : ℕ) → ℕ → ℕ → ℕ → Read A
  read_loop buf head size zero tail n = record { count = n; out = []; tail = tail }
  read_loop buf head size (suc k) tail n =
      let rest = read_loop buf head size k (next size tail) (n + 1) in
      let more : Read A = record {
        count = rest.count;
        out = get_or buf tail junk ∷ rest.out;
        tail = rest.tail;
      } in
      if tail == head then record { count = n; out = []; tail = tail } else more

module _ {ℓ} {A : Type ℓ} where
  -- The loop of a write; the list is `in[i..len)`.
  pub write_loop : (tail size : ℕ) → List A → List A → ℕ → ℕ → Written A
  write_loop tail size [] buf head n = record { count = n; buf = buf; head = head }
  write_loop tail size (x ∷ xs) buf head n =
      let rest = write_loop tail size xs (set buf head x) (next size head) (n + 1) in
      if tail == next size head then record { count = n; buf = buf; head = head } else rest

-- Bytes: `fifo_read8(buf, tail, head, buf_size, len, out)`.
unfoldable pub fifo_read8 : List ℕ → ℕ → ℕ → ℕ → ℕ → Read ℕ
unfolding read_loop
fifo_read8 buf tail head size len = read_loop 0 buf head size len tail 0

unfoldable pub fifo_write8 : List ℕ → ℕ → ℕ → ℕ → List ℕ → Written ℕ
unfolding write_loop
fifo_write8 buf tail head size input = write_loop tail size input buf head 0

-- 16-bit cells; the terminal's key buffers hold `struct input_key`, of that size.
unfoldable pub fifo_read16 {ℓ} : {A : Type ℓ} → A → List A → ℕ → ℕ → ℕ → ℕ → Read A
unfolding read_loop
fifo_read16 junk buf tail head size len = read_loop junk buf head size len tail 0

unfoldable pub fifo_write16 {ℓ} : {A : Type ℓ} → List A → ℕ → ℕ → ℕ → List A → Written A
unfolding write_loop
fifo_write16 buf tail head size input = write_loop tail size input buf head 0

-- `memcpy(dst, buf + i, n)`: the bytes read.
pub read_bytes : List ℕ → ℕ → ℕ → List ℕ
read_bytes buf i zero = []
read_bytes buf i (suc n) = get_or buf i 0 ∷ read_bytes buf (suc i) n

-- `memcpy(buf + i, src, n)`, the list being `src[0..n)`.
pub write_bytes : List ℕ → ℕ → List ℕ → List ℕ
write_bytes buf i [] = buf
write_bytes buf i (x ∷ xs) = write_bytes (set buf i x) (suc i) xs

-- Cells of `unit` bytes in a buffer of bytes; the pointers count cells.
pub read_units : (unit : ℕ) (buf : List ℕ) (head size : ℕ) → ℕ → ℕ → ℕ → Read ℕ
unfolding read_bytes
read_units unit buf head size zero tail n = record { count = n; out = []; tail = tail }
read_units unit buf head size (suc k) tail n =
    let rest = read_units unit buf head size k (next size tail) (n + 1) in
    let more : Read ℕ = record {
      count = rest.count;
      out = read_bytes buf (tail * unit) unit ++ rest.out;
      tail = rest.tail;
    } in
    if tail == head then record { count = n; out = []; tail = tail } else more

-- The list holds the cells of `in`, each as its bytes.
pub write_units : (unit tail size : ℕ) → List (List ℕ) → List ℕ → ℕ → ℕ → Written ℕ
unfolding write_bytes
write_units unit tail size [] buf head n = record { count = n; buf = buf; head = head }
write_units unit tail size (x ∷ xs) buf head n =
    let rest =
      write_units unit tail size xs (write_bytes buf (head * unit) x) (next size head) (n + 1) in
    if tail == next size head then record { count = n; buf = buf; head = head } else rest

unfoldable pub fifo_read24 : List ℕ → ℕ → ℕ → ℕ → ℕ → Read ℕ
unfolding read_units
fifo_read24 buf tail head size len = read_units 3 buf head size len tail 0

unfoldable pub fifo_write24 : List ℕ → ℕ → ℕ → ℕ → List (List ℕ) → Written ℕ
unfolding write_units
fifo_write24 buf tail head size input = write_units 3 tail size input buf head 0

unfoldable pub fifo_read_with_size : List ℕ → ℕ → ℕ → ℕ → ℕ → ℕ → Read ℕ
unfolding read_units
fifo_read_with_size buf tail head size len unit = read_units unit buf head size len tail 0

unfoldable pub fifo_write_with_size : List ℕ → ℕ → ℕ → ℕ → List (List ℕ) → ℕ → Written ℕ
unfolding write_units
fifo_write_with_size buf tail head size input unit = write_units unit tail size input buf head 0
