-- ===== src/Fifo/Queue.antt =====
-- The loops of `fifo_read8` and its sisters against a bounded queue: the cells in use, oldest
-- first.
use carrotos.Base.{
  ℕ, zero, suc, ◌+◌, ◌-◌, ◌^◌, ◌≤◌, ◌<◌, ◌≡◌, ◌≢◌, refl, sym, ap, ap₂, ◌∙◌, inl, inr, arith, min,
  List, [], ◌∷◌, ◌++◌, append-nil, append_assoc, ◌==◌, Bool-cases, length, get_or, set, take, drop,
  length-append, length-set, get_or-set_self, get_or-set_ne, take-nil,
}
use carrotos.Fifo.{
  next, Read, Written, read_loop, write_loop, fifo_read8, fifo_write8, fifo_read16, fifo_write16,
}
use carrotos.Fifo.Step.{used, next-lt, used-next_tail, used-next_head, used_full, used_not_full}

-- The representation: both pointers inside the table, the table inside the buffer.
pub record IsRing {ℓ} {A : Type ℓ} (buf : List A) (tail head size : ℕ) : Type 0 where
  pub fits : size ≤ length buf
  pub tail_lt : tail < size
  pub head_lt : head < size
  pub small : size < 2 ^ 63

module _ {ℓ} {A : Type ℓ} (junk : A) where
  -- The `n` cells from index `t` on, round the table.
  abbrev pub cells : List A → ℕ → ℕ → ℕ → List A
  cells buf size t zero = []
  cells buf size t (suc n) = get_or buf t junk ∷ cells buf size (next size t) n

  -- What a ring holds, oldest first.
  abbrev pub contents : List A → ℕ → ℕ → ℕ → List A
  contents buf tail head size = cells buf size tail (used size tail head)

  pub length-cells : (buf : List A) (size t n : ℕ) → length (cells buf size t n) ≡ n
  length-cells buf size t zero = refl
  length-cells buf size t (suc n) = ap suc (length-cells buf size (next size t) n)

  -- A write at an index that the window does not reach leaves it alone; `n` steps from `t` do not
  -- come to `h` while fewer than the cells in use.
  cells-set_out :
      (buf : List A) (size n : ℕ) {t h : ℕ} (x : A)
      → size < 2 ^ 63
      → t < size
      → h < size
      → n ≤ used size t h
      → cells (set buf h x) size t n ≡ cells buf size t n
  cells-set_out buf size zero x s p q r = refl
  cells-set_out buf size (suc n) {t} {h} x s p q r =
      let ne : t ≢ h = ground arith in
      ap₂ ◌∷◌ (get_or-set_ne buf x junk (λ e. ne (sym e)))
        (cells-set_out buf size n x s (next-lt s p) q (omega (arith, used-next_tail s p q ne)))

  -- The next cell of a window.
  cells-suc :
      (buf : List A) (size n : ℕ) {t h : ℕ}
      → size < 2 ^ 63
      → t < size
      → h < size
      → n ≡ used size t h
      → cells buf size t (suc n) ≡ cells buf size t n ++ (get_or buf h junk ∷ [])
  cells-suc buf size zero {t} {h} s p q r =
      let e : t ≡ h = ground arith in ap (λ i. get_or buf i junk ∷ []) e
  cells-suc buf size (suc n) {t} {h} s p q r =
      let ne : t ≢ h = ground arith in
      ap (λ l. get_or buf t junk ∷ l)
        (cells-suc buf size n s (next-lt s p) q (omega (arith, used-next_tail s p q ne)))

  -- An empty ring holds nothing; any other its oldest cell, and what it holds one step on.
  contents-nil : (buf : List A) (size t : ℕ) → contents buf t t size ≡ []
  contents-nil buf size t = let e : used size t t ≡ 0 = ground arith in ap (cells buf size t) e

  contents-cons :
      (buf : List A) (size : ℕ) {t h : ℕ}
      → size < 2 ^ 63
      → t < size
      → h < size
      → t ≢ h
      → contents buf t h size ≡ get_or buf t junk ∷ contents buf (next size t) h size
  contents-cons buf size {t} {h} s p q ne =
      let e : used size t h ≡ suc (used size (next size t) h) =
        omega (arith, used-next_tail s p q ne) in
      ap (cells buf size t) e

-- What a read of `k` cells does: the count, the cells handed out, the cells left.
pub record Reads {ℓ} {A : Type ℓ} (junk : A) (buf : List A) (tail head size k n : ℕ) (r : Read A)
    : Type ℓ where
  pub count : r.count ≡ n + min k (used size tail head)
  pub out : r.out ≡ take k (contents junk buf tail head size)
  pub left : contents junk buf r.tail head size ≡ drop k (contents junk buf tail head size)
  pub ring : IsRing buf r.tail head size

module _ {ℓ} {A : Type ℓ} (junk : A) (buf : List A) (head size : ℕ) where
  Reads-empty :
      (k n : ℕ) {tail : ℕ}
      → IsRing buf tail head size
      → tail ≡ head
      → Reads junk buf tail head size (suc k) n (record { count = n; out = []; tail = tail })
  Reads-empty k n {tail} v e =
      let none_in : contents junk buf tail head size ≡ [] =
        rw e (contents-nil junk buf size head) in
      record { count = ground arith; out = rw none_in; left = rw none_in; ring = v }

  read_loop-Reads :
      (k : ℕ) {tail : ℕ} (n : ℕ)
      → IsRing buf tail head size
      → Reads junk buf tail head size k n (read_loop junk buf head size k tail n)
  unfolding read_loop
  read_loop-Reads zero n v = record { count = omega arith; out = refl; left = refl; ring = v }
  read_loop-Reads (suc k) {tail} n v = elim (Bool-cases (tail == head)) [
    | inl e ↦ rw e (Reads-empty k n v (ground arith))
    | inr e ↦
        let ne : tail ≢ head = ground arith in
        let first = contents-cons junk buf size v.small v.tail_lt v.head_lt ne in
        let rest = read_loop-Reads k (n + 1) (record {
          fits = v.fits;
          tail_lt = next-lt v.small v.tail_lt;
          head_lt = v.head_lt;
          small = v.small;
        }) in
        rw e (record {
          count = omega (arith, rest.count, used-next_tail v.small v.tail_lt v.head_lt ne);
          out = rw first (ap (λ l. get_or buf tail junk ∷ l) rest.out);
          left = rw first rest.left;
          ring = rest.ring;
        })
  ]

-- What a write of the cells `xs` does: the count, and the cells held afterwards.
pub record Writes {ℓ} {A : Type ℓ} (junk : A) (buf : List A) (tail head size : ℕ) (xs : List A)
    (n : ℕ) (w : Written A) : Type ℓ where
  pub count : w.count ≡ n + min (length xs) (size - 1 - used size tail head)
  pub held :
      contents junk w.buf tail w.head size
      ≡ contents junk buf tail head size ++ take (size - 1 - used size tail head) xs
  pub ring : IsRing w.buf tail w.head size
  pub same_length : length w.buf ≡ length buf

module _ {ℓ} {A : Type ℓ} (junk : A) (tail size : ℕ) where
  -- One cell written.
  contents-push :
      (buf : List A) {head : ℕ} (x : A)
      → IsRing buf tail head size
      → tail ≢ next size head
      → contents junk (set buf head x) tail (next size head) size
        ≡ contents junk buf tail head size ++ (x ∷ [])
  contents-push buf {head} x v ne =
      let more : used size tail (next size head) ≡ suc (used size tail head) =
        omega (arith, used-next_head v.small v.tail_lt v.head_lt ne) in
      ap (cells junk (set buf head x) size tail) more
      ∙ cells-suc junk (set buf head x) size (used size tail head) v.small v.tail_lt v.head_lt refl
      ∙ ap₂ ◌++◌
          (cells-set_out junk buf size (used size tail head) x v.small v.tail_lt v.head_lt
            (omega arith))
          (ap (λ y. y ∷ []) (get_or-set_self buf head x junk (omega arith)))

  IsRing-push :
      (buf : List A) {head : ℕ} (x : A)
      → IsRing buf tail head size
      → IsRing (set buf head x) tail (next size head) size
  IsRing-push buf {head} x v = record {
    fits = omega (arith, v.fits, length-set buf head x);
    tail_lt = v.tail_lt;
    head_lt = next-lt v.small v.head_lt;
    small = v.small;
  }

  Writes-full :
      (buf : List A) {head : ℕ} (x : A) (xs : List A) (n : ℕ)
      → IsRing buf tail head size
      → tail ≡ next size head
      → Writes junk buf tail head size (x ∷ xs) n (record { count = n; buf = buf; head = head })
  Writes-full buf {head} x xs n v e =
      let no_room : size - 1 - used size tail head ≡ 0 =
        omega (arith, used_full v.small v.tail_lt v.head_lt e) in
      record {
        count = omega arith;
        held = rw no_room (sym (append-nil (contents junk buf tail head size)));
        ring = v;
        same_length = refl;
      }

  write_loop-Writes :
      (xs : List A) (buf : List A) {head : ℕ} (n : ℕ)
      → IsRing buf tail head size
      → Writes junk buf tail head size xs n (write_loop tail size xs buf head n)
  unfolding write_loop
  write_loop-Writes [] buf {head} n v = record {
    count = omega arith;
    held = sym (
        ap (λ l. contents junk buf tail head size ++ l) (take-nil A _)
        ∙ append-nil (contents junk buf tail head size));
    ring = v;
    same_length = refl;
  }
  write_loop-Writes (x ∷ xs) buf {head} n v = elim (Bool-cases (tail == next size head)) [
    | inl e ↦ rw e (Writes-full buf x xs n v (ground arith))
    | inr e ↦
        let ne : tail ≢ next size head = ground arith in
        let more = used-next_head v.small v.tail_lt v.head_lt ne in
        let room = used_not_full v.small v.tail_lt v.head_lt ne in
        let split : size - 1 - used size tail head
            ≡ suc (size - 1 - used size tail (next size head)) =
          omega arith in
        let rest = write_loop-Writes xs (set buf head x) (n + 1) (IsRing-push buf x v) in
        rw e (record {
          count = omega (arith, rest.count);
          held = rw split (
              rest.held
              ∙ ap (λ l. l ++ take (size - 1 - used size tail (next size head)) xs)
                  (contents-push buf x v ne)
              ∙ append_assoc (contents junk buf tail head size) (x ∷ [])
                  (take (size - 1 - used size tail (next size head)) xs));
          ring = rest.ring;
          same_length = rest.same_length ∙ length-set buf head x;
        })
  ]

-- On a well-formed ring, `fifo_read8` hands out the oldest `len` bytes in use, or all if there are
-- fewer, in order; it returns their number, and what the ring holds afterwards is the rest.
pub fifo_read8_lem :
    {buf : List ℕ} {tail head size : ℕ} (len : ℕ)
    → IsRing buf tail head size
    → Reads 0 buf tail head size len 0 (fifo_read8 buf tail head size len)
unfolding fifo_read8
fifo_read8_lem {buf} {head} {size} len v = read_loop-Reads 0 buf head size len 0 v

-- On a well-formed ring, `fifo_write8` takes as many bytes of `in` as fit with one slot kept free,
-- returns their number, and appends exactly those to what the ring holds; both pointers stay
-- inside the table.
pub fifo_write8_lem :
    {buf : List ℕ} {tail head size : ℕ} (input : List ℕ)
    → IsRing buf tail head size
    → Writes 0 buf tail head size input 0 (fifo_write8 buf tail head size input)
unfolding fifo_write8
fifo_write8_lem {buf} {tail} {size} input v = write_loop-Writes 0 tail size input buf 0 v

-- On a well-formed ring, `fifo_read16`, on cells of any kind, hands out the oldest `len` cells in
-- use, or all if there are fewer, in order; it returns their number, and what the ring holds
-- afterwards is the rest.
pub fifo_read16_lem {ℓ} :
    {A : Type ℓ} (junk : A) {buf : List A} {tail head size : ℕ} (len : ℕ)
    → IsRing buf tail head size
    → Reads junk buf tail head size len 0 (fifo_read16 junk buf tail head size len)
unfolding fifo_read16
fifo_read16_lem junk {buf} {head} {size} len v = read_loop-Reads junk buf head size len 0 v

-- On a well-formed ring, `fifo_write16`, on cells of any kind, takes as many cells of `in` as fit
-- with one slot kept free, returns their number, and appends exactly those to what the ring holds;
-- both pointers stay inside the table.
pub fifo_write16_lem {ℓ} :
    {A : Type ℓ} (junk : A) {buf : List A} {tail head size : ℕ} (input : List A)
    → IsRing buf tail head size
    → Writes junk buf tail head size input 0 (fifo_write16 buf tail head size input)
unfolding fifo_write16
fifo_write16_lem junk {buf} {tail} {size} input v = write_loop-Writes junk tail size input buf 0 v

pub take_all {ℓ} : {A : Type ℓ} (n : ℕ) (xs : List A) → length xs ≤ n → take n xs ≡ xs
take_all zero [] h = refl
take_all zero (x ∷ xs) h = absurd (omega arith)
take_all (suc n) [] h = refl
take_all (suc n) (x ∷ xs) h = ap (λ l. x ∷ l) (take_all n xs (omega arith))

drop_all {ℓ} : {A : Type ℓ} (n : ℕ) (xs : List A) → length xs ≤ n → drop n xs ≡ []
drop_all zero [] h = refl
drop_all zero (x ∷ xs) h = absurd (omega arith)
drop_all (suc n) [] h = refl
drop_all (suc n) (x ∷ xs) h = drop_all n xs (omega arith)

-- Bytes written to a well-formed ring where they all fit come out again, in order and behind what
-- the ring held before: a read of `len` bytes, `len` at least the number then in use, returns the
-- old bytes and the new ones and leaves the ring empty.
pub fifo_read8-fifo_write8 :
    {buf : List ℕ} {tail head size : ℕ} (input : List ℕ) (len : ℕ)
    → IsRing buf tail head size
    → length input + used size tail head < size
    → length input + used size tail head ≤ len
    → let w = fifo_write8 buf tail head size input in
      let r = fifo_read8 w.buf tail w.head size len in
      (r.out ≡ contents 0 buf tail head size ++ input)
      × (r.count ≡ used size tail head + length input)
      × (contents 0 w.buf r.tail w.head size ≡ [])
fifo_read8-fifo_write8 {buf} {tail} {head} {size} input len v room enough =
    let w = fifo_write8 buf tail head size input in
    let wrote = fifo_write8_lem input v in
    let got = fifo_read8_lem len wrote.ring in
    let holds : contents 0 w.buf tail w.head size ≡ contents 0 buf tail head size ++ input =
      wrote.held
      ∙ ap (λ l. contents 0 buf tail head size ++ l)
          (take_all (size - 1 - used size tail head) input (omega arith)) in
    let now : used size tail w.head ≡ used size tail head + length input =
      sym (length-cells 0 w.buf size tail (used size tail w.head))
      ∙ ap length holds
      ∙ length-append (contents 0 buf tail head size) input
      ∙ ap (λ n. n + length input) (length-cells 0 buf size tail (used size tail head)) in
    let short : length (contents 0 buf tail head size ++ input) ≤ len =
      omega (arith, ap length holds, length-cells 0 w.buf size tail (used size tail w.head)) in
    (
      got.out ∙ ap (take len) holds ∙ take_all len _ short,
      omega (arith, got.count),
      got.left ∙ ap (drop len) holds ∙ drop_all len _ short,
    )
