-- ===== src/Text/Number.antt =====
-- Printing a number and reading it back.
use carrotos.Base.{
  ℕ, zero, suc, ◌+◌, ◌-◌, ◌*◌, ◌/◌, ◌%◌, ◌^◌, ◌<◌, ◌≤◌, ◌≡◌, ◌≢◌, refl, ap, ◌∙◌, true, false, [],
  ◌∷◌, arith, ◌==◌, ltb, Bool-cases, inl, inr, ℕ_discrete, dec_lt,
}
use carrotos.Text.{Text, digits_loop, positive_digits, num_to_str, parse_loop, negative, str_to_int}

-- The digits of a number, read in front of more text, count as the number, if the rounds suffice.
parse_loop-digits_loop :
    (k n : ℕ) (tmp : Text)
    → n < 10 ^ k
    → n < 2 ^ 64
    → parse_loop 0 (digits_loop k n tmp) ≡ parse_loop n tmp
unfolding parse_loop digits_loop
parse_loop-digits_loop zero n tmp h small = let e : n ≡ 0 = omega arith in rw e
parse_loop-digits_loop (suc k) n tmp h small = elim (Bool-cases (n == 0)) [
  | inl e ↦ let z : n ≡ 0 = ground arith in rw z
  | inr e ↦
      let shorter : n / 10 < 10 ^ k = omega arith in
      let whole : (n / 10 * 10 + (48 + n % 10) + (2 ^ 64 - 48)) % 2 ^ 64 ≡ n = omega arith in
      rw e (
        parse_loop-digits_loop k (n / 10) ((48 + n % 10) ∷ tmp) shorter (omega arith)
        ∙ ap (λ v. parse_loop v tmp) whole)
]

-- The text of the digits is none that starts with a sign.
pub data StartsWithDigit : Text → Type 0 where
  digit : (c : ℕ) (s : Text) → 48 ≤ c → StartsWithDigit (c ∷ s)

digits_loop-StartsWithDigit :
    (k n : ℕ) (c : ℕ) (s : Text) → 48 ≤ c → StartsWithDigit (digits_loop k n (c ∷ s))
unfolding digits_loop
digits_loop-StartsWithDigit zero n c s h = digit c s h
digits_loop-StartsWithDigit (suc k) n c s h = elim (Bool-cases (n == 0)) [
  | inl e ↦ rw e (digit c s h)
  | inr e ↦ rw e (digits_loop-StartsWithDigit k (n / 10) (48 + n % 10) (c ∷ s) (omega arith))
]

str_to_int-digit : (s : Text) → StartsWithDigit s → str_to_int s ≡ parse_loop 0 s
unfolding str_to_int
str_to_int-digit _ (digit c s h) = let e : (c == 45) ≡ false = ground arith in rw e

module _ (n : ℕ) (pos : n ≢ 0) (small : n < 2 ^ 63) where
  parse_loop-positive_digits : parse_loop 0 (positive_digits n) ≡ n
  unfolding positive_digits parse_loop
  parse_loop-positive_digits =
      let e : ltb n (2 ^ 63) ≡ true = ground arith in
      rw e (parse_loop-digits_loop 20 n [] (omega arith) (omega arith))

  positive_digits-StartsWithDigit : StartsWithDigit (positive_digits n)
  unfolding positive_digits digits_loop
  positive_digits-StartsWithDigit =
      let e : ltb n (2 ^ 63) ≡ true = ground arith in
      let f : (n == 0) ≡ false = ground arith in
      rw (e, f) (digits_loop-StartsWithDigit 19 (n / 10) (48 + n % 10) [] (omega arith))

  num_to_str-positive : num_to_str n ≡ positive_digits n
  unfolding num_to_str
  num_to_str-positive =
      let e : (n == 0) ≡ false = ground arith in
      let f : ltb n (2 ^ 63) ≡ true = ground arith in rw (e, f)

  str_to_int-num_to_str_positive : str_to_int (num_to_str n) ≡ n
  str_to_int-num_to_str_positive =
      ap str_to_int num_to_str-positive
      ∙ str_to_int-digit (positive_digits n) positive_digits-StartsWithDigit
      ∙ parse_loop-positive_digits

module _ (n : ℕ) (neg : 2 ^ 63 < n) (word : n < 2 ^ 64) where
  num_to_str-negative : num_to_str n ≡ 45 ∷ positive_digits (2 ^ 64 - n)
  unfolding num_to_str
  num_to_str-negative =
      let e : (n == 0) ≡ false = ground arith in
      let f : ltb n (2 ^ 63) ≡ false = ground arith in
      let g : (2 ^ 64 - n) % 2 ^ 64 ≡ 2 ^ 64 - n = omega arith in rw (e, f, g)

  str_to_int-num_to_str_negative : str_to_int (num_to_str n) ≡ n
  unfolding str_to_int negative
  str_to_int-num_to_str_negative =
      ap str_to_int num_to_str-negative
      ∙ ap negative (parse_loop-positive_digits (2 ^ 64 - n) (omega arith) (omega arith))
      ∙ omega arith

str_to_int-num_to_str_zero : str_to_int (num_to_str 0) ≡ 0
unfolding str_to_int num_to_str
str_to_int-num_to_str_zero = refl

-- `str_to_int` reads back what `num_to_str` prints, for every 64-bit signed number but the least,
-- of which only the sign is printed.
pub str_to_int-num_to_str : (n : ℕ) → n < 2 ^ 64 → n ≢ 2 ^ 63 → str_to_int (num_to_str n) ≡ n
str_to_int-num_to_str n word ne = elim (ℕ_discrete n 0) [
  | yes e ↦ rw e str_to_int-num_to_str_zero
  | no pos ↦ elim (dec_lt n (2 ^ 63)) [
    | yes small ↦ str_to_int-num_to_str_positive n pos small
    | no big ↦ str_to_int-num_to_str_negative n (omega arith) word
  ]
]
