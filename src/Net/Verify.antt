-- ===== src/Net/Verify.antt =====
-- What the TCP checksum of tcp.h promises to the other side.
use carrotos.Base.{
  ℕ, zero, suc, ◌+◌, ◌*◌, ◌/◌, ◌%◌, ◌^◌, ◌≤◌, ◌<◌, ◌≡◌, refl, ap, ◌∙◌, true, List, [], ◌∷◌, ◌++◌,
  ◌==◌, arith, length, Bool-cases, inl, inr,
}
use carrotos.Net.Checksum.{
  htons, add_words, fold_loop, fold_sum, complement, tcp_sum, tcp_checksum, tcp_protocol_number,
}

abbrev pub IsBytes : List ℕ → Type 0
IsBytes [] = Unit
IsBytes (b ∷ bytes) = (b < 256) × IsBytes bytes

-- The sum of the words, without a bound.
word_sum : List ℕ → ℕ
word_sum [] = 0
word_sum (a ∷ []) = a * 2 ^ 8
word_sum (a ∷ b ∷ bytes) = a * 2 ^ 8 + b + word_sum bytes

add_words_lem :
    (bytes : List ℕ) (sum : ℕ)
    → sum < 2 ^ 32
    → add_words bytes sum ≡ (sum + word_sum bytes) % 2 ^ 32
unfolding add_words word_sum
add_words_lem [] sum h = omega arith
add_words_lem (a ∷ []) sum h = refl
add_words_lem (a ∷ b ∷ bytes) sum h =
    add_words_lem bytes ((sum + (a * 2 ^ 8 + b)) % 2 ^ 32) (omega arith) ∙ omega arith

word_sum-bound : (bytes : List ℕ) → IsBytes bytes → word_sum bytes ≤ (length bytes + 1) * 32768
unfolding word_sum
word_sum-bound [] h = omega arith
word_sum-bound (a ∷ []) (ha, h) = omega arith
word_sum-bound (a ∷ b ∷ bytes) (ha, (hb, h)) = omega (arith, word_sum-bound bytes h)

-- A word in the middle, behind an even number of bytes.
word_sum-middle :
    (front : List ℕ) (a b : ℕ) (back : List ℕ)
    → length front % 2 ≡ 0
    → word_sum (front ++ a ∷ b ∷ back) ≡ word_sum (front ++ 0 ∷ 0 ∷ back) + (a * 2 ^ 8 + b)
unfolding word_sum
word_sum-middle [] a b back even = omega arith
word_sum-middle (x ∷ []) a b back even = absurd (omega arith)
word_sum-middle (x ∷ y ∷ front) a b back even =
    omega (arith, word_sum-middle front a b back (omega arith))

htons_self : (x : ℕ) → x < 2 ^ 16 → htons (htons x) ≡ x
unfolding htons
htons_self x h = omega arith

-- Folding takes a multiple of 65535 away, and comes to 0 from 0 alone.
record Folds (sum f : ℕ) : Type 0 where
  turns : ℕ
  same : sum ≡ f + 65535 * turns
  null : f ≡ 0 → sum ≡ 0

fold_loop-Folds : (n sum : ℕ) → Folds sum (fold_loop n sum)
unfolding fold_loop
fold_loop-Folds zero sum = record { turns = 0; same = omega arith; null = λ e. e }
fold_loop-Folds (suc n) sum = elim (Bool-cases (sum / 2 ^ 16 == 0)) [
  | inl e ↦ rw e (record { turns = 0; same = omega arith; null = λ z. z })
  | inr e ↦
      let rest = fold_loop-Folds n (sum % 2 ^ 16 + sum / 2 ^ 16) in
      rw e (record {
        turns = rest.turns + sum / 2 ^ 16;
        same = omega (arith, rest.same);
        null = λ z. omega (arith, rest.null z);
      })
]

folded_already : (n sum : ℕ) → sum < 2 ^ 16 → fold_loop n sum ≡ sum
unfolding fold_loop
folded_already zero sum h = refl
folded_already (suc n) sum h = let test : (sum / 2 ^ 16 == 0) ≡ true = ground arith in rw test refl

fold_once : (n sum : ℕ) → sum ≤ 131070 → fold_loop (suc n) sum < 2 ^ 16
unfolding fold_loop
fold_once n sum h = elim (Bool-cases (sum / 2 ^ 16 == 0)) [
  | inl e ↦ rw e (ground arith)
  | inr e ↦
      let low : sum % 2 ^ 16 + sum / 2 ^ 16 < 2 ^ 16 = ground arith in
      rw (e, folded_already n (sum % 2 ^ 16 + sum / 2 ^ 16) low) low
]

fold_sum_small : (sum : ℕ) → sum < 2 ^ 32 → fold_sum sum < 2 ^ 16
unfolding fold_sum fold_loop
fold_sum_small sum h = elim (Bool-cases (sum / 2 ^ 16 == 0)) [
  | inl e ↦ rw e (ground arith)
  | inr e ↦ rw e (fold_once 1 (sum % 2 ^ 16 + sum / 2 ^ 16) (omega arith))
]

-- A sum and the complement of its folded value fold to ones.
fold_sum-complement :
    (sum : ℕ) → sum + 65535 < 2 ^ 32 → fold_sum (sum + complement (fold_sum sum)) ≡ 65535
unfolding complement fold_sum
fold_sum-complement sum h =
    let f = fold_sum sum in
    let small : f < 2 ^ 16 = fold_sum_small sum (omega arith) in
    let folds : Folds sum f = fold_loop-Folds 3 sum in
    let all = sum + complement f in
    let again : Folds all (fold_sum all) = fold_loop-Folds 3 all in
    let less : fold_sum all < 2 ^ 16 = fold_sum_small all (omega arith) in
    let same = folds.same in let then_same = again.same in let null = again.null in ground arith

IsBytes-append : (xs ys : List ℕ) → IsBytes (xs ++ ys) → IsBytes xs × IsBytes ys
IsBytes-append [] ys h = (tt, h)
IsBytes-append (x ∷ xs) ys (hx, h) =
    let (left, right) = IsBytes-append xs ys h in ((hx, left), right)

checksum_of_ones : htons (complement 65535) ≡ 0
unfolding htons complement
checksum_of_ones = refl

htons-bytes : (x : ℕ) → x < 2 ^ 16 → htons x % 2 ^ 8 * 2 ^ 8 + htons x / 2 ^ 8 ≡ x
unfolding htons
htons-bytes x h = omega arith

complement_small : (sum : ℕ) → complement sum < 2 ^ 16
unfolding complement
complement_small sum = omega arith

module _ (src_ip dst_ip : ℕ) (payload : List ℕ) where
  pseudo : ℕ → ℕ
  pseudo n =
      src_ip / 2 ^ 16 % 2 ^ 16
      + src_ip % 2 ^ 16
      + dst_ip / 2 ^ 16 % 2 ^ 16
      + dst_ip % 2 ^ 16
      + tcp_protocol_number
      + (n + length payload) % 2 ^ 16

  tcp_sum-words :
      (tcp : List ℕ)
      → tcp_sum tcp src_ip dst_ip payload
        ≡ (pseudo (length tcp) + word_sum tcp + word_sum payload) % 2 ^ 32
  unfolding tcp_sum pseudo
  tcp_sum-words tcp =
      let first_words = add_words_lem tcp (pseudo (length tcp) % 2 ^ 32) (omega arith) in
      let all_words =
        add_words_lem payload (add_words tcp (pseudo (length tcp) % 2 ^ 32)) (omega arith) in
      omega (arith, first_words, all_words)

  length_same :
      (front : List ℕ) (a b : ℕ) (back : List ℕ)
      → length (front ++ a ∷ b ∷ back) ≡ length (front ++ 0 ∷ 0 ∷ back)
  length_same [] a b back = refl
  length_same (x ∷ front) a b back = ap suc (length_same front a b back)

  -- The sum over a header with a word in the middle, where nothing wraps.
  tcp_sum-middle :
      (front : List ℕ) (a b : ℕ) (back : List ℕ)
      → length front % 2 ≡ 0
      → IsBytes (front ++ 0 ∷ 0 ∷ back)
      → IsBytes payload
      → length (front ++ 0 ∷ 0 ∷ back) + length payload < 2 ^ 16
      → a * 2 ^ 8 + b < 2 ^ 16
      → let sum = tcp_sum (front ++ 0 ∷ 0 ∷ back) src_ip dst_ip payload in
        (sum + 65535 < 2 ^ 32)
        × (tcp_sum (front ++ a ∷ b ∷ back) src_ip dst_ip payload ≡ sum + (a * 2 ^ 8 + b))
  unfolding pseudo
  tcp_sum-middle front a b back even bytes pay_bytes short word =
      let header_bound = word_sum-bound (front ++ 0 ∷ 0 ∷ back) bytes in
      let payload_bound = word_sum-bound payload pay_bytes in
      let words = tcp_sum-words (front ++ 0 ∷ 0 ∷ back) in
      let words_then = tcp_sum-words (front ++ a ∷ b ∷ back) in
      let middle = word_sum-middle front a b back even in
      let same_length = length_same front a b back in (omega arith, omega arith)

-- A segment whose header is `front`, the two bytes of the checksum and `back`: with the checksum
-- computed over zeros in its place and stored as the machine stores it, low byte first, the
-- checksum of the whole segment is 0, which is the test of a receiver. The addresses are 32-bit
-- words, the rest are bytes, the checksum stands at an even offset, and header and payload are
-- shorter than 2 ^ 16.
pub tcp_checksum_verifies :
    (front back payload : List ℕ) (src_ip dst_ip : ℕ)
    → length front % 2 ≡ 0
    → IsBytes (front ++ 0 ∷ 0 ∷ back)
    → IsBytes payload
    → length (front ++ 0 ∷ 0 ∷ back) + length payload < 2 ^ 16
    → let c = tcp_checksum (front ++ 0 ∷ 0 ∷ back) src_ip dst_ip payload in
      tcp_checksum (front ++ c % 2 ^ 8 ∷ c / 2 ^ 8 ∷ back) src_ip dst_ip payload ≡ 0
unfolding tcp_checksum
tcp_checksum_verifies front back payload src_ip dst_ip even bytes pay_bytes short =
    let sum = tcp_sum (front ++ 0 ∷ 0 ∷ back) src_ip dst_ip payload in
    let c = htons (complement (fold_sum sum)) in
    let swapped = htons-bytes (complement (fold_sum sum)) (complement_small (fold_sum sum)) in
    let word = complement_small (fold_sum sum) in
    let (small, total) =
      tcp_sum-middle src_ip dst_ip payload front (c % 2 ^ 8) (c / 2 ^ 8) back even bytes pay_bytes
        short (omega arith) in
    ap (λ s. htons (complement (fold_sum s))) (total ∙ ap (λ w. sum + w) swapped)
    ∙ ap (λ s. htons (complement s)) (fold_sum-complement sum small)
    ∙ checksum_of_ones
