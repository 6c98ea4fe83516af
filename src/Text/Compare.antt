-- ===== src/Text/Compare.antt =====
-- Comparing, searching and cutting strings.
use carrotos.Base.{
  ℕ, zero, suc, ◌+◌, ◌<◌, ◌≡◌, ◌≢◌, ◌↔◌, refl, ap, ◌∙◌, true, [], ◌∷◌, arith, ◌==◌, take, drop,
  get_elem?, some, Bool-cases, inl, inr,
}
use carrotos.Text.{Text, strcmp, strpos, strpos_loop, minus_one, substr, skip_loop, copy_loop}

-- No character is the NUL.
abbrev pub IsText : Text → Type 0
IsText [] = Unit
IsText (c ∷ s) = (c ≢ 0) × IsText s

strcmp-yes : (s t : Text) → IsText s → IsText t → strcmp s t ≡ true → s ≡ t
unfolding strcmp
strcmp-yes [] [] v w h = refl
strcmp-yes [] (d ∷ t) v w h = ground (arith, w.0)
strcmp-yes (c ∷ s) [] v w h = ground (arith, v.0)
strcmp-yes (c ∷ s) (d ∷ t) v w h = elim (Bool-cases (c == d)) [
  | inl e ↦
      let same : c ≡ d = ground arith in
      let rest : strcmp s t ≡ true = ground arith in let tails = strcmp-yes s t v.1 w.1 rest in cc
  | inr e ↦ ground arith
]

strcmp_self : (s : Text) → strcmp s s ≡ true
unfolding strcmp
strcmp_self [] = refl
strcmp_self (c ∷ s) = let e : (c == c) ≡ true = ground arith in rw e (strcmp_self s)

-- `strcmp` tells whether two strings are equal: it returns 1 where they are, and 0 where they
-- differ.
pub strcmp_iff : (s t : Text) → IsText s → IsText t → (strcmp s t ≡ true) ↔ (s ≡ t)
strcmp_iff s t v w = (strcmp-yes s t v w, λ e. rw e (strcmp_self t))

skip_loop-drop : (s : Text) (n : ℕ) → skip_loop s n ≡ drop n s
unfolding skip_loop
skip_loop-drop s zero = ground arith
skip_loop-drop [] (suc n) = refl
skip_loop-drop (c ∷ s) (suc n) = skip_loop-drop s n

copy_loop-take : (s : Text) (n : ℕ) → copy_loop s n ≡ take n s
unfolding copy_loop
copy_loop-take s zero = ground arith
copy_loop-take [] (suc n) = refl
copy_loop-take (c ∷ s) (suc n) = ap (λ t. c ∷ t) (copy_loop-take s n)

-- `substr` cuts out the characters from `start` on, `len` at most, and none past the end.
substr-take : (s : Text) (start len : ℕ) → substr s start len ≡ take len (drop start s)
unfolding substr
substr-take s start len =
    copy_loop-take (skip_loop s start) len ∙ ap (take len) (skip_loop-drop s start)

-- What a search for a character returns: its first place counted from `base`, or -1 if it is
-- nowhere.
pub data Position (c : ℕ) (s : Text) (base r : ℕ) : Type 0 where
  nowhere : r ≡ minus_one → ((i : ℕ) → get_elem? s i ≢ some c) → Position c s base r
  first_at :
      (i : ℕ)
      → r ≡ base + i
      → get_elem? s i ≡ some c
      → ((j : ℕ) → j < i → get_elem? s j ≢ some c)
      → Position c s base r

-- One more character in front, which is another one.
module _ (c d : ℕ) (s : Text) (other : d ≢ c) where
  before_or_at :
      (i : ℕ)
      → ((j : ℕ) → j < i → get_elem? s j ≢ some c)
      → (j : ℕ) → j < suc i
      → get_elem? (d ∷ s) j ≢ some c
  before_or_at i rest zero lt h = let e : d ≡ c = cc in other e
  before_or_at i rest (suc j) lt h = rest j (omega arith) h

  Position-skip : {base r : ℕ} → Position c s (base + 1) r → Position c (d ∷ s) base r
  Position-skip (nowhere e all) = nowhere e (never all)
    where
      never : ((i : ℕ) → get_elem? s i ≢ some c) → (i : ℕ) → get_elem? (d ∷ s) i ≢ some c
      never all zero h = let e : d ≡ c = cc in other e
      never all (suc i) h = all i h
  Position-skip (first_at i e there before) =
      first_at (suc i) (omega arith) there (before_or_at i before)

strpos_loop-Position : (s : Text) (c base : ℕ) → Position c s base (strpos_loop s c base)
unfolding strpos_loop
strpos_loop-Position [] c base = nowhere refl (λ i h. cc)
strpos_loop-Position (d ∷ s) c base = elim (Bool-cases (d == c)) [
  | inl e ↦
      let same : d ≡ c = ground arith in
      rw e (first_at zero (omega arith) (ap some same) (λ j lt. absurd (omega arith)))
  | inr e ↦
      let other : d ≢ c = ground arith in
      rw e (Position-skip c d s other (strpos_loop-Position s c (base + 1)))
]

-- `strpos` returns the first place of a character in a string, or -1 where it does not occur.
strpos-Position : (s : Text) (c : ℕ) → Position c s 0 (strpos s c)
unfolding strpos
strpos-Position s c = strpos_loop-Position s c 0
