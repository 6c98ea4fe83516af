-- ===== src/Fat32/Names.antt =====
-- The two ways in which fat32.h makes the eleven bytes of a name: `format_name_83`, by which entries
-- are written and `find_dir_entry` searches, and that of `match_name`, by which
-- `find_cluster_from_path` searches.
use carrotos.Base.{
  ℕ, zero, suc, ◌+◌, ◌≤◌, ◌<◌, ◌≡◌, ◌≢◌, refl, ap, ◌∙◌, true, false, ◌&&◌, not, Option, none, some,
  [], ◌∷◌, ◌==◌, leb, ltb, arith, if◌then◌else◌, Bool-cases, get_or, drop, inl, inr, ◌⊎◌,
}
use carrotos.Text.{Text}
use carrotos.Fat32.Disk.{Buf, put_byte}
use carrotos.Fat32.Name.{
  dot, space, toupper, strchr, strchr_from, is_at, format_base, format_ext, format_after,
  format_name_83, match_base, match_ext, match_form, match_name, same_bytes,
}

-- A string in memory: its characters and the NUL behind them.
abbrev pub chars : Text → Buf
chars s i = get_or s i 0

-- No character of a string is the NUL.
abbrev pub IsString : Text → Type 0
IsString [] = Unit
IsString (c ∷ s) = (c ≢ 0) × IsString s

-- The number of characters before the first dot.
abbrev pub base_length : Text → ℕ
base_length [] = 0
base_length (c ∷ s) = let rest = suc (base_length s) in if c == dot then 0 else rest

-- What follows the first dot.
abbrev extension : Text → Option Text
extension [] = none
extension (c ∷ s) = let rest = extension s in if c == dot then some s else rest

strchr_from_later : (s : Text) (i j : ℕ) → i < j → is_at (strchr_from s dot j) i ≡ false
unfolding strchr_from is_at
strchr_from_later [] i j h = ground arith
strchr_from_later (x ∷ s) i j h =
    let rest = strchr_from_later s i (j + 1) (omega arith) in
    elim (Bool-cases (x == dot)) [ inl e ↦ rw e (ground arith) | inr e ↦ rw e rest ]

module _ (path : Buf) where
  -- The characters of the path from an index on are those of a string.
  abbrev Holds : Text → ℕ → Type 0
  Holds s i = (k j : ℕ) → k ≡ i + j → path k ≡ get_or s j 0

  tail-Holds : (c : ℕ) (s : Text) (i : ℕ) → Holds (c ∷ s) i → Holds s (i + 1)
  tail-Holds c s i h k j e = h k (suc j) (omega arith)

  ext_same :
      (n i j : ℕ) (s : Text) (f : Buf)
      → i + n ≡ 11
      → IsString s
      → Holds s j
      → match_ext n path j i f ≡ format_ext s i f
  unfolding match_ext format_ext
  ext_same zero i j [] f e text h = refl
  ext_same zero i j (c ∷ s) f e text h = ground arith
  ext_same (suc n) i j [] f e text h = rw (h j 0 (omega arith)) refl
  ext_same (suc n) i j (c ∷ s) f e (char, text) h =
      let test : not (c == 0) ≡ true = ground arith in
      let inside : ltb i 11 ≡ true = ground arith in
      rw (match_ext, h j 0 (omega arith), test, inside)
        (ext_same n (i + 1) (j + 1) s _ (omega arith) text (tail-Holds c s j h))

  base_same :
      (n i : ℕ) (s : Text) (f : Buf)
      → i + n ≡ 8
      → base_length s ≤ n
      → IsString s
      → Holds s i
      → match_base n path i f ≡ (i + base_length s, format_base s (strchr_from s dot i) i f)
  unfolding match_base format_base strchr_from
  base_same zero i [] f e fits text h = ap (λ k. (k, f)) (omega arith)
  base_same (suc n) i [] f e fits text h =
      rw (match_base, h i 0 (omega arith)) (ap (λ k. (k, f)) (omega arith))
  base_same zero i (c ∷ s) f e fits text h = elim (Bool-cases (c == dot)) [
    | inl is_dot ↦
        let here : (i == i) ≡ true = ground arith in
        rw (is_dot, here) (ap (λ k. (k, f)) (omega arith))
    | inr other ↦ absurd (ground arith)
  ]
  base_same (suc n) i (c ∷ s) f e fits (char, text) h = elim (Bool-cases (c == dot)) [
    | inl is_dot ↦
        let here : (i == i) ≡ true = ground arith in
        let stops : (not (c == 0) && not (c == dot)) ≡ false = ground arith in
        rw (match_base, h i 0 (omega arith), stops, is_dot, here) (ap (λ k. (k, f)) (omega arith))
    | inr other ↦
        let goes_on : (not (c == 0) && not (c == dot)) ≡ true = ground arith in
        let low : leb 8 i ≡ false = ground arith in
        let shorter : base_length s ≤ n = ground arith in
        rw
          (
            match_base,
            h i 0 (omega arith),
            goes_on,
            other,
            strchr_from_later s i (i + 1) (omega arith),
            low,
          )
          (base_same n (i + 1) s (put_byte f i (toupper c)) (omega arith) shorter text
              (tail-Holds c s i h)
            ∙ ap
                (λ k.
                  (k, format_base s (strchr_from s dot (i + 1)) (i + 1) (put_byte f i (toupper c))))
                (omega arith))
  ]

get_or-drop : (s : Text) (n j k : ℕ) → k ≡ n + j → get_or s k 0 ≡ get_or (drop n s) j 0
get_or-drop s zero j k e = ap (λ i. get_or s i 0) (omega arith)
get_or-drop [] (suc n) j k e = refl
get_or-drop (c ∷ s) (suc n) j zero e = absurd (omega arith)
get_or-drop (c ∷ s) (suc n) j (suc k) e = get_or-drop s n j k (omega arith)

drop-IsString : (s : Text) (n : ℕ) → IsString s → IsString (drop n s)
drop-IsString s zero h = h
drop-IsString [] (suc n) h = h
drop-IsString (c ∷ s) (suc n) (char, h) = drop-IsString s n h

-- `strchr` stops behind the base if a dot is there; else the base is the whole string.
strchr_from-base :
    (s : Text) (i : ℕ)
    → ((strchr_from s dot i ≡ some (i + base_length s)) × (get_or s (base_length s) 0 ≡ dot))
      ⊎ ((strchr_from s dot i ≡ none) × (get_or s (base_length s) 0 ≡ 0))
unfolding strchr_from
strchr_from-base [] i = inr (ground arith, refl)
strchr_from-base (c ∷ s) i = elim (Bool-cases (c == dot)) [
  | inl is_dot ↦ rw is_dot (inl (ap some (omega arith), ground arith))
  | inr other ↦ elim (strchr_from-base s (i + 1)) [
    | inl (place, char) ↦ rw other (inl (place ∙ ap some (omega arith), char))
    | inr (nowhere, end) ↦ rw other (inr (nowhere, end))
  ]
]

match_form-chars :
    (s : Text) → IsString s → base_length s ≤ 8 → match_form (chars s) ≡ format_name_83 s
unfolding match_form format_name_83 strchr format_after
match_form-chars s text short =
    rw
      (base_same (chars s) 8 0 s (λ i. space) (omega arith) short text
        (λ k j e. ap (chars s) (omega arith)))
      (elim (strchr_from-base s 0) [
        | inl (place, char) ↦
            let index : 0 + base_length s ≡ base_length s = omega arith in
            rw (place, index, char)
              (ext_same (chars s) 3 8 (base_length s + 1) (drop (base_length s + 1) s) _
                (omega arith) (drop-IsString s (base_length s + 1) text)
                (λ k j e. get_or-drop s (base_length s + 1) j k e))
        | inr (nowhere, end) ↦
            let index : 0 + base_length s ≡ base_length s = omega arith in
            rw (nowhere, index, end) refl
      ])

-- For a name of at most eight characters before the first dot, `match_name` compares an entry with
-- the very bytes that `format_name_83` writes: the lookup by `find_cluster_from_path` and the search
-- of `find_dir_entry` agree on which entries the name is that of.
pub match_name-format_name_83 :
    (s : Text) (entries : Buf) (at : ℕ)
    → IsString s
    → base_length s ≤ 8
    → match_name (chars s) entries at ≡ same_bytes 11 entries at (format_name_83 s) 0
unfolding match_name
match_name-format_name_83 s entries at text short =
    ap (λ form. same_bytes 11 entries at form 0) (match_form-chars s text short)
