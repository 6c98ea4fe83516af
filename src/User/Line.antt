-- ===== src/User/Line.antt =====
-- The fields of a line that colons separate.
use carrotos.Base.{
  ℕ, zero, suc, ◌+◌, ◌<◌, ◌≡◌, ◌≢◌, refl, ap, ◌∙◌, true, false, List, [], ◌∷◌, ◌++◌, Option, none,
  some, arith, ◌==◌, leb, get_elem?, inl, inr, Option-cases, ◌^◌,
}
use carrotos.Text.{Text, num_to_str}
use carrotos.Text.Number.{str_to_int-num_to_str}
use carrotos.User.{seek, until_colon, get_str_at_lv, get_uid_from_user_line, get_gid_from_user_line}

-- The line of a list of fields.
unfoldable pub join : List Text → Text
join [] = []
join (f ∷ []) = f
join (f ∷ g ∷ fields) = f ++ 58 ∷ join (g ∷ fields)

-- No character of the field is a colon; no field has one.
abbrev pub NoColon : Text → Type 0
NoColon [] = Unit
NoColon (c ∷ s) = (c ≢ 58) × NoColon s

abbrev pub AreFields : List Text → Type 0
AreFields [] = Unit
AreFields (f ∷ fields) = NoColon f × AreFields fields

-- A field in front is passed over.
seek-field :
    (f rest : Text) (level count : ℕ)
    → NoColon f
    → count < level
    → seek (f ++ rest) level count ≡ seek rest level count
unfolding seek
seek-field [] rest level count h lt = refl
seek-field (c ∷ f) rest level count h lt =
    let e : (c == 58) ≡ false = ground (arith, h.0) in
    let l : leb level count ≡ false = ground arith in
    rw (e, l) (seek-field f rest level count h.1 lt)

seek-last : (f : Text) (level count : ℕ) → NoColon f → count < level → seek f level count ≡ none
unfolding seek
seek-last [] level count h lt = refl
seek-last (c ∷ f) level count h lt =
    let e : (c == 58) ≡ false = ground (arith, h.0) in
    let l : leb level count ≡ false = ground arith in rw (e, l) (seek-last f level count h.1 lt)

-- A colon is counted, and the search ends at the last that is wanted.
seek-colon_stop :
    (rest : Text) (level count : ℕ) → count + 1 ≡ level → seek (58 ∷ rest) level count ≡ some rest
unfolding seek
seek-colon_stop rest level count e = let l : leb level (count + 1) ≡ true = ground arith in rw l

seek-colon_go :
    (rest : Text) (level count : ℕ)
    → count + 1 < level
    → seek (58 ∷ rest) level count ≡ seek rest level (count + 1)
unfolding seek
seek-colon_go rest level count lt = let l : leb level (count + 1) ≡ false = ground arith in rw l

until_colon-field : (f rest : Text) → NoColon f → until_colon (f ++ 58 ∷ rest) ≡ f
unfolding until_colon
until_colon-field [] rest h = refl
until_colon-field (c ∷ f) rest h =
    let e : (c == 58) ≡ false = ground (arith, h.0) in
    rw e (ap (λ t. c ∷ t) (until_colon-field f rest h.1))

until_colon-last : (f : Text) → NoColon f → until_colon f ≡ f
unfolding until_colon
until_colon-last [] h = refl
until_colon-last (c ∷ f) h =
    let e : (c == 58) ≡ false = ground (arith, h.0) in
    rw e (ap (λ t. c ∷ t) (until_colon-last f h.1))

until_colon-join :
    (f : Text) (fields : List Text) → AreFields (f ∷ fields) → until_colon (join (f ∷ fields)) ≡ f
unfolding join
until_colon-join f [] h = until_colon-last f h.0
until_colon-join f (g ∷ fields) h = until_colon-field f (join (g ∷ fields)) h.0

-- What is found after `n + 1` more colons.
unfoldable pub cut : Option Text → Option Text
cut none = none
cut (some rest) = some (until_colon rest)

seek-join :
    (fields : List Text) (n level count : ℕ)
    → AreFields fields
    → count + suc n ≡ level
    → cut (seek (join fields) level count) ≡ get_elem? fields (suc n)
unfolding join cut seek
seek-join [] n level count h e = refl
seek-join (f ∷ []) n level count h e = rw (seek-last f level count h.0 (omega arith))
seek-join (f ∷ g ∷ fields) zero level count h e =
    rw
      (
        seek-field f (58 ∷ join (g ∷ fields)) level count h.0 (omega arith),
        seek-colon_stop (join (g ∷ fields)) level count e,
      )
      (ap some (until_colon-join g fields h.1))
seek-join (f ∷ g ∷ fields) (suc n) level count h e =
    rw
      (
        seek-field f (58 ∷ join (g ∷ fields)) level count h.0 (omega arith),
        seek-colon_go (join (g ∷ fields)) level count (omega arith),
      )
      (seek-join (g ∷ fields) n level (count + 1) h.1 (omega arith))

get_str_at_lv-cut : (path : Text) (level : ℕ) → get_str_at_lv path level ≡ cut (seek path level 0)
unfolding get_str_at_lv cut
get_str_at_lv-cut path level = elim (Option-cases (seek path level 0)) [
  | inl e ↦ rw (e, get_str_at_lv)
  | inr (rest, e) ↦ rw (e, get_str_at_lv)
]

-- On a line of fields that colons separate, `get_str_at_lv` at a level above 0 returns the field of
-- that number, counted from 0, and returns false where the line has no such field. (No field has a
-- colon.)
get_str_at_lv-join :
    (fields : List Text) (level : ℕ)
    → AreFields fields
    → 0 < level
    → get_str_at_lv (join fields) level ≡ get_elem? fields level
get_str_at_lv-join fields zero h pos = absurd (omega arith)
get_str_at_lv-join fields (suc n) h pos =
    get_str_at_lv-cut (join fields) (suc n) ∙ seek-join fields n (suc n) 0 h (omega arith)

-- The user number printed in the third field of a line is what `get_uid_from_user_line` reads, and
-- the group number in the fourth what `get_gid_from_user_line` reads, whatever the buffer held. (No
-- field has a colon, and the numbers are below 2 ^ 63.)
pub get_ids-join :
    (out name password : Text) (uid gid : ℕ) (fields : List Text)
    → AreFields (name ∷ password ∷ num_to_str uid ∷ num_to_str gid ∷ fields)
    → uid < 2 ^ 63
    → gid < 2 ^ 63
    → let line = join (name ∷ password ∷ num_to_str uid ∷ num_to_str gid ∷ fields) in
      (get_uid_from_user_line out line ≡ uid) × (get_gid_from_user_line out line ≡ gid)
unfolding get_uid_from_user_line get_gid_from_user_line
get_ids-join out name password uid gid fields h u g =
    let all = name ∷ password ∷ num_to_str uid ∷ num_to_str gid ∷ fields in
    let second : get_str_at_lv (join all) 2 ≡ some (num_to_str uid) =
      get_str_at_lv-join all 2 h (omega arith) in
    let third : get_str_at_lv (join all) 3 ≡ some (num_to_str gid) =
      get_str_at_lv-join all 3 h (omega arith) in
    (
      rw (second, get_uid_from_user_line) (str_to_int-num_to_str uid (omega arith) (omega arith)),
      rw (third, get_gid_from_user_line) (str_to_int-num_to_str gid (omega arith) (omega arith)),
    )
