-- ===== src/Fat32/Name.antt =====
-- Names and paths of fat32.h and filesystem.h: the eleven bytes of a directory entry's name, the
-- parts of a path. A path is the list of its characters; a name under construction is a buffer.
use carrotos.Base.{
  ℕ, zero, suc, ◌+◌, ◌-◌, Bool, true, false, ◌&&◌, ◌||◌, not, Option, none, some, List, [], ◌∷◌,
  ◌==◌, leb, ltb, if◌then◌else◌, take, drop,
}
use carrotos.Text.{Text}
use carrotos.Fat32.Disk.{Buf, put_byte}

abbrev pub slash : ℕ
slash = 47

abbrev pub dot : ℕ
dot = 46

abbrev pub space : ℕ
space = 32

unfoldable pub toupper : ℕ → ℕ
toupper c = if leb 97 c && leb c 122 then c - 32 else c

-- The index at which `strchr` stops, from the index `i` on; the NUL at the end is found, too.
unfoldable pub strchr_from : Text → ℕ → ℕ → Option ℕ
strchr_from [] c i = if c == 0 then some i else none
strchr_from (x ∷ s) c i = let rest = strchr_from s c (i + 1) in if x == c then some i else rest

unfoldable pub strchr : Text → ℕ → Option ℕ
unfolding strchr_from
strchr s c = strchr_from s c 0

unfoldable pub is_at : Option ℕ → ℕ → Bool
is_at none i = false
is_at (some k) i = i == k

-- The first loop of `format_name_83`: up to the dot, eight characters at most.
unfoldable pub format_base : Text → Option ℕ → ℕ → Buf → Buf
unfolding is_at put_byte toupper
format_base [] dot_at i dest = dest
format_base (c ∷ s) dot_at i dest =
    let rest = format_base s dot_at (i + 1) (put_byte dest i (toupper c)) in
    if is_at dot_at i || leb 8 i then dest else rest

-- The second: what follows the dot, up to the eleventh byte.
unfoldable pub format_ext : Text → ℕ → Buf → Buf
unfolding put_byte toupper
format_ext [] i dest = dest
format_ext (c ∷ s) i dest =
    let rest = format_ext s (i + 1) (put_byte dest i (toupper c)) in if ltb i 11 then rest else dest

unfoldable pub format_after : Text → Option ℕ → Buf → Buf
unfolding format_ext
format_after src none dest = dest
format_after src (some k) dest = format_ext (drop (k + 1) src) 8 dest

-- Eleven bytes, blanks where the name has none.
unfoldable pub format_name_83 : Text → Buf
unfolding strchr format_base format_after
format_name_83 src =
    let dot_at = strchr src dot in format_after src dot_at (format_base src dot_at 0 (λ i. space))

-- `memcmp(a + i, b + j, n) == 0`
unfoldable pub same_bytes : ℕ → Buf → ℕ → Buf → ℕ → Bool
same_bytes zero a i b j = true
same_bytes (suc n) a i b j =
    let rest = same_bytes n a (i + 1) b (j + 1) in if a i == b j then rest else false

-- The first loop of `match_name`, `n` turns before `i` is 8: where it stops, and what it wrote.
unfoldable pub match_base : ℕ → Buf → ℕ → Buf → ℕ × Buf
unfolding put_byte toupper
match_base zero path_name i formatted = (i, formatted)
match_base (suc n) path_name i formatted =
    let rest = match_base n path_name (i + 1) (put_byte formatted i (toupper (path_name i))) in
    if not (path_name i == 0) && not (path_name i == dot) then rest else (i, formatted)

unfoldable pub match_ext : ℕ → Buf → (j i : ℕ) → Buf → Buf
unfolding put_byte toupper
match_ext zero path_name j i formatted = formatted
match_ext (suc n) path_name j i formatted =
    let rest =
      match_ext n path_name (j + 1) (i + 1) (put_byte formatted i (toupper (path_name j))) in
    if not (path_name j == 0) then rest else formatted

-- The name that `match_name` makes of a path's part.
unfoldable pub match_form : Buf → Buf
unfolding match_base match_ext
match_form path_name =
    let (i, formatted) = match_base 8 path_name 0 (λ i. space) in
    if path_name i == dot then match_ext 3 path_name (i + 1) 8 formatted else formatted

-- Whether a part of a path names the entry that begins at `at` of a buffer.
unfoldable pub match_name : Buf → Buf → ℕ → Bool
unfolding match_form same_bytes
match_name path_name entries at = same_bytes 11 entries at (match_form path_name) 0

-- How `split_n` leaves its loop.
pub record Split : Type 0 where
  pub count_delim : ℕ
  pub stored : ℕ
  pub result : Buf
  pub fits : Bool

unfoldable pub split_loop : Text → (delim index result_size : ℕ) → ℕ → ℕ → Buf → Split
unfolding put_byte
split_loop [] delim index result_size count j result = record {
  count_delim = count;
  stored = j;
  result = result;
  fits = true;
}
split_loop (c ∷ s) delim index result_size count j result =
    let counted = split_loop s delim index result_size (count + 1) j result in
    let kept = split_loop s delim index result_size count (j + 1) (put_byte result j c) in
    let skipped = split_loop s delim index result_size count j result in
    if c == delim
    then if ltb index (count + 1)
      then record { count_delim = count + 1; stored = j; result = result; fits = true }
      else counted
    else if count == index
    then if leb result_size (j + 1)
      then record { count_delim = count; stored = j; result = result; fits = false }
      else kept
    else skipped

-- The part number `index` of a string; a part that is too long is stored without a NUL.
unfoldable pub split_n : Text → (delim index : ℕ) → Buf → (result_size : ℕ) → Bool × Buf
unfolding split_loop put_byte
split_n str delim index result result_size =
    let s = split_loop str delim index result_size 0 0 result in
    if not s.fits
    then (false, s.result)
    else if ltb s.count_delim index
    then (false, put_byte s.result 0 0)
    else (true, put_byte s.result s.stored 0)

-- The index of the last slash, 0 if there is none: the loop that the routines on paths share.
unfoldable pub last_slash_from : Text → (i last : ℕ) → ℕ
last_slash_from [] i last = last
last_slash_from (c ∷ s) i last = last_slash_from s (i + 1) (if c == slash then i else last)

unfoldable pub last_slash_pos : Text → ℕ
unfolding last_slash_from
last_slash_pos path = last_slash_from path 0 0

unfoldable pub or_root : Text → Text
or_root [] = slash ∷ []
or_root (c ∷ s) = c ∷ s

-- The path of the directory, "/" if nothing stands before the last slash, and the name in it.
unfoldable pub parent_path_of : Text → Text
unfolding last_slash_pos or_root
parent_path_of path = or_root (take (last_slash_pos path) path)

unfoldable pub name_without_path : Text → Text
unfolding last_slash_pos
name_without_path path = drop (last_slash_pos path + 1) path

-- The parts of a path, each with whether a slash follows it.
unfoldable pub push_char : ℕ → List (Text × Bool) → List (Text × Bool)
push_char c [] = (c ∷ [], false) ∷ []
push_char c ((t, more) ∷ ts) = (c ∷ t, more) ∷ ts

unfoldable pub tokens : Text → List (Text × Bool)
unfolding push_char
tokens [] = []
tokens (c ∷ s) = let rest = tokens s in if c == slash then ([], true) ∷ rest else push_char c rest
