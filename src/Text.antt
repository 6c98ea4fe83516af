-- ===== src/Text.antt =====
-- The string routines of libs/string/string.h. A string is the list of its characters up to, and
-- without, the NUL that ends it, each a byte; what a routine stores through `dest` or `buf` is such
-- a list, too. A 64-bit signed number is the word of its bits.
pub mod Number
pub mod Compare
mod Tests
use carrotos.Base.{
  ℕ, zero, suc, ◌+◌, ◌-◌, ◌*◌, ◌/◌, ◌%◌, ◌^◌, Bool, true, false, ◌&&◌, not, List, [], ◌∷◌, ◌++◌,
  Option, none, some, ◌==◌, ltb, if◌then◌else◌, length, take, drop,
}

abbrev pub Text : Type 0
Text = List ℕ

-- `-1` as a 64-bit word.
abbrev pub minus_one : ℕ
minus_one = 2 ^ 64 - 1

unfoldable pub strlen : Text → ℕ
strlen [] = 0
strlen (c ∷ s) = strlen s + 1

-- `dest` is the whole string afterwards.
unfoldable pub strcat : Text → Text → Text
strcat dest src = dest ++ src

unfoldable pub strconcat : Text → Text → Text
strconcat s1 s2 = s1 ++ s2

-- `(unsigned char)(*s1) == (unsigned char)(*s2)` where the loop stops.
unfoldable pub strcmp : Text → Text → Bool
strcmp [] [] = true
strcmp [] (d ∷ t) = 0 == d
strcmp (c ∷ s) [] = c == 0
strcmp (c ∷ s) (d ∷ t) = let rest = strcmp s t in if c == d then rest else false

unfoldable pub strequal : Text → Text → Bool
unfolding strcmp
strequal s1 s2 = strcmp s1 s2

-- The loop of `strpos` from an index on; `-1` where the character is not found.
unfoldable pub strpos_loop : Text → ℕ → ℕ → ℕ
strpos_loop [] c index = minus_one
strpos_loop (d ∷ s) c index =
    let rest = strpos_loop s c (index + 1) in if d == c then index else rest

unfoldable pub strpos : Text → ℕ → ℕ
unfolding strpos_loop
strpos s c = strpos_loop s c 0

-- The two loops of `substr`: past `start` characters, then at most `len`.
unfoldable pub skip_loop : Text → ℕ → Text
skip_loop s zero = s
skip_loop [] (suc start) = []
skip_loop (c ∷ s) (suc start) = skip_loop s start

unfoldable pub copy_loop : Text → ℕ → Text
copy_loop s zero = []
copy_loop [] (suc len) = []
copy_loop (c ∷ s) (suc len) = c ∷ copy_loop s len

unfoldable pub substr : Text → ℕ → ℕ → Text
unfolding skip_loop copy_loop
substr src start len = copy_loop (skip_loop src start) len

-- The digits of `num`, with the rounds left, pushed on `tmp`, whose last character comes first:
-- the order in which they are copied to `buf`.
unfoldable pub digits_loop : ℕ → ℕ → Text → Text
digits_loop zero num tmp = tmp
digits_loop (suc k) num tmp =
    let rest = digits_loop k (num / 10) ((48 + num % 10) ∷ tmp) in if num == 0 then tmp else rest

-- `num > 0` of a signed number: the loop does not run on the least number, which is its own
-- negation.
unfoldable pub positive_digits : ℕ → Text
unfolding digits_loop
positive_digits num = if ltb num (2 ^ 63) then digits_loop 20 num [] else []

unfoldable pub num_to_str : ℕ → Text
unfolding positive_digits
num_to_str num =
    if num == 0
    then 48 ∷ []
    else if ltb num (2 ^ 63)
    then positive_digits num
    else 45 ∷ positive_digits ((2 ^ 64 - num) % 2 ^ 64)

-- `res = res * 10 + (*str - '0')` up to the end of the string, for characters below 128: the source's
-- are signed.
unfoldable pub parse_loop : ℕ → Text → ℕ
parse_loop res [] = res
parse_loop res (c ∷ s) = parse_loop ((res * 10 + c + (2 ^ 64 - 48)) % 2 ^ 64) s

unfoldable pub negative : ℕ → ℕ
negative res = (2 ^ 64 - res) % 2 ^ 64

unfoldable pub str_to_int : Text → ℕ
unfolding parse_loop negative
str_to_int [] = 0
str_to_int (c ∷ s) = if c == 45 then negative (parse_loop 0 s) else parse_loop 0 (c ∷ s)
