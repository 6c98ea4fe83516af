-- ===== src/Text/Tests.antt =====
-- Runs of the string routines.
use carrotos.Base.{◌-◌, ◌^◌, ◌≡◌, refl, [], ◌∷◌, arith}
use carrotos.Text.{Text, num_to_str, str_to_int}
use carrotos.Text.Number.{str_to_int-num_to_str}

-- "a:b"
abbrev line : Text
line = 97 ∷ 58 ∷ 98 ∷ []

print_minus_42 : num_to_str (2 ^ 64 - 42) ≡ 45 ∷ 52 ∷ 50 ∷ []
unfolding num_to_str
print_minus_42 = refl

-- The least number is printed as its sign alone.
print_least : num_to_str (2 ^ 63) ≡ 45 ∷ []
unfolding num_to_str
print_least = refl

str_to_int-num_to_str_example : str_to_int (num_to_str (2 ^ 64 - 42)) ≡ 2 ^ 64 - 42
str_to_int-num_to_str_example = str_to_int-num_to_str (2 ^ 64 - 42) (omega arith) (omega arith)
