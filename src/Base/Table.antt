-- ===== src/Base/Table.antt =====
-- Equations between two functions on the numbers below a bound, by evaluation of both.
use Prim.Native.Nat.{ℕ, zero, suc, ◌<◌}
use mathlib.Core.Path.{◌≡◌}
use mathlib.Core.Bool.{Bool, true, ◌&&◌}
use native.Mathlib.Omega.{arith}
use native.Mathlib.Decide.{dec_lt}
use carrotos.Base.Tests.{◌==◌}

-- The values at `n - 1`, `n - 2` and so on down to 0 are compared.
unfoldable pub same_values : (f g : ℕ → ℕ) → ℕ → Bool
same_values f g zero = true
same_values f g (suc n) = same_values f g n && f n == g n

-- Two functions that the table shows to agree.
pub agree_below :
    (bound : ℕ) (f g : ℕ → ℕ) → same_values f g bound ≡ true → (v : ℕ) → v < bound → f v ≡ g v
unfolding same_values
agree_below zero f g table v inside = absurd (omega arith)
agree_below (suc n) f g table v inside = elim (dec_lt v n) [
  | yes earlier ↦
      let rest : same_values f g n ≡ true = ground arith in agree_below n f g rest v earlier
  | no last ↦ let here : v ≡ n = omega arith in let same : f n ≡ g n = ground arith in rw here same
]
