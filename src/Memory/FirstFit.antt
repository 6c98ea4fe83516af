-- ===== src/Memory/FirstFit.antt =====
-- The first index of a range that passes a test: what the three searches compute.
use carrotos.Base.{
  ℕ, zero, suc, ◌+◌, ◌<◌, ◌≤◌, ◌≡◌, Bool, true, false, Option, none, some, arith, dec_lt,
  if◌then◌else◌, Bool-cases, inl, inr,
}

-- The first index from `lo` up to below `hi` that passes the test, or none if no index does.
pub data FirstFit (p : ℕ → Bool) (lo hi : ℕ) : Option ℕ → Type 0 where
  nowhere : ((i : ℕ) → lo ≤ i → i < hi → p i ≡ false) → FirstFit p lo hi none
  found_at :
      (r : ℕ)
      → lo ≤ r
      → r < hi
      → p r ≡ true
      → ((i : ℕ) → lo ≤ i → i < r → p i ≡ false)
      → FirstFit p lo hi (some r)

-- The search of `k` indices from `i` on.
unfoldable pub find_from : (ℕ → Bool) → ℕ → ℕ → Option ℕ
find_from p zero i = none
find_from p (suc k) i = let rest = find_from p k (i + 1) in if p i then some i else rest

module _ (p : ℕ → Bool) (lo : ℕ) (miss : p lo ≡ false) where
  misses :
      (hi : ℕ)
      → ((i : ℕ) → lo + 1 ≤ i → i < hi → p i ≡ false)
      → (i : ℕ) → lo ≤ i
      → i < hi
      → p i ≡ false
  misses hi rest i ge lt = elim (dec_lt lo i) [
    | yes past ↦ rest i (omega arith) lt
    | no there ↦ let e : i ≡ lo = omega arith in rw e miss
  ]

  widen : {hi : ℕ} {r : Option ℕ} → FirstFit p (lo + 1) hi r → FirstFit p lo hi r
  widen {hi} (nowhere all) = nowhere (misses hi all)
  widen (found_at r ge lt hit before) = found_at r (omega arith) lt hit (misses r before)

pub find_from-FirstFit :
    (p : ℕ → Bool) (k i hi : ℕ) → i + k ≡ hi → FirstFit p i hi (find_from p k i)
unfolding find_from
find_from-FirstFit p zero i hi e = nowhere (λ j ge lt. absurd (omega arith))
find_from-FirstFit p (suc k) i hi e = elim (Bool-cases (p i)) [
  | inl hit ↦ rw hit (found_at i (omega arith) (omega arith) hit (λ j ge lt. absurd (omega arith)))
  | inr miss ↦ rw miss (widen p i miss (find_from-FirstFit p k (i + 1) hi (omega arith)))
]
