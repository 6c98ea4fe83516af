-- ===== src/Base/Slots.antt =====
-- Tables of pointers that may be null: the entry at an index, a store, and the first free entry.
use Prim.Native.Nat.{ℕ, zero, suc, ◌+◌, ◌<◌}
use mathlib.Core.Path.{◌≡◌, refl}
use mathlib.Core.Logic.{◌≢◌, inl, inr}
use mathlib.Core.Bool.{Bool, true}
use mathlib.Core.List.{List, [], ◌∷◌}
use mathlib.Core.Option.{Option, none, some}
use native.Mathlib.Omega.{arith}
use carrotos.Base.Tests.{if◌then◌else◌, Bool-cases}
use carrotos.Base.Lists.{length, get_or, set, get_or-set_self, get_or-set_ne}

module _ {ℓ} {A : Type ℓ} where
  -- Past the end of the table there is nothing.
  abbrev pub slot_at : List (Option A) → ℕ → Option A
  slot_at xs i = get_or xs i none

  abbrev pub put_slot : List (Option A) → ℕ → A → List (Option A)
  put_slot xs i a = set xs i (some a)

  abbrev pub clear : List (Option A) → ℕ → List (Option A)
  clear xs i = set xs i none

  abbrev pub put_first : A → Option (List (Option A)) → Option (List (Option A))
  put_first a none = none
  put_first a (some xs) = some (some a ∷ xs)

  -- The index of the first null pointer, counted from `i` on.
  unfoldable pub free_slot : List (Option A) → ℕ → Option ℕ
  free_slot [] i = none
  free_slot (none ∷ xs) i = some i
  free_slot (some a ∷ xs) i = free_slot xs (i + 1)

  -- The index of the first entry that is there and passes the test.
  unfoldable pub find_slot : (A → Bool) → List (Option A) → ℕ → Option ℕ
  find_slot test [] i = none
  find_slot test (none ∷ xs) i = find_slot test xs (i + 1)
  find_slot test (some a ∷ xs) i =
      let rest = find_slot test xs (i + 1) in if test a then some i else rest

  -- A search that follows the pointers without a test for null: the index, none, or a fault.
  unfoldable pub find_strict : (A → Bool) → List (Option A) → ℕ → Option (Option ℕ)
  find_strict test [] i = some none
  find_strict test (none ∷ xs) i = none
  find_strict test (some a ∷ xs) i =
      let rest = find_strict test xs (i + 1) in if test a then some (some i) else rest

  -- A loop that changes every entry, and follows the pointers without a test for null.
  unfoldable pub each_strict : (A → A) → List (Option A) → Option (List (Option A))
  each_strict f [] = some []
  each_strict f (none ∷ xs) = none
  each_strict f (some a ∷ xs) = put_first (f a) (each_strict f xs)

  pub slot_at-lt : (xs : List (Option A)) (i : ℕ) {a : A} → slot_at xs i ≡ some a → i < length xs
  slot_at-lt [] i h = cc
  slot_at-lt (x ∷ xs) zero h = omega arith
  slot_at-lt (x ∷ xs) (suc i) h = omega (arith, slot_at-lt xs i h)

  -- The table after a store, at the index and elsewhere.
  pub slot_at-put_self :
      (xs : List (Option A)) (i : ℕ) (a : A) → i < length xs → slot_at (put_slot xs i a) i ≡ some a
  slot_at-put_self xs i a h = get_or-set_self xs i (some a) none h

  pub slot_at-put_ne :
      (xs : List (Option A)) {i j : ℕ} (a : A) → i ≢ j → slot_at (put_slot xs i a) j ≡ slot_at xs j
  slot_at-put_ne xs a h = get_or-set_ne xs (some a) none h

  -- The first free entry is in the table, and free.
  pub free_slot_free :
      (xs : List (Option A)) (i : ℕ) {f : ℕ}
      → free_slot xs i ≡ some f
      → (k : ℕ) × (f ≡ i + k) × (k < length xs) × (slot_at xs k ≡ none)
  unfolding free_slot
  free_slot_free [] i h = cc
  free_slot_free (none ∷ xs) i h = (0, ground arith, omega arith, refl)
  free_slot_free (some a ∷ xs) i h =
      let (k, e, inside, empty) = free_slot_free xs (i + 1) h in
      (suc k, omega arith, omega arith, empty)

  -- The entry that a search comes to is there and passes the test.
  pub find_slot_found :
      (test : A → Bool) (xs : List (Option A)) (i : ℕ) {f : ℕ}
      → find_slot test xs i ≡ some f
      → (k : ℕ) × (a : A) × (f ≡ i + k) × (slot_at xs k ≡ some a) × (test a ≡ true)
  unfolding find_slot
  find_slot_found test [] i h = cc
  find_slot_found test (none ∷ xs) i h =
      let (k, a, e, there, passes) = find_slot_found test xs (i + 1) h in
      (suc k, a, omega arith, there, passes)
  find_slot_found test (some a ∷ xs) i h = elim (Bool-cases (test a)) [
    | inl yes_ ↦ (0, a, ground arith, refl, yes_)
    | inr no_ ↦
        let rest : find_slot test xs (i + 1) ≡ some _ = rw no_ at h in
        let (k, b, e, there, passes) = find_slot_found test xs (i + 1) rest in
        (suc k, b, omega arith, there, passes)
  ]

  -- A store in an entry that is taken leaves the first free entry where it was.
  pub free_slot-put :
      (xs : List (Option A)) (c i : ℕ) {b : A} (a : A)
      → slot_at xs c ≡ some b
      → free_slot (put_slot xs c a) i ≡ free_slot xs i
  unfolding free_slot
  free_slot-put [] c i a h = refl
  free_slot-put (none ∷ xs) zero i a h = cc
  free_slot-put (some b ∷ xs) zero i a h = refl
  free_slot-put (none ∷ xs) (suc c) i a h = refl
  free_slot-put (some b ∷ xs) (suc c) i a h = free_slot-put xs c (i + 1) a h
