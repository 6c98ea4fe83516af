-- ===== src/Memory/Count.antt =====
-- How many blocks are free, and that a search finds one as long as there is one.
use carrotos.Base.{
  ℕ, zero, suc, ◌+◌, ◌-◌, ◌<◌, ◌≤◌, ◌≡◌, refl, sym, ap, ◌∙◌, true, false, Option, some, arith, ◌==◌,
  if◌then◌else◌, Bool-cases, inl, inr,
}
use carrotos.Memory.{MemoryMap, set_memory_block_used_when_boot, free_block_loop, get_a_free_block}

-- The free blocks among the `k` from `i` on.
unfoldable pub free_count : MemoryMap → ℕ → ℕ → ℕ
free_count map zero i = 0
free_count map (suc k) i = (if map i == 0 then 1 else 0) + free_count map k (i + 1)

free_count-before :
    (map : MemoryMap) (b k i : ℕ)
    → b < i
    → free_count (set_memory_block_used_when_boot b true map) k i ≡ free_count map k i
unfolding free_count set_memory_block_used_when_boot
free_count-before map b zero i h = refl
free_count-before map b (suc k) i h =
    let e : (b == i) ≡ false = ground arith in
    rw e (
      ap (λ n. (if map i == 0 then 1 else 0) + n) (free_count-before map b k (i + 1) (omega arith)))

module _ (map : MemoryMap) (k i : ℕ) where
  free_count-used : (map i == 0) ≡ false → free_count map (suc k) i ≡ free_count map k (i + 1)
  unfolding free_count
  free_count-used e = rw e (omega arith)

  free_count-free : (map i == 0) ≡ true → free_count map (suc k) i ≡ suc (free_count map k (i + 1))
  unfolding free_count
  free_count-free e = rw e (omega arith)

set-other :
    (b i : ℕ) (map : MemoryMap) → i < b → set_memory_block_used_when_boot b true map i ≡ map i
unfolding set_memory_block_used_when_boot
set-other b i map h = let e : (b == i) ≡ false = ground arith in rw e

set-here : (b : ℕ) (map : MemoryMap) → (set_memory_block_used_when_boot b true map b == 0) ≡ false
unfolding set_memory_block_used_when_boot
set-here b map = let e : (b == b) ≡ true = ground arith in rw e

no_block : (map : MemoryMap) (i n : ℕ) → free_count map 0 i ≡ suc n → ⊥
unfolding free_count
no_block map i n h = omega arith

-- What a search takes: one block from its place on, so that one fewer is free.
pub record Takes (map : MemoryMap) (k i n : ℕ) (found : Option (ℕ × MemoryMap)) : Type 0 where
  pub block : ℕ
  pub is : found ≡ some (block, set_memory_block_used_when_boot block true map)
  pub from : i ≤ block
  pub left : free_count (set_memory_block_used_when_boot block true map) k i ≡ n

free_block_loop-Takes :
    (map : MemoryMap) (k i n : ℕ)
    → free_count map k i ≡ suc n
    → Takes map k i n (free_block_loop map k i)
unfolding free_block_loop
free_block_loop-Takes map zero i n h = absurd (no_block map i n h)
free_block_loop-Takes map (suc k) i n h = elim (Bool-cases (map i == 0)) [
  | inl e ↦
      let taken = set_memory_block_used_when_boot i true map in
      rw e (record {
        block = i;
        is = refl;
        from = omega arith;
        left =
            free_count-used taken k i (set-here i map)
            ∙ free_count-before map i k (i + 1) (omega arith)
            ∙ omega (arith, h, free_count-free map k i e);
      })
  | inr e ↦
      let rest = free_block_loop-Takes map k (i + 1) n (sym (free_count-used map k i e) ∙ h) in
      let taken = set_memory_block_used_when_boot rest.block true map in
      let still : (taken i == 0) ≡ false =
        ap (λ m. m == 0) (set-other rest.block i map (omega (arith, rest.from))) ∙ e in
      rw e (record {
        block = rest.block;
        is = rest.is;
        from = omega (arith, rest.from);
        left = free_count-used taken k i still ∙ rest.left;
      })
]

-- With a free block left the search does not panic, and takes one.
pub get_a_free_block-Takes :
    (first total n : ℕ) (map : MemoryMap)
    → free_count map (total - first) first ≡ suc n
    → Takes map (total - first) first n (get_a_free_block first total map)
unfolding get_a_free_block
get_a_free_block-Takes first total n map h = free_block_loop-Takes map (total - first) first n h
