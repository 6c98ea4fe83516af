-- ===== src/Memory/Blocks.antt =====
-- What the searches of the block map hand out.
use carrotos.Base.{
  ℕ, zero, suc, ◌+◌, ◌-◌, ◌<◌, ◌≤◌, ◌≡◌, ◌≢◌, refl, ◌∙◌, ◌⊎◌, true, false, ◌&&◌, Option, none, some,
  arith, ◌==◌, leb, ltb, dec_lt, max, if◌then◌else◌, Bool-cases, inl, inr,
}
use mathlib.Core.Path.{subst}
use carrotos.Memory.{
  MemoryMap, set_memory_block_used_when_boot, free_block_loop, get_a_free_block, free_run, mark_run,
  continuous_loop, get_continuous_free_blocks, free_slot_loop, get_a_free_slot,
}
use carrotos.Memory.FirstFit.{FirstFit, nowhere, found_at, find_from, find_from-FirstFit}

-- Block `q` is one of the `length` blocks from `r` on.
abbrev pub Within : ℕ → ℕ → ℕ → Type 0
Within r length q = (r ≤ q) × (q < r + length)

free_run-free :
    (map : MemoryMap) (i length : ℕ)
    → free_run map i length ≡ true
    → (q : ℕ) → Within i length q
    → map q ≡ 0
unfolding free_run
free_run-free map i zero h q w = absurd (omega arith)
free_run-free map i (suc length) h q w = elim (dec_lt i q) [
  | yes past ↦
      let rest : free_run map (i + 1) length ≡ true = ground arith in
      free_run-free map (i + 1) length rest q (omega arith)
  | no there ↦ let e : q ≡ i = omega arith in rw e (ground arith)
]

-- A run that is not free has a block in use.
free_run-used :
    (map : MemoryMap) (i length : ℕ)
    → free_run map i length ≡ false
    → (q : ℕ) × Within i length q × (map q ≢ 0)
unfolding free_run
free_run-used map i zero h = cc
free_run-used map i (suc length) h = elim (Bool-cases (map i == 0)) [
  | inr used ↦ (i, omega arith, ground arith)
  | inl free ↦
      let rest : free_run map (i + 1) length ≡ false = ground arith in
      let (q, w, ne) = free_run-used map (i + 1) length rest in (q, omega arith, ne)
]

mark_run-at :
    (i length : ℕ) (map : MemoryMap) (q : ℕ)
    → mark_run i length map q ≡ (if leb i q && ltb q (i + length) then 1 else map q)
unfolding mark_run set_memory_block_used_when_boot
mark_run-at i zero map q = ground arith
mark_run-at i (suc length) map q =
    mark_run-at (i + 1) length (set_memory_block_used_when_boot i true map) q ∙ ground arith

-- What a search for `length` blocks in a row, beginning from `lo` on and before `hi`, hands out.
pub data Allocates (map : MemoryMap) (lo hi length : ℕ) : Option (ℕ × MemoryMap) → Type 0 where
  exhausted :
      ((i : ℕ) → lo ≤ i → i < hi → (q : ℕ) × Within i length q × (map q ≢ 0))
      → Allocates map lo hi length none
  granted :
      {map' : MemoryMap} (r : ℕ)
      → lo ≤ r
      → r < hi
      → ((q : ℕ) → Within r length q → map q ≡ 0)
      → ((i : ℕ) → lo ≤ i → i < r → (q : ℕ) × Within i length q × (map q ≢ 0))
      → ((q : ℕ) → map' q ≡ (if leb r q && ltb q (r + length) then 1 else map q))
      → Allocates map lo hi length (some (r, map'))

attach : (ℕ → MemoryMap) → Option ℕ → Option (ℕ × MemoryMap)
attach g none = none
attach g (some r) = some (r, g r)

module _ (map : MemoryMap) (length : ℕ) where
  continuous_loop-attach :
      (k i : ℕ)
      → continuous_loop length map k i
        ≡ attach (λ r. mark_run r length map) (find_from (λ r. free_run map r length) k i)
  unfolding continuous_loop find_from attach
  continuous_loop-attach zero i = refl
  continuous_loop-attach (suc k) i = elim (Bool-cases (free_run map i length)) [
    | inl e ↦ rw e
    | inr e ↦ rw e (continuous_loop-attach k (i + 1))
  ]

  attach-Allocates :
      (lo hi : ℕ) {r : Option ℕ}
      → FirstFit (λ r. free_run map r length) lo hi r
      → Allocates map lo hi length (attach (λ r. mark_run r length map) r)
  unfolding attach
  attach-Allocates lo hi (nowhere all) =
      exhausted (λ i ge lt. free_run-used map i length (all i ge lt))
  attach-Allocates lo hi (found_at r ge lt hit before) =
      granted r ge lt (free_run-free map r length hit)
        (λ i from to. free_run-used map i length (before i from to)) (mark_run-at r length map)

-- `get_continuous_free_blocks` hands out the first place below the end of memory from which
-- `length` blocks in a row are free, and marks exactly these as used; it panics only where there
-- is none. (The kernel ends within memory.)
pub get_continuous_free_blocks-Allocates :
    (first total length : ℕ) (map : MemoryMap)
    → first ≤ total
    → Allocates map first total length (get_continuous_free_blocks first total length map)
unfolding get_continuous_free_blocks
get_continuous_free_blocks-Allocates first total length map h =
    rw (continuous_loop-attach map length (total - first) first) (
      attach-Allocates map length first total
        (find_from-FirstFit (λ r. free_run map r length) (total - first) first total (omega arith)))

-- One block is a run of length 1.
free_block_loop-one :
    (map : MemoryMap) (k i : ℕ) → free_block_loop map k i ≡ continuous_loop 1 map k i
unfolding free_block_loop continuous_loop free_run mark_run
free_block_loop-one map zero i = refl
free_block_loop-one map (suc k) i = elim (Bool-cases (map i == 0)) [
  | inl e ↦ rw e
  | inr e ↦ rw e (free_block_loop-one map k (i + 1))
]

-- `get_a_free_block` hands out the first free block below the end of memory and marks exactly that
-- one as used; it panics only where every block is in use. (The kernel ends within memory.)
pub get_a_free_block-Allocates :
    (first total : ℕ) (map : MemoryMap)
    → first ≤ total
    → Allocates map first total 1 (get_a_free_block first total map)
unfolding get_a_free_block get_continuous_free_blocks
get_a_free_block-Allocates first total map h =
    rw (free_block_loop-one map (total - first) first)
      (get_continuous_free_blocks-Allocates first total 1 map h)

granted_used :
    {map map' : MemoryMap} {lo hi n r : ℕ}
    → Allocates map lo hi n (some (r, map'))
    → (q : ℕ) → Within r n q
    → map' q ≡ 1
granted_used (granted r ge lt free before marks) q w = marks q ∙ ground arith

granted_free :
    {map map' : MemoryMap} {lo hi n r : ℕ}
    → Allocates map lo hi n (some (r, map'))
    → (q : ℕ) → Within r n q
    → map q ≡ 0
granted_free (granted r ge lt free before marks) q w = free q w

no_common_block :
    (first total n m : ℕ) (map : MemoryMap) {r s : ℕ} {map' map'' : MemoryMap}
    → first ≤ total
    → get_continuous_free_blocks first total n map ≡ some (r, map')
    → get_continuous_free_blocks first total m map' ≡ some (s, map'')
    → (q : ℕ) → Within r n q
    → Within s m q
    → ⊥
no_common_block first total n m map {r} {map'} h e f q w v =
    let taken : Allocates map first total n (some (r, map')) =
      subst (Allocates map first total n) e
        (get_continuous_free_blocks-Allocates first total n map h) in
    let free_then =
      subst (Allocates map' first total m) f
        (get_continuous_free_blocks-Allocates first total m map' h) in
    let used : map' q ≡ 1 = granted_used taken q w in
    let unused : map' q ≡ 0 = granted_free free_then q v in omega arith

-- Two runs of blocks handed out one after the other, with none given back in between, lie apart:
-- one ends before the other begins. (Neither is empty, and the kernel ends within memory.)
pub get_continuous_free_blocks_disjoint :
    (first total n m : ℕ) (map : MemoryMap) {r s : ℕ} {map' map'' : MemoryMap}
    → first ≤ total
    → 0 < n
    → 0 < m
    → get_continuous_free_blocks first total n map ≡ some (r, map')
    → get_continuous_free_blocks first total m map' ≡ some (s, map'')
    → (r + n ≤ s) ⊎ (s + m ≤ r)
get_continuous_free_blocks_disjoint first total n m map {r} {s} h pos pos' e f =
    elim (dec_lt s (r + n)) [
      | no apart ↦ inl (omega arith)
      | yes before_end ↦ elim (dec_lt r (s + m)) [
        | no apart ↦ inr (omega arith)
        | yes meets ↦
            absurd (no_common_block first total n m map h e f (max r s) (omega arith) (omega arith))
      ]
    ]

slot_loop-find :
    (table : ℕ → ℕ) (k i : ℕ) → free_slot_loop table k i ≡ find_from (λ j. table j == 0) k i
unfolding free_slot_loop find_from
slot_loop-find table zero i = refl
slot_loop-find table (suc k) i = elim (Bool-cases (table i == 0)) [
  | inl e ↦ rw e
  | inr e ↦ rw e (slot_loop-find table k (i + 1))
]

-- `get_a_free_slot` returns the first free slot from `start` on, up to a `stop` no less and with
-- `stop` itself included: called with
-- the size of a table, as the registration of threads and of processes does, it also looks at the
-- word behind the table.
pub get_a_free_slot-FirstFit :
    (table : ℕ → ℕ) (start stop : ℕ)
    → start ≤ stop
    → FirstFit (λ i. table i == 0) start (stop + 1) (get_a_free_slot table start stop)
unfolding get_a_free_slot
get_a_free_slot-FirstFit table start stop h =
    rw (slot_loop-find table (stop + 1 - start) start)
      (find_from-FirstFit (λ i. table i == 0) (stop + 1 - start) start (stop + 1) (omega arith))
