-- ===== src/Memory.antt =====
-- The block map of core/scheduler.h: one byte for each block of 4096 bytes, 0 where it is free,
-- and the searches for free blocks and free table slots. `memory_map` is the byte at each index
-- from the start of the map, also past its end. The kernel's own blocks end at `first`, which is
-- `(&end_kernel - HM) / 4096`, and `total` is `total_memory_blocks_count`. A `panic` is `none`.
pub mod FirstFit
pub mod Blocks
pub mod Count
mod Tests
use carrotos.Base.{
  ℕ, zero, suc, ◌+◌, ◌-◌, ◌*◌, ◌/◌, ◌%◌, ◌^◌, Bool, true, false, ◌&&◌, Option, none, some, ◌==◌,
  ltb, if◌then◌else◌,
}

abbrev pub MemoryMap : Type 0
MemoryMap = ℕ → ℕ

-- `set_memory_block_used_when_boot(index, used)`
unfoldable pub set_memory_block_used_when_boot : ℕ → Bool → MemoryMap → MemoryMap
set_memory_block_used_when_boot index used map q =
    if index == q then (if used then 1 else 0) else map q

unfoldable pub div_ceil : ℕ → ℕ → ℕ
div_ceil var_1 var_2 =
    let result = var_1 / var_2 in if ltb 0 (var_1 % var_2) then result + 1 else result

-- `free_block(block_addr)`
unfoldable pub free_block : ℕ → MemoryMap → MemoryMap
unfolding div_ceil set_memory_block_used_when_boot
free_block block_addr map = set_memory_block_used_when_boot (div_ceil block_addr 4096) false map

-- The loop of `get_a_free_block` with the rounds left and its `i`.
pub free_block_loop : MemoryMap → ℕ → ℕ → Option (ℕ × MemoryMap)
unfolding set_memory_block_used_when_boot
free_block_loop map zero i = none
free_block_loop map (suc k) i =
    let rest = free_block_loop map k (i + 1) in
    if map i == 0 then some (i, set_memory_block_used_when_boot i true map) else rest

unfoldable pub get_a_free_block : (first total : ℕ) → MemoryMap → Option (ℕ × MemoryMap)
unfolding free_block_loop
get_a_free_block first total map = free_block_loop map (total - first) first

-- Whether the blocks `i`, `i + 1` and so on, `length` of them, are free.
pub free_run : MemoryMap → ℕ → ℕ → Bool
free_run map i zero = true
free_run map i (suc length) = map i == 0 && free_run map (i + 1) length

pub mark_run : ℕ → ℕ → MemoryMap → MemoryMap
unfolding set_memory_block_used_when_boot
mark_run i zero map = map
mark_run i (suc length) map = mark_run (i + 1) length (set_memory_block_used_when_boot i true map)

pub continuous_loop : (length : ℕ) → MemoryMap → ℕ → ℕ → Option (ℕ × MemoryMap)
unfolding free_run mark_run
continuous_loop length map zero i = none
continuous_loop length map (suc k) i =
    let rest = continuous_loop length map k (i + 1) in
    if free_run map i length then some (i, mark_run i length map) else rest

unfoldable pub get_continuous_free_blocks :
    (first total length : ℕ) → MemoryMap → Option (ℕ × MemoryMap)
unfolding continuous_loop
get_continuous_free_blocks first total length map = continuous_loop length map (total - first) first

-- `for (i = start; i <= stop; i++)` over a table of pointers, 0 where the slot is free.
pub free_slot_loop : (table : ℕ → ℕ) → ℕ → ℕ → Option ℕ
free_slot_loop table zero i = none
free_slot_loop table (suc k) i =
    let rest = free_slot_loop table k (i + 1) in if table i == 0 then some i else rest

unfoldable pub get_a_free_slot : (table : ℕ → ℕ) → (start stop : ℕ) → Option ℕ
unfolding free_slot_loop
get_a_free_slot table start stop = free_slot_loop table (stop + 1 - start) start
