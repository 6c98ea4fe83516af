-- ===== src/Memory/Tests.antt =====
-- Runs of the searches on a small block map.
use carrotos.Base.{◌≡◌, refl, some, arith, get_or, [], ◌∷◌}
use carrotos.Memory.{
  MemoryMap, get_continuous_free_blocks, get_a_free_slot, mark_run, set_memory_block_used_when_boot,
}
use carrotos.Memory.Blocks.{Allocates, get_continuous_free_blocks-Allocates}

-- Blocks 0, 1 and 3 are in use.
abbrev blocks : MemoryMap
blocks i = get_or (1 ∷ 1 ∷ 0 ∷ 1 ∷ []) i 0

abbrev after_two : MemoryMap
after_two = mark_run 4 2 blocks

two_in_a_row : get_continuous_free_blocks 1 9 2 blocks ≡ some (4, after_two)
unfolding get_continuous_free_blocks
two_in_a_row = refl

then_one : get_continuous_free_blocks 1 9 1 after_two ≡ some (2, mark_run 2 1 after_two)
unfolding get_continuous_free_blocks mark_run set_memory_block_used_when_boot
then_one = refl

-- A table of two slots is full, and the free word behind it is returned.
one_past_the_table : get_a_free_slot blocks 0 2 ≡ some 2
unfolding get_a_free_slot
one_past_the_table = refl

get_continuous_free_blocks-Allocates_example :
    Allocates blocks 1 9 2 (get_continuous_free_blocks 1 9 2 blocks)
get_continuous_free_blocks-Allocates_example =
    get_continuous_free_blocks-Allocates 1 9 2 blocks (omega arith)
