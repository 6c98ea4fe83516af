-- ===== src/Paging/Tests.antt =====
-- Mapping one address of a process whose top table is empty.
use carrotos.Base.{
  ℕ, ◌+◌, ◌*◌, ◌-◌, ◌≡◌, refl, true, false, Option, none, some, arith, if◌then◌else◌, ltb,
}
use carrotos.Memory.{get_a_free_block}
use carrotos.Paging.{
  Paging, hm, is_paged, increase_paging_of_process_with_virt_addr,
  decrease_paging_of_process_with_virt_addr,
}
use carrotos.Paging.Shrink.{decrease_paging-is_paged}
use carrotos.Paging.Keep.{Owned, Keeps}
use carrotos.Paging.Step.{absent}
use carrotos.Paging.Enough.{increase_paging_maps}
use carrotos.Memory.Count.{free_count}

-- Blocks 0 to 5 are in use; the top table of every process is in block 5.
abbrev empty : Paging
empty = record {
  line = λ t i. 0;
  memory_map = λ b. if ltb b 6 then 1 else 0;
  cr3 = λ pid. 5 * 4096 + hm;
}

empty-Owned : Owned empty (5 * 4096 + hm)
empty-Owned = record { block = 5; at = refl; fits = omega arith; used = omega arith }

-- The state after mapping an address: the four blocks from 6 on are taken.
abbrev mapped : Option (ℕ × Paging)
mapped = increase_paging_of_process_with_virt_addr 2 32 77 empty 1 0x401000

state_of : Option (ℕ × Paging) → Paging
state_of none = empty
state_of (some (r, st)) = st

mapped-some : mapped ≡ some (9 * 4096, state_of mapped)
unfolding increase_paging_of_process_with_virt_addr get_a_free_block state_of
mapped-some = refl

four_free : free_count empty.memory_map (32 - 2) 2 ≡ 26
unfolding free_count
four_free = refl

increase_paging_maps_example :
    (r : ℕ) × (st : Paging) × (increase_paging_of_process_with_virt_addr 2 32 77 empty 1 0x401000
      ≡ some (r, st))
    × (is_paged st 1 0x401000 ≡ true)
    × Keeps empty st
increase_paging_maps_example =
    increase_paging_maps 2 32 77 empty 1 0x401000 (omega arith) (omega arith)
      (omega (arith, four_free)) empty-Owned (absent refl)

decrease_paging-is_paged_example :
    is_paged (decrease_paging_of_process_with_virt_addr (state_of mapped) 1 0x401000) 1 0x401000
    ≡ false
decrease_paging-is_paged_example = decrease_paging-is_paged (state_of mapped) 1 0x401000
