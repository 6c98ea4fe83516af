-- ===== src/Paging/Enough.antt =====
-- Four free blocks are enough to map an address.
use carrotos.Base.{
  ℕ, suc, ◌+◌, ◌-◌, ◌*◌, ◌%◌, ◌^◌, ◌≤◌, ◌≡◌, refl, sym, ap, true, Option, some, arith, ℕ_discrete,
}
use mathlib.Core.Path.{subst}
use carrotos.Memory.{MemoryMap, set_memory_block_used_when_boot}
use carrotos.Memory.Count.{free_count, get_a_free_block-Takes}
use carrotos.Paging.{
  Paging, hm, index_at, is_paged, page_line_to_addr, block_to_addr, get_a_free_block_addr,
  with_block, new_block, new_table, next_table, next_block, after_step,
  increase_paging_of_process_with_virt_addr,
}
use carrotos.Paging.Keep.{Owned, Keeps}
use carrotos.Paging.Step.{
  Walk, next_table-zero, next_table-there, next_block-zero, next_block-mapped,
}
use carrotos.Paging.Grow.{increase_paging-is_paged}

module _ (first total : ℕ) (order : first ≤ total) (room : total ≤ 2 ^ 40) where
  -- The free blocks that are left.
  abbrev left : Paging → ℕ
  left st = free_count st.memory_map (total - first) first

  -- A result, with `n` free blocks left at least.
  record Goes (n : ℕ) (r : Option (ℕ × Paging)) : Type 0 where
    pub value : ℕ × Paging
    pub is : r ≡ some value
    pub enough : n ≤ left (value.1)

  got_block :
      (map : MemoryMap) (n : ℕ)
      → free_count map (total - first) first ≡ suc n
      → (addr : ℕ) × (map' : MemoryMap) × (get_a_free_block_addr first total map
          ≡ some (addr, map'))
        × (free_count map' (total - first) first ≡ n)
  unfolding get_a_free_block_addr block_to_addr
  got_block map n h =
      let t = get_a_free_block-Takes first total n map h in
      (
        (t.block * 4096 + hm) % 2 ^ 64,
        set_memory_block_used_when_boot t.block true map,
        ap block_to_addr t.is,
        t.left,
      )

  -- A step that takes a block if it needs one.
  with_block-Goes :
      (st : Paging) (n : ℕ) (g : ℕ → MemoryMap → ℕ × Paging)
      → ((addr : ℕ) (map : MemoryMap) → (g addr map).1.memory_map ≡ map)
      → suc n ≤ left st
      → Goes n (with_block (get_a_free_block_addr first total st.memory_map) g)
  unfolding with_block
  with_block-Goes st n g stores h =
      let (addr, map, got, rest) = got_block st.memory_map (left st - 1) (omega arith) in
      record {
        value = g addr map;
        is = rw (got, with_block);
        enough = omega (
          arith,
          h,
          ap (λ (m : MemoryMap). free_count m (total - first) first) (stores addr map),
          rest,
        );
      }

  next_table-Goes :
      (st : Paging) (n t i : ℕ) → suc n ≤ left st → Goes n (next_table first total t i st)
  unfolding new_table
  next_table-Goes st n t i h = elim (ℕ_discrete (st.line t i) 0) [
    | yes z ↦
        rw (next_table-zero first total order room st t i z)
          (with_block-Goes st n (λ addr map. new_table t i addr map st) (λ addr map. refl) h)
    | no z ↦ record {
      value = (page_line_to_addr (st.line t i), st);
      is = next_table-there first total order room st t i z;
      enough = omega arith;
    }
  ]

  next_block-Goes :
      (phys_addr : ℕ) (st : Paging) (n t i : ℕ)
      → suc n ≤ left st
      → Goes n (next_block first total phys_addr t i st)
  unfolding new_block
  next_block-Goes phys_addr st n t i h = elim (ℕ_discrete (st.line t i) 0) [
    | yes z ↦
        rw (next_block-zero first total order room phys_addr st t i z)
          (with_block-Goes st n (λ addr map. new_block t i addr map st) (λ addr map. refl) h)
    | no z ↦ record {
      value = (phys_addr, st);
      is = next_block-mapped first total order room phys_addr st t i z;
      enough = omega arith;
    }
  ]

  after_step-Goes :
      (n m : ℕ) (r : Option (ℕ × Paging)) (next : ℕ → Paging → Option (ℕ × Paging))
      → Goes n r
      → ((a : ℕ) (st : Paging) → n ≤ left st → Goes m (next a st))
      → Goes m (after_step r next)
  unfolding after_step
  after_step-Goes n m r next g rest =
      subst (λ (q : Option (ℕ × Paging)). Goes m (after_step q next)) (sym g.is)
        (rest (g.value.0) (g.value.1) g.enough)

  increase_paging-Goes :
      (phys_addr : ℕ) (st : Paging) (pid v : ℕ)
      → 4 ≤ left st
      → Goes 0 (increase_paging_of_process_with_virt_addr first total phys_addr st pid v)
  unfolding increase_paging_of_process_with_virt_addr
  increase_paging-Goes phys_addr st pid v h =
      after_step-Goes 3 0 _ _ (next_table-Goes st 3 (st.cr3 pid) (index_at 39 v) h) λ l3 st3 h3.
        after_step-Goes 2 0 _ _ (next_table-Goes st3 2 l3 (index_at 30 v) h3) λ l2 st2 h2.
          after_step-Goes 1 0 _ _ (next_table-Goes st2 1 l2 (index_at 21 v) h2)
            λ l1 st1 h1. next_block-Goes phys_addr st1 0 l1 (index_at 12 v) h1

-- Mapping an address of a process while four blocks are free: there is no panic, the address is
-- paged afterwards, no line that was there in a table in use has changed, and no block was given
-- back. Of the tables on the way down, those that are there stand in blocks in use, and memory
-- ends at 2 ^ 40 blocks at most.
pub increase_paging_maps :
    (first total phys_addr : ℕ) (st : Paging) (pid v : ℕ)
    → first ≤ total
    → total ≤ 2 ^ 40
    → 4 ≤ free_count st.memory_map (total - first) first
    → Owned st (st.cr3 pid)
    → Walk st v 3 (st.cr3 pid)
    → (r : ℕ) × (st' : Paging) × (increase_paging_of_process_with_virt_addr first total phys_addr st
          pid v
        ≡ some (r, st'))
      × (is_paged st' pid v ≡ true)
      × Keeps st st'
increase_paging_maps first total phys_addr st pid v order room enough own walk =
    let g = increase_paging-Goes first total order room phys_addr st pid v enough in
    let (paged, keeps) =
      increase_paging-is_paged first total phys_addr st pid v order room own walk g.is in
    (g.value.0, g.value.1, g.is, paged, keeps)
