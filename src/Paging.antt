-- ===== src/Paging.antt =====
-- The page tables of a process, core/scheduler.h: four levels of tables of 512 lines, each table
-- in a block of its own. `line` is what stands at an index of the table at an address, so two
-- walks that come to one address share the table. An address of a block is its number times 4096
-- plus `HM`. The kernel's blocks end at `first` and memory ends at `total`, as for the block map;
-- a `panic` of the search for a block is `none`.
pub mod Keep
pub mod Step
pub mod Grow
pub mod Shrink
pub mod Enough
mod Tests
use carrotos.Base.{
  ℕ, zero, suc, ◌+◌, ◌-◌, ◌*◌, ◌/◌, ◌%◌, ◌^◌, Bool, true, false, ◌&&◌, not, Option, none, some,
  ◌==◌, if◌then◌else◌,
}
use carrotos.Memory.{MemoryMap, set_memory_block_used_when_boot, get_a_free_block}

abbrev pub hm : ℕ
hm = 0x400000000000

-- `addr - HM` in 64 bits.
abbrev pub low : ℕ → ℕ
low addr = (addr + (2 ^ 64 - hm)) % 2 ^ 64

abbrev pub Lines : Type 0
Lines = ℕ → ℕ → ℕ

-- `processes_cr3_ptr` is the address of each process's top table.
pub record Paging : Type 0 where
  pub line : Lines
  pub memory_map : MemoryMap
  pub cr3 : ℕ → ℕ

-- All 512 lines become 0.
unfoldable pub erase_block : ℕ → Lines → Lines
erase_block addr line t i = if t == addr then 0 else line t i

-- `table[i] = v`
unfoldable pub set_line : ℕ → ℕ → ℕ → Lines → Lines
set_line table index v line t i = if table == t && index == i then v else line t i

-- `(pageline & 0x000FFFFFFFFFF000ULL) + HM`: bits 12 to 51.
unfoldable pub page_line_to_addr : ℕ → ℕ
page_line_to_addr pageline = pageline / 2 ^ 12 % 2 ^ 40 * 2 ^ 12 + hm

-- `x | PTE_PRESENT | PTE_RW | PTE_USER`: the three lowest bits are set.
unfoldable pub with_flags : ℕ → ℕ
with_flags x = x / 8 * 8 + 7

-- `(virt_addr >> shift) & 0x1FF`
abbrev pub index_at : ℕ → ℕ → ℕ
index_at shift virt_addr = virt_addr / 2 ^ shift % 512

-- `get_a_free_block() * 4096 + HM`
pub block_to_addr : Option (ℕ × MemoryMap) → Option (ℕ × MemoryMap)
block_to_addr none = none
block_to_addr (some (block, map)) = some ((block * 4096 + hm) % 2 ^ 64, map)

unfoldable pub get_a_free_block_addr : (first total : ℕ) → MemoryMap → Option (ℕ × MemoryMap)
unfolding block_to_addr
get_a_free_block_addr first total map = block_to_addr (get_a_free_block first total map)

-- Three lines of the walk must be there, and the fourth.
unfoldable pub is_paged : Paging → ℕ → ℕ → Bool
is_paged st pid virt_addr =
    let l4 = st.line (st.cr3 pid) (index_at 39 virt_addr) in
    let l3 = st.line (page_line_to_addr l4) (index_at 30 virt_addr) in
    let l2 = st.line (page_line_to_addr l3) (index_at 21 virt_addr) in
    let l1 = st.line (page_line_to_addr l2) (index_at 12 virt_addr) in
    if l4 == 0
    then false
    else if l3 == 0
    then false
    else if l2 == 0
    then false
    else if l1 == 0
    then false
    else true

-- A new table in a free block is hung on a line.
pub new_table : ℕ → ℕ → ℕ → MemoryMap → Paging → ℕ × Paging
unfolding erase_block set_line with_flags
new_table table index addr map st = (
  addr,
  record st {
    line = set_line table index (with_flags (low addr)) (erase_block addr st.line);
    memory_map = map;
  },
)

-- What a walk does with a new block, unless there is none.
pub with_block : Option (ℕ × MemoryMap) → (ℕ → MemoryMap → ℕ × Paging) → Option (ℕ × Paging)
with_block none use_it = none
with_block (some (addr, map)) use_it = some (use_it addr map)

-- The table below a line, a new one if there is none.
pub next_table : (first total : ℕ) → ℕ → ℕ → Paging → Option (ℕ × Paging)
unfolding get_a_free_block_addr with_block new_table page_line_to_addr
next_table first total table index st =
    if st.line table index == 0
    then with_block (get_a_free_block_addr first total st.memory_map)
        (λ addr map. new_table table index addr map st)
    else some (page_line_to_addr (st.line table index), st)

-- A new block behind the last line.
pub new_block : ℕ → ℕ → ℕ → MemoryMap → Paging → ℕ × Paging
unfolding set_line with_flags
new_block table index addr map st = (
  low addr,
  record st { line = set_line table index (with_flags (low addr)) st.line; memory_map = map },
)

-- The block behind the last line; `phys_addr` is returned as it is, uninitialised, where there is
-- one already.
pub next_block : (first total : ℕ) → (phys_addr : ℕ) → ℕ → ℕ → Paging → Option (ℕ × Paging)
unfolding get_a_free_block_addr with_block new_block
next_block first total phys_addr table index st =
    if st.line table index == 0
    then with_block (get_a_free_block_addr first total st.memory_map)
        (λ addr map. new_block table index addr map st)
    else some (phys_addr, st)

-- What is done with a step's result, unless it panicked.
pub after_step : Option (ℕ × Paging) → (ℕ → Paging → Option (ℕ × Paging)) → Option (ℕ × Paging)
after_step none next = none
after_step (some (a, st)) next = next a st

unfoldable pub increase_paging_of_process_with_virt_addr :
    (first total : ℕ) → (phys_addr : ℕ) → Paging → (pid virt_addr : ℕ) → Option (ℕ × Paging)
unfolding next_table next_block after_step
increase_paging_of_process_with_virt_addr first total phys_addr st pid virt_addr =
    after_step (next_table first total (st.cr3 pid) (index_at 39 virt_addr) st) λ l3 st3.
      after_step (next_table first total l3 (index_at 30 virt_addr) st3) λ l2 st2.
        after_step (next_table first total l2 (index_at 21 virt_addr) st2)
          λ l1 st1. next_block first total phys_addr l1 (index_at 12 virt_addr) st1

-- Whether the `n` first lines of a table are 0.
pub lines_empty : Lines → ℕ → ℕ → Bool
lines_empty line addr zero = true
lines_empty line addr (suc n) = line addr n == 0 && lines_empty line addr n

unfoldable pub block_empty : Lines → ℕ → Bool
unfolding lines_empty
block_empty line addr = lines_empty line addr 512

-- `set_memory_block_used_when_boot((uint64_t)table[index], false); table[index] = 0;` The whole
-- line, flags and all, is taken for the number of a block: the byte that is cleared lies far behind
-- the map, in memory that is kept apart from all else here.
pub drop_line : ℕ → ℕ → Paging → Paging
unfolding set_line
drop_line table index st = record st {
  line = set_line table index 0 st.line;
  memory_map = set_memory_block_used_when_boot (st.line table index) false st.memory_map;
}

-- The last line is dropped, and above it each line whose table has become empty.
pub drop_lines : (l4_ptr l3_ptr l2_ptr l1_ptr virt_addr : ℕ) → Paging → Paging
unfolding drop_line block_empty
drop_lines l4_ptr l3_ptr l2_ptr l1_ptr virt_addr st =
    let st1 = drop_line l1_ptr (index_at 12 virt_addr) st in
    let st2 = drop_line l2_ptr (index_at 21 virt_addr) st1 in
    let st3 = drop_line l3_ptr (index_at 30 virt_addr) st2 in
    let st4 = drop_line l4_ptr (index_at 39 virt_addr) st3 in
    if not (block_empty st1.line l1_ptr)
    then st1
    else if not (block_empty st2.line l2_ptr)
    then st2
    else if not (block_empty st3.line l3_ptr)
    then st3
    else st4

-- Nothing is done where a line of the walk is missing.
unfoldable pub decrease_paging_of_process_with_virt_addr : Paging → (pid virt_addr : ℕ) → Paging
unfolding drop_lines
decrease_paging_of_process_with_virt_addr st pid virt_addr =
    let l4_ptr = st.cr3 pid in
    let l3_ptr = page_line_to_addr (st.line l4_ptr (index_at 39 virt_addr)) in
    let l2_ptr = page_line_to_addr (st.line l3_ptr (index_at 30 virt_addr)) in
    let l1_ptr = page_line_to_addr (st.line l2_ptr (index_at 21 virt_addr)) in
    if st.line l4_ptr (index_at 39 virt_addr) == 0
    then st
    else if st.line l3_ptr (index_at 30 virt_addr) == 0
    then st
    else if st.line l2_ptr (index_at 21 virt_addr) == 0
    then st
    else if st.line l1_ptr (index_at 12 virt_addr) == 0
    then st
    else drop_lines l4_ptr l3_ptr l2_ptr l1_ptr virt_addr st
