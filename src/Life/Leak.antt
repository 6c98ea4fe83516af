-- ===== src/Life/Leak.antt =====
-- The blocks that `end_process` means to free, core/scheduler.h: their addresses keep `HM`.
use carrotos.Base.{
  ℕ, zero, suc, ◌+◌, ◌/◌, ◌^◌, ◌≤◌, ◌<◌, ◌≡◌, refl, ◌∙◌, inl, inr, Bool-cases, some, arith, ◌==◌,
  if◌then◌else◌,
}
use carrotos.Process.{Process}
use carrotos.Process.Table.{process_at}
use carrotos.Memory.{MemoryMap, div_ceil, free_block, set_memory_block_used_when_boot}
use carrotos.Paging.{Lines, hm}
use carrotos.Life.{System}
use carrotos.Life.End.{
  pageline_to_low_addr, free_entries, free_page_hm, free_descriptors, end_process,
}
use carrotos.Life.Ended.{after_end, end_process_total}

-- The numbers of the blocks that there are.
abbrev pub blocks : ℕ
blocks = hm / 4096

free_block_keeps :
    (addr : ℕ) (map : MemoryMap) (q : ℕ) → hm ≤ addr → q < blocks → free_block addr map q ≡ map q
unfolding free_block set_memory_block_used_when_boot div_ceil
free_block_keeps addr map q above inside = ground arith

-- A loop whose calls keep an entry of the map keeps it.
free_entries_keeps :
    (free : ℕ → MemoryMap → MemoryMap) (line : Lines) (page_addr q : ℕ)
    → ((addr : ℕ) (map : MemoryMap) → hm ≤ addr → free addr map q ≡ map q)
    → (rounds i : ℕ) (map : MemoryMap) → free_entries free line page_addr rounds i map q ≡ map q
unfolding free_entries
free_entries_keeps free line page_addr q keeps zero i map = refl
free_entries_keeps free line page_addr q keeps (suc rounds) i map =
    let entry = pageline_to_low_addr (line page_addr i) in
    free_entries_keeps free line page_addr q keeps rounds (i + 1)
      (if entry == 0 then map else free (entry + hm) map)
    ∙ elim (Bool-cases (entry == 0)) [
      | inl e ↦ rw e refl
      | inr e ↦ rw e (keeps (entry + hm) map (omega arith))
    ]

free_page_hm_keeps :
    (lv : ℕ) (line : Lines) (q : ℕ)
    → q < blocks
    → (addr : ℕ) (map : MemoryMap) → hm ≤ addr
    → free_page_hm lv line addr map q ≡ map q
unfolding free_page_hm
free_page_hm_keeps zero line q inside addr map above = free_block_keeps addr map q above inside
free_page_hm_keeps (suc lv) line q inside addr map above =
    let lines = if lv == 3 then hm / 2 ^ 39 else 512 in
    free_block_keeps addr (free_entries (free_page_hm lv line) line addr lines 0 map) q above inside
    ∙ free_entries_keeps (free_page_hm lv line) line addr q (free_page_hm_keeps lv line q inside)
        lines 0 map

free_descriptors_keeps :
    (fd_addr : ℕ) (map : MemoryMap) (q : ℕ)
    → hm ≤ fd_addr
    → q < blocks
    → free_descriptors fd_addr map q ≡ map q
unfolding free_descriptors set_memory_block_used_when_boot
free_descriptors_keeps fd_addr map q above inside = ground arith

-- A process that is there, whose top page table and whose descriptors have addresses from `HM` on,
-- as `get_a_free_block_addr` gives them: ending it returns, and the block map has what it had at
-- every number below `HM / 4096`, so none of the blocks of the process becomes free.
pub end_process_leaks :
    (pid return_code : ℕ) (sys : System) {p : Process}
    → process_at sys.processes pid ≡ some p
    → hm ≤ sys.paging.cr3 pid
    → hm ≤ p.fd_addr
    → (v : System) × (end_process pid return_code sys ≡ some v)
      × ((q : ℕ) → q < blocks → v.paging.memory_map q ≡ sys.paging.memory_map q)
end_process_leaks pid return_code sys {p} at_pid table descriptors = (
  after_end pid return_code sys p,
  end_process_total pid return_code sys at_pid,
  λ q inside.
      free_descriptors_keeps p.fd_addr
        (free_page_hm 4 sys.paging.line (sys.paging.cr3 pid) sys.paging.memory_map) q descriptors
        inside
      ∙ free_page_hm_keeps 4 sys.paging.line q inside (sys.paging.cr3 pid) sys.paging.memory_map
          table,
)
