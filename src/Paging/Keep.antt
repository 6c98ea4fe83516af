-- ===== src/Paging/Keep.antt =====
-- What mapping an address keeps, and the block that it takes for a new table.
use carrotos.Base.{
  ℕ, ◌+◌, ◌*◌, ◌%◌, ◌^◌, ◌<◌, ◌≤◌, ◌≡◌, ◌≢◌, refl, sym, ap, ◌∙◌, Option, none, some, arith,
}
use mathlib.Core.Path.{subst}
use carrotos.Memory.{MemoryMap, get_a_free_block}
use carrotos.Memory.Blocks.{Allocates, granted, get_a_free_block-Allocates}
use carrotos.Paging.{
  Paging, hm, low, page_line_to_addr, with_flags, block_to_addr, get_a_free_block_addr,
}

-- A table stands in a block that is in use, and that a line can name.
pub record Owned (st : Paging) (addr : ℕ) : Type 0 where
  pub block : ℕ
  pub at : addr ≡ block * 4096 + hm
  pub fits : block < 2 ^ 40
  pub used : st.memory_map block ≢ 0

-- No line that is there changes in a table that is in use, and no block is given back.
pub record Keeps (st st' : Paging) : Type 0 where
  pub lines : (t : ℕ) → Owned st t → (i : ℕ) → st.line t i ≢ 0 → st'.line t i ≡ st.line t i
  pub still_used : (b : ℕ) → st.memory_map b ≢ 0 → st'.memory_map b ≢ 0
  pub same_cr3 : (pid : ℕ) → st'.cr3 pid ≡ st.cr3 pid

pub Keeps-refl : (st : Paging) → Keeps st st
Keeps-refl st = record { lines = λ t o i h. refl; still_used = λ b h. h; same_cr3 = λ pid. refl }

pub Owned-Keeps : (st st' : Paging) (t : ℕ) → Keeps st st' → Owned st t → Owned st' t
Owned-Keeps st st' t k o = record {
  block = o.block;
  at = o.at;
  fits = o.fits;
  used = k.still_used o.block o.used;
}

pub Keeps-trans : (st st' st'' : Paging) → Keeps st st' → Keeps st' st'' → Keeps st st''
Keeps-trans st st' st'' k l = record {
  lines = λ t o i h.
      let e = k.lines t o i h in l.lines t (Owned-Keeps st st' t k o) i (λ z. h (sym e ∙ z)) ∙ e;
  still_used = λ b h. l.still_used b (k.still_used b h);
  same_cr3 = λ pid. l.same_cr3 pid ∙ k.same_cr3 pid;
}

-- The line at an index of a table is there and leads to an address.
pub record Present (st : Paging) (t i a : ℕ) : Type 0 where
  pub there : st.line t i ≢ 0
  pub leads : page_line_to_addr (st.line t i) ≡ a

pub Present-Keeps :
    (st st' : Paging) (t i a : ℕ) → Keeps st st' → Owned st t → Present st t i a → Present st' t i a
Present-Keeps st st' t i a k o p =
    let e = k.lines t o i p.there in
    record { there = λ z. p.there (sym e ∙ z); leads = ap page_line_to_addr e ∙ p.leads }

-- The block that a search hands out.
pub record Fresh (map : MemoryMap) (addr : ℕ) (map' : MemoryMap) : Type 0 where
  pub block : ℕ
  pub at : addr ≡ block * 4096 + hm
  pub fits : block < 2 ^ 40
  pub free : map block ≡ 0
  pub taken : map' block ≢ 0
  pub others : (q : ℕ) → map q ≢ 0 → map' q ≢ 0

Allocates-Fresh :
    (first total : ℕ) {map map' : MemoryMap} {r : ℕ}
    → total ≤ 2 ^ 40
    → Allocates map first total 1 (some (r, map'))
    → Fresh map ((r * 4096 + hm) % 2 ^ 64) map'
Allocates-Fresh first total {map} {map'} room (granted r ge lt free before marks) = record {
  block = r;
  at = omega arith;
  fits = omega arith;
  free = free r (omega arith);
  taken = let m = marks r in ground arith;
  others = λ q h. let m = marks q in ground arith;
}

block_to_addr-Fresh :
    (first total : ℕ) {map map' : MemoryMap} {addr : ℕ} (r : Option (ℕ × MemoryMap))
    → total ≤ 2 ^ 40
    → Allocates map first total 1 r
    → block_to_addr r ≡ some (addr, map')
    → Fresh map addr map'
unfolding block_to_addr
block_to_addr-Fresh first total none room a e = cc
block_to_addr-Fresh first total {map} {map'} {addr} (some (b, m)) room a e =
    let same_addr : (b * 4096 + hm) % 2 ^ 64 ≡ addr = cc in
    let same_map : m ≡ map' = cc in
    subst (λ x. Fresh map x map') same_addr
      (subst (Fresh map ((b * 4096 + hm) % 2 ^ 64)) same_map (Allocates-Fresh first total room a))

pub get_a_free_block_addr-Fresh :
    (first total : ℕ) {map map' : MemoryMap} {addr : ℕ}
    → first ≤ total
    → total ≤ 2 ^ 40
    → get_a_free_block_addr first total map ≡ some (addr, map')
    → Fresh map addr map'
unfolding get_a_free_block_addr
get_a_free_block_addr-Fresh first total {map} h room e =
    block_to_addr-Fresh first total (get_a_free_block first total map) room
      (get_a_free_block-Allocates first total map h) e

-- A line made from the address of a block leads back to it, and is not 0.
pub line_of_block :
    (b : ℕ)
    → b < 2 ^ 40
    → (with_flags (low (b * 4096 + hm)) ≢ 0)
      × (page_line_to_addr (with_flags (low (b * 4096 + hm))) ≡ b * 4096 + hm)
unfolding with_flags page_line_to_addr
line_of_block b h = (omega arith, omega arith)
