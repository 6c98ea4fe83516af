-- ===== src/Paging/Step.antt =====
-- One level of the walk down a process's page tables.
use carrotos.Base.{
  ℕ, zero, suc, ◌+◌, ◌*◌, ◌^◌, ◌≤◌, ◌≡◌, ◌≢◌, refl, sym, ap, ◌∙◌, true, false, ◌&&◌, Option, none,
  some, arith, ◌==◌, Bool-cases, inl, inr, ℕ_discrete,
}
use mathlib.Core.Path.{subst}
use carrotos.Memory.{MemoryMap}
use carrotos.Paging.{
  Paging, low, erase_block, set_line, page_line_to_addr, with_flags, index_at,
  get_a_free_block_addr, with_block, new_block, new_table, next_table, next_block, after_step,
}
use carrotos.Paging.Keep.{
  Owned, Keeps, Keeps-refl, Present, Fresh, get_a_free_block_addr-Fresh, line_of_block,
}

-- What a step of the walk leaves: its line is there and leads to the next table, in use.
pub record Steps (st st' : Paging) (t i a : ℕ) : Type 0 where
  pub keeps : Keeps st st'
  pub present : Present st' t i a
  pub owned : Owned st' a

Owned-ne :
    (st : Paging) (t : ℕ) {addr : ℕ} {map' : MemoryMap}
    → Owned st t
    → Fresh st.memory_map addr map'
    → addr ≢ t
Owned-ne st t o f e =
    let same : f.block ≡ o.block = omega (arith, f.at, o.at, e) in
    o.used (ap st.memory_map (sym same) ∙ f.free)

module _ (st : Paging) (t i addr : ℕ) (map' : MemoryMap) (own : Owned st t)
    (zero_line : st.line t i ≡ 0) (f : Fresh st.memory_map addr map') where
  set_line-other :
      (t' i' v : ℕ)
      → addr ≢ t'
      → st.line t' i' ≢ 0
      → set_line t i v (erase_block addr st.line) t' i' ≡ st.line t' i'
  unfolding set_line erase_block
  set_line-other t' i' v ne h = elim (Bool-cases (t == t' && i == i')) [
    | inl e ↦
        let t_same : t ≡ t' = ground arith in
        let i_same : i ≡ i' = ground arith in absurd (h (rw (← t_same, ← i_same) zero_line))
    | inr e ↦ let fresh : (t' == addr) ≡ false = ground arith in rw (e, fresh)
  ]

  -- A new table hung on the line.
  new_table-Steps : Steps st (new_table t i addr map' st).1 t i addr
  unfolding new_table set_line
  new_table-Steps =
      let hit : (t == t && i == i) ≡ true = ground arith in
      let line = line_of_block f.block f.fits in
      record {
        keeps = record {
          lines = λ t' o i' h. set_line-other t' i' (with_flags (low addr)) (Owned-ne st t' o f) h;
          still_used = f.others;
          same_cr3 = λ pid. refl;
        };
        present = record { there = rw (hit, f.at) line.0; leads = rw (hit, f.at) line.1 };
        owned = record { block = f.block; at = f.at; fits = f.fits; used = f.taken };
      }

  new_table-empty : (i' : ℕ) → (new_table t i addr map' st).1.line addr i' ≡ 0
  unfolding new_table set_line erase_block
  new_table-empty i' =
      let ne = Owned-ne st t own f in
      let other : (t == addr && i == i') ≡ false = ground (arith, ne) in
      let self : (addr == addr) ≡ true = ground arith in rw (other, self)

-- The tables on the way down, as far as they are there, are in use; `n` levels are still to go.
pub data Walk (st : Paging) (virt_addr : ℕ) : (n table : ℕ) → Type 0 where
  last : {t : ℕ} → Walk st virt_addr 0 t
  absent :
      {n t : ℕ} → st.line t (index_at (12 + 9 * suc n) virt_addr) ≡ 0 → Walk st virt_addr (suc n) t
  goes_on :
      {n t : ℕ} (a : ℕ)
      → Present st t (index_at (12 + 9 * suc n) virt_addr) a
      → Owned st a
      → Walk st virt_addr n a
      → Walk st virt_addr (suc n) t

-- A walk from a table all of whose lines are 0.
Walk-empty : (st : Paging) (v n t : ℕ) → ((i : ℕ) → st.line t i ≡ 0) → Walk st v n t
Walk-empty st v zero t h = last
Walk-empty st v (suc n) t h = absent (h _)

with_block-some :
    (r : Option (ℕ × MemoryMap)) (g : ℕ → MemoryMap → ℕ × Paging) {x : ℕ × Paging}
    → with_block r g ≡ some x
    → (addr : ℕ) × (map : MemoryMap) × (r ≡ some (addr, map)) × (g addr map ≡ x)
unfolding with_block
with_block-some none g h = cc
with_block-some (some (addr, map)) g h = (addr, map, refl, cc)

pub after_step-some :
    (r : Option (ℕ × Paging)) (next : ℕ → Paging → Option (ℕ × Paging)) {x : ℕ × Paging}
    → after_step r next ≡ some x
    → (a : ℕ) × (st : Paging) × (r ≡ some (a, st)) × (next a st ≡ some x)
unfolding after_step
after_step-some none next h = cc
after_step-some (some (a, st)) next h = (a, st, refl, h)

module _ (first total : ℕ) (order : first ≤ total) (room : total ≤ 2 ^ 40) where
  pub next_table-zero :
      (st : Paging) (t i : ℕ)
      → st.line t i ≡ 0
      → next_table first total t i st
        ≡ with_block
            (get_a_free_block_addr first total st.memory_map)
            (λ addr map. new_table t i addr map st)
  unfolding next_table
  next_table-zero st t i z = let test : (st.line t i == 0) ≡ true = ground arith in rw test

  pub next_table-there :
      (st : Paging) (t i : ℕ)
      → st.line t i ≢ 0
      → next_table first total t i st ≡ some (page_line_to_addr (st.line t i), st)
  unfolding next_table
  next_table-there st t i z = let test : (st.line t i == 0) ≡ false = ground arith in rw test

  next_table-new :
      (st : Paging) (v n t i : ℕ) {x : ℕ × Paging}
      → Owned st t
      → st.line t i ≡ 0
      → next_table first total t i st ≡ some x
      → Steps st (x.1) t i (x.0) × Walk (x.1) v n (x.0)
  unfolding new_table
  next_table-new st v n t i {x} own z e =
      let made = sym (next_table-zero st t i z) ∙ e in
      let (addr, map, got, is) = with_block-some _ (λ addr map. new_table t i addr map st) made in
      let f = get_a_free_block_addr-Fresh first total order room got in
      subst (λ (y : ℕ × Paging). Steps st (y.1) t i (y.0) × Walk (y.1) v n (y.0)) is
        (
          new_table-Steps st t i addr map own z f,
          Walk-empty _ v n addr (new_table-empty st t i addr map own z f),
        )

  pub next_table-Steps :
      (st : Paging) (v n t : ℕ) {x : ℕ × Paging}
      → Owned st t
      → Walk st v (suc n) t
      → next_table first total t (index_at (12 + 9 * suc n) v) st ≡ some x
      → Steps st (x.1) t (index_at (12 + 9 * suc n) v) (x.0) × Walk (x.1) v n (x.0)
  next_table-Steps st v n t own (absent z) e = next_table-new st v n t _ own z e
  next_table-Steps st v n t {x} own (goes_on a p o w) e =
      let is : some (page_line_to_addr (st.line t (index_at (12 + 9 * suc n) v)), st) ≡ some x =
        sym (next_table-there st t _ p.there) ∙ e in
      let here : (a, st) ≡ x = ap (λ b. (b, st)) (sym p.leads) ∙ cc in
      subst
        (λ (y : ℕ × Paging).
          Steps st (y.1) t (index_at (12 + 9 * suc n) v) (y.0) × Walk (y.1) v n (y.0))
        here (record { keeps = Keeps-refl st; present = p; owned = o }, w)

  set_line-kept :
      (st : Paging) (t i v t' i' : ℕ)
      → st.line t i ≡ 0
      → st.line t' i' ≢ 0
      → set_line t i v st.line t' i' ≡ st.line t' i'
  unfolding set_line
  set_line-kept st t i v t' i' z h = elim (Bool-cases (t == t' && i == i')) [
    | inl e ↦
        let t_same : t ≡ t' = ground arith in
        let i_same : i ≡ i' = ground arith in absurd (h (rw (← t_same, ← i_same) z))
    | inr e ↦ rw e
  ]

  new_block-there :
      (st : Paging) (t i addr : ℕ) (map : MemoryMap)
      → st.line t i ≡ 0
      → Fresh st.memory_map addr map
      → Keeps st (new_block t i addr map st).1 × ((new_block t i addr map st).1.line t i ≢ 0)
  unfolding new_block set_line
  new_block-there st t i addr map z f =
      let hit : (t == t && i == i) ≡ true = ground arith in
      let line = line_of_block f.block f.fits in
      (
        record {
          lines = λ t' o i' h. set_line-kept st t i (with_flags (low addr)) t' i' z h;
          still_used = f.others;
          same_cr3 = λ pid. refl;
        },
        rw (hit, f.at) line.0,
      )

  pub next_block-zero :
      (phys_addr : ℕ) (st : Paging) (t i : ℕ)
      → st.line t i ≡ 0
      → next_block first total phys_addr t i st
        ≡ with_block
            (get_a_free_block_addr first total st.memory_map)
            (λ addr map. new_block t i addr map st)
  unfolding next_block
  next_block-zero phys_addr st t i z =
      let test : (st.line t i == 0) ≡ true = ground arith in rw test

  pub next_block-mapped :
      (phys_addr : ℕ) (st : Paging) (t i : ℕ)
      → st.line t i ≢ 0
      → next_block first total phys_addr t i st ≡ some (phys_addr, st)
  unfolding next_block
  next_block-mapped phys_addr st t i z =
      let test : (st.line t i == 0) ≡ false = ground arith in rw test

  -- The last step keeps what is there and leaves a line that is not 0.
  pub next_block-there :
      (phys_addr : ℕ) (st : Paging) (t i : ℕ) {x : ℕ × Paging}
      → next_block first total phys_addr t i st ≡ some x
      → Keeps st (x.1) × (x.1.line t i ≢ 0)
  next_block-there phys_addr st t i {x} e = elim (ℕ_discrete (st.line t i) 0) [
    | yes z ↦
        let made = sym (next_block-zero phys_addr st t i z) ∙ e in
        let (addr, map, got, is) = with_block-some _ (λ addr map. new_block t i addr map st) made in
        subst (λ (y : ℕ × Paging). Keeps st (y.1) × (y.1.line t i ≢ 0)) is
          (new_block-there st t i addr map z
            (get_a_free_block_addr-Fresh first total order room got))
    | no z ↦
        let is : some (phys_addr, st) ≡ some x = sym (next_block-mapped phys_addr st t i z) ∙ e in
        let here : (phys_addr, st) ≡ x = cc in
        subst (λ (y : ℕ × Paging). Keeps st (y.1) × (y.1.line t i ≢ 0)) here (Keeps-refl st, z)
  ]
