-- ===== src/Paging/Shrink.antt =====
-- Unmapping an address of a process.
use carrotos.Base.{ℕ, ◌≡◌, ◌⊎◌, refl, ap, ◌∙◌, true, false, ◌&&◌, arith, ◌==◌, Bool-cases, inl, inr}
use carrotos.Paging.{
  Paging, set_line, page_line_to_addr, index_at, is_paged, block_empty, drop_line, drop_lines,
  decrease_paging_of_process_with_virt_addr,
}

-- Lines have at most become 0, and the top tables are the same.
record Drops (st st' : Paging) : Type 0 where
  lines : (t i : ℕ) → (st'.line t i ≡ 0) ⊎ (st'.line t i ≡ st.line t i)
  same_cr3 : (pid : ℕ) → st'.cr3 pid ≡ st.cr3 pid

drop_line-Drops : (t i : ℕ) (st : Paging) → Drops st (drop_line t i st)
unfolding drop_line set_line
drop_line-Drops t i st = record {
  lines = λ t' i'. elim (Bool-cases (t == t' && i == i')) [
    | inl e ↦ rw e (inl refl)
    | inr e ↦ rw e (inr refl)
  ];
  same_cr3 = λ pid. refl;
}

drop_line-zero : (t i : ℕ) (st : Paging) → (drop_line t i st).line t i ≡ 0
unfolding drop_line set_line
drop_line-zero t i st = let hit : (t == t && i == i) ≡ true = ground arith in rw hit

Drops-trans : (st st' st'' : Paging) → Drops st st' → Drops st' st'' → Drops st st''
Drops-trans st st' st'' d e = record {
  lines = λ t i. elim (e.lines t i) [
    | inl z ↦ inl z
    | inr s ↦ elim (d.lines t i) [ inl z ↦ inl (s ∙ z) | inr s' ↦ inr (s ∙ s') ]
  ];
  same_cr3 = λ pid. e.same_cr3 pid ∙ d.same_cr3 pid;
}

zero-Drops : (st st' : Paging) (t i : ℕ) → Drops st st' → st.line t i ≡ 0 → st'.line t i ≡ 0
zero-Drops st st' t i d z = elim (d.lines t i) [ inl e ↦ e | inr e ↦ e ∙ z ]

-- What the drops leave of the last line.
record Dropped (st st' : Paging) (t i : ℕ) : Type 0 where
  drops : Drops st st'
  gone : st'.line t i ≡ 0

extend :
    (st st' : Paging) (t i t' i' : ℕ) → Dropped st st' t i → Dropped st (drop_line t' i' st') t i
extend st st' t i t' i' d = record {
  drops = Drops-trans st st' (drop_line t' i' st') d.drops (drop_line-Drops t' i' st');
  gone = zero-Drops st' (drop_line t' i' st') t i (drop_line-Drops t' i' st') d.gone;
}

drop_lines-Dropped :
    (a b c d v : ℕ) (st : Paging) → Dropped st (drop_lines a b c d v st) d (index_at 12 v)
unfolding drop_lines
drop_lines-Dropped a b c d v st =
    let i = index_at 12 v in
    let st1 = drop_line d i st in
    let st2 = drop_line c (index_at 21 v) st1 in
    let st3 = drop_line b (index_at 30 v) st2 in
    let d1 : Dropped st st1 d i = record {
      drops = drop_line-Drops d i st;
      gone = drop_line-zero d i st;
    } in
    let d2 = extend st st1 d i c (index_at 21 v) d1 in
    let d3 = extend st st2 d i b (index_at 30 v) d2 in
    let d4 = extend st st3 d i a (index_at 39 v) d3 in
    elim (Bool-cases (block_empty st1.line d)) [
      | inr e ↦ rw e d1
      | inl e ↦ elim (Bool-cases (block_empty st2.line c)) [
        | inr f ↦ rw (e, f) d2
        | inl f ↦ elim (Bool-cases (block_empty st3.line b)) [
          | inr g ↦ rw (e, f, g) d3
          | inl g ↦ rw (e, f, g) d4
        ]
      ]
    ]

-- A walk with a line missing.
module _ (st : Paging) (pid v : ℕ) where
  missing_top : st.line (st.cr3 pid) (index_at 39 v) ≡ 0 → is_paged st pid v ≡ false
  unfolding is_paged
  missing_top z = let e : (st.line (st.cr3 pid) (index_at 39 v) == 0) ≡ true = ground arith in rw e

  module _ (a3 : ℕ) (p3 : page_line_to_addr (st.line (st.cr3 pid) (index_at 39 v)) ≡ a3) where
    missing_third : st.line a3 (index_at 30 v) ≡ 0 → is_paged st pid v ≡ false
    unfolding is_paged
    missing_third z =
        let e : (st.line a3 (index_at 30 v) == 0) ≡ true = ground arith in rw (p3, e) (ground arith)

    module _ (a2 : ℕ) (p2 : page_line_to_addr (st.line a3 (index_at 30 v)) ≡ a2) where
      missing_second : st.line a2 (index_at 21 v) ≡ 0 → is_paged st pid v ≡ false
      unfolding is_paged
      missing_second z =
          let e : (st.line a2 (index_at 21 v) == 0) ≡ true = ground arith in
          rw (p3, p2, e) (ground arith)

      missing_first :
          (a1 : ℕ)
          → page_line_to_addr (st.line a2 (index_at 21 v)) ≡ a1
          → st.line a1 (index_at 12 v) ≡ 0
          → is_paged st pid v ≡ false
      unfolding is_paged
      missing_first a1 p1 z =
          let e : (st.line a1 (index_at 12 v) == 0) ≡ true = ground arith in
          rw (p3, p2, p1, e) (ground arith)

-- Once the last line of a walk is 0, and the others are as they were or 0, the address is not
-- paged.
Dropped-is_paged :
    (st st' : Paging) (pid v : ℕ)
    → let a3 = page_line_to_addr (st.line (st.cr3 pid) (index_at 39 v)) in
      let a2 = page_line_to_addr (st.line a3 (index_at 30 v)) in
      let a1 = page_line_to_addr (st.line a2 (index_at 21 v)) in
      Dropped st st' a1 (index_at 12 v) → is_paged st' pid v ≡ false
Dropped-is_paged st st' pid v d =
    let top = st.cr3 pid in
    let cr3 = d.drops.same_cr3 pid in
    let a3 = page_line_to_addr (st.line top (index_at 39 v)) in
    let a2 = page_line_to_addr (st.line a3 (index_at 30 v)) in
    let a1 = page_line_to_addr (st.line a2 (index_at 21 v)) in
    let at_top = ap (λ t. st'.line t (index_at 39 v)) cr3 in
    elim (d.drops.lines top (index_at 39 v)) [
      | inl z ↦ missing_top st' pid v (at_top ∙ z)
      | inr s3 ↦
          let p3 = ap page_line_to_addr (at_top ∙ s3) in
          elim (d.drops.lines a3 (index_at 30 v)) [
            | inl z ↦ missing_third st' pid v a3 p3 z
            | inr s2 ↦
                let p2 = ap page_line_to_addr s2 in
                elim (d.drops.lines a2 (index_at 21 v)) [
                  | inl z ↦ missing_second st' pid v a3 p3 a2 p2 z
                  | inr s1 ↦ missing_first st' pid v a3 p3 a2 p2 a1 (ap page_line_to_addr s1) d.gone
                ]
          ]
    ]

-- After `decrease_paging_of_process_with_virt_addr` the address is not paged in that process,
-- whatever the tables were and even if tables of the walk are shared.
pub decrease_paging-is_paged :
    (st : Paging) (pid v : ℕ)
    → is_paged (decrease_paging_of_process_with_virt_addr st pid v) pid v ≡ false
unfolding decrease_paging_of_process_with_virt_addr
decrease_paging-is_paged st pid v =
    let a3 = page_line_to_addr (st.line (st.cr3 pid) (index_at 39 v)) in
    let a2 = page_line_to_addr (st.line a3 (index_at 30 v)) in
    let a1 = page_line_to_addr (st.line a2 (index_at 21 v)) in
    elim (Bool-cases (st.line (st.cr3 pid) (index_at 39 v) == 0)) [
      | inl e4 ↦ rw e4 (missing_top st pid v (ground arith))
      | inr e4 ↦ elim (Bool-cases (st.line a3 (index_at 30 v) == 0)) [
        | inl e3 ↦ rw (e4, e3) (missing_third st pid v a3 refl (ground arith))
        | inr e3 ↦ elim (Bool-cases (st.line a2 (index_at 21 v) == 0)) [
          | inl e2 ↦ rw (e4, e3, e2) (missing_second st pid v a3 refl a2 refl (ground arith))
          | inr e2 ↦ elim (Bool-cases (st.line a1 (index_at 12 v) == 0)) [
            | inl e1 ↦
                rw (e4, e3, e2, e1) (missing_first st pid v a3 refl a2 refl a1 refl (ground arith))
            | inr e1 ↦
                rw (e4, e3, e2, e1)
                  (Dropped-is_paged st (drop_lines (st.cr3 pid) a3 a2 a1 v st) pid v
                    (drop_lines-Dropped (st.cr3 pid) a3 a2 a1 v st))
          ]
        ]
      ]
    ]
