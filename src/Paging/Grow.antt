-- ===== src/Paging/Grow.antt =====
-- Mapping an address of a process: what is mapped afterwards, and what stays as it was.
use carrotos.Base.{ℕ, ◌^◌, ◌≤◌, ◌≡◌, ◌≢◌, sym, true, false, some, arith, ◌==◌}
use mathlib.Core.Path.{subst}
use carrotos.Paging.{Paging, index_at, is_paged, increase_paging_of_process_with_virt_addr}
use carrotos.Paging.Keep.{Owned, Keeps, Owned-Keeps, Keeps-trans, Present, Present-Keeps}
use carrotos.Paging.Step.{Steps, Walk, after_step-some, next_table-Steps, next_block-there}

-- The walk's four lines make an address paged.
is_paged_of_lines :
    (st : Paging) (pid v l3 l2 l1 : ℕ)
    → Present st (st.cr3 pid) (index_at 39 v) l3
    → Present st l3 (index_at 30 v) l2
    → Present st l2 (index_at 21 v) l1
    → st.line l1 (index_at 12 v) ≢ 0
    → is_paged st pid v ≡ true
unfolding is_paged
is_paged_of_lines st pid v l3 l2 l1 p3 p2 p1 h =
    let e4 : (st.line (st.cr3 pid) (index_at 39 v) == 0) ≡ false = ground (arith, p3.there) in
    let e3 : (st.line l3 (index_at 30 v) == 0) ≡ false = ground (arith, p2.there) in
    let e2 : (st.line l2 (index_at 21 v) == 0) ≡ false = ground (arith, p1.there) in
    let e1 : (st.line l1 (index_at 12 v) == 0) ≡ false = ground (arith, h) in
    rw (p3.leads, p2.leads, p1.leads, e4, e3, e2, e1)

-- The four steps together.
walk_end :
    (st st3 st2 st1 st' : Paging) (pid v l3 l2 l1 : ℕ)
    → Owned st (st.cr3 pid)
    → Steps st st3 (st.cr3 pid) (index_at 39 v) l3
    → Steps st3 st2 l3 (index_at 30 v) l2
    → Steps st2 st1 l2 (index_at 21 v) l1
    → Keeps st1 st'
    → st'.line l1 (index_at 12 v) ≢ 0
    → (is_paged st' pid v ≡ true) × Keeps st st'
walk_end st st3 st2 st1 st' pid v l3 l2 l1 own s3 s2 s1 k0 there =
    let k1 = Keeps-trans st2 st1 st' s1.keeps k0 in
    let k2 = Keeps-trans st3 st2 st' s2.keeps k1 in
    let k3 = Keeps-trans st st3 st' s3.keeps k2 in
    let own3 = Owned-Keeps st st3 (st.cr3 pid) s3.keeps own in
    let own2 = Owned-Keeps st3 st2 l3 s2.keeps s3.owned in
    let own1 = Owned-Keeps st2 st1 l2 s1.keeps s2.owned in
    let p3 = Present-Keeps st3 st' (st.cr3 pid) (index_at 39 v) l3 k2 own3 s3.present in
    let p2 = Present-Keeps st2 st' l3 (index_at 30 v) l2 k1 own2 s2.present in
    let p1 = Present-Keeps st1 st' l2 (index_at 21 v) l1 k0 own1 s1.present in
    let top : Present st' (st'.cr3 pid) (index_at 39 v) l3 =
      subst (λ t. Present st' t (index_at 39 v) l3) (sym (k3.same_cr3 pid)) p3 in
    (is_paged_of_lines st' pid v l3 l2 l1 top p2 p1 there, k3)

-- Mapping an address of a process, where it does not panic: the address is paged afterwards; no
-- line that was there in a table in use has changed, and no block was given back. Of the tables on
-- the way down, those that are there stand in blocks in use, and memory ends at 2 ^ 40 blocks at
-- most.
pub increase_paging-is_paged :
    (first total phys_addr : ℕ) (st : Paging) (pid v : ℕ) {r : ℕ} {st' : Paging}
    → first ≤ total
    → total ≤ 2 ^ 40
    → Owned st (st.cr3 pid)
    → Walk st v 3 (st.cr3 pid)
    → increase_paging_of_process_with_virt_addr first total phys_addr st pid v ≡ some (r, st')
    → (is_paged st' pid v ≡ true) × Keeps st st'
unfolding increase_paging_of_process_with_virt_addr
increase_paging-is_paged first total phys_addr st pid v {r} {st'} order room own walk e =
    let top = st.cr3 pid in
    let (l3, st3, e3, rest3) = after_step-some _ _ e in
    let (s3, w3) = next_table-Steps first total order room st v 2 top own walk e3 in
    let (l2, st2, e2, rest2) = after_step-some _ _ rest3 in
    let (s2, w2) = next_table-Steps first total order room st3 v 1 l3 s3.owned w3 e2 in
    let (l1, st1, e1, rest1) = after_step-some _ _ rest2 in
    let (s1, w1) = next_table-Steps first total order room st2 v 0 l2 s2.owned w2 e1 in
    let (k0, there) =
      next_block-there first total order room phys_addr st1 l1 (index_at 12 v) rest1 in
    walk_end st st3 st2 st1 st' pid v l3 l2 l1 own s3 s2 s1 k0 there
