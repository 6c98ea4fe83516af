-- ===== src/Process/Table.antt =====
-- Reading and writing the process table.
use carrotos.Base.{
  ℕ, ◌<◌, ◌≡◌, Option, none, some, [], ◌∷◌, zero, suc, arith, length, get_or, set, get_or-set_self,
  get_or-set_ne, ◌==◌, if◌then◌else◌, Bool-cases, inl, inr, ◌≢◌,
}
use carrotos.Process.{Process, Processes}

-- `processes_info_ptr[i]`; past the end of the table there is no process.
abbrev pub process_at : Processes → ℕ → Option Process
process_at ps i = get_or ps i none

-- A store of a changed process at a slot that holds one.
abbrev pub put_process : Processes → ℕ → Process → Processes
put_process ps i p = set ps i (some p)

-- A slot that holds a process lies in the table.
pub process_at-lt :
    (ps : Processes) (i : ℕ) {p : Process} → process_at ps i ≡ some p → i < length ps
process_at-lt [] i h = cc
process_at-lt (x ∷ ps) zero h = omega arith
process_at-lt (x ∷ ps) (suc i) h = omega (arith, process_at-lt ps i h)

-- A slot after a store.
pub process_at-put_process :
    (ps : Processes) (c : ℕ) (p : Process) (i : ℕ)
    → c < length ps
    → process_at (put_process ps c p) i ≡ (if i == c then some p else process_at ps i)
process_at-put_process ps c p i h = elim (Bool-cases (i == c)) [
  | inl e ↦ let same : i ≡ c = ground arith in rw (e, same) (get_or-set_self ps c (some p) none h)
  | inr e ↦ let ne : c ≢ i = ground arith in rw e (get_or-set_ne ps (some p) none ne)
]
