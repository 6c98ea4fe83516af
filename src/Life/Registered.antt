-- ===== src/Life/Registered.antt =====
-- What registering a thread leaves, core/scheduler.h.
use carrotos.Base.{
  ℕ, ◌+◌, ◌-◌, ◌*◌, ◌≤◌, ◌<◌, ◌≡◌, ◌≢◌, refl, sym, inl, inr, Bool, Bool-cases, true, false, none,
  some, ◌∷◌, arith, ◌==◌, ltb, if◌then◌else◌, length, Option-cases,
}
use mathlib.Core.Path.{subst}
use carrotos.Base.Slots.{slot_at-put_self, slot_at-put_ne}
use carrotos.Base.Step.{◌>>=◌, >>=-eq-some}
use carrotos.Thread.{Threads}
use carrotos.Thread.State.{not_exist}
use carrotos.Thread.Table.{thread_at, put_thread}
use carrotos.Memory.{get_a_free_slot}
use carrotos.Memory.FirstFit.{FirstFit, found_at}
use carrotos.Memory.Blocks.{get_a_free_slot-FirstFit}
use carrotos.Life.{System, Limits, start_context, new_thread}
use carrotos.Paging.{Paging, hm}
use carrotos.Life.Create.{
  slot_word, find_thread_slot, find_stack_top, map_stack, thread_blocks, place_thread,
  register_a_thread,
}

-- A free slot inside the table, the first from `start` on.
pub record IsFirstFree (ts : Threads) (start i : ℕ) : Type 0 where
  pub from : start ≤ i
  pub inside : i < length ts
  pub free : thread_at ts i ≡ none

found-lo : {p : ℕ → Bool} {lo hi k : ℕ} → FirstFit p lo hi (some k) → (lo ≤ k) × (p k ≡ true)
found-lo (found_at r ge lt hit before) = (ge, hit)

slot_word-free :
    (past : ℕ) (ts : Threads) (i : ℕ)
    → i < length ts
    → (slot_word past ts i == 0) ≡ true
    → thread_at ts i ≡ none
unfolding slot_word
slot_word-free past ts i inside h =
    let test : ltb i (length ts) ≡ true = ground arith in
    elim (Option-cases (thread_at ts i)) [
      | inl e ↦ e
      | inr p ↦ let taken : (slot_word past ts i == 0) ≡ false = rw test (rw p.1 refl) in cc
    ]

find_thread_slot-IsFirstFree :
    (lim : Limits) (start : ℕ) (ts : Threads) {i : ℕ}
    → start ≤ length ts
    → find_thread_slot lim start ts ≡ some i
    → IsFirstFree ts start i
unfolding find_thread_slot
find_thread_slot-IsFirstFree lim start ts {i} ok h =
    let (k, found, kept) =
      >>=-eq-some (get_a_free_slot (slot_word lim.past ts) start (length ts))
        (λ j. if ltb j (length ts) then some j else none) h in
    elim (Bool-cases (ltb k (length ts))) [
      | inl e ↦
          let same : k ≡ i = let kept' : some k ≡ some i = rw e at kept in cc in
          let inside : k < length ts = ground arith in
          let fit : FirstFit (λ j. slot_word lim.past ts j == 0) start (length ts + 1) (some k) =
            subst (FirstFit (λ j. slot_word lim.past ts j == 0) start (length ts + 1)) found
              (get_a_free_slot-FirstFit (slot_word lim.past ts) start (length ts) ok) in
          subst (IsFirstFree ts start) same (record {
            from = (found-lo fit).0;
            inside = inside;
            free = slot_word-free lim.past ts k inside (found-lo fit).1;
          })
      | inr e ↦ let kept' : none ≡ some i = rw e at kept in cc
    ]

-- What a thread that has been registered is: its slot was free, its stack was not mapped, and all
-- else in the tables is unchanged.
pub record Registers (sys : System) (pid entry_point_addr h : ℕ) (v : System) : Type 0 where
  pub stack : ℕ
  pub kernel_stack : ℕ
  pub slot : IsFirstFree sys.threads 2 h
  pub there :
      thread_at v.threads h
      ≡ some (
          new_thread pid h not_exist stack kernel_stack 0
            (start_context stack entry_point_addr 0x23 0x1b))
  pub others : (i : ℕ) → i ≢ h → thread_at v.threads i ≡ thread_at sys.threads i
  pub processes : v.processes ≡ sys.processes

module _ (lim : Limits) (pid entry_point_addr top addr : ℕ) (sys : System) {h : ℕ}
    {v : System} where
  place_thread-Registers :
      (paging : Paging)
      → 2 ≤ length sys.threads
      → place_thread lim pid entry_point_addr top addr paging sys ≡ some (h, v)
      → Registers sys pid entry_point_addr h v
  unfolding place_thread
  place_thread-Registers paging ok done =
      let made = λ (i : ℕ).
        new_thread pid i not_exist top (addr + 5 * 4096) 0
          (start_context top entry_point_addr 0x23 0x1b) in
      let after = λ (i : ℕ). record sys {
        threads = put_thread sys.threads i (made i);
        paging = paging;
        raised = (pid + 4) ∷ sys.raised;
      } in
      let (i, slot, kept) =
        >>=-eq-some (find_thread_slot lim 2 sys.threads) (λ i. some (i, after i)) done in
      let free = find_thread_slot-IsFirstFree lim 2 sys.threads ok slot in
      let same : i ≡ h = cc in
      let result : after i ≡ v = cc in
      subst (λ w. Registers sys pid entry_point_addr h w) result
        (subst (λ j. Registers sys pid entry_point_addr j (after i)) same
          (record {
            stack = top;
            kernel_stack = addr + 5 * 4096;
            slot = free;
            there = slot_at-put_self sys.threads i (made i) free.inside;
            others = λ j ne. slot_at-put_ne sys.threads (made i) (λ e. ne (sym e));
            processes = refl;
          }))

module _ (lim : Limits) (turns pid entry_point_addr : ℕ) (sys : System) {h : ℕ} {v : System}
    (ok : 2 ≤ length sys.threads)
    (done : register_a_thread lim turns pid entry_point_addr sys ≡ some (h, v)) where
  -- Where registering a thread returns, the new thread stands in the first free slot from 2 on.
  pub register_a_thread-Registers : Registers sys pid entry_point_addr h v
  unfolding register_a_thread
  register_a_thread-Registers =
      let place =
        λ (top : ℕ) (b : ℕ × Paging). place_thread lim pid entry_point_addr top b.0 b.1 sys in
      let (top, found, rest) =
        >>=-eq-some (find_stack_top sys.paging pid turns (hm - 4096))
          (λ t. map_stack lim pid t 4 0 sys.paging >>= (λ m. thread_blocks lim m >>= place t))
          done in
      let (mapped, m, rest2) =
        >>=-eq-some (map_stack lim pid top 4 0 sys.paging) (λ m. thread_blocks lim m >>= place top)
          rest in
      let (blocks, b, placed) = >>=-eq-some (thread_blocks lim mapped) (place top) rest2 in
      place_thread-Registers lim pid entry_point_addr top blocks.0 sys blocks.1 ok placed
