-- ===== src/Thread/Table.antt =====
-- Reading and writing the thread table.
use carrotos.Base.{
  ℕ, zero, suc, ◌+◌, ◌<◌, ◌≡◌, ◌≢◌, refl, ap, ◌∙◌, Option, none, some, [], ◌∷◌, arith, length,
  get_or, set, length-set, get_or-set_self, get_or-set_ne, ◌==◌, if◌then◌else◌, Bool-cases, inl,
  inr,
}
use carrotos.Thread.{Thread, Threads}

-- `threads_info_ptr[i]`; past the end of the table there is no thread.
abbrev pub thread_at : Threads → ℕ → Option Thread
thread_at ts i = get_or ts i none

-- A store of a changed thread at a slot that holds one.
abbrev pub put_thread : Threads → ℕ → Thread → Threads
put_thread ts i t = set ts i (some t)

-- `for (i = 0; i < MAX_THREADS_COUNT; i++)` over the slots that hold a thread, each changed on its
-- own; the function is told the slot.
unfoldable pub each_thread : (ℕ → Thread → Thread) → ℕ → Threads → Threads
each_thread f i [] = []
each_thread f i (none ∷ ts) = none ∷ each_thread f (i + 1) ts
each_thread f i (some t ∷ ts) = some (f i t) ∷ each_thread f (i + 1) ts

unfoldable pub map_option : (Thread → Thread) → Option Thread → Option Thread
map_option f none = none
map_option f (some t) = some (f t)

-- What the loop leaves in a slot.
pub thread_at-each_thread :
    (f : ℕ → Thread → Thread) (i : ℕ) (ts : Threads) (j : ℕ)
    → thread_at (each_thread f i ts) j ≡ map_option (f (i + j)) (thread_at ts j)
unfolding each_thread map_option
thread_at-each_thread f i [] j = refl
thread_at-each_thread f i (none ∷ ts) zero = refl
thread_at-each_thread f i (some t ∷ ts) zero =
    let e : i ≡ i + 0 = omega arith in ap (λ k. some (f k t)) e
thread_at-each_thread f i (none ∷ ts) (suc j) =
    let e : i + 1 + j ≡ i + suc j = omega arith in rw (← e) (thread_at-each_thread f (i + 1) ts j)
thread_at-each_thread f i (some t ∷ ts) (suc j) =
    let e : i + 1 + j ≡ i + suc j = omega arith in rw (← e) (thread_at-each_thread f (i + 1) ts j)

pub length-each_thread :
    (f : ℕ → Thread → Thread) (i : ℕ) (ts : Threads) → length (each_thread f i ts) ≡ length ts
unfolding each_thread
length-each_thread f i [] = refl
length-each_thread f i (none ∷ ts) = ap suc (length-each_thread f (i + 1) ts)
length-each_thread f i (some t ∷ ts) = ap suc (length-each_thread f (i + 1) ts)

-- A slot that holds a thread lies in the table.
pub thread_at-lt : (ts : Threads) (i : ℕ) {t : Thread} → thread_at ts i ≡ some t → i < length ts
thread_at-lt [] i h = cc
thread_at-lt (x ∷ ts) zero h = omega arith
thread_at-lt (x ∷ ts) (suc i) h = omega (arith, thread_at-lt ts i h)

-- A slot after a store.
pub thread_at-put_thread :
    (ts : Threads) (c : ℕ) (t : Thread) (i : ℕ)
    → c < length ts
    → thread_at (put_thread ts c t) i ≡ (if i == c then some t else thread_at ts i)
thread_at-put_thread ts c t i h = elim (Bool-cases (i == c)) [
  | inl e ↦ let same : i ≡ c = ground arith in rw (e, same) (get_or-set_self ts c (some t) none h)
  | inr e ↦ let ne : c ≢ i = ground arith in rw e (get_or-set_ne ts (some t) none ne)
]

pub length-put_thread : (ts : Threads) (c : ℕ) (t : Thread) → length (put_thread ts c t) ≡ length ts
length-put_thread ts c t = length-set ts c (some t)

-- The loop from slot 0 on, at a slot that holds a thread.
pub thread_at-each_some :
    (f : ℕ → Thread → Thread) (ts : Threads) (i : ℕ) {t : Thread}
    → thread_at ts i ≡ some t
    → thread_at (each_thread f 0 ts) i ≡ some (f i t)
unfolding map_option
thread_at-each_some f ts i {t} h =
    let e : 0 + i ≡ i = omega arith in
    thread_at-each_thread f 0 ts i ∙ ap (map_option (f (0 + i))) h ∙ ap (λ n. some (f n t)) e
