-- ===== src/Input/Stuck.antt =====
-- A console whose reader has taken one line.
use carrotos.Base.{
  ℕ, zero, suc, ◌+◌, ◌%◌, ◌≤◌, ◌<◌, ◌≡◌, ◌≢◌, refl, sym, ap, ◌∙◌, true, false, Option, none, some,
  List, inl, inr, arith, ◌==◌, ltb, get_or, Bool-cases, if◌then◌else◌,
}
use mathlib.Core.Path.{subst}
use carrotos.Fifo.{next, read_loop, fifo_read16}
use carrotos.Thread.{Threads}
use carrotos.Process.{Process}
use carrotos.Input.Tty.{InputKey, Tty, mode_cli, tty_size, no_key, access_tty_allowed}
use carrotos.Input.Line.{
  find_enter, line_before, read_input_line_to_thread_buffer, read_by_mode, tty_read_key_halt,
  wait_key_current_thread, asleep,
}

-- The pointer of a ring of keys, `n` cells on.
abbrev pub place : ℕ → ℕ → ℕ
place tail n = (n + tail) % tty_size

place_zero : {tail : ℕ} → tail < tty_size → place tail 0 ≡ tail
place_zero h = omega arith

next-place : (tail n : ℕ) → next tty_size (place tail n) ≡ place tail (n + 1)
next-place tail n = omega arith

-- What the search tells of the key that it came to, and of a read of the keys before it.
record IsEnter (buf : List InputKey) (tail head i j n : ℕ) : Type 0 where
  found : i ≡ j + n
  in_use : place tail i == head ≡ false
  enter : (get_or buf (place tail i) no_key).key == 10 ≡ true
  reaches : (c : ℕ) → (read_loop no_key buf head tty_size n (place tail j) c).tail ≡ place tail i

module _ (buf : List InputKey) (tail head : ℕ) where
  IsEnter-here :
      (j : ℕ)
      → place tail j == head ≡ false
      → (get_or buf (place tail j) no_key).key == 10 ≡ true
      → IsEnter buf tail head j j 0
  unfolding read_loop
  IsEnter-here j e f = record { found = omega arith; in_use = e; enter = f; reaches = λ c. refl }

  find_enter-IsEnter :
      (k j : ℕ) {i : ℕ}
      → find_enter buf tail head k j ≡ some i
      → (n : ℕ) × IsEnter buf tail head i j n
  unfolding find_enter read_loop
  find_enter-IsEnter zero j h = cc
  find_enter-IsEnter (suc k) j {i} h = elim (Bool-cases (place tail j == head)) [
    | inl e ↦ let nothing : none ≡ some i = rw e at h in cc
    | inr e ↦ elim (Bool-cases ((get_or buf (place tail j) no_key).key == 10)) [
      | inl f ↦
          let same : some j ≡ some i = rw (e, f) at h in
          let here : j ≡ i = cc in
          (0, subst (λ z. IsEnter buf tail head z j 0) here (IsEnter-here j e f))
      | inr f ↦
          let later : find_enter buf tail head k (j + 1) ≡ some i = rw (e, f) at h in
          let (n, v) = find_enter-IsEnter k (j + 1) later in
          (
            suc n,
            record {
              found = omega (arith, v.found);
              in_use = v.in_use;
              enter = v.enter;
              reaches = λ c. rw e (
                  ap (λ z. (read_loop no_key buf head tty_size n z (c + 1)).tail)
                    (next-place tail j)
                  ∙ v.reaches (c + 1));
            },
          )
    ]
  ]

-- A search that starts at an enter comes to it at once.
find_enter_at :
    (buf : List InputKey) (tail head k : ℕ)
    → tail < tty_size
    → tail == head ≡ false
    → (get_or buf tail no_key).key == 10 ≡ true
    → find_enter buf tail head (suc k) 0 ≡ some 0
unfolding find_enter
find_enter_at buf tail head k inside e f = rw (place_zero inside, e, f) refl

-- A search from the tail on.
from_tail :
    (t : Tty) {i : ℕ}
    → t.in_tail < tty_size
    → find_enter t.input_buf t.in_tail t.in_head tty_size 0 ≡ some i
    → IsEnter t.input_buf t.in_tail t.in_head i 0 i
from_tail t {i} inside h =
    let (n, v) = find_enter-IsEnter t.input_buf t.in_tail t.in_head tty_size 0 h in
    subst (λ z. IsEnter t.input_buf t.in_tail t.in_head i 0 z) (omega (arith, v.found)) v

unequal : {a b : ℕ} → a ≢ b → b == a ≡ false
unequal h = ground arith

at_most : (i len : ℕ) → i ≤ len → (if ltb i len then i else len) ≡ i
at_most i len h = ground arith

-- A reader that takes the line whole leaves the tail at the enter.
line-tail :
    (t : Tty) (len : ℕ) {i : ℕ}
    → t.in_tail < tty_size
    → find_enter t.input_buf t.in_tail t.in_head tty_size 0 ≡ some i
    → i ≤ len
    → (read_input_line_to_thread_buffer t len).tail ≡ place t.in_tail i
unfolding read_input_line_to_thread_buffer line_before fifo_read16
line-tail t len {i} inside h fits =
    ap (λ f. (line_before t len f).tail) h
    ∙ ap (λ n. (read_loop no_key t.input_buf t.in_head tty_size n t.in_tail 0).tail)
        (at_most i len fits)
    ∙ ap (λ z. (read_loop no_key t.input_buf t.in_head tty_size i z 0).tail)
        (sym (place_zero inside))
    ∙ (from_tail t inside h).reaches 0

-- A reader at an enter gets nothing.
line_at_enter :
    (t : Tty) (len : ℕ)
    → t.in_tail < tty_size
    → t.in_tail == t.in_head ≡ false
    → (get_or t.input_buf t.in_tail no_key).key == 10 ≡ true
    → (read_input_line_to_thread_buffer t len).count ≡ 0
unfolding read_input_line_to_thread_buffer line_before
line_at_enter t len inside e f =
    let here : find_enter t.input_buf t.in_tail t.in_head tty_size 0 ≡ some 0 =
      find_enter_at t.input_buf t.in_tail t.in_head 887 inside e f in
    ap (λ f. (line_before t len f).count) here ∙ at_most 0 len (omega arith)

-- Where a console's ring has an enter and a reader takes the line before it whole, the enter stays
-- behind: in every later state of the terminal in which that cell is still in use and holds the
-- enter, whatever keys were typed after it, a read finds no key and the reader sleeps again.
pub tty_read_key_halt_sticks :
    (t later : Tty) (len : ℕ) {i : ℕ}
    → t.in_tail < tty_size
    → find_enter t.input_buf t.in_tail t.in_head tty_size 0 ≡ some i
    → i ≤ len
    → (lock_addr tid : ℕ) (proc : Option Process) (buffer_size : ℕ) (ts : Threads)
    → later.in_tail ≡ (read_input_line_to_thread_buffer t len).tail
    → get_or later.input_buf later.in_tail no_key ≡ get_or t.input_buf later.in_tail no_key
    → later.in_head ≢ later.in_tail
    → later.mode ≡ mode_cli
    → access_tty_allowed (some later) proc ≡ true
    → tty_read_key_halt lock_addr tid proc later buffer_size ts
      ≡ asleep (wait_key_current_thread lock_addr tid ts)
unfolding tty_read_key_halt read_by_mode read_input_line_to_thread_buffer
tty_read_key_halt_sticks t later len {i} inside h fits lock_addr tid proc buffer_size ts tail cell
      apart cli ok =
    let v = from_tail t inside h in
    let at_enter : later.in_tail ≡ place t.in_tail i = tail ∙ line-tail t len inside h fits in
    let key : (get_or later.input_buf later.in_tail no_key).key == 10 ≡ true =
      ap (λ k. k.key == 10) cell
      ∙ ap (λ z. (get_or t.input_buf z no_key).key == 10) at_enter
      ∙ v.enter in
    let nothing = line_at_enter later buffer_size (omega (arith, at_enter)) (unequal apart) key in
    rw (ok, cli, nothing) refl
