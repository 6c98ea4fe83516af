-- ===== src/Input/Tty.antt =====
-- The terminals, core/input/tty.h: `struct tty`, its modes, who may use it, and the output.
use carrotos.Base.{
  ℕ, zero, suc, ◌+◌, ◌-◌, ◌^◌, Bool, true, false, not, ◌&&◌, ◌||◌, Option, none, some, List, [],
  ◌∷◌, ◌==◌, ltb, if◌then◌else◌, bit_and,
}
use carrotos.Base.Slots.{slot_at, put_slot}
use carrotos.Fifo.{fifo_write16}
use carrotos.Thread.{Thread, Threads}
use carrotos.Thread.State.{state_is, ready, blocked_key}
use carrotos.Process.{Process}

pub record InputKey : Type 0 where
  pub modifier : ℕ
  pub key : ℕ

pub data TtyMode : Type 0 where
  mode_none : TtyMode
  mode_pty : TtyMode
  mode_cli : TtyMode
  mode_gui : TtyMode

pub record Tty : Type 0 where
  pub id : ℕ
  pub foreground_pgid : ℕ
  pub sid : ℕ
  pub in_head : ℕ
  pub in_tail : ℕ
  pub out_head : ℕ
  pub out_tail : ℕ
  pub is_active : ℕ
  pub echo : Bool
  pub mode : TtyMode
  pub input_buf : List InputKey
  pub output_buf : List InputKey

-- `TTY_INPUT_SIZE`, and `TTY_OUTPUT_SIZE`, which is the same.
abbrev pub tty_size : ℕ
tty_size = 888

abbrev pub no_key : InputKey
no_key = record { modifier = 0; key = 0 }

unfoldable pub is_printable : InputKey → Bool
is_printable k = if ltb k.key 0x20 || ltb 0x7E k.key then false else bit_and k.modifier 0xFC == 0

-- The first `n` keys erased.
pub erase_keys : ℕ → List InputKey → List InputKey
erase_keys zero ks = ks
erase_keys (suc n) [] = []
erase_keys (suc n) (k ∷ ks) = no_key ∷ erase_keys n ks

-- `init_tty_with_id(id)` on a block whose memory holds `old`; 888 bytes are half of a table.
unfoldable pub init_tty_with_id : (old : Tty) → ℕ → Tty
unfolding erase_keys
init_tty_with_id old id = record old {
  id = id;
  in_head = 0;
  in_tail = 0;
  out_head = 0;
  out_tail = 0;
  is_active = 0;
  echo = true;
  sid = 2;
  mode = if ltb id 13 then mode_cli else mode_pty;
  input_buf = erase_keys 444 old.input_buf;
  output_buf = erase_keys 444 old.output_buf;
}

-- `assign_tty(pid, tty_id)` on the processes and the terminal found, where a null pointer is
-- `none`: the value returned and the terminal. The current process is followed without a test.
unfoldable pub assign_tty : (current : Process) → Option Process → Option Tty → ℕ × Option Tty
assign_tty current proc none = (2 ^ 64 - 19, none)
assign_tty current none (some tty) = (2 ^ 64 - 3, some tty)
assign_tty current (some proc) (some tty) =
    if not (current.pgid == tty.foreground_pgid) || not (proc.sid == tty.sid)
    then (2 ^ 64 - 1, some tty)
    else (0, some (record tty { foreground_pgid = proc.pgid }))

-- The pointers to the terminals, by number; the terminals themselves are in a store by address.
abbrev pub TtyTable : Type 0
TtyTable = List (Option ℕ)

abbrev put_tty : (ℕ → Tty) → ℕ → Tty → ℕ → Tty
put_tty store addr tty a = if a == addr then tty else store a

-- `tty_global[i]->is_active = 0` for the `k` numbers from `i` on; none at a null pointer.
pub deactivate : TtyTable → ℕ → ℕ → (ℕ → Tty) → Option (ℕ → Tty)
deactivate table i zero store = some store
deactivate table i (suc k) store = elim (slot_at table i) [
  | none ↦ none
  | some addr ↦
      deactivate table (i + 1) k (put_tty store addr (record (store addr) { is_active = 0 }))
]

-- A fault, or the value returned, the table and the terminals; the screen is drawn again where the
-- value is true.
unfoldable pub switch_to_tty : ℕ → TtyTable → (ℕ → Tty) → Option (Bool × TtyTable × (ℕ → Tty))
unfolding deactivate
switch_to_tty tty_id table store =
    if ltb tty_id 1 || ltb 12 tty_id
    then some (false, table, store)
    else elim (deactivate table 1 12 store) [
      | none ↦ none
      | some store' ↦ elim (slot_at table tty_id) [
        | none ↦ some (false, table, store')
        | some addr ↦ some (
          true,
          put_slot table 0 addr,
          put_tty store' addr (record (store' addr) { is_active = 1 }),
        )
      ]
    ]

unfoldable pub access_tty_allowed : Option Tty → Option Process → Bool
access_tty_allowed none proc = false
access_tty_allowed (some tty) none = false
access_tty_allowed (some tty) (some proc) =
    if not (proc.sid == tty.sid)
    then false
    else not (not (tty.foreground_pgid == 0) && not (proc.pgid == tty.foreground_pgid))

-- `wake_thread_by_input_event(lock_addr)`
pub wakes_on_key : ℕ → Thread → Bool
wakes_on_key lock_addr t = state_is t.state blocked_key && t.sleep_flag_addr == lock_addr

unfoldable pub wake_thread_by_input_event : ℕ → Threads → Threads
unfolding wakes_on_key
wake_thread_by_input_event lock_addr [] = []
wake_thread_by_input_event lock_addr (none ∷ ts) = none ∷ wake_thread_by_input_event lock_addr ts
wake_thread_by_input_event lock_addr (some t ∷ ts) =
    some (if wakes_on_key lock_addr t then record t { state = ready } else t)
    ∷ wake_thread_by_input_event lock_addr ts

-- The keys up to the first without a character, and one more: what is returned in a console.
pub shown : List InputKey → ℕ
shown [] = 0
shown (k ∷ ks) = let rest = shown ks in if k.key == 0 then 0 else rest + 1

-- `tty_write_output(tty, data, len)`, the list being `data[0..len)` and `lock_addr` the address of
-- `tty->locked`; `none` for the value where the function ends without one.
unfoldable pub tty_write_output :
    (lock_addr : ℕ) → Option Process → List InputKey → Tty → Threads → Option ℕ × Tty × Threads
unfolding shown
tty_write_output lock_addr proc keys tty ts =
    let w = fifo_write16 tty.output_buf tty.out_tail tty.out_head tty_size keys in
    let tty' = record tty { output_buf = w.buf; out_head = w.head } in
    if not (access_tty_allowed (some tty) proc)
    then (some (2 ^ 64 - 5), tty, ts)
    else (elim tty.mode [
      | mode_pty ↦ (some 0, tty', wake_thread_by_input_event lock_addr ts)
      | mode_cli ↦ (some (shown keys + 1), tty', ts)
      | mode_gui ↦ (some 0, tty', ts)
      | mode_none ↦ (none, tty', ts)
    ])
