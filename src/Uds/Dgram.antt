-- ===== src/Uds/Dgram.antt =====
-- The datagrams of core/network/af_unix/dgram.h.
use carrotos.Base.Step.{◌>>=◌}
use carrotos.Base.{
  ℕ, ◌-◌, ◌/◌, Bool, true, false, ◌&&◌, not, Option, none, some, List, [], ◌++◌, ◌==◌,
  if◌then◌else◌, ltb, length, take, replicate,
}
use carrotos.Thread.{Thread}
use carrotos.Thread.State.{ready, blocked_network}
use carrotos.Thread.State as ThreadState
use carrotos.Thread.Table.{each_thread}
use carrotos.Sync.{sleep_by_resource, einval}
use carrotos.Text.{Text, strequal}
use carrotos.Uds.{
  closed, bound, established, dgram, uds_state_is, type_is, UdsSocket, Uds, recv_flag,
  uds_socket_at, put_uds_socket, with_state,
}
use carrotos.Base.Slots.{find_strict}
use carrotos.Uds.Table.{find_socket_uds_with_local_addr}
use carrotos.Uds.Stream.{append_bytes, pull_bytes}

abbrev pub is_dgram : UdsSocket → Bool
is_dgram s = type_is s.tuple.type dgram

unfoldable pub handle_dgram_bind : (socket_id : ℕ) → Text → Uds → Option (Bool × Uds)
handle_dgram_bind socket_id path u = do
  sock ← uds_socket_at u socket_id
  let named = record sock { tuple = record sock.tuple { local_path = path } }
  some (
      if not (is_dgram sock) then (false, u) else (
        true,
        put_uds_socket socket_id
            (if uds_state_is sock.tuple.state closed then with_state bound named else named) u,
      ))

-- Both sockets are marked, the one that is found and then the caller's.
unfoldable pub handle_connect_dgram : (socket_id : ℕ) → Text → Uds → Option (Bool × Uds)
unfolding find_strict strequal
handle_connect_dgram socket_id path u = do
  sock ← uds_socket_at u socket_id
  (if not (is_dgram sock) then some (false, u) else do
    found ←
        find_strict
          (λ s.
            is_dgram s
            && strequal s.tuple.local_path path
            && not (uds_state_is s.tuple.state closed))
          u.sockets 0
    elim found [
      | none ↦ some (false, u)
      | some i ↦ do
        other ← uds_socket_at u i
        let marked = put_uds_socket i (with_state established other) u
        own ← uds_socket_at marked socket_id
        let aimed = record own { tuple = record own.tuple { remote_path = path } }
        some (true, put_uds_socket socket_id (with_state established aimed) marked)
    ])

-- What a read returns: a count, an error or, where the code ends without `return`, nothing known.
pub data Count : Type 0 where
  undefined : Count
  error : ℕ → Count
  count : ℕ → Count

abbrev pub dgram_mtu : ℕ
dgram_mtu = 1024

-- One read of a whole slot into `tmp_buf`, of which the first `len` bytes go to the caller.
unfoldable pub read_slot : (socket_id len : ℕ) → Uds → Option (ℕ × List ℕ × Uds)
unfolding pull_bytes
read_slot socket_id len u = do
  t ← uds_socket_at u socket_id
  let (rs, bytes, pulled) = pull_bytes u.dgram_slots_size dgram_mtu t
  let tmp_buf = bytes ++ replicate (dgram_mtu - length bytes) 0
  some (rs, take len tmp_buf, put_uds_socket socket_id pulled u)

-- The word of `len_records` that both reads look at, the one of the slot of `head`.
unfoldable pub record_at_head : (len_records : ℕ → ℕ) → UdsSocket → ℕ
record_at_head len_records t = len_records (t.tuple.head / dgram_mtu)

abbrev pub at_most : ℕ → ℕ → ℕ
at_most payload_len len = if ltb payload_len len then payload_len else len

unfoldable pub read_socket_dgram_non_blocking :
    (len_records : ℕ → ℕ) → (socket_id payload_len : ℕ) → Uds → Option (Count × List ℕ × Uds)
unfolding read_slot record_at_head
read_socket_dgram_non_blocking len_records socket_id payload_len u = do
  t ← uds_socket_at u socket_id
  let len = record_at_head len_records t
  (rs, payload, read) ← read_slot socket_id payload_len u
  some (
    if not (rs == 0) && not (len == 0) then count (at_most payload_len len) else undefined,
    payload,
    read,
  )

-- The blocking read up to its sleep: it has read, or the caller `tid` sleeps with the length in
-- hand.
pub data Began : Type 0 where
  returns : Count → List ℕ → Uds → Began
  sleeps : (len : ℕ) → Uds → Began

unfoldable pub read_socket_dgram_blocking :
    (len_records : ℕ → ℕ) → (tid socket_id payload_len : ℕ) → Uds → Option Began
unfolding read_slot record_at_head sleep_by_resource
read_socket_dgram_blocking len_records tid socket_id payload_len u = do
  t ← uds_socket_at u socket_id
  let len = record_at_head len_records t
  (rs, payload, read) ← read_slot socket_id payload_len u
  (if not (rs == 0) then some (returns (count (at_most payload_len len)) payload read) else do
    threads ← sleep_by_resource (recv_flag t) blocked_network tid read.threads
    some (sleeps len (record read { threads = threads })))

-- After the sleep. No state of a local socket has the number of `NET_STATE_CLOSE_WAIT`.
unfoldable pub read_socket_dgram_woken :
    (len socket_id payload_len : ℕ) → Uds → Option (Count × List ℕ × Uds)
unfolding read_slot
read_socket_dgram_woken len socket_id payload_len u = do
  (rs, payload, read) ← read_slot socket_id payload_len u
  some (count (at_most payload_len len), payload, read)

unfoldable pub read_socket_dgram :
    (len_records : ℕ → ℕ)
    → (tid socket_id payload_len : ℕ) → (flags_non_blocking : Bool) → Uds
    → Option Began
unfolding read_socket_dgram_blocking read_socket_dgram_non_blocking
read_socket_dgram len_records tid socket_id payload_len flags_non_blocking u =
    if ltb dgram_mtu payload_len
    then some (returns (error einval) [] u)
    else if not flags_non_blocking
    then read_socket_dgram_blocking len_records tid socket_id payload_len u
    else do
      (rs, payload, read) ← read_socket_dgram_non_blocking len_records socket_id payload_len u
      some (returns rs payload read)

-- `socket_append_uds`, and the read of the same ring by `read_socket_by_id_uds`.
unfoldable pub socket_append_uds : (socket_id : ℕ) → List ℕ → Uds → Option (ℕ × Uds)
unfolding append_bytes
socket_append_uds socket_id payload u = do
  t ← uds_socket_at u socket_id
  let (rs, filled_up) = append_bytes u.dgram_size payload t
  some (rs, put_uds_socket socket_id filled_up u)

unfoldable pub read_socket_by_id_uds : (socket_id payload_len : ℕ) → Uds → Option (ℕ × List ℕ × Uds)
unfolding pull_bytes
read_socket_by_id_uds socket_id payload_len u = do
  t ← uds_socket_at u socket_id
  let (rs, bytes, pulled) = pull_bytes u.dgram_size payload_len t
  some (rs, bytes, put_uds_socket socket_id pulled u)

unfoldable pub wake_receiver : (flag_addr : ℕ) → ℕ → Thread → Thread
unfolding ThreadState.state_is
wake_receiver flag_addr i t =
    if ThreadState.state_is t.state blocked_network && t.sleep_flag_addr == flag_addr
    then record t { state = ready }
    else t

unfoldable pub handle_dgram_packet : Text → List ℕ → Uds → Option (Bool × Uds)
unfolding find_socket_uds_with_local_addr socket_append_uds each_thread wake_receiver
handle_dgram_packet path payload u = if length payload == 0 then some (false, u) else do
  found ← find_socket_uds_with_local_addr path u
  elim found [
    | none ↦ some (false, u)
    | some socket_id ↦ do
      (rs, appended) ← socket_append_uds socket_id payload u
      sock ← uds_socket_at appended socket_id
      let threads = each_thread (wake_receiver (recv_flag sock)) 0 appended.threads
      some (true, record appended { threads = threads })
  ]

unfoldable pub handle_dgram : (socket_id : ℕ) → List ℕ → Uds → Option Uds
unfolding handle_dgram_packet
handle_dgram socket_id buf u = do
  sock ← uds_socket_at u socket_id
  (found, handled) ← handle_dgram_packet sock.tuple.local_path buf u
  some handled
