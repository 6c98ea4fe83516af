-- ===== src/Uds/Table.antt =====
-- The tables of core/network/af_unix/af_unix.h: looking sockets up, creating and deleting them.
-- `memcmp` of two whole structures is a test `is_copy`, since it compares padding, too.
use carrotos.Base.{
  ℕ, ◌+◌, ◌*◌, Bool, true, false, ◌&&◌, ◌||◌, not, Option, none, some, List, [], ◌∷◌, ◌==◌,
  if◌then◌else◌, length, take,
}
use carrotos.Base.Slots.{slot_at, put_slot, clear, free_slot, find_slot, find_strict}
use carrotos.Text.{Text, strequal, minus_one}
use carrotos.Uds.{absent, type_is, UdsTuple, UdsSocket, UdsListen, Uds, uds_number}

unfoldable pub uds_tuple_equal : UdsTuple → UdsTuple → Bool
unfolding strequal
uds_tuple_equal a b =
    if not (strequal a.local_path b.local_path)
    then false
    else if not (strequal a.remote_path b.remote_path)
    then false
    else if not (type_is a.type b.type)
    then false
    else true

-- Whether an entry that is there passes the test.
unfoldable pub any_slot {ℓ} : {A : Type ℓ} → (A → Bool) → List (Option A) → Bool
any_slot test [] = false
any_slot test (none ∷ xs) = any_slot test xs
any_slot test (some a ∷ xs) = test a || any_slot test xs

-- `path_exists` looks the path up in the file system.
unfoldable pub uds_addr_in_use : (path_exists : Text → Bool) → Text → Uds → Bool
unfolding any_slot strequal
uds_addr_in_use path_exists path u =
    any_slot (λ t. not (type_is t.tuple.type absent) && strequal path t.tuple.local_path) u.sockets
    || path_exists path

unfoldable pub find_socket_uds : UdsTuple → Uds → Option ℕ
unfolding find_slot uds_tuple_equal
find_socket_uds tuple u = find_slot (λ s. uds_tuple_equal s.tuple tuple) u.sockets 0

unfoldable pub find_socket_uds_with_local_addr : Text → Uds → Option (Option ℕ)
unfolding find_strict strequal
find_socket_uds_with_local_addr path u =
    find_strict (λ s. strequal path s.tuple.local_path) u.sockets 0

unfoldable pub find_listen_uds : UdsTuple → Uds → Option (Option ℕ)
unfolding find_strict uds_tuple_equal
find_listen_uds tuple u = find_strict (λ l. uds_tuple_equal l.tuple tuple) u.listens 0

-- The paths of a listener, on a socket whose state has the number of `NET_STATE_SYN_RECEIVED`.
unfoldable pub uds_find_ready_connection : (listen_id : ℕ) → Uds → Option (Option ℕ)
unfolding find_strict strequal
uds_find_ready_connection listen_id u = elim (slot_at u.listens listen_id) [
  | none ↦ none
  | some l ↦
      find_strict
        (λ s.
          uds_number s.tuple.state == 3
          && strequal l.tuple.local_path s.tuple.local_path
          && strequal l.tuple.remote_path s.tuple.remote_path)
        u.sockets 0
]

-- A store in the first free entry, and its index; a full table returns its length.
unfoldable pub create_listen_stream :
    (is_copy : UdsListen → Bool) → (new_addr : ℕ) → UdsTuple → Uds → ℕ × Uds
unfolding any_slot free_slot
create_listen_stream is_copy new_addr tuple u =
    if any_slot is_copy u.listens then (minus_one, u) else elim (free_slot u.listens 0) [
      | none ↦ (length u.listens, u)
      | some i ↦
          let entry : UdsListen = record { addr = new_addr; tuple = tuple } in
          (i, record u { listens = put_slot u.listens i entry })
    ]

-- A copy of the structure in new blocks, which hold `fresh` behind it.
abbrev pub placed : (new_addr : ℕ) → (fresh : List ℕ) → ℕ → UdsSocket → UdsSocket
placed new_addr fresh i s = record s {
  addr = new_addr;
  tuple = record s.tuple { id = i };
  buffer = fresh;
}

-- `new_addr` is the address that `get_continuous_free_blocks` gives: where it finds no blocks it
-- panics, and this call has no result.
unfoldable pub create_socket_stream : (new_addr : ℕ) → (fresh : List ℕ) → UdsSocket → Uds → ℕ × Uds
unfolding free_slot
create_socket_stream new_addr fresh tuple u = elim (free_slot u.sockets 0) [
  | none ↦ (length u.sockets, u)
  | some i ↦ (i, record u { sockets = put_slot u.sockets i (placed new_addr fresh i tuple) })
]

unfoldable pub create_socket_dgram :
    (is_copy : UdsSocket → Bool) → (new_addr : ℕ) → (fresh : List ℕ) → UdsSocket → Uds → ℕ × Uds
unfolding any_slot create_socket_stream
create_socket_dgram is_copy new_addr fresh tuple u =
    if any_slot is_copy u.sockets
    then (minus_one, u)
    else create_socket_stream new_addr fresh tuple u

-- The second block that is erased lies 8 * 4096 bytes on, where 4096 were meant.
unfoldable pub delete_listen_i_uds : ℕ → Uds → ℕ × Uds
delete_listen_i_uds id u = elim (slot_at u.listens id) [
  | none ↦ (minus_one, u)
  | some l ↦ (
    0,
    record u { listens = clear u.listens id; erased = (l.addr + 8 * 4096) ∷ l.addr ∷ u.erased },
  )
]

unfoldable pub delete_socket_i_uds : ℕ → Uds → ℕ × Uds
delete_socket_i_uds id u = elim (slot_at u.sockets id) [
  | none ↦ (minus_one, u)
  | some s ↦ (
    0,
    record u { sockets = clear u.sockets id; erased = (s.addr + 8 * 4096) ∷ s.addr ∷ u.erased },
  )
]

-- `delete_socket_uds`: the first socket whose bytes are those of the tuple, among the first
-- `NET_BLOCK_SIZE / 8` entries.
unfoldable pub delete_socket_uds : (is_copy : UdsSocket → Bool) → Uds → ℕ × Uds
unfolding find_slot delete_socket_i_uds
delete_socket_uds is_copy u = elim (find_slot is_copy (take 512 u.sockets) 0) [
  | none ↦ (minus_one, u)
  | some i ↦ delete_socket_i_uds i u
]
