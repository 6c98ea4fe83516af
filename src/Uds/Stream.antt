-- ===== src/Uds/Stream.antt =====
-- The streams of core/network/af_unix/stream.h.
use carrotos.Base.Step.{◌>>=◌}
use carrotos.Base.{
  ℕ, ◌+◌, ◌*◌, ◌^◌, Bool, true, false, ◌&&◌, ◌||◌, not, Option, none, some, List, [], ◌∷◌, ◌++◌,
  ◌==◌, if◌then◌else◌, length, drop, replicate,
}
use carrotos.Base.Slots
use carrotos.Base.Slots.{find_slot}
use carrotos.Fifo.{fifo_read8, fifo_write8}
use carrotos.Thread.{Thread}
use carrotos.Thread.State.{ready, blocked_uds}
use carrotos.Thread.State as ThreadState
use carrotos.Thread.Table.{put_thread}
use carrotos.Net.Tcp.{bytes_of}
use carrotos.Text.{Text, strequal, minus_one}
use carrotos.Uds.{
  closed, bound, listen, backlog_client, backlog_server, stream, uds_state_is, type_is, UdsSocket,
  UdsListen, Uds, listen_flag, uds_socket_at, put_uds_socket, with_state,
}
use carrotos.Uds.Table.{create_listen_stream, create_socket_stream}

abbrev pub is_stream : UdsSocket → Bool
is_stream s = type_is s.tuple.type stream

-- A ring behind a socket takes the bytes that fit; how many they were.
unfoldable pub append_bytes : (size : ℕ) → List ℕ → UdsSocket → ℕ × UdsSocket
unfolding fifo_write8
append_bytes size bytes s =
    let w = fifo_write8 s.buffer s.tuple.tail s.tuple.head size bytes in
    (w.count, record s { buffer = w.buf; tuple = record s.tuple { head = w.head } })

-- It gives out the oldest bytes, at most `len`; how many, and which.
unfoldable pub pull_bytes : (size len : ℕ) → UdsSocket → ℕ × List ℕ × UdsSocket
unfolding fifo_read8
pull_bytes size len s =
    let r = fifo_read8 s.buffer s.tuple.tail s.tuple.head size len in
    (r.count, r.out, record s { tuple = record s.tuple { tail = r.tail } })

-- The number that bytes in memory stand for.
unfoldable pub of_bytes : List ℕ → ℕ
of_bytes [] = 0
of_bytes (b ∷ bs) = b + 2 ^ 8 * of_bytes bs

-- Bytes stored over the first of a variable that held -1.
unfoldable pub over_ones : List ℕ → ℕ
unfolding of_bytes
over_ones bytes = of_bytes (bytes ++ drop (length bytes) (replicate 8 255))

unfoldable pub push_backlog_stream : (child_sockid listener_id : ℕ) → Uds → Option (ℕ × Uds)
unfolding append_bytes bytes_of
push_backlog_stream child_sockid listener_id u = do
  lis ← uds_socket_at u listener_id
  let (count, pushed) = append_bytes u.backlog_size (bytes_of 8 child_sockid) lis
  some (count, put_uds_socket listener_id pushed u)

unfoldable pub pull_backlog_stream : (listener_id : ℕ) → Uds → Option (ℕ × Uds)
unfolding pull_bytes over_ones
pull_backlog_stream listener_id u = do
  lis ← uds_socket_at u listener_id
  let (count, bytes, pulled) = pull_bytes u.backlog_size 8 lis
  some (if count == 0 then minus_one else over_ones bytes, put_uds_socket listener_id pulled u)

unfoldable pub handle_stream_bind : (socket_id : ℕ) → Text → Uds → Option (Bool × Uds)
handle_stream_bind socket_id path u = do
  sock ← uds_socket_at u socket_id
  some (
      if not (is_stream sock) then (false, u) else (
        true,
        put_uds_socket socket_id
            (with_state bound (record sock { tuple = record sock.tuple { local_path = path } })) u,
      ))

-- A listener at a path.
unfoldable pub listens_at : Text → UdsSocket → Bool
unfolding strequal
listens_at path s =
    is_stream s && strequal s.tuple.local_path path && uds_state_is s.tuple.state listen

-- What the call stores in the socket.
abbrev pub listening : UdsSocket → UdsSocket
listening s =
    with_state listen (record s { tuple = record s.tuple { head = 0; tail = 0; remote_path = [] } })

-- The index that is returned becomes a Boolean.
unfoldable pub handle_stream_listen :
    (is_copy : UdsListen → Bool) → (new_addr socket_id : ℕ) → Uds → Option (Bool × Uds)
unfolding find_slot listens_at create_listen_stream
handle_stream_listen is_copy new_addr socket_id u = do
  sock ← uds_socket_at u socket_id
  let (i, listed) =
      create_listen_stream is_copy new_addr (listening sock).tuple
        (put_uds_socket socket_id (listening sock) u)
  some (
      if not (is_stream sock) || not (uds_state_is sock.tuple.state bound)
      then (false, u)
      else elim (find_slot (listens_at sock.tuple.local_path) u.sockets 0) [
        | some other ↦ (false, u)
        | none ↦ (not (i == 0), listed)
      ])

-- A thread that waits for a local socket at the flag.
unfoldable pub waits_at : (flag_addr : ℕ) → Thread → Bool
unfolding ThreadState.state_is
waits_at flag_addr t = ThreadState.state_is t.state blocked_uds && t.sleep_flag_addr == flag_addr

-- `return i` and `return -1` as Booleans.
unfoldable pub resume_first_thread_pending_on_listen_stream :
    (listener_id : ℕ) → Uds → Option (Bool × Uds)
unfolding find_slot waits_at
resume_first_thread_pending_on_listen_stream listener_id u = do
  lis ← uds_socket_at u listener_id
  elim (find_slot (waits_at (listen_flag lis)) u.threads 0) [
    | none ↦ some (true, u)
    | some i ↦ do
      t ← Slots.slot_at u.threads i
      some
          (not (i == 0), record u { threads = put_thread u.threads i (record t { state = ready }) })
  ]

-- Both ends of a new connection know each other.
unfoldable pub link : (client_sock_id listening_sock_id : ℕ) → ℕ × Uds → Option Uds
unfolding push_backlog_stream resume_first_thread_pending_on_listen_stream
link client_sock_id listening_sock_id (server_sock_id, u) = do
  server ← uds_socket_at u server_sock_id
  let server_known =
      put_uds_socket server_sock_id
        (with_state backlog_server (record server {
          tuple = record server.tuple { type = stream };
          peer_id = client_sock_id;
        }))
        u
  client ← uds_socket_at server_known client_sock_id
  let linked =
      put_uds_socket client_sock_id (record client { peer_id = server_sock_id }) server_known
  (count, pushed) ← push_backlog_stream server_sock_id listening_sock_id linked
  (woke, woken) ← resume_first_thread_pending_on_listen_stream listening_sock_id pushed
  some woken

-- `zeros` is the local structure `tmp`, whose bytes are all zero.
unfoldable pub handle_connect_stream :
    (new_addr : ℕ)
    → (fresh : List ℕ) → (zeros : UdsSocket) → (client_sock_id : ℕ) → Text
    → Uds
    → Option (Bool × Uds)
unfolding find_slot listens_at create_socket_stream link
handle_connect_stream new_addr fresh zeros client_sock_id path u = do
  client ← uds_socket_at u client_sock_id
  (if not (is_stream client)
      then some (false, u)
      else if not (uds_state_is client.tuple.state closed)
          && not (uds_state_is client.tuple.state bound)
      then some (false, u)
      else elim (find_slot (listens_at path) u.sockets 0) [
        | none ↦ some (false, u)
        | some listening_sock_id ↦ do
          connected ← link client_sock_id listening_sock_id (
              create_socket_stream new_addr fresh zeros
                (put_uds_socket client_sock_id (with_state backlog_client client) u))
          some (true, connected)
      ])
