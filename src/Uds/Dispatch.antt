-- ===== src/Uds/Dispatch.antt =====
-- What is sent through a local socket and where it goes, core/network/af_unix/af_unix.h, and the
-- calls of stream.h on a connection: accepting it, sending, reading and closing.
use carrotos.Base.Step.{◌>>=◌}
use carrotos.Base.{
  ℕ, ◌-◌, ◌^◌, Bool, true, false, ◌||◌, not, Option, none, some, List, take, ◌==◌, if◌then◌else◌,
}
use carrotos.Base.Slots.{free_slot, put_slot}
use carrotos.Time.{Timeval}
use carrotos.Thread.State.{blocked_uds}
use carrotos.Sync.{sleep_by_resource}
use carrotos.Text.{Text, minus_one}
use carrotos.Uds.{
  closed, established, dgram, stream, uds_state_is, type_is, Uds, recv_flag, listen_flag,
  uds_socket_at, put_uds_socket, with_state,
}
use carrotos.Uds.Table.{find_socket_uds_with_local_addr, delete_listen_i_uds, delete_socket_i_uds}
use carrotos.Uds.Stream.{
  is_stream, append_bytes, pull_bytes, pull_backlog_stream,
  resume_first_thread_pending_on_listen_stream,
}
use carrotos.Uds.Dgram.{handle_dgram}

abbrev pub econnreset : ℕ
econnreset = 2 ^ 64 - 104

abbrev pub eopnotsupp : ℕ
eopnotsupp = 2 ^ 64 - 95

unfoldable pub socket_append_uds_stream : (socket_id : ℕ) → List ℕ → Uds → Option (ℕ × Uds)
unfolding append_bytes
socket_append_uds_stream socket_id payload u = do
  t ← uds_socket_at u socket_id
  let (rs, filled_up) = append_bytes u.stream_size payload t
  some (rs, put_uds_socket socket_id filled_up u)

-- The handler wakes who waits for a connection, not who waits for bytes, and returns false.
unfoldable pub handle_stream_established_packet :
    (socket_id : ℕ) → List ℕ → Uds → Option (Bool × Uds)
unfolding socket_append_uds_stream resume_first_thread_pending_on_listen_stream
handle_stream_established_packet socket_id payload u = do
  sock ← uds_socket_at u socket_id
  (if not (is_stream sock) || not (uds_state_is sock.tuple.state established)
      then some (false, u)
      else do
        (rs, appended) ← socket_append_uds_stream socket_id payload u
        (woke, woken) ← resume_first_thread_pending_on_listen_stream socket_id appended
        some (false, woken))

unfoldable pub handle_stream : (now : Timeval) → (socket_id : ℕ) → List ℕ → Uds → Option (ℕ × Uds)
unfolding handle_stream_established_packet
handle_stream now socket_id buf u = do
  socket ← uds_socket_at u socket_id
  (if not (is_stream socket) || not (uds_state_is socket.tuple.state established)
      then some (econnreset, u)
      else do
        (taken, handled) ← handle_stream_established_packet socket_id buf u
        after ← uds_socket_at handled socket_id
        let stamped = record after { tuple = record after.tuple { last_updated_time_ms = now } }
        some (0, put_uds_socket socket_id stamped handled))

unfoldable pub handle_uds : (now : Timeval) → (uds_sock_id : ℕ) → List ℕ → Uds → Option Uds
unfolding handle_dgram handle_stream
handle_uds now uds_sock_id buf u = do
  tup ← uds_socket_at u uds_sock_id
  (if type_is tup.tuple.type dgram
      then handle_dgram uds_sock_id buf u
      else if type_is tup.tuple.type stream
      then (do (result, handled) ← handle_stream now uds_sock_id buf u; some handled)
      else some u)

-- A `dst_addr` of `none` is the null pointer: the path that the sender holds for its peer is taken.
unfoldable pub uds_send_dispatch :
    (now : Timeval)
    → (sender_uds_sock_id : ℕ) → List ℕ
    → (dst_addr : Option Text) → Uds
    → Option (Bool × Uds)
unfolding find_socket_uds_with_local_addr handle_uds
uds_send_dispatch now sender_uds_sock_id bytes dst_addr u = do
  dst ← elim dst_addr [
    | some path ↦ some path
    | none ↦ do sender ← uds_socket_at u sender_uds_sock_id; some sender.tuple.remote_path
  ]
  found ← find_socket_uds_with_local_addr dst u
  elim found [
    | none ↦ some (false, u)
    | some receiver ↦ do handled ← handle_uds now receiver bytes u; some (true, handled)
  ]

unfoldable pub send_stream_established_packet :
    (now : Timeval) → (socket_id : ℕ) → List ℕ → Uds → Option (Bool × Uds)
unfolding uds_send_dispatch
send_stream_established_packet now socket_id payload u = do
  sock ← uds_socket_at u socket_id
  (if not (is_stream sock) || not (uds_state_is sock.tuple.state established)
      then some (false, u)
      else do
        (sent, handled) ← uds_send_dispatch now socket_id payload none u
        some (true, handled))

unfoldable pub nic_send_dgram_package :
    (now : Timeval) → (socket_id : ℕ) → List ℕ → Uds → Option (Bool × Uds)
unfolding uds_send_dispatch
nic_send_dgram_package now socket_id payload u = do
  sock ← uds_socket_at u socket_id
  (sent, handled) ← uds_send_dispatch now socket_id payload none u
  some (true, handled)

-- `struct file_inner`, without its `meta`; a null entry of a table is one whose bytes are all zero.
pub record FileInner : Type 0 where
  pub global_id : ℕ
  pub offset : ℕ
  pub open_flags : ℕ
  pub type_ : ℕ
  pub res_id : ℕ

-- `MAX_FD_INNER / sizeof(struct file_inner)`
abbrev pub fd_slots : ℕ
fd_slots = 10

-- `handle_stream_accept` up to its sleep: an error, the caller `tid` asleep, or straight on. The
-- number that the first look at the backlog takes out is not kept.
pub data Accepting : Type 0 where
  refused : ℕ → Accepting
  sleeps goes_on : Uds → Accepting

unfoldable pub handle_stream_accept : (tid listener_id : ℕ) → Uds → Option Accepting
unfolding pull_backlog_stream sleep_by_resource
handle_stream_accept tid listener_id u = do
  listener_sock ← uds_socket_at u listener_id
  (if not (is_stream listener_sock) then some (refused eopnotsupp) else do
    (server_sock_id, pulled) ← pull_backlog_stream listener_id u
    (if not (server_sock_id == minus_one) then some (goes_on pulled) else do
      threads ← sleep_by_resource (listen_flag listener_sock) blocked_uds tid pulled.threads
      some (sleeps (record pulled { threads = threads }))))

-- The descriptor of a local socket, in an entry of zeros: `FILE_SOCKET_UDS` and `O_RDWR`.
abbrev pub uds_descriptor : (res_id : ℕ) → FileInner
uds_descriptor res_id = record {
  global_id = 0;
  offset = 0;
  open_flags = 2;
  type_ = 6;
  res_id = res_id;
}

-- The rest of the call: -1, the panic of `get_a_free_slot_with_size`, or the number of the
-- descriptor with the table that has it.
pub data Accepted : Type 0 where
  fails : Uds → Accepted
  panics : Accepted
  accepts : ℕ → List (Option FileInner) → Uds → Accepted

-- A search that is told to stop at byte `MAX_FD_INNER` sees 10 entries of 80 bytes.
unfoldable pub open_accepted : (res_id : ℕ) → List (Option FileInner) → Uds → Accepted
unfolding free_slot
open_accepted res_id fd u = elim (free_slot (take fd_slots fd) 0) [
  | none ↦ panics
  | some new_socket_fd_id ↦
      accepts new_socket_fd_id (put_slot fd new_socket_fd_id (uds_descriptor res_id)) u
]

unfoldable pub handle_stream_accept_finish :
    (listener_id : ℕ) → (fd : List (Option FileInner)) → Uds → Option Accepted
unfolding pull_backlog_stream open_accepted
handle_stream_accept_finish listener_id fd u = do
  (server_sock_id, pulled) ← pull_backlog_stream listener_id u
  (if server_sock_id == minus_one then some (fails pulled) else do
    server_sock ← uds_socket_at pulled server_sock_id
    let half = put_uds_socket server_sock_id (with_state established server_sock) pulled
    client_sock ← uds_socket_at half server_sock.peer_id
    some (
        open_accepted server_sock_id fd
          (put_uds_socket server_sock.peer_id (with_state established client_sock) half)))

unfoldable pub handle_stream_close : (socket_id : ℕ) → Uds → Option (Bool × Uds)
unfolding resume_first_thread_pending_on_listen_stream delete_listen_i_uds delete_socket_i_uds
handle_stream_close socket_id u = do
  sock ← uds_socket_at u socket_id
  (if not (is_stream sock) || uds_state_is sock.tuple.state closed then some (false, u) else do
    (woke, woken) ←
        resume_first_thread_pending_on_listen_stream socket_id
          (put_uds_socket socket_id (with_state closed sock) u)
    some (true, (delete_socket_i_uds socket_id (delete_listen_i_uds sock.listen_id woken).1).1))

-- `read_socket_stream` up to its sleep, and after it.
pub data Reading : Type 0 where
  read : List ℕ → Uds → Reading
  waits : Uds → Reading

unfoldable pub read_socket_stream : (tid socket_id payload_len : ℕ) → Uds → Option Reading
unfolding pull_bytes sleep_by_resource
read_socket_stream tid socket_id payload_len u = do
  lis ← uds_socket_at u socket_id
  let (rs, bytes, pulled) = pull_bytes u.stream_size payload_len lis
  let after = put_uds_socket socket_id pulled u
  (if not (rs == 0) then some (read bytes after) else do
    threads ← sleep_by_resource (recv_flag lis) blocked_uds tid after.threads
    some (waits (record after { threads = threads })))

unfoldable pub read_socket_stream_woken :
    (socket_id payload_len : ℕ) → Uds → Option (Bool × List ℕ × Uds)
unfolding pull_bytes
read_socket_stream_woken socket_id payload_len u = do
  lis ← uds_socket_at u socket_id
  let (rs, bytes, pulled) = pull_bytes u.stream_size payload_len lis
  some (not (rs == 0), bytes, put_uds_socket socket_id pulled u)
