-- ===== src/Net/Tcp.antt =====
-- The TCP connections of core/network/af_inet/tcp.h: what a segment that arrives does to the
-- sockets, and what the calls that send do. A segment that is sent and the threads that are made
-- ready are effects, kept in order; `none` is a fault at a null pointer.
use carrotos.Base.{
  ℕ, zero, suc, ◌+◌, ◌/◌, ◌%◌, ◌^◌, Bool, true, false, ◌||◌, not, Option, none, some, List, [], ◌∷◌,
  map, ◌==◌, if◌then◌else◌, length, get_elem?, set, bit_and,
}
use carrotos.Time.{Timeval}
use carrotos.Fifo.{fifo_write8}
use carrotos.Net.Tuple.{
  NetState, established, fin_wait_1, close_wait, last_ack, NetTuple, find_socket_not_listen,
}

-- `struct net_tuple_tcp` with its ring of bytes.
pub record TcpSocket : Type 0 where
  pub tuple : NetTuple
  pub last_updated_time_us : Timeval
  pub send_retry_count : ℕ
  pub send_payload_len : ℕ
  pub ack_est_blocked : Bool
  pub seq_local : ℕ
  pub seq_remote : ℕ
  pub listen_id : ℕ
  pub ring : List ℕ
  pub head : ℕ
  pub tail : ℕ

-- What goes into a header that is sent.
pub record Segment : Type 0 where
  pub seq : ℕ
  pub ack_seq : ℕ
  pub flags : ℕ

pub data Effect : Type 0 where
  sends : (id : ℕ) → Segment → Effect
  wakes_receivers wakes_senders wakes_listener : (id : ℕ) → Effect

-- `socket_global`, `listen_global`, the effects so far, the latest first, and how many bytes the
-- ring of a connection and that of a listener have.
pub record Net : Type 0 where
  pub sockets : List (Option TcpSocket)
  pub listens : List (Option NetTuple)
  pub effects : List Effect
  pub recv_size : ℕ
  pub backlog_size : ℕ

-- The fields of a segment that arrives, as the headers give them.
pub record Packet : Type 0 where
  pub src_ip : ℕ
  pub dst_ip : ℕ
  pub src_port : ℕ
  pub dst_port : ℕ
  pub seq : ℕ
  pub ack_seq : ℕ
  pub flags : ℕ
  pub payload : List ℕ

abbrev pub tcp_fin : ℕ
tcp_fin = 1

abbrev pub tcp_syn : ℕ
tcp_syn = 2

abbrev pub tcp_ack : ℕ
tcp_ack = 16

unfoldable pub has_flag : ℕ → ℕ → Bool
has_flag flags flag = not (bit_and flags flag == 0)

abbrev pub u32 : ℕ → ℕ
u32 n = n % 2 ^ 32

abbrev pub u64 : ℕ → ℕ
u64 n = n % 2 ^ 64

unfoldable pub slot_of : Option (Option TcpSocket) → Option TcpSocket
slot_of none = none
slot_of (some slot) = slot

-- `socket_global[id]`, a null pointer for a free entry or one past the table.
unfoldable pub socket_at : Net → ℕ → Option TcpSocket
unfolding slot_of
socket_at net id = slot_of (get_elem? net.sockets id)

unfoldable pub put_socket : ℕ → TcpSocket → Net → Net
put_socket id s net = record net { sockets = set net.sockets id (some s) }

abbrev pub emit : Effect → Net → Net
emit e net = record net { effects = e ∷ net.effects }

abbrev pub with_state : NetState → TcpSocket → TcpSocket
with_state st s = record s { tuple = record s.tuple { state = st } }

-- The segment carries the low 32 bits of both counters; no payload is sent with it.
unfoldable pub tcp_send_ack : (now : Timeval) → ℕ → TcpSocket → Net → Net
unfolding put_socket
tcp_send_ack now id s net =
    emit (sends id (record { seq = u32 s.seq_local; ack_seq = u32 s.seq_remote; flags = tcp_ack }))
      (put_socket id (record s { last_updated_time_us = now }) net)

unfoldable pub tcp_send_synack : ℕ → TcpSocket → (remote_ack_le : ℕ) → Net → Net
unfolding put_socket
tcp_send_synack id s remote_ack_le net =
    let ack = u32 (remote_ack_le + 1) in
    emit (sends id (record { seq = u32 s.seq_local; ack_seq = ack; flags = tcp_syn + tcp_ack }))
      (put_socket id (record s { seq_remote = ack; seq_local = u64 (s.seq_local + 1) }) net)

-- The socket after `tcp_send_fin`, in the two states that it is for.
unfoldable pub sent_fin : (now : Timeval) → ℕ → TcpSocket → NetState → Net → Net
unfolding put_socket
sent_fin now id s st net =
    emit
      (sends id
        (record { seq = u32 s.seq_local; ack_seq = u32 s.seq_remote; flags = tcp_fin + tcp_ack }))
      (put_socket id
        (with_state st (record s {
          seq_local = u64 (s.seq_local + 1);
          send_retry_count = 0;
          last_updated_time_us = now;
        }))
        net)

-- `sent` is what the driver of the card returns.
unfoldable pub tcp_send_fin : (now : Timeval) → (sent : Bool) → ℕ → Net → Bool × Net
unfolding socket_at sent_fin
tcp_send_fin now sent id net = elim (socket_at net id) [
  | none ↦ (false, net)
  | some s ↦ if s.tuple.version == 0 then (false, net) else elim s.tuple.state [
    | established ↦ if sent then (true, sent_fin now id s fin_wait_1 net) else (false, net)
    | close_wait ↦ if sent then (true, sent_fin now id s last_ack net) else (false, net)
    | _ ↦ (false, net)
  ]
]

-- `mark_socket_as_deleted`: its loops over the threads compare where they mean to assign, so that
-- only the state changes. They follow every pointer of the thread table, which is not in this
-- state: the fault at a null one is left out.
abbrev pub mark_socket_as_deleted : TcpSocket → TcpSocket
mark_socket_as_deleted s = with_state close_wait s

-- The ring of the listener takes the eight bytes of the number, or as many as fit.
unfoldable pub push_bytes : (size : ℕ) → List ℕ → TcpSocket → ℕ × TcpSocket
unfolding fifo_write8
push_bytes size bytes s =
    let w = fifo_write8 s.ring s.tail s.head size bytes in
    (w.count, record s { ring = w.buf; head = w.head })

-- The bytes of a number in memory, `n` of them.
unfoldable pub bytes_of : ℕ → ℕ → List ℕ
bytes_of zero x = []
bytes_of (suc n) x = x % 2 ^ 8 ∷ bytes_of n (x / 2 ^ 8)

unfoldable pub is_established : NetState → Bool
is_established established = true
is_established _ = false

-- The acknowledgement that the sender waits for, and no other.
unfoldable pub handle_tcp_receive_ack_established : ℕ → (ack_seq : ℕ) → TcpSocket → Net → Bool × Net
unfolding put_socket is_established
handle_tcp_receive_ack_established id ack_seq s net =
    if not (is_established s.tuple.state) || not s.ack_est_blocked
    then (false, net)
    else if not (u64 (s.seq_local + s.send_payload_len) == ack_seq)
    then (false, net)
    else (
      true,
      emit (wakes_senders id) (
          put_socket id
            (record s {
              seq_local = u64 (s.seq_local + s.send_payload_len);
              ack_est_blocked = false;
            })
            net),
    )

-- The number of a new connection goes to the listener; the Boolean says whether any byte did.
unfoldable pub push_backlog : (child_sockid listener_id : ℕ) → Net → Option (Bool × Net)
unfolding socket_at push_bytes put_socket bytes_of
push_backlog child_sockid listener_id net = elim (socket_at net listener_id) [
  | none ↦ none
  | some lis ↦
      let (count, s) = push_bytes net.backlog_size (bytes_of 8 child_sockid) lis in
      some (not (count == 0), put_socket listener_id s net)
]

unfoldable pub tuples : Net → List (Option NetTuple)
tuples net = map (λ slot. elim slot [ none ↦ none | some s ↦ some s.tuple ]) net.sockets

-- The tuple that a segment is looked up by; its state is not set, so it is what the stack holds.
abbrev pub tuple_of : NetState → Packet → NetTuple
tuple_of stale p = record {
  local_ip_l = p.dst_ip;
  remote_ip_l = p.src_ip;
  local_port = p.dst_port;
  remote_port = p.src_port;
  protocol = 6;
  version = 4;
  state = stale;
}

-- The payload of a segment in order; what does not fit into the ring is lost, and acknowledged.
unfoldable pub take_payload : (now : Timeval) → ℕ → List ℕ → TcpSocket → Net → Net
unfolding push_bytes tcp_send_ack
take_payload now id payload s net =
    let received = record s { seq_remote = u64 (s.seq_remote + length payload) } in
    let (count, filled_up) = push_bytes net.recv_size payload received in
    emit (wakes_receivers id) (tcp_send_ack now id filled_up net)

unfoldable pub handle_tcp_established_packet :
    (now : Timeval) → NetState → Packet → Net → Bool × Net
unfolding find_socket_not_listen tuples socket_at take_payload
handle_tcp_established_packet now stale p net =
    elim (find_socket_not_listen (tuple_of stale p) (tuples net)) [
      | none ↦ (false, net)
      | some id ↦ elim (socket_at net id) [
        | none ↦ (false, net)
        | some s ↦ (true, take_payload now id p.payload s net)
      ]
    ]
