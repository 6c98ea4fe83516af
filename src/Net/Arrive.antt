-- ===== src/Net/Arrive.antt =====
-- What a segment that arrives does, core/network/af_inet/tcp.h: the branches of `handle_tcp_v4`, one
-- for each state of the connection it belongs to.
use carrotos.Base.{
  ℕ, ◌+◌, Bool, true, false, ◌&&◌, ◌||◌, not, Option, none, some, List, [], ◌∷◌, ◌==◌,
  if◌then◌else◌, length,
}
use carrotos.Time.{Timeval}
use carrotos.Net.Tuple.{
  NetState, closed, listen, syn_sent, syn_received, established, fin_wait_1, fin_wait_2, close_wait,
  closing, last_ack, time_wait, NetTuple, find_socket, find_socket_not_listen, find_listen,
}
use carrotos.Net.Tcp.{
  TcpSocket, wakes_listener, Net, Packet, tcp_fin, tcp_syn, tcp_ack, has_flag, u32, u64, socket_at,
  put_socket, emit, with_state, tcp_send_ack, tcp_send_synack, mark_socket_as_deleted, push_backlog,
  handle_tcp_receive_ack_established, tuples, tuple_of, handle_tcp_established_packet,
}

-- `socket->tuple.last_updated_time_us = get_time_us()` at the end.
unfoldable pub stamp : (now : Timeval) → ℕ → Net → Net
unfolding socket_at put_socket
stamp now id net = elim (socket_at net id) [
  | none ↦ net
  | some s ↦ put_socket id (record s { last_updated_time_us = now }) net
]

unfoldable pub on_syn_sent : (now : Timeval) → ℕ → TcpSocket → Packet → Net → Net
unfolding has_flag tcp_send_ack put_socket
on_syn_sent now id s p net =
    let open_now = record s { seq_remote = u32 (p.seq + 1) } in
    if has_flag p.flags tcp_syn && has_flag p.flags tcp_ack
    then put_socket id (with_state established open_now) (tcp_send_ack now id open_now net)
    else net

-- The state is set after a socket may have been marked as deleted, which undoes the mark.
unfoldable pub on_syn_received : ℕ → TcpSocket → Packet → Net → Option Net
unfolding has_flag push_backlog put_socket socket_at
on_syn_received id s p net =
    if has_flag p.flags tcp_ack
    then elim (push_backlog id s.listen_id net) [
      | none ↦ none
      | some (pushed, pushed_net) ↦ elim (socket_at pushed_net id) [
        | none ↦ none
        | some t ↦ some (
            emit (wakes_listener s.listen_id) (
              put_socket id
                (with_state established (if pushed then t else mark_socket_as_deleted t))
                pushed_net))
      ]
    ]
    else some net

-- The three tests of an open connection; the Boolean says whether the handler goes on to its end.
unfoldable pub on_fin : (now : Timeval) → ℕ → TcpSocket → Packet → Net → TcpSocket × Net
unfolding has_flag tcp_send_ack put_socket
on_fin now id s p net =
    let finished = record s { seq_remote = u64 (s.seq_remote + 1) } in
    let ended = record (with_state close_wait finished) { last_updated_time_us = now } in
    if has_flag p.flags tcp_fin
    then (ended, put_socket id ended (tcp_send_ack now id finished net))
    else (s, net)

unfoldable pub on_ack : ℕ → TcpSocket → Packet → Net → Net
unfolding has_flag handle_tcp_receive_ack_established
on_ack id s p net =
    if has_flag p.flags tcp_ack
    then (handle_tcp_receive_ack_established id p.ack_seq s net).1
    else net

unfoldable pub on_payload : (now : Timeval) → NetState → TcpSocket → Packet → Net → Bool × Net
unfolding handle_tcp_established_packet
on_payload now stale s p net =
    if length p.payload == 0
    then (true, net)
    else if not (s.seq_remote == 0) && not (p.seq == s.seq_remote)
    then (false, net)
    else (true, (handle_tcp_established_packet now stale p net).1)

unfoldable pub on_established : (now : Timeval) → NetState → ℕ → TcpSocket → Packet → Net → Net
unfolding on_fin on_ack on_payload stamp
on_established now stale id s p net =
    let (t, fin_net) = on_fin now id s p net in
    let (goes_on, end_net) = on_payload now stale t p (on_ack id t p fin_net) in
    if goes_on then stamp now id end_net else end_net

-- A new socket in the first free entry: the copy of the local tuple, with a number to begin with.
unfoldable pub free_entry_from : List (Option TcpSocket) → ℕ → Option ℕ
free_entry_from [] i = none
free_entry_from (none ∷ slots) i = some i
free_entry_from (some s ∷ slots) i = free_entry_from slots (i + 1)

unfoldable pub any_copy : (TcpSocket → Bool) → List (Option TcpSocket) → Bool
any_copy is_copy [] = false
any_copy is_copy (none ∷ slots) = any_copy is_copy slots
any_copy is_copy (some s ∷ slots) = is_copy s || any_copy is_copy slots

-- `none` where -1 is returned, for a copy that is there, or the size of a full table: the caller
-- takes either for an index of the table and goes outside of it. Where the blocks for the socket
-- are wanting, the call panics and has no result.
unfoldable pub create_socket_tcp : (TcpSocket → Bool) → Net → Option ℕ
unfolding any_copy free_entry_from
create_socket_tcp is_copy net =
    if any_copy is_copy net.sockets then none else free_entry_from net.sockets 0

-- What `create_socket_tcp` stores in the entry, and the state that its caller sets.
unfoldable pub new_socket : TcpSocket → NetTuple → (listen_id isn : ℕ) → TcpSocket
new_socket tmp tuple listen_id isn = record tmp {
  tuple = record tuple { state = syn_received };
  head = 0;
  tail = 0;
  seq_local = isn;
  ack_est_blocked = false;
  listen_id = listen_id;
}

-- What the handler of a listener does with a first segment. `tmp` is the local variable, `is_copy`
-- the comparison of all its bytes with a socket's.
unfoldable pub on_listen :
    (now : Timeval) → (isn : ℕ) → (TcpSocket → Bool) → (tmp : TcpSocket) → Packet → Net → Option Net
unfolding has_flag find_listen find_socket_not_listen tuples socket_at tcp_send_synack
    create_socket_tcp stamp new_socket
on_listen now isn is_copy tmp p net =
    let tuple = tuple_of tmp.tuple.state p in
    if has_flag p.flags tcp_syn
    then elim (find_listen tuple net.listens) [
      | none ↦ some net
      | some listen_id ↦ elim (find_socket_not_listen tuple (tuples net)) [
        | some id ↦ elim (socket_at net id) [
          | none ↦ none
          | some s ↦ some (tcp_send_synack id s p.seq net)
        ]
        | none ↦ elim (create_socket_tcp is_copy net) [
          | none ↦ none
          | some id ↦
              let s = new_socket tmp tuple listen_id isn in
              some (stamp now id (tcp_send_synack id s p.seq net))
        ]
      ]
    ]
    else some net

-- The other states: a new state, or no more retries.
unfoldable pub on_closing_state : ℕ → TcpSocket → Packet → Net → Net
unfolding has_flag put_socket
on_closing_state id s p net = elim s.tuple.state [
  | fin_wait_1 ↦
      if has_flag p.flags tcp_ack
      then put_socket id (with_state fin_wait_2 s) net
      else if has_flag p.flags tcp_fin
      then put_socket id (with_state closing s) net
      else net
  | fin_wait_2 ↦
      put_socket id
        (record (if has_flag p.flags tcp_fin then with_state time_wait s else s) {
          send_retry_count = 0;
        })
        net
  | last_ack ↦ if has_flag p.flags tcp_ack then put_socket id (with_state closed s) net else net
  | closing ↦
      put_socket id
        (record (if has_flag p.flags tcp_ack then with_state time_wait s else s) {
          send_retry_count = 0;
        })
        net
  | _ ↦ net
]

unfoldable pub stamped : (now : Timeval) → ℕ → Option Net → Option Net
unfolding stamp
stamped now id none = none
stamped now id (some net) = some (stamp now id net)

-- The switch on the state of the socket that was found.
unfoldable pub on_state :
    (now : Timeval)
    → (isn : ℕ) → (TcpSocket → Bool)
    → (tmp : TcpSocket) → ℕ
    → TcpSocket
    → Packet
    → Net
    → Option Net
unfolding on_listen on_syn_sent on_syn_received on_established on_closing_state stamped
on_state now isn is_copy tmp id s p net = elim s.tuple.state [
  | listen ↦ stamped now id (on_listen now isn is_copy tmp p net)
  | syn_sent ↦ some (stamp now id (on_syn_sent now id s p net))
  | syn_received ↦ stamped now id (on_syn_received id s p net)
  | established ↦ some (on_established now tmp.tuple.state id s p net)
  | _ ↦ some (stamp now id (on_closing_state id s p net))
]

unfoldable pub found_socket : NetTuple → Net → Option ℕ
unfolding find_socket find_socket_not_listen tuples
found_socket tuple net = elim (find_socket_not_listen tuple (tuples net)) [
  | some id ↦ some id
  | none ↦ find_socket tuple (tuples net)
]

unfoldable pub handle_tcp_v4 :
    (now : Timeval) → (isn : ℕ) → (TcpSocket → Bool) → (tmp : TcpSocket) → Packet → Net → Option Net
unfolding found_socket socket_at on_state
handle_tcp_v4 now isn is_copy tmp p net = elim (found_socket (tuple_of tmp.tuple.state p) net) [
  | none ↦ some net
  | some id ↦ elim (socket_at net id) [
    | none ↦ none
    | some s ↦ on_state now isn is_copy tmp id s p net
  ]
]
