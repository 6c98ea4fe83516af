-- ===== src/Net/Open.antt =====
-- The branches of the handler of tcp.h for open and closing connections, along the diagram.
use mathlib.Core.Path.{subst}
use carrotos.Base.{
  ℕ, ◌≡◌, refl, sym, inl, inr, Bool, true, false, ◌&&◌, not, ◌+◌, some, ◌==◌, if◌then◌else◌,
  Bool-cases, Option-cases, length,
}
use carrotos.Time.{Timeval}
use carrotos.Net.Tuple.{
  NetState, closed, listen, syn_sent, syn_received, established, fin_wait_1, fin_wait_2, close_wait,
  closing, last_ack, time_wait, find_socket_not_listen,
}
use carrotos.Net.Tcp.{
  TcpSocket, Net, Packet, has_flag, tcp_ack, tcp_fin, socket_at, put_socket, with_state,
  tcp_send_ack, handle_tcp_established_packet, tuple_of, tuples, u64,
}
use carrotos.Net.Arrive.{stamp, on_fin, on_ack, on_payload, on_established, on_closing_state}
use carrotos.Net.Diagram.{
  Moves, stays, other_ends, end_known, both_end, other_follows, both_known, last_known, NetMoves,
  NetKeeps, NetKeeps-trans, NetMoves-NetKeeps, NetMoves-of_keeps, put_socket-NetMoves,
  socket_at-put_socket, socket_at-inside,
}
use carrotos.Net.Handler.{
  stamp-NetKeeps, socket_at-tcp_send_ack, Moves-of_acked, on_ack-NetKeeps, take_payload-NetKeeps,
}

packet-NetKeeps :
    (now : Timeval) (stale : NetState) (p : Packet) (net : Net)
    → NetKeeps net (handle_tcp_established_packet now stale p net).1
unfolding handle_tcp_established_packet
packet-NetKeeps now stale p net =
    elim (Option-cases (find_socket_not_listen (tuple_of stale p) (tuples net))) [
      | inl e ↦ rw (handle_tcp_established_packet, e) (λ i. refl)
      | inr (id, e) ↦ elim (Option-cases (socket_at net id)) [
        | inl f ↦ rw (handle_tcp_established_packet, e, f) (λ i. refl)
        | inr (s, f) ↦
            rw (handle_tcp_established_packet, e, f)
              (take_payload-NetKeeps now id net s f p.payload)
      ]
    ]

on_payload-NetKeeps :
    (now : Timeval) (stale : NetState) (s : TcpSocket) (p : Packet) (net : Net)
    → NetKeeps net (on_payload now stale s p net).1
unfolding on_payload
on_payload-NetKeeps now stale s p net = elim (Bool-cases (length p.payload == 0)) [
  | inl e ↦ rw (on_payload, e) (λ i. refl)
  | inr e ↦ elim (Bool-cases (not (s.seq_remote == 0) && not (p.seq == s.seq_remote))) [
    | inl f ↦ rw (on_payload, e, f) (λ i. refl)
    | inr f ↦ rw (on_payload, e, f) (packet-NetKeeps now stale p net)
  ]
]

stamped_or_not :
    (now : Timeval) (id : ℕ) (b : Bool) (net : Net)
    → NetKeeps net (if b then stamp now id net else net)
stamped_or_not now id true net = stamp-NetKeeps now id net
stamped_or_not now id false net = λ i. refl

-- What the first test of an open connection leaves: the socket it goes on with is the one in the
-- table.
record Finned (net : Net) (id : ℕ) (r : TcpSocket × Net) : Type 0 where
  there : socket_at r.1 id ≡ some r.0
  moves : NetMoves net r.1

module _ (now : Timeval) (id : ℕ) (net : Net) (s : TcpSocket)
    (there : socket_at net id ≡ some s) where
  on_fin-Finned : (p : Packet) → s.tuple.state ≡ established → Finned net id (on_fin now id s p net)
  unfolding on_fin
  on_fin-Finned p e = elim (Bool-cases (has_flag p.flags tcp_fin)) [
    | inr f ↦
        rw (on_fin, f) (record { there = there; moves = NetMoves-of_keeps net net (λ i. refl) })
    | inl f ↦
        let finished = record s { seq_remote = u64 (s.seq_remote + 1) } in
        let ended = record (with_state close_wait finished) { last_updated_time_us = now } in
        rw (on_fin, f)
          (record {
            there = socket_at-put_socket (tcp_send_ack now id finished net) id ended (
                socket_at-inside (tcp_send_ack now id finished net) id
                  (record finished { last_updated_time_us = now })
                  (socket_at-tcp_send_ack now id net s there finished));
            moves =
                Moves-of_acked now id net s there finished ended refl
                  (subst (λ x. Moves x close_wait) (sym e) other_ends);
          })
  ]

  pub on_established-NetMoves :
      (stale : NetState) (p : Packet)
      → s.tuple.state ≡ established
      → NetMoves net (on_established now stale id s p net)
  unfolding on_established
  on_established-NetMoves stale p e =
      let fin = on_fin now id s p net in
      let first : Finned net id fin = on_fin-Finned p e in
      let acked = on_ack id fin.0 p fin.1 in
      let paid = on_payload now stale fin.0 p acked in
      let last : Net = if paid.0 then stamp now id paid.1 else paid.1 in
      NetMoves-NetKeeps net fin.1 last first.moves (
        NetKeeps-trans fin.1 acked last (on_ack-NetKeeps now id fin.1 fin.0 first.there p) (
          NetKeeps-trans acked paid.1 last (on_payload-NetKeeps now stale fin.0 p acked)
            (stamped_or_not now id paid.0 paid.1)))

  -- The socket gets another state, or the table stays as it is.
  Moves-of_state :
      (st : NetState) → Moves s.tuple.state st → NetMoves net (put_socket id (with_state st s) net)
  Moves-of_state st move = put_socket-NetMoves net id s (with_state st s) there move

  unmoved : NetMoves net net
  unmoved = NetMoves-of_keeps net net (λ i. refl)

  pub closing_state :
      (p : Packet) (st : NetState) → s.tuple.state ≡ st → NetMoves net (on_closing_state id s p net)
  unfolding on_closing_state
  closing_state p fin_wait_1 e = elim (Bool-cases (has_flag p.flags tcp_ack)) [
    | inl a ↦ rw (on_closing_state, e, a) (Moves-of_state fin_wait_2 (rw e end_known))
    | inr a ↦ elim (Bool-cases (has_flag p.flags tcp_fin)) [
      | inl f ↦ rw (on_closing_state, e, a, f) (Moves-of_state closing (rw e both_end))
      | inr f ↦ rw (on_closing_state, e, a, f) unmoved
    ]
  ]
  closing_state p fin_wait_2 e = elim (Bool-cases (has_flag p.flags tcp_fin)) [
    | inl a ↦
        rw (on_closing_state, e, a)
          (put_socket-NetMoves net id s (record (with_state time_wait s) { send_retry_count = 0 })
            there (rw e other_follows))
    | inr a ↦
        rw (on_closing_state, e, a)
          (put_socket-NetMoves net id s (record s { send_retry_count = 0 }) there stays)
  ]
  closing_state p last_ack e = elim (Bool-cases (has_flag p.flags tcp_ack)) [
    | inl a ↦ rw (on_closing_state, e, a) (Moves-of_state closed (rw e last_known))
    | inr a ↦ rw (on_closing_state, e, a) unmoved
  ]
  closing_state p closing e = elim (Bool-cases (has_flag p.flags tcp_ack)) [
    | inl a ↦
        rw (on_closing_state, e, a)
          (put_socket-NetMoves net id s (record (with_state time_wait s) { send_retry_count = 0 })
            there (rw e both_known))
    | inr a ↦
        rw (on_closing_state, e, a)
          (put_socket-NetMoves net id s (record s { send_retry_count = 0 }) there stays)
  ]
  closing_state p closed e = rw (on_closing_state, e) unmoved
  closing_state p listen e = rw (on_closing_state, e) unmoved
  closing_state p syn_sent e = rw (on_closing_state, e) unmoved
  closing_state p syn_received e = rw (on_closing_state, e) unmoved
  closing_state p established e = rw (on_closing_state, e) unmoved
  closing_state p close_wait e = rw (on_closing_state, e) unmoved
  closing_state p time_wait e = rw (on_closing_state, e) unmoved
