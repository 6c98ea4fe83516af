-- ===== src/Net/Handler.antt =====
-- Every segment moves every connection along the diagram of states: the branches of the handler of
-- tcp.h, and the handler.
use mathlib.Core.Path.{subst}
use carrotos.Base.{
  ℕ, ◌≡◌, refl, sym, inl, inr, false, ◌&&◌, some, List, ◌==◌, not, ◌||◌, ◌+◌, Bool-cases,
  Option-cases, length,
}
use carrotos.Time.{Timeval}
use carrotos.Net.Tuple.{syn_sent, established}
use carrotos.Net.Tcp.{
  TcpSocket, Net, Packet, is_established, has_flag, tcp_syn, tcp_ack, socket_at, put_socket,
  with_state, tcp_send_ack, tcp_send_synack, take_payload, push_bytes,
  handle_tcp_receive_ack_established, u32, u64,
}
use carrotos.Net.Arrive.{stamp, on_syn_sent, on_ack}
use carrotos.Net.Diagram.{
  Moves, opens, NetMoves, NetKeeps, NetKeeps-NetMoves, NetMoves-of_keeps, put_socket-NetKeeps,
  put_socket-NetMoves, socket_at-put_socket, socket_at-inside,
}

pub stamp-NetKeeps : (now : Timeval) (id : ℕ) (net : Net) → NetKeeps net (stamp now id net)
unfolding stamp
stamp-NetKeeps now id net = elim (Option-cases (socket_at net id)) [
  | inl e ↦ rw (stamp, e) (λ i. refl)
  | inr (s, e) ↦ rw (stamp, e) (put_socket-NetKeeps net id s _ e refl)
]

module _ (now : Timeval) (id : ℕ) (net : Net) (s : TcpSocket)
    (there : socket_at net id ≡ some s) where
  pub tcp_send_ack-NetKeeps :
      (t : TcpSocket) → t.tuple.state ≡ s.tuple.state → NetKeeps net (tcp_send_ack now id t net)
  unfolding tcp_send_ack socket_at
  tcp_send_ack-NetKeeps t same = put_socket-NetKeeps net id s _ there same

  pub socket_at-tcp_send_ack :
      (t : TcpSocket)
      → socket_at (tcp_send_ack now id t net) id ≡ some (record t { last_updated_time_us = now })
  unfolding tcp_send_ack socket_at
  socket_at-tcp_send_ack t = socket_at-put_socket net id _ (socket_at-inside net id s there)

  pub tcp_send_synack-NetKeeps : (ack : ℕ) → NetKeeps net (tcp_send_synack id s ack net)
  unfolding tcp_send_synack socket_at
  tcp_send_synack-NetKeeps ack = put_socket-NetKeeps net id s _ there refl

  -- An acknowledgement is sent and the socket gets another state.
  pub Moves-of_acked :
      (t after : TcpSocket)
      → t.tuple.state ≡ s.tuple.state
      → Moves t.tuple.state after.tuple.state
      → NetMoves net (put_socket id after (tcp_send_ack now id t net))
  Moves-of_acked t after same move =
      NetKeeps-NetMoves net (tcp_send_ack now id t net) _ (tcp_send_ack-NetKeeps t same) (
        put_socket-NetMoves (tcp_send_ack now id t net) id (record t { last_updated_time_us = now })
          after (socket_at-tcp_send_ack t) move)

  pub on_syn_sent-NetMoves :
      (p : Packet) → s.tuple.state ≡ syn_sent → NetMoves net (on_syn_sent now id s p net)
  unfolding on_syn_sent
  on_syn_sent-NetMoves p e =
      elim (Bool-cases (has_flag p.flags tcp_syn && has_flag p.flags tcp_ack)) [
        | inl yes_both ↦
            rw (on_syn_sent, yes_both)
              (Moves-of_acked (record s { seq_remote = u32 (p.seq + 1) })
                (with_state established (record s { seq_remote = u32 (p.seq + 1) })) refl
                (subst (λ x. Moves x established) (sym e) opens))
        | inr not_both ↦ rw (on_syn_sent, not_both) (NetMoves-of_keeps net net (λ i. refl))
      ]

  handle_tcp_receive_ack_established-NetKeeps :
      (ack : ℕ) → NetKeeps net (handle_tcp_receive_ack_established id ack s net).1
  unfolding handle_tcp_receive_ack_established socket_at
  handle_tcp_receive_ack_established-NetKeeps ack =
      elim (Bool-cases (not (is_established s.tuple.state) || not s.ack_est_blocked)) [
        | inl e ↦ rw (handle_tcp_receive_ack_established, e) (λ i. refl)
        | inr e ↦ elim (Bool-cases (not (u64 (s.seq_local + s.send_payload_len) == ack))) [
          | inl f ↦ rw (handle_tcp_receive_ack_established, e, f) (λ i. refl)
          | inr f ↦
              rw (handle_tcp_receive_ack_established, e, f)
                (put_socket-NetKeeps net id s
                  (record s {
                    seq_local = u64 (s.seq_local + s.send_payload_len);
                    ack_est_blocked = false;
                  })
                  there refl)
        ]
      ]

  pub on_ack-NetKeeps : (p : Packet) → NetKeeps net (on_ack id s p net)
  unfolding on_ack
  on_ack-NetKeeps p = elim (Bool-cases (has_flag p.flags tcp_ack)) [
    | inl e ↦ rw (on_ack, e) (handle_tcp_receive_ack_established-NetKeeps p.ack_seq)
    | inr e ↦ rw (on_ack, e) (λ i. refl)
  ]

  pub take_payload-NetKeeps : (payload : List ℕ) → NetKeeps net (take_payload now id payload s net)
  unfolding take_payload push_bytes socket_at
  take_payload-NetKeeps payload =
      let received = record s { seq_remote = u64 (s.seq_remote + length payload) } in
      tcp_send_ack-NetKeeps (push_bytes net.recv_size payload received).1 refl
