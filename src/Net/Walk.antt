-- ===== src/Net/Walk.antt =====
-- New connections, and the handler of tcp.h as a whole, along the diagram of states.
use mathlib.Core.Path.{subst}
use carrotos.Base.{
  ℕ, suc, ◌+◌, ◌<◌, ◌≡◌, refl, sym, ap, ◌∙◌, inl, inr, Bool, Option, none, some, List, [], ◌∷◌,
  arith, if◌then◌else◌, Bool-cases, Option-cases, length, get_elem?, ℕ_discrete,
}
use carrotos.Time.{Timeval}
use carrotos.Net.Tuple.{
  NetState, closed, listen, syn_sent, syn_received, established, fin_wait_1, fin_wait_2, close_wait,
  closing, last_ack, time_wait, find_listen, find_socket_not_listen,
}
use carrotos.Net.Tcp.{
  TcpSocket, Net, Packet, Effect, emit, wakes_listener, has_flag, tcp_syn, tcp_ack, slot_of,
  socket_at, put_socket, with_state, tcp_send_synack, push_backlog, push_bytes, bytes_of,
  mark_socket_as_deleted, u32, u64, tuple_of, tuples,
}
use carrotos.Net.Arrive.{
  stamp, stamped, on_syn_received, on_syn_sent, on_closing_state, new_socket, free_entry_from,
  any_copy, create_socket_tcp, on_listen, on_state, found_socket, handle_tcp_v4,
}
use carrotos.Net.Diagram.{
  Moves, accepted, EntryMoves, made, entry_itself, state_of, state_at, NetMoves, NetKeeps,
  NetKeeps-NetMoves, NetMoves-NetKeeps, NetMoves-of_keeps, put_socket-NetKeeps, put_socket-NetMoves,
  socket_at-put_socket, socket_at-put_socket_ne,
}
use carrotos.Net.Handler.{stamp-NetKeeps, tcp_send_synack-NetKeeps, on_syn_sent-NetMoves}
use carrotos.Net.Open.{on_established-NetMoves, closing_state}

-- Nothing is said of a fault.
abbrev pub EachMoves : Net → Option Net → Type 0
EachMoves net none = Unit
EachMoves net (some after) = NetMoves net after

each_still : (net : Net) → EachMoves net (some net)
each_still net = NetMoves-of_keeps net net (λ i. refl)

stamped-EachMoves :
    (now : Timeval) (id : ℕ) (net : Net) (r : Option Net)
    → EachMoves net r
    → EachMoves net (stamped now id r)
unfolding stamped
stamped-EachMoves now id net none m = tt
stamped-EachMoves now id net (some after) m =
    NetMoves-NetKeeps net after (stamp now id after) m (stamp-NetKeeps now id after)

abbrev PushKeeps : Net → Option (Bool × Net) → Type 0
PushKeeps net none = Unit
PushKeeps net (some (pushed, after)) = NetKeeps net after

push_backlog-PushKeeps : (child lid : ℕ) (net : Net) → PushKeeps net (push_backlog child lid net)
unfolding push_backlog push_bytes
push_backlog-PushKeeps child lid net = elim (Option-cases (socket_at net lid)) [
  | inl e ↦ rw (push_backlog, e) tt
  | inr (lis, e) ↦
      rw (push_backlog, e)
        (put_socket-NetKeeps net lid lis (push_bytes net.backlog_size (bytes_of 8 child) lis).1 e
          refl)
]

-- An effect changes no socket.
emitted : (a b : Net) (e : Effect) → NetMoves a b → NetMoves a (emit e b)
unfolding socket_at
emitted a b e m = m

-- The connection that a backlog has been told of is open.
opened :
    (net after : Net) (id : ℕ) (s t : TcpSocket)
    → socket_at net id ≡ some s
    → s.tuple.state ≡ syn_received
    → NetKeeps net after
    → socket_at after id ≡ some t
    → (u : TcpSocket) → NetMoves net (put_socket id (with_state established u) after)
opened net after id s t there e keep here u =
    let same : some t.tuple.state ≡ some s.tuple.state =
      ap state_of (sym here) ∙ keep id ∙ ap state_of there in
    let received : t.tuple.state ≡ syn_received = cc in
    NetKeeps-NetMoves net after _ keep (
      put_socket-NetMoves after id t (with_state established u) here
        (subst (λ x. Moves x established) (sym received) accepted))

on_syn_received-EachMoves :
    (net : Net) (id : ℕ) (s : TcpSocket) (p : Packet)
    → socket_at net id ≡ some s
    → s.tuple.state ≡ syn_received
    → EachMoves net (on_syn_received id s p net)
unfolding on_syn_received
on_syn_received-EachMoves net id s p there e = elim (Bool-cases (has_flag p.flags tcp_ack)) [
  | inr a ↦ rw (on_syn_received, a) (each_still net)
  | inl a ↦ elim (Option-cases (push_backlog id s.listen_id net)) [
    | inl f ↦ rw (on_syn_received, a, f) tt
    | inr ((pushed, after), f) ↦ elim (Option-cases (socket_at after id)) [
      | inl g ↦ rw (on_syn_received, a, f, g) tt
      | inr (t, g) ↦
          let keep : NetKeeps net after =
            subst (PushKeeps net) f (push_backlog-PushKeeps id s.listen_id net) in
          let u = if pushed then t else mark_socket_as_deleted t in
          rw (on_syn_received, a, f, g)
            (emitted net (put_socket id (with_state established u) after)
              (wakes_listener s.listen_id) (opened net after id s t there e keep g u))
    ]
  ]
]

-- The entry that `create_socket_tcp` takes is free and in the table.
record IsFree (slots : List (Option TcpSocket)) (i k : ℕ) : Type 0 where
  distance : ℕ
  place : k ≡ i + distance
  inside : distance < length slots
  nothing : slot_of (get_elem? slots distance) ≡ none

free_entry_from-IsFree :
    (slots : List (Option TcpSocket)) (i k : ℕ)
    → free_entry_from slots i ≡ some k
    → IsFree slots i k
unfolding free_entry_from slot_of
free_entry_from-IsFree [] i k e = absurd cc
free_entry_from-IsFree (none ∷ slots) i k e =
    let same : i ≡ k = cc in
    record { distance = 0; place = omega arith; inside = omega arith; nothing = refl }
free_entry_from-IsFree (some s ∷ slots) i k e =
    let rest = free_entry_from-IsFree slots (i + 1) k e in
    record {
      distance = suc rest.distance;
      place = omega (arith, rest.place);
      inside = omega (arith, rest.inside);
      nothing = rest.nothing;
    }

put_socket_made :
    (net : Net) (id : ℕ) (t : TcpSocket)
    → id < length net.sockets
    → socket_at net id ≡ none
    → t.tuple.state ≡ syn_received
    → NetMoves net (put_socket id t net)
put_socket_made net id t inside nothing e i = elim (ℕ_discrete id i) [
  | yes same ↦ rw (← same, nothing, socket_at-put_socket net id t inside, e) made
  | no other ↦
      subst (λ x. EntryMoves (state_at net i) (state_of x))
        (sym (socket_at-put_socket_ne net t other)) (entry_itself (state_at net i))
]

create_socket_tcp-free :
    (is_copy : TcpSocket → Bool) (net : Net) (id : ℕ)
    → create_socket_tcp is_copy net ≡ some id
    → (id < length net.sockets) × (socket_at net id ≡ none)
unfolding create_socket_tcp socket_at
create_socket_tcp-free is_copy net id e = elim (Bool-cases (any_copy is_copy net.sockets)) [
  | inl c ↦ let no : none ≡ some id = rw (← e, c) refl in absurd cc
  | inr c ↦
      let f : free_entry_from net.sockets 0 ≡ some id = rw (← e, c) refl in
      let free = free_entry_from-IsFree net.sockets 0 id f in
      let same : id ≡ free.distance = omega (arith, free.place) in
      rw same (free.inside, free.nothing)
]

first_segment :
    (now : Timeval) (id : ℕ) (net : Net) (s : TcpSocket) (ack : ℕ)
    → (id < length net.sockets) × (socket_at net id ≡ none)
    → s.tuple.state ≡ syn_received
    → NetMoves net (stamp now id (tcp_send_synack id s ack net))
unfolding tcp_send_synack socket_at
first_segment now id net s ack (inside, nothing) e =
    NetMoves-NetKeeps net (tcp_send_synack id s ack net)
      (stamp now id (tcp_send_synack id s ack net))
      (put_socket_made net id
        (record s { seq_remote = u32 (ack + 1); seq_local = u64 (s.seq_local + 1) }) inside nothing
        e)
      (stamp-NetKeeps now id (tcp_send_synack id s ack net))

-- The first segment of a connection leaves every state as it is but that of the entry it makes.
on_listen-EachMoves :
    (now : Timeval) (isn : ℕ) (is_copy : TcpSocket → Bool) (tmp : TcpSocket) (p : Packet)
    (net : Net)
    → EachMoves net (on_listen now isn is_copy tmp p net)
unfolding on_listen new_socket
on_listen-EachMoves now isn is_copy tmp p net = elim (Bool-cases (has_flag p.flags tcp_syn)) [
  | inr a ↦ rw (on_listen, a) (each_still net)
  | inl a ↦ elim (Option-cases (find_listen (tuple_of tmp.tuple.state p) net.listens)) [
    | inl b ↦ rw (on_listen, a, b) (each_still net)
    | inr (lid, b) ↦
        elim (Option-cases (find_socket_not_listen (tuple_of tmp.tuple.state p) (tuples net))) [
          | inr (id, c) ↦ elim (Option-cases (socket_at net id)) [
            | inl g ↦ rw (on_listen, a, b, c, g) tt
            | inr (s, g) ↦
                rw (on_listen, a, b, c, g)
                  (NetMoves-of_keeps net (tcp_send_synack id s p.seq net)
                    (tcp_send_synack-NetKeeps now id net s g p.seq))
          ]
          | inl c ↦ elim (Option-cases (create_socket_tcp is_copy net)) [
            | inl g ↦ rw (on_listen, a, b, c, g) tt
            | inr (id, g) ↦
                rw (on_listen, a, b, c, g)
                  (first_segment now id net (new_socket tmp (tuple_of tmp.tuple.state p) lid isn)
                    p.seq (create_socket_tcp-free is_copy net id g) refl)
          ]
        ]
  ]
]

Moves-of_closing :
    (now : Timeval) (id : ℕ) (s : TcpSocket) (p : Packet) (net : Net) (st : NetState)
    → socket_at net id ≡ some s
    → s.tuple.state ≡ st
    → NetMoves net (stamp now id (on_closing_state id s p net))
Moves-of_closing now id s p net st there e =
    NetMoves-NetKeeps net (on_closing_state id s p net) (stamp now id (on_closing_state id s p net))
      (closing_state now id net s there p st e)
      (stamp-NetKeeps now id (on_closing_state id s p net))

on_state-EachMoves :
    (now : Timeval) (isn : ℕ) (is_copy : TcpSocket → Bool) (tmp : TcpSocket) (id : ℕ)
    (s : TcpSocket) (p : Packet) (net : Net) (st : NetState)
    → socket_at net id ≡ some s
    → s.tuple.state ≡ st
    → EachMoves net (on_state now isn is_copy tmp id s p net)
unfolding on_state
on_state-EachMoves now isn is_copy tmp id s p net listen there e =
    rw (on_state, e)
      (stamped-EachMoves now id net (on_listen now isn is_copy tmp p net)
        (on_listen-EachMoves now isn is_copy tmp p net))
on_state-EachMoves now isn is_copy tmp id s p net syn_sent there e =
    rw (on_state, e)
      (NetMoves-NetKeeps net (on_syn_sent now id s p net)
        (stamp now id (on_syn_sent now id s p net)) (on_syn_sent-NetMoves now id net s there p e)
        (stamp-NetKeeps now id (on_syn_sent now id s p net)))
on_state-EachMoves now isn is_copy tmp id s p net syn_received there e =
    rw (on_state, e)
      (stamped-EachMoves now id net (on_syn_received id s p net)
        (on_syn_received-EachMoves net id s p there e))
on_state-EachMoves now isn is_copy tmp id s p net established there e =
    rw (on_state, e) (on_established-NetMoves now id net s there tmp.tuple.state p e)
on_state-EachMoves now isn is_copy tmp id s p net closed there e =
    rw (on_state, e) (Moves-of_closing now id s p net closed there e)
on_state-EachMoves now isn is_copy tmp id s p net fin_wait_1 there e =
    rw (on_state, e) (Moves-of_closing now id s p net fin_wait_1 there e)
on_state-EachMoves now isn is_copy tmp id s p net fin_wait_2 there e =
    rw (on_state, e) (Moves-of_closing now id s p net fin_wait_2 there e)
on_state-EachMoves now isn is_copy tmp id s p net close_wait there e =
    rw (on_state, e) (Moves-of_closing now id s p net close_wait there e)
on_state-EachMoves now isn is_copy tmp id s p net closing there e =
    rw (on_state, e) (Moves-of_closing now id s p net closing there e)
on_state-EachMoves now isn is_copy tmp id s p net last_ack there e =
    rw (on_state, e) (Moves-of_closing now id s p net last_ack there e)
on_state-EachMoves now isn is_copy tmp id s p net time_wait there e =
    rw (on_state, e) (Moves-of_closing now id s p net time_wait there e)

-- Whatever segment arrives, and whatever the table holds, every entry of the table of sockets
-- afterwards is what it was before, moved along one edge of the diagram of states or not at all, or
-- is a new connection in the state of one whose first segment has come, where the entry was free;
-- unless the handler follows a null pointer.
pub handle_tcp_v4-EachMoves :
    (now : Timeval) (isn : ℕ) (is_copy : TcpSocket → Bool) (tmp : TcpSocket) (p : Packet)
    (net : Net)
    → EachMoves net (handle_tcp_v4 now isn is_copy tmp p net)
unfolding handle_tcp_v4
handle_tcp_v4-EachMoves now isn is_copy tmp p net =
    elim (Option-cases (found_socket (tuple_of tmp.tuple.state p) net)) [
      | inl e ↦ rw (handle_tcp_v4, e) (each_still net)
      | inr (id, e) ↦ elim (Option-cases (socket_at net id)) [
        | inl f ↦ rw (handle_tcp_v4, e, f) tt
        | inr (s, f) ↦
            rw (handle_tcp_v4, e, f)
              (on_state-EachMoves now isn is_copy tmp id s p net s.tuple.state f refl)
      ]
    ]
