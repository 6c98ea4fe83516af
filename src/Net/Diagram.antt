-- ===== src/Net/Diagram.antt =====
-- The states of a connection: the diagram that the handler of tcp.h walks along, for every segment
-- and every socket of the table.
use mathlib.Core.Path.{subst}
use carrotos.Base.{
  ℕ, zero, suc, ◌<◌, ◌≡◌, ◌≢◌, sym, ap, ◌∙◌, Option, none, some, List, [], ◌∷◌, arith, length,
  get_elem?, get_elem?-set_self, get_elem?-set_ne, ℕ_discrete,
}
use carrotos.Net.Tuple.{
  NetState, closed, syn_sent, syn_received, established, fin_wait_1, fin_wait_2, close_wait,
  closing, last_ack, time_wait,
}
use carrotos.Net.Tcp.{TcpSocket, Net, slot_of, socket_at, put_socket}

-- What one segment can make of the state of a connection.
pub data Moves : NetState → NetState → Type 0 where
  stays : {s : NetState} → Moves s s
  opens : Moves syn_sent established
  accepted : Moves syn_received established
  other_ends : Moves established close_wait
  end_known : Moves fin_wait_1 fin_wait_2
  both_end : Moves fin_wait_1 closing
  other_follows : Moves fin_wait_2 time_wait
  both_known : Moves closing time_wait
  last_known : Moves last_ack closed

-- An entry of the table: free, made for a new connection, or one whose state has moved.
pub data EntryMoves : Option NetState → Option NetState → Type 0 where
  free : EntryMoves none none
  made : EntryMoves none (some syn_received)
  moved : {s t : NetState} → Moves s t → EntryMoves (some s) (some t)

abbrev pub state_of : Option TcpSocket → Option NetState
state_of none = none
state_of (some s) = some s.tuple.state

abbrev pub state_at : Net → ℕ → Option NetState
state_at net i = state_of (socket_at net i)

abbrev pub NetMoves : Net → Net → Type 0
NetMoves net after = (i : ℕ) → EntryMoves (state_at net i) (state_at after i)

-- No state has changed.
abbrev pub NetKeeps : Net → Net → Type 0
NetKeeps net after = (i : ℕ) → state_at after i ≡ state_at net i

pub NetKeeps-trans : (a b c : Net) → NetKeeps a b → NetKeeps b c → NetKeeps a c
NetKeeps-trans a b c keep then_keep i = then_keep i ∙ keep i

pub NetKeeps-NetMoves : (a b c : Net) → NetKeeps a b → NetMoves b c → NetMoves a c
NetKeeps-NetMoves a b c keep move i = subst (λ s. EntryMoves s (state_at c i)) (keep i) (move i)

pub NetMoves-NetKeeps : (a b c : Net) → NetMoves a b → NetKeeps b c → NetMoves a c
NetMoves-NetKeeps a b c move keep i =
    subst (λ s. EntryMoves (state_at a i) s) (sym (keep i)) (move i)

pub entry_itself : (s : Option NetState) → EntryMoves s s
entry_itself none = free
entry_itself (some s) = moved stays

pub NetMoves-of_keeps : (a b : Net) → NetKeeps a b → NetMoves a b
NetMoves-of_keeps a b keep i =
    subst (λ s. EntryMoves (state_at a i) s) (sym (keep i)) (entry_itself (state_at a i))

slot_there :
    (slots : List (Option TcpSocket)) (id : ℕ) (s : TcpSocket)
    → slot_of (get_elem? slots id) ≡ some s
    → id < length slots
unfolding slot_of
slot_there [] id s e = absurd cc
slot_there (x ∷ xs) zero s e = omega arith
slot_there (x ∷ xs) (suc i) s e = let h = slot_there xs i s e in omega arith

pub socket_at-inside :
    (net : Net) (id : ℕ) (s : TcpSocket) → socket_at net id ≡ some s → id < length net.sockets
unfolding socket_at
socket_at-inside net id s e = slot_there net.sockets id s e

-- The entry that was put, and the others.
pub socket_at-put_socket :
    (net : Net) (id : ℕ) (t : TcpSocket)
    → id < length net.sockets
    → socket_at (put_socket id t net) id ≡ some t
unfolding socket_at put_socket slot_of
socket_at-put_socket net id t inside =
    ap slot_of (get_elem?-set_self net.sockets id (some t) inside)

pub socket_at-put_socket_ne :
    (net : Net) {id j : ℕ} (t : TcpSocket)
    → id ≢ j
    → socket_at (put_socket id t net) j ≡ socket_at net j
unfolding socket_at put_socket
socket_at-put_socket_ne net t other = ap slot_of (get_elem?-set_ne net.sockets (some t) other)

module _ (net : Net) (id : ℕ) (s t : TcpSocket) (there : socket_at net id ≡ some s) where
  pub put_socket-NetKeeps : t.tuple.state ≡ s.tuple.state → NetKeeps net (put_socket id t net)
  put_socket-NetKeeps same i = elim (ℕ_discrete id i) [
    | yes e ↦ rw (← e) (
        ap state_of (socket_at-put_socket net id t (socket_at-inside net id s there))
        ∙ ap some same
        ∙ sym (ap state_of there))
    | no other ↦ ap state_of (socket_at-put_socket_ne net t other)
  ]

  pub put_socket-NetMoves : Moves s.tuple.state t.tuple.state → NetMoves net (put_socket id t net)
  put_socket-NetMoves move i = elim (ℕ_discrete id i) [
    | yes e ↦
        rw (← e, there, socket_at-put_socket net id t (socket_at-inside net id s there))
          (moved move)
    | no other ↦
        subst (λ x. EntryMoves (state_at net i) (state_of x))
          (sym (socket_at-put_socket_ne net t other)) (entry_itself (state_at net i))
  ]
