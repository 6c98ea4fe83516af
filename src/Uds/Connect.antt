-- ===== src/Uds/Connect.antt =====
-- A connection of two local streams, stream.h: what `handle_connect_stream` leaves.
use carrotos.Base.Step.{◌>>=◌}
use carrotos.Base.{
  ℕ, ◌+◌, ◌-◌, ◌≤◌, ◌<◌, ◌≡◌, ◌≢◌, refl, sym, ap, ◌∙◌, ◌⊎◌, inl, inr, true, false, ◌&&◌, none, some,
  List, ◌++◌, arith, length, length-set, not,
}
use carrotos.Base.Slots.{
  slot_at, put_slot, free_slot, find_slot, slot_at-lt, slot_at-put_self, slot_at-put_ne,
  free_slot_free, find_slot_found, free_slot-put,
}
use carrotos.Fifo.Step.{used}
use carrotos.Fifo.{fifo_write8}
use carrotos.Fifo.Queue.{fifo_write8_lem, take_all}
use carrotos.Thread.{Threads}
use carrotos.Text.{Text}
use carrotos.Uds.{
  UdsState, uds_state_is, listen_of_uds_state_is, closed, bound, listen, backlog_client,
  backlog_server, UdsSocket, Uds, uds_socket_at, put_uds_socket, with_state,
}
use carrotos.Uds.Table.{placed, create_socket_stream}
use carrotos.Net.Tcp.{bytes_of}
use carrotos.Uds.Stream.{is_stream, append_bytes, listens_at, handle_connect_stream}
use carrotos.Uds.Backlog.{IsBacklog, backlog_of, length-bytes_of}
use carrotos.Uds.Link.{
  client_end, server_end, queued, linked_sockets, link_lem, linked_length, linked_client,
  linked_server, linked_listener, linked_others,
}

-- What a connection leaves: the two ends, each with the number of the other; the number of the new
-- end behind the rest of the backlog; and every other entry as it was.
pub record Connects (u : Uds) (c l f : ℕ) (lis : UdsSocket) (v : Uds) : Type 0 where
  pub client : UdsSocket
  pub server : UdsSocket
  pub listener : UdsSocket
  pub ends_differ : c ≢ f
  pub listener_ne_client : l ≢ c
  pub listener_ne_server : l ≢ f
  pub client_there : uds_socket_at v c ≡ some client
  pub client_state : client.tuple.state ≡ backlog_client
  pub client_peer : client.peer_id ≡ f
  pub server_there : uds_socket_at v f ≡ some server
  pub server_stream : is_stream server ≡ true
  pub server_state : server.tuple.state ≡ backlog_server
  pub server_peer : server.peer_id ≡ c
  pub listener_there : uds_socket_at v l ≡ some listener
  pub listener_ring : IsBacklog u.backlog_size listener
  pub backlog : backlog_of u.backlog_size listener ≡ backlog_of u.backlog_size lis ++ bytes_of 8 f
  pub listener_stream : is_stream listener ≡ is_stream lis
  pub others : (i : ℕ) → i ≢ c → i ≢ l → i ≢ f → uds_socket_at v i ≡ uds_socket_at u i
  pub size : v.backlog_size ≡ u.backlog_size
  pub entries : length v.sockets ≡ length u.sockets

-- The ring of a listener with room for eight bytes more.
pub record HasRoom (size : ℕ) (lis : UdsSocket) : Type 0 where
  pub ring : IsBacklog size lis
  pub room : 8 + used size lis.tuple.tail lis.tuple.head < size

pub listens_at-listen :
    (path : Text) (s : UdsSocket) → listens_at path s ≡ true → s.tuple.state ≡ listen
unfolding listens_at
listens_at-listen path s h = listen_of_uds_state_is s.tuple.state (ground arith)

open_state :
    (s : UdsState)
    → (s ≡ closed) ⊎ (s ≡ bound)
    → (not (uds_state_is s closed) && not (uds_state_is s bound)) ≡ false
open_state s (inl e) = rw e refl
open_state s (inr e) = rw e refl

open_ne_listen : (s : UdsState) → (s ≡ closed) ⊎ (s ≡ bound) → s ≢ listen
open_ne_listen s (inl e) h = cc
open_ne_listen s (inr e) h = cc

module _ (new_addr : ℕ) (fresh : List ℕ) (zeros : UdsSocket) (c l f : ℕ) (path : Text) (u : Uds)
    {client lis : UdsSocket} (at_c : uds_socket_at u c ≡ some client)
    (is_open : is_stream client ≡ true)
    (state : (client.tuple.state ≡ closed) ⊎ (client.tuple.state ≡ bound))
    (found : find_slot (listens_at path) u.sockets 0 ≡ some l)
    (free : free_slot u.sockets 0 ≡ some f) (at_l : uds_socket_at u l ≡ some lis)
    (room : HasRoom u.backlog_size lis) where
  abbrev caller : UdsSocket
  caller = with_state backlog_client client

  abbrev child : UdsSocket
  child = placed new_addr fresh f zeros

  abbrev created : Uds
  created = record u { sockets = put_slot (put_slot u.sockets c caller) f child }

  child_free : (f < length u.sockets) × (slot_at u.sockets f ≡ none)
  child_free =
      let (k, e, inside, empty) = free_slot_free u.sockets 0 free in
      let same : f ≡ k = omega arith in (omega arith, rw same empty)

  caller_ne_child : c ≢ f
  caller_ne_child e =
      let here : slot_at u.sockets f ≡ some client = rw (← e) at_c in
      let (inside, empty) = child_free in cc

  listener_ne_child : l ≢ f
  listener_ne_child e =
      let here : slot_at u.sockets f ≡ some lis = rw (← e) at_l in
      let (inside, empty) = child_free in cc

  listener_ne_caller : l ≢ c
  listener_ne_caller e =
      let (k, a, same, there, passes) = find_slot_found (listens_at path) u.sockets 0 found in
      let k_c : k ≡ c = omega arith in
      let here : slot_at u.sockets c ≡ some a = rw (← k_c) there in
      let same_socket : client ≡ a = cc in
      open_ne_listen client.tuple.state state (rw same_socket (listens_at-listen path a passes))

  child_made : create_socket_stream new_addr fresh zeros (put_uds_socket c caller u) ≡ (f, created)
  unfolding create_socket_stream
  child_made =
      let first : free_slot (put_slot u.sockets c caller) 0 ≡ some f =
        free_slot-put u.sockets c 0 caller at_c ∙ free in
      rw (first, create_socket_stream) refl

  caller_there : uds_socket_at created c ≡ some caller
  caller_there =
      slot_at-put_ne (put_slot u.sockets c caller) child (λ e. caller_ne_child (sym e))
      ∙ slot_at-put_self u.sockets c caller (slot_at-lt u.sockets c at_c)

  child_there : uds_socket_at created f ≡ some child
  child_there =
      slot_at-put_self (put_slot u.sockets c caller) f child
        (omega (arith, length-set u.sockets c (some caller), child_free.0))

  listener_there : uds_socket_at created l ≡ some lis
  listener_there =
      slot_at-put_ne (put_slot u.sockets c caller) child (λ e. listener_ne_child (sym e))
      ∙ slot_at-put_ne u.sockets caller (λ e. listener_ne_caller (sym e))
      ∙ at_l

  abbrev after : Threads → Uds
  after threads = record created {
    sockets = linked_sockets c l f created caller child lis;
    threads = threads;
  }

  connects :
      (threads : Threads) × (handle_connect_stream new_addr fresh zeros c path u
        ≡ some (true, after threads))
  unfolding handle_connect_stream
  connects =
      let (threads, linked) =
        link_lem c l f created caller_there child_there listener_there caller_ne_child
          listener_ne_child listener_ne_caller in
      (
        threads,
        rw (at_c, ◌>>=◌)
            (rw is_open (
              rw (open_state client.tuple.state state)
                (rw found (rw child_made (rw (linked, ◌>>=◌) refl))))),
      )

  -- A stream that is closed or bound, connected to a path at which another listens, with a free
  -- entry in the table and room for eight bytes in the backlog: the call returns true. The caller
  -- and the new socket are the two ends of a connection in the backlog, each with the number of the
  -- other, the eight bytes of the new socket's number stand behind what the backlog held, and all
  -- other entries are unchanged.
  pub handle_connect_stream-Connects :
      (v : Uds) × (handle_connect_stream new_addr fresh zeros c path u ≡ some (true, v))
      × Connects u c l f lis v
  unfolding append_bytes fifo_write8
  handle_connect_stream-Connects =
      let (threads, returned) = connects in
      let queue = fifo_write8_lem (bytes_of 8 f) room.ring in
      let short : length (bytes_of 8 f)
          ≤ u.backlog_size - 1 - used u.backlog_size lis.tuple.tail lis.tuple.head =
        omega (arith, length-bytes_of 8 f, room.room) in
      (
        after threads,
        returned,
        record {
          client = client_end f caller;
          server = server_end c child;
          listener = queued f u lis;
          ends_differ = caller_ne_child;
          listener_ne_client = listener_ne_caller;
          listener_ne_server = listener_ne_child;
          client_there =
              linked_client c l f created caller_there child_there listener_there caller_ne_child
                listener_ne_child listener_ne_caller;
          client_state = refl;
          client_peer = refl;
          server_there =
              linked_server c l f created caller_there child_there listener_there caller_ne_child
                listener_ne_child listener_ne_caller;
          server_stream = refl;
          server_state = refl;
          server_peer = refl;
          listener_there =
              linked_listener c l f created caller_there child_there listener_there caller_ne_child
                listener_ne_child listener_ne_caller;
          listener_ring = queue.ring;
          backlog =
              queue.held
              ∙ ap (λ bs. backlog_of u.backlog_size lis ++ bs) (take_all _ (bytes_of 8 f) short);
          listener_stream = refl;
          others = λ i i_c i_l i_f.
              linked_others c l f created caller_there child_there listener_there caller_ne_child
                listener_ne_child listener_ne_caller i i_c i_l i_f
              ∙ slot_at-put_ne (put_slot u.sockets c caller) child (λ e. i_f (sym e))
              ∙ slot_at-put_ne u.sockets caller (λ e. i_c (sym e));
          size = refl;
          entries =
              linked_length c l f created caller_there child_there listener_there caller_ne_child
                listener_ne_child listener_ne_caller
              ∙ length-set (put_slot u.sockets c caller) f (some child)
              ∙ length-set u.sockets c (some caller);
        },
      )
