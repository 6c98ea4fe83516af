-- ===== src/Uds/Accept.antt =====
-- Accepting a connection on a local stream, stream.h: the two looks at the backlog.
use carrotos.Base.Step.{◌>>=◌}
use carrotos.Base.{
  ℕ, ◌<◌, ◌≡◌, ◌≢◌, refl, sym, ap, ◌∙◌, ◌⊎◌, true, false, Option, some, List, [], ◌++◌, append-nil,
  arith, length, length-set, ◌==◌, take,
}
use mathlib.Core.Path.{subst}
use carrotos.Base.Slots.{
  put_slot, free_slot, find_slot, slot_at-lt, slot_at-put_self, slot_at-put_ne,
}
use carrotos.Text.{Text, minus_one}
use carrotos.Uds.{
  closed, bound, established, UdsSocket, Uds, uds_socket_at, put_uds_socket, with_state,
}
use carrotos.Uds.Backlog.{
  IsBacklog, backlog_of, moved, pull_backlog_stream_first, pull_backlog_stream_none,
}
use carrotos.Net.Tcp.{bytes_of}
use carrotos.Uds.Stream.{is_stream, listens_at, handle_connect_stream}
use carrotos.Uds.Dispatch.{
  FileInner, fd_slots, uds_descriptor, fails, accepts, open_accepted, goes_on, handle_stream_accept,
  handle_stream_accept_finish,
}
use carrotos.Uds.Connect.{HasRoom, handle_connect_stream-Connects}

-- A number that is not -1.
named : (a : ℕ) → a < minus_one → (a == minus_one) ≡ false
named a h = ground arith

module _ (l : ℕ) (u : Uds) {lis : UdsSocket} (at_l : uds_socket_at u l ≡ some lis)
    (ring : IsBacklog u.backlog_size lis) where
  -- A call that finds numbers in the backlog takes the first one out and goes straight on: the
  -- listener then holds the rest, and nothing else has changed.
  skips :
      (tid a : ℕ) (rest : List ℕ)
      → is_stream lis ≡ true
      → a < minus_one
      → backlog_of u.backlog_size lis ≡ bytes_of 8 a ++ rest
      → (tail : ℕ) × (handle_stream_accept tid l u
          ≡ some (goes_on (put_uds_socket l (moved tail lis) u)))
        × IsBacklog u.backlog_size (moved tail lis)
        × (backlog_of u.backlog_size (moved tail lis) ≡ rest)
  unfolding handle_stream_accept
  skips tid a rest open_lis small holds =
      let (tail, pulled, ring', left) =
        pull_backlog_stream_first l u at_l ring a rest (omega arith) holds in
      (tail, rw pulled (rw (at_l, ◌>>=◌) (rw open_lis (rw (named a small) refl))), ring', left)

  finish_empty :
      (fd : List (Option FileInner))
      → backlog_of u.backlog_size lis ≡ []
      → (tail : ℕ) × (handle_stream_accept_finish l fd u
          ≡ some (fails (put_uds_socket l (moved tail lis) u)))
        × (backlog_of u.backlog_size (moved tail lis) ≡ [])
  unfolding handle_stream_accept_finish
  finish_empty fd empty =
      let (tail, pulled, ring', left) = pull_backlog_stream_none l u at_l ring empty in
      (tail, rw (pulled, ◌>>=◌) refl, left)

-- The table after the call: the listener without the number, and both ends established.
abbrev accepted_sockets :
    (l f tail : ℕ) → Uds → (lis server client : UdsSocket) → List (Option UdsSocket)
accepted_sockets l f tail u lis server client =
    put_slot (put_slot (put_slot u.sockets l (moved tail lis)) f (with_state established server))
      server.peer_id (with_state established client)

module _ (l f : ℕ) (u : Uds) {lis server client : UdsSocket} (at_l : uds_socket_at u l ≡ some lis)
    (at_f : uds_socket_at u f ≡ some server) (at_c : uds_socket_at u server.peer_id ≡ some client)
    (l_f : l ≢ f) (l_c : l ≢ server.peer_id) (f_c : f ≢ server.peer_id)
    (ring : IsBacklog u.backlog_size lis) where
  finish_first :
      (fd : List (Option FileInner)) (rest : List ℕ)
      → f < minus_one
      → backlog_of u.backlog_size lis ≡ bytes_of 8 f ++ rest
      → (tail : ℕ) × (handle_stream_accept_finish l fd u
          ≡ some (
              open_accepted f fd
                (record u { sockets = accepted_sockets l f tail u lis server client })))
  unfolding handle_stream_accept_finish
  finish_first fd rest small holds =
      let (tail, pulled, ring', left) =
        pull_backlog_stream_first l u at_l ring f rest (omega arith) holds in
      let v = put_uds_socket l (moved tail lis) u in
      let server_there : uds_socket_at v f ≡ some server =
        slot_at-put_ne u.sockets (moved tail lis) l_f ∙ at_f in
      let half = put_uds_socket f (with_state established server) v in
      let client_there : uds_socket_at half server.peer_id ≡ some client =
        slot_at-put_ne v.sockets (with_state established server) f_c
        ∙ slot_at-put_ne u.sockets (moved tail lis) l_c
        ∙ at_c in
      (
        tail,
        rw (pulled, ◌>>=◌)
            (rw (named f small) (rw (server_there, ◌>>=◌) (rw (client_there, ◌>>=◌) refl))),
      )

-- A stream listener at entry `l` whose backlog holds one number, and no more: the call takes it out
-- at its first look, goes on without a sleep, finds nothing at the second and returns -1. The
-- backlog is empty then, and every other socket, the two ends of the connection among them, is as
-- it was before, so that the connection is never accepted.
pub handle_stream_accept_loses :
    (tid l a : ℕ) (fd : List (Option FileInner)) (u : Uds) {lis : UdsSocket}
    → uds_socket_at u l ≡ some lis
    → is_stream lis ≡ true
    → IsBacklog u.backlog_size lis
    → a < minus_one
    → backlog_of u.backlog_size lis ≡ bytes_of 8 a
    → (v : Uds) × (w : Uds) × (lis' : UdsSocket) × (handle_stream_accept tid l u ≡ some (goes_on v))
      × (handle_stream_accept_finish l fd v ≡ some (fails w))
      × (uds_socket_at w l ≡ some lis')
      × (backlog_of u.backlog_size lis' ≡ [])
      × ((i : ℕ) → i ≢ l → uds_socket_at w i ≡ uds_socket_at u i)
handle_stream_accept_loses tid l a fd u {lis} at_l open_lis ring small holds =
    let one = holds ∙ sym (append-nil (bytes_of 8 a)) in
    let (tail, first, ring', left) = skips l u at_l ring tid a [] open_lis small one in
    let v = put_uds_socket l (moved tail lis) u in
    let inside = slot_at-lt u.sockets l at_l in
    let there = slot_at-put_self u.sockets l (moved tail lis) inside in
    let (tail', second, left') = finish_empty l v there ring' fd left in
    let inside' = slot_at-lt v.sockets l there in
    (
      v,
      put_uds_socket l (moved tail' (moved tail lis)) v,
      moved tail' (moved tail lis),
      first,
      second,
      slot_at-put_self v.sockets l (moved tail' (moved tail lis)) inside',
      left',
      λ i i_l.
          slot_at-put_ne v.sockets (moved tail' (moved tail lis)) (λ e. i_l (sym e))
          ∙ slot_at-put_ne u.sockets (moved tail lis) (λ e. i_l (sym e)),
    )

-- Two entries of the table that are the ends of one established stream.
pub record IsConnection (u : Uds) (c f : ℕ) : Type 0 where
  pub client : UdsSocket
  pub server : UdsSocket
  pub client_there : uds_socket_at u c ≡ some client
  pub server_there : uds_socket_at u f ≡ some server
  pub client_state : client.tuple.state ≡ established
  pub server_state : server.tuple.state ≡ established
  pub client_peer : client.peer_id ≡ f
  pub server_peer : server.peer_id ≡ c

module _ (l f : ℕ) (u : Uds) {lis server client : UdsSocket} (tail : ℕ)
    (at_l : uds_socket_at u l ≡ some lis) (at_f : uds_socket_at u f ≡ some server)
    (at_c : uds_socket_at u server.peer_id ≡ some client) (f_c : f ≢ server.peer_id) (l_f : l ≢ f)
    (l_c : l ≢ server.peer_id) (client_peer : client.peer_id ≡ f) where
  accepted-IsConnection :
      IsConnection
        (record u { sockets = accepted_sockets l f tail u lis server client })
        server.peer_id
        f
  accepted-IsConnection =
      let one = put_slot u.sockets l (moved tail lis) in
      let two = put_slot one f (with_state established server) in
      let f_in : f < length one =
        omega
          (arith, slot_at-lt u.sockets f at_f, length-set u.sockets l (some (moved tail lis))) in
      let c_in : server.peer_id < length two = omega (
        arith,
        slot_at-lt u.sockets server.peer_id at_c,
        length-set u.sockets l (some (moved tail lis)),
        length-set one f (some (with_state established server)),
      ) in
      record {
        client = with_state established client;
        server = with_state established server;
        client_there = slot_at-put_self two server.peer_id (with_state established client) c_in;
        server_there =
            slot_at-put_ne two (with_state established client) (λ e. f_c (sym e))
            ∙ slot_at-put_self one f (with_state established server) f_in;
        client_state = refl;
        server_state = refl;
        client_peer = client_peer;
        server_peer = refl;
      }

opened :
    (f : ℕ) (fd : List (Option FileInner)) (u : Uds) {d : ℕ}
    → free_slot (take fd_slots fd) 0 ≡ some d
    → open_accepted f fd u ≡ accepts d (put_slot fd d (uds_descriptor f)) u
unfolding open_accepted
opened f fd u h = rw h refl

module _ (new_addr : ℕ) (fresh : List ℕ) (zeros : UdsSocket) (c l f : ℕ) (path : Text) (u : Uds)
    {client lis : UdsSocket} (at_c : uds_socket_at u c ≡ some client)
    (is_open : is_stream client ≡ true)
    (state : (client.tuple.state ≡ closed) ⊎ (client.tuple.state ≡ bound))
    (found : find_slot (listens_at path) u.sockets 0 ≡ some l)
    (free : free_slot u.sockets 0 ≡ some f) (at_l : uds_socket_at u l ≡ some lis)
    (room : HasRoom u.backlog_size lis) (empty : backlog_of u.backlog_size lis ≡ [])
    (small : f < minus_one) (fd : List (Option FileInner)) {d : ℕ}
    (spare : free_slot (take fd_slots fd) 0 ≡ some d) where
  -- A listener whose backlog is empty, as it is while a call to accept sleeps: a stream that is
  -- closed or bound connects to its path, with blocks for the new socket, a free entry in the
  -- table, not the one numbered -1, room in the backlog, and a free entry among the first ten
  -- descriptors of the process that accepts. The call returns true, and the call to accept, going
  -- on after that, stores a descriptor for the new socket in the first of those entries and returns
  -- its number; that socket and the caller are then both established, and each has the number of
  -- the other.
  pub handle_stream_accept_finish-handle_connect_stream :
      (v : Uds) × (w : Uds) × (handle_connect_stream new_addr fresh zeros c path u ≡ some (true, v))
      × (handle_stream_accept_finish l fd v ≡ some (accepts d (put_slot fd d (uds_descriptor f)) w))
      × IsConnection w c f
  handle_stream_accept_finish-handle_connect_stream =
      let (v, returned, k) =
        handle_connect_stream-Connects new_addr fresh zeros c l f path u at_c is_open state found
          free at_l room in
      let ring : IsBacklog v.backlog_size k.listener = rw k.size k.listener_ring in
      let holds : backlog_of v.backlog_size k.listener ≡ bytes_of 8 f ++ [] =
        rw (k.size, append-nil (bytes_of 8 f)) (k.backlog ∙ ap (λ bs. bs ++ bytes_of 8 f) empty) in
      let back = sym k.server_peer in
      let at_client : uds_socket_at v k.server.peer_id ≡ some k.client =
        rw k.server_peer k.client_there in
      let f_c : f ≢ k.server.peer_id = λ e. k.ends_differ (sym (e ∙ k.server_peer)) in
      let l_c : l ≢ k.server.peer_id = λ e. k.listener_ne_client (e ∙ k.server_peer) in
      let (tail, accepted) =
        finish_first l f v k.listener_there k.server_there at_client k.listener_ne_server l_c f_c
          ring fd [] small holds in
      let connected =
        accepted-IsConnection l f v tail k.listener_there k.server_there at_client f_c
          k.listener_ne_server l_c k.client_peer in
      let w : Uds = record v {
        sockets = accepted_sockets l f tail v k.listener k.server k.client;
      } in
      (
        v,
        w,
        returned,
        accepted ∙ ap some (opened f fd w spare),
        subst (λ n. IsConnection w n f) k.server_peer connected,
      )
