-- ===== src/Uds/Link.antt =====
-- Linking the two ends of a local stream, stream.h: the table of sockets that `link` leaves.
use carrotos.Base.Step.{◌>>=◌}
use carrotos.Base.{
  ℕ, ◌<◌, ◌≡◌, ◌≢◌, refl, sym, ap, ◌∙◌, inl, inr, Bool, true, Option, some, List, arith, length,
  length-set, Option-cases, not, ◌==◌,
}
use carrotos.Base.Slots.{
  slot_at, put_slot, find_slot, slot_at-lt, slot_at-put_self, slot_at-put_ne, find_slot_found,
}
use carrotos.Thread.{Thread, Threads}
use carrotos.Thread.State.{ready}
use carrotos.Thread.Table.{put_thread}
use carrotos.Uds.{
  backlog_server, stream, UdsSocket, Uds, listen_flag, uds_socket_at, put_uds_socket, with_state,
}
use carrotos.Net.Tcp.{bytes_of}
use carrotos.Uds.Stream.{
  append_bytes, waits_at, push_backlog_stream, resume_first_thread_pending_on_listen_stream, link,
}

waits_at-flag :
    (flag_addr : ℕ) (t : Thread) → waits_at flag_addr t ≡ true → t.sleep_flag_addr ≡ flag_addr
unfolding waits_at
waits_at-flag flag_addr t h = ground arith

-- Waking a waiter changes the threads alone, and of those none that waits at another flag.
pub resume_first_total :
    (l : ℕ) (u : Uds) {lis : UdsSocket}
    → uds_socket_at u l ≡ some lis
    → (woke : Bool) × (threads : Threads) × (resume_first_thread_pending_on_listen_stream l u
        ≡ some (woke, record u { threads = threads }))
      × ((i : ℕ) (t : Thread)
          → slot_at u.threads i ≡ some t
          → t.sleep_flag_addr ≢ listen_flag lis
          → slot_at threads i ≡ some t)
unfolding resume_first_thread_pending_on_listen_stream
resume_first_total l u {lis} h =
    elim (Option-cases (find_slot (waits_at (listen_flag lis)) u.threads 0)) [
      | inl e ↦ (true, u.threads, rw (h, ◌>>=◌) (rw (e, ◌>>=◌)), λ i t there ne. there)
      | inr p ↦
          let (k, t, e, there, passes) =
            find_slot_found (waits_at (listen_flag lis)) u.threads 0 p.1 in
          let same : p.0 ≡ k = omega arith in
          let here : slot_at u.threads p.0 ≡ some t = rw same there in
          let woken : Thread = record t { state = ready } in
          let other : (i : ℕ) (r : Thread)
              → slot_at u.threads i ≡ some r
              → r.sleep_flag_addr ≢ listen_flag lis
              → p.0 ≢ i =
            λ i r at_i ne e'.
              let at_p : slot_at u.threads p.0 ≡ some r = rw e' at_i in
              let eq : t ≡ r = cc in
              ne (
                ap (λ (x : Thread). x.sleep_flag_addr) (sym eq)
                ∙ waits_at-flag (listen_flag lis) t passes) in
          (
            not (p.0 == 0),
            put_thread u.threads p.0 woken,
            rw (h, ◌>>=◌) (rw (p.1, ◌>>=◌) (rw (here, ◌>>=◌))),
            λ i r at_i ne. slot_at-put_ne u.threads woken (other i r at_i ne) ∙ at_i,
          )
    ]

-- The eight bytes of a number, added to the backlog.
pub push_backlog_stream_lem :
    (child l : ℕ) (u : Uds) {lis : UdsSocket}
    → uds_socket_at u l ≡ some lis
    → (count : ℕ) × (push_backlog_stream child l u
        ≡ some (count, put_uds_socket l (append_bytes u.backlog_size (bytes_of 8 child) lis).1 u))
unfolding push_backlog_stream
push_backlog_stream_lem child l u {lis} h =
    ((append_bytes u.backlog_size (bytes_of 8 child) lis).0, rw (h, ◌>>=◌))

-- The three sockets as the call leaves them.
abbrev pub server_end : (client : ℕ) → UdsSocket → UdsSocket
server_end client s =
    with_state backlog_server
      (record s { tuple = record s.tuple { type = stream }; peer_id = client })

abbrev pub client_end : (server : ℕ) → UdsSocket → UdsSocket
client_end server s = record s { peer_id = server }

abbrev pub queued : (child : ℕ) → Uds → UdsSocket → UdsSocket
queued child u s = (append_bytes u.backlog_size (bytes_of 8 child) s).1

abbrev pub linked_sockets :
    (c l f : ℕ) → Uds → (client server lis : UdsSocket) → List (Option UdsSocket)
linked_sockets c l f u client server lis =
    put_slot (put_slot (put_slot u.sockets f (server_end c server)) c (client_end f client)) l
      (queued f u lis)

module _ (c l f : ℕ) (u : Uds) {client server lis : UdsSocket}
    (at_c : uds_socket_at u c ≡ some client) (at_f : uds_socket_at u f ≡ some server)
    (at_l : uds_socket_at u l ≡ some lis) (c_f : c ≢ f) (l_f : l ≢ f) (l_c : l ≢ c) where
  pub link_lem :
      (threads : Threads) × (link c l (f, u)
        ≡ some (record u { sockets = linked_sockets c l f u client server lis; threads = threads }))
  unfolding link
  link_lem =
      let step = record u { sockets = put_slot u.sockets f (server_end c server) } in
      let client_there : uds_socket_at step c ≡ some client =
        slot_at-put_ne u.sockets (server_end c server) (λ e. c_f (sym e)) ∙ at_c in
      let both = record step { sockets = put_slot step.sockets c (client_end f client) } in
      let lis_there : uds_socket_at both l ≡ some lis =
        slot_at-put_ne step.sockets (client_end f client) (λ e. l_c (sym e))
        ∙ slot_at-put_ne u.sockets (server_end c server) (λ e. l_f (sym e))
        ∙ at_l in
      let (count, pushed) = push_backlog_stream_lem f l both lis_there in
      let inside : l < length both.sockets = slot_at-lt both.sockets l lis_there in
      let after : Uds = put_uds_socket l (queued f u lis) both in
      let queued_there : uds_socket_at after l ≡ some (queued f u lis) =
        slot_at-put_self both.sockets l (queued f u lis) inside in
      let (woke, threads, woken, rest) = resume_first_total l after queued_there in
      (
        threads,
        rw (at_f, ◌>>=◌) (rw (client_there, ◌>>=◌) (rw (pushed, ◌>>=◌) (rw (woken, ◌>>=◌) refl))),
      )

  served : List (Option UdsSocket)
  served = put_slot u.sockets f (server_end c server)

  pub linked_length : length (linked_sockets c l f u client server lis) ≡ length u.sockets
  unfolding served
  linked_length =
      length-set (put_slot served c (client_end f client)) l (some (queued f u lis))
      ∙ length-set served c (some (client_end f client))
      ∙ length-set u.sockets f (some (server_end c server))

  pub linked_client :
      slot_at (linked_sockets c l f u client server lis) c ≡ some (client_end f client)
  unfolding served
  linked_client =
      slot_at-put_ne (put_slot served c (client_end f client)) (queued f u lis) l_c
      ∙ slot_at-put_self served c (client_end f client) (
          omega (
            arith,
            slot_at-lt u.sockets c at_c,
            length-set u.sockets f (some (server_end c server)),
          ))

  pub linked_server :
      slot_at (linked_sockets c l f u client server lis) f ≡ some (server_end c server)
  unfolding served
  linked_server =
      slot_at-put_ne (put_slot served c (client_end f client)) (queued f u lis) l_f
      ∙ slot_at-put_ne served (client_end f client) c_f
      ∙ slot_at-put_self u.sockets f (server_end c server) (slot_at-lt u.sockets f at_f)

  pub linked_listener : slot_at (linked_sockets c l f u client server lis) l ≡ some (queued f u lis)
  unfolding served
  linked_listener = slot_at-put_self (put_slot served c (client_end f client)) l (queued f u lis) (
      omega (
        arith,
        slot_at-lt u.sockets l at_l,
        length-set served c (some (client_end f client)),
        length-set u.sockets f (some (server_end c server)),
      ))

  pub linked_others :
      (i : ℕ)
      → i ≢ c
      → i ≢ l
      → i ≢ f
      → slot_at (linked_sockets c l f u client server lis) i ≡ slot_at u.sockets i
  unfolding served
  linked_others i i_c i_l i_f =
      slot_at-put_ne (put_slot served c (client_end f client)) (queued f u lis) (λ e. i_l (sym e))
      ∙ slot_at-put_ne served (client_end f client) (λ e. i_c (sym e))
      ∙ slot_at-put_ne u.sockets (server_end c server) (λ e. i_f (sym e))
