-- ===== src/Uds/Deliver.antt =====
-- Where the bytes of a local stream go, stream.h and `uds_send_dispatch` of af_unix.h.
use carrotos.Base.Step.{◌>>=◌}
use carrotos.Base.{ℕ, ◌-◌, ◌≡◌, ◌≢◌, refl, sym, ap, ◌∙◌, true, false, some, List, ◌++◌, arith, take}
use carrotos.Base.Slots.{put_slot, slot_at-lt, slot_at-put_self, slot_at-put_ne}
use carrotos.Time.{Timeval}
use carrotos.Fifo.Step.{used}
use carrotos.Fifo.Queue.{fifo_write8_lem}
use carrotos.Thread.{Thread, Threads}
use carrotos.Thread.Table.{thread_at}
use carrotos.Uds.{
  UdsState, uds_state_is, type_is, established, dgram, UdsSocket, Uds, recv_flag, listen_flag,
  uds_socket_at, put_uds_socket,
}
use carrotos.Uds.Table.{find_socket_uds_with_local_addr}
use carrotos.Uds.Stream.{is_stream, append_bytes}
use carrotos.Uds.Dispatch.{
  handle_stream_established_packet, handle_stream, handle_uds, uds_send_dispatch,
  send_stream_established_packet,
}
use carrotos.Uds.Backlog.{IsBacklog, backlog_of}
use carrotos.Uds.Link.{resume_first_total}

abbrev grown : (size : ℕ) → List ℕ → UdsSocket → UdsSocket
grown size bytes s = (append_bytes size bytes s).1

-- The data that a stream socket's ring has room for, behind what it holds.
abbrev pub Delivered : (size : ℕ) → List ℕ → (s t : UdsSocket) → Type 0
Delivered size bytes s t =
    backlog_of size t
    ≡ backlog_of size s ++ take (size - 1 - used size s.tuple.tail s.tuple.head) bytes

module _ (id : ℕ) (bytes : List ℕ) (u : Uds) {sock : UdsSocket}
    (at_id : uds_socket_at u id ≡ some sock) (is_open : is_stream sock ≡ true)
    (state : sock.tuple.state ≡ established) where
  packet_lem :
      (threads : Threads) × (handle_stream_established_packet id bytes u
        ≡ some (
          false,
          record u {
            sockets = put_slot u.sockets id (grown u.stream_size bytes sock);
            threads = threads;
          },
        ))
      × ((i : ℕ) (t : Thread)
          → thread_at u.threads i ≡ some t
          → t.sleep_flag_addr ≢ listen_flag sock
          → thread_at threads i ≡ some t)
  unfolding handle_stream_established_packet
  packet_lem =
      let next = put_uds_socket id (grown u.stream_size bytes sock) u in
      let there : uds_socket_at next id ≡ some (grown u.stream_size bytes sock) =
        slot_at-put_self u.sockets id (grown u.stream_size bytes sock)
          (slot_at-lt u.sockets id at_id) in
      let (woke, threads, woken, rest) = resume_first_total id next there in
      let is_est : uds_state_is sock.tuple.state established ≡ true =
        ap (λ (st : UdsState). uds_state_is st established) state in
      (threads, rw (at_id, ◌>>=◌) (rw is_open (rw is_est (rw (woken, ◌>>=◌) refl))), rest)

  -- The handler of a stream, and the dispatch that leads to it.
  handle_uds_lem :
      (now : Timeval)
      → (v : Uds) × (t : UdsSocket) × (handle_uds now id bytes u ≡ some v)
        × (uds_socket_at v id ≡ some t)
        × (t.buffer ≡ (grown u.stream_size bytes sock).buffer)
        × (t.tuple.head ≡ (grown u.stream_size bytes sock).tuple.head)
        × (t.tuple.tail ≡ sock.tuple.tail)
        × ((i : ℕ) → i ≢ id → uds_socket_at v i ≡ uds_socket_at u i)
        × ((i : ℕ) (r : Thread)
            → thread_at u.threads i ≡ some r
            → r.sleep_flag_addr ≢ listen_flag sock
            → thread_at v.threads i ≡ some r)
  unfolding handle_uds handle_stream
  handle_uds_lem now =
      let (threads, handled, rest) = packet_lem in
      let after = grown u.stream_size bytes sock in
      let stamped = record after { tuple = record after.tuple { last_updated_time_ms = now } } in
      let w : Uds = record u { sockets = put_slot u.sockets id after; threads = threads } in
      let inside = slot_at-lt u.sockets id at_id in
      let there : uds_socket_at w id ≡ some after = slot_at-put_self u.sockets id after inside in
      let is_est : uds_state_is sock.tuple.state established ≡ true =
        ap (λ (st : UdsState). uds_state_is st established) state in
      let not_dgram : type_is sock.tuple.type dgram ≡ false = ground arith in
      (
        put_uds_socket id stamped w,
        stamped,
        rw handled
            (rw (at_id, ◌>>=◌) (rw not_dgram (rw is_open (rw is_est (rw (there, ◌>>=◌) refl))))),
        slot_at-put_self w.sockets id stamped (slot_at-lt w.sockets id there),
        refl,
        refl,
        refl,
        λ i i_id.
            slot_at-put_ne w.sockets stamped (λ e. i_id (sym e))
            ∙ slot_at-put_ne u.sockets after (λ e. i_id (sym e)),
        rest,
      )

-- An established stream with a well-formed ring, where the search for the remote path
-- that it holds comes to the sender itself: the call to send returns true, the sender's own ring
-- holds the bytes, or as many of the first of them as fit, behind what it held, and every other
-- socket, its peer among them, is unchanged.
pub send_stream_established_packet_comes_back :
    (now : Timeval) (id : ℕ) (bytes : List ℕ) (u : Uds) {sock : UdsSocket}
    → uds_socket_at u id ≡ some sock
    → is_stream sock ≡ true
    → sock.tuple.state ≡ established
    → IsBacklog u.stream_size sock
    → find_socket_uds_with_local_addr sock.tuple.remote_path u ≡ some (some id)
    → (v : Uds) × (t : UdsSocket) × (send_stream_established_packet now id bytes u ≡ some (true, v))
      × (uds_socket_at v id ≡ some t)
      × Delivered u.stream_size bytes sock t
      × ((i : ℕ) → i ≢ id → uds_socket_at v i ≡ uds_socket_at u i)
unfolding send_stream_established_packet uds_send_dispatch append_bytes
send_stream_established_packet_comes_back now id bytes u {sock} at_id is_open state ring found =
    let (v, t, handled, there, buffer, head, tail, others, rest) =
      handle_uds_lem id bytes u at_id is_open state now in
    let is_est : uds_state_is sock.tuple.state established ≡ true =
      ap (λ (st : UdsState). uds_state_is st established) state in
    let wrote = fifo_write8_lem bytes ring in
    (
      v,
      t,
      rw (at_id, ◌>>=◌) (rw is_open (rw is_est (rw (found, ◌>>=◌) (rw (handled, ◌>>=◌) refl)))),
      there,
      rw (buffer, head, tail) wrote.held,
      others,
    )

-- A thread whose flag is the one at which a read of an established stream sleeps is not woken by
-- bytes that arrive: the handler takes them, returns false, and leaves the thread as it was.
pub handle_stream_established_packet_strands :
    (id : ℕ) (bytes : List ℕ) (u : Uds) {sock : UdsSocket} (i : ℕ) {t : Thread}
    → uds_socket_at u id ≡ some sock
    → is_stream sock ≡ true
    → sock.tuple.state ≡ established
    → thread_at u.threads i ≡ some t
    → t.sleep_flag_addr ≡ recv_flag sock
    → (v : Uds) × (handle_stream_established_packet id bytes u ≡ some (false, v))
      × (thread_at v.threads i ≡ some t)
handle_stream_established_packet_strands id bytes u i {t} at_id is_open state at_i flag =
    let (threads, handled, rest) = packet_lem id bytes u at_id is_open state in
    (_, handled, rest i t at_i (λ e. omega (arith, flag, e)))
