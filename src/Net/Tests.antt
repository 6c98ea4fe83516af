-- ===== src/Net/Tests.antt =====
-- The theorems on af_inet.h and tcp.h applied to small tables and segments.
use carrotos.Base.{
  ℕ, ◌/◌, ◌%◌, ◌^◌, ◌≡◌, ◌<◌, ◌⊎◌, if◌then◌else◌, true, false, none, some, List, [], ◌∷◌, ◌++◌,
  arith, replicate, refl,
}
use carrotos.Time.{Timeval}
use carrotos.Net.Tuple.{NetState, syn_sent, established, closed, NetTuple}
use carrotos.Net.Route.{RouteEntry, find_route}
use carrotos.Net.Best.{IsBest, find_route-IsBest}
use carrotos.Net.Checksum.{tcp_checksum}
use carrotos.Net.Verify.{tcp_checksum_verifies}
use carrotos.Net.Tcp.{TcpSocket, Net, Packet, socket_at, is_established}
use carrotos.Net.Arrive.{handle_tcp_v4}
use carrotos.Net.Walk.{EachMoves, handle_tcp_v4-EachMoves}
use carrotos.Net.Stuck.{on_acks, is_among, released, no_words, one_word, on_acks_releases}

abbrev two_routes : List RouteEntry
two_routes =
    record { dest = 10; netmask = 255; gateway = 1; nic_id = 1 }
    ∷ record { dest = 522; netmask = 65535; gateway = 2; nic_id = 1 }
    ∷ []

find_route-IsBest_example : IsBest 522 two_routes (find_route 522 two_routes)
find_route-IsBest_example = find_route-IsBest 522 two_routes

tcp_checksum_verifies_example :
    let c = tcp_checksum ((1 ∷ 2 ∷ []) ++ 0 ∷ 0 ∷ 3 ∷ []) 16909060 84281096 (7 ∷ 8 ∷ 9 ∷ []) in
    tcp_checksum ((1 ∷ 2 ∷ []) ++ c % 2 ^ 8 ∷ c / 2 ^ 8 ∷ 3 ∷ []) 16909060 84281096 (7 ∷ 8 ∷ 9 ∷ [])
    ≡ 0
tcp_checksum_verifies_example =
    tcp_checksum_verifies (1 ∷ 2 ∷ []) (3 ∷ []) (7 ∷ 8 ∷ 9 ∷ []) 16909060 84281096 (omega arith)
      (omega arith, (omega arith, (omega arith, (omega arith, (omega arith, tt)))))
      (omega arith, (omega arith, (omega arith, tt))) (omega arith)

abbrev now : Timeval
now = record { tv_sec = 5; tv_microsec = 0 }

abbrev to_web : NetState → NetTuple
to_web st = record {
  local_ip_l = 1;
  remote_ip_l = 2;
  local_port = 50000;
  remote_port = 80;
  protocol = 6;
  version = 4;
  state = st;
}

abbrev caller : NetState → ℕ → TcpSocket
caller st seq = record {
  tuple = to_web st;
  last_updated_time_us = now;
  send_retry_count = 0;
  send_payload_len = 4;
  ack_est_blocked = true;
  seq_local = seq;
  seq_remote = 0;
  listen_id = 0;
  ring = replicate 8 0;
  head = 0;
  tail = 0;
}

abbrev one_call : NetState → ℕ → Net
one_call st seq = record {
  sockets = none ∷ some (caller st seq) ∷ [];
  listens = [];
  effects = [];
  recv_size = 8;
  backlog_size = 8;
}

abbrev answer : Packet
answer = record {
  src_ip = 2;
  dst_ip = 1;
  src_port = 80;
  dst_port = 50000;
  seq = 900;
  ack_seq = 7;
  flags = 18;
  payload = [];
}

handle_tcp_v4-EachMoves_example :
    EachMoves
      (one_call syn_sent 7)
      (handle_tcp_v4 now 77 (λ s. false) (caller closed 0) answer (one_call syn_sent 7))
handle_tcp_v4-EachMoves_example =
    handle_tcp_v4-EachMoves now 77 (λ s. false) (caller closed 0) answer (one_call syn_sent 7)

on_acks_releases_example :
    let net = one_call established 4300000000 in
    (on_acks 1 (32710 ∷ 4294967295 ∷ []) net ≡ (
      if is_among 4300000004 (32710 ∷ 4294967295 ∷ [])
      then released 1 (caller established 4300000000) net
      else net))
    × ((4300000004 < 2 ^ 32) ⊎ (on_acks 1 (32710 ∷ 4294967295 ∷ []) net ≡ net))
unfolding socket_at is_established
on_acks_releases_example =
    on_acks_releases 1 (32710 ∷ 4294967295 ∷ []) (one_call established 4300000000) refl refl refl
      (one_word (omega arith) (one_word (omega arith) no_words))
