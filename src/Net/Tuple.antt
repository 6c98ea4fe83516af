-- ===== src/Net/Tuple.antt =====
-- `struct net_tuple` of core/network/network.h, how two of them are compared in af_inet.h, and the
-- searches of the socket tables in udp.h.
use carrotos.Base.{
  ℕ, ◌+◌, Bool, true, false, ◌&&◌, not, Option, none, some, List, [], ◌∷◌, ◌==◌, if◌then◌else◌,
}

pub data NetState : Type 0 where
  closed listen syn_sent syn_received established fin_wait_1 fin_wait_2 close_wait closing last_ack
        time_wait :
      NetState

-- The fields that the comparisons and the state machine use.
pub record NetTuple : Type 0 where
  pub local_ip_l : ℕ
  pub remote_ip_l : ℕ
  pub local_port : ℕ
  pub remote_port : ℕ
  pub protocol : ℕ
  pub version : ℕ
  pub state : NetState

unfoldable pub is_listen : NetState → Bool
is_listen listen = true
is_listen _ = false

-- Two tuples at different addresses; in the target, 0 stands for any address or remote port.
unfoldable pub net_tuple_match_v4 : NetTuple → NetTuple → Bool
net_tuple_match_v4 src target =
    if not (src.protocol == target.protocol)
    then false
    else if not (src.local_ip_l == target.local_ip_l) && not (target.local_ip_l == 0)
    then false
    else if not (src.local_port == target.local_port)
    then false
    else if not (src.remote_ip_l == target.remote_ip_l) && not (target.remote_ip_l == 0)
    then false
    else if not (src.remote_port == target.remote_port) && not (target.remote_port == 0)
    then false
    else if not (src.version == target.version)
    then false
    else true

-- The state that is looked at is that of `src`, the tuple looked for.
unfoldable pub net_tuple_equal_v4 : NetTuple → NetTuple → Bool
unfolding is_listen
net_tuple_equal_v4 src target =
    if is_listen src.state
    then false
    else if not (src.protocol == target.protocol)
    then false
    else if not (src.local_ip_l == target.local_ip_l)
    then false
    else if not (src.local_port == target.local_port)
    then false
    else if not (src.remote_ip_l == target.remote_ip_l)
    then false
    else if not (src.remote_port == target.remote_port)
    then false
    else if not (src.version == target.version)
    then false
    else true

-- The loop of the searches: the index of the first entry that is there and passes the test.
unfoldable pub find_from : (NetTuple → Bool) → List (Option NetTuple) → ℕ → Option ℕ
find_from test [] i = none
find_from test (none ∷ ts) i = find_from test ts (i + 1)
find_from test (some t ∷ ts) i =
    let rest = find_from test ts (i + 1) in if test t then some i else rest

unfoldable pub find_socket : NetTuple → List (Option NetTuple) → Option ℕ
unfolding find_from net_tuple_match_v4
find_socket tuple socket_global = find_from (net_tuple_match_v4 tuple) socket_global 0

unfoldable pub find_socket_not_listen : NetTuple → List (Option NetTuple) → Option ℕ
unfolding find_from net_tuple_equal_v4
find_socket_not_listen tuple socket_global = find_from (net_tuple_equal_v4 tuple) socket_global 0

unfoldable pub find_listen : NetTuple → List (Option NetTuple) → Option ℕ
unfolding find_from net_tuple_match_v4 is_listen
find_listen tuple listen_global =
    find_from (λ t. is_listen t.state && net_tuple_match_v4 tuple t) listen_global 0
