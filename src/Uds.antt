-- ===== src/Uds.antt =====
-- The local sockets of core/network/af_unix: the table `uds_socket_global`, the table of listeners,
-- the streams of stream.h and the datagrams of dgram.h. A socket is the structure at the head of
-- its blocks, and the bytes behind it, which its ring uses. A call takes the state and returns it;
-- `none` is a fault at a null pointer. A call that sleeps is two steps, before and after the sleep.
pub mod Table
pub mod Stream
pub mod Dgram
pub mod Dispatch
pub mod Backlog
pub mod Link
pub mod Connect
pub mod Accept
pub mod Deliver
mod Tests
use carrotos.Base.{ℕ, ◌+◌, ◌≡◌, refl, Bool, true, Option, none, some, List, ◌==◌}
use carrotos.Base.Slots.{slot_at, put_slot}
use carrotos.Time.{Timeval}
use carrotos.Thread.{Threads}
use carrotos.Text.{Text}

-- `enum uds_state_t` and `enum uds_socket_type`, with the numbers of the constants.
pub data UdsState : Type 0 where
  closed bound listen backlog_client backlog_server established : UdsState

pub data UdsSocketType : Type 0 where
  absent dgram stream : UdsSocketType

abbrev pub uds_number : UdsState → ℕ
uds_number closed = 0
uds_number bound = 1
uds_number listen = 2
uds_number backlog_client = 3
uds_number backlog_server = 4
uds_number established = 5

abbrev pub type_number : UdsSocketType → ℕ
type_number absent = 0
type_number dgram = 1
type_number stream = 2

abbrev pub uds_state_is : UdsState → UdsState → Bool
uds_state_is a b = uds_number a == uds_number b

pub listen_of_uds_state_is : (a : UdsState) → uds_state_is a listen ≡ true → a ≡ listen
listen_of_uds_state_is listen h = refl
listen_of_uds_state_is closed h = cc
listen_of_uds_state_is bound h = cc
listen_of_uds_state_is backlog_client h = cc
listen_of_uds_state_is backlog_server h = cc
listen_of_uds_state_is established h = cc

abbrev pub type_is : UdsSocketType → UdsSocketType → Bool
type_is a b = type_number a == type_number b

-- `struct uds_tuple`; a path is the string up to its NUL, and fits into its 108 bytes.
pub record UdsTuple : Type 0 where
  pub id : ℕ
  pub type : UdsSocketType
  pub local_path : Text
  pub remote_path : Text
  pub state : UdsState
  pub recv_wait_flag : ℕ
  pub last_updated_time_ms : Timeval
  pub head : ℕ
  pub tail : ℕ

-- `struct uds_tuple_stream` at the address `addr`; `buffer` is what follows it. A datagram socket
-- has the first part alone, and its buffer follows that.
pub record UdsSocket : Type 0 where
  pub addr : ℕ
  pub tuple : UdsTuple
  pub retry_count : ℕ
  pub seq_local : ℕ
  pub seq_remote : ℕ
  pub listen_wait_flag : ℕ
  pub listen_id : ℕ
  pub peer_id : ℕ
  pub buffer : List ℕ

-- An entry of `uds_listen_global`.
pub record UdsListen : Type 0 where
  pub addr : ℕ
  pub tuple : UdsTuple

-- The tables; the blocks that `erase_block` has filled with zeros, the latest first; and how many
-- bytes the calls take a ring to have: the backlog of a listener, a stream, a datagram socket when
-- it is written and when it is read.
pub record Uds : Type 0 where
  pub sockets : List (Option UdsSocket)
  pub listens : List (Option UdsListen)
  pub threads : Threads
  pub erased : List ℕ
  pub backlog_size : ℕ
  pub stream_size : ℕ
  pub dgram_size : ℕ
  pub dgram_slots_size : ℕ

-- `&sock->tuple.recv_wait_flag` and `&sock->listen_wait_flag`.
abbrev pub recv_flag : UdsSocket → ℕ
recv_flag s = s.addr + 232

abbrev pub listen_flag : UdsSocket → ℕ
listen_flag s = s.addr + 296

-- `uds_socket_global[id]`
abbrev pub uds_socket_at : Uds → ℕ → Option UdsSocket
uds_socket_at u id = slot_at u.sockets id

abbrev pub put_uds_socket : ℕ → UdsSocket → Uds → Uds
put_uds_socket id s u = record u { sockets = put_slot u.sockets id s }

abbrev pub with_state : UdsState → UdsSocket → UdsSocket
with_state st s = record s { tuple = record s.tuple { state = st } }
