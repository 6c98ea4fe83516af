-- ===== src/Uds/Tests.antt =====
-- The theorems on af_unix applied to a table of three entries: a listener, a client and a free one.
use carrotos.Base.{
  ℕ, ◌≡◌, ◌≢◌, refl, inl, true, none, some, List, [], ◌∷◌, arith, replicate, take, Option,
}
use carrotos.Base.Slots.{free_slot, find_slot}
use carrotos.Time.{Timeval}
use carrotos.Thread.{Thread, Threads, Context, alu}
use carrotos.Thread.State.{blocked_uds}
use carrotos.Uds.{UdsState, closed, listen, established, stream, UdsSocket, Uds, uds_socket_at}
use carrotos.Uds.Table.{find_socket_uds_with_local_addr}
use carrotos.Net.Tcp.{bytes_of}
use carrotos.Uds.Stream.{listens_at, handle_connect_stream}
use carrotos.Uds.Dispatch.{
  FileInner, fd_slots, uds_descriptor, fails, accepts, goes_on, handle_stream_accept,
  handle_stream_accept_finish, send_stream_established_packet,
}
use carrotos.Uds.Backlog.{backlog_of}
use carrotos.Uds.Accept.{
  IsConnection, handle_stream_accept_loses, handle_stream_accept_finish-handle_connect_stream,
}
use carrotos.Uds.Deliver.{Delivered, send_stream_established_packet_comes_back}

abbrev now : Timeval
now = record { tv_sec = 5; tv_microsec = 0 }

-- A stream with a ring of zeros that holds as many bytes as its head says.
abbrev a_stream : UdsState → List ℕ → (peer addr head : ℕ) → List ℕ → UdsSocket
a_stream state path peer addr head buffer = record {
  addr = addr;
  tuple = record {
    id = 0;
    type = stream;
    local_path = path;
    remote_path = [];
    state = state;
    recv_wait_flag = 0;
    last_updated_time_ms = now;
    head = head;
    tail = 0;
  };
  retry_count = 0;
  seq_local = 0;
  seq_remote = 0;
  listen_wait_flag = 0;
  listen_id = 0;
  peer_id = peer;
  buffer = buffer;
}

abbrev listener : (head : ℕ) → List ℕ → UdsSocket
listener = a_stream listen (97 ∷ []) 0 8192

abbrev client : UdsState → UdsSocket
client state = a_stream state [] 2 40960 0 (replicate 16 0)

abbrev table : UdsSocket → UdsSocket → Threads → Uds
table lis c threads = record {
  sockets = some lis ∷ some c ∷ none ∷ [];
  listens = none ∷ [];
  threads = threads;
  erased = [];
  backlog_size = 16;
  stream_size = 12;
  dgram_size = 12;
  dgram_slots_size = 16;
}

abbrev zeros : UdsSocket
zeros = a_stream closed [] 0 0 0 []

abbrev before : Uds
before = table (listener 0 (replicate 16 0)) (client closed) []

listener_found : find_slot (listens_at (97 ∷ [])) before.sockets 0 ≡ some 0
unfolding find_slot listens_at
listener_found = refl

third_free : free_slot before.sockets 0 ≡ some 2
unfolding free_slot
third_free = refl

-- A table of descriptors whose second entry is free.
abbrev fds : List (Option FileInner)
fds = some (uds_descriptor 9) ∷ none ∷ none ∷ []

second_free : free_slot (take fd_slots fds) 0 ≡ some 1
unfolding free_slot
second_free = refl

handle_stream_accept_finish-handle_connect_stream_example :
    (v : Uds) × (w : Uds) × (handle_connect_stream 90112 (replicate 16 7) zeros 1 (97 ∷ []) before
      ≡ some (true, v))
    × (handle_stream_accept_finish 0 fds v
        ≡ some (accepts 1 (some (uds_descriptor 9) ∷ some (uds_descriptor 2) ∷ none ∷ []) w))
    × IsConnection w 1 2
handle_stream_accept_finish-handle_connect_stream_example =
    handle_stream_accept_finish-handle_connect_stream 90112 (replicate 16 7) zeros 1 0 2 (97 ∷ [])
      before refl refl (inl refl) listener_found third_free refl
      (record {
        ring = record {
          fits = omega arith;
          tail_lt = omega arith;
          head_lt = omega arith;
          small = omega arith;
        };
        room = omega arith;
      })
      refl (omega arith) fds second_free

abbrev five : List ℕ
five = 5 ∷ replicate 15 0

abbrev waiting : Uds
waiting = table (listener 8 five) (client closed) []

five_waits : backlog_of 16 (listener 8 five) ≡ bytes_of 8 5
unfolding bytes_of
five_waits = refl

handle_stream_accept_loses_example :
    (v : Uds) × (w : Uds) × (lis' : UdsSocket) × (handle_stream_accept 3 0 waiting
      ≡ some (goes_on v))
    × (handle_stream_accept_finish 0 fds v ≡ some (fails w))
    × (uds_socket_at w 0 ≡ some lis')
    × (backlog_of 16 lis' ≡ [])
    × ((i : ℕ) → i ≢ 0 → uds_socket_at w i ≡ uds_socket_at waiting i)
handle_stream_accept_loses_example =
    handle_stream_accept_loses 3 0 5 fds waiting refl refl
      (record {
        fits = omega arith;
        tail_lt = omega arith;
        head_lt = omega arith;
        small = omega arith;
      })
      (omega arith) five_waits

abbrev registers : Context
registers = record {
  r15 = 0;
  r14 = 0;
  r13 = 0;
  r12 = 0;
  r11 = 0;
  r10 = 0;
  r9 = 0;
  r8 = 0;
  rdi = 0;
  rsi = 0;
  rbp = 0;
  rbx = 0;
  rdx = 0;
  rcx = 0;
  rax = 0;
  rip = 0;
  cs = 0;
  rflags = 0;
  rsp = 0;
  ss = 0;
  gs24 = 0;
  xsave_area = 0;
  fs_base = 0;
  gs_base = 0;
}

abbrev reader : Thread
reader = record {
  pid = 1;
  tid = 0;
  state = blocked_uds;
  wakeup_time = now;
  stack_addr = 0;
  kernel_stack_addr = 0;
  context = registers;
  ptid = 0;
  signal = 0;
  signal_mask = 0;
  sleep_flag_addr = 41192;
  context_type = alu;
  lock_time = now;
  return_code = 0;
}

abbrev open_now : Uds
open_now = table (listener 0 (replicate 16 0)) (client established) (some reader ∷ [])

own_path : find_socket_uds_with_local_addr [] open_now ≡ some (some 1)
unfolding find_socket_uds_with_local_addr
own_path = refl

send_stream_established_packet_comes_back_example :
    (v : Uds) × (t : UdsSocket) × (send_stream_established_packet now 1 (1 ∷ 2 ∷ []) open_now
      ≡ some (true, v))
    × (uds_socket_at v 1 ≡ some t)
    × Delivered 12 (1 ∷ 2 ∷ []) (client established) t
    × ((i : ℕ) → i ≢ 1 → uds_socket_at v i ≡ uds_socket_at open_now i)
send_stream_established_packet_comes_back_example =
    send_stream_established_packet_comes_back now 1 (1 ∷ 2 ∷ []) open_now refl refl refl
      (record {
        fits = omega arith;
        tail_lt = omega arith;
        head_lt = omega arith;
        small = omega arith;
      })
      own_path
