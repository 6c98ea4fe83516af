-- ===== src/Net/Stuck.antt =====
-- The acknowledgements that arrive while a sender is blocked, tcp.h.
use carrotos.Base.{
  ℕ, ◌+◌, ◌^◌, ◌≤◌, ◌<◌, ◌≡◌, ◌⊎◌, refl, sym, ap, ◌∙◌, Bool, true, false, not, ◌||◌, ◌==◌, none,
  some, List, [], ◌∷◌, if◌then◌else◌, arith, dec_lt, Bool-cases, inl, inr,
}
use carrotos.Net.Diagram.{socket_at-put_socket, socket_at-inside}
use carrotos.Net.Tcp.{
  TcpSocket, Net, socket_at, put_socket, emit, wakes_senders, is_established,
  handle_tcp_receive_ack_established, u64,
}

-- The number that the sender waits for: the one after the data that it sent.
abbrev pub awaited : TcpSocket → ℕ
awaited s = u64 (s.seq_local + s.send_payload_len)

-- The table when that number has come: the socket is not blocked, and its senders are woken.
abbrev pub released : ℕ → TcpSocket → Net → Net
released id s net =
    emit (wakes_senders id)
      (put_socket id (record s { seq_local = awaited s; ack_est_blocked = false }) net)

-- The handler on each of a list of acknowledgements in turn.
unfoldable pub on_acks : (id : ℕ) → List ℕ → Net → Net
on_acks id [] net = net
on_acks id (a ∷ acks) net = elim (socket_at net id) [
  | none ↦ on_acks id acks net
  | some s ↦ on_acks id acks (handle_tcp_receive_ack_established id a s net).1
]

unfoldable pub is_among : ℕ → List ℕ → Bool
is_among n [] = false
is_among n (a ∷ acks) = n == a || is_among n acks

-- The acknowledgement number of a segment has 32 bits.
pub data AreWords : List ℕ → Type 0 where
  no_words : AreWords []
  one_word : {a : ℕ} {acks : List ℕ} → a < 2 ^ 32 → AreWords acks → AreWords (a ∷ acks)

on_acks-cons :
    (id a : ℕ) (acks : List ℕ) (net : Net) {s : TcpSocket}
    → socket_at net id ≡ some s
    → on_acks id (a ∷ acks) net ≡ on_acks id acks (handle_tcp_receive_ack_established id a s net).1
unfolding on_acks
on_acks-cons id a acks net at = rw (on_acks, at) refl

refuses_unblocked :
    (id a : ℕ) (s : TcpSocket) (net : Net)
    → s.ack_est_blocked ≡ false
    → (handle_tcp_receive_ack_established id a s net).1 ≡ net
unfolding handle_tcp_receive_ack_established
refuses_unblocked id a s net free =
    let refused : (not (is_established s.tuple.state) || not s.ack_est_blocked) ≡ true =
      rw free (ground arith) in
    rw refused refl

-- A socket that is not blocked takes none.
on_acks-unblocked :
    (id : ℕ) (acks : List ℕ) (net : Net) {s : TcpSocket}
    → socket_at net id ≡ some s
    → s.ack_est_blocked ≡ false
    → on_acks id acks net ≡ net
unfolding on_acks
on_acks-unblocked id [] net at free = refl
on_acks-unblocked id (a ∷ acks) net {s} at free =
    on_acks-cons id a acks net at
    ∙ ap (on_acks id acks) (refuses_unblocked id a s net free)
    ∙ on_acks-unblocked id acks net at free

module _ (id : ℕ) (net : Net) {s : TcpSocket} (at : socket_at net id ≡ some s)
    (open_socket : is_established s.tuple.state ≡ true) (blocked : s.ack_est_blocked ≡ true) where
  on_acks-first :
      (a : ℕ)
      → (handle_tcp_receive_ack_established id a s net).1
        ≡ (if awaited s == a then released id s net else net)
  unfolding handle_tcp_receive_ack_established
  on_acks-first a = elim (Bool-cases (awaited s == a)) [
    | inl e ↦ rw (open_socket, blocked, e) refl
    | inr e ↦ rw (open_socket, blocked, e) refl
  ]

  on_acks-is_among :
      (acks : List ℕ)
      → on_acks id acks net ≡ (if is_among (awaited s) acks then released id s net else net)
  unfolding on_acks is_among put_socket socket_at
  on_acks-is_among [] = refl
  on_acks-is_among (a ∷ acks) = elim (Bool-cases (awaited s == a)) [
    | inl e ↦
        on_acks-cons id a acks net at
        ∙ ap (on_acks id acks) (on_acks-first a ∙ ap (λ b. if b then released id s net else net) e)
        ∙ on_acks-unblocked id acks (released id s net)
            (socket_at-put_socket net id
              (record s { seq_local = awaited s; ack_est_blocked = false })
              (socket_at-inside net id s at))
            refl
        ∙ ap (λ b. if b || is_among (awaited s) acks then released id s net else net) (sym e)
    | inr e ↦
        on_acks-cons id a acks net at
        ∙ ap (on_acks id acks) (on_acks-first a ∙ ap (λ b. if b then released id s net else net) e)
        ∙ on_acks-is_among acks
        ∙ ap (λ b. if b || is_among (awaited s) acks then released id s net else net) (sym e)
  ]

none_among : {n : ℕ} {acks : List ℕ} → 2 ^ 32 ≤ n → AreWords acks → is_among n acks ≡ false
unfolding is_among
none_among h no_words = refl
none_among {n} h (one_word {a} small rest) =
    let other : (n == a) ≡ false = ground arith in rw other (none_among h rest)

-- Of the acknowledgements, of 32 bits each, that come for an established socket whose sender is
-- blocked: if the number after the data is among them, the socket is released and its senders are
-- woken, once, and the rest of them change nothing; if not, nothing changes at all. Once that
-- number, in 64 bits, is 2 ^ 32 or more, nothing ever changes: the sender stays blocked whatever
-- the other side acknowledges.
pub on_acks_releases :
    (id : ℕ) (acks : List ℕ) (net : Net) {s : TcpSocket}
    → socket_at net id ≡ some s
    → is_established s.tuple.state ≡ true
    → s.ack_est_blocked ≡ true
    → AreWords acks
    → (on_acks id acks net ≡ (if is_among (awaited s) acks then released id s net else net))
      × ((awaited s < 2 ^ 32) ⊎ (on_acks id acks net ≡ net))
on_acks_releases id acks net {s} at open_socket blocked words =
    let whole = on_acks-is_among id net at open_socket blocked acks in
    elim (dec_lt (awaited s) (2 ^ 32)) [
      | yes h ↦ (whole, inl h)
      | no h ↦ (
        whole,
        inr (
            whole
            ∙ ap (λ b. if b then released id s net else net) (none_among (omega arith) words)),
      )
    ]
