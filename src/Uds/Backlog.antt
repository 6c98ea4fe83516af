-- ===== src/Uds/Backlog.antt =====
-- The backlog of a listening stream, stream.h, as a queue of the numbers of sockets.
use carrotos.Base.Step.{◌>>=◌}
use carrotos.Base.{
  ℕ, zero, suc, ◌*◌, ◌/◌, ◌^◌, ◌<◌, ◌≡◌, refl, sym, ap, ◌∙◌, some, List, [], ◌∷◌, ◌++◌, append-nil,
  arith, length, length-append, take, drop, replicate,
}
use carrotos.Fifo.Step.{used}
use carrotos.Fifo.{fifo_read8}
use carrotos.Fifo.Queue.{IsRing, contents, length-cells, fifo_read8_lem}
use carrotos.Text.{minus_one}
use carrotos.Uds.{UdsSocket, Uds, uds_socket_at, put_uds_socket}
use carrotos.Net.Tcp.{bytes_of}
use carrotos.Uds.Stream.{of_bytes, over_ones, pull_bytes, pull_backlog_stream}

-- How many values `n` bytes have.
pub capacity : ℕ → ℕ
capacity zero = 1
capacity (suc n) = 2 ^ 8 * capacity n

pub of_bytes-bytes_of : (n x : ℕ) → x < capacity n → of_bytes (bytes_of n x) ≡ x
unfolding of_bytes bytes_of capacity
of_bytes-bytes_of zero x h = omega arith
of_bytes-bytes_of (suc n) x h = omega (arith, of_bytes-bytes_of n (x / 2 ^ 8) (omega arith))

pub length-bytes_of : (n x : ℕ) → length (bytes_of n x) ≡ n
unfolding bytes_of
length-bytes_of zero x = refl
length-bytes_of (suc n) x = ap suc (length-bytes_of n (x / 2 ^ 8))

over_ones-bytes_of : (x : ℕ) → x < 2 ^ 64 → over_ones (bytes_of 8 x) ≡ x
unfolding over_ones capacity
over_ones-bytes_of x h =
    ap (λ n. of_bytes (bytes_of 8 x ++ drop n (replicate 8 255))) (length-bytes_of 8 x)
    ∙ ap of_bytes (append-nil (bytes_of 8 x))
    ∙ of_bytes-bytes_of 8 x (omega arith)

take-append {ℓ} : {A : Type ℓ} (xs ys : List A) → take (length xs) (xs ++ ys) ≡ xs
take-append [] ys = refl
take-append (x ∷ xs) ys = ap (λ l. x ∷ l) (take-append xs ys)

drop-append {ℓ} : {A : Type ℓ} (xs ys : List A) → drop (length xs) (xs ++ ys) ≡ ys
drop-append [] ys = refl
drop-append (x ∷ xs) ys = drop-append xs ys

-- What the ring of a listener holds, oldest first.
abbrev pub backlog_of : (size : ℕ) → UdsSocket → List ℕ
backlog_of size s = contents 0 s.buffer s.tuple.tail s.tuple.head size

abbrev pub IsBacklog : (size : ℕ) → UdsSocket → Type 0
IsBacklog size s = IsRing s.buffer s.tuple.tail s.tuple.head size

-- A listener whose tail has moved.
abbrev pub moved : (tail : ℕ) → UdsSocket → UdsSocket
moved tail s = record s { tuple = record s.tuple { tail = tail } }

module _ (l : ℕ) (u : Uds) {lis : UdsSocket} (at_l : uds_socket_at u l ≡ some lis)
    (ring : IsBacklog u.backlog_size lis) where
  -- The oldest number comes out, and the others stay.
  pub pull_backlog_stream_first :
      (a : ℕ) (rest : List ℕ)
      → a < 2 ^ 64
      → backlog_of u.backlog_size lis ≡ bytes_of 8 a ++ rest
      → (tail : ℕ) × (pull_backlog_stream l u ≡ some (a, put_uds_socket l (moved tail lis) u))
        × IsBacklog u.backlog_size (moved tail lis)
        × (backlog_of u.backlog_size (moved tail lis) ≡ rest)
  unfolding pull_backlog_stream pull_bytes
  pull_backlog_stream_first a rest small holds =
      let got = fifo_read8_lem 8 ring in
      let n8 = length-bytes_of 8 a in
      let r = fifo_read8 lis.buffer lis.tuple.tail lis.tuple.head u.backlog_size 8 in
      let eight : r.count ≡ 8 = omega (
        arith,
        got.count,
        n8,
        ap length holds,
        length-append (bytes_of 8 a) rest,
        length-cells 0 lis.buffer u.backlog_size lis.tuple.tail
            (used u.backlog_size lis.tuple.tail lis.tuple.head),
      ) in
      let out : r.out ≡ bytes_of 8 a =
        got.out
        ∙ ap (take 8) holds
        ∙ ap (λ n. take n (bytes_of 8 a ++ rest)) (sym n8)
        ∙ take-append (bytes_of 8 a) rest in
      let left : contents 0 lis.buffer r.tail lis.tuple.head u.backlog_size ≡ rest =
        got.left
        ∙ ap (drop 8) holds
        ∙ ap (λ n. drop n (bytes_of 8 a ++ rest)) (sym n8)
        ∙ drop-append (bytes_of 8 a) rest in
      let value : over_ones r.out ≡ a = ap over_ones out ∙ over_ones-bytes_of a small in
      (r.tail, rw (at_l, ◌>>=◌) (rw eight (rw value refl)), got.ring, left)

  -- An empty backlog gives -1.
  pub pull_backlog_stream_none :
      backlog_of u.backlog_size lis ≡ []
      → (tail : ℕ) × (pull_backlog_stream l u
          ≡ some (minus_one, put_uds_socket l (moved tail lis) u))
        × IsBacklog u.backlog_size (moved tail lis)
        × (backlog_of u.backlog_size (moved tail lis) ≡ [])
  unfolding pull_backlog_stream pull_bytes
  pull_backlog_stream_none empty =
      let got = fifo_read8_lem 8 ring in
      let r = fifo_read8 lis.buffer lis.tuple.tail lis.tuple.head u.backlog_size 8 in
      let nothing : r.count ≡ 0 = omega (
        arith,
        got.count,
        ap length empty,
        length-cells 0 lis.buffer u.backlog_size lis.tuple.tail
            (used u.backlog_size lis.tuple.tail lis.tuple.head),
      ) in
      (r.tail, rw (at_l, ◌>>=◌) (rw nothing refl), got.ring, got.left ∙ ap (drop 8) empty)
