-- ===== src/Net/Checksum.antt =====
-- The checksums of af_inet.h and tcp.h, with `htons` and `htonl` of libs/mem/mem.h. A header or a
-- payload is the list of its bytes; a sum is a 32-bit word.
use carrotos.Base.{
  ℕ, zero, suc, ◌+◌, ◌-◌, ◌*◌, ◌/◌, ◌%◌, ◌^◌, List, [], ◌∷◌, ◌==◌, if◌then◌else◌, length,
}

unfoldable pub htons : ℕ → ℕ
htons x = (x * 2 ^ 8) % 2 ^ 16 + x / 2 ^ 8 % 2 ^ 8

unfoldable pub htonl : ℕ → ℕ
htonl x =
    x % 2 ^ 8 * 2 ^ 24
    + x / 2 ^ 8 % 2 ^ 8 * 2 ^ 16
    + x / 2 ^ 16 % 2 ^ 8 * 2 ^ 8
    + x / 2 ^ 24 % 2 ^ 8

-- The words of two bytes added to a sum, the high byte first; an odd byte at the end is a high one.
unfoldable pub add_words : List ℕ → ℕ → ℕ
add_words [] sum = sum
add_words (a ∷ []) sum = (sum + a * 2 ^ 8) % 2 ^ 32
add_words (a ∷ b ∷ bytes) sum = add_words bytes ((sum + (a * 2 ^ 8 + b)) % 2 ^ 32)

-- As they lie in memory, the low byte first.
unfoldable pub add_words_le : List ℕ → ℕ → ℕ
add_words_le [] sum = sum
add_words_le (a ∷ []) sum = (sum + a) % 2 ^ 32
add_words_le (a ∷ b ∷ bytes) sum = add_words_le bytes ((sum + (a + b * 2 ^ 8)) % 2 ^ 32)

-- `while (sum >> 16)`: two turns are enough for 32 bits.
unfoldable pub fold_loop : ℕ → ℕ → ℕ
fold_loop zero sum = sum
fold_loop (suc n) sum =
    let rest = fold_loop n (sum % 2 ^ 16 + sum / 2 ^ 16) in if sum / 2 ^ 16 == 0 then sum else rest

unfoldable pub fold_sum : ℕ → ℕ
unfolding fold_loop
fold_sum sum = fold_loop 3 sum

-- `~sum` in 16 bits.
unfoldable pub complement : ℕ → ℕ
complement sum = 65535 - sum % 2 ^ 16

unfoldable pub network_checksum : List ℕ → ℕ
unfolding add_words_le fold_sum complement
network_checksum buf = complement (fold_sum (add_words_le buf 0))

abbrev pub tcp_protocol_number : ℕ
tcp_protocol_number = 6

-- The sum of the pseudo header, the header and the payload, before it is folded.
unfoldable pub tcp_sum : (tcp : List ℕ) → (src_ip dst_ip : ℕ) → (payload : List ℕ) → ℕ
unfolding add_words
tcp_sum tcp src_ip dst_ip payload = add_words payload (
    add_words tcp (
      (src_ip / 2 ^ 16 % 2 ^ 16
        + src_ip % 2 ^ 16
        + dst_ip / 2 ^ 16 % 2 ^ 16
        + dst_ip % 2 ^ 16
        + tcp_protocol_number
        + (length tcp + length payload) % 2 ^ 16)
      % 2 ^ 32))

unfoldable pub tcp_checksum : (tcp : List ℕ) → (src_ip dst_ip : ℕ) → (payload : List ℕ) → ℕ
unfolding tcp_sum fold_sum complement htons
tcp_checksum tcp src_ip dst_ip payload =
    htons (complement (fold_sum (tcp_sum tcp src_ip dst_ip payload)))
