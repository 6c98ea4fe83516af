-- ===== src/Fat32/Disk.antt =====
-- `read_sector` and `write_sector` of core/filesytem/filesystem.h, which call the driver of the
-- device. The driver is known by the sectors it can read and write: a read that fails leaves the
-- buffer as it is, a write that fails leaves the disk as it is.
use carrotos.Base.{
  ℕ, ◌+◌, ◌-◌, ◌*◌, ◌/◌, ◌%◌, ◌^◌, Bool, ◌&&◌, Option, none, some, ◌==◌, leb, ltb, if◌then◌else◌,
}

-- A buffer by its indices; those at the end or past it are not looked at.
abbrev pub Buf : Type 0
Buf = ℕ → ℕ

pub record Disk : Type 0 where
  pub bytes : ℕ → Buf
  pub readable : ℕ → Bool
  pub writable : ℕ → Bool

unfoldable pub read_sector : Disk → ℕ → Option Buf
read_sector d lba = if d.readable lba then some (d.bytes lba) else none

-- A buffer after a read whose result the caller does not look at.
unfoldable pub filled : Option Buf → Buf → Buf
filled none buf = buf
filled (some s) buf = s

-- One sector gets new bytes.
unfoldable pub put_sector : Disk → ℕ → Buf → Disk
put_sector d lba s = record d { bytes = λ l. if l == lba then s else d.bytes l }

-- What the driver returns, 0 or -1 in 64 bits, and the disk.
unfoldable pub write_sector : Disk → ℕ → Buf → ℕ × Disk
unfolding put_sector
write_sector d lba s = if d.writable lba then (0, put_sector d lba s) else (2 ^ 64 - 1, d)

abbrev pub u32 : ℕ → ℕ
u32 n = n % 2 ^ 32

-- Little-endian words of a buffer, whose bytes are below 256.
unfoldable pub get_u16 : Buf → ℕ → ℕ
get_u16 s i = s i + s (i + 1) * 2 ^ 8

unfoldable pub get_u32 : Buf → ℕ → ℕ
get_u32 s i = s i + s (i + 1) * 2 ^ 8 + s (i + 2) * 2 ^ 16 + s (i + 3) * 2 ^ 24

-- `buf[i] = c`
unfoldable pub put_byte : Buf → ℕ → ℕ → Buf
put_byte s i c j = if j == i then c else s j

unfoldable pub put_u16 : Buf → ℕ → ℕ → Buf
unfolding put_byte
put_u16 s i v = put_byte (put_byte s i (v % 2 ^ 8)) (i + 1) (v / 2 ^ 8 % 2 ^ 8)

unfoldable pub put_u32 : Buf → ℕ → ℕ → Buf
unfolding put_byte
put_u32 s i v =
    put_byte
      (put_byte (put_byte (put_byte s i (v % 2 ^ 8)) (i + 1) (v / 2 ^ 8 % 2 ^ 8)) (i + 2)
        (v / 2 ^ 16 % 2 ^ 8))
      (i + 3) (v / 2 ^ 24 % 2 ^ 8)

-- `memcpy(dest + at, src + start, n)`
unfoldable pub copy_bytes : Buf → ℕ → Buf → ℕ → ℕ → Buf
copy_bytes dest at src start n j =
    if leb at j && ltb j (at + n) then src (start + (j - at)) else dest j
