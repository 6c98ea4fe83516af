-- ===== src/User/Access.antt =====
-- The permission tests.
use carrotos.Base.{◌||◌, ltb, ◌<◌, not, bit_and, ◌/◌, ℕ, ◌≡◌, refl, true, arith, ◌==◌}
use carrotos.Base.Table.{same_values, agree_below}
use carrotos.User.{allow_file}

bit_and-zero : (m : ℕ) → m < 512 → bit_and m 0 ≡ 0
unfolding same_values
bit_and-zero = agree_below 512 (λ m. bit_and m 0) (λ m. 0) refl

-- What the tests of reading, writing and executing come to for a file of any owner, group and mode
-- of nine bits: the effective user is the root, or the mode lets others execute the file. The bits
-- for the owner, for the group, for reading and for writing are never looked at.
pub allow_file_lem :
    (mode_bit owner group file_mode euid egid : ℕ)
    → 0 < mode_bit
    → mode_bit < 8
    → file_mode < 512
    → allow_file mode_bit owner group file_mode euid egid
      ≡ (euid == 0 || not (bit_and file_mode 1 == 0))
unfolding allow_file
allow_file_lem mode_bit owner group file_mode euid egid pos small mode =
    let owner_part : mode_bit / 64 ≡ 0 = omega arith in
    let group_part : mode_bit / 8 ≡ 0 = omega arith in
    let nothing : bit_and file_mode 0 ≡ 0 = bit_and-zero file_mode mode in
    let some_bit : ltb 0 mode_bit ≡ true = ground arith in
    rw (owner_part, group_part, some_bit, nothing) (ground arith)
