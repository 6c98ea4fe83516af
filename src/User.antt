-- ===== src/User.antt =====
-- The identities of a process and the lines of the password file, core/user/user.h. A call runs for
-- the current process, whose number is a parameter; a 64-bit result is the word of its bits.
pub mod Identity
pub mod Line
pub mod Access
mod Tests
use carrotos.Base.{
  ℕ, zero, suc, ◌+◌, ◌/◌, ◌^◌, Bool, true, false, ◌&&◌, ◌||◌, not, List, [], ◌∷◌, Option, none,
  some, ◌==◌, ltb, leb, if◌then◌else◌, bit_and,
}
use carrotos.Text.{Text, minus_one, str_to_int}
use carrotos.Process.{Process, Processes}
use carrotos.Process.Table.{process_at, put_process}

-- `if (curr) return curr->...; return -1;`
pub get_field : (Process → ℕ) → Processes → ℕ → ℕ
get_field field ps pid = elim (process_at ps pid) [ none ↦ minus_one | some curr ↦ field curr ]

-- `if (curr) { curr->... = ...; return 0; } return -1;`
pub set_field : (Process → Process) → Processes → ℕ → ℕ × Processes
set_field change ps pid = elim (process_at ps pid) [
  | none ↦ (minus_one, ps)
  | some curr ↦ (0, put_process ps pid (change curr))
]

module _ (ps : Processes) (pid : ℕ) where
  unfoldable pub sys_getuid : ℕ
  unfolding get_field
  sys_getuid = get_field (λ curr. curr.uid) ps pid

  unfoldable pub sys_getgid : ℕ
  unfolding get_field
  sys_getgid = get_field (λ curr. curr.gid) ps pid

  unfoldable pub sys_geteuid : ℕ
  unfolding get_field
  sys_geteuid = get_field (λ curr. curr.euid) ps pid

  unfoldable pub sys_getegid : ℕ
  unfolding get_field
  sys_getegid = get_field (λ curr. curr.egid) ps pid

  unfoldable pub sys_getreuid : ℕ
  unfolding get_field
  sys_getreuid = get_field (λ curr. curr.reuid) ps pid

  unfoldable pub sys_getregid : ℕ
  unfolding get_field
  sys_getregid = get_field (λ curr. curr.regid) ps pid

  unfoldable pub sys_getresuid : ℕ
  unfolding get_field
  sys_getresuid = get_field (λ curr. curr.resuid) ps pid

  unfoldable pub sys_getresgid : ℕ
  unfolding get_field
  sys_getresgid = get_field (λ curr. curr.resgid) ps pid

  unfoldable pub sys_setuid : ℕ → ℕ × Processes
  unfolding set_field
  sys_setuid uid = set_field (λ curr. record curr { uid = uid }) ps pid

  -- It stores into `uid`.
  unfoldable pub sys_setgid : ℕ → ℕ × Processes
  unfolding set_field
  sys_setgid gid = set_field (λ curr. record curr { uid = gid }) ps pid

  unfoldable pub sys_seteuid : ℕ → ℕ × Processes
  unfolding set_field
  sys_seteuid euid = set_field (λ curr. record curr { euid = euid }) ps pid

  unfoldable pub sys_setegid : ℕ → ℕ × Processes
  unfolding set_field
  sys_setegid egid = set_field (λ curr. record curr { egid = egid }) ps pid

  unfoldable pub sys_setreuid : ℕ → ℕ × Processes
  unfolding set_field
  sys_setreuid reuid = set_field (λ curr. record curr { reuid = reuid }) ps pid

  unfoldable pub sys_setregid : ℕ → ℕ × Processes
  unfolding set_field
  sys_setregid regid = set_field (λ curr. record curr { regid = regid }) ps pid

  unfoldable pub sys_setresuid : ℕ → ℕ × Processes
  unfolding set_field
  sys_setresuid resuid = set_field (λ curr. record curr { resuid = resuid }) ps pid

  unfoldable pub sys_setresgid : ℕ → ℕ × Processes
  unfolding set_field
  sys_setresgid resgid = set_field (λ curr. record curr { resgid = resgid }) ps pid

-- The first loop of `get_str_at_lv`: past the `level`-th colon, and at level 0 past one character;
-- what is left of the path, or nothing if the end comes first.
unfoldable pub seek : Text → (level count : ℕ) → Option Text
seek [] level count = none
seek (c ∷ path) level count =
    let count_slashes = if c == 58 then count + 1 else count in
    let rest = seek path level count_slashes in if leb level count_slashes then some path else rest

-- Up to the next colon, or to the end.
unfoldable pub until_colon : Text → Text
until_colon [] = []
until_colon (c ∷ path) = let rest = until_colon path in if c == 58 then [] else c ∷ rest

-- `get_str_at_lv(path, level, buf, buf_size)`: what is stored in `buf`, or false with nothing
-- stored. `buf_size` is never looked at.
unfoldable pub get_str_at_lv : Text → ℕ → Option Text
unfolding seek until_colon
get_str_at_lv path level = elim (seek path level 0) [
  | none ↦ none
  | some rest ↦ some (until_colon rest)
]

-- The result is not tested; `out` is what the uninitialised buffer holds.
unfoldable pub get_uid_from_user_line : (out : Text) → Text → ℕ
unfolding get_str_at_lv
get_uid_from_user_line out user_line =
    str_to_int (elim (get_str_at_lv user_line 2) [ none ↦ out | some uid ↦ uid ])

unfoldable pub get_gid_from_user_line : (out : Text) → Text → ℕ
unfolding get_str_at_lv
get_gid_from_user_line out user_line =
    str_to_int (elim (get_str_at_lv user_line 3) [ none ↦ out | some gid ↦ gid ])

-- The owner, the group and the mode of every file.
unfoldable pub get_owner_file : Text → ℕ
get_owner_file path = 0

unfoldable pub get_owner_group_file : Text → ℕ
get_owner_group_file path = 0

unfoldable pub get_mode_file : Text → ℕ
get_mode_file path = 511

-- `x > y` as the number that C makes of it.
abbrev pub greater : ℕ → ℕ → ℕ
greater x y = if ltb y x then 1 else 0

-- The tests as C groups them, `file_mode & ((MODE >> 6) > 0)` and so on, for a file with the owner,
-- the group and the mode given.
pub allow_file : (mode_bit owner group file_mode euid egid : ℕ) → Bool
allow_file mode_bit owner group file_mode euid egid =
    if euid == 0
    then true
    else if euid == owner && not (bit_and file_mode (greater (mode_bit / 64) 0) == 0)
    then true
    else if egid == group && not (bit_and file_mode (greater (mode_bit / 8) 0) == 0)
    then true
    else not (bit_and file_mode (greater mode_bit 0) == 0)

pub allow_path : (mode_bit : ℕ) → Processes → ℕ → Text → Bool
unfolding allow_file sys_geteuid sys_getegid get_owner_file get_owner_group_file get_mode_file
allow_path mode_bit ps pid path =
    allow_file mode_bit (get_owner_file path) (get_owner_group_file path) (get_mode_file path)
      (sys_geteuid ps pid) (sys_getegid ps pid)

unfoldable pub allow_read_path : Processes → ℕ → Text → Bool
unfolding allow_path
allow_read_path ps pid path = allow_path 4 ps pid path

unfoldable pub allow_write_path : Processes → ℕ → Text → Bool
unfolding allow_path
allow_write_path ps pid path = allow_path 2 ps pid path

unfoldable pub allow_exec_path : Processes → ℕ → Text → Bool
unfolding allow_path
allow_exec_path ps pid path = allow_path 1 ps pid path

-- It looks at the group.
unfoldable pub allow_root : Processes → ℕ → Bool
unfolding sys_getegid
allow_root ps pid = sys_getegid ps pid == 0
