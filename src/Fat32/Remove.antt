-- ===== src/Fat32/Remove.antt =====
-- Emptying and removing files and directories, fat32.h. A result is `none` where a number of turns
-- was not enough for one of the loops.
use carrotos.Base.{
  ℕ, zero, suc, ◌+◌, Bool, true, false, ◌&&◌, not, Option, none, some, [], ◌∷◌, ◌==◌, ltb,
  if◌then◌else◌,
}
use carrotos.Text.{Text}
use carrotos.Fat32.Disk.{Buf, Disk}
use carrotos.Fat32.Volume.{Partition, read_cluster, cluster_size}
use carrotos.Fat32.Table.{get_next_cluster, free_chain}
use carrotos.Fat32.Lookup.{find_cluster_from_path, starts_with_slash}
use carrotos.Fat32.Stat.{path_not_found, path_file, path_directory, DirentStat, fat32_stat}
use carrotos.Fat32.Update.{
  Update, returned, ran_out, changed, change_file, archive, directory, emptied, deleted, zeroed,
}

-- What the routines return: 0, -1 or the negative of an error number.
pub data Status : Type 0 where
  done failed einval eisdir enoent : Status

abbrev pub Outcome : Type 0
Outcome = Option (Status × Disk)

abbrev is_just_slash : Text → Bool
is_just_slash (c ∷ []) = true
is_just_slash _ = false

-- The tests of the path that a routine on files begins with.
unfoldable pub guard_path : Text → (at_root : Status) → Disk → Outcome → Outcome
guard_path path at_root d rest =
    if not (starts_with_slash path)
    then some (einval, d)
    else if is_just_slash path
    then some (at_root, d)
    else rest

unfoldable pub on_file : Option DirentStat → Disk → (DirentStat → Outcome) → Outcome
on_file none d use_it = none
on_file (some stat) d use_it = elim stat.path_type [
  | path_not_found ↦ some (enoent, d)
  | path_directory ↦ some (eisdir, d)
  | path_file ↦ use_it stat
]

unfoldable pub on_directory : Option DirentStat → Disk → (DirentStat → Outcome) → Outcome
on_directory none d use_it = none
on_directory (some stat) d use_it = elim stat.path_type [
  | path_not_found ↦ some (enoent, d)
  | path_directory ↦ use_it stat
  | path_file ↦ some (einval, d)
]

-- A free entry ends a routine with -1; otherwise it goes on with the disk.
unfoldable pub unless_returned : Option (Update × Disk) → (Disk → Outcome) → Outcome
unless_returned none rest = none
unless_returned (some (returned, d)) rest = some (failed, d)
unless_returned (some (ran_out, d)) rest = rest d
unless_returned (some (changed, d)) rest = rest d

unfoldable pub on_disk : Option Disk → (Disk → Outcome) → Outcome
on_disk none rest = none
on_disk (some d) rest = rest d

abbrev pub finish : Disk → Outcome
finish d = some (done, d)

-- The chain is given back first, and the entry emptied then.
unfoldable pub fat32_truncate_file : ℕ → Partition → Disk → Text → Outcome
unfolding guard_path on_file on_disk unless_returned free_chain change_file emptied fat32_stat
fat32_truncate_file fuel part d path = guard_path path eisdir d (
    on_file (fat32_stat fuel part d path) d (λ stat.
      on_disk (free_chain fuel part d (find_cluster_from_path part d path))
        (λ e. unless_returned (change_file fuel part archive emptied stat e) finish)))

-- The entry is marked first; the path is looked up on the disk that no longer has it.
unfoldable pub fat32_unlink_file : ℕ → Partition → Disk → Text → Outcome
unfolding guard_path on_file on_disk unless_returned free_chain change_file deleted fat32_stat
fat32_unlink_file fuel part d path = guard_path path eisdir d (
    on_file (fat32_stat fuel part d path) d (λ stat.
      unless_returned (change_file fuel part archive deleted stat d)
        (λ e. on_disk (free_chain fuel part e (find_cluster_from_path part e path)) finish)))

unfoldable pub fat32_unlink_file_entry : ℕ → Partition → Disk → Text → Outcome
unfolding guard_path on_file unless_returned change_file zeroed fat32_stat
fat32_unlink_file_entry fuel part d path = guard_path path eisdir d (
    on_file (fat32_stat fuel part d path) d
      (λ stat. unless_returned (change_file fuel part archive zeroed stat d) finish))

-- Whether an entry counts as a file in the directory: neither deleted nor `A`, "." or "..".
unfoldable pub is_subitem : Buf → (at : ℕ) → Bool
is_subitem entries at =
    not (entries at == 0xE5)
    && not (entries at == 0x41)
    && not (entries at == 46 && entries (at + 1) == 32)
    && not (entries at == 46 && entries (at + 1) == 46 && entries (at + 2) == 32)

pub data EmptyScan : Type 0 where
  at_end subitem more : EmptyScan

unfoldable pub scan_empty : ℕ → (at : ℕ) → Buf → EmptyScan
unfolding is_subitem
scan_empty zero at entries = more
scan_empty (suc n) at entries =
    let rest = scan_empty n (at + 32) entries in
    if entries at == 0 then at_end else if is_subitem entries at then subitem else rest

-- Whether the directory has no file in it.
unfoldable pub is_empty_directory : ℕ → Partition → Disk → ℕ → Buf → Option Bool
unfolding read_cluster scan_empty get_next_cluster
is_empty_directory zero part d cluster buffer = none
is_empty_directory (suc fuel) part d cluster buffer =
    let entries = (read_cluster part d cluster buffer cluster_size).1 in
    let rest = is_empty_directory fuel part d (get_next_cluster part d cluster) entries in
    if ltb cluster 2
    then some true
    else elim (scan_empty 128 0 entries) [ at_end ↦ some true | subitem ↦ some false | more ↦ rest ]

unfoldable pub if_empty : Option Bool → Disk → Outcome → Outcome
if_empty none d rest = none
if_empty (some empty) d rest = if empty then rest else some (failed, d)

unfoldable pub fat32_rmdir : ℕ → Partition → Disk → Text → Outcome
unfolding guard_path on_directory if_empty on_disk unless_returned free_chain change_file deleted
    fat32_stat is_empty_directory
fat32_rmdir fuel part d path =
    let this_cluster_id = find_cluster_from_path part d path in
    guard_path path einval d (
      on_directory (fat32_stat fuel part d path) d (λ stat.
        if_empty (is_empty_directory fuel part d this_cluster_id part.stack) d (
          unless_returned (change_file fuel part directory deleted stat d)
            (λ e. on_disk (free_chain fuel part e this_cluster_id) finish))))

unfoldable pub fat32_rmdir_entry : ℕ → Partition → Disk → Text → Outcome
unfolding guard_path on_directory unless_returned change_file zeroed fat32_stat
fat32_rmdir_entry fuel part d path = guard_path path einval d (
    on_directory (fat32_stat fuel part d path) d
      (λ stat. unless_returned (change_file fuel part directory zeroed stat d) finish))
