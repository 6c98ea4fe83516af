-- ===== src/Fat32/Update.antt =====
-- The routines of fat32.h that change an entry of a directory: `set_file_first_cluster`,
-- `set_file_size`, the removal of entries and of files and directories. They share one loop over
-- the clusters of the directory, which is written once here and has the kind of entry and the
-- change as arguments.
use carrotos.Base.{
  ℕ, zero, suc, ◌+◌, ◌/◌, ◌%◌, ◌^◌, ◌&&◌, Option, none, some, ◌==◌, leb, ltb, if◌then◌else◌,
}
use carrotos.Text.{Text}
use carrotos.Fat32.Disk.{Buf, Disk, put_byte, put_u16, put_u32}
use carrotos.Fat32.Volume.{Partition, read_cluster, write_cluster, cluster_size}
use carrotos.Fat32.Table.{get_next_cluster}
use carrotos.Fat32.Name.{format_name_83, same_bytes}
use carrotos.Fat32.Lookup.{attr_at}
use carrotos.Fat32.Stat.{path_not_found, path_file, path_directory, DirentStat, fat32_stat}

-- How the loop over the entries of a cluster ends: at a free entry, after the last one, or at the
-- entry looked for.
pub data EntryScan : Type 0 where
  free_entry passed : EntryScan
  named : (at : ℕ) → EntryScan

unfoldable pub scan_entries : ℕ → (at : ℕ) → (attr : ℕ) → Buf → Buf → EntryScan
unfolding same_bytes
scan_entries zero at attr this_name83 buffer = passed
scan_entries (suc n) at attr this_name83 buffer =
    let rest = scan_entries n (at + 32) attr this_name83 buffer in
    if buffer at == 0
    then free_entry
    else if attr_at buffer at == attr && same_bytes 11 this_name83 0 buffer at
    then named at
    else rest

-- How the loop over the clusters ends: early at a free entry, at the end of the chain, or with the
-- entry changed.
pub data Update : Type 0 where
  returned ran_out changed : Update

unfoldable pub update_entry :
    ℕ
    → Partition
    → (attr : ℕ) → (change : Buf → ℕ → Buf) → (this_name83 : Buf) → (current_parent_cluster_id : ℕ)
    → Buf
    → Disk
    → Option (Update × Disk)
unfolding read_cluster scan_entries write_cluster get_next_cluster
update_entry zero part attr change this_name83 parent buffer d = none
update_entry (suc fuel) part attr change this_name83 parent buffer d =
    let entries = (read_cluster part d parent buffer cluster_size).1 in
    let rest =
      update_entry fuel part attr change this_name83 (get_next_cluster part d parent) entries d in
    if ltb parent 2 then some (ran_out, d) else elim (scan_entries 128 0 attr this_name83 entries) [
      | free_entry ↦ some (returned, d)
      | named at ↦ some (changed, (write_cluster part d parent (change entries at)).1)
      | passed ↦ rest
    ]

abbrev pub archive : ℕ
archive = 0x20

abbrev pub directory : ℕ
directory = 0x10

unfoldable pub with_first_cluster : ℕ → Buf → ℕ → Buf
unfolding put_u16
with_first_cluster cluster entries at =
    put_u16 (put_u16 entries (at + 26) (cluster % 2 ^ 16)) (at + 20) (cluster / 2 ^ 16 % 2 ^ 16)

unfoldable pub with_size : ℕ → Buf → ℕ → Buf
unfolding put_u32
with_size new_size entries at = put_u32 entries (at + 28) (new_size % 2 ^ 32)

-- `entry[i].name[0] = 0xE5`
unfoldable pub deleted : Buf → ℕ → Buf
unfolding put_byte
deleted entries at = put_byte entries at 0xE5

-- All 32 bytes of the entry.
unfoldable pub zeroed : Buf → ℕ → Buf
zeroed entries at j = if leb at j && ltb j (at + 32) then 0 else entries j

unfoldable pub emptied : Buf → ℕ → Buf
unfolding with_first_cluster with_size
emptied entries at = with_size 0 (with_first_cluster 0 entries at) at

-- The change of the entry that a `stat` has found, and what the loop came to.
unfoldable pub change_file :
    ℕ → Partition → (attr : ℕ) → (Buf → ℕ → Buf) → DirentStat → Disk → Option (Update × Disk)
unfolding update_entry format_name_83
change_file fuel part attr change stat d =
    update_entry fuel part attr change (format_name_83 stat.name) stat.parent_cluster_id part.stack
      d

-- The disk after a loop that ends.
unfoldable pub disk_of : Option (Update × Disk) → Option Disk
disk_of none = none
disk_of (some (update, d)) = some d

unfoldable pub change_first_cluster :
    ℕ → Partition → (cluster : ℕ) → Option DirentStat → Disk → Option Disk
unfolding change_file with_first_cluster disk_of
change_first_cluster fuel part cluster none d = none
change_first_cluster fuel part cluster (some stat) d = elim stat.path_type [
  | path_not_found ↦ some d
  | path_directory ↦ some d
  | path_file ↦ disk_of (change_file fuel part archive (with_first_cluster cluster) stat d)
]

unfoldable pub set_file_first_cluster : ℕ → Partition → Disk → Text → (cluster : ℕ) → Option Disk
unfolding change_first_cluster fat32_stat
set_file_first_cluster fuel part d path cluster =
    change_first_cluster fuel part cluster (fat32_stat fuel part d path) d

unfoldable pub change_size : ℕ → Partition → (new_size : ℕ) → Option DirentStat → Disk → Option Disk
unfolding change_file with_size disk_of
change_size fuel part new_size none d = none
change_size fuel part new_size (some stat) d =
    disk_of (change_file fuel part archive (with_size new_size) stat d)

unfoldable pub set_file_size : ℕ → Partition → Disk → Text → (new_size : ℕ) → Option Disk
unfolding change_size fat32_stat
set_file_size fuel part d path new_size =
    change_size fuel part new_size (fat32_stat fuel part d path) d
