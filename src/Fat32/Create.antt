-- ===== src/Fat32/Create.antt =====
-- Making files and directories and giving them other names, fat32.h. A result is `none` where a
-- number of turns was not enough for one of the loops along a directory.
use carrotos.Base.{
  ℕ, zero, suc, ◌+◌, ◌/◌, ◌%◌, ◌^◌, Bool, true, false, ◌||◌, not, Option, none, some, ◌==◌, ltb,
  if◌then◌else◌,
}
use carrotos.Text.{Text}
use carrotos.Fat32.Disk.{Buf, Disk, put_byte, put_u16, put_u32, copy_bytes}
use carrotos.Fat32.Volume.{Partition, read_cluster, write_cluster, cluster_size}
use carrotos.Fat32.Table.{
  fat32_eoc, get_next_cluster, find_blank_cluster, fat_set_entry, extend_dirent_cluster,
}
use carrotos.Fat32.Name.{format_name_83, same_bytes, parent_path_of, name_without_path, space}
use carrotos.Fat32.Lookup.{find_cluster_from_path, starts_with_slash}
use carrotos.Fat32.Update.{archive, directory}
use carrotos.Fat32.Remove.{fat32_rmdir_entry, fat32_unlink_file_entry}

-- The two halves of a cluster number in the entry at an index.
unfoldable pub put_cluster : Buf → (at cluster : ℕ) → Buf
unfolding put_u16
put_cluster entries at cluster =
    put_u16 (put_u16 entries (at + 20) (cluster / 2 ^ 16 % 2 ^ 16)) (at + 26) (cluster % 2 ^ 16)

-- The fields that every new entry gets alike: the fixed dates, no reserved byte, no size.
unfoldable pub put_dates : Buf → (at attr : ℕ) → Buf
unfolding put_byte put_u16 put_u32
put_dates entries at attr =
    let b = put_byte (put_byte (put_byte entries (at + 11) attr) (at + 12) 0) (at + 13) 0x44 in
    let dated = put_u16 (put_u16 (put_u16 b (at + 14) 0x9C1A) (at + 16) 0x5B13) (at + 18) 0x5B13 in
    put_u32 (put_u16 (put_u16 dated (at + 22) 0x9C33) (at + 24) 0x5B13) (at + 28) 0

-- The entry at an index becomes that of a new file; its first cluster is found, not marked as used.
unfoldable pub create_dirent_entry :
    Partition → Disk → Buf → (at attr : ℕ) → (dirent_name : Buf) → ℕ × Buf
unfolding find_blank_cluster put_cluster put_dates copy_bytes
create_dirent_entry part d entries at attr dirent_name =
    let new_blank_cluster_id = find_blank_cluster part d in
    (
      new_blank_cluster_id,
      copy_bytes (put_cluster (put_dates entries at attr) at new_blank_cluster_id) at dirent_name 0
          11,
    )

-- The first entry of a cluster that is deleted or was never used.
unfoldable pub find_free_entry : ℕ → (at : ℕ) → Buf → Option ℕ
find_free_entry zero at entries = none
find_free_entry (suc n) at entries =
    let rest = find_free_entry n (at + 32) entries in
    if entries at == 0xE5 || entries at == 0 then some at else rest

-- Where a new entry can stand: in a cluster with the entries read from it, or behind the last.
pub data Place : Type 0 where
  free_at : (cluster : ℕ) → (entries : Buf) → (at : ℕ) → Place
  none_free : (last : ℕ) → Place

unfoldable pub find_place : ℕ → Partition → Disk → (cluster last : ℕ) → Buf → Option Place
unfolding read_cluster find_free_entry get_next_cluster
find_place zero part d cluster last buffer = none
find_place (suc fuel) part d cluster last buffer =
    let entries = (read_cluster part d cluster buffer cluster_size).1 in
    let rest = find_place fuel part d (get_next_cluster part d cluster) cluster entries in
    if ltb cluster 2 then some (none_free last) else elim (find_free_entry 128 0 entries) [
      | some at ↦ some (free_at cluster entries at)
      | none ↦ rest
    ]

-- A new entry in its place; a cluster is hung on the directory if no entry is free.
unfoldable pub enter_new : Partition → Disk → (attr : ℕ) → (dirent_name : Buf) → Place → ℕ × Disk
unfolding create_dirent_entry write_cluster find_blank_cluster extend_dirent_cluster
enter_new part d attr dirent_name (free_at cluster entries at) =
    let (new, filled_in) = create_dirent_entry part d entries at attr dirent_name in
    (new, (write_cluster part d cluster filled_in).1)
enter_new part d attr dirent_name (none_free last) =
    let blank = find_blank_cluster part d in
    let extended = extend_dirent_cluster part d last blank in
    let (new, filled_in) = create_dirent_entry part extended (λ i. 0) 0 attr dirent_name in
    (new, (write_cluster part extended blank filled_in).1)

-- A name of `n` dots.
unfoldable pub dots : (n : ℕ) → Buf
dots n i = if ltb i n then 46 else space

-- The entries "." and ".." that a new directory begins with.
unfoldable pub dot_entries : (own parent : ℕ) → Buf
unfolding put_cluster put_dates copy_bytes dots
dot_entries own parent =
    let first_entry =
      put_cluster (put_dates (copy_bytes (λ i. 0) 0 (dots 1) 0 11) 0 directory) 0 own in
    put_cluster (put_dates (copy_bytes first_entry 32 (dots 2) 0 11) 32 directory) 32 parent

unfoldable pub finish_create : Partition → (is_dir : Bool) → (parent : ℕ) → ℕ × Disk → Disk
unfolding write_cluster dot_entries fat_set_entry
finish_create part is_dir parent (new, d) =
    let made = if is_dir then (write_cluster part d new (dot_entries new parent)).1 else d in
    fat_set_entry part made new fat32_eoc

-- The result: whether the path is one (0 and not -1), and the disk.
unfoldable pub fat32_create : ℕ → Partition → Disk → Text → (is_dir : Bool) → Option (Bool × Disk)
unfolding find_place enter_new finish_create find_cluster_from_path parent_path_of name_without_path
    format_name_83
fat32_create fuel part d path is_dir =
    let parent = find_cluster_from_path part d (parent_path_of path) in
    let attr = if is_dir then directory else archive in
    let dirent_name = format_name_83 (name_without_path path) in
    if not (starts_with_slash path)
    then some (false, d)
    else elim (find_place fuel part d parent parent part.stack) [
      | none ↦ none
      | some place ↦
          some (true, finish_create part is_dir parent (enter_new part d attr dirent_name place))
    ]

-- All entries of a cluster with a name: the last one of them, 32 bytes.
unfoldable pub copy_named : ℕ → (at : ℕ) → Buf → (dirent_name : Buf) → Option Buf → Option Buf
unfolding same_bytes
copy_named zero at entries dirent_name found = found
copy_named (suc n) at entries dirent_name found =
    let here : Option Buf = some (λ i. entries (at + i)) in
    copy_named n (at + 32) entries dirent_name
      (if same_bytes 11 entries at dirent_name 0 then here else found)

-- The entry of the source, what the stack holds where there is none, and the buffer as the search
-- leaves it.
unfoldable pub find_source :
    ℕ → Partition → Disk → (cluster : ℕ) → (dirent_name : Buf) → Buf → Option (Buf × Buf)
unfolding read_cluster copy_named get_next_cluster
find_source zero part d cluster dirent_name buffer = none
find_source (suc fuel) part d cluster dirent_name buffer =
    let entries = (read_cluster part d cluster buffer cluster_size).1 in
    let rest = find_source fuel part d (get_next_cluster part d cluster) dirent_name entries in
    if ltb cluster 2
    then some (part.stack, buffer)
    else elim (copy_named 128 0 entries dirent_name none) [
      | some entry ↦ some (entry, entries)
      | none ↦ rest
    ]

-- A copy_bytes of an entry in its place.
unfoldable pub enter_copy : Partition → Disk → (dirent_entry : Buf) → Place → Disk
unfolding write_cluster find_blank_cluster extend_dirent_cluster copy_bytes
enter_copy part d dirent_entry (free_at cluster entries at) =
    (write_cluster part d cluster (copy_bytes entries at dirent_entry 0 32)).1
enter_copy part d dirent_entry (none_free last) =
    let blank = find_blank_cluster part d in
    let extended = extend_dirent_cluster part d last blank in
    (write_cluster part extended blank (copy_bytes (λ i. 0) 0 dirent_entry 0 32)).1

-- The entry ".." of a directory that has moved.
unfoldable pub move_parent : Partition → Disk → (path_des : Text) → (des_parent : ℕ) → Disk
unfolding find_cluster_from_path read_cluster put_cluster write_cluster
move_parent part d path_des des_parent =
    let des = find_cluster_from_path part d path_des in
    let entries = (read_cluster part d des part.stack cluster_size).1 in
    (write_cluster part d des (put_cluster entries 32 des_parent)).1

-- The old entry goes; the result of its removal is not looked at.
unfoldable pub remove_source :
    ℕ
    → Partition
    → Disk
    → (path_src path_des : Text) → (des_parent : ℕ) → (is_dir : Bool) → Option Disk
unfolding fat32_rmdir_entry fat32_unlink_file_entry move_parent
remove_source fuel part d path_src path_des des_parent true =
    elim (fat32_rmdir_entry fuel part d path_src) [
      | none ↦ none
      | some (status, e) ↦ some (move_parent part e path_des des_parent)
    ]
remove_source fuel part d path_src path_des des_parent false =
    elim (fat32_unlink_file_entry fuel part d path_src) [ none ↦ none | some (status, e) ↦ some e ]

unfoldable pub fat32_rename :
    ℕ → Partition → Disk → (path_src path_des : Text) → (is_dir : Bool) → Option Disk
unfolding find_source find_place enter_copy remove_source find_cluster_from_path parent_path_of
    name_without_path format_name_83 copy_bytes
fat32_rename fuel part d path_src path_des is_dir =
    let src_parent = find_cluster_from_path part d (parent_path_of path_src) in
    let des_parent = find_cluster_from_path part d (parent_path_of path_des) in
    let old_name = format_name_83 (name_without_path path_src) in
    let new_name = format_name_83 (name_without_path path_des) in
    if not (starts_with_slash path_des)
    then some d
    else if not (starts_with_slash path_src)
    then some d
    else elim (find_source fuel part d src_parent old_name part.stack) [
      | none ↦ none
      | some (entry, buffer) ↦ elim (find_place fuel part d des_parent des_parent buffer) [
        | none ↦ none
        | some place ↦
            remove_source fuel part (enter_copy part d (copy_bytes entry 0 new_name 0 11) place)
              path_src path_des des_parent is_dir
      ]
    ]
