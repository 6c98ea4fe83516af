-- ===== src/Fat32/Stat.antt =====
-- `fat32_stat` of fat32.h: what the directory of a path says of its last part. The walk along the
-- directory's clusters has no end of its own; `none` says that a number of turns was not enough.
use carrotos.Base.{
  ℕ, zero, suc, ◌+◌, ◌==◌, Bool, true, false, not, Option, none, some, [], ◌∷◌, if◌then◌else◌, take,
}
use carrotos.Text.{Text, strlen}
use carrotos.Fat32.Disk.{Buf, Disk, get_u16}
use carrotos.Fat32.Volume.{Partition, read_cluster, cluster_size}
use carrotos.Fat32.Table.{get_next_cluster}
use carrotos.Fat32.Name.{slash, format_name_83, same_bytes, parent_path_of, name_without_path}
use carrotos.Fat32.Lookup.{attr_at, file_size_at, find_cluster_from_path, starts_with_slash}

pub data PathType : Type 0 where
  path_not_found path_file path_directory : PathType

pub record DirentStat : Type 0 where
  pub creation_date : ℕ
  pub creation_time : ℕ
  pub modified_date : ℕ
  pub modified_time : ℕ
  pub last_access_date : ℕ
  pub name : Text
  pub size : ℕ
  pub path_type : PathType
  pub parent_cluster_id : ℕ

-- `struct DirentStat result0 = {0}`
abbrev pub result0 : DirentStat
result0 = record {
  creation_date = 0;
  creation_time = 0;
  modified_date = 0;
  modified_time = 0;
  last_access_date = 0;
  name = [];
  size = 0;
  path_type = path_not_found;
  parent_cluster_id = 0;
}

-- How the loop over the entries of one cluster ends.
pub data StatScan : Type 0 where
  stops go_on : StatScan
  hit : (at : ℕ) → StatScan

unfoldable pub scan_stat : ℕ → (at : ℕ) → Buf → Buf → (compared : ℕ) → StatScan
unfolding same_bytes
scan_stat zero at buffer name83 compared = go_on
scan_stat (suc n) at buffer name83 compared =
    let rest = scan_stat n (at + 32) buffer name83 compared in
    if attr_at buffer at == 0
    then stops
    else if attr_at buffer at == 0xE5
    then rest
    else if attr_at buffer at == 0x0F
    then rest
    else if same_bytes compared buffer at name83 0
    then hit at
    else rest

-- The name is cut at its eleventh character.
unfoldable pub stat_of : Buf → (at : ℕ) → Text → (parent_cluster_id : ℕ) → DirentStat
unfolding get_u16 file_size_at
stat_of buffer at name parent = record {
  creation_date = get_u16 buffer (at + 16);
  creation_time = get_u16 buffer (at + 14);
  modified_date = get_u16 buffer (at + 24);
  modified_time = get_u16 buffer (at + 22);
  last_access_date = get_u16 buffer (at + 18);
  name = take 11 name;
  size = file_size_at buffer at;
  path_type = if attr_at buffer at == 0x10 then path_directory else path_file;
  parent_cluster_id = parent;
}

unfoldable pub stat_loop :
    ℕ → Partition → Disk → Text → (parent current_cluster : ℕ) → Buf → Option DirentStat
unfolding read_cluster scan_stat stat_of format_name_83 get_next_cluster
stat_loop zero part d name parent current_cluster buffer = none
stat_loop (suc fuel) part d name parent current_cluster buffer =
    let dir = (read_cluster part d current_cluster buffer cluster_size).1 in
    let rest = stat_loop fuel part d name parent (get_next_cluster part d current_cluster) dir in
    elim (scan_stat 128 0 dir (format_name_83 name) (strlen name)) [
      | stops ↦ some result0
      | hit at ↦ some (stat_of dir at name parent)
      | go_on ↦ rest
    ]

abbrev root_stat : DirentStat
root_stat = record result0 { name = slash ∷ []; path_type = path_directory }

abbrev is_one_char : Text → Bool
is_one_char (c ∷ []) = true
is_one_char _ = false

unfoldable pub fat32_stat : ℕ → Partition → Disk → Text → Option DirentStat
unfolding stat_loop find_cluster_from_path parent_path_of name_without_path
fat32_stat fuel part d path =
    let parent = find_cluster_from_path part d (parent_path_of path) in
    if not (starts_with_slash path)
    then some result0
    else if is_one_char path
    then some root_stat
    else stat_loop fuel part d (name_without_path path) parent parent part.stack
