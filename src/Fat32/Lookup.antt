-- ===== src/Fat32/Lookup.antt =====
-- Looking a path up, fat32.h: `find_dir_entry` by 8.3 names in the first cluster of each directory,
-- `find_cluster_from_path` by `match_name`, `fat32_stat` over the chain of the directory.
use carrotos.Base.{
  ℕ, zero, suc, ◌+◌, ◌*◌, ◌%◌, ◌^◌, Bool, true, false, ◌&&◌, not, Option, none, some, List, [], ◌∷◌,
  ◌==◌, if◌then◌else◌,
}
use carrotos.Text.{Text, strlen, minus_one}
use carrotos.Fat32.Disk.{Buf, Disk, read_sector, filled, u32, get_u16, get_u32}
use carrotos.Fat32.Volume.{
  Partition, get_partition_lba, read_bpb, get_root_dir_cluster, cluster_to_lba, read_cluster,
  cluster_size,
}
use carrotos.Fat32.Name.{slash, tokens, format_name_83, match_name, same_bytes, split_n}

-- The fields of the directory entry that begins at an index of a buffer.
abbrev pub attr_at : Buf → ℕ → ℕ
attr_at buf at = buf (at + 11)

unfoldable pub get_entry_cluster : Buf → ℕ → ℕ
unfolding get_u16
get_entry_cluster buf at = get_u16 buf (at + 20) * 2 ^ 16 + get_u16 buf (at + 26)

unfoldable pub file_size_at : Buf → ℕ → ℕ
unfolding get_u32
file_size_at buf at = get_u32 buf (at + 28)

-- The search of `find_dir_entry` for one part of a path: the cluster to go on with, whether an
-- entry was found, and the entry that ends the search.
pub record PathSearch : Type 0 where
  pub current_cluster : ℕ
  pub found : Bool
  pub result : Option Buf

-- At most `n` entries of a sector from number `e` on.
unfoldable pub search_entries : ℕ → (e : ℕ) → Buf → Buf → Bool → PathSearch → PathSearch
unfolding same_bytes get_entry_cluster
search_entries zero e sector name83 more st = st
search_entries (suc n) e sector name83 more st =
    let rest = search_entries n (e + 1) sector name83 more st in
    let deeper =
      search_entries n (e + 1) sector name83 more
        (record st { current_cluster = get_entry_cluster sector (e * 32); found = true }) in
    if sector (e * 32) == 0
    then st
    else if attr_at sector (e * 32) % 16 == 0 && same_bytes 11 sector (e * 32) name83 0
    then if more then deeper else record st { result = some (λ i. sector (e * 32 + i)) }
    else rest

abbrev has_result : PathSearch → Bool
has_result st = elim st.result [ none ↦ false | some _ ↦ true ]

-- The sectors of the cluster; `lba` is that of the cluster the search began in.
unfoldable pub search_sectors :
    ℕ → Disk → (lba : ℕ) → Buf → Buf → Bool → PathSearch → PathSearch × Buf
unfolding filled read_sector search_entries
search_sectors zero d lba sector name83 more st = (st, sector)
search_sectors (suc n) d lba sector name83 more st =
    let s = filled (read_sector d (u32 lba)) sector in
    let st1 = search_entries 16 0 s name83 more st in
    let rest = search_sectors n d (lba + 1) s name83 more st1 in
    if has_result st1 then (st1, s) else rest

-- The parts of the path that are left. The Boolean is the result; the entry is written only where
-- the last part of the path is found, so that `true` may come with the entry as it was.
unfoldable pub search_path :
    Partition → Disk → List (Text × Bool) → ℕ → Buf → (result : Buf) → Bool × Buf
unfolding search_sectors format_name_83 read_bpb get_partition_lba cluster_to_lba
search_path part d [] current_cluster sector result = (true, result)
search_path part d ((token, more) ∷ ts) current_cluster sector result =
    let bpb = read_bpb part d in
    let (st, s) =
      search_sectors bpb.sectors_per_cluster d
        (get_partition_lba part d + cluster_to_lba bpb current_cluster) sector
        (format_name_83 token) more
        (record { current_cluster = current_cluster; found = false; result = none }) in
    let rest = search_path part d ts st.current_cluster s result in
    elim st.result [
      | some entry ↦ (true, entry)
      | none ↦ if not st.found && more then (false, result) else rest
    ]

abbrev skip_slash : Text → Text
skip_slash [] = []
skip_slash (c ∷ s) = if c == slash then s else c ∷ s

unfoldable pub find_dir_entry : Partition → Disk → Text → (result : Buf) → Bool × Buf
unfolding search_path tokens read_bpb
find_dir_entry part d path result =
    search_path part d (tokens (skip_slash path)) (read_bpb part d).root_cluster part.stack result

-- `entry` is a local variable: the size of a file that is not found may be what the stack holds.
unfoldable pub get_file_size : Partition → Disk → Text → ℕ
unfolding find_dir_entry file_size_at
get_file_size part d path =
    let (rs, entry) = find_dir_entry part d path part.stack in
    if rs then file_size_at entry 0 else minus_one

-- The search of `find_cluster_from_path` in one cluster, from an offset on.
unfoldable pub find_name : ℕ → (at : ℕ) → Buf → Buf → Option ℕ
unfolding match_name get_entry_cluster
find_name zero at buf token = none
find_name (suc n) at buf token =
    let rest = find_name n (at + 32) buf token in
    if buf at == 0
    then none
    else if buf at == 0xE5
    then rest
    else if attr_at buf at == 0x0F
    then rest
    else if match_name token buf at
    then some (get_entry_cluster buf at)
    else rest

-- The part number `j` of the path is in `token`; at most `n` parts follow it.
unfoldable pub walk_path : ℕ → Partition → Disk → Text → (j : ℕ) → (token : Buf) → ℕ → ℕ
unfolding read_cluster find_name split_n
walk_path zero part d path j token cluster = cluster
walk_path (suc n) part d path j token cluster =
    let buf = (read_cluster part d cluster part.stack cluster_size).1 in
    let next = (split_n path slash (j + 1) token 64).1 in
    let rest = λ (c : ℕ). walk_path n part d path (j + 1) next c in
    if token 0 == 0
    then cluster
    else elim (find_name 128 0 buf token) [ none ↦ 0 | some c ↦ rest c ]

abbrev is_root : Text → Bool
is_root (c ∷ []) = true
is_root _ = false

-- `path[0] == '/'`
abbrev pub starts_with_slash : Text → Bool
starts_with_slash [] = false
starts_with_slash (c ∷ s) = c == slash

-- 0 where the path is not found. A path has fewer parts than characters.
unfoldable pub find_cluster_from_path : Partition → Disk → Text → ℕ
unfolding walk_path get_root_dir_cluster split_n
find_cluster_from_path part d path =
    if not (starts_with_slash path)
    then 0
    else if is_root path
    then get_root_dir_cluster part d
    else walk_path (strlen path) part d path 1 (split_n path slash 1 part.stack 64).1
        (get_root_dir_cluster part d)
