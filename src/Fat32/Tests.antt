-- ===== src/Fat32/Tests.antt =====
-- A small volume of two tables, and the theorems on fat32.h applied to it.
use carrotos.Base.{
  none, ◌/◌, ◌-◌, min, ℕ, ◌+◌, ◌*◌, ◌<◌, ◌≡◌, refl, true, [], ◌∷◌, ◌==◌, arith, if◌then◌else◌, inr,
  ◌++◌, get_or, replicate,
}
use carrotos.Fat32.Disk.{Buf, Disk, read_sector, filled, get_u16, get_u32, put_u32, put_byte}
use carrotos.Fat32.Volume.{Partition, bpb_of, lba_in_mbr, get_partition_lba, read_bpb}
use carrotos.Fat32.Table.{
  entry_sector, entry_offset, fat32_eoc, fat32_get_fat_entry, free_chain, expand_file,
}
use carrotos.Fat32.Geometry.{IsVolume, IsEntry}
use carrotos.Fat32.Blank.{Expands, expand_file-Expands}
use carrotos.Text.{Text, strlen}
use carrotos.Fat32.Disk.{copy_bytes}
use carrotos.Fat32.Volume.{
  get_root_dir_cluster, root_of, read_cluster, read_sectors, read_turn, first_sector_of_cluster,
  cluster_to_lba,
}
use carrotos.Fat32.Table.{get_next_cluster, next_in}
use carrotos.Fat32.Name.{
  match_name, match_form, match_base, match_ext, split_n, split_loop, same_bytes, toupper, tokens,
  push_char, format_name_83, format_base, format_after, strchr, strchr_from, is_at,
}
use carrotos.Fat32.Lookup.{
  find_cluster_from_path, walk_path, find_name, get_entry_cluster, get_file_size, find_dir_entry,
  search_path, search_sectors, search_entries, file_size_at,
}
use carrotos.Fat32.File.{has_read, fat32_read_file_bytes}
use carrotos.Fat32.Reading.{IsPaged, IsRun, run_byte}
use carrotos.Fat32.Whole.{fat32_read_file_bytes_reads}
use carrotos.Fat32.Names.{chars, match_name-format_name_83}
use carrotos.Fat32.Stat.{go_on, scan_stat, stat_loop}
use carrotos.Fat32.Endless.{stat_loop_endless}
use carrotos.Fat32.Ruin.{fat_set_entry_ruins}
use carrotos.Fat32.Table.{fat_set_entry}
use carrotos.Fat32.Geometry.{fat_start}
use carrotos.Fat32.Chain.{IsChain, Frees, free_chain-Frees}

abbrev boot_record : Buf
boot_record i = if i == 510 then 0x55 else if i == 511 then 0xAA else if i == 454 then 1 else 0

-- 512 bytes in a sector, 8 sectors in a cluster, one reserved sector, two tables of one sector.
abbrev boot_sector : Buf
boot_sector i =
    if i == 12
    then 2
    else if i == 13
    then 8
    else if i == 14
    then 1
    else if i == 16
    then 2
    else if i == 36
    then 1
    else if i == 44
    then 2
    else 0

-- The root directory in cluster 2, a file in the clusters 3 and 4.
abbrev table : Buf
table i =
    get_or (replicate 8 0 ++ 255 ∷ 255 ∷ 255 ∷ 15 ∷ 4 ∷ 0 ∷ 0 ∷ 0 ∷ 255 ∷ 255 ∷ 255 ∷ 15 ∷ []) i 0

-- "A", an archive of 5000 bytes that begins in cluster 3.
abbrev root_sector : Buf
root_sector i =
    get_or (65 ∷ replicate 10 32 ++ 32 ∷ replicate 14 0 ++ 3 ∷ 0 ∷ 0x88 ∷ 0x13 ∷ 0 ∷ 0 ∷ []) i 0

abbrev card : Disk
card = record {
  bytes = λ l.
      if l == 0
      then boot_record
      else if l == 1
      then boot_sector
      else if l == 2
      then table
      else if l == 3
      then table
      else if l == 4
      then root_sector
      else if l == 12
      then (λ i. 7)
      else if l == 20
      then (λ i. 8)
      else (λ i. 0);
  readable = λ l. true;
  writable = λ l. true;
}

abbrev first_part : Partition
first_part = record { part_id = 0; stack = λ i. 0 }

card-IsVolume : IsVolume first_part card
unfolding read_bpb get_partition_lba lba_in_mbr bpb_of read_sector filled get_u16 get_u32
card-IsVolume = record {
  reliable = record { reads = λ l. refl; writes = λ l. refl };
  sectors = refl;
  reserved = omega arith;
  some_fat = omega arith;
  some_entry = omega arith;
  small = omega arith;
  fits = omega arith;
}

card-IsEntry : (c : ℕ) → c < 128 → IsEntry first_part card c
unfolding read_bpb get_partition_lba lba_in_mbr bpb_of read_sector filled get_u16 get_u32
card-IsEntry c h = h

next_of_3 : fat32_get_fat_entry first_part card 3 ≡ 4
unfolding fat32_get_fat_entry entry_sector entry_offset read_bpb get_partition_lba lba_in_mbr bpb_of
    read_sector filled get_u16 get_u32 put_u32 put_byte
next_of_3 = refl

end_at_4 : fat32_get_fat_entry first_part card 4 ≡ 0x0FFFFFFF
unfolding fat32_get_fat_entry entry_sector entry_offset read_bpb get_partition_lba lba_in_mbr bpb_of
    read_sector filled get_u16 get_u32 put_u32 put_byte
end_at_4 = refl

expand_file-Expands_example : Expands first_part card 4 (expand_file first_part card 4)
expand_file-Expands_example =
    expand_file-Expands first_part card 4 card-IsVolume (card-IsEntry 4 (omega arith))
      (omega (arith, end_at_4))

two_clusters : IsChain first_part card 3 (3 ∷ 4 ∷ [])
two_clusters =
    IsChain.linked 3 (omega arith) (card-IsEntry 3 (omega arith)) (omega arith, tt)
      (rw next_of_3 (
        IsChain.linked 4 (omega arith) (card-IsEntry 4 (omega arith)) tt
          (rw end_at_4 (IsChain.ended 0x0FFFFFFF (inr (omega arith))))))

free_chain-Frees_example : Frees first_part card (3 ∷ 4 ∷ []) (free_chain 3 first_part card 3)
free_chain-Frees_example =
    free_chain-Frees first_part 3 card 3 (3 ∷ 4 ∷ []) card-IsVolume two_clusters (omega arith)

card-IsPaged : IsPaged first_part card
unfolding read_bpb get_partition_lba lba_in_mbr bpb_of read_sector filled get_u16 get_u32
card-IsPaged = record { volume = card-IsVolume; eight = refl }

after_3 : get_next_cluster first_part card 3 ≡ 4
unfolding get_next_cluster next_in entry_sector entry_offset read_bpb get_partition_lba lba_in_mbr
    bpb_of read_sector filled get_u16 get_u32
after_3 = refl

run_of_a : IsRun first_part card 3 (3 ∷ 4 ∷ [])
run_of_a =
    IsRun.next 3 (omega arith) (omega arith) (rw after_3 (IsRun.one 4 (omega arith) (omega arith)))

abbrev path_a : Text
path_a = 47 ∷ 65 ∷ []

found_a : find_cluster_from_path first_part card path_a ≡ 3
unfolding find_cluster_from_path walk_path find_name match_name match_form match_base match_ext
    split_n split_loop same_bytes get_root_dir_cluster root_of read_cluster read_sectors read_turn
    first_sector_of_cluster cluster_to_lba copy_bytes put_byte toupper get_entry_cluster read_bpb
    get_partition_lba lba_in_mbr bpb_of read_sector filled get_u16 get_u32 strlen
found_a = refl

size_a : get_file_size first_part card path_a ≡ 5000
unfolding get_file_size find_dir_entry search_path search_sectors search_entries tokens push_char
    format_name_83 format_base format_after strchr strchr_from is_at same_bytes cluster_to_lba
    put_byte toupper file_size_at get_entry_cluster read_bpb get_partition_lba lba_in_mbr bpb_of
    read_sector filled get_u16 get_u32
size_a = refl

-- The ten bytes across the end of the first cluster.
fat32_read_file_bytes_reads_example :
    let n = min 10 (get_file_size first_part card path_a - 4090) in
    let r = fat32_read_file_bytes first_part card path_a (λ i. 0) 4090 10 in
    (r.0 ≡ has_read n)
    × ((j : ℕ) → j < n → r.1 j ≡ run_byte first_part card (3 ∷ 4 ∷ []) (4090 + j))
fat32_read_file_bytes_reads_example =
    fat32_read_file_bytes_reads first_part card path_a (λ i. 0) 4090 10 (3 ∷ 4 ∷ []) card-IsPaged
      (rw found_a run_of_a) (rw size_a (omega arith)) (rw size_a (omega arith)) (omega arith)

two_fats : 1 < (read_bpb first_part card).num_fats
unfolding read_bpb get_partition_lba lba_in_mbr bpb_of read_sector filled get_u16 get_u32
two_fats = omega arith

fat_set_entry_ruins_example :
    (fat_set_entry first_part card 5 fat32_eoc).bytes
      (fat_start first_part card + 5 / 128 + 1 * (read_bpb first_part card).fat_size_32)
    ≡ card.bytes (get_partition_lba first_part card)
fat_set_entry_ruins_example =
    fat_set_entry_ruins first_part card card-IsVolume 5 fat32_eoc (card-IsEntry 5 (omega arith)) 1
      (omega arith) two_fats

match_name-format_name_83_example :
    match_name (chars (102 ∷ 46 ∷ 99 ∷ [])) root_sector 0
    ≡ same_bytes 11 root_sector 0 (format_name_83 (102 ∷ 46 ∷ 99 ∷ [])) 0
match_name-format_name_83_example =
    match_name-format_name_83 (102 ∷ 46 ∷ 99 ∷ []) root_sector 0
      (omega arith, (omega arith, (omega arith, tt))) (omega arith)

abbrev full_cluster : Buf
full_cluster i = 32

absent : scan_stat 128 0 full_cluster (format_name_83 (66 ∷ [])) (strlen (66 ∷ [])) ≡ go_on
unfolding scan_stat same_bytes format_name_83 format_base format_after strchr strchr_from is_at
    put_byte toupper strlen
absent = refl

end_at_0 : get_next_cluster first_part card 0 ≡ 0
unfolding get_next_cluster next_in entry_sector entry_offset read_bpb get_partition_lba lba_in_mbr
    bpb_of read_sector filled get_u16 get_u32
end_at_0 = refl

stat_loop_endless_example : stat_loop 1000000 first_part card (66 ∷ []) 2 0 full_cluster ≡ none
stat_loop_endless_example =
    stat_loop_endless first_part card (66 ∷ []) 2 full_cluster absent end_at_0 1000000
