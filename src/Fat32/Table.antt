-- ===== src/Fat32/Table.antt =====
-- The file allocation table: its entries, the search for a blank cluster and the chains of clusters.
use carrotos.Base.{
  ℕ, zero, suc, ◌+◌, ◌-◌, ◌*◌, ◌/◌, ◌%◌, ◌^◌, ◌&&◌, Option, none, some, ◌==◌, ltb, leb,
  if◌then◌else◌,
}
use carrotos.Fat32.Disk.{Buf, Disk, read_sector, write_sector, filled, u32, get_u32, put_u32}
use carrotos.Fat32.Volume.{
  Partition, BpbFat32, get_partition_lba, read_bpb, write_cluster, sector_size,
}

abbrev pub fat32_eoc : ℕ
fat32_eoc = 0x0FFFFFF8

-- The sector and the offset of an entry of the first table.
unfoldable pub entry_sector : Partition → Disk → ℕ → ℕ
unfolding get_partition_lba read_bpb
entry_sector part d cluster_id =
    let bpb = read_bpb part d in
    u32 (
      get_partition_lba part d
      + bpb.reserved_sector_count
      + u32 (cluster_id * 4) / bpb.bytes_per_sector)

unfoldable pub entry_offset : Partition → Disk → ℕ → ℕ
unfolding read_bpb
entry_offset part d cluster_id = u32 (cluster_id * 4) % (read_bpb part d).bytes_per_sector

unfoldable pub next_in : ℕ → Option Buf → ℕ
unfolding get_u32
next_in offset none = 0xFFFFFFFF
next_in offset (some s) =
    let next_cluster = get_u32 s offset % 2 ^ 28 in
    if leb fat32_eoc next_cluster then 0 else next_cluster

unfoldable pub get_next_cluster : Partition → Disk → ℕ → ℕ
unfolding next_in entry_sector entry_offset read_sector
get_next_cluster part d cluster =
    next_in (entry_offset part d cluster) (read_sector d (entry_sector part d cluster))

unfoldable pub fat32_get_fat_entry : Partition → Disk → ℕ → ℕ
unfolding entry_sector entry_offset filled read_sector get_u32
fat32_get_fat_entry part d cluster_id =
    get_u32 (filled (read_sector d (entry_sector part d cluster_id)) part.stack)
      (entry_offset part d cluster_id)
    % 2 ^ 28

-- The same sector is written into `n` more tables, from number `i` on.
unfoldable pub write_mirrors : ℕ → (sector fat_size i : ℕ) → Buf → Disk → Disk
unfolding write_sector
write_mirrors zero sector fat_size i s d = d
write_mirrors (suc n) sector fat_size i s d =
    write_mirrors n sector fat_size (i + 1) s (write_sector d (u32 (sector + i * fat_size)) s).1

unfoldable pub fat32_set_fat_entry : Partition → Disk → ℕ → ℕ → Disk
unfolding entry_sector entry_offset filled read_sector put_u32 write_sector write_mirrors read_bpb
fat32_set_fat_entry part d cluster_id value =
    let bpb = read_bpb part d in
    let sector = entry_sector part d cluster_id in
    let s =
      put_u32 (filled (read_sector d sector) part.stack) (entry_offset part d cluster_id)
        (value % 2 ^ 28) in
    write_mirrors (bpb.num_fats - 1) sector bpb.fat_size_32 1 s (write_sector d sector s).1

-- The search from a cluster on; the buffer keeps what it holds where a read fails.
unfoldable pub search_blank : ℕ → Disk → (fat_start_lba entries_per_sector cluster : ℕ) → Buf → ℕ
unfolding filled read_sector get_u32
search_blank zero d fat_start_lba entries_per_sector cluster s = 0
search_blank (suc n) d fat_start_lba entries_per_sector cluster s =
    let s1 = filled (read_sector d (u32 (fat_start_lba + cluster / entries_per_sector))) s in
    let rest = search_blank n d fat_start_lba entries_per_sector (cluster + 1) s1 in
    if get_u32 s1 (cluster % entries_per_sector * 4) % 2 ^ 28 == 0 then cluster else rest

-- 0 where no cluster is blank.
unfoldable pub find_blank_cluster : Partition → Disk → ℕ
unfolding get_partition_lba read_bpb search_blank
find_blank_cluster part d =
    let bpb = read_bpb part d in
    let entries_per_sector = bpb.bytes_per_sector / 4 in
    search_blank (u32 (bpb.fat_size_32 * entries_per_sector) - 2) d
      (u32 (get_partition_lba part d + bpb.reserved_sector_count)) entries_per_sector 2 part.stack

-- The blank cluster found is hung on `cluster`; 0 where there is none.
unfoldable pub expand_file : Partition → Disk → ℕ → ℕ × Disk
unfolding find_blank_cluster fat32_set_fat_entry
expand_file part d cluster =
    let new_cluster = find_blank_cluster part d in
    if ltb new_cluster 2 then (0, d) else (
      new_cluster,
      fat32_set_fat_entry part (fat32_set_fat_entry part d cluster new_cluster) new_cluster
          fat32_eoc,
    )

-- The loop that gives a chain of clusters back, with a number of turns at most.
unfoldable pub free_chain : ℕ → Partition → Disk → ℕ → Option Disk
unfolding fat32_get_fat_entry fat32_set_fat_entry
free_chain zero part d this_cluster_id = none
free_chain (suc fuel) part d this_cluster_id =
    let next = fat32_get_fat_entry part d this_cluster_id in
    let rest = free_chain fuel part (fat32_set_fat_entry part d this_cluster_id 0) next in
    if leb 2 this_cluster_id && ltb this_cluster_id fat32_eoc then rest else some d

-- As `fat32_set_fat_entry`, but what goes into the other tables is the boot sector.
unfoldable pub fat_set_entry : Partition → Disk → ℕ → ℕ → Disk
unfolding get_partition_lba read_bpb filled read_sector put_u32 write_sector write_mirrors
fat_set_entry part d cluster value =
    let lba = get_partition_lba part d in
    let bpb = read_bpb part d in
    let buffer = filled (read_sector d lba) part.stack in
    let sector = u32 (lba + bpb.reserved_sector_count + u32 (cluster * 4) / sector_size) in
    let buffer1 =
      put_u32 (filled (read_sector d sector) part.stack) (u32 (cluster * 4) % sector_size)
        (value % 2 ^ 28) in
    write_mirrors (bpb.num_fats - 1) sector bpb.fat_size_32 1 buffer
      (write_sector d sector buffer1).1

-- One of the two updates of `extend_dirent_cluster`, of the first table alone.
unfoldable pub link_entry : Partition → BpbFat32 → (fat_start_lba : ℕ) → ℕ → ℕ → Disk → Disk
unfolding filled read_sector put_u32 write_sector
link_entry part bpb fat_start_lba cluster value d =
    let entries_per_sector = bpb.bytes_per_sector / 4 in
    let sector = u32 (fat_start_lba + cluster / entries_per_sector) in
    let s =
      put_u32 (filled (read_sector d sector) part.stack) (cluster % entries_per_sector * 4) value in
    (write_sector d sector s).1

-- A blank cluster is hung on the last one of a directory and zeroed.
unfoldable pub extend_dirent_cluster : Partition → Disk → ℕ → ℕ → Disk
unfolding get_partition_lba read_bpb link_entry write_cluster
extend_dirent_cluster part d last_cluster_id blank_cluster_id =
    let bpb = read_bpb part d in
    let fat_start_lba = u32 (get_partition_lba part d + bpb.reserved_sector_count) in
    let linked = link_entry part bpb fat_start_lba last_cluster_id (blank_cluster_id % 2 ^ 28) d in
    let ended = link_entry part bpb fat_start_lba blank_cluster_id 0x0FFFFFFF linked in
    (write_cluster part ended blank_cluster_id (λ i. 0)).1
