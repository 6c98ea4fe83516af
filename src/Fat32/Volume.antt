-- ===== src/Fat32/Volume.antt =====
-- Where a partition and its clusters lie on the disk, and reading and writing a cluster.
use carrotos.Base.{
  ℕ, zero, suc, ◌+◌, ◌-◌, ◌*◌, ◌%◌, ◌^◌, Bool, true, false, ◌||◌, not, Option, none, some, ◌==◌,
  ltb, if◌then◌else◌,
}
use carrotos.Fat32.Disk.{
  Buf, Disk, read_sector, write_sector, filled, u32, get_u16, get_u32, copy_bytes,
}

-- `struct vfs_partition`: `part_id` stands in `identifier_buf`; `stack` is what a local buffer holds
-- before it is filled.
pub record Partition : Type 0 where
  pub part_id : ℕ
  pub stack : Buf

-- The fields of the boot sector that the driver uses.
pub record BpbFat32 : Type 0 where
  pub bytes_per_sector : ℕ
  pub sectors_per_cluster : ℕ
  pub reserved_sector_count : ℕ
  pub num_fats : ℕ
  pub fat_size_32 : ℕ
  pub root_cluster : ℕ

unfoldable pub bpb_of : Buf → BpbFat32
unfolding get_u16 get_u32
bpb_of s = record {
  bytes_per_sector = get_u16 s 11;
  sectors_per_cluster = s 13;
  reserved_sector_count = get_u16 s 14;
  num_fats = s 16;
  fat_size_32 = get_u32 s 36;
  root_cluster = get_u32 s 44;
}

-- The start in the boot record of a disk, or 0 where the record has no signature.
unfoldable pub lba_in_mbr : ℕ → Option Buf → ℕ
unfolding get_u32
lba_in_mbr part_index none = 0
lba_in_mbr part_index (some mbr) =
    if not (mbr 510 == 0x55) || not (mbr 511 == 0xAA)
    then 0
    else get_u32 mbr (0x1BE + part_index * 16 + 8)

unfoldable pub get_partition_lba : Partition → Disk → ℕ
unfolding lba_in_mbr read_sector
get_partition_lba part d = lba_in_mbr part.part_id (read_sector d 0)

-- The boot sector as most routines read it: the result of the read is not looked at.
unfoldable pub read_bpb : Partition → Disk → BpbFat32
unfolding bpb_of filled read_sector get_partition_lba
read_bpb part d = bpb_of (filled (read_sector d (get_partition_lba part d)) part.stack)

unfoldable pub root_of : Option Buf → ℕ
unfolding get_u32
root_of none = 0
root_of (some boot_sector) = get_u32 boot_sector 44

unfoldable pub get_root_dir_cluster : Partition → Disk → ℕ
unfolding root_of read_sector get_partition_lba
get_root_dir_cluster part d =
    let part_lba = get_partition_lba part d in
    if part_lba == 0 then 0 else root_of (read_sector d part_lba)

-- `(cluster - 2) * bpb->sectors_per_cluster + first_data_sector` in 32 bits.
unfoldable pub cluster_to_lba : BpbFat32 → ℕ → ℕ
cluster_to_lba bpb cluster = u32 (
    (cluster + (2 ^ 32 - 2)) % 2 ^ 32 * bpb.sectors_per_cluster
    + bpb.reserved_sector_count
    + bpb.num_fats * bpb.fat_size_32)

abbrev pub cluster_size : ℕ
cluster_size = 4096

abbrev pub sector_size : ℕ
sector_size = 512

-- The results of `read_cluster`.
pub data ReadResult : Type 0 where
  read_ok too_low too_small unreadable : ReadResult

-- One turn of the loop of `read_cluster` appended to the turns before it.
unfoldable pub read_turn : Option Buf → ℕ → ReadResult × Buf → ReadResult × Buf
unfolding copy_bytes
read_turn none i (result, buf) = (unreadable, buf)
read_turn (some s) i (read_ok, buf) = (read_ok, copy_bytes buf (i * sector_size) s 0 sector_size)
read_turn (some s) i (result, buf) = (result, buf)

-- The first `n` turns; a turn that fails is the last one that does anything.
unfoldable pub read_sectors : Disk → ℕ → Buf → ℕ → ReadResult × Buf
unfolding read_turn read_sector
read_sectors d first_sector buf zero = (read_ok, buf)
read_sectors d first_sector buf (suc i) =
    read_turn (read_sector d (u32 (first_sector + i))) i (read_sectors d first_sector buf i)

-- The first sector of a cluster on the disk.
unfoldable pub first_sector_of_cluster : Partition → Disk → ℕ → ℕ
unfolding read_bpb get_partition_lba cluster_to_lba
first_sector_of_cluster part d cluster_id =
    u32 (get_partition_lba part d + cluster_to_lba (read_bpb part d) cluster_id)

unfoldable pub read_cluster : Partition → Disk → ℕ → Buf → ℕ → ReadResult × Buf
unfolding first_sector_of_cluster read_sectors read_bpb
read_cluster part d cluster_id buf buf_size =
    let bpb = read_bpb part d in
    if ltb cluster_id 2
    then (too_low, buf)
    else if ltb buf_size (bpb.sectors_per_cluster * bpb.bytes_per_sector)
    then (too_small, buf)
    else read_sectors d (first_sector_of_cluster part d cluster_id) buf bpb.sectors_per_cluster

-- A write that fails ends the loop of `write_cluster`.
unfoldable pub write_turn : ℕ × Disk → (Disk → Bool × Disk) → Bool × Disk
write_turn (result, d) rest = if result == 0 then rest d else (false, d)

unfoldable pub write_sectors : ℕ → (first_sector : ℕ) → Buf → ℕ → Disk → Bool × Disk
unfolding write_turn write_sector
write_sectors zero first_sector buf i d = (true, d)
write_sectors (suc n) first_sector buf i d =
    write_turn (write_sector d (u32 (first_sector + i)) (λ j. buf (i * sector_size + j)))
      (write_sectors n first_sector buf (i + 1))

-- Eight sectors, whatever `sectors_per_cluster` is; `false` stands for -1.
unfoldable pub write_cluster : Partition → Disk → ℕ → Buf → Bool × Disk
unfolding write_sectors first_sector_of_cluster
write_cluster part d cluster_id buf =
    if ltb cluster_id 2
    then (false, d)
    else write_sectors 8 (first_sector_of_cluster part d cluster_id) buf 0 d
