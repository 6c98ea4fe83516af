-- ===== src/Fat32/Geometry.antt =====
-- Well-formed volumes of fat32.h, and what makes a volume stay where it is.
use native.Mathlib.Nat.{mul-le-mul_right}
use carrotos.Base.{ℕ, ◌+◌, ◌*◌, ◌/◌, ◌%◌, ◌^◌, ◌≤◌, ◌<◌, ◌≡◌, refl, sym, ap, ◌∙◌, some, arith}
use carrotos.Fat32.Disk.{Disk, read_sector, filled, get_u32}
use carrotos.Fat32.Volume.{Partition, bpb_of, lba_in_mbr, get_partition_lba, read_bpb}
use carrotos.Fat32.Table.{fat32_eoc, entry_sector, entry_offset, fat32_get_fat_entry}
use carrotos.Fat32.Mirrors.{IsReliable}

-- A volume whose sectors have 512 bytes and whose tables lie, in 32 bits, behind the boot sector.
pub record IsVolume (part : Partition) (d : Disk) : Type 0 where
  pub reliable : IsReliable d
  pub sectors : (read_bpb part d).bytes_per_sector ≡ 512
  pub reserved : 0 < (read_bpb part d).reserved_sector_count
  pub some_fat : 0 < (read_bpb part d).num_fats
  pub some_entry : 0 < (read_bpb part d).fat_size_32
  pub small : (read_bpb part d).fat_size_32 * 128 ≤ fat32_eoc
  pub fits :
      get_partition_lba part d
        + (read_bpb part d).reserved_sector_count
        + (read_bpb part d).num_fats * (read_bpb part d).fat_size_32
      ≤ 2 ^ 32

-- The clusters that the table has an entry for.
abbrev pub IsEntry : Partition → Disk → ℕ → Type 0
IsEntry part d c = c < (read_bpb part d).fat_size_32 * 128

-- The first sector of the first table.
abbrev pub fat_start : Partition → Disk → ℕ
fat_start part d = get_partition_lba part d + (read_bpb part d).reserved_sector_count

pub read_sector_reliable : (d : Disk) (l : ℕ) → IsReliable d → read_sector d l ≡ some (d.bytes l)
unfolding read_sector
read_sector_reliable d l h = rw (h.reads l) refl

get_partition_lba_reliable :
    (part : Partition) (d : Disk)
    → IsReliable d
    → get_partition_lba part d ≡ lba_in_mbr part.part_id (some (d.bytes 0))
unfolding get_partition_lba
get_partition_lba_reliable part d h = ap (lba_in_mbr part.part_id) (read_sector_reliable d 0 h)

read_bpb_reliable :
    (part : Partition) (d : Disk)
    → IsReliable d
    → read_bpb part d ≡ bpb_of (d.bytes (get_partition_lba part d))
unfolding read_bpb filled
read_bpb_reliable part d h =
    ap (λ r. bpb_of (filled r part.stack)) (read_sector_reliable d (get_partition_lba part d) h)

-- Two disks with one boot record and one boot sector have the volume at one place.
pub record SamePlace (part : Partition) (d e : Disk) : Type 0 where
  pub same_lba : get_partition_lba part e ≡ get_partition_lba part d
  pub same_bpb : read_bpb part e ≡ read_bpb part d

pub same_boot-SamePlace :
    (part : Partition) (d e : Disk)
    → IsReliable d
    → IsReliable e
    → e.bytes 0 ≡ d.bytes 0
    → e.bytes (get_partition_lba part d) ≡ d.bytes (get_partition_lba part d)
    → SamePlace part d e
same_boot-SamePlace part d e hd he first boot = record { same_lba = lba; same_bpb = bpb }
  where
    lba : get_partition_lba part e ≡ get_partition_lba part d
    lba =
        get_partition_lba_reliable part e he
        ∙ ap (λ s. lba_in_mbr part.part_id (some s)) first
        ∙ sym (get_partition_lba_reliable part d hd)

    bpb : read_bpb part e ≡ read_bpb part d
    bpb =
        read_bpb_reliable part e he
        ∙ ap (λ l. bpb_of (e.bytes l)) lba
        ∙ ap bpb_of boot
        ∙ sym (read_bpb_reliable part d hd)

pub SamePlace-IsVolume :
    (part : Partition) (d e : Disk)
    → IsReliable e
    → SamePlace part d e
    → IsVolume part d
    → IsVolume part e
SamePlace-IsVolume part d e he same v = record {
  reliable = he;
  sectors = rw same.same_bpb v.sectors;
  reserved = rw same.same_bpb v.reserved;
  some_fat = rw same.same_bpb v.some_fat;
  some_entry = rw same.same_bpb v.some_entry;
  small = rw same.same_bpb v.small;
  fits = rw (same.same_bpb, same.same_lba) v.fits;
}

module _ (part : Partition) (d : Disk) (v : IsVolume part d) where
  -- One table is no longer than all of them.
  pub fat_size_small : fat_start part d + (read_bpb part d).fat_size_32 ≤ 2 ^ 32
  fat_size_small =
      let one : 1 * (read_bpb part d).fat_size_32
          ≤ (read_bpb part d).num_fats * (read_bpb part d).fat_size_32 =
        mul-le-mul_right (read_bpb part d).fat_size_32 v.some_fat in
      omega (arith, v.fits)

  pub entry_sector-place :
      (c : ℕ) → IsEntry part d c → entry_sector part d c ≡ fat_start part d + c / 128
  unfolding entry_sector
  entry_sector-place c h =
      rw v.sectors (let small = v.small in let fits = fat_size_small in omega arith)

  pub entry_offset-place : (c : ℕ) → IsEntry part d c → entry_offset part d c ≡ c % 128 * 4
  unfolding entry_offset
  entry_offset-place c h = rw v.sectors (let small = v.small in omega arith)

  -- An entry is a word of its sector of the first table.
  pub fat32_get_fat_entry-place :
      (c : ℕ)
      → IsEntry part d c
      → fat32_get_fat_entry part d c
        ≡ get_u32 (d.bytes (fat_start part d + c / 128)) (c % 128 * 4) % 2 ^ 28
  unfolding fat32_get_fat_entry filled
  fat32_get_fat_entry-place c h =
      rw (read_sector_reliable d (entry_sector part d c) v.reliable)
        (rw (entry_sector-place c h, entry_offset-place c h) refl)
