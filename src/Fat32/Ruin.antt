-- ===== src/Fat32/Ruin.antt =====
-- `fat_set_entry` of fat32.h, by which a new file gets its end of chain, and the other copies of
-- the table.
use carrotos.Base.{ℕ, ◌+◌, ◌-◌, ◌*◌, ◌/◌, ◌%◌, ◌^◌, ◌≤◌, ◌<◌, ◌≡◌, sym, ap, ◌∙◌, arith}
use carrotos.Fat32.Disk.{u32, Buf, Disk, filled, put_u32, put_sector}
use carrotos.Fat32.Volume.{Partition, BpbFat32, get_partition_lba, read_bpb}
use carrotos.Fat32.Table.{write_mirrors, fat_set_entry}
use carrotos.Fat32.Mirrors.{
  write_sector-put_sector, put_sector-IsReliable, write_mirrors_hit, mirror_place,
}
use carrotos.Fat32.Geometry.{IsVolume, IsEntry, fat_start, fat_size_small, read_sector_reliable}

module _ (part : Partition) (d : Disk) (v : IsVolume part d) (c value : ℕ)
    (inside : IsEntry part d c) where
  abbrev here : ℕ
  here = fat_start part d + c / 128

  abbrev bpb : BpbFat32
  bpb = read_bpb part d

  abbrev boot : Buf
  boot = d.bytes (get_partition_lba part d)

  abbrev written : Buf
  written = put_u32 (d.bytes here) (c % 128 * 4) (value % 2 ^ 28)

  sector : u32 (fat_start part d + u32 (c * 4) / 512) ≡ here
  sector = let small = v.small in let fits = fat_size_small part d v in omega arith

  offset : u32 (c * 4) % 512 ≡ c % 128 * 4
  offset = let small = v.small in omega arith

  set-boot :
      fat_set_entry part d c value
      ≡ write_mirrors (bpb.num_fats - 1) here bpb.fat_size_32 1 boot (put_sector d here written)
  unfolding fat_set_entry filled
  set-boot =
      rw
        (
          sector,
          offset,
          read_sector_reliable d here v.reliable,
          write_sector-put_sector d here written (v.reliable.writes here),
        )
        (ap
          (λ r.
            write_mirrors (bpb.num_fats - 1) here bpb.fat_size_32 1 (filled r part.stack)
              (put_sector d here written))
          (read_sector_reliable d (get_partition_lba part d) v.reliable))

  -- On a well-formed volume, `fat_set_entry` overwrites the sector of the entry in every copy of
  -- the table but the first with the boot sector of the partition.
  pub fat_set_entry_ruins :
      (k : ℕ)
      → 1 ≤ k
      → k < (read_bpb part d).num_fats
      → (fat_set_entry part d c value).bytes
          (fat_start part d + c / 128 + k * (read_bpb part d).fat_size_32)
        ≡ d.bytes (get_partition_lba part d)
  fat_set_entry_ruins k low high =
      let (wrap, lower, upper) =
        mirror_place (fat_start part d) here bpb.fat_size_32 bpb.num_fats k (omega arith)
          (omega (arith, v.small)) v.fits low high in
      rw set-boot (
        ap
          (write_mirrors (bpb.num_fats - 1) here bpb.fat_size_32 1 boot
            (put_sector d here written)).bytes
          (sym wrap)
        ∙ write_mirrors_hit here bpb.fat_size_32 boot (bpb.num_fats - 1) 1 _ k
            (put_sector-IsReliable d here written v.reliable) low (omega (arith, v.some_fat)))
