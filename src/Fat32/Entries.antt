-- ===== src/Fat32/Entries.antt =====
-- Writing an entry of the file allocation table of fat32.h and reading it back.
use native.Mathlib.Nat.{mul-le-mul_right}
use carrotos.Base.{
  ℕ, zero, suc, ◌+◌, ◌-◌, ◌*◌, ◌/◌, ◌%◌, ◌^◌, ◌≤◌, ◌<◌, ◌≡◌, ◌≢◌, refl, sym, ap, ◌∙◌, arith,
  ℕ_discrete, ◌⊎◌, inl, inr,
}
use carrotos.Fat32.Disk.{Buf, Disk, put_sector, filled, u32, get_u32, put_u32, put_byte}
use carrotos.Fat32.Volume.{Partition, BpbFat32, get_partition_lba, read_bpb}
use carrotos.Fat32.Table.{entry_sector, fat32_get_fat_entry, fat32_set_fat_entry, write_mirrors}
use carrotos.Fat32.Mirrors.{
  IsReliable, write_sector-put_sector, put_sector_self, put_sector_ne, put_sector-IsReliable,
  write_mirrors-IsReliable, write_mirrors_missed, write_mirrors_hit, mirror_place,
}
use carrotos.Fat32.Geometry.{
  IsVolume, IsEntry, SamePlace, fat_start, entry_sector-place, entry_offset-place,
  fat32_get_fat_entry-place, read_sector_reliable, same_boot-SamePlace, SamePlace-IsVolume,
}

-- A word that was stored is read back.
get_u32-put_u32 : (s : Buf) (i v : ℕ) → v < 2 ^ 32 → get_u32 (put_u32 s i v) i ≡ v
unfolding get_u32 put_u32 put_byte
get_u32-put_u32 s i v h = ground arith

-- A word at another place is as it was.
get_u32-put_u32_ne :
    (s : Buf) {i j : ℕ} (v : ℕ)
    → i % 4 ≡ 0
    → j % 4 ≡ 0
    → i ≢ j
    → get_u32 (put_u32 s i v) j ≡ get_u32 s j
unfolding get_u32 put_u32 put_byte
get_u32-put_u32_ne s v hi hj h = ground arith

-- What is left of a volume when the entry `c` is made `value`: all tables agree on the sector that
-- was written, and no sector outside the tables has changed.
pub record IsUpdated (part : Partition) (d e : Disk) (c value : ℕ) : Type 0 where
  pub volume : IsVolume part e
  pub place : SamePlace part d e
  pub entry : fat32_get_fat_entry part e c ≡ value % 2 ^ 28
  pub others :
      (b : ℕ)
      → IsEntry part d b
      → b ≢ c
      → fat32_get_fat_entry part e b ≡ fat32_get_fat_entry part d b
  pub mirrored :
      (k : ℕ)
      → k < (read_bpb part d).num_fats
      → let sector = fat_start part d + c / 128 in
        e.bytes (sector + k * (read_bpb part d).fat_size_32) ≡ e.bytes sector
  pub before : (l : ℕ) → l < fat_start part d → e.bytes l ≡ d.bytes l
  pub behind :
      (l : ℕ)
      → fat_start part d + (read_bpb part d).num_fats * (read_bpb part d).fat_size_32 ≤ l
      → e.bytes l ≡ d.bytes l

module _ (part : Partition) (d : Disk) (v : IsVolume part d) (c value : ℕ)
    (inside : IsEntry part d c) where
  abbrev here : ℕ
  here = fat_start part d + c / 128

  abbrev written : Buf
  written = put_u32 (d.bytes here) (c % 128 * 4) (value % 2 ^ 28)

  abbrev bpb : BpbFat32
  bpb = read_bpb part d

  abbrev after : Disk
  after =
      write_mirrors (bpb.num_fats - 1) here bpb.fat_size_32 1 written (put_sector d here written)

  set-after : fat32_set_fat_entry part d c value ≡ after
  unfolding fat32_set_fat_entry filled
  set-after = rw (read_sector_reliable d (entry_sector part d c) v.reliable) (
      rw (entry_sector-place part d v c inside, entry_offset-place part d v c inside)
        (rw (write_sector-put_sector d here written (v.reliable.writes here)) refl))

  first-IsReliable : IsReliable (put_sector d here written)
  first-IsReliable = put_sector-IsReliable d here written v.reliable

  after-IsReliable : IsReliable after
  after-IsReliable =
      write_mirrors-IsReliable here bpb.fat_size_32 written (bpb.num_fats - 1) 1 _ first-IsReliable

  place_of :
      (k : ℕ)
      → 1 ≤ k
      → k < bpb.num_fats
      → (u32 (here + k * bpb.fat_size_32) ≡ here + k * bpb.fat_size_32)
        × (fat_start part d + bpb.fat_size_32 ≤ here + k * bpb.fat_size_32)
        × (here + k * bpb.fat_size_32 < fat_start part d + bpb.num_fats * bpb.fat_size_32)
  place_of k low high =
      mirror_place (fat_start part d) here bpb.fat_size_32 bpb.num_fats k (omega arith)
        (omega (arith, v.small)) v.fits low high

  -- A sector of the first table, one before it and one behind the last is changed only by the
  -- first write.
  after_missed :
      (l : ℕ)
      → (l < fat_start part d + bpb.fat_size_32)
        ⊎ (fat_start part d + bpb.num_fats * bpb.fat_size_32 ≤ l)
      → after.bytes l ≡ (put_sector d here written).bytes l
  after_missed l side =
      write_mirrors_missed here bpb.fat_size_32 written (bpb.num_fats - 1) 1 _ l first-IsReliable
        (λ k low high e.
          let (wrap, lower, upper) = place_of k low (omega (arith, v.some_fat)) in ground arith)

  below :
      (b : ℕ) → IsEntry part d b → fat_start part d + b / 128 < fat_start part d + bpb.fat_size_32
  below b h = omega arith

  after_here : after.bytes here ≡ written
  after_here = after_missed here (inl (below c inside)) ∙ put_sector_self d here written

  after_elsewhere :
      (l : ℕ)
      → (l < fat_start part d + bpb.fat_size_32)
        ⊎ (fat_start part d + bpb.num_fats * bpb.fat_size_32 ≤ l)
      → here ≢ l
      → after.bytes l ≡ d.bytes l
  after_elsewhere l side other = after_missed l side ∙ put_sector_ne d here written other

  after-place : SamePlace part d after
  after-place =
      same_boot-SamePlace part d after v.reliable after-IsReliable
        (after_elsewhere 0 (inl (omega (arith, v.reserved, below c inside)))
          (λ e. omega (arith, v.reserved)))
        (after_elsewhere (get_partition_lba part d)
          (inl (omega (arith, v.reserved, below c inside))) (λ e. omega (arith, v.reserved)))

  after-IsVolume : IsVolume part after
  after-IsVolume = SamePlace-IsVolume part d after after-IsReliable after-place v

  -- An entry of the table afterwards, in the words of the volume before.
  entry_after :
      (b : ℕ)
      → IsEntry part d b
      → fat32_get_fat_entry part after b
        ≡ get_u32 (after.bytes (fat_start part d + b / 128)) (b % 128 * 4) % 2 ^ 28
  entry_after b h =
      fat32_get_fat_entry-place part after after-IsVolume b (rw after-place.same_bpb h)
      ∙ rw (after-place.same_lba, after-place.same_bpb) refl

  after_self : fat32_get_fat_entry part after c ≡ value % 2 ^ 28
  after_self =
      entry_after c inside
      ∙ ap (λ s. get_u32 s (c % 128 * 4) % 2 ^ 28) after_here
      ∙ ap (λ n. n % 2 ^ 28)
          (get_u32-put_u32 (d.bytes here) (c % 128 * 4) (value % 2 ^ 28) (omega arith))
      ∙ omega arith

  -- The sector of another entry: either that of `c`, where the word differs, or another one.
  after_other :
      (b : ℕ)
      → IsEntry part d b
      → b ≢ c
      → get_u32 (after.bytes (fat_start part d + b / 128)) (b % 128 * 4)
        ≡ get_u32 (d.bytes (fat_start part d + b / 128)) (b % 128 * 4)
  after_other b h other = elim (ℕ_discrete (c / 128) (b / 128)) [
    | yes same ↦ rw (← same) (
        ap (λ s. get_u32 s (b % 128 * 4)) after_here
        ∙ get_u32-put_u32_ne (d.bytes here) (value % 2 ^ 28) (omega arith) (omega arith)
            (λ e. other (omega arith)))
    | no apart ↦
        ap (λ s. get_u32 s (b % 128 * 4))
          (after_elsewhere (fat_start part d + b / 128) (inl (below b h))
            (λ e. apart (omega arith)))
  ]

  one_table : 1 * bpb.fat_size_32 ≤ bpb.num_fats * bpb.fat_size_32
  one_table = mul-le-mul_right bpb.fat_size_32 v.some_fat

  after_mirror :
      (k : ℕ) → k < bpb.num_fats → after.bytes (here + k * bpb.fat_size_32) ≡ after.bytes here
  after_mirror zero h = ap after.bytes (omega arith)
  after_mirror (suc k) h =
      let (wrap, lower, upper) = place_of (suc k) (omega arith) h in
      ap after.bytes (sym wrap)
      ∙ write_mirrors_hit here bpb.fat_size_32 written (bpb.num_fats - 1) 1 _ (suc k)
          first-IsReliable (omega arith) (omega arith)
      ∙ sym after_here

  after-IsUpdated : IsUpdated part d after c value
  after-IsUpdated = record {
    volume = after-IsVolume;
    place = after-place;
    entry = after_self;
    others = λ b h other.
        entry_after b h
        ∙ ap (λ n. n % 2 ^ 28) (after_other b h other)
        ∙ sym (fat32_get_fat_entry-place part d v b h);
    mirrored = after_mirror;
    before = λ l h. after_elsewhere l (inl (omega arith)) (λ e. omega arith);
    behind = λ l h. after_elsewhere l (inr h) (λ e. omega (arith, below c inside, one_table));
  }

  pub fat32_set_fat_entry-IsUpdated : IsUpdated part d (fat32_set_fat_entry part d c value) c value
  fat32_set_fat_entry-IsUpdated = rw set-after after-IsUpdated
