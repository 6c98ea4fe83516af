-- ===== src/Fat32/Blank.antt =====
-- The search for a blank cluster of fat32.h, and the cluster that is hung on a file.
use mathlib.Core.Path.{subst}
use carrotos.Base.{
  ℕ, zero, suc, ◌+◌, ◌-◌, ◌*◌, ◌/◌, ◌%◌, ◌^◌, ◌≤◌, ◌<◌, ◌≡◌, ◌≢◌, refl, sym, ap, ◌∙◌, ◌⊎◌, inl, inr,
  false, ◌==◌, arith, Bool-cases, ℕ_discrete, ltb,
}
use carrotos.Fat32.Disk.{Buf, Disk, filled, u32, get_u32}
use carrotos.Fat32.Volume.{Partition, read_bpb}
use carrotos.Fat32.Table.{
  fat32_eoc, fat32_get_fat_entry, fat32_set_fat_entry, search_blank, find_blank_cluster,
  expand_file,
}
use carrotos.Fat32.Geometry.{
  IsVolume, IsEntry, fat_start, fat_size_small, fat32_get_fat_entry-place, read_sector_reliable,
}
use carrotos.Fat32.Entries.{IsUpdated, fat32_set_fat_entry-IsUpdated}

-- The lowest blank cluster from `low` on and below `high`, or 0 if none is blank.
pub record IsFirstBlank (part : Partition) (d : Disk) (low high r : ℕ) : Type 0 where
  pub found : (r ≡ 0) ⊎ ((low ≤ r) × (r < high) × (fat32_get_fat_entry part d r ≡ 0))
  pub passed : (b : ℕ) → low ≤ b → b < high → (r ≡ 0) ⊎ (b < r) → fat32_get_fat_entry part d b ≢ 0

module _ (part : Partition) (d : Disk) (v : IsVolume part d) where
  first_blank :
      (n low : ℕ)
      → 0 < low
      → fat32_get_fat_entry part d low ≡ 0
      → IsFirstBlank part d low (low + suc n) low
  first_blank n low pos e = record {
    found = inr (omega arith, omega arith, e);
    passed = λ b lower higher r. absurd (ground arith);
  }

  later_blank :
      (n low r : ℕ)
      → fat32_get_fat_entry part d low ≢ 0
      → IsFirstBlank part d (low + 1) (low + 1 + n) r
      → IsFirstBlank part d low (low + suc n) r
  later_blank n low r used rest = record {
    found = ground (arith, rest.found);
    passed = λ b lower higher before. elim (ℕ_discrete low b) [
      | yes same ↦ subst (λ b. fat32_get_fat_entry part d b ≢ 0) same used
      | no other ↦ rest.passed b (omega arith) (omega arith) before
    ];
  }

  search_blank-IsFirstBlank :
      (n low : ℕ) (s : Buf)
      → 0 < low
      → low + n ≤ (read_bpb part d).fat_size_32 * 128
      → IsFirstBlank part d low (low + n) (search_blank n d (fat_start part d) 128 low s)
  unfolding search_blank filled
  search_blank-IsFirstBlank zero low s pos fits = record {
    found = inl refl;
    passed = λ b lower higher r. absurd (omega arith);
  }
  search_blank-IsFirstBlank (suc n) low s pos fits =
      rw (search_blank, wrap, read_sector_reliable d (fat_start part d + low / 128) v.reliable)
        (elim (Bool-cases (entry == 0)) [
          | inl e ↦
              let blank : entry ≡ 0 = ground arith in
              rw e (first_blank n low pos (is_entry ∙ blank))
          | inr e ↦
              let used : entry ≢ 0 = ground arith in
              rw e (
                later_blank n low _ (λ z. used (sym is_entry ∙ z))
                  (search_blank-IsFirstBlank n (low + 1) (d.bytes (fat_start part d + low / 128))
                    (omega arith) (omega arith)))
        ])
    where
      here : IsEntry part d low
      here = omega arith

      wrap : u32 (fat_start part d + low / 128) ≡ fat_start part d + low / 128
      wrap = omega (arith, here, fat_size_small part d v)

      entry : ℕ
      entry = get_u32 (d.bytes (fat_start part d + low / 128)) (low % 128 * 4) % 2 ^ 28

      is_entry : fat32_get_fat_entry part d low ≡ entry
      is_entry = fat32_get_fat_entry-place part d v low here

  -- The lowest cluster from 2 on that the table has blank is found, 0 where it has none.
  find_blank_cluster-IsFirstBlank :
      IsFirstBlank part d 2 ((read_bpb part d).fat_size_32 * 128) (find_blank_cluster part d)
  unfolding find_blank_cluster
  find_blank_cluster-IsFirstBlank =
      rw (v.sectors, count, start)
        (subst
          (λ high. IsFirstBlank part d 2 high (
            search_blank ((read_bpb part d).fat_size_32 * 128 - 2) d (fat_start part d) 128 2
              part.stack))
          (omega (arith, v.some_entry))
          (search_blank-IsFirstBlank ((read_bpb part d).fat_size_32 * 128 - 2) 2 part.stack
            (omega arith) (omega (arith, v.some_entry))))
    where
      count : u32 ((read_bpb part d).fat_size_32 * 128) ≡ (read_bpb part d).fat_size_32 * 128
      count = omega (arith, v.small)

      start : u32 (fat_start part d) ≡ fat_start part d
      start = omega (arith, fat_size_small part d v, v.some_entry)

-- What `expand_file` does to a volume: nothing if no cluster is blank; else the blank cluster found
-- follows `c` and ends the chain.
pub data Expands (part : Partition) (d : Disk) (c : ℕ) : ℕ × Disk → Type 0 where
  full :
      ((b : ℕ) → 2 ≤ b → IsEntry part d b → fat32_get_fat_entry part d b ≢ 0)
      → Expands part d c (0, d)
  hung :
      {r : ℕ} {e : Disk}
      → 2 ≤ r
      → IsEntry part d r
      → fat32_get_fat_entry part d r ≡ 0
      → IsVolume part e
      → fat32_get_fat_entry part e c ≡ r
      → fat32_get_fat_entry part e r ≡ fat32_eoc
      → ((b : ℕ)
          → IsEntry part d b
          → b ≢ c
          → b ≢ r
          → fat32_get_fat_entry part e b ≡ fat32_get_fat_entry part d b)
      → Expands part d c (r, e)

-- The two entries that `expand_file` sets.
hung_blank :
    (part : Partition) (d : Disk) (c r : ℕ)
    → IsVolume part d
    → IsEntry part d c
    → fat32_get_fat_entry part d c ≢ 0
    → 2 ≤ r
    → IsEntry part d r
    → fat32_get_fat_entry part d r ≡ 0
    → Expands part d c (r, fat32_set_fat_entry part (fat32_set_fat_entry part d c r) r fat32_eoc)
hung_blank part d c r v inside used low high blank =
    hung low high blank ended.volume
      (ended.others c (in_linked c inside) apart ∙ linked.entry ∙ r_small) ended.entry
      (λ b h not_c not_r. ended.others b (in_linked b h) not_r ∙ linked.others b h not_c)
  where
    linked : IsUpdated part d (fat32_set_fat_entry part d c r) c r
    linked = fat32_set_fat_entry-IsUpdated part d v c r inside

    in_linked : (b : ℕ) → IsEntry part d b → IsEntry part (fat32_set_fat_entry part d c r) b
    in_linked b h = rw linked.place.same_bpb h

    ended :
        IsUpdated part
          (fat32_set_fat_entry part d c r)
          (fat32_set_fat_entry part (fat32_set_fat_entry part d c r) r fat32_eoc)
          r
          fat32_eoc
    ended =
        fat32_set_fat_entry-IsUpdated part (fat32_set_fat_entry part d c r) linked.volume r
          fat32_eoc (in_linked r high)

    apart : c ≢ r
    apart e = used (ap (fat32_get_fat_entry part d) e ∙ blank)

    r_small : r % 2 ^ 28 ≡ r
    r_small = omega (arith, v.small, high)

-- On a well-formed volume, `expand_file` at a cluster `c` that is in use either changes nothing,
-- all clusters being in use, or makes a cluster that was blank the end of the chain behind `c` and
-- changes no other entry.
pub expand_file-Expands :
    (part : Partition) (d : Disk) (c : ℕ)
    → IsVolume part d
    → IsEntry part d c
    → fat32_get_fat_entry part d c ≢ 0
    → Expands part d c (expand_file part d c)
unfolding expand_file
expand_file-Expands part d c v inside used =
    let blank = find_blank_cluster-IsFirstBlank part d v in
    elim blank.found [
      | inl none_blank ↦ rw none_blank (full (λ b low h. blank.passed b low h (inl none_blank)))
      | inr (low, high, zero_entry) ↦
          let enough : ltb (find_blank_cluster part d) 2 ≡ false = ground arith in
          rw enough
            (hung_blank part d c (find_blank_cluster part d) v inside used low high zero_entry)
    ]
