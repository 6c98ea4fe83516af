-- ===== src/Fat32/Reading.antt =====
-- What reading a cluster and a file of fat32.h brings into the buffer.
use carrotos.Base.{
  ℕ, zero, suc, ◌+◌, ◌-◌, ◌*◌, ◌/◌, ◌%◌, ◌≤◌, ◌<◌, ◌≡◌, refl, ap, ◌∙◌, true, false, some, List, [],
  ◌∷◌, leb, ltb, arith, if◌then◌else◌, Bool-cases, inl, inr, ◌&&◌,
}
use carrotos.Fat32.Disk.{Buf, Disk, u32, copy_bytes}
use carrotos.Fat32.Volume.{
  Partition, ReadResult, read_ok, read_bpb, read_turn, read_sectors, read_cluster,
  first_sector_of_cluster, cluster_size, sector_size,
}
use carrotos.Fat32.Table.{fat32_eoc, get_next_cluster}
use carrotos.Fat32.Mirrors.{IsReliable}
use carrotos.Fat32.Geometry.{IsVolume, read_sector_reliable}
use carrotos.Fat32.File.{ReadOutcome, has_read}

-- The byte of a cluster at an offset.
abbrev pub cluster_byte : Partition → Disk → ℕ → ℕ → ℕ
cluster_byte part d c o = d.bytes (u32 (first_sector_of_cluster part d c + o / 512)) (o % 512)

-- A volume whose clusters have the 4096 bytes that the driver takes them for.
pub record IsPaged (part : Partition) (d : Disk) : Type 0 where
  pub volume : IsVolume part d
  pub eight : (read_bpb part d).sectors_per_cluster ≡ 8

read_turn_ok :
    (s : Buf) (i : ℕ) (p : ReadResult × Buf)
    → p.0 ≡ read_ok
    → read_turn (some s) i p ≡ (read_ok, copy_bytes p.1 (i * sector_size) s 0 sector_size)
unfolding read_turn
read_turn_ok s i (read_ok, buf) e = refl
read_turn_ok s i (ReadResult.too_low, buf) e = absurd cc
read_turn_ok s i (ReadResult.too_small, buf) e = absurd cc
read_turn_ok s i (ReadResult.unreadable, buf) e = absurd cc

module _ (d : Disk) (h : IsReliable d) (first_sector : ℕ) (buf : Buf) where
  read_sectors_ok : (n : ℕ) → (read_sectors d first_sector buf n).0 ≡ read_ok
  unfolding read_sectors
  read_sectors_ok zero = refl
  read_sectors_ok (suc i) = rw (read_sector_reliable d (u32 (first_sector + i)) h) (
      ap (λ p. p.0)
        (read_turn_ok (d.bytes (u32 (first_sector + i))) i (read_sectors d first_sector buf i)
          (read_sectors_ok i)))

  read_sectors_bytes :
      (n j : ℕ)
      → j < n * 512
      → (read_sectors d first_sector buf n).1 j ≡ d.bytes (u32 (first_sector + j / 512)) (j % 512)
  unfolding read_sectors copy_bytes
  read_sectors_bytes zero j low = absurd (omega arith)
  read_sectors_bytes (suc i) j low =
      rw
        (
          read_sector_reliable d (u32 (first_sector + i)) h,
          read_turn_ok (d.bytes (u32 (first_sector + i))) i (read_sectors d first_sector buf i)
              (read_sectors_ok i),
        )
        (elim (Bool-cases (leb (i * 512) j)) [
          | inl here ↦
              let test : (leb (i * 512) j && ltb j (i * 512 + 512)) ≡ true = ground arith in
              let sector : j / 512 ≡ i = ground arith in
              let offset : 0 + (j - i * 512) ≡ j % 512 = ground arith in
              rw (copy_bytes, test, sector, offset) refl
          | inr before ↦
              let test : (leb (i * 512) j && ltb j (i * 512 + 512)) ≡ false = ground arith in
              rw (copy_bytes, test) (read_sectors_bytes i j (ground arith))
        ])

module _ (part : Partition) (d : Disk) (h : IsPaged part d) where
  cluster_read :
      (c : ℕ) (buf : Buf)
      → 2 ≤ c
      → read_cluster part d c buf cluster_size
        ≡ read_sectors d (first_sector_of_cluster part d c) buf 8
  unfolding read_cluster
  cluster_read c buf low =
      let test : ltb c 2 ≡ false = ground arith in rw (test, h.eight, h.volume.sectors) refl

  pub read_cluster_ok :
      (c : ℕ) (buf : Buf) → 2 ≤ c → (read_cluster part d c buf cluster_size).0 ≡ read_ok
  read_cluster_ok c buf low =
      ap (λ p. p.0) (cluster_read c buf low)
      ∙ read_sectors_ok d h.volume.reliable (first_sector_of_cluster part d c) buf 8

  pub read_cluster_bytes :
      (c : ℕ) (buf : Buf) (o : ℕ)
      → 2 ≤ c
      → o < 4096
      → (read_cluster part d c buf cluster_size).1 o ≡ cluster_byte part d c o
  read_cluster_bytes c buf o low inside =
      ap (λ p. p.1 o) (cluster_read c buf low)
      ∙ read_sectors_bytes d h.volume.reliable (first_sector_of_cluster part d c) buf 8 o
          (omega arith)

-- The clusters from `c` on, as far as `get_next_cluster` leads to one and they are listed.
pub data IsRun (part : Partition) (d : Disk) : ℕ → List ℕ → Type 0 where
  one : (c : ℕ) → 2 ≤ c → c < fat32_eoc → IsRun part d c (c ∷ [])
  next :
      (c : ℕ) {cs : List ℕ}
      → 2 ≤ c
      → c < fat32_eoc
      → IsRun part d (get_next_cluster part d c) cs
      → IsRun part d c (c ∷ cs)

-- The byte at a position in a list of clusters.
abbrev pub run_byte : Partition → Disk → List ℕ → ℕ → ℕ
run_byte part d [] p = 0
run_byte part d (c ∷ cs) p =
    let rest = run_byte part d cs (p - 4096) in if ltb p 4096 then cluster_byte part d c p else rest

-- What a read of `size` bytes from an offset of the run makes of the buffer that holds `total`.
pub record Reads (part : Partition) (d : Disk) (cs : List ℕ) (offset size total : ℕ) (buf : Buf)
    (r : ReadOutcome × Buf) : Type 0 where
  pub count : r.0 ≡ has_read (total + size)
  pub stored : (j : ℕ) → j < size → r.1 (total + j) ≡ run_byte part d cs (offset + j)
  pub kept : (k : ℕ) → k < total → r.1 k ≡ buf k
