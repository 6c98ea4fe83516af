-- ===== src/Fat32/Chain.antt =====
-- Giving a chain of clusters back: the loop that `fat32_truncate_file`, `fat32_unlink_file` and
-- `fat32_rmdir` of fat32.h share.
use carrotos.Base.{
  ℕ, zero, suc, ◌≤◌, ◌<◌, ◌≡◌, ◌≢◌, refl, sym, ◌∙◌, ◌⊎◌, Option, some, List, [], ◌∷◌, arith, length,
}
use carrotos.Fat32.Disk.{Disk}
use carrotos.Fat32.Volume.{Partition}
use carrotos.Fat32.Table.{fat32_eoc, fat32_get_fat_entry, fat32_set_fat_entry, free_chain}
use carrotos.Fat32.Geometry.{IsVolume, IsEntry, SamePlace}
use carrotos.Fat32.Entries.{IsUpdated, fat32_set_fat_entry-IsUpdated}

-- `c` is none of the clusters of a list.
abbrev pub IsNone : ℕ → List ℕ → Type 0
IsNone c [] = Unit
IsNone c (b ∷ cs) = (b ≢ c) × IsNone c cs

-- The clusters from `c` on, each the entry of the one before it, up to a value that ends a chain.
pub data IsChain (part : Partition) (d : Disk) : ℕ → List ℕ → Type 0 where
  ended : (c : ℕ) → (c < 2) ⊎ (fat32_eoc ≤ c) → IsChain part d c []
  linked :
      (c : ℕ) {cs : List ℕ}
      → 2 ≤ c
      → IsEntry part d c
      → IsNone c cs
      → IsChain part d (fat32_get_fat_entry part d c) cs
      → IsChain part d c (c ∷ cs)

pub data IsIn (b : ℕ) : List ℕ → Type 0 where
  head : {cs : List ℕ} → IsIn b (b ∷ cs)
  tail : {c : ℕ} {cs : List ℕ} → IsIn b cs → IsIn b (c ∷ cs)

-- The clusters of `cs` are blank in `e`, and every other entry is that of `d`.
pub record IsFreed (part : Partition) (d e : Disk) (cs : List ℕ) : Type 0 where
  pub volume : IsVolume part e
  pub place : SamePlace part d e
  pub blank : (b : ℕ) → IsIn b cs → fat32_get_fat_entry part e b ≡ 0
  pub others :
      (b : ℕ)
      → IsEntry part d b
      → IsNone b cs
      → fat32_get_fat_entry part e b ≡ fat32_get_fat_entry part d b

-- What is known of the disk once the loop has come to its end.
pub record Frees (part : Partition) (d : Disk) (cs : List ℕ) (r : Option Disk) : Type 0 where
  pub end : Disk
  pub returns : r ≡ some end
  pub freed : IsFreed part d end cs

module _ (part : Partition) where
  -- A chain that does not come to the cluster that was set is still a chain.
  IsChain-keep :
      (d e : Disk) (c value : ℕ) {b : ℕ} {cs : List ℕ}
      → IsUpdated part d e c value
      → IsChain part d b cs
      → IsNone c cs
      → IsChain part e b cs
  IsChain-keep d e c value set (ended b over) none = ended b over
  IsChain-keep d e c value set (linked b low high new rest) (other, none) =
      linked b low (rw set.place.same_bpb high) new
        (rw (set.others b high other) (IsChain-keep d e c value set rest none))

  IsFreed-first_of :
      (d e f : Disk) (c : ℕ) (cs : List ℕ)
      → IsEntry part d c
      → IsNone c cs
      → IsUpdated part d e c 0
      → IsFreed part e f cs
      → IsFreed part d f (c ∷ cs)
  IsFreed-first_of d e f c cs inside new set rest = record {
    volume = rest.volume;
    place = record {
      same_lba = rest.place.same_lba ∙ set.place.same_lba;
      same_bpb = rest.place.same_bpb ∙ set.place.same_bpb;
    };
    blank = blank;
    others = λ b h none.
        rest.others b (rw set.place.same_bpb h) none.1 ∙ set.others b h (λ x. none.0 (sym x));
  }
    where
      blank : (b : ℕ) → IsIn b (c ∷ cs) → fat32_get_fat_entry part f b ≡ 0
      blank _ IsIn.head = rest.others c (rw set.place.same_bpb inside) new ∙ set.entry
      blank b (IsIn.tail h) = rest.blank b h

  -- The loop at a cluster of the chain, and at a value that ends it.
  free_chain_on :
      (fuel : ℕ) (d : Disk) (c : ℕ)
      → 2 ≤ c
      → c < fat32_eoc
      → free_chain (suc fuel) part d c
        ≡ free_chain fuel part (fat32_set_fat_entry part d c 0) (fat32_get_fat_entry part d c)
  unfolding free_chain
  free_chain_on fuel d c low high = ground arith

  free_chain_over :
      (fuel : ℕ) (d : Disk) (c : ℕ)
      → (c < 2) ⊎ (fat32_eoc ≤ c)
      → free_chain (suc fuel) part d c ≡ some d
  unfolding free_chain
  free_chain_over fuel d c over = ground arith

  -- On a well-formed volume, the loop started at the first cluster of a chain ends within one turn
  -- more than the chain has clusters; it makes them all blank and changes no other entry.
  pub free_chain-Frees :
      (fuel : ℕ) (d : Disk) (c : ℕ) (cs : List ℕ)
      → IsVolume part d
      → IsChain part d c cs
      → length cs < fuel
      → Frees part d cs (free_chain fuel part d c)
  free_chain-Frees zero d c cs v chain enough = absurd (omega arith)
  free_chain-Frees (suc fuel) d c _ v (ended _ over) enough = record {
    end = d;
    returns = free_chain_over fuel d c over;
    freed = record {
      volume = v;
      place = record { same_lba = refl; same_bpb = refl };
      blank = λ b h. elim h [ ];
      others = λ b h none. refl;
    };
  }
  free_chain-Frees (suc fuel) d c _ v (linked _ {cs = cs} low high new rest) enough =
      let e = fat32_set_fat_entry part d c 0 in
      let set : IsUpdated part d e c 0 = fat32_set_fat_entry-IsUpdated part d v c 0 high in
      let later : Frees part e cs (free_chain fuel part e (fat32_get_fat_entry part d c)) =
        free_chain-Frees fuel e (fat32_get_fat_entry part d c) cs set.volume
          (IsChain-keep d e c 0 set rest new) (omega arith) in
      record {
        end = later.end;
        returns = free_chain_on fuel d c low (omega (arith, v.small)) ∙ later.returns;
        freed = IsFreed-first_of d e later.end c cs high new set later.freed;
      }
