-- ===== src/Fat32/Mirrors.antt =====
-- What the sector writes of fat32.h change on a disk whose driver does not fail, and where the
-- copies of the file allocation table lie.
use native.Mathlib.Nat.{mul-le-mul_right, add-mul}
use carrotos.Base.{
  ℕ, zero, suc, ◌+◌, ◌*◌, ◌^◌, ◌≤◌, ◌<◌, ◌≡◌, ◌≢◌, refl, ◌∙◌, true, arith, ℕ_discrete,
}
use carrotos.Fat32.Disk.{Buf, Disk, write_sector, put_sector, u32}
use carrotos.Fat32.Table.{write_mirrors}

pub write_sector-put_sector :
    (d : Disk) (l : ℕ) (s : Buf) → d.writable l ≡ true → (write_sector d l s).1 ≡ put_sector d l s
unfolding write_sector
write_sector-put_sector d l s h = rw h refl

pub put_sector_self : (d : Disk) (l : ℕ) (s : Buf) → (put_sector d l s).bytes l ≡ s
unfolding put_sector
put_sector_self d l s = ground arith

pub put_sector_ne :
    (d : Disk) (l : ℕ) (s : Buf) {j : ℕ} → l ≢ j → (put_sector d l s).bytes j ≡ d.bytes j
unfolding put_sector
put_sector_ne d l s h = ground arith

-- The driver fails on no sector.
pub record IsReliable (d : Disk) : Type 0 where
  pub reads : (l : ℕ) → d.readable l ≡ true
  pub writes : (l : ℕ) → d.writable l ≡ true

pub put_sector-IsReliable :
    (d : Disk) (l : ℕ) (s : Buf) → IsReliable d → IsReliable (put_sector d l s)
unfolding put_sector
put_sector-IsReliable d l s h = record { reads = h.reads; writes = h.writes }

module _ (sector fat_size : ℕ) (s : Buf) where
  pub write_mirrors-IsReliable :
      (n i : ℕ) (d : Disk) → IsReliable d → IsReliable (write_mirrors n sector fat_size i s d)
  unfolding write_mirrors
  write_mirrors-IsReliable zero i d h = h
  write_mirrors-IsReliable (suc n) i d h =
      rw (write_mirrors, write_sector-put_sector d (u32 (sector + i * fat_size)) s (h.writes _))
        (write_mirrors-IsReliable n (i + 1) _ (put_sector-IsReliable d _ s h))

  -- A sector that none of the writes goes to.
  pub write_mirrors_missed :
      (n i : ℕ) (d : Disk) (l : ℕ)
      → IsReliable d
      → ((k : ℕ) → i ≤ k → k < i + n → u32 (sector + k * fat_size) ≢ l)
      → (write_mirrors n sector fat_size i s d).bytes l ≡ d.bytes l
  unfolding write_mirrors
  write_mirrors_missed zero i d l h away = refl
  write_mirrors_missed (suc n) i d l h away =
      rw (write_mirrors, write_sector-put_sector d (u32 (sector + i * fat_size)) s (h.writes _))
        (write_mirrors_missed n (i + 1) _ l (put_sector-IsReliable d _ s h)
            (λ k low high. away k (omega arith) (omega arith))
          ∙ put_sector_ne d (u32 (sector + i * fat_size)) s (away i (omega arith) (omega arith)))

  -- A sector that holds `s` goes on holding it.
  write_mirrors_kept :
      (n i : ℕ) (d : Disk) (l : ℕ)
      → IsReliable d
      → d.bytes l ≡ s
      → (write_mirrors n sector fat_size i s d).bytes l ≡ s
  unfolding write_mirrors
  write_mirrors_kept zero i d l h e = e
  write_mirrors_kept (suc n) i d l h e =
      rw (write_mirrors, write_sector-put_sector d (u32 (sector + i * fat_size)) s (h.writes _))
        (write_mirrors_kept n (i + 1) _ l (put_sector-IsReliable d _ s h)
          (elim (ℕ_discrete (u32 (sector + i * fat_size)) l) [
            | yes same ↦ rw (← same) (put_sector_self d (u32 (sector + i * fat_size)) s)
            | no other ↦ put_sector_ne d (u32 (sector + i * fat_size)) s other ∙ e
          ]))

  -- Every sector that is written to holds `s`.
  pub write_mirrors_hit :
      (n i : ℕ) (d : Disk) (k : ℕ)
      → IsReliable d
      → i ≤ k
      → k < i + n
      → (write_mirrors n sector fat_size i s d).bytes (u32 (sector + k * fat_size)) ≡ s
  unfolding write_mirrors
  write_mirrors_hit zero i d k h low high = absurd (omega arith)
  write_mirrors_hit (suc n) i d k h low high =
      rw (write_mirrors, write_sector-put_sector d (u32 (sector + i * fat_size)) s (h.writes _))
        (elim (ℕ_discrete i k) [
          | yes same ↦ rw (← same) (
              write_mirrors_kept n (i + 1) _ _ (put_sector-IsReliable d _ s h)
                (put_sector_self d (u32 (sector + i * fat_size)) s))
          | no other ↦
              write_mirrors_hit n (i + 1) _ k (put_sector-IsReliable d _ s h) (omega arith)
                (omega arith)
        ])

-- Where the copy_bytes number `k` of a sector of the first table lies: behind the first table, before the
-- end of the last.
pub mirror_place :
    (start sector fat_size num_fats k : ℕ)
    → start ≤ sector
    → sector < start + fat_size
    → start + num_fats * fat_size ≤ 2 ^ 32
    → 1 ≤ k
    → k < num_fats
    → (u32 (sector + k * fat_size) ≡ sector + k * fat_size)
      × (start + fat_size ≤ sector + k * fat_size)
      × (sector + k * fat_size < start + num_fats * fat_size)
mirror_place start sector fat_size num_fats k low high fits first last =
    let lower : 1 * fat_size ≤ k * fat_size = mul-le-mul_right fat_size first in
    let upper : (k + 1) * fat_size ≤ num_fats * fat_size =
      mul-le-mul_right fat_size (omega arith) in
    let turn : (k + 1) * fat_size ≡ k * fat_size + 1 * fat_size = add-mul k 1 fat_size in
    (omega arith, omega arith, omega arith)
