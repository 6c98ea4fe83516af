-- ===== src/Fat32/Whole.antt =====
-- Reading from a file of fat32.h at an offset: `fat32_read_file_bytes` from end to end.
use carrotos.Base.{
  ℕ, zero, suc, ◌+◌, ◌-◌, ◌*◌, ◌/◌, ◌%◌, ◌^◌, ◌≤◌, ◌<◌, ◌≡◌, refl, sym, ap, ◌∙◌, false, min, Option,
  some, List, [], ◌∷◌, ◌==◌, leb, arith, length, drop, length-drop,
}
use carrotos.Text.{Text}
use carrotos.Fat32.Disk.{Buf, Disk}
use carrotos.Fat32.Volume.{Partition, cluster_size}
use carrotos.Fat32.Table.{fat32_eoc, get_next_cluster}
use carrotos.Fat32.Lookup.{find_cluster_from_path, get_file_size}
use carrotos.Fat32.File.{
  has_read, read_clusters, read_from, skip_clusters, size_in_file, fat32_read_file_bytes,
}
use carrotos.Fat32.Reading.{IsPaged, IsRun, one, next, run_byte}
use carrotos.Fat32.Turns.{later_byte, read_clusters-Reads}

module _ (part : Partition) (d : Disk) (h : IsPaged part d) where
  run_low : (c : ℕ) (cs : List ℕ) → IsRun part d c cs → (2 ≤ c) × (c < fat32_eoc)
  run_low c _ (one _ low high) = (low, high)
  run_low c _ (next _ low high rest) = (low, high)

  -- Where `skip_clusters` comes to in a run that is long enough.
  record Skips (cs : List ℕ) (n : ℕ) (r : Option ℕ) : Type 0 where
    cluster : ℕ
    returns : r ≡ some cluster
    run : IsRun part d cluster (drop n cs)

  skip_clusters-Skips :
      (n c : ℕ) (cs : List ℕ)
      → IsRun part d c cs
      → n < length cs
      → Skips cs n (skip_clusters n part d c)
  unfolding skip_clusters
  skip_clusters-Skips zero c cs run inside = record { cluster = c; returns = refl; run = run }
  skip_clusters-Skips (suc n) c _ (one _ low high) inside = absurd (omega arith)
  skip_clusters-Skips (suc n) c _ (next _ {cs = cs} low high run) inside =
      let later = skip_clusters-Skips n (get_next_cluster part d c) cs run (omega arith) in
      let bounds = run_low (get_next_cluster part d c) cs run in
      let test : leb fat32_eoc (get_next_cluster part d c) ≡ false = ground arith in
      record { cluster = later.cluster; returns = rw test later.returns; run = later.run }

  run_byte-drop :
      (n p q : ℕ) (cs : List ℕ)
      → n < length cs
      → q ≡ n * 4096 + p
      → run_byte part d (drop n cs) p ≡ run_byte part d cs q
  run_byte-drop zero p q cs inside e = ap (run_byte part d cs) (omega arith)
  run_byte-drop (suc n) p q [] inside e = absurd (omega arith)
  run_byte-drop (suc n) p q (c ∷ cs) inside e =
      run_byte-drop n p (q - 4096) cs (omega arith) (omega arith)
      ∙ sym (later_byte part d h c q (q - 4096) cs (omega arith))

-- On a volume with clusters of 4096 bytes, a read of `size` bytes from an offset inside a file,
-- whose clusters are a run long enough for the file's size, returns the number of bytes that are
-- both asked for and in the file, and brings exactly the file's bytes from the offset on into the
-- buffer.
pub fat32_read_file_bytes_reads :
    (part : Partition) (d : Disk) (path : Text) (buf : Buf) (offset size : ℕ) (cs : List ℕ)
    → IsPaged part d
    → IsRun part d (find_cluster_from_path part d path) cs
    → get_file_size part d path ≤ length cs * 4096
    → offset < get_file_size part d path
    → offset + size < 2 ^ 64
    → let n = min size (get_file_size part d path - offset) in
      let r = fat32_read_file_bytes part d path buf offset size in
      (r.0 ≡ has_read n) × ((j : ℕ) → j < n → r.1 j ≡ run_byte part d cs (offset + j))
unfolding fat32_read_file_bytes read_from
fat32_read_file_bytes_reads part d path buf offset size cs h run long inside small =
    let bounds = run_low part d h (find_cluster_from_path part d path) cs run in
    let found : (find_cluster_from_path part d path == 0) ≡ false = ground arith in
    let before : leb (get_file_size part d path) offset ≡ false = ground arith in
    let wanted : size_in_file (get_file_size part d path) offset size
        ≡ min size (get_file_size part d path - offset) =
      ground arith in
    let skip =
      skip_clusters-Skips part d h (offset / cluster_size) (find_cluster_from_path part d path) cs
        run (omega arith) in
    let n = min size (get_file_size part d path - offset) in
    let fits : offset % 4096 + n ≤ length (drop (offset / 4096) cs) * 4096 =
      rw (length-drop (offset / 4096) cs) (omega arith) in
    let reads =
      read_clusters-Reads part d h (suc n) skip.cluster (offset % 4096) n 0 part.stack buf
        (drop (offset / 4096) cs) skip.run (omega arith) fits (omega arith) in
    rw (found, before, wanted, skip.returns)
      (
        reads.count ∙ ap has_read (omega arith),
        λ j low.
            ap (read_clusters (suc n) part d skip.cluster (offset % 4096) n 0 part.stack buf).1
              (omega arith)
            ∙ reads.stored j low
            ∙ run_byte-drop part d h (offset / 4096) (offset % 4096 + j) (offset + j) cs
                (omega arith) (omega arith),
      )
