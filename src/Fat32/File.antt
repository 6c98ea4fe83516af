-- ===== src/Fat32/File.antt =====
-- Reading and writing the bytes of a file, fat32.h. `none` says that a number of turns was not
-- enough for one of the loops along a directory.
use carrotos.Base.{
  ℕ, zero, suc, ◌+◌, ◌-◌, ◌/◌, ◌%◌, ◌^◌, Bool, true, false, min, Option, none, some, ◌==◌, leb, ltb,
  if◌then◌else◌,
}
use carrotos.Text.{Text}
use carrotos.Fat32.Disk.{Buf, Disk, copy_bytes}
use carrotos.Fat32.Volume.{
  Partition, ReadResult, read_ok, too_low, too_small, unreadable, read_cluster, write_cluster,
  cluster_size,
}
use carrotos.Fat32.Table.{
  fat32_eoc, get_next_cluster, find_blank_cluster, expand_file, fat32_set_fat_entry,
}
use carrotos.Fat32.Lookup.{find_cluster_from_path, get_file_size}
use carrotos.Fat32.Update.{set_file_first_cluster, set_file_size}

-- The cluster after `skip` more ones; `none` is the return before the end of the loop.
unfoldable pub skip_clusters : ℕ → Partition → Disk → (cluster : ℕ) → Option ℕ
unfolding get_next_cluster
skip_clusters zero part d cluster = some cluster
skip_clusters (suc n) part d cluster =
    let next = get_next_cluster part d cluster in
    let rest = skip_clusters n part d next in if leb fat32_eoc next then none else rest

-- What `fat32_read_file_bytes` returns: -1, -2, -3 or a number of bytes.
pub data ReadOutcome : Type 0 where
  not_found bad_cluster unreadable_cluster : ReadOutcome
  has_read : (total : ℕ) → ReadOutcome

unfoldable pub is_read_ok : ReadResult → Bool
is_read_ok read_ok = true
is_read_ok too_low = false
is_read_ok too_small = false
is_read_ok unreadable = false

-- One cluster's turn of the loop reads at most what is left of the cluster. Every turn but the
-- first reads a whole cluster or all that is left, so `size` turns are enough.
unfoldable pub read_clusters :
    ℕ
    → Partition
    → Disk
    → (cluster : ℕ) → (offset_in_cluster size total_read : ℕ) → (tmp buf : Buf) → ReadOutcome × Buf
unfolding read_cluster copy_bytes get_next_cluster is_read_ok
read_clusters zero part d cluster offset size total tmp buf = (has_read total, buf)
read_clusters (suc fuel) part d cluster offset size total tmp buf =
    let (result, tmp1) = read_cluster part d cluster tmp cluster_size in
    let to_copy = min (cluster_size - offset) size in
    let left = size - to_copy in
    let buf1 = copy_bytes buf total tmp1 offset to_copy in
    let next = if ltb 0 left then get_next_cluster part d cluster else cluster in
    let rest = read_clusters fuel part d next 0 left (total + to_copy) tmp1 buf1 in
    if ltb 0 size
    then if ltb cluster fat32_eoc
      then if is_read_ok result then rest else (unreadable_cluster, buf)
      else (has_read total, buf)
    else (has_read total, buf)

unfoldable pub read_from : Option ℕ → (ℕ → ReadOutcome × Buf) → Buf → ReadOutcome × Buf
read_from none rest buf = (bad_cluster, buf)
read_from (some cluster) rest buf = rest cluster

-- The size asked for is cut at the end of the file.
abbrev pub size_in_file : (file_size offset size : ℕ) → ℕ
size_in_file file_size offset size =
    if ltb file_size ((offset + size) % 2 ^ 64) then file_size - offset else size

unfoldable pub fat32_read_file_bytes :
    Partition → Disk → Text → Buf → (offset size : ℕ) → ReadOutcome × Buf
unfolding read_from skip_clusters read_clusters get_file_size find_cluster_from_path
fat32_read_file_bytes part d path buf offset size =
    let cluster = find_cluster_from_path part d path in
    let file_size = get_file_size part d path in
    let wanted = size_in_file file_size offset size in
    if cluster == 0
    then (not_found, buf)
    else if leb file_size offset
    then (has_read 0, buf)
    else read_from (skip_clusters (offset / cluster_size) part d cluster)
        (λ c. read_clusters (suc wanted) part d c (offset % cluster_size) wanted 0 part.stack buf)
        buf

-- What `fat32_write_file_bytes` returns: 0, or -2 to -7.
pub data WriteOutcome : Type 0 where
  written past_end short_chain unreadable_block unwritable no_blank disk_full : WriteOutcome

-- One cluster's turn of the loop: the count of the bytes written where it ends well.
unfoldable pub write_clusters :
    ℕ
    → Partition
    → (cluster : ℕ) → (offset_in_cluster size total_written : ℕ) → (buf : Buf) → Disk
    → (WriteOutcome × ℕ) × Disk
unfolding read_cluster write_cluster copy_bytes get_next_cluster expand_file is_read_ok
write_clusters zero part cluster offset size total buf d = ((written, total), d)
write_clusters (suc fuel) part cluster offset size total buf d =
    let (result, tmp) = read_cluster part d cluster (λ i. 0) cluster_size in
    let to_copy = min (cluster_size - offset) size in
    let left = size - to_copy in
    let (stored, d1) = write_cluster part d cluster (copy_bytes tmp offset buf total to_copy) in
    let next = get_next_cluster part d1 cluster in
    let (hung, d2) = expand_file part d1 next in
    let last : (WriteOutcome × ℕ) × Disk = ((written, total + to_copy), d1) in
    let along = write_clusters fuel part next 0 left (total + to_copy) buf d1 in
    let expanded = write_clusters fuel part hung 0 left (total + to_copy) buf d2 in
    if ltb 0 size
    then if ltb cluster fat32_eoc
      then if is_read_ok result
        then if stored
          then if ltb 0 left
            then if leb fat32_eoc next
              then if hung == 0 then ((disk_full, total + to_copy), d2) else expanded
              else along
            else last
          else ((unwritable, total), d1)
        else ((unreadable_block, total), d)
      else ((written, total), d)
    else ((written, total), d)

-- The cluster a write begins at, and the disk: a blank one becomes the file's first where the
-- path has none.
unfoldable pub with_cluster :
    ℕ
    → Partition
    → Disk
    → Text
    → (ℕ → Disk → Option (WriteOutcome × Disk))
    → Option (WriteOutcome × Disk)
unfolding find_cluster_from_path find_blank_cluster fat32_set_fat_entry set_file_first_cluster
with_cluster fuel part d path rest =
    let cluster = find_cluster_from_path part d path in
    let blank = find_blank_cluster part d in
    let marked = fat32_set_fat_entry part d blank fat32_eoc in
    if cluster == 0
    then if ltb blank 2
      then some (no_blank, d)
      else elim (set_file_first_cluster fuel part marked path blank) [
        | none ↦ none
        | some e ↦ rest blank e
      ]
    else rest cluster d

-- The new size is stored where a write that ended well went past the old one.
unfoldable pub finish_write :
    ℕ
    → Partition
    → Text
    → (file_size offset : ℕ) → (WriteOutcome × ℕ) × Disk
    → Option (WriteOutcome × Disk)
unfolding set_file_size
finish_write fuel part path file_size offset ((written, total), d) =
    if ltb file_size (offset + total)
    then elim (set_file_size fuel part d path (offset + total)) [
      | none ↦ none
      | some e ↦ some (written, e)
    ]
    else some (written, d)
finish_write fuel part path file_size offset ((outcome, total), d) = some (outcome, d)

unfoldable pub write_from :
    Option ℕ → Disk → (ℕ → Option (WriteOutcome × Disk)) → Option (WriteOutcome × Disk)
write_from none d rest = some (short_chain, d)
write_from (some cluster) d rest = rest cluster

unfoldable pub fat32_write_file_bytes :
    ℕ → Partition → Disk → Text → Buf → (offset size : ℕ) → Option (WriteOutcome × Disk)
unfolding with_cluster finish_write write_from skip_clusters write_clusters get_file_size
fat32_write_file_bytes fuel part d path buf offset size =
    with_cluster fuel part d path (λ cluster e.
      let file_size = get_file_size part e path in
      if ltb file_size offset
      then some (past_end, e)
      else write_from (skip_clusters (offset / cluster_size) part e cluster) e (λ c.
        finish_write fuel part path file_size offset
          (write_clusters (suc size) part c (offset % cluster_size) size 0 buf e)))
