-- ===== src/Fat32/Endless.antt =====
-- `fat32_stat` of fat32.h at the end of a directory without the name.
use carrotos.Base.{ℕ, zero, suc, ◌≡◌, refl, none}
use carrotos.Text.{Text, strlen}
use carrotos.Fat32.Disk.{Buf, Disk}
use carrotos.Fat32.Volume.{Partition, read_cluster, cluster_size}
use carrotos.Fat32.Table.{get_next_cluster}
use carrotos.Fat32.Name.{format_name_83}
use carrotos.Fat32.Stat.{go_on, scan_stat, stat_loop}

-- Cluster 0 cannot be read, and the buffer stays as it is.
read_cluster_zero :
    (part : Partition) (d : Disk) (buffer : Buf)
    → (read_cluster part d 0 buffer cluster_size).1 ≡ buffer
unfolding read_cluster
read_cluster_zero part d buffer = refl

-- Once the walk of `fat32_stat` has come to cluster 0, the value at the end of a chain, with a
-- cluster in the buffer that neither has the name nor an entry without attributes, and the table
-- leads from cluster 0 to no other, no number of turns is enough: the loop never ends.
pub stat_loop_endless :
    (part : Partition) (d : Disk) (name : Text) (parent : ℕ) (buffer : Buf)
    → scan_stat 128 0 buffer (format_name_83 name) (strlen name) ≡ go_on
    → get_next_cluster part d 0 ≡ 0
    → (fuel : ℕ) → stat_loop fuel part d name parent 0 buffer ≡ none
unfolding stat_loop
stat_loop_endless part d name parent buffer nowhere again zero = refl
stat_loop_endless part d name parent buffer nowhere again (suc fuel) =
    rw (stat_loop, read_cluster_zero part d buffer, nowhere, again)
      (stat_loop_endless part d name parent buffer nowhere again fuel)
