-- ===== src/Fat32/Turns.antt =====
-- The loop of `fat32_read_file_bytes` of fat32.h along a run of clusters, turn by turn.
use carrotos.Base.{
  ℕ, zero, suc, ◌+◌, ◌-◌, ◌*◌, ◌≤◌, ◌<◌, ◌≡◌, refl, sym, ap, ◌∙◌, true, false, min, List, [], ◌∷◌,
  leb, ltb, arith, if◌then◌else◌, length, dec_lt, ◌&&◌,
}
use carrotos.Fat32.Disk.{Buf, Disk, copy_bytes}
use carrotos.Fat32.Volume.{Partition, read_cluster, cluster_size}
use carrotos.Fat32.Table.{fat32_eoc, get_next_cluster}
use carrotos.Fat32.File.{ReadOutcome, has_read, is_read_ok, read_clusters}
use carrotos.Fat32.Reading.{
  cluster_byte, IsPaged, read_cluster_ok, read_cluster_bytes, IsRun, one, next, run_byte, Reads,
}

module _ (part : Partition) (d : Disk) (h : IsPaged part d) where
  after_one : (c : ℕ) → Buf → Buf
  after_one c tmp = (read_cluster part d c tmp cluster_size).1

  read_clusters_none :
      (fuel c offset total : ℕ) (tmp buf : Buf)
      → read_clusters (suc fuel) part d c offset 0 total tmp buf ≡ (has_read total, buf)
  unfolding read_clusters
  read_clusters_none fuel c offset total tmp buf = refl

  read_clusters_turn :
      (fuel c offset size total : ℕ) (tmp buf : Buf)
      → 2 ≤ c
      → c < fat32_eoc
      → 0 < size
      → let to_copy = min (cluster_size - offset) size in
        read_clusters (suc fuel) part d c offset size total tmp buf
        ≡ read_clusters fuel part d
            (if ltb 0 (size - to_copy) then get_next_cluster part d c else c)
            0
            (size - to_copy)
            (total + to_copy)
            (after_one c tmp)
            (copy_bytes buf total (after_one c tmp) offset to_copy)
  unfolding read_clusters after_one is_read_ok
  read_clusters_turn fuel c offset size total tmp buf low high some_left =
      let test : ltb 0 size ≡ true = ground arith in
      let inside : ltb c fat32_eoc ≡ true = ground arith in
      rw (read_clusters, test, inside, read_cluster_ok part d h c tmp low) refl

  -- The bytes of one turn, before what the later turns read.
  copied :
      (c offset n total j : ℕ) (tmp buf : Buf)
      → 2 ≤ c
      → offset + n ≤ 4096
      → j < n
      → copy_bytes buf total (after_one c tmp) offset n (total + j)
        ≡ cluster_byte part d c (offset + j)
  unfolding copy_bytes after_one
  copied c offset n total j tmp buf low fits inside =
      let test : (leb total (total + j) && ltb (total + j) (total + n)) ≡ true = ground arith in
      let place : offset + (total + j - total) ≡ offset + j = omega arith in
      rw (copy_bytes, test, place)
        (read_cluster_bytes part d h c tmp (offset + j) low (omega arith))

  uncopied :
      (offset n total k : ℕ) (tmp buf : Buf)
      → k < total
      → copy_bytes buf total tmp offset n k ≡ buf k
  unfolding copy_bytes
  uncopied offset n total k tmp buf before = ground arith

  first_byte :
      (c p : ℕ) (cs : List ℕ) → p < 4096 → run_byte part d (c ∷ cs) p ≡ cluster_byte part d c p
  first_byte c p cs low = let test : ltb p 4096 ≡ true = ground arith in rw test refl

  pub later_byte :
      (c p q : ℕ) (cs : List ℕ) → p ≡ 4096 + q → run_byte part d (c ∷ cs) p ≡ run_byte part d cs q
  later_byte c p q cs e =
      let test : ltb p 4096 ≡ false = ground arith in
      let rest : p - 4096 ≡ q = omega arith in rw (test, rest) refl

  -- The turn that reads all that is left.
  last_turn :
      (fuel c offset size total : ℕ) (tmp buf : Buf) (cs : List ℕ)
      → 2 ≤ c
      → c < fat32_eoc
      → 0 < size
      → offset + size ≤ 4096
      → Reads part d
          (c ∷ cs)
          offset
          size
          total
          buf
          (read_clusters (suc (suc fuel)) part d c offset size total tmp buf)
  last_turn fuel c offset size total tmp buf cs low high some_left fits =
      let all : min (cluster_size - offset) size ≡ size = omega arith in
      let none_left : size - size ≡ 0 = omega arith in
      rw
        (
          read_clusters_turn (suc fuel) c offset size total tmp buf low high some_left,
          all,
          none_left,
          read_clusters_none fuel c 0 (total + size) (after_one c tmp)
              (copy_bytes buf total (after_one c tmp) offset size),
        )
        (record {
          count = refl;
          stored = λ j inside.
              copied c offset size total j tmp buf low fits inside
              ∙ sym (first_byte c (offset + j) cs (omega arith));
          kept = λ k before. uncopied offset size total k (after_one c tmp) buf before;
        })

  -- A turn that reads the rest of a cluster, and what the turns after it make of the buffer.
  later_turn :
      (c offset size total : ℕ) (tmp buf : Buf) (cs : List ℕ) (r : ReadOutcome × Buf)
      → 2 ≤ c
      → offset < 4096
      → 4096 < offset + size
      → Reads part d cs 0
          (size - (4096 - offset))
          (total + (4096 - offset))
          (copy_bytes buf total (after_one c tmp) offset (4096 - offset))
          r
      → Reads part d (c ∷ cs) offset size total buf r
  later_turn c offset size total tmp buf cs r low inside over rest = record {
    count = rest.count ∙ ap has_read (omega arith);
    stored = λ j below. elim (dec_lt j (4096 - offset)) [
      | yes early ↦
          rest.kept (total + j) (omega arith)
          ∙ copied c offset (4096 - offset) total j tmp buf low (omega arith) early
          ∙ sym (first_byte c (offset + j) cs (omega arith))
      | no late ↦
          ap (λ k. r.1 k) (omega arith)
          ∙ rest.stored (j - (4096 - offset)) (omega arith)
          ∙ sym (later_byte c (offset + j) (0 + (j - (4096 - offset))) cs (omega arith))
    ];
    kept = λ k before.
        rest.kept k (omega arith)
        ∙ uncopied offset (4096 - offset) total k (after_one c tmp) buf before;
  }

  pub read_clusters-Reads :
      (fuel c offset size total : ℕ) (tmp buf : Buf) (cs : List ℕ)
      → IsRun part d c cs
      → offset < 4096
      → offset + size ≤ length cs * 4096
      → size < fuel
      → Reads part d cs offset size total buf
          (read_clusters fuel part d c offset size total tmp buf)
  read_clusters-Reads zero c offset size total tmp buf cs run inside fits enough =
      absurd (omega arith)
  read_clusters-Reads (suc fuel) c offset zero total tmp buf cs run inside fits enough =
      rw (read_clusters_none fuel c offset total tmp buf) (record {
        count = ap has_read (omega arith);
        stored = λ j low. absurd (omega arith);
        kept = λ k low. refl;
      })
  read_clusters-Reads (suc zero) c offset (suc m) total tmp buf cs run inside fits enough =
      absurd (omega arith)
  read_clusters-Reads (suc (suc fuel)) c offset (suc m) total tmp buf _ (one _ low high) inside fits
        enough =
      last_turn fuel c offset (suc m) total tmp buf [] low high (omega arith) (omega arith)
  read_clusters-Reads (suc (suc fuel)) c offset (suc m) total tmp buf _
        (next _ {cs = cs} low high run) inside fits enough =
      elim (dec_lt 4096 (offset + suc m)) [
        | yes over ↦
            let part_of_it : min (cluster_size - offset) (suc m) ≡ 4096 - offset = omega arith in
            let more : ltb 0 (suc m - (4096 - offset)) ≡ true = ground arith in
            rw
              (
                read_clusters_turn (suc fuel) c offset (suc m) total tmp buf low high (omega arith),
                part_of_it,
                more,
              )
              (later_turn c offset (suc m) total tmp buf cs _ low inside over (
                read_clusters-Reads (suc fuel) (get_next_cluster part d c) 0
                  (suc m - (4096 - offset)) (total + (4096 - offset)) (after_one c tmp) _ cs run
                  (omega arith) (omega arith) (omega arith)))
        | no within ↦
            last_turn fuel c offset (suc m) total tmp buf cs low high (omega arith) (omega arith)
      ]
