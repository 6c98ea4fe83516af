-- ===== src/Fifo/Tests.antt =====
-- Runs of the byte ring on a table of four slots.
use carrotos.Base.{ℕ, ◌≡◌, refl, List, [], ◌∷◌, arith}
use carrotos.Fifo.{fifo_read8, fifo_write8, fifo_write16, fifo_write_with_size}
use carrotos.Fifo.Cells.{
  IsSameWrite, no_units, one_more, unit_cells, fifo_write_with_size-fifo_write16,
}
use carrotos.Fifo.Queue.{IsRing, Reads, Writes, contents, fifo_read8_lem, fifo_write8_lem}

abbrev buffer : List ℕ
buffer = 10 ∷ 11 ∷ 12 ∷ 13 ∷ []

-- 13, then 10, round the end of the table.
buffer-IsRing : IsRing buffer 3 1 4
buffer-IsRing = record {
  fits = omega arith;
  tail_lt = omega arith;
  head_lt = omega arith;
  small = omega arith;
}

contents-buffer : contents 0 buffer 3 1 4 ≡ 13 ∷ 10 ∷ []
contents-buffer = refl

write_one_of_two :
    fifo_write8 buffer 3 1 4 (7 ∷ 8 ∷ [])
    ≡ record { count = 1; buf = 10 ∷ 7 ∷ 12 ∷ 13 ∷ []; head = 2 }
unfolding fifo_write8
write_one_of_two = refl

fifo_read8_lem_example : Reads 0 buffer 3 1 4 5 0 (fifo_read8 buffer 3 1 4 5)
fifo_read8_lem_example = fifo_read8_lem 5 buffer-IsRing

fifo_write8_lem_example :
    Writes 0 buffer 3 1 4 (7 ∷ 8 ∷ []) 0 (fifo_write8 buffer 3 1 4 (7 ∷ 8 ∷ []))
fifo_write8_lem_example = fifo_write8_lem (7 ∷ 8 ∷ []) buffer-IsRing

-- Units of two bytes, a table of three.
fifo_write_with_size-fifo_write16_example :
    IsSameWrite 2 3
      (fifo_write_with_size (1 ∷ 2 ∷ 3 ∷ 4 ∷ 5 ∷ 6 ∷ []) 1 2 3 ((8 ∷ 9 ∷ []) ∷ []) 2)
      (fifo_write16 (unit_cells 2 (1 ∷ 2 ∷ 3 ∷ 4 ∷ 5 ∷ 6 ∷ []) 0 3) 1 2 3 ((8 ∷ 9 ∷ []) ∷ []))
fifo_write_with_size-fifo_write16_example =
    fifo_write_with_size-fifo_write16 2 {size = 3} (omega arith) (1 ∷ 2 ∷ 3 ∷ 4 ∷ 5 ∷ 6 ∷ []) 1 2
      (one_more refl no_units) (omega arith) (omega arith)
