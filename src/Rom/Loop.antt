-- ===== src/Rom/Loop.antt =====
-- The loop of `write_rom_logisim` over the rows, without fuel.
use procesador_32_bits.Base.{
  ℕ, zero, suc, ◌+◌, ◌*◌, ◌/◌, ◌<◌, ◌≤◌, ◌≡◌, Bool-cases, inl, inr, true, false, List, [], ◌∷◌, leb,
  arith,
}
use procesador_32_bits.Text.{Text}
use procesador_32_bits.Rom.{ByteMap, row_bytes, any_byte, row_line, write_rows, last_row_of}

-- The loop from a row on, with the lines that it has written when it ends: `while row <= last_row`.
pub data Rows (last : ℕ) (m : ByteMap) : ℕ → List Text → Type 0 where
  ends : (row : ℕ) → last < row → Rows last m row []
  writes :
      (row : ℕ) (ls : List Text)
      → row ≤ last
      → any_byte (row_bytes 16 row m) ≡ true
      → Rows last m (row + 16) ls
      → Rows last m row (row_line row (row_bytes 16 row m) ∷ ls)
  skips :
      (row : ℕ) (ls : List Text)
      → row ≤ last
      → any_byte (row_bytes 16 row m) ≡ false
      → Rows last m (row + 16) ls
      → Rows last m row ls

write_rows-enough :
    (fuel row last : ℕ) (m : ByteMap)
    → last < row + 16 * fuel
    → Rows last m row (write_rows fuel row last m)
unfolding write_rows
write_rows-enough zero row last m h = ends row (omega arith)
write_rows-enough (suc fuel) row last m h = elim (Bool-cases (leb row last)) [
  | inl within ↦
      let rest = write_rows-enough fuel (row + 16) last m (omega arith) in
      elim (Bool-cases (any_byte (row_bytes 16 row m))) [
        | inl filled ↦ rw (within, filled) (writes row _ (ground arith) filled rest)
        | inr empty ↦ rw (within, empty) (skips row _ (ground arith) empty rest)
      ]
  | inr behind ↦ rw behind (ends row (ground arith))
]

-- Whatever the bytes, the loop over the rows of the file ends, behind the last row that has a byte,
-- and the lines that it has written then are those that `write_rows` gives on the fuel of `file_of`.
pub write_rows-Rows :
    (m : ByteMap)
    → Rows (last_row_of m) m 0 (write_rows (last_row_of m / 16 + 1) 0 (last_row_of m) m)
write_rows-Rows m = write_rows-enough (last_row_of m / 16 + 1) 0 (last_row_of m) m (omega arith)
