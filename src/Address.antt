-- ===== src/Address.antt =====
-- `compute_hi_lo` of Ensamblador/assembler.py.
pub mod HiLo
use procesador_32_bits.Base.{
  ℕ, ◌+◌, ◌*◌, ◌%◌, ◌^◌, Bool, true, false, ◌==◌, ltb, leb, if◌then◌else◌,
}
use procesador_32_bits.Base.Int.{ℤ, pos, times_four, leb_ℤ, low_bits, shift_right, or_mask}

-- A word index below 0x01000000 becomes a byte address of the ROM; any other address stays.
unfoldable pub target_address : ℤ → ℤ
target_address address =
    if leb_ℤ 0x01000000 address then address else or_mask (times_four address) 0xFFF00000

-- One is added to the upper half when ADI will extend the sign of the lower half.
abbrev compensate : ℕ → ℕ → ℕ × ℕ
compensate high16 low16 =
    if leb 0x8000 low16 then ((high16 + 1) % 2 ^ 16, low16) else (high16, low16)

unfoldable pub compute_hi_lo : ℤ → ℕ × ℕ
unfolding target_address
compute_hi_lo address =
    let target = target_address address in
    compensate (low_bits 16 (shift_right 16 target)) (low_bits 16 target)
