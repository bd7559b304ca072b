-- ===== src/Address/HiLo.antt =====
-- The two halves of `compute_hi_lo` rebuild the address they were made from.
use procesador_32_bits.Base.{
  ℕ, ◌+◌, ◌*◌, ◌%◌, ◌^◌, ◌<◌, ◌≤◌, ◌≡◌, arith, leb, if◌then◌else◌, bit_or_low, bit_or_comm,
}
use procesador_32_bits.Base.Int.{ℤ, pos, negsuc, low_bits, shift_right}
use procesador_32_bits.Address.{target_address, compensate, compute_hi_lo}

-- A register after `H LDI R, hi` on a cleared register and `SLT ADI R, lo`: the upper half, plus
-- the lower half with its sign extended to 32 bits.
abbrev pub sign_extend : ℕ → ℕ
sign_extend lo = if leb 0x8000 lo then lo + 0xFFFF0000 else lo

abbrev pub load : ℕ × ℕ → ℕ
load halves = (halves.0 * 2 ^ 16 + sign_extend halves.1) % 2 ^ 32

-- Both halves fit 16 bits.
pub compute_hi_lo-lt :
    (address : ℤ) → ((compute_hi_lo address).0 < 2 ^ 16) × ((compute_hi_lo address).1 < 2 ^ 16)
unfolding compute_hi_lo
compute_hi_lo-lt (pos n) = ground arith
compute_hi_lo-lt (negsuc n) = ground arith

load-compensate :
    (t : ℤ) → load (compensate (low_bits 16 (shift_right 16 t)) (low_bits 16 t)) ≡ low_bits 32 t
load-compensate (pos n) = ground arith
load-compensate (negsuc n) = ground arith

-- Loading the two halves gives the target address modulo 2 ** 32, whether or not ADI borrows.
pub load-compute_hi_lo :
    (address : ℤ) → load (compute_hi_lo address) ≡ low_bits 32 (target_address address)
unfolding compute_hi_lo
load-compute_hi_lo address = unfold compute_hi_lo in load-compensate (target_address address)

-- A word index inside the megabyte of ROM goes to 0xFFF00000 plus four times the index.
pub target_address_rom : (n : ℕ) → n < 2 ^ 18 → target_address (pos n) ≡ pos (0xFFF00000 + 4 * n)
unfolding target_address
target_address_rom n h =
    ground (arith, bit_or_comm (n * 4) 0xFFF00000, bit_or_low 20 0xFFF (n * 4) (omega arith))

pub target_address_physical : (n : ℕ) → 0x01000000 ≤ n → target_address (pos n) ≡ pos n
unfolding target_address
target_address_physical n h = ground arith

-- Loading the halves of a word index of the ROM gives the byte address of that word.
pub load_rom : (n : ℕ) → n < 2 ^ 18 → load (compute_hi_lo (pos n)) ≡ 0xFFF00000 + 4 * n
load_rom n h = rw (load-compute_hi_lo, target_address_rom n h) (omega arith)

-- Loading the halves of a 32-bit physical address gives the address.
pub load_physical : (n : ℕ) → 0x01000000 ≤ n → n < 2 ^ 32 → load (compute_hi_lo (pos n)) ≡ n
load_physical n h k = rw (load-compute_hi_lo, target_address_physical n h) (omega arith)
