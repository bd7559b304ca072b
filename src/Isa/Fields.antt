-- ===== src/Isa/Fields.antt =====
-- The fields of a 32-bit instruction word, read by division and remainder, and what `build_word` puts
-- into them.
use procesador_32_bits.Base.{
  ◌<<◌, bit_or, ℕ, ◌+◌, ◌*◌, ◌/◌, ◌%◌, ◌^◌, ◌<◌, ◌≡◌, arith, bit_or_low, bit_and_mask,
}
use procesador_32_bits.Isa.{Mnemonic, opcode, build_word}

abbrev pub IsWord : ℕ → Type 0
IsWord w = w < 2 ^ 32

-- Bits 31 to 29, 28 to 24, 23 to 20, 19 to 16, 15 to 12, and 15 to 0.
abbrev pub tipo_of : ℕ → ℕ
tipo_of w = w / 2 ^ 29

abbrev pub opcode_of : ℕ → ℕ
opcode_of w = w / 2 ^ 24 % 2 ^ 5

abbrev pub operands_of : ℕ → ℕ
operands_of w = w % 2 ^ 24

abbrev pub reg_a_of : ℕ → ℕ
reg_a_of w = w / 2 ^ 20 % 2 ^ 4

abbrev pub reg_b_of : ℕ → ℕ
reg_b_of w = w / 2 ^ 16 % 2 ^ 4

abbrev pub reg_c_of : ℕ → ℕ
reg_c_of w = w / 2 ^ 12 % 2 ^ 4

abbrev pub imm_of : ℕ → ℕ
imm_of w = w % 2 ^ 16

pub opcode-lt : (m : Mnemonic) → opcode m < 2 ^ 5
unfolding opcode
opcode-lt m = grind arith

-- The word as a sum of its fields.
pub build_word-sum :
    (tipo op operands : ℕ)
    → op < 2 ^ 5
    → build_word tipo op operands ≡ tipo * 2 ^ 29 + op * 2 ^ 24 + operands % 2 ^ 24
unfolding build_word
build_word-sum tipo op operands h = ground (
  arith,
  bit_and_mask 24 operands,
  bit_or_low 29 tipo (op * 2 ^ 24) (omega arith),
  bit_or_low 24 (tipo * 32 + op) (operands % 2 ^ 24) (omega arith),
)

-- Whatever the operands, `build_word` gives a 32-bit word from which the three fields are read back.
pub build_word_fields :
    (tipo op operands : ℕ)
    → tipo < 2 ^ 3
    → op < 2 ^ 5
    → IsWord (build_word tipo op operands)
      × (tipo_of (build_word tipo op operands) ≡ tipo)
      × (opcode_of (build_word tipo op operands) ≡ op)
      × (operands_of (build_word tipo op operands) ≡ operands % 2 ^ 24)
build_word_fields tipo op operands ht ho = omega (arith, build_word-sum tipo op operands ho)

-- The operands as a sum: two registers over what lies below them, and one register over the rest.
pub two_fields :
    (a b r : ℕ)
    → b < 2 ^ 4
    → r < 2 ^ 16
    → bit_or (bit_or (a << 20) (b << 16)) r ≡ a * 2 ^ 20 + b * 2 ^ 16 + r
two_fields a b r hb hr =
    ground (
      arith,
      bit_or_low 20 a (b * 2 ^ 16) (omega arith),
      bit_or_low 16 (a * 16 + b) r (omega arith),
    )

-- A word built from a sum of operand fields gives back each of them.
pub build_word_operands :
    (tipo op a b r x : ℕ) {w : ℕ}
    → tipo < 2 ^ 3
    → op < 2 ^ 5
    → a < 2 ^ 4
    → b < 2 ^ 4
    → r < 2 ^ 16
    → x ≡ a * 2 ^ 20 + b * 2 ^ 16 + r
    → build_word tipo op x ≡ w
    → IsWord w
      × (tipo_of w ≡ tipo)
      × (opcode_of w ≡ op)
      × (operands_of w ≡ x)
      × (reg_a_of w ≡ a)
      × (reg_b_of w ≡ b)
      × (imm_of w ≡ r)
build_word_operands tipo op a b r x ht ho ha hb hr e h = omega (arith, build_word-sum tipo op x ho)
