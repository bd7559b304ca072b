-- ===== src/Isa.antt =====
-- The instruction table of Ensamblador/assembler.py and `build_word`.
pub mod Fields
use procesador_32_bits.Base.{ℕ, ◌+◌, Bool, true, false, List, [], ◌∷◌, bit_and, bit_or, ◌<<◌}
use procesador_32_bits.Text.{Text, codes}
use procesador_32_bits.Dict.{Dict}

-- The keys of OPCODES.
pub data Mnemonic : Type 0 where
  nop hlt add sub mul div nor and xor rsh lsh gof : Mnemonic
  ldi adi jmp brh cal ret lod str cye cyr scl srt : Mnemonic

abbrev pub mnemonics : Dict Mnemonic
mnemonics =
    (codes "NOP", nop)
    ∷ (codes "HLT", hlt)
    ∷ (codes "ADD", add)
    ∷ (codes "SUB", sub)
    ∷ (codes "MUL", mul)
    ∷ (codes "DIV", div)
    ∷ (codes "NOR", nor)
    ∷ (codes "AND", and)
    ∷ (codes "XOR", xor)
    ∷ (codes "RSH", rsh)
    ∷ (codes "LSH", lsh)
    ∷ (codes "GOF", gof)
    ∷ (codes "LDI", ldi)
    ∷ (codes "ADI", adi)
    ∷ (codes "JMP", jmp)
    ∷ (codes "BRH", brh)
    ∷ (codes "CAL", cal)
    ∷ (codes "RET", ret)
    ∷ (codes "LOD", lod)
    ∷ (codes "STR", str)
    ∷ (codes "CYE", cye)
    ∷ (codes "CYR", cyr)
    ∷ (codes "SCL", scl)
    ∷ (codes "SRT", srt)
    ∷ []

unfoldable pub opcode : Mnemonic → ℕ
opcode nop = 0b00000
opcode hlt = 0b00001
opcode add = 0b00010
opcode sub = 0b00011
opcode mul = 0b00100
opcode div = 0b00101
opcode nor = 0b00110
opcode and = 0b00111
opcode xor = 0b01000
opcode rsh = 0b01001
opcode lsh = 0b01010
opcode gof = 0b01011
opcode ldi = 0b01100
opcode adi = 0b01101
opcode jmp = 0b01110
opcode brh = 0b01111
opcode cal = 0b10000
opcode ret = 0b10001
opcode lod = 0b10010
opcode str = 0b10011
opcode cye = 0b10100
opcode cyr = 0b10101
opcode scl = 0b10110
opcode srt = 0b10111

-- `mnemonic in MEM_INSTRUCTIONS`
abbrev pub is_memory : Mnemonic → Bool
is_memory lod = true
is_memory str = true
is_memory _ = false

-- The mnemonics that the prefix SLT may stand before.
abbrev pub is_arithmetic : Mnemonic → Bool
is_arithmetic add = true
is_arithmetic sub = true
is_arithmetic mul = true
is_arithmetic div = true
is_arithmetic nor = true
is_arithmetic and = true
is_arithmetic xor = true
is_arithmetic rsh = true
is_arithmetic lsh = true
is_arithmetic adi = true
is_arithmetic _ = false

abbrev pub is_ldi : Mnemonic → Bool
is_ldi ldi = true
is_ldi _ = false

-- MEM_TYPES
abbrev pub mem_types : Dict ℕ
mem_types = (codes "CHAR", 0b000) ∷ (codes "SHORT", 0b001) ∷ (codes "INT", 0b010) ∷ []

-- CONDITIONS
abbrev pub conditions : Dict ℕ
conditions =
    (codes "=", 0b0000)
    ∷ (codes "EQ", 0b0000)
    ∷ (codes "!=", 0b0001)
    ∷ (codes "NE", 0b0001)
    ∷ (codes "N", 0b0010)
    ∷ (codes "NEG", 0b0010)
    ∷ (codes "NN", 0b0011)
    ∷ (codes "POS", 0b0011)
    ∷ (codes "C", 0b0100)
    ∷ (codes "CS", 0b0100)
    ∷ (codes "NC", 0b0101)
    ∷ (codes "CC", 0b0101)
    ∷ (codes "OV", 0b0110)
    ∷ (codes "NOV", 0b0111)
    ∷ []

-- (tipo << 29) | (opcode << 24) | (operands & 0xFFFFFF)
unfoldable pub build_word : ℕ → ℕ → ℕ → ℕ
build_word tipo op operands = bit_or (bit_or (tipo << 29) (op << 24)) (bit_and operands 0xFFFFFF)
