-- ===== src/Encode/Decode.antt =====
-- The specification of an instruction word: the format of each mnemonic after Docs/ISA_REFERENCE.md,
-- and the operands that a word of that format holds, read by division and remainder.
use procesador_32_bits.Base.{ℕ, ◌≡◌, true, List, [], ◌∷◌, Option}
use procesador_32_bits.Base.Result.{ok}
use procesador_32_bits.Text.{Text}
use procesador_32_bits.Dict.{Dict}
use procesador_32_bits.Isa.{
  Mnemonic, nop, hlt, ret, scl, srt, gof, ldi, adi, jmp, brh, cal, lod, str, cye, cyr,
}
use procesador_32_bits.Isa.Fields.{
  IsWord, tipo_of, opcode_of, operands_of, reg_a_of, reg_b_of, reg_c_of, imm_of,
}
use procesador_32_bits.Isa.{opcode}
use procesador_32_bits.Operands.{parse_register, parse_special_register, parse_immediate}
use procesador_32_bits.Expression.{resolve_imm_or_pseudo}
use procesador_32_bits.Encode.{Prefix, immediate_half, immediate_signed, read_condition}

pub data Format : Type 0 where
  bare regs_abc reg_a reg_b reg_imm cond_reg memory special_reg reg_special : Format

abbrev pub format : Mnemonic → Format
format nop = Format.bare
format hlt = Format.bare
format ret = Format.bare
format scl = Format.bare
format srt = Format.bare
format gof = Format.reg_a
format jmp = Format.reg_b
format cal = Format.reg_b
format ldi = Format.reg_imm
format adi = Format.reg_imm
format brh = Format.cond_reg
format lod = Format.memory
format str = Format.memory
format cye = Format.special_reg
format cyr = Format.reg_special
format _ = Format.regs_abc

module _ (m : Mnemonic) (p : Prefix) (line_num : ℕ) (label_map : Option (Dict ℕ)) (w : ℕ) where
  -- The operand fields of `w` are what the operand texts stand for, and no text is missing or left.
  abbrev pub Holds : Format → List Text → Type 0
  Holds bare [] = operands_of w ≡ 0
  Holds regs_abc (a ∷ b ∷ c ∷ []) =
      (parse_register a line_num ≡ ok (reg_a_of w))
      × (parse_register b line_num ≡ ok (reg_b_of w))
      × (parse_register c line_num ≡ ok (reg_c_of w))
  Holds reg_a (a ∷ []) = parse_register a line_num ≡ ok (reg_a_of w)
  Holds reg_b (b ∷ []) = parse_register b line_num ≡ ok (reg_b_of w)
  Holds reg_imm (a ∷ i ∷ []) =
      (parse_register a line_num ≡ ok (reg_a_of w))
      × (resolve_imm_or_pseudo i line_num label_map (immediate_half m p) 16 (immediate_signed m)
          ≡ ok (imm_of w))
  Holds cond_reg (c ∷ b ∷ []) =
      (read_condition c line_num ≡ ok (reg_a_of w)) × (parse_register b line_num ≡ ok (reg_b_of w))
  Holds memory (a ∷ b ∷ o ∷ []) =
      (parse_register a line_num ≡ ok (reg_a_of w))
      × (parse_register b line_num ≡ ok (reg_b_of w))
      × (parse_immediate o line_num 16 true ≡ ok (imm_of w))
  Holds special_reg (c ∷ a ∷ []) =
      (parse_special_register c line_num ≡ ok (reg_a_of w))
      × (parse_register a line_num ≡ ok (reg_b_of w))
  Holds reg_special (a ∷ c ∷ []) =
      (parse_register a line_num ≡ ok (reg_a_of w))
      × (parse_special_register c line_num ≡ ok (reg_b_of w))
  Holds _ _ = ⊥

  -- `w` is a 32-bit word with the type of the prefix, the opcode of `m` and the operands of `p`.
  pub record Encodes : Type 0 where
    pub word : IsWord w
    pub tipo : tipo_of w ≡ p.tipo
    pub code : opcode_of w ≡ opcode m
    pub operands : Holds (format m) p.args
