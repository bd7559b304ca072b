-- ===== src/Encode.antt =====
-- `encode_single` of Ensamblador/assembler.py: the prefix, its checks, and the operands of each format.
-- The label map is None in the first pass.
pub mod Decode
pub mod Prefixes
pub mod Formats
pub mod Words
use procesador_32_bits.Base.{
  ℕ, Bool, true, false, not, ◌&&◌, List, [], ◌∷◌, Option, none, some, bit_or, ◌<<◌, ◌==◌, length,
  if◌then◌else◌,
}
use procesador_32_bits.Base.Result.{Result, ok, err, ◌>>=◌, ◌>>◌}
use procesador_32_bits.Text.{Text, codes, text_eq, upper, strip}
use procesador_32_bits.Errors.{
  Parsed, raise_at, wrong_argc, missing_mnemonic, needs_type_prefix, unknown_mnemonic,
  bad_condition, mem_prefix_misused, hl_prefix_misused, slt_misused, empty_tokens,
}
use procesador_32_bits.Dict
use procesador_32_bits.Dict.{Dict}
use procesador_32_bits.Isa.{
  Mnemonic, nop, hlt, add, sub, mul, div, nor, and, xor, rsh, lsh, gof, ldi, adi, jmp, brh, cal,
  ret, lod, str, cye, cyr, scl, srt, mnemonics, opcode, is_memory, is_arithmetic, is_ldi, mem_types,
  conditions, build_word,
}
use procesador_32_bits.Operands.{parse_register, parse_special_register, parse_immediate}
use procesador_32_bits.Expression.{Half, hi, lo, resolve_imm_or_pseudo}

-- The locals of `encode_single` once the prefix is read.
pub record Prefix : Type 0 where
  pub tipo : ℕ
  pub is_mem_prefix : Bool
  pub is_hl_prefix : Bool
  pub mnemonic : Text
  pub args : List Text

-- tokens = tokens[1:], with the error when nothing is left
after_prefix : Text → ℕ → Bool → Bool → List Text → ℕ → Parsed Prefix
after_prefix first tipo is_mem is_hl [] line_num = raise_at line_num (missing_mnemonic first)
after_prefix first tipo is_mem is_hl (t ∷ ts) line_num = ok (record {
  tipo = tipo;
  is_mem_prefix = is_mem;
  is_hl_prefix = is_hl;
  mnemonic = upper t;
  args = ts;
})

no_prefix : Text → List Text → ℕ → Parsed Prefix
no_prefix first ts line_num =
    if text_eq first (codes "LOD")
    then raise_at line_num (needs_type_prefix first)
    else if text_eq first (codes "STR")
    then raise_at line_num (needs_type_prefix first)
    else ok (record {
      tipo = 0b000;
      is_mem_prefix = false;
      is_hl_prefix = false;
      mnemonic = first;
      args = ts;
    })

type_prefix : Option ℕ → Text → List Text → ℕ → Parsed Prefix
unfolding after_prefix no_prefix
type_prefix none first ts line_num = no_prefix first ts line_num
type_prefix (some tipo) first ts line_num = after_prefix first tipo true false ts line_num

classify_prefix : Text → List Text → ℕ → Parsed Prefix
unfolding type_prefix
classify_prefix first ts line_num =
    if text_eq first (codes "SLT")
    then after_prefix first 0b100 false false ts line_num
    else if text_eq first (codes "H")
    then after_prefix first 0b100 false true ts line_num
    else if text_eq first (codes "L")
    then after_prefix first 0b000 false true ts line_num
    else type_prefix (Dict.get mem_types first) first ts line_num

unfoldable pub read_prefix : List Text → ℕ → Parsed Prefix
unfolding classify_prefix upper
read_prefix [] line_num = raise_at line_num empty_tokens
read_prefix (t ∷ ts) line_num = classify_prefix (upper t) ts line_num

-- The three checks of the prefix against the mnemonic.
unfoldable pub check_prefix : Prefix → Mnemonic → ℕ → Parsed (Unit {0})
check_prefix p m line_num =
    if p.is_mem_prefix && not (is_memory m)
    then raise_at line_num (mem_prefix_misused p.mnemonic)
    else if p.is_hl_prefix && not (is_ldi m)
    then raise_at line_num (hl_prefix_misused (if p.tipo == 0b100 then codes "H" else codes "L"))
    else if not p.is_hl_prefix && p.tipo == 0b100 && not (is_arithmetic m)
    then raise_at line_num slt_misused
    else ok tt

-- _require_argc(args, n, mnemonic, line_num), where the length differs
abbrev bad_argc : Prefix → ℕ → ℕ → Parsed ℕ
bad_argc p expected line_num = raise_at line_num (wrong_argc p.mnemonic expected (length p.args))

pub no_operands : Mnemonic → Prefix → List Text → ℕ → Parsed ℕ
no_operands m p [] line_num = ok (build_word 0 (opcode m) 0)
no_operands m p _ line_num = bad_argc p 0 line_num

pub three_registers : Mnemonic → Prefix → List Text → ℕ → Parsed ℕ
three_registers m p (a ∷ b ∷ c ∷ []) line_num = do
  ra ← parse_register a line_num
  rb ← parse_register b line_num
  rc ← parse_register c line_num
  ok (build_word p.tipo (opcode m) (bit_or (bit_or (ra << 20) (rb << 16)) (rc << 12)))
three_registers m p _ line_num = bad_argc p 3 line_num

pub register_a : Mnemonic → Prefix → List Text → ℕ → Parsed ℕ
register_a m p (a ∷ []) line_num = do
  ra ← parse_register a line_num
  ok (build_word 0 (opcode m) (ra << 20))
register_a m p _ line_num = bad_argc p 1 line_num

pub register_b : Mnemonic → Prefix → List Text → ℕ → Parsed ℕ
register_b m p (b ∷ []) line_num = do
  rb ← parse_register b line_num
  ok (build_word 0 (opcode m) (rb << 16))
register_b m p _ line_num = bad_argc p 1 line_num

-- LDI: the half is %hi under a prefix H or L. ADI: it is %lo under SLT.
abbrev pub immediate_half : Mnemonic → Prefix → Option Half
immediate_half ldi p = if p.is_hl_prefix then some hi else none
immediate_half _ p = if p.tipo == 0b100 then some lo else none

abbrev pub immediate_signed : Mnemonic → Bool
immediate_signed ldi = false
immediate_signed _ = true

pub register_immediate : Mnemonic → Prefix → List Text → ℕ → Option (Dict ℕ) → Parsed ℕ
register_immediate m p (a ∷ i ∷ []) line_num label_map = do
  ra ← parse_register a line_num
  imm ← resolve_imm_or_pseudo i line_num label_map (immediate_half m p) 16 (immediate_signed m)
  ok (build_word p.tipo (opcode m) (bit_or (ra << 20) imm))
register_immediate m p _ line_num label_map = bad_argc p 2 line_num

abbrev pub condition_or : Option ℕ → Parsed ℕ → Parsed ℕ
condition_or (some cond) otherwise = ok cond
condition_or none otherwise = otherwise

abbrev pub read_condition : Text → ℕ → Parsed ℕ
read_condition token line_num = condition_or (Dict.get conditions (upper (strip token))) (
    condition_or (Dict.get conditions (strip token))
      (raise_at line_num (bad_condition (strip token))))

pub condition_register : Mnemonic → Prefix → List Text → ℕ → Parsed ℕ
condition_register m p (c ∷ b ∷ []) line_num = do
  cond ← read_condition c line_num
  rb ← parse_register b line_num
  ok (build_word 0 (opcode m) (bit_or (cond << 20) (rb << 16)))
condition_register m p _ line_num = bad_argc p 2 line_num

pub memory_operands : Mnemonic → Prefix → List Text → ℕ → Parsed ℕ
memory_operands m p (a ∷ b ∷ o ∷ []) line_num = do
  ra ← parse_register a line_num
  rb ← parse_register b line_num
  offset ← parse_immediate o line_num 16 true
  ok (build_word p.tipo (opcode m) (bit_or (bit_or (ra << 20) (rb << 16)) offset))
memory_operands m p _ line_num = bad_argc p 3 line_num

pub from_special : Mnemonic → Prefix → List Text → ℕ → Parsed ℕ
from_special m p (c ∷ a ∷ []) line_num = do
  rc ← parse_special_register c line_num
  ra ← parse_register a line_num
  ok (build_word 0 (opcode m) (bit_or (rc << 20) (ra << 16)))
from_special m p _ line_num = bad_argc p 2 line_num

pub to_special : Mnemonic → Prefix → List Text → ℕ → Parsed ℕ
to_special m p (a ∷ c ∷ []) line_num = do
  ra ← parse_register a line_num
  rc ← parse_special_register c line_num
  ok (build_word 0 (opcode m) (bit_or (ra << 20) (rc << 16)))
to_special m p _ line_num = bad_argc p 2 line_num

-- The chain of `if mnemonic in …`.
unfoldable pub encode_operands : Mnemonic → Prefix → ℕ → Option (Dict ℕ) → Parsed ℕ
unfolding no_operands three_registers register_a register_b register_immediate condition_register
    memory_operands from_special to_special
encode_operands gof p n d = register_a gof p p.args n
encode_operands ldi p n d = register_immediate ldi p p.args n d
encode_operands adi p n d = register_immediate adi p p.args n d
encode_operands jmp p n d = register_b jmp p p.args n
encode_operands cal p n d = register_b cal p p.args n
encode_operands brh p n d = condition_register brh p p.args n
encode_operands lod p n d = memory_operands lod p p.args n
encode_operands str p n d = memory_operands str p p.args n
encode_operands cye p n d = from_special cye p p.args n
encode_operands cyr p n d = to_special cyr p p.args n
encode_operands nop p n d = no_operands nop p p.args n
encode_operands hlt p n d = no_operands hlt p p.args n
encode_operands ret p n d = no_operands ret p p.args n
encode_operands scl p n d = no_operands scl p p.args n
encode_operands srt p n d = no_operands srt p p.args n
encode_operands m p n d = three_registers m p p.args n

find_mnemonic : Option Mnemonic → Text → ℕ → Parsed Mnemonic
find_mnemonic none mnemonic line_num = raise_at line_num (unknown_mnemonic mnemonic)
find_mnemonic (some m) mnemonic line_num = ok m

unfoldable pub encode_single : List Text → ℕ → Option (Dict ℕ) → Parsed ℕ
unfolding find_mnemonic
encode_single tokens line_num label_map = do
  p ← read_prefix tokens line_num
  m ← find_mnemonic (Dict.get mnemonics p.mnemonic) p.mnemonic line_num
  check_prefix p m line_num
  encode_operands m p line_num label_map
