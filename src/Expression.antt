-- ===== src/Expression.antt =====
-- `eval_label_expr` and `_resolve_imm_or_pseudo` of Ensamblador/assembler.py.
pub mod Bounds
use procesador_32_bits.Base.{
  ℕ, ◌+◌, ◌%◌, ◌^◌, Bool, true, false, not, ◌&&◌, ◌||◌, [], ◌∷◌, ◌++◌, Option, none, some, ◌==◌,
  if◌then◌else◌,
}
use procesador_32_bits.Base.Int.{ℤ, pos, sub_ℕ}
use procesador_32_bits.Base.Result.{Result, ok, err}
use procesador_32_bits.Text.{
  is_quote, Text, codes, is_space, strip, lstrip, starts_with, is_numeric,
}
use procesador_32_bits.Text.Regex.{
  or_else, one, one_of, word, many, many_one, maybe_char, spaces, number, at_end,
}
use procesador_32_bits.Errors.{
  AssemblerError, Message, Parsed, raise, with_line_number, undefined_base, undefined_label,
}
use procesador_32_bits.Dict
use procesador_32_bits.Dict.{Dict}
use procesador_32_bits.Operands.{normalize_label, parse_immediate}
use procesador_32_bits.Address.{compute_hi_lo}

pub data Half : Type 0 where
  hi lo : Half

-- The operand of %hi and %lo: `"(?:[^"]*)"`, or `\S+`; then `\)$`
pseudo_operand : Half → Text → Option (Half × Text)
unfolding one many many_one at_end is_space
pseudo_operand half s =
    or_else
      (one is_quote
        (many (λ c. not (is_quote c))
          (λ name. one is_quote (one (λ c. c == b')') (at_end (half, b'"' ∷ (name ++ b'"' ∷ []))))))
        s)
      (many_one (λ c. not (is_space c)) (λ expr. one (λ c. c == b')') (at_end (half, expr))) s)

-- _PSEUDO_RE
unfoldable pub pseudo_match : Text → Option (Half × Text)
unfolding word pseudo_operand
pseudo_match s =
    or_else (word (codes "%hi(") (pseudo_operand hi) s) (word (codes "%lo(") (pseudo_operand lo) s)

-- The groups of _LABEL_EXPR_RE; the third as its value.
pub record LabelOffset : Type 0 where
  pub raw_name : Text
  pub sign : ℕ
  pub offset : ℕ

-- _LABEL_EXPR_RE
unfoldable pub label_expr_match : Text → Option LabelOffset
unfolding one_of many_one maybe_char spaces number at_end
label_expr_match = maybe_char b'"' λ opening.
    many_one (λ c. not (c == b'"' || c == b'+' || c == b'-'))
      λ name. maybe_char b'"' λ closing. spaces (
        one_of (λ c. c == b'+' || c == b'-')
          λ sign. spaces (
            number (λ c. c == b'x')
              λ offset.
                at_end (record {
                  raw_name = opening ++ (name ++ closing);
                  sign = sign;
                  offset = offset;
                })))

-- The address of a normalized name; `none` where the name is None or not in the map.
abbrev find_label : Option Text → Dict ℕ → Option ℕ
find_label none label_map = none
find_label (some name) label_map = Dict.get label_map name

abbrev add_offset : LabelOffset → ℕ → ℤ
add_offset m base = if m.sign == b'+' then pos (base + m.offset) else sub_ℕ base m.offset

abbrev address_or : Message → (ℕ → ℤ) → Option ℕ → Parsed ℤ
address_or message f none = raise message
address_or message f (some base) = ok (f base)

eval_match : Text → Option LabelOffset → Dict ℕ → Parsed ℤ
unfolding strip normalize_label
eval_match token (some m) label_map =
    address_or (undefined_base token (strip m.raw_name)) (add_offset m)
      (find_label (normalize_label (strip m.raw_name)) label_map)
eval_match token none label_map =
    address_or (undefined_label token) pos (find_label (normalize_label token) label_map)

unfoldable pub eval_label_expr : Text → Dict ℕ → Parsed ℤ
unfolding strip label_expr_match eval_match
eval_label_expr token label_map =
    eval_match (strip token) (label_expr_match (strip token)) label_map

-- (hi16 if kind == 'hi' else lo16) & 0xFFFF
abbrev pub half_of : Half → ℤ → ℕ
half_of hi address = (compute_hi_lo address).0 % 2 ^ 16
half_of lo address = (compute_hi_lo address).1 % 2 ^ 16

-- except AssemblerError as e: e.line_number = line_num; raise e
resolve_pseudo : Half → ℕ → Parsed ℤ → Parsed ℕ
unfolding compute_hi_lo
resolve_pseudo kind line_num (ok address) = ok (half_of kind address)
resolve_pseudo kind line_num (err e) = err (with_line_number line_num e)

-- except AssemblerError: pass
try_label : Half → Parsed ℤ → Parsed ℕ → Parsed ℕ
unfolding compute_hi_lo
try_label kind (ok address) otherwise = ok (half_of kind address)
try_label kind (err e) otherwise = otherwise

-- token.startswith(('0x', '0b', '0X', '0B')) or token.lstrip('-+').isdigit()
unfoldable pub looks_numeric : Text → Bool
unfolding starts_with lstrip is_numeric
looks_numeric token =
    starts_with (codes "0x") token
    || starts_with (codes "0b") token
    || starts_with (codes "0X") token
    || starts_with (codes "0B") token
    || is_numeric (lstrip (λ c. c == b'-' || c == b'+') token)

abbrev kind_or_hi : Option Half → Half
kind_or_hi none = hi
kind_or_hi (some kind) = kind

-- The steps behind the explicit %hi and %lo, on the stripped token.
resolve_number : Text → ℕ → Option (Dict ℕ) → Option Half → ℕ → Bool → Parsed ℕ
unfolding looks_numeric eval_label_expr parse_immediate try_label
resolve_number token line_num none pseudo_kind bits signed =
    parse_immediate token line_num bits signed
resolve_number token line_num (some label_map) pseudo_kind bits signed =
    if looks_numeric token
    then parse_immediate token line_num bits signed
    else try_label (kind_or_hi pseudo_kind) (eval_label_expr token label_map)
        (parse_immediate token line_num bits signed)

resolve_direct : Text → ℕ → Option (Dict ℕ) → Option Half → ℕ → Bool → Parsed ℕ
unfolding resolve_number
resolve_direct token line_num label_map none bits signed =
    resolve_number token line_num label_map none bits signed
resolve_direct token line_num none (some kind) bits signed = ok 0
resolve_direct token line_num (some label_map) (some kind) bits signed =
    try_label kind (eval_label_expr token label_map)
      (resolve_number token line_num (some label_map) (some kind) bits signed)

resolve_match :
    Option (Half × Text) → Text → ℕ → Option (Dict ℕ) → Option Half → ℕ → Bool → Parsed ℕ
unfolding resolve_pseudo resolve_direct
resolve_match none token line_num label_map pseudo_kind bits signed =
    resolve_direct token line_num label_map pseudo_kind bits signed
resolve_match (some (kind, expr)) token line_num none pseudo_kind bits signed = ok 0
resolve_match (some (kind, expr)) token line_num (some label_map) pseudo_kind bits signed =
    resolve_pseudo kind line_num (eval_label_expr expr label_map)

unfoldable pub resolve_imm_or_pseudo :
    Text → ℕ → Option (Dict ℕ) → Option Half → ℕ → Bool → Parsed ℕ
unfolding strip pseudo_match resolve_match
resolve_imm_or_pseudo token line_num label_map pseudo_kind bits signed =
    resolve_match (pseudo_match (strip token)) (strip token) line_num label_map pseudo_kind bits
      signed
