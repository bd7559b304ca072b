-- ===== src/Errors.antt =====
-- `AssemblerError` of Ensamblador/assembler.py: one constructor for each `raise`, with the values that
-- its message shows. The Spanish wording is not modelled.
use procesador_32_bits.Base.{ℕ, Option, none, some}
use procesador_32_bits.Base.Int.{ℤ}
use procesador_32_bits.Base.Result.{Result, err}
use procesador_32_bits.Text.{Text}

pub data Message : Type 0 where
  bad_register bad_special_register bad_immediate : Text → Message
  -- the value, and the width in bits
  out_of_signed_range out_of_range : ℤ → ℕ → Message
  -- the mnemonic, the operands expected, and those received
  wrong_argc : Text → ℕ → ℕ → Message
  missing_mnemonic needs_type_prefix unknown_mnemonic bad_condition : Text → Message
  mem_prefix_misused hl_prefix_misused : Text → Message
  slt_misused : Message
  -- the expression, and its base name
  undefined_base : Text → Text → Message
  undefined_label : Text → Message
  -- not an AssemblerError: the IndexError of `tokens[0]` on an empty list
  empty_tokens : Message

-- `line_number` is the attribute; `prefix` is the line that `__init__` wrote into the text.
pub record AssemblerError : Type 0 where
  pub message : Message
  pub line_number : Option ℕ
  pub prefix : Option ℕ

abbrev pub assembler_error : Message → Option ℕ → AssemblerError
assembler_error message line_number = record {
  message = message;
  line_number = line_number;
  prefix = line_number;
}

abbrev pub Parsed : Type 0 → Type 0
Parsed A = Result AssemblerError A

-- raise AssemblerError(message, line_num)
abbrev pub raise_at : {A : Type 0} → ℕ → Message → Parsed A
raise_at line_num message = err (assembler_error message (some line_num))

-- raise AssemblerError(message)
abbrev pub raise : {A : Type 0} → Message → Parsed A
raise message = err (assembler_error message none)

-- e.line_number = line_num
abbrev pub with_line_number : ℕ → AssemblerError → AssemblerError
with_line_number line_num e = record e { line_number = some line_num }
