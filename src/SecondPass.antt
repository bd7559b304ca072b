-- ===== src/SecondPass.antt =====
-- `second_pass` and `assemble_lines` of Ensamblador/assembler.py.
pub mod Image
pub mod Resolved
pub mod Reports
pub mod Boot
use procesador_32_bits.Base.{ℕ, ◌+◌, List, [], ◌∷◌, ◌++◌, Option, none, some, Bool}
use procesador_32_bits.Base.Int.{ℤ, low_bits}
use procesador_32_bits.Base.Result.{Result, ok, err}
use procesador_32_bits.Text.{Text}
use procesador_32_bits.Dict.{Dict}
use procesador_32_bits.Errors.{Parsed, with_line_number}
use procesador_32_bits.Address.{target_address}
use procesador_32_bits.Expression.{eval_label_expr}
use procesador_32_bits.Encode.{encode_single}
use procesador_32_bits.FirstPass.{
  PendingInstruction, words, pending_tokens, raw_word, Report, report_of, DataMode,
}
use procesador_32_bits.FirstPass.Lines.{raises}
use procesador_32_bits.FirstPass.Start.{first_pass}

-- (src_line, address, word)
pub record Instruction : Type 0 where
  pub src_line : ℕ
  pub address : ℕ
  pub word : ℕ

-- `result`, `errors` and `address`
pub record Output : Type 0 where
  pub result : List Instruction
  pub errors : List Report
  pub address : ℕ

unfoldable pub put_word : ℕ → ℕ → Output → Output
put_word src_line w o = record o {
  result = o.result ++ record { src_line = src_line; address = o.address; word = w } ∷ [];
  address = o.address + 1;
}

unfoldable pub put_words : List ℕ → ℕ → Output → Output
unfolding put_word
put_words [] src_line o = o
put_words (w ∷ ws) src_line o = put_words ws src_line (put_word src_line w o)

-- The word, or 0 and the text of the error.
unfoldable pub put_parsed : Parsed ℕ → ℕ → Output → Output
unfolding put_word
put_parsed (ok w) src_line o = put_word src_line w o
put_parsed (err e) src_line o =
    put_word src_line 0 (record o { errors = o.errors ++ report_of e ∷ [] })

-- The whole 32-bit address of an expression; the text of an error was written without its line.
unfoldable pub raw_address : Parsed ℤ → ℕ → Parsed ℕ
unfolding target_address
raw_address (ok address) src_line = ok (low_bits 32 (target_address address))
raw_address (err e) src_line = err (with_line_number src_line e)

unfoldable pub resolve : Dict ℕ → PendingInstruction → Output → Output
unfolding put_words put_parsed put_word raw_address eval_label_expr encode_single
resolve label_map (raw_word val none src_line) o = put_word src_line val o
resolve label_map (raw_word val (some expr) src_line) o =
    put_parsed (raw_address (eval_label_expr expr label_map) src_line) src_line o
resolve label_map (pending_tokens tokens src_line) o =
    put_parsed (encode_single tokens src_line (some label_map)) src_line o
resolve label_map (words ws src_line) o = put_words ws src_line o

unfoldable pub resolve_all : Dict ℕ → List PendingInstruction → Output → Output
unfolding resolve
resolve_all label_map [] o = o
resolve_all label_map (i ∷ is) o = resolve_all label_map is (resolve label_map i o)

unfoldable pub second_pass : Dict ℕ → List PendingInstruction → Output
unfolding resolve_all
second_pass label_map pending =
    resolve_all label_map pending (record { result = []; errors = []; address = 0 })

-- What `assemble_lines` returns, but for the listing of `.start`: that is `start_listing`.
pub record Assembly : Type 0 where
  pub instructions : List Instruction
  pub errors : List Report
  pub label_map : Dict ℕ
  pub text_start_word : Option ℕ
  -- a ValueError of the first pass: there is no result, and the other fields are not returned
  pub raised : Bool

unfoldable pub assemble_lines : List Text → DataMode → List (ℕ × Text) → Assembly
unfolding first_pass second_pass
assemble_lines lines mode relocs =
    let s = first_pass lines mode relocs in
    let o = second_pass s.label_map s.pending in
    record {
      instructions = o.result;
      errors = s.errors ++ o.errors;
      label_map = s.label_map;
      text_start_word = s.text_start_word;
      raised = raises mode lines relocs;
    }
