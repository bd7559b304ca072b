-- ===== src/Tests/Reports.antt =====
-- The theorems on the errors of the second pass and on the loop over the rows.
use procesador_32_bits.Base.{◌≡◌, refl, ◌+◌, ◌/◌, List, [], ◌∷◌, some, length}
use procesador_32_bits.Text.{codes, text_eq}
use procesador_32_bits.Dict.{get}
use procesador_32_bits.Encode.{encode_operands, read_prefix, check_prefix}
use procesador_32_bits.FirstPass.{PendingInstruction, words, pending_tokens, raw_word}
use procesador_32_bits.SecondPass.{second_pass}
use procesador_32_bits.SecondPass.Reports.{all_reports, second_pass-errors}
use procesador_32_bits.Rom.{ByteMap, max_address, write_rows, last_row_of}
use procesador_32_bits.Rom.Loop.{Rows, write_rows-Rows}
use procesador_32_bits.Tests.{labels}

-- An expression without a label, an unknown mnemonic, and a word between them
abbrev wrong : List PendingInstruction
wrong =
    raw_word 0 (some (codes "missing")) 4
    ∷ words (5 ∷ []) 5
    ∷ pending_tokens (codes "MOV" ∷ []) 6
    ∷ []

two_reports : length (second_pass labels wrong).errors ≡ 2
unfolding second_pass read_prefix text_eq get check_prefix encode_operands
two_reports = refl

second_pass-errors_example : (second_pass labels wrong).errors ≡ all_reports labels wrong
second_pass-errors_example = second_pass-errors labels wrong

-- Bytes in the first and the fourth row
abbrev bytes : ByteMap
bytes = (0, 1) ∷ (50, 7) ∷ []

write_rows-Rows_example :
    Rows
      (last_row_of bytes)
      bytes
      0
      (write_rows (last_row_of bytes / 16 + 1) 0 (last_row_of bytes) bytes)
write_rows-Rows_example = write_rows-Rows bytes

written_rows : length (write_rows (last_row_of bytes / 16 + 1) 0 (last_row_of bytes) bytes) ≡ 2
unfolding write_rows max_address
written_rows = refl
