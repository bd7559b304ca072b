-- ===== src/Annotated.antt =====
-- `write_annotated_hex` of Ensamblador/assembler.py: the pieces of text that it writes.
pub mod Octets
pub mod Reader
use procesador_32_bits.Base.{
  ℕ, ◌*◌, List, [], ◌∷◌, ◌++◌, Option, none, some, length, take, drop, ◌==◌, if◌then◌else◌,
}
use procesador_32_bits.Text.{Text, codes}
use procesador_32_bits.Text.Format.{format_number, format_upper, decimal}
use procesador_32_bits.Dict.{Dict}
use procesador_32_bits.SecondPass.{Instruction}

-- addr_to_label.get(address): of the labels with this address the last in the map.
unfoldable pub addr_to_label : Dict ℕ → ℕ → Option Text
addr_to_label [] address = none
addr_to_label ((k, v) ∷ d) address =
    let rest = addr_to_label d address in
    elim rest [ some name ↦ some name | none ↦ if v == address then some k else none ]

-- bin_str[i*8:(i+1)*8]
abbrev pub octet : ℕ → Text → Text
octet i bin_str = take 8 (drop (i * 8) bin_str)

unfoldable pub word_line : Instruction → Text
unfolding format_upper format_number
word_line x =
    let bin_str = format_number 2 32 x.word in
    format_upper 5 x.address
    ++ b' '
      ∷ (format_upper 6 (x.address * 4)
          ++ b' '
            ∷ b' '
            ∷ (format_upper 8 x.word
                ++ b' '
                  ∷ b' '
                  ∷ (octet 0 bin_str
                      ++ b' '
                        ∷ (octet 1 bin_str
                            ++ b' '
                              ∷ (octet 2 bin_str
                                  ++ b' '
                                    ∷ (octet 3 bin_str
                                        ++ b' '
                                          ∷ b' '
                                          ∷ b'('
                                          ∷ b'L'
                                          ∷ (decimal x.src_line ++ b')' ∷ b'\n' ∷ [])))))))

abbrev pub label_lines : Option Text → List Text
label_lines none = []
label_lines (some name) = (codes ";\n; [" ++ (name ++ codes ":]\n")) ∷ []

-- The loop over the instructions.
unfoldable pub instruction_lines : Dict ℕ → List Instruction → List Text
unfolding addr_to_label word_line
instruction_lines label_map [] = []
instruction_lines label_map (x ∷ xs) =
    label_lines (addr_to_label label_map x.address) ++ word_line x ∷ instruction_lines label_map xs

unfoldable pub write_annotated_hex : List Instruction → Dict ℕ → List Text
unfolding instruction_lines format_number
write_annotated_hex instructions label_map =
    codes "; =====================================================\n"
    ∷ codes ";  Listado anotado — Procesador 32 bits\n"
    ∷ (codes ";  Instrucciones: " ++ (decimal (length instructions) ++ codes "\n"))
    ∷ codes ";\n"
    ∷ codes ";  WADDR BADDR    HEX       BINARIO (Tipo|Op | Operandos)\n"
    ∷ codes "; =====================================================\n"
    ∷ instruction_lines label_map instructions
