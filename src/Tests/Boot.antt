-- ===== src/Tests/Boot.antt =====
-- The theorems on the boot routine at a program with code, data and a symbol in .bss.
use procesador_32_bits.Base.{
  ℕ, ◌+◌, ◌*◌, ◌-◌, ◌/◌, ◌≡◌, refl, ap, List, [], some, arith, get_or, length, ltb, ◌||◌, true,
}
use procesador_32_bits.Dict.{get}
use procesador_32_bits.Text.{text_eq, codes}
use procesador_32_bits.Encode.{encode_operands, read_prefix, check_prefix}
use procesador_32_bits.Operands.{parse_register}
use procesador_32_bits.Expression.{resolve_imm_or_pseudo}
use procesador_32_bits.FirstPass.{rom}
use procesador_32_bits.FirstPass.Start.{data_words}
use procesador_32_bits.Machine.{Machine}
use procesador_32_bits.SecondPass.{Assembly, assemble_lines}
use procesador_32_bits.SecondPass.Boot.{scanned}
use procesador_32_bits.SecondPass.Boot.Parts.{words_in}
use procesador_32_bits.SecondPass.Boot.Routine.{HoldsRom}
use procesador_32_bits.Tests.{program}

-- To unfold this is to unfold all that the assembly of the program calls.
unfoldable pub assembled : Assembly
unfolding assemble_lines read_prefix text_eq get check_prefix encode_operands parse_register
    resolve_imm_or_pseudo
assembled = assemble_lines program rom []

-- A machine whose ROM holds the image of the program.
image : List ℕ
image = words_in (assemble_lines program rom []).instructions

abbrev machine : Machine
machine = record { reg = λ a. 0; mem = λ x. get_or image ((x - 0xFFF00000) / 4) 0 }

machine_rom : HoldsRom (words_in (assemble_lines program rom []).instructions) machine
unfolding image
machine_rom k h =
    let e : (0xFFF00000 + 4 * k - 0xFFF00000) / 4 ≡ k = omega arith in
    ap (λ i. get_or (words_in (assemble_lines program rom []).instructions) i 0) e

pub no_errors : (assemble_lines program rom []).errors ≡ []
unfolding assembled
no_errors = refl

pub main_label : get (scanned program []).label_map (codes "main") ≡ some 0
unfolding assemble_lines get text_eq
main_label = refl

pub data_count : data_words (scanned program []) ≡ 3
unfolding assemble_lines
data_count = refl

pub blob_address : (scanned program []).rom_address ≡ 2
unfolding assemble_lines
blob_address = refl

pub has_data :
    (ltb 0 (length (scanned program []).rom_data_bytes)
      || ltb 0 (scanned program []).ram_bss_offset)
    ≡ true
unfolding assemble_lines
has_data = refl

-- The second word of .data is the address of main.
copied_word_example : get_or image 3 0 ≡ 0xFFF00000
unfolding image assembled
copied_word_example = refl
