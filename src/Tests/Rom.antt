-- ===== src/Tests/Rom.antt =====
-- The theorems on the ROM file at the program.
use procesador_32_bits.Base.{
  ◌+◌, ◌*◌, ◌-◌, ◌/◌, ◌^◌, ◌<◌, ◌≡◌, refl, ap, List, [], ◌∷◌, true, Option, none, some, arith,
  get_elem?, is_some, length,
}
use procesador_32_bits.Text.{Text, codes}
use procesador_32_bits.FirstPass.{rom, ram}
use procesador_32_bits.FirstPass.Start.{data_words}
use procesador_32_bits.Machine.{Machine, execute, jump_target}
use procesador_32_bits.SecondPass.{Instruction, assemble_lines}
use procesador_32_bits.SecondPass.Boot.{scanned}
use procesador_32_bits.SecondPass.Boot.Parts.{words_in}
use procesador_32_bits.SecondPass.Boot.Routine.{Boots}
use procesador_32_bits.Rom.{write_rom_logisim, reset_target}
use procesador_32_bits.Rom.Reader.{read_byte}
use procesador_32_bits.Rom.Image.{word_at, write_rom_logisim-word}
use procesador_32_bits.Rom.Reset.{write_rom_logisim-reset}
use procesador_32_bits.Rom.PowerOn.{HoldsFile, reset_jump, assemble_lines_power_on}
use procesador_32_bits.Tests.{program, program_quiet}
use procesador_32_bits.Tests.Boot.{
  assembled, no_errors, main_label, data_count, blob_address, has_data,
}

abbrev pub or_nothing : Option (List Text) → List Text
or_nothing none = []
or_nothing (some file) = file

pub some-or_nothing : (o : Option (List Text)) → is_some o ≡ true → o ≡ some (or_nothing o)
some-or_nothing none h = cc
some-or_nothing (some file) h = refl

abbrev written_file : Option (List Text)
written_file =
    write_rom_logisim (assemble_lines program rom []).instructions
      (some (assemble_lines program rom []).label_map) rom
      (assemble_lines program rom []).text_start_word

is_written : is_some written_file ≡ true
unfolding assembled write_rom_logisim
is_written = refl

program_file : List Text
program_file = or_nothing written_file

program_written : written_file ≡ some program_file
unfolding program_file
program_written = some-or_nothing written_file is_written

abbrev flashed : Machine
flashed = record {
  reg = λ a. a;
  mem = λ x. word_at (read_byte program_file) ((x - 0xFFF00000) / 4);
}

flashed_file : HoldsFile program_file flashed
flashed_file k h =
    let e : (0xFFF00000 + 4 * k - 0xFFF00000) / 4 ≡ k = omega arith in
    ap (word_at (read_byte program_file)) e

program_size : length (assemble_lines program rom []).instructions ≡ 18
unfolding assembled
program_size = refl

assemble_lines_power_on_example :
    (reset_jump flashed
      ≡ some
          (0xFFF00000 + 4 * ((scanned program []).rom_address + data_words (scanned program []))))
    × Boots
        (assemble_lines program rom []).label_map
        (scanned program [])
        0
        (words_in (assemble_lines program rom []).instructions)
        flashed
assemble_lines_power_on_example =
    assemble_lines_power_on program [] 0 program_file flashed program_quiet has_data main_label
      (omega arith) (omega (arith, data_count)) (omega (arith, data_count, blob_address))
      (omega (arith, program_size)) no_errors program_written flashed_file

-- The last line of the file: the reset vector with the byte address 0xFFF00014 of `.start`
first_row : get_elem? program_file 0 ≡ some (codes "v3.0 hex words addressed")
unfolding assembled write_rom_logisim program_file
first_row = refl

vector_row :
    get_elem? program_file 6 ≡ some (codes "ffff0: 8c f0 ff f0 8d f0 00 14 0e 0f 00 00 00 00 00 00")
unfolding assembled write_rom_logisim program_file
vector_row = refl

first_line_word :
    get_elem? (assemble_lines program rom []).instructions 0
    ≡ some (record { src_line = 3; address = 0; word = 0x0DE0FFFC })
unfolding assembled
first_line_word = refl

write_rom_logisim-word_example :
    (file : List Text) × (written_file ≡ some file) × (word_at (read_byte file) 0 ≡ 0x0DE0FFFC)
write_rom_logisim-word_example =
    write_rom_logisim-word program rom [] 0 first_line_word (omega arith)

abbrev one_word : Instruction
one_word = record { src_line = 1; address = 0; word = 0x0E0F0000 }

reset_small : reset_target (one_word ∷ []) none ram (some 0) < 2 ^ 18
unfolding reset_target
reset_small = omega arith

write_rom_logisim-reset_example :
    (file : List Text) × (write_rom_logisim (one_word ∷ []) none ram (some 0) ≡ some file)
    × (jump_target (word_at (read_byte file) 0x3FFFE) (
          execute
            (word_at (read_byte file) 0x3FFFC ∷ word_at (read_byte file) 0x3FFFD ∷ [])
            flashed)
        ≡ some (0xFFF00000 + 4 * reset_target (one_word ∷ []) none ram (some 0)))
write_rom_logisim-reset_example =
    write_rom_logisim-reset one_word [] none ram (some 0) flashed (reset_small)
