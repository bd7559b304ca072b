-- ===== src/Rom/PowerOn.antt =====
-- From the source to the first instruction of main: the file, the reset vector and `.start` together.
use procesador_32_bits.Base.{
  false, ℕ, zero, suc, ◌+◌, ◌*◌, ◌^◌, ◌≤◌, ◌<◌, ◌≡◌, refl, sym, ap, ◌∙◌, true, ◌||◌, List, [], ◌∷◌,
  Option, some, arith, ltb, length, get_or, get_elem?, All,
}
use procesador_32_bits.Text.{Text, codes}
use procesador_32_bits.Dict
use procesador_32_bits.Dict.{Dict}
use procesador_32_bits.FirstPass.{State, rom, DataMode}
use procesador_32_bits.FirstPass.Lines.{raises}
use procesador_32_bits.FirstPass.Start.{data_words}
use procesador_32_bits.Machine.{Machine, execute, jump_target}
use procesador_32_bits.SecondPass.{Instruction, Assembly, assemble_lines}
use procesador_32_bits.SecondPass.Image.{Numbered, HasWord, assemble_lines_image}
use procesador_32_bits.SecondPass.Boot.{scanned, assemble_lines-Boots}
use procesador_32_bits.SecondPass.Boot.Parts.{words_in, length-words_in}
use procesador_32_bits.SecondPass.Boot.Routine.{HoldsRom, Boots}
use procesador_32_bits.Rom.{write_rom_logisim, reset_target}
use procesador_32_bits.Rom.Reader.{read_byte}
use procesador_32_bits.Rom.Image.{word_at, written}
use procesador_32_bits.Rom.Reset.{write_rom_logisim-reset, reset_target-start}

-- The ROM of the machine, from 0xFFF00000 on, holds the words of the file.
abbrev pub HoldsFile : List Text → Machine → Type 0
HoldsFile file m = (k : ℕ) → k < 2 ^ 18 → m.mem (0xFFF00000 + 4 * k) ≡ word_at (read_byte file) k

-- Where a machine with the file jumps after a reset, whatever its registers hold.
abbrev pub reset_jump : Machine → Option ℕ
reset_jump m = jump_target (m.mem 0xFFFFFFF8) (execute (m.mem 0xFFFFFFF0 ∷ m.mem 0xFFFFFFF4 ∷ []) m)

some_word :
    (xs : List Instruction) (k : ℕ)
    → k < length xs
    → (x : Instruction) × (get_elem? xs k ≡ some x) × (get_or (words_in xs) k 0 ≡ x.word)
some_word [] k h = elim h [ ]
some_word (x ∷ xs) zero h = (x, refl, refl)
some_word (x ∷ xs) (suc k) h = some_word xs k (omega arith)

same_file : {a b : List Text} → some a ≡ some b → a ≡ b
same_file e = cc

-- A ROM with the file holds the image that the file was written from.
HoldsFile-HoldsRom :
    (xs : List Instruction) (d : Option (Dict ℕ)) (mode : DataMode) (start : Option ℕ)
    (file : List Text) (m : Machine)
    → Numbered 0 xs
    → All HasWord xs
    → length xs ≤ 0x3FFFC
    → write_rom_logisim xs d mode start ≡ some file
    → HoldsFile file m
    → HoldsRom (words_in xs) m
HoldsFile-HoldsRom xs d mode start file m n f small w holds k h =
    let size : k < length xs = omega (arith, h, length-words_in xs) in
    let (x, e, v) = some_word xs k size in
    let (file', w', word) = written xs d mode start k n f e (omega arith) in
    let same : file ≡ file' = same_file (sym w ∙ w') in
    holds k (omega arith) ∙ (ap (λ l. word_at (read_byte l) k) same ∙ (word ∙ sym v))

reset_jump-target :
    (xs : List Instruction) (d : Option (Dict ℕ)) (mode : DataMode) (start : Option ℕ)
    (file : List Text) (m : Machine)
    → write_rom_logisim xs d mode start ≡ some file
    → HoldsFile file m
    → reset_target xs d mode start < 2 ^ 18
    → reset_jump m ≡ some (0xFFF00000 + 4 * reset_target xs d mode start)
unfolding write_rom_logisim
reset_jump-target [] d mode start file m w holds h = absurd (cc)
reset_jump-target (x ∷ xs) d mode start file m w holds h =
    let (file', w', jump) = write_rom_logisim-reset x xs d mode start m h in
    let same : file' ≡ file = same_file (sym w' ∙ w) in
    rw
      (
        holds 0x3FFFC (omega arith),
        holds 0x3FFFD (omega arith),
        holds 0x3FFFE (omega arith),
        ← same,
      )
      jump

-- Assembled in ROM mode with no error and no exception, a program that has data, a label main in the
-- ROM and at most 8192 words of .data, in an image below the reset vector, starts: on a machine with
-- the file in its ROM the reset vector jumps to `.start`, and `.start` boots the program.
pub assemble_lines_power_on :
    (lines : List Text) (relocs : List (ℕ × Text)) (a : ℕ) (file : List Text) (m : Machine)
    → let s : State = scanned lines relocs in
      let out : Assembly = assemble_lines lines rom relocs in
      raises rom lines relocs ≡ false
      → (ltb 0 (length s.rom_data_bytes) || ltb 0 s.ram_bss_offset) ≡ true
      → Dict.get s.label_map (codes "main") ≡ some a
      → a < 2 ^ 18
      → data_words s ≤ 8192
      → s.rom_address + data_words s < 2 ^ 18
      → length out.instructions ≤ 0x3FFFC
      → out.errors ≡ []
      → write_rom_logisim out.instructions (some out.label_map) rom out.text_start_word ≡ some file
      → HoldsFile file m
      → (reset_jump m ≡ some (0xFFF00000 + 4 * (s.rom_address + data_words s)))
        × Boots out.label_map s a (words_in out.instructions) m
assemble_lines_power_on lines relocs a file m quiet filled main reach small fits size errors w
      holds =
    let s = scanned lines relocs in
    let out = assemble_lines lines rom relocs in
    let (numbered, words, _) = assemble_lines_image lines rom relocs in
    let image =
      HoldsFile-HoldsRom out.instructions (some out.label_map) rom out.text_start_word file m
        numbered words size w holds in
    let (label, boots) =
      assemble_lines-Boots lines relocs a m quiet filled main reach small (omega arith) errors
        image in
    let target =
      reset_target-start out.instructions out.label_map out.text_start_word
        (s.rom_address + data_words s) label in
    let jump =
      reset_jump-target out.instructions (some out.label_map) rom out.text_start_word file m w holds
        (omega (arith, target)) in
    (jump ∙ ap (λ t. some (0xFFF00000 + 4 * t)) target, boots)
