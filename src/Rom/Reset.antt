-- ===== src/Rom/Reset.antt =====
-- The reset vector of the file: a processor that starts at 0xFFFFFFF0 loads the target and jumps to it.
use procesador_32_bits.Base.{
  ℕ, ◌+◌, ◌*◌, ◌^◌, ◌<◌, ◌≡◌, refl, ap, ◌∙◌, List, [], ◌∷◌, Option, some, arith, bit_or, ◌<<◌,
}
use procesador_32_bits.Base.Int.{pos}
use procesador_32_bits.Text.{Text, codes}
use procesador_32_bits.Dict
use procesador_32_bits.Dict.{Dict}
use procesador_32_bits.Isa.{build_word, opcode, ldi, adi, jmp}
use procesador_32_bits.Address.{compute_hi_lo}
use procesador_32_bits.FirstPass.{DataMode, rom}
use procesador_32_bits.FirstPass.Layout.Finish.{routine_word}
use procesador_32_bits.FirstPass.Start.{load_register, jump_word}
use procesador_32_bits.FirstPass.Start.Jump.{execute-entered, jump-entered}
use procesador_32_bits.Machine.{Machine, execute, jump_target}
use procesador_32_bits.SecondPass.{Instruction}
use procesador_32_bits.Rom.{
  ByteMap, put_image, file_of, reset_bytes, reset_target, write_rom_logisim,
}
use procesador_32_bits.Rom.Reader.{read_byte}
use procesador_32_bits.Rom.Image.{ap₄, word_at, word_to_bytes_word, read_byte-file_of, big_endian}

abbrev ldi_word : ℕ → ℕ
ldi_word target = build_word 4 (opcode ldi) (bit_or (15 << 20) (compute_hi_lo (pos target)).0)

abbrev adi_word : ℕ → ℕ
adi_word target = build_word 4 (opcode adi) (bit_or (15 << 20) (compute_hi_lo (pos target)).1)

module _ (m : ByteMap) (target : ℕ) where
  abbrev byte : ℕ → ℕ
  byte a = read_byte (file_of m target) a

  reset_ldi : word_at byte 0x3FFFC ≡ ldi_word target
  unfolding reset_bytes
  reset_ldi =
      ap₄ big_endian (read_byte-file_of m target 0xFFFF0) (read_byte-file_of m target 0xFFFF1)
        (read_byte-file_of m target 0xFFFF2) (read_byte-file_of m target 0xFFFF3)
      ∙ word_to_bytes_word (ldi_word target) (routine_word 4 ldi _ (omega arith))

  reset_adi : word_at byte 0x3FFFD ≡ adi_word target
  unfolding reset_bytes
  reset_adi =
      ap₄ big_endian (read_byte-file_of m target 0xFFFF4) (read_byte-file_of m target 0xFFFF5)
        (read_byte-file_of m target 0xFFFF6) (read_byte-file_of m target 0xFFFF7)
      ∙ word_to_bytes_word (adi_word target) (routine_word 4 adi _ (omega arith))

  reset_jmp : word_at byte 0x3FFFE ≡ jump_word
  unfolding reset_bytes
  reset_jmp =
      ap₄ big_endian (read_byte-file_of m target 0xFFFF8) (read_byte-file_of m target 0xFFFF9)
        (read_byte-file_of m target 0xFFFFA) (read_byte-file_of m target 0xFFFFB)
      ∙ word_to_bytes_word jump_word (routine_word 0 jmp (15 << 16) (omega arith))

  execute-reset :
      (o : Machine)
      → execute (ldi_word target ∷ adi_word target ∷ []) o
        ≡ execute (load_register 15 (compute_hi_lo (pos target))) o
  unfolding load_register
  execute-reset o = refl

  reset_jumps :
      (o : Machine)
      → target < 2 ^ 18
      → jump_target
          (word_at byte 0x3FFFE)
          (execute (word_at byte 0x3FFFC ∷ word_at byte 0x3FFFD ∷ []) o)
        ≡ some (0xFFF00000 + 4 * target)
  reset_jumps o h =
      rw (reset_ldi, reset_adi, reset_jmp)
        (ap (jump_target jump_word) (execute-reset o ∙ execute-entered target o)
          ∙ jump-entered target o h)

-- An image with an instruction is written, and the words of the file at 0xFFFF0, run on any machine,
-- load the byte address of the target, a word of the ROM, and jump to it.
pub write_rom_logisim-reset :
    (x : Instruction) (xs : List Instruction) (d : Option (Dict ℕ)) (mode : DataMode)
    (start : Option ℕ) (o : Machine)
    → reset_target (x ∷ xs) d mode start < 2 ^ 18
    → (file : List Text) × (write_rom_logisim (x ∷ xs) d mode start ≡ some file)
      × (jump_target
            (word_at (read_byte file) 0x3FFFE)
            (execute (word_at (read_byte file) 0x3FFFC ∷ word_at (read_byte file) 0x3FFFD ∷ []) o)
          ≡ some (0xFFF00000 + 4 * reset_target (x ∷ xs) d mode start))
unfolding write_rom_logisim
write_rom_logisim-reset x xs d mode start o h =
    let target = reset_target (x ∷ xs) d mode start in
    let m = put_image (x ∷ xs) [] in (file_of m target, refl, reset_jumps m target o h)

-- In ROM mode the target is `.start`, where there is one.
pub reset_target-start :
    (xs : List Instruction) (d : Dict ℕ) (start : Option ℕ) (a : ℕ)
    → Dict.get d (codes ".start") ≡ some a
    → reset_target xs (some d) rom start ≡ a
unfolding reset_target
reset_target-start xs d start a e = rw e
