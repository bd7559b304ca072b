-- ===== src/FirstPass/Start.antt =====
-- What `first_pass` does behind its loop: the last bytes, the addresses of the .bss labels, and, in ROM
-- mode, the .data blob and the routine `.start` that copies it to RAM and jumps to the program.
-- FirstPass/StartListing has the listing of that routine.
pub mod Copy
pub mod Entry
pub mod Jump
pub mod Placed
pub mod Addresses
use procesador_32_bits.Base.{
  zero, suc, suc, ℕ, ◌+◌, ◌-◌, ◌*◌, ◌/◌, ◌%◌, ◌^◌, ◌&&◌, ◌||◌, List, [], ◌∷◌, ◌++◌, Option, none,
  some, bit_or, ◌<<◌, ◌==◌, ltb, leb, length, is_some, map, if◌then◌else◌,
}
use procesador_32_bits.Base.Int.{pos}
use procesador_32_bits.Text.{Text, codes}
use procesador_32_bits.Dict
use procesador_32_bits.Dict.{Dict}
use procesador_32_bits.Isa.{build_word, opcode, ldi, adi, lod, str, jmp}
use procesador_32_bits.Address.{compute_hi_lo}
use procesador_32_bits.FirstPass.{
  DataMode, rom, State, PendingInstruction, words, pending_tokens, raw_word, no_entry, add_error,
  initial, ram_base, bss_base, emit, pad_to_words, word_of_bytes, flush_pending_bytes,
}
use procesador_32_bits.FirstPass.Lines.{do_lines, raises}

-- (ram_data_offset + 3) & ~3
abbrev pub bss_start : State → ℕ
bss_start s = (s.ram_data_offset + 3) / 4 * 4

-- One label of the loop behind `FIXUP BSS ADDRESSES`.
unfoldable pub fix_address : ℕ → ℕ → ℕ
fix_address start address =
    if leb bss_base address && ltb address 0x0B600000
    then ram_base + start + (address - bss_base)
    else address

unfoldable pub fix_labels : ℕ → Dict ℕ → Dict ℕ
unfolding fix_address
fix_labels start [] = []
fix_labels start ((k, address) ∷ d) = (k, fix_address start address) ∷ fix_labels start d

unfoldable pub get_reloc : ℕ → List (ℕ × Text) → Option Text
get_reloc offset [] = none
get_reloc offset ((o, e) ∷ rs) = if o == offset then some e else get_reloc offset rs

abbrev pub blob_word : Option Text → ℕ → PendingInstruction
blob_word none val = raw_word val none 0
blob_word (some expr) val = raw_word 0 (some expr) 0

-- The words of the .data blob from `byte_offset` on.
unfoldable pub emit_blob : ℕ → List ℕ → State → State
unfolding emit get_reloc word_of_bytes
emit_blob byte_offset (b0 ∷ b1 ∷ b2 ∷ b3 ∷ bytes) s =
    emit_blob (byte_offset + 4) bytes
      (emit (blob_word (get_reloc byte_offset s.rom_data_relocs) (word_of_bytes b0 b1 b2 b3)) s)
emit_blob byte_offset _ s = s

-- An instruction of the routine; `rom_address` is not moved any more.
abbrev pub append_words : List ℕ → State → State
append_words ws s = record s { pending = s.pending ++ map (λ w. words (w ∷ []) 0) ws }

-- H LDI Rn, hi and SLT ADI Rn, lo
unfoldable pub load_register : ℕ → ℕ × ℕ → List ℕ
unfolding build_word opcode
load_register n (hi, lo) =
    build_word 0b100 (opcode ldi) (bit_or (n << 20) hi)
    ∷ build_word 0b100 (opcode adi) (bit_or (n << 20) lo)
    ∷ []

-- INT LOD R15, R2, offset and INT STR R1, R2, offset, for `n` words from word `i` on
unfoldable pub copy_words : ℕ → ℕ → List ℕ
unfolding build_word opcode
copy_words zero i = []
copy_words (suc n) i =
    build_word 0b010 (opcode lod) (bit_or (bit_or (15 << 20) (2 << 16)) (i * 4 % 2 ^ 16))
    ∷ build_word 0b010 (opcode str) (bit_or (bit_or (1 << 20) (2 << 16)) (i * 4 % 2 ^ 16))
    ∷ copy_words n (i + 1)

-- Part 1: nothing, if there is no word to copy.
unfoldable pub copy_routine : ℕ → ℕ → List ℕ
unfolding load_register copy_words compute_hi_lo
copy_routine zero start_word = []
copy_routine (suc n) start_word =
    load_register 15 (compute_hi_lo (pos start_word))
    ++ (load_register 1 (0x0400, 0x0000) ++ copy_words (suc n) 0)

-- `main`, or `"main"` with its quotes
abbrev pub main_entry : Dict ℕ → Option Text
main_entry d =
    if is_some (Dict.get d (codes "main"))
    then some (codes "main")
    else if is_some (Dict.get d (codes "\"main\""))
    then some (codes "\"main\"")
    else none

abbrev pub jump_word : ℕ
jump_word = build_word 0b000 (opcode jmp) (15 << 16)

unfoldable pub load_text_start : Option ℕ → State → State
unfolding load_register compute_hi_lo
load_text_start (some start) s = append_words (load_register 15 (compute_hi_lo (pos start))) s
load_text_start none s =
    append_words (load_register 15 (compute_hi_lo (pos 0))) (add_error none no_entry s)

-- Part 3: load the address of main, or of the first word of .text.
unfoldable pub load_entry : Option Text → State → State
unfolding load_text_start
load_entry (some name) s = record s {
  pending =
      s.pending
      ++ pending_tokens
          (codes "H" ∷ codes "LDI" ∷ codes "R15" ∷ (codes "%hi(" ++ (name ++ codes ")")) ∷ []) 0
        ∷ pending_tokens
            (codes "SLT" ∷ codes "ADI" ∷ codes "R15" ∷ (codes "%lo(" ++ (name ++ codes ")")) ∷ []) 0
        ∷ [];
}
load_entry none s = load_text_start s.text_start_word s

-- Step 1 and the label: the blob behind the program, and `.start` behind the blob.
unfoldable pub with_blob : State → State
unfolding emit_blob pad_to_words Dict.set
with_blob s =
    let blob = emit_blob 0 (pad_to_words s.rom_data_bytes) s in
    record blob {
      rom_data_bytes = pad_to_words s.rom_data_bytes;
      rom_data_relocs = [];
      label_map = Dict.set blob.label_map (codes ".start") blob.rom_address;
    }

-- num_data_words
abbrev pub data_words : State → ℕ
data_words s = length (pad_to_words s.rom_data_bytes) / 4

unfoldable pub with_copy : State → State
unfolding with_blob copy_routine pad_to_words
with_copy s = append_words (copy_routine (data_words s) s.rom_address) (with_blob s)

-- The blob, the label `.start` and the routine.
unfoldable pub inject_start : State → State
unfolding with_copy load_entry Dict.get build_word opcode
inject_start s =
    append_words (jump_word ∷ []) (load_entry (main_entry (with_copy s).label_map) (with_copy s))

unfoldable pub finish : DataMode → State → State
unfolding fix_labels inject_start
finish rom s =
    let fixed = record s { label_map = fix_labels (bss_start s) s.label_map } in
    if ltb 0 (length s.rom_data_bytes) || ltb 0 s.ram_bss_offset then inject_start fixed else fixed
finish mode s = s

-- The whole pass, or, where it raises, the state that it leaves; `relocs` is what an earlier call left
-- in `first_pass.rom_data_relocs`.
unfoldable pub first_pass : List Text → DataMode → List (ℕ × Text) → State
unfolding finish do_lines flush_pending_bytes
first_pass lines mode relocs =
    let s = do_lines mode 1 lines (initial relocs) in
    if raises mode lines relocs then s else finish mode (flush_pending_bytes s)
