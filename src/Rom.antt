-- ===== src/Rom.antt =====
-- `write_rom_logisim` of Ensamblador/assembler.py: the bytes of the image, the reset vector, and the
-- lines of the file. A line stands without its newline; CommandLine/Main has the writing of the file.
pub mod Reader
pub mod Rows
pub mod Image
pub mod Reset
pub mod PowerOn
pub mod Loop
use procesador_32_bits.Base.{
  ℕ, zero, suc, ◌+◌, ◌-◌, ◌*◌, ◌/◌, ◌%◌, ◌^◌, Bool, true, false, not, ◌||◌, List, [], ◌∷◌, ◌++◌,
  Option, none, some, bit_and, bit_or, ◌<<◌, ◌>>◌, ◌==◌, ltb, leb, is_some, map, if◌then◌else◌,
}
use procesador_32_bits.Base.Int.{pos}
use procesador_32_bits.Text.{Text, codes}
use procesador_32_bits.Dict
use procesador_32_bits.Dict.{Dict}
use procesador_32_bits.Isa.{build_word, opcode, ldi, adi, jmp, nop}
use procesador_32_bits.Address.{compute_hi_lo}
use procesador_32_bits.FirstPass.{DataMode, rom}
use procesador_32_bits.FirstPass.Start.{load_register, jump_word}
use procesador_32_bits.SecondPass.{Instruction}
use procesador_32_bits.Text.Format.{format_hex}

-- A dict from byte addresses to bytes, the latest assignment first.
abbrev pub ByteMap : Type 0
ByteMap = List (ℕ × ℕ)

-- byte_map.get(address, 0)
unfoldable pub get_byte : ByteMap → ℕ → ℕ
get_byte [] address = 0
get_byte ((k, b) ∷ m) address = if k == address then b else get_byte m address

-- The bytes of a word, the highest first.
unfoldable pub word_to_bytes : ℕ → List ℕ
word_to_bytes w =
    bit_and (w >> 24) 0xFF ∷ bit_and (w >> 16) 0xFF ∷ bit_and (w >> 8) 0xFF ∷ bit_and w 0xFF ∷ []

-- byte_map[address + i] = byte, for each byte in turn
unfoldable pub put_bytes : ℕ → List ℕ → ByteMap → ByteMap
put_bytes address [] m = m
put_bytes address (b ∷ bs) m = put_bytes (address + 1) bs ((address, b) ∷ m)

-- for _, word_addr, word in instructions
unfoldable pub put_image : List Instruction → ByteMap → ByteMap
unfolding put_bytes word_to_bytes
put_image [] m = m
put_image (x ∷ xs) m = put_image xs (put_bytes (x.address * 4) (word_to_bytes x.word) m)

-- max(byte_map.keys())
unfoldable pub max_address : ByteMap → ℕ
max_address [] = 0
max_address ((k, b) ∷ m) = let rest = max_address m in if leb k rest then rest else k

-- `main`, or `"main"` with its quotes
abbrev pub main_address : Dict ℕ → Option ℕ
main_address d = elim (Dict.get d (codes "main")) [
  | some a ↦ some a
  | none ↦ Dict.get d (codes "\"main\"")
]

abbrev pub start_address : Option ℕ → Dict ℕ → Option ℕ
start_address (some a) d = some a
start_address none d = main_address d

-- The labels that the vector may jump to; '.start' counts in ROM mode only.
abbrev pub entry_address : Option (Dict ℕ) → DataMode → Option ℕ
entry_address none mode = none
entry_address (some d) rom = start_address (Dict.get d (codes ".start")) d
entry_address (some d) mode = main_address d

-- The first word of .text, or of the image, where there is no such label. The message for an image
-- with no instruction is not reached.
abbrev pub first_address : Option ℕ → List Instruction → ℕ
first_address (some start) xs = start
first_address none [] = 0
first_address none (x ∷ xs) = x.address

abbrev target_or : Option ℕ → ℕ → ℕ
target_or (some a) otherwise = a
target_or none otherwise = otherwise

-- reset_target_addr
unfoldable pub reset_target : List Instruction → Option (Dict ℕ) → DataMode → Option ℕ → ℕ
unfolding Dict.get
reset_target xs label_map mode text_start_word =
    target_or (entry_address label_map mode) (first_address text_start_word xs)

-- H LDI R15, hi16; SLT ADI R15, lo16; JMP R15; NOP
unfoldable pub reset_words : ℕ → List ℕ
unfolding load_register compute_hi_lo build_word opcode
reset_words target =
    load_register 15 (compute_hi_lo (pos target))
    ++ jump_word ∷ build_word 0b000 (opcode nop) 0 ∷ []

abbrev bytes_of : List ℕ → List ℕ
bytes_of [] = []
bytes_of (w ∷ ws) = word_to_bytes w ++ bytes_of ws

unfoldable pub reset_bytes : ℕ → List ℕ
unfolding reset_words word_to_bytes
reset_bytes target = bytes_of (reset_words target)

-- The bytes of a row: `n` bytes from `address` on.
unfoldable pub row_bytes : ℕ → ℕ → ByteMap → List ℕ
unfolding get_byte
row_bytes zero address m = []
row_bytes (suc n) address m = get_byte m address ∷ row_bytes n (address + 1) m

-- any(b != 0 for b in row_bytes)
unfoldable pub any_byte : List ℕ → Bool
any_byte [] = false
any_byte (b ∷ bs) = not (b == 0) || any_byte bs

-- ' '.join(f"{b:02x}" for b in row_bytes), behind what stands before it
unfoldable pub join_bytes : List ℕ → Text
unfolding format_hex
join_bytes [] = []
join_bytes (b ∷ []) = format_hex 2 b
join_bytes (b ∷ c ∷ bs) = format_hex 2 b ++ b' ' ∷ join_bytes (c ∷ bs)

-- f"{row:05x}: {hex_bytes}"
unfoldable pub row_line : ℕ → List ℕ → Text
unfolding join_bytes format_hex
row_line row bytes = format_hex 5 row ++ b':' ∷ b' ' ∷ join_bytes bytes

-- The loop over the rows, on fuel.
unfoldable pub write_rows : ℕ → ℕ → ℕ → ByteMap → List Text
unfolding row_line row_bytes any_byte
write_rows zero row last_row m = []
write_rows (suc fuel) row last_row m =
    let rest = write_rows fuel (row + 16) last_row m in
    if leb row last_row
    then (if any_byte (row_bytes 16 row m) then row_line row (row_bytes 16 row m) ∷ rest else rest)
    else []

abbrev pub last_row_of : ByteMap → ℕ
last_row_of m = max_address m / 16 * 16

abbrev pub file_of : ByteMap → ℕ → List Text
file_of m target =
    codes "v3.0 hex words addressed"
    ∷ (write_rows (last_row_of m / 16 + 1) 0 (last_row_of m) m
        ++ row_line 0xFFFF0 (reset_bytes target) ∷ [])

-- The lines of the file; `none` where nothing is written, since there is no byte.
unfoldable pub write_rom_logisim :
    List Instruction → Option (Dict ℕ) → DataMode → Option ℕ → Option (List Text)
unfolding put_image reset_target write_rows row_line reset_bytes max_address
write_rom_logisim [] label_map mode text_start_word = none
write_rom_logisim (x ∷ xs) label_map mode text_start_word =
    some (file_of (put_image (x ∷ xs) []) (reset_target (x ∷ xs) label_map mode text_start_word))
