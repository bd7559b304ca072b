-- ===== src/FirstPass/Data.antt =====
-- The handlers of the data directives in `first_pass`: .comm, .p2align, .long, .short, .byte, .asciz
-- and .zero. In ROM mode the sections .data and .bss go to RAM; all else goes to the ROM image.
use procesador_32_bits.Base.{
  is_some, ℕ, ◌+◌, ◌-◌, ◌*◌, ◌/◌, ◌%◌, ◌^◌, Bool, true, false, ◌&&◌, ◌||◌, List, [], ◌∷◌, ◌++◌,
  Option, none, some, ◌==◌, ltb, length, replicate, if◌then◌else◌,
}
use procesador_32_bits.Base.Int.{ℤ, pos, low_bits}
use procesador_32_bits.Text.{Text, strip}
use procesador_32_bits.Text.Number.{parse_int}
use procesador_32_bits.Dict
use procesador_32_bits.Dict.{Dict}
use procesador_32_bits.Operands.{normalize_label}
use procesador_32_bits.Expression.{label_expr_match}
use procesador_32_bits.FirstPass.{
  Section, text, rodata, data_, bss, DataMode, rom, ram, State, raw_word, bad_number, bad_symbol,
  duplicate_symbol, add_error, bss_base, mark_text_start, emit, emit_zeros, padding,
  flush_pending_bytes,
}

-- section in ('text', 'rodata') or (section in ('data', 'bss') and mode == 'ram')
abbrev pub in_image : DataMode → Section → Bool
in_image mode text = true
in_image mode rodata = true
in_image ram section = true
in_image mode section = false

-- _parse_int_val, which logs an error; the callers take 0 for None
unfoldable pub logged : Option ℤ → Text → ℕ → State → ℤ × State
unfolding strip
logged (some n) v line s = (n, s)
logged none v line s = (pos 0, add_error (some line) (bad_number (strip v)) s)

unfoldable pub logged_int : Text → ℕ → State → ℤ × State
unfolding logged parse_int strip
logged_int v line s = logged (parse_int (strip v)) v line s

-- max(1, n // 4)
abbrev pub words_of_alignment : ℕ → ℕ
words_of_alignment n = if n / 4 == 0 then 1 else n / 4

-- Zero words up to a multiple of `n` words.
unfoldable pub pad_image : Bool → ℕ → ℕ → State → State
unfolding emit_zeros mark_text_start
pad_image marks n line s =
    if s.rom_address % n == 0
    then s
    else emit_zeros (n - s.rom_address % n) line (if marks then mark_text_start s else s)

-- .comm in ROM mode, and in any other
unfoldable pub define_comm : DataMode → Text → ℕ → ℕ → ℕ → State → State
unfolding pad_image emit_zeros Dict.set
define_comm rom name size align line s =
    let align_bytes = if ltb 0 align then align else 1 in
    let offset = s.ram_bss_offset + padding align_bytes s.ram_bss_offset in
    record s {
      label_map = Dict.set s.label_map name (bss_base + offset);
      ram_bss_offset = offset + size;
    }
define_comm mode name size align line s =
    let s' = pad_image false (words_of_alignment align) line s in
    emit_zeros ((size + 3) / 4) line
      (record s' { label_map = Dict.set s'.label_map name s'.rom_address })

unfoldable pub comm_symbol : Option Text → DataMode → Text → ℕ → ℕ → ℕ → State → State
unfolding define_comm
comm_symbol none mode sym size align line s = add_error (some line) (bad_symbol sym) s
comm_symbol (some name) mode sym size align line s =
    if is_some (Dict.get s.label_map name)
    then add_error (some line) (duplicate_symbol name) s
    else define_comm mode name size align line s

unfoldable pub do_comm : DataMode → Text → ℕ → ℕ → ℕ → State → State
unfolding comm_symbol normalize_label strip
do_comm mode sym size align line s =
    comm_symbol (normalize_label (strip sym)) mode (strip sym) size align line s

-- rom_data_bytes.extend(bytes); ram_data_offset += len(bytes)
unfoldable pub extend_data : List ℕ → State → State
extend_data bytes s = record s {
  rom_data_bytes = s.rom_data_bytes ++ bytes;
  ram_data_offset = s.ram_data_offset + length bytes;
}

-- Zero bytes up to a multiple of `n` bytes.
unfoldable pub pad_data : ℕ → State → State
unfolding extend_data
pad_data n s = extend_data (replicate (padding n s.ram_data_offset) 0) s

-- ram_bss_offset, padded to `n` and moved by `size`
unfoldable pub reserve_bss : ℕ → ℕ → State → State
reserve_bss n size s = record s {
  ram_bss_offset = s.ram_bss_offset + (padding n s.ram_bss_offset + size);
}

unfoldable pub align_ram : Section → ℕ → State → State
unfolding pad_data reserve_bss
align_ram data_ n s = pad_data n s
align_ram bss n s = reserve_bss n 0 s
align_ram _ n s = s

-- .p2align n
unfoldable pub do_align : DataMode → ℕ → ℕ → State → State
unfolding flush_pending_bytes pad_image align_ram
do_align mode n line s =
    if in_image mode s.current_section
    then pad_image true (words_of_alignment (2 ^ n)) line (flush_pending_bytes s)
    else elim mode [ rom ↦ align_ram s.current_section (2 ^ n) s | _ ↦ s ]

-- (val >> 8 * k) & 0xFF
abbrev pub byte_at : ℕ → ℕ → ℕ
byte_at k val = val / 2 ^ (8 * k) % 256

-- rom_data_relocs[offset] = expr
unfoldable pub set_reloc : ℕ → Text → List (ℕ × Text) → List (ℕ × Text)
set_reloc offset expr [] = (offset, expr) ∷ []
set_reloc offset expr ((o, e) ∷ rs) =
    if o == offset then (o, expr) ∷ rs else (o, e) ∷ set_reloc offset expr rs

unfoldable pub data_long : Option Text → ℕ → State → State
unfolding extend_data set_reloc
data_long none val s =
    extend_data (byte_at 0 val ∷ byte_at 1 val ∷ byte_at 2 val ∷ byte_at 3 val ∷ []) s
data_long (some expr) val s =
    extend_data (0 ∷ 0 ∷ 0 ∷ 0 ∷ [])
      (record s { rom_data_relocs = set_reloc s.ram_data_offset expr s.rom_data_relocs })

unfoldable pub ram_long : Section → Option Text → ℕ → State → State
unfolding data_long pad_data reserve_bss
ram_long data_ label_expr val s = data_long label_expr val (pad_data 4 s)
ram_long bss label_expr val s = reserve_bss 4 4 s
ram_long _ label_expr val s = s

unfoldable pub store_long : DataMode → Option Text → ℕ → ℕ → State → State
unfolding flush_pending_bytes mark_text_start emit ram_long
store_long mode label_expr val line s =
    if in_image mode s.current_section
    then emit (raw_word val label_expr line) (mark_text_start (flush_pending_bytes s))
    else elim mode [ rom ↦ ram_long s.current_section label_expr val s | _ ↦ s ]

-- A literal, an expression of a label, or neither.
unfoldable pub long_value : Option ℤ → DataMode → Text → ℕ → State → State
unfolding store_long normalize_label label_expr_match
long_value (some n) mode v line s = store_long mode none (low_bits 32 n) line s
long_value none mode v line s =
    if is_some (normalize_label v) || is_some (label_expr_match v)
    then store_long mode (some v) 0 line s
    else store_long mode none 0 line (add_error (some line) (bad_number v) s)

-- .long and .word
unfoldable pub do_long : DataMode → List Text → ℕ → State → State
unfolding long_value parse_int strip
do_long mode [] line s = s
do_long mode (v ∷ vs) line s = do_long mode vs line (long_value (parse_int (strip v)) mode v line s)

-- Bytes that are not aligned: to the .data blob, over .bss, or to the pending bytes.
unfoldable pub store_bytes : DataMode → Section → List ℕ → State → State
unfolding extend_data reserve_bss
store_bytes rom data_ bytes s = extend_data bytes s
store_bytes rom bss bytes s = reserve_bss 1 (length bytes) s
store_bytes mode section bytes s = record s { pending_bytes = s.pending_bytes ++ bytes }

unfoldable pub store_short : DataMode → Section → ℕ → State → State
unfolding store_bytes pad_data reserve_bss
store_short rom data_ val s = extend_data (byte_at 0 val ∷ byte_at 1 val ∷ []) (pad_data 2 s)
store_short rom bss val s = reserve_bss 2 2 s
store_short mode section val s = store_bytes mode section (byte_at 0 val ∷ byte_at 1 val ∷ []) s

unfoldable pub short_value : DataMode → ℕ → ℤ × State → State
unfolding store_short
short_value mode line (n, s) = store_short mode s.current_section (low_bits 16 n) s

unfoldable pub do_short : DataMode → List Text → ℕ → State → State
unfolding short_value logged_int
do_short mode [] line s = s
do_short mode (v ∷ vs) line s = do_short mode vs line (short_value mode line (logged_int v line s))

unfoldable pub byte_value : DataMode → ℤ × State → State
unfolding store_bytes
byte_value mode (n, s) = store_bytes mode s.current_section (low_bits 8 n ∷ []) s

unfoldable pub do_byte : DataMode → List Text → ℕ → State → State
unfolding byte_value logged_int
do_byte mode [] line s = s
do_byte mode (v ∷ vs) line s = do_byte mode vs line (byte_value mode (logged_int v line s))

-- .asciz and .ascii
unfoldable pub do_ascii : DataMode → List ℕ → State → State
unfolding store_bytes
do_ascii mode [] s = s
do_ascii mode (b ∷ bs) s = do_ascii mode bs (store_bytes mode s.current_section (b ∷ []) s)

abbrev pub all_bytes : List ℕ → Bool
all_bytes [] = true
all_bytes (b ∷ bs) = ltb b 256 && all_bytes bs

-- A bytearray refuses what is above 255: the ValueError is raised before anything is stored.
unfoldable pub do_string : DataMode → List ℕ → State → State
unfolding do_ascii
do_string mode bytes s =
    if all_bytes bytes then do_ascii mode bytes s else record s { raised = true }

-- .zero, .space and .skip
unfoldable pub do_zeros : DataMode → ℕ → State → State
unfolding store_bytes
do_zeros mode n s = store_bytes mode s.current_section (replicate n 0) s
