-- ===== src/FirstPass.antt =====
-- The state of `first_pass` of Ensamblador/assembler.py and its local helpers: `PendingInstruction`,
-- `_mark_text_start` and `flush_pending_bytes`.
pub mod Directive
pub mod Data
pub mod Lines
pub mod Start
pub mod Layout
pub mod Growth
pub mod Bytes
pub mod StartListing
pub mod Relocs
use procesador_32_bits.Base.{
  ℕ, ◌+◌, ◌-◌, ◌*◌, ◌%◌, ◌^◌, Bool, true, false, List, [], ◌∷◌, ◌++◌, Option, none, some, bit_or,
  ◌<<◌, length, replicate, if◌then◌else◌,
}
use procesador_32_bits.Text.{Text}
use procesador_32_bits.Dict.{Dict}
use procesador_32_bits.Errors.{Message, AssemblerError}

-- An instruction that is encoded, one whose tokens wait for the second pass, or a raw word, which may
-- wait for the address of an expression. The last field is `src_line`.
pub data PendingInstruction : Type 0 where
  words : List ℕ → ℕ → PendingInstruction
  pending_tokens : List Text → ℕ → PendingInstruction
  raw_word : ℕ → Option Text → ℕ → PendingInstruction

pub data Problem : Type 0 where
  assembler : Message → Problem
  bad_number bad_symbol duplicate_symbol bad_label duplicate_label : Text → Problem
  no_entry : Problem

-- An entry of `errors`: the line that its text shows, if it shows one.
pub record Report : Type 0 where
  pub line : Option ℕ
  pub problem : Problem

-- str(e)
abbrev pub report_of : AssemblerError → Report
report_of e = record { line = e.prefix; problem = assembler e.message }

pub data Section : Type 0 where
  text rodata data_ bss : Section

-- data_mode.lower(): 'rom', 'ram', or a text that is neither.
pub data DataMode : Type 0 where
  rom ram other_mode : DataMode

pub record State : Type 0 where
  pub current_section : Section
  pub label_map : Dict ℕ
  pub pending : List PendingInstruction
  pub errors : List Report
  pub rom_address : ℕ
  pub text_start_word : Option ℕ
  pub rom_data_bytes : List ℕ
  pub ram_data_offset : ℕ
  pub ram_bss_offset : ℕ
  pub pending_bytes : List ℕ
  -- the attribute `first_pass.rom_data_relocs`, which outlives a call
  pub rom_data_relocs : List (ℕ × Text)
  -- a ValueError has left the call: no line is read any more
  pub raised : Bool

abbrev pub initial : List (ℕ × Text) → State
initial relocs = record {
  current_section = text;
  label_map = [];
  pending = [];
  errors = [];
  rom_address = 0;
  text_start_word = none;
  rom_data_bytes = [];
  ram_data_offset = 0;
  ram_bss_offset = 0;
  pending_bytes = [];
  rom_data_relocs = relocs;
  raised = false;
}

abbrev pub ram_base : ℕ
ram_base = 0x04000000

-- The provisional base of the .bss labels.
abbrev pub bss_base : ℕ
bss_base = 0x0B550000

abbrev pub add_error : Option ℕ → Problem → State → State
add_error line problem s = record s {
  errors = s.errors ++ record { line = line; problem = problem } ∷ [];
}

abbrev first_text : Section → Option ℕ → ℕ → Option ℕ
first_text text none address = some address
first_text _ start address = start

unfoldable pub mark_text_start : State → State
mark_text_start s = record s {
  text_start_word = first_text s.current_section s.text_start_word s.rom_address;
}

-- pending.append(…); rom_address += 1
unfoldable pub emit : PendingInstruction → State → State
emit i s = record s { pending = s.pending ++ i ∷ []; rom_address = s.rom_address + 1 }

unfoldable pub emit_zeros : ℕ → ℕ → State → State
emit_zeros n line s = record s {
  pending = s.pending ++ replicate n (raw_word 0 none line);
  rom_address = s.rom_address + n;
}

-- The bytes missing to a multiple of `n`: (n - x % n) % n
abbrev pub padding : ℕ → ℕ → ℕ
padding n x = (n - x % n) % n

unfoldable pub pad_to_words : List ℕ → List ℕ
pad_to_words bytes = bytes ++ replicate (padding 4 (length bytes)) 0

-- b0 | (b1 << 8) | (b2 << 16) | (b3 << 24)
unfoldable pub word_of_bytes : ℕ → ℕ → ℕ → ℕ → ℕ
word_of_bytes b0 b1 b2 b3 = bit_or (bit_or (bit_or b0 (b1 << 8)) (b2 << 16)) (b3 << 24)

-- The words of a list of bytes whose length is a multiple of four.
unfoldable pub words_of_bytes : List ℕ → List ℕ
unfolding word_of_bytes
words_of_bytes (b0 ∷ b1 ∷ b2 ∷ b3 ∷ bytes) = word_of_bytes b0 b1 b2 b3 ∷ words_of_bytes bytes
words_of_bytes _ = []

unfoldable pub emit_words : List ℕ → State → State
unfolding emit mark_text_start
emit_words [] s = s
emit_words (w ∷ ws) s = emit_words ws (emit (raw_word w none 0) (mark_text_start s))

unfoldable pub flush_pending_bytes : State → State
unfolding emit_words words_of_bytes pad_to_words
flush_pending_bytes s = record (emit_words (words_of_bytes (pad_to_words s.pending_bytes)) s) {
  pending_bytes = [];
}
