-- ===== src/FirstPass/StartListing.antt =====
-- The listing of `.start` that `first_pass` of Ensamblador/assembler.py returns beside the image: lines of
-- comments for the end of the source. An f-string is the list of its
-- parts, joined at the end.
use procesador_32_bits.Base.{
  ℕ, zero, suc, ◌+◌, ◌*◌, ◌||◌, List, [], ◌∷◌, ◌++◌, Option, none, some, length, ltb, map,
  if◌then◌else◌,
}
use procesador_32_bits.Base.Int.{pos}
use procesador_32_bits.Text.{Text, codes}
use procesador_32_bits.Text.Format.{format_upper, format_number, decimal}
use procesador_32_bits.Address.{compute_hi_lo}
use procesador_32_bits.FirstPass.{DataMode, rom, State, ram_base, initial, flush_pending_bytes}
use procesador_32_bits.FirstPass.Lines.{do_lines}
use procesador_32_bits.FirstPass.Start.{bss_start, fix_labels, main_entry, data_words, with_copy}

-- A part of an f-string: a text, f'{n}', or f'{n:0wX}'.
pub data Part : Type 0 where
  literal : Text → Part
  number : ℕ → Part
  upper : (width n : ℕ) → Part

abbrev pub Line : Type 0
Line = List Part

abbrev pub text_of : Part → Text
text_of (literal s) = s
text_of (number n) = decimal n
text_of (upper width n) = format_upper width n

abbrev pub f_string : Line → Text
f_string [] = []
f_string (part ∷ parts) = text_of part ++ f_string parts

abbrev pub opening_lines : ℕ → List Line
opening_lines start_word_addr =
    (literal (codes "; Inicio en palabra ROM ")
      ∷ number start_word_addr
      ∷ literal (codes " (byte 0x")
      ∷ upper 6 (start_word_addr * 4)
      ∷ literal (codes ")")
      ∷ [])
    ∷ (literal (codes "; .start:") ∷ [])
    ∷ []

-- LOD and STR for `n` words from word `i` on
unfoldable pub copy_lines : ℕ → ℕ → List Line
copy_lines zero i = []
copy_lines (suc n) i =
    (literal (codes ";\tINT LOD R15, R2, ")
      ∷ number (i * 4)
      ∷ literal (codes "\t\t; Leer palabra ")
      ∷ number i
      ∷ literal (codes " de ROM (.data blob)")
      ∷ [])
    ∷ (literal (codes ";\tINT STR R1, R2, ")
        ∷ number (i * 4)
        ∷ literal (codes "\t\t; Escribir en RAM[0x")
        ∷ upper 8 (ram_base + i * 4)
        ∷ literal (codes "]")
        ∷ [])
    ∷ copy_lines n (i + 1)

abbrev pub load_lines : ℕ × ℕ → ℕ → List Line
load_lines (hi_rom, lo_rom) start_word =
    (literal (codes ";\tH LDI R15, 0x")
      ∷ upper 4 hi_rom
      ∷ literal (codes "\t\t; Dir. ROM origen .data (palabra ")
      ∷ number start_word
      ∷ literal (codes ", byte 0x")
      ∷ upper 6 (start_word * 4)
      ∷ literal (codes ")")
      ∷ [])
    ∷ (literal (codes ";\tSLT ADI R15, 0x") ∷ upper 4 lo_rom ∷ [])
    ∷ (literal (codes ";\tH LDI R1, 0x0400\t\t; Dir. RAM destino = 0x04000000") ∷ [])
    ∷ (literal (codes ";\tSLT ADI R1, 0x0000") ∷ [])
    ∷ []

-- Part 1: nothing, if there is no word to copy.
unfoldable pub copy_part : ℕ → ℕ → List Line
unfolding copy_lines compute_hi_lo
copy_part zero start_word = []
copy_part (suc n) start_word =
    (literal (codes "; ── Fase 1: Copiar ")
      ∷ number (suc n)
      ∷ literal (codes " palabra(s) de .data  ROM → RAM ──────────────")
      ∷ [])
    ∷ (load_lines (compute_hi_lo (pos start_word)) start_word ++ copy_lines (suc n) 0)

abbrev pub text_lines : ℕ × ℕ → List Line
text_lines (hi_text, lo_text) =
    (literal (codes ";\tH LDI R15, 0x")
      ∷ upper 4 hi_text
      ∷ literal (codes "\t\t; Inicio de .text (sin función main)")
      ∷ [])
    ∷ (literal (codes ";\tSLT ADI R15, 0x") ∷ upper 4 lo_text ∷ [])
    ∷ []

-- Part 3: the label main, or the first word of .text, or neither.
unfoldable pub entry_part : Option Text → Option ℕ → List Line
unfolding compute_hi_lo
entry_part (some main) start =
    (literal (codes ";\tH LDI R15, %hi(")
      ∷ literal main
      ∷ literal (codes ")\t\t; Parte alta de la dirección de ")
      ∷ literal main
      ∷ [])
    ∷ (literal (codes ";\tSLT ADI R15, %lo(")
        ∷ literal main
        ∷ literal (codes ")\t; Parte baja")
        ∷ [])
    ∷ []
entry_part none (some start) = text_lines (compute_hi_lo (pos start))
entry_part none none =
    (literal (codes ";\tH LDI R15, 0x0000\t\t; [ERROR] Sin main ni .text: saltando a dirección 0")
      ∷ [])
    ∷ (literal (codes ";\tSLT ADI R15, 0x0000") ∷ [])
    ∷ []

-- The lines beside what `inject_start` does to the state.
unfoldable pub inject_listing : State → List Line
unfolding copy_part entry_part with_copy
inject_listing s =
    opening_lines (s.rom_address + data_words s)
    ++ (copy_part (data_words s) s.rom_address
        ++ (literal (
              codes "; ── Fase 3: Saltar a main ──────────────────────────────────────────────────")
            ∷ [])
          ∷ (entry_part (main_entry (with_copy s).label_map) s.text_start_word
              ++ (literal (codes ";\tJMP R15") ∷ []) ∷ []))

-- The lines beside what `finish` does to the state.
unfoldable pub finish_listing : DataMode → State → List Line
unfolding inject_listing fix_labels
finish_listing rom s =
    let fixed = record s { label_map = fix_labels (bss_start s) s.label_map } in
    if ltb 0 (length s.rom_data_bytes) || ltb 0 s.ram_bss_offset then inject_listing fixed else []
finish_listing mode s = []

-- start_listing, as `first_pass` and `assemble_lines` return it
unfoldable pub start_listing : List Text → DataMode → List (ℕ × Text) → List Text
unfolding finish_listing do_lines flush_pending_bytes format_upper format_number
start_listing lines mode relocs =
    map f_string
      (finish_listing mode (flush_pending_bytes (do_lines mode 1 lines (initial relocs))))
