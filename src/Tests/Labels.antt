-- ===== src/Tests/Labels.antt =====
-- The theorem on the places of the labels at the program.
use procesador_32_bits.FirstPass.Layout.Finish.{do_lines-IsLaid}
use procesador_32_bits.FirstPass.Layout.{initial-IsLaid}
use procesador_32_bits.FirstPass.Growth.Labels.{Points, do_lines-Points}
use procesador_32_bits.Operands.{normalize_label}
use procesador_32_bits.FirstPass.Directive.{classify, other}
use procesador_32_bits.Lexer.{code_part, tokenize_line}
use procesador_32_bits.FirstPass.Lines.{do_lines}
use procesador_32_bits.Base.{none, ◌∷◌, ℕ, ◌+◌, ◌<◌, ◌≡◌, refl, [], false, some, arith}
use procesador_32_bits.Dict.{get}
use procesador_32_bits.Text.{codes, text_eq}
use procesador_32_bits.FirstPass.{State, initial, flush_pending_bytes, rom, ram_base, bss_base}
use procesador_32_bits.FirstPass.Start.{first_pass}
use procesador_32_bits.FirstPass.Start.Addresses.{InSection, behind_lines, first_pass-InSection}
use procesador_32_bits.SecondPass.{assemble_lines}
use procesador_32_bits.Tests.{program, program_quiet}

image_low : (behind_lines program []).rom_address < ram_base
unfolding assemble_lines
image_low = omega arith

data_below : ram_base + (behind_lines program []).ram_data_offset < bss_base
unfolding assemble_lines
data_below = omega arith

bss_small : bss_base + (behind_lines program []).ram_bss_offset < 0x0B600000
unfolding assemble_lines
bss_small = omega arith

buf_is_no_start : text_eq (codes ".start") (codes "buf") ≡ false
unfolding text_eq
buf_is_no_start = refl

-- Ten bytes of .data, padded to twelve, stand before buf.
buf_label : get (first_pass program rom []).label_map (codes "buf") ≡ some (ram_base + 12)
unfolding assemble_lines get text_eq
buf_label = refl

first_pass-InSection_example :
    (b : ℕ) × (get (behind_lines program []).label_map (codes "buf") ≡ some b)
    × InSection (behind_lines program []) b (ram_base + 12)
first_pass-InSection_example =
    first_pass-InSection program [] (codes "buf") (ram_base + 12) program_quiet image_low data_below
      bss_small buf_is_no_start buf_label

-- Two bytes of .data, and a label behind them.
abbrev two_bytes : State
two_bytes = do_lines rom 1 (codes "\t.data" ∷ codes " .byte 1, 2" ∷ []) (initial [])

two_bytes_quiet : two_bytes.raised ≡ false
unfolding do_lines
two_bytes_quiet = refl

label_line :
    (classify (code_part (codes "v:  ; five")) ≡ other)
    × (tokenize_line (code_part (codes "v:  ; five")) ≡ codes "v:" ∷ [])
    × (normalize_label (codes "v") ≡ some (codes "v"))
unfolding classify code_part tokenize_line normalize_label
label_line = (refl, refl, refl)

no_label : get two_bytes.label_map (codes "v") ≡ none
unfolding do_lines get
no_label = refl

do_lines-Points_example :
    Points rom two_bytes.current_section
      (flush_pending_bytes two_bytes)
      (do_lines rom 3 (codes "v:  ; five" ∷ codes " .long 5" ∷ []) two_bytes)
      (codes "v")
do_lines-Points_example =
    do_lines-Points rom 3 (codes "v:  ; five") (codes "v:") (codes "v") [] (codes " .long 5" ∷ [])
      two_bytes
      (do_lines-IsLaid rom 1 (codes "\t.data" ∷ codes " .byte 1, 2" ∷ []) (initial [])
        (initial-IsLaid []))
      two_bytes_quiet label_line.0 label_line.1 refl label_line.2 no_label
