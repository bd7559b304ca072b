-- ===== src/Tests.antt =====
-- The theorems at concrete sources of the assembler, and runs of the model.
mod Boot
mod Rom
mod Source
mod Merge
mod Labels
mod Annotated
mod Driver
mod CommandLine
mod Reports
use Prim.Native.String.{String}
use procesador_32_bits.Base.{
  false, ℕ, ◌^◌, ◌<◌, ◌%◌, ◌≡◌, refl, true, List, [], ◌∷◌, none, some, arith, All, length, Bool,
  ltb, ◌&&◌,
}
use procesador_32_bits.Base.Int.{ℤ, pos, negsuc, low_bits}
use procesador_32_bits.Base.Result.{ok}
use procesador_32_bits.Dict.{Dict, get}
use procesador_32_bits.Operands.{parse_register, parse_immediate}
use procesador_32_bits.Operands.Bounds.{Fits, parse_immediate-eq-ok}
use procesador_32_bits.Text.{Text, codes, text_eq, strip}
use procesador_32_bits.Text.Number.{parse_int}
use procesador_32_bits.FirstPass.{rom, initial, PendingInstruction, words, pending_tokens, raw_word}
use procesador_32_bits.FirstPass.Start.{first_pass}
use procesador_32_bits.FirstPass.Lines.{raises, do_lines}
use procesador_32_bits.FirstPass.Layout.{IsByte, IsLaid, initial-IsLaid}
use procesador_32_bits.FirstPass.Layout.Finish.{do_lines-IsLaid}
use procesador_32_bits.SecondPass.{assemble_lines, second_pass}
use procesador_32_bits.SecondPass.Image.{Numbered, HasWord, assemble_lines_image}
use procesador_32_bits.SecondPass.Resolved.{AllStand, second_pass-AllStand}
use procesador_32_bits.Isa.{build_word, opcode}
use procesador_32_bits.Isa.Fields.{IsWord, tipo_of, opcode_of, operands_of, build_word_fields}
use procesador_32_bits.Expression.{resolve_imm_or_pseudo}
use procesador_32_bits.Expression.Bounds.{resolve_imm_or_pseudo-lt}
use procesador_32_bits.Encode.{encode_single, encode_operands, read_prefix, check_prefix}
use procesador_32_bits.Encode.Words.{IsEncoding, encode_single-Encodes}
use procesador_32_bits.Address.{target_address, compute_hi_lo}
use procesador_32_bits.Address.HiLo.{load, load_rom, load_physical, load-compute_hi_lo}

abbrev lines : List String → List Text
lines [] = []
lines (s ∷ ss) = codes s ∷ lines ss

-- INT LOD R1, R2, -4
abbrev load_tokens : List Text
load_tokens = lines ("INT" ∷ "LOD" ∷ "R1" ∷ "r2" ∷ "-4" ∷ [])

load_tokens_word : encode_single load_tokens 3 none ≡ ok 1376976892
unfolding encode_single encode_operands read_prefix check_prefix text_eq get parse_register
    parse_immediate build_word opcode
load_tokens_word = refl

encode_single-Encodes_example : IsEncoding load_tokens 3 none 1376976892
encode_single-Encodes_example = encode_single-Encodes load_tokens 3 none 1376976892 load_tokens_word

load-compute_hi_lo_example :
    load (compute_hi_lo (pos 0x12348765)) ≡ low_bits 32 (target_address (pos 0x12348765))
load-compute_hi_lo_example = load-compute_hi_lo (pos 0x12348765)

load_rom_example : load (compute_hi_lo (pos 0x2345)) ≡ 0xFFF08D14
load_rom_example = load_rom 0x2345 (omega arith)

load_physical_example : load (compute_hi_lo (pos 0x0400FFFC)) ≡ 0x0400FFFC
load_physical_example = load_physical 0x0400FFFC (omega arith) (omega arith)

build_word_fields_example :
    IsWord (build_word 2 17 0x12FFFC)
    × (tipo_of (build_word 2 17 0x12FFFC) ≡ 2)
    × (opcode_of (build_word 2 17 0x12FFFC) ≡ 17)
    × (operands_of (build_word 2 17 0x12FFFC) ≡ 0x12FFFC % 2 ^ 24)
build_word_fields_example = build_word_fields 2 17 0x12FFFC (omega arith) (omega arith)

minus_four : parse_int (strip (codes " -4")) ≡ some (negsuc 3)
unfolding parse_int strip
minus_four = refl

minus_four_word : parse_immediate (codes " -4") 7 16 true ≡ ok 0xFFFC
unfolding parse_immediate
minus_four_word = refl

parse_immediate-eq-ok_example :
    (v : ℤ) × (parse_int (strip (codes " -4")) ≡ some v) × Fits 16 true v × (0xFFFC ≡ low_bits 16 v)
parse_immediate-eq-ok_example = parse_immediate-eq-ok (codes " -4") 7 16 0xFFFC true minus_four_word

abbrev labels : Dict ℕ
labels = (codes "v", 3) ∷ []

high_half : resolve_imm_or_pseudo (codes "%hi(v+1)") 2 (some labels) none 16 false ≡ ok 0xFFF0
unfolding resolve_imm_or_pseudo get text_eq
high_half = refl

resolve_imm_or_pseudo-lt_example : 0xFFF0 < 2 ^ 16
resolve_imm_or_pseudo-lt_example =
    resolve_imm_or_pseudo-lt (codes "%hi(v+1)") 2 (some labels) none false 0xFFF0 high_half

-- A program with code, data and a symbol in .bss
abbrev program : List Text
program = lines (
    "\t.text" ∷ "main:  ; entry" ∷ "  ADI R14, -4" ∷ "\tH LDI R4, v" ∷ "  .data" ∷ "v:"
    ∷ " .long 5, main" ∷ ".byte 1,0x02" ∷ ".comm buf, 8, 4" ∷ [])

do_lines-IsLaid_example : IsLaid (do_lines rom 1 program (initial []))
do_lines-IsLaid_example = do_lines-IsLaid rom 1 program (initial []) (initial-IsLaid [])

assemble_lines_image_example :
    Numbered 0 (assemble_lines program rom []).instructions
    × All HasWord (assemble_lines program rom []).instructions
    × (length (assemble_lines program rom []).instructions
        ≡ length (first_pass program rom []).pending)
assemble_lines_image_example = assemble_lines_image program rom []

pub program_quiet : raises rom program [] ≡ false
unfolding do_lines
program_quiet = refl

-- A dash of more than a byte in .ascii: the ValueError of `decode_c_string`
wide_string : raises rom (lines ("\t.data" ∷ ".ascii \"—\"" ∷ [])) [] ≡ true
unfolding do_lines
wide_string = refl

-- A literal word, the address of a label, and an instruction
abbrev entries : List PendingInstruction
entries =
    words (5 ∷ []) 0 ∷ raw_word 0 (some (codes "v")) 4 ∷ pending_tokens (codes "NOP" ∷ []) 5 ∷ []

entries_errors : (second_pass labels entries).errors ≡ []
unfolding second_pass read_prefix text_eq get check_prefix encode_operands
entries_errors = refl

second_pass-AllStand_example : AllStand labels entries (second_pass labels entries).result
second_pass-AllStand_example =
    second_pass-AllStand labels entries (omega arith, (omega arith, (tt, tt))) entries_errors
