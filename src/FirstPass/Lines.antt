-- ===== src/FirstPass/Lines.antt =====
-- One line of `first_pass`: its directive, or its label and instruction; and the loop over the lines.
use procesador_32_bits.Base.{
  ℕ, ◌+◌, Bool, false, not, ◌&&◌, ◌||◌, List, [], ◌∷◌, ◌++◌, Option, none, some, ◌==◌, is_some,
  if◌then◌else◌,
}
use procesador_32_bits.Base.Result.{ok, err}
use procesador_32_bits.Text.{Text, codes, text_eq, starts_with, strip, upper, lower}
use procesador_32_bits.Dict
use procesador_32_bits.Lexer.{code_part, tokenize_line, drop_last}
use procesador_32_bits.Errors.{Parsed}
use procesador_32_bits.Operands.{normalize_label, quoted_label, after_letters}
use procesador_32_bits.Expression.{pseudo_match, label_expr_match, looks_numeric}
use procesador_32_bits.Encode.{encode_single}
use procesador_32_bits.FirstPass.{
  data_, bss, DataMode, rom, State, initial, words, pending_tokens, bad_label, duplicate_label,
  add_error, report_of, ram_base, bss_base, mark_text_start, emit, flush_pending_bytes,
}
use procesador_32_bits.FirstPass.Directive.{
  Directive, blank, section, comm, align, long, short, byte, ascii, zeros, other, classify,
}
use procesador_32_bits.FirstPass.Data.{
  do_comm, do_align, do_long, do_short, do_byte, do_string, do_zeros,
}

-- re.fullmatch(r'R(1[0-5]|[0-9])', token)
abbrev pub is_register : Text → Bool
is_register token = is_some (after_letters (codes "R") token)

unfoldable pub token_waits : Text → Bool
unfolding pseudo_match quoted_label starts_with label_expr_match normalize_label looks_numeric
    after_letters strip upper
token_waits t =
    is_some (pseudo_match t)
    || is_some (quoted_label t)
    || starts_with (codes "%") (strip t)
    || is_some (label_expr_match (strip t))
    || (is_some (normalize_label (strip t))
        && not (looks_numeric (strip t))
        && not (is_register (upper (strip t))))

unfoldable pub tokens_need_second_pass : List Text → Bool
unfolding token_waits
tokens_need_second_pass [] = false
tokens_need_second_pass (t ∷ ts) = token_waits t || tokens_need_second_pass ts

unfoldable pub encoded : Parsed ℕ → ℕ → State → State
unfolding emit
encoded (ok w) line s = emit (words (w ∷ []) line) s
encoded (err e) line s =
    emit (words (0 ∷ []) line) (record s { errors = s.errors ++ report_of e ∷ [] })

unfoldable pub do_instruction : List Text → ℕ → State → State
unfolding flush_pending_bytes mark_text_start emit tokens_need_second_pass encoded
do_instruction tokens line s =
    let s' = mark_text_start (flush_pending_bytes s) in
    if tokens_need_second_pass tokens
    then emit (pending_tokens tokens line) s'
    else encoded (encode_single tokens line none) line s'

-- A name that no handler takes and that starts with a dot is dropped, but for these.
unfoldable pub kept_directives : List Text
kept_directives =
    codes ".long"
    ∷ codes ".word"
    ∷ codes ".short"
    ∷ codes ".byte"
    ∷ codes ".asciz"
    ∷ codes ".ascii"
    ∷ codes ".p2align"
    ∷ codes ".align"
    ∷ codes ".zero"
    ∷ codes ".space"
    ∷ codes ".skip"
    ∷ codes ".comm"
    ∷ []

unfoldable pub is_one_of : Text → List Text → Bool
unfolding text_eq
is_one_of t [] = false
is_one_of t (u ∷ us) = text_eq u t || is_one_of t us

-- Every name of _IGNORED_DIRECTIVES starts with a dot and is not kept.
unfoldable pub is_dropped : Text → Bool
unfolding is_one_of starts_with kept_directives
is_dropped first = starts_with (codes ".") first && not (is_one_of first kept_directives)

unfoldable pub do_tokens : List Text → ℕ → State → State
unfolding is_dropped lower do_instruction
do_tokens [] line s = s
do_tokens (t ∷ ts) line s = if is_dropped (lower t) then s else do_instruction (t ∷ ts) line s

-- The address of a label at this place.
unfoldable pub label_address : DataMode → State → ℕ
label_address rom s = elim s.current_section [
  | data_ ↦ ram_base + s.ram_data_offset
  | bss ↦ bss_base + s.ram_bss_offset
  | _ ↦ s.rom_address
]
label_address mode s = s.rom_address

unfoldable pub define_label : Option Text → Text → DataMode → List Text → ℕ → State → State
unfolding label_address Dict.set Dict.get do_tokens
define_label none raw_name mode ts line s = add_error (some line) (bad_label raw_name) s
define_label (some name) raw_name mode ts line s =
    if is_some (Dict.get s.label_map name)
    then add_error (some line) (duplicate_label name) s
    else do_tokens ts line
        (record s { label_map = Dict.set s.label_map name (label_address mode s) })

abbrev pub ends_with_colon : Text → Bool
ends_with_colon [] = false
ends_with_colon (c ∷ []) = c == b':'
ends_with_colon (c ∷ d ∷ s) = ends_with_colon (d ∷ s)

unfoldable pub do_code : DataMode → List Text → ℕ → State → State
unfolding define_label do_tokens normalize_label flush_pending_bytes
do_code mode [] line s = s
do_code mode (t ∷ ts) line s =
    if ends_with_colon t
    then define_label (normalize_label (drop_last t)) (drop_last t) mode ts line
        (flush_pending_bytes s)
    else do_tokens (t ∷ ts) line s

unfoldable pub do_directive : DataMode → Directive → Text → ℕ → State → State
unfolding do_comm do_align do_long do_short do_byte do_string do_zeros do_code tokenize_line
do_directive mode blank code_line line s = s
do_directive mode (section sec) code_line line s = record s { current_section = sec }
do_directive mode (comm sym size alignment) code_line line s =
    do_comm mode sym size alignment line s
do_directive mode (align n) code_line line s = do_align mode n line s
do_directive mode (long vs) code_line line s = do_long mode vs line s
do_directive mode (short vs) code_line line s = do_short mode vs line s
do_directive mode (byte vs) code_line line s = do_byte mode vs line s
do_directive mode (ascii bytes) code_line line s = do_string mode bytes s
do_directive mode (zeros n) code_line line s = do_zeros mode n s
do_directive mode other code_line line s = do_code mode (tokenize_line code_line) line s

unfoldable pub do_line : DataMode → ℕ → Text → State → State
unfolding do_directive classify code_part
do_line mode line raw_line s =
    if s.raised
    then s
    else do_directive mode (classify (code_part raw_line)) (code_part raw_line) line s

-- for line_num, raw_line in enumerate(lines, start=line)
unfoldable pub do_lines : DataMode → ℕ → List Text → State → State
unfolding do_line
do_lines mode line [] s = s
do_lines mode line (l ∷ ls) s = do_lines mode (line + 1) ls (do_line mode line l s)

-- Whether the call ends with the ValueError.
abbrev pub raises : DataMode → List Text → List (ℕ × Text) → Bool
raises mode lines relocs = (do_lines mode 1 lines (initial relocs)).raised
