-- ===== src/FirstPass/Growth/Source.antt =====
-- Every line of the source only adds.
use procesador_32_bits.Base.{
  arith, inl, inr, ℕ, ◌+◌, refl, List, [], ◌∷◌, Option, none, some, is_some, if◌then◌else◌,
}
use procesador_32_bits.Base.Result.{ok, err}
use procesador_32_bits.Text.{Text, lower}
use procesador_32_bits.Dict
use procesador_32_bits.Lexer.{tokenize_line, drop_last, code_part}
use procesador_32_bits.Errors.{Parsed}
use procesador_32_bits.Operands.{normalize_label}
use procesador_32_bits.Encode.{encode_single}
use procesador_32_bits.FirstPass.{
  Section, text, rodata, data_, bss, rom, ram_base, bss_base, DataMode, State, words,
  pending_tokens, mark_text_start, emit, flush_pending_bytes, report_of, add_error, bad_label,
  duplicate_label,
}
use procesador_32_bits.FirstPass.Directive.{
  Directive, blank, section, comm, align, long, short, byte, ascii, zeros, other, classify,
}
use procesador_32_bits.FirstPass.Lines.{
  tokens_need_second_pass, encoded, do_instruction, is_dropped, do_tokens, label_address,
  define_label, ends_with_colon, do_code, do_directive, do_line, do_lines,
}
use procesador_32_bits.FirstPass.Growth.{
  Grows, Between, Grows-refl, Grows-trans, Prefix-refl, if-Grows, else-Grows, none-is_some,
  mark_text_start-Grows, emit-Grows, add_error-Grows, flush_pending_bytes-Grows, set_label-Grows,
}
use procesador_32_bits.FirstPass.Growth.Handlers.{
  do_comm-Grows, do_align-Grows, do_long-Grows, do_short-Grows, do_byte-Grows, do_string-Grows,
  do_zeros-Grows,
}

encoded-Grows : (r : Parsed ℕ) (line : ℕ) (s : State) → Grows s (encoded r line s)
unfolding encoded
encoded-Grows (ok w) line s = emit-Grows (words (w ∷ []) line) s
encoded-Grows (err e) line s = (
  λ k a h. h,
  (words (0 ∷ []) line ∷ [], refl),
  (report_of e ∷ [], refl),
  Prefix-refl s.rom_data_bytes,
  (omega arith, omega arith, omega arith),
  λ k a h. inl h,
  λ e. refl,
)

do_instruction-Grows :
    (tokens : List Text) (line : ℕ) (s : State) → Grows s (do_instruction tokens line s)
unfolding do_instruction
do_instruction-Grows tokens line s =
    let t = flush_pending_bytes s in
    let u = mark_text_start t in
    let pending = emit (pending_tokens tokens line) u in
    let now = encoded (encode_single tokens line none) line u in
    Grows-trans s u (if tokens_need_second_pass tokens then pending else now)
      (Grows-trans s t u (flush_pending_bytes-Grows s) (mark_text_start-Grows t))
      (if-Grows (tokens_need_second_pass tokens) u pending now
        (emit-Grows (pending_tokens tokens line) u)
        (encoded-Grows (encode_single tokens line none) line u))

pub do_tokens-Grows :
    (tokens : List Text) (line : ℕ) (s : State) → Grows s (do_tokens tokens line s)
unfolding do_tokens
do_tokens-Grows [] line s = Grows-refl s
do_tokens-Grows (t ∷ ts) line s =
    if-Grows (is_dropped (lower t)) s s (do_instruction (t ∷ ts) line s) (Grows-refl s)
      (do_instruction-Grows (t ∷ ts) line s)

-- A label stands at the next free place of its section.
section_address-Between :
    (sec : Section) (s : State)
    → Between s s (elim sec [
      | data_ ↦ ram_base + s.ram_data_offset
      | bss ↦ bss_base + s.ram_bss_offset
      | _ ↦ s.rom_address
    ])
section_address-Between data_ s = inr (inl (omega arith, omega arith))
section_address-Between bss s = inr (inr (omega arith, omega arith))
section_address-Between text s = inl (omega arith, omega arith)
section_address-Between rodata s = inl (omega arith, omega arith)

label_address-Between : (mode : DataMode) (s : State) → Between s s (label_address mode s)
unfolding label_address
label_address-Between rom s = section_address-Between s.current_section s
label_address-Between _ s = inl (omega arith, omega arith)

define_label-Grows :
    (o : Option Text) (raw : Text) (mode : DataMode) (ts : List Text) (line : ℕ) (s : State)
    → Grows s (define_label o raw mode ts line s)
unfolding define_label
define_label-Grows none raw mode ts line s = add_error-Grows (some line) (bad_label raw) s
define_label-Grows (some name) raw mode ts line s =
    let t = record s { label_map = Dict.set s.label_map name (label_address mode s) } in
    else-Grows (is_some (Dict.get s.label_map name)) s
      (add_error (some line) (duplicate_label name) s) (do_tokens ts line t)
      (add_error-Grows (some line) (duplicate_label name) s)
      λ e.
        Grows-trans s t (do_tokens ts line t)
          (set_label-Grows name (label_address mode s) s
            (none-is_some (Dict.get s.label_map name) e) (label_address-Between mode s))
          (do_tokens-Grows ts line t)

do_code-Grows :
    (mode : DataMode) (ts : List Text) (line : ℕ) (s : State) → Grows s (do_code mode ts line s)
unfolding do_code
do_code-Grows mode [] line s = Grows-refl s
do_code-Grows mode (t ∷ ts) line s =
    let name = normalize_label (drop_last t) in
    let u = flush_pending_bytes s in
    let labelled = define_label name (drop_last t) mode ts line u in
    if-Grows (ends_with_colon t) s labelled (do_tokens (t ∷ ts) line s)
      (Grows-trans s u labelled (flush_pending_bytes-Grows s)
        (define_label-Grows name (drop_last t) mode ts line u))
      (do_tokens-Grows (t ∷ ts) line s)

do_directive-Grows :
    (mode : DataMode) (d : Directive) (code_line : Text) (line : ℕ) (s : State)
    → Grows s (do_directive mode d code_line line s)
unfolding do_directive
do_directive-Grows mode blank c line s = Grows-refl s
do_directive-Grows mode (section sec) c line s = Grows-refl s
do_directive-Grows mode (comm sym size a) c line s = do_comm-Grows mode sym size a line s
do_directive-Grows mode (align n) c line s = do_align-Grows mode n line s
do_directive-Grows mode (long vs) c line s = do_long-Grows mode vs line s
do_directive-Grows mode (short vs) c line s = do_short-Grows mode vs line s
do_directive-Grows mode (byte vs) c line s = do_byte-Grows mode vs line s
do_directive-Grows mode (ascii bs) c line s = do_string-Grows mode bs s
do_directive-Grows mode (zeros n) c line s = do_zeros-Grows mode n s
do_directive-Grows mode other c line s = do_code-Grows mode (tokenize_line c) line s

do_line-Grows :
    (mode : DataMode) (line : ℕ) (l : Text) (s : State) → Grows s (do_line mode line l s)
unfolding do_line
do_line-Grows mode line l s =
    if-Grows s.raised s s _ (Grows-refl s)
      (do_directive-Grows mode (classify (code_part l)) (code_part l) line s)

-- Whatever lines follow, a label keeps its address, the entries of the image, the errors and the bytes
-- of .data that are there stay in front of what is added, the free places of the image, .data and .bss
-- do not go back, every new label stands between the free place of one of the three before the lines
-- and that behind them, and without bytes of .data no relocation is written.
pub do_lines-Grows :
    (mode : DataMode) (line : ℕ) (ls : List Text) (s : State) → Grows s (do_lines mode line ls s)
unfolding do_lines
do_lines-Grows mode line [] s = Grows-refl s
do_lines-Grows mode line (l ∷ ls) s =
    let t = do_line mode line l s in
    Grows-trans s t (do_lines mode (line + 1) ls t) (do_line-Grows mode line l s)
      (do_lines-Grows mode (line + 1) ls t)
