-- ===== src/FirstPass/Layout/Source.antt =====
-- Every line of the source keeps the layout, and so does what stands behind the loop.
use procesador_32_bits.Base.{
  ℕ, ◌≡◌, refl, List, [], ◌∷◌, Option, none, some, arith, All, is_some, true, Bool-cases, inl, inr,
}
use procesador_32_bits.Base.Result.{ok, err}
use procesador_32_bits.Text.{Text, lower}
use procesador_32_bits.Dict
use procesador_32_bits.Lexer.{tokenize_line, drop_last}
use procesador_32_bits.Errors.{Parsed}
use procesador_32_bits.Isa.Fields.{IsWord}
use procesador_32_bits.Operands.{normalize_label}
use procesador_32_bits.Encode.{encode_single}
use procesador_32_bits.Encode.Words.{encode_single-Encodes}
use procesador_32_bits.FirstPass.{
  DataMode, State, words, pending_tokens, mark_text_start, emit, flush_pending_bytes,
}
use procesador_32_bits.FirstPass.Data.{all_bytes, do_string}
use procesador_32_bits.FirstPass.Directive.{
  Directive, blank, section, comm, align, long, short, byte, ascii, zeros, other,
}
use procesador_32_bits.FirstPass.Lines.{
  tokens_need_second_pass, encoded, do_instruction, is_dropped, do_tokens, label_address,
  define_label, ends_with_colon, do_code, do_directive,
}
use procesador_32_bits.FirstPass.Layout.{
  IsByte, IsLaid, mark_text_start-IsLaid, emit-IsLaid, flush_pending_bytes-IsLaid,
}
use procesador_32_bits.FirstPass.Layout.Handlers.{
  if-IsLaid, do_comm-IsLaid, do_align-IsLaid, do_long-IsLaid, do_short-IsLaid, do_byte-IsLaid,
  do_ascii-IsLaid, do_zeros-IsLaid,
}

encoded-IsLaid :
    (r : Parsed ℕ) (line : ℕ) (s : State)
    → ((w : ℕ) → r ≡ ok w → IsWord w)
    → IsLaid s
    → IsLaid (encoded r line s)
unfolding encoded
encoded-IsLaid (ok w) line s k h = emit-IsLaid (words (w ∷ []) line) s (k w refl) h
encoded-IsLaid (err e) line s k h = emit-IsLaid (words (0 ∷ []) line) s (omega arith) h

encode_single-IsWord :
    (tokens : List Text) (line : ℕ) (w : ℕ) → encode_single tokens line none ≡ ok w → IsWord w
encode_single-IsWord tokens line w h =
    let (p, m, e, f, g) = encode_single-Encodes tokens line none w h in g.word

do_instruction-IsLaid :
    (tokens : List Text) (line : ℕ) (s : State) → IsLaid s → IsLaid (do_instruction tokens line s)
unfolding do_instruction
do_instruction-IsLaid tokens line s h =
    let t = mark_text_start (flush_pending_bytes s) in
    let k = mark_text_start-IsLaid (flush_pending_bytes s) (flush_pending_bytes-IsLaid s h) in
    if-IsLaid (tokens_need_second_pass tokens) (emit (pending_tokens tokens line) t) _
      (emit-IsLaid (pending_tokens tokens line) t tt k)
      (encoded-IsLaid (encode_single tokens line none) line t (encode_single-IsWord tokens line) k)

do_tokens-IsLaid :
    (tokens : List Text) (line : ℕ) (s : State) → IsLaid s → IsLaid (do_tokens tokens line s)
unfolding do_tokens
do_tokens-IsLaid [] line s h = h
do_tokens-IsLaid (t ∷ ts) line s h =
    if-IsLaid (is_dropped (lower t)) s _ h (do_instruction-IsLaid (t ∷ ts) line s h)

define_label-IsLaid :
    (o : Option Text) (raw : Text) (mode : DataMode) (ts : List Text) (line : ℕ) (s : State)
    → IsLaid s
    → IsLaid (define_label o raw mode ts line s)
unfolding define_label
define_label-IsLaid none raw mode ts line s h = h
define_label-IsLaid (some name) raw mode ts line s h =
    if-IsLaid (is_some (Dict.get s.label_map name)) _ _ h (
      do_tokens-IsLaid ts line
        (record s { label_map = Dict.set s.label_map name (label_address mode s) }) h)

do_code-IsLaid :
    (mode : DataMode) (ts : List Text) (line : ℕ) (s : State)
    → IsLaid s
    → IsLaid (do_code mode ts line s)
unfolding do_code
do_code-IsLaid mode [] line s h = h
do_code-IsLaid mode (t ∷ ts) line s h =
    if-IsLaid (ends_with_colon t) _ _
      (define_label-IsLaid (normalize_label (drop_last t)) (drop_last t) mode ts line
        (flush_pending_bytes s) (flush_pending_bytes-IsLaid s h))
      (do_tokens-IsLaid (t ∷ ts) line s h)

all_bytes-IsByte : (bs : List ℕ) → all_bytes bs ≡ true → All IsByte bs
all_bytes-IsByte [] h = tt
all_bytes-IsByte (b ∷ bs) h = (ground arith, all_bytes-IsByte bs (ground arith))

do_string-IsLaid :
    (mode : DataMode) (bs : List ℕ) (s : State) → IsLaid s → IsLaid (do_string mode bs s)
unfolding do_string
do_string-IsLaid mode bs s h = elim (Bool-cases (all_bytes bs)) [
  | inl narrow ↦ rw narrow (do_ascii-IsLaid mode bs s (all_bytes-IsByte bs narrow) h)
  | inr wide ↦ rw wide h
]

pub do_directive-IsLaid :
    (mode : DataMode) (d : Directive) (code_line : Text) (line : ℕ) (s : State)
    → IsLaid s
    → IsLaid (do_directive mode d code_line line s)
unfolding do_directive
do_directive-IsLaid mode blank c line s h = h
do_directive-IsLaid mode (section sec) c line s h = h
do_directive-IsLaid mode (comm sym size a) c line s h = do_comm-IsLaid mode sym size a line s h
do_directive-IsLaid mode (align n) c line s h = do_align-IsLaid mode n line s h
do_directive-IsLaid mode (long vs) c line s h = do_long-IsLaid mode vs line s h
do_directive-IsLaid mode (short vs) c line s h = do_short-IsLaid mode vs line s h
do_directive-IsLaid mode (byte vs) c line s h = do_byte-IsLaid mode vs line s h
do_directive-IsLaid mode (ascii bs) c line s h = do_string-IsLaid mode bs s h
do_directive-IsLaid mode (zeros n) c line s h = do_zeros-IsLaid mode n s h
do_directive-IsLaid mode other c line s h = do_code-IsLaid mode (tokenize_line c) line s h
