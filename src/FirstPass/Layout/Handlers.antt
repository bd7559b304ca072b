-- ===== src/FirstPass/Layout/Handlers.antt =====
-- The handlers of the data directives keep the layout.
use native.Mathlib.Nat.{one-le-pow}
use procesador_32_bits.Base.{
  ℕ, ◌+◌, ◌-◌, ◌%◌, ◌/◌, ◌^◌, ◌<◌, Bool, true, false, ◌||◌, List, [], ◌∷◌, Option, none, some,
  arith, All, All-append, length-append, replicate, is_some, if◌then◌else◌, ◌==◌,
}
use procesador_32_bits.Base.Int.{ℤ, pos, negsuc, low_bits}
use procesador_32_bits.Text.{Text, strip}
use procesador_32_bits.Text.Number.{parse_int}
use procesador_32_bits.Dict
use procesador_32_bits.Isa.Fields.{IsWord}
use procesador_32_bits.Operands.{normalize_label}
use procesador_32_bits.Expression.{label_expr_match}
use procesador_32_bits.FirstPass.{
  Section, data_, bss, DataMode, rom, State, raw_word, padding, mark_text_start, emit, emit_zeros,
  flush_pending_bytes,
}
use procesador_32_bits.FirstPass.Data.{
  words_of_alignment, in_image, logged, logged_int, pad_image, define_comm, comm_symbol, do_comm,
  extend_data, pad_data, reserve_bss, align_ram, do_align, byte_at, data_long, ram_long, store_long,
  long_value, do_long, store_bytes, store_short, do_short, do_byte, do_ascii, do_zeros,
}
use procesador_32_bits.FirstPass.Layout.{
  IsByte, IsLaid, All-replicate, mark_text_start-IsLaid, emit-IsLaid, emit_zeros-IsLaid,
  flush_pending_bytes-IsLaid,
}

-- A test on which nothing depends.
pub if-IsLaid : (b : Bool) (s t : State) → IsLaid s → IsLaid t → IsLaid (if b then s else t)
if-IsLaid true s t h k = h
if-IsLaid false s t h k = k

pad_image-IsLaid :
    (marks : Bool) (n line : ℕ) (s : State) → IsLaid s → IsLaid (pad_image marks n line s)
unfolding pad_image
pad_image-IsLaid marks n line s h =
    let pad = n - s.rom_address % n in
    let marked = if marks then mark_text_start s else s in
    if-IsLaid (s.rom_address % n == 0) s (emit_zeros pad line marked) h (
      emit_zeros-IsLaid pad line marked
        (if-IsLaid marks (mark_text_start s) s (mark_text_start-IsLaid s h) h))

extend_data-IsLaid :
    (bs : List ℕ) (s : State) → All IsByte bs → IsLaid s → IsLaid (extend_data bs s)
unfolding extend_data
extend_data-IsLaid bs s k h = record {
  addressed = h.addressed;
  sound = h.sound;
  counted = omega (arith, h.counted, length-append s.rom_data_bytes bs);
  blob_bytes = All-append IsByte s.rom_data_bytes bs h.blob_bytes k;
  waiting_bytes = h.waiting_bytes;
}

pad_data-IsLaid : (n : ℕ) (s : State) → IsLaid s → IsLaid (pad_data n s)
unfolding pad_data
pad_data-IsLaid n s h =
    extend_data-IsLaid _ s (All-replicate IsByte (padding n s.ram_data_offset) 0 (omega arith)) h

store_bytes-IsLaid :
    (mode : DataMode) (sec : Section) (bs : List ℕ) (s : State)
    → All IsByte bs
    → IsLaid s
    → IsLaid (store_bytes mode sec bs s)
unfolding store_bytes reserve_bss
store_bytes-IsLaid rom data_ bs s k h = extend_data-IsLaid bs s k h
store_bytes-IsLaid rom bss bs s k h = h
store_bytes-IsLaid mode sec bs s k h = record {
  addressed = h.addressed;
  sound = h.sound;
  counted = h.counted;
  blob_bytes = h.blob_bytes;
  waiting_bytes = All-append IsByte s.pending_bytes bs h.waiting_bytes k;
}

byte_at-lt : (k v : ℕ) → IsByte (byte_at k v)
byte_at-lt k v = omega arith

pub low_bits-lt : (k : ℕ) (v : ℤ) → low_bits k v < 2 ^ k
low_bits-lt k (pos n) = omega (arith, one-le-pow k 2)
low_bits-lt k (negsuc n) = omega (arith, one-le-pow k 2)

store_short-IsLaid :
    (mode : DataMode) (sec : Section) (v : ℕ) (s : State)
    → IsLaid s
    → IsLaid (store_short mode sec v s)
unfolding store_short reserve_bss
store_short-IsLaid rom data_ v s h =
    extend_data-IsLaid (byte_at 0 v ∷ byte_at 1 v ∷ []) (pad_data 2 s)
      (byte_at-lt 0 v, (byte_at-lt 1 v, tt)) (pad_data-IsLaid 2 s h)
store_short-IsLaid rom bss v s h = h
store_short-IsLaid mode sec v s h =
    store_bytes-IsLaid mode sec (byte_at 0 v ∷ byte_at 1 v ∷ []) s
      (byte_at-lt 0 v, (byte_at-lt 1 v, tt)) h

logged-IsLaid :
    (o : Option ℤ) (v : Text) (line : ℕ) (s : State) → IsLaid s → IsLaid (logged o v line s).1
unfolding logged
logged-IsLaid none v line s h = h
logged-IsLaid (some n) v line s h = h

pub do_short-IsLaid :
    (mode : DataMode) (vs : List Text) (line : ℕ) (s : State)
    → IsLaid s
    → IsLaid (do_short mode vs line s)
unfolding do_short logged_int
do_short-IsLaid mode [] line s h = h
do_short-IsLaid mode (v ∷ vs) line s h =
    let t = (logged_int v line s).1 in
    do_short-IsLaid mode vs line _ (
      store_short-IsLaid mode t.current_section (low_bits 16 (logged_int v line s).0) t
        (logged-IsLaid (parse_int (strip v)) v line s h))

pub do_byte-IsLaid :
    (mode : DataMode) (vs : List Text) (line : ℕ) (s : State)
    → IsLaid s
    → IsLaid (do_byte mode vs line s)
unfolding do_byte logged_int
do_byte-IsLaid mode [] line s h = h
do_byte-IsLaid mode (v ∷ vs) line s h =
    let (n, t) = logged_int v line s in
    do_byte-IsLaid mode vs line _ (
      store_bytes-IsLaid mode t.current_section (low_bits 8 n ∷ []) t (low_bits-lt 8 n, tt)
        (logged-IsLaid (parse_int (strip v)) v line s h))

pub do_ascii-IsLaid :
    (mode : DataMode) (bs : List ℕ) (s : State)
    → All IsByte bs
    → IsLaid s
    → IsLaid (do_ascii mode bs s)
unfolding do_ascii
do_ascii-IsLaid mode [] s k h = h
do_ascii-IsLaid mode (b ∷ bs) s k h =
    do_ascii-IsLaid mode bs (store_bytes mode s.current_section (b ∷ []) s) k.1
      (store_bytes-IsLaid mode s.current_section (b ∷ []) s (k.0, tt) h)

pub do_zeros-IsLaid : (mode : DataMode) (n : ℕ) (s : State) → IsLaid s → IsLaid (do_zeros mode n s)
unfolding do_zeros
do_zeros-IsLaid mode n s h =
    store_bytes-IsLaid mode s.current_section (replicate n 0) s
      (All-replicate IsByte n 0 (omega arith)) h

data_long-IsLaid : (e : Option Text) (v : ℕ) (s : State) → IsLaid s → IsLaid (data_long e v s)
unfolding data_long
data_long-IsLaid none v s h =
    extend_data-IsLaid _ s
      (byte_at-lt 0 v, (byte_at-lt 1 v, (byte_at-lt 2 v, (byte_at-lt 3 v, tt)))) h
data_long-IsLaid (some e) v s h =
    extend_data-IsLaid (0 ∷ 0 ∷ 0 ∷ 0 ∷ []) s
      (omega arith, (omega arith, (omega arith, (omega arith, tt)))) h

-- Of the sections only .data is stored.
ram_long-IsLaid :
    (sec : Section) (e : Option Text) (v : ℕ) (s : State) → IsLaid s → IsLaid (ram_long sec e v s)
unfolding ram_long reserve_bss
ram_long-IsLaid data_ e v s h = data_long-IsLaid e v (pad_data 4 s) (pad_data-IsLaid 4 s h)
ram_long-IsLaid bss e v s h = h
ram_long-IsLaid _ e v s h = h

image_long-IsLaid :
    (e : Option Text) (v line : ℕ) (s : State)
    → IsWord v
    → IsLaid s
    → IsLaid (emit (raw_word v e line) (mark_text_start (flush_pending_bytes s)))
image_long-IsLaid e v line s k h =
    emit-IsLaid (raw_word v e line) _ k
      (mark_text_start-IsLaid (flush_pending_bytes s) (flush_pending_bytes-IsLaid s h))

store_long-IsLaid :
    (mode : DataMode) (e : Option Text) (v line : ℕ) (s : State)
    → IsWord v
    → IsLaid s
    → IsLaid (store_long mode e v line s)
unfolding store_long
store_long-IsLaid rom e v line s k h =
    if-IsLaid (in_image rom s.current_section) _ (ram_long s.current_section e v s)
      (image_long-IsLaid e v line s k h) (ram_long-IsLaid s.current_section e v s h)
store_long-IsLaid mode e v line s k h =
    if-IsLaid (in_image mode s.current_section) _ s (image_long-IsLaid e v line s k h) h

long_value-IsLaid :
    (o : Option ℤ) (mode : DataMode) (v : Text) (line : ℕ) (s : State)
    → IsLaid s
    → IsLaid (long_value o mode v line s)
unfolding long_value
long_value-IsLaid (some n) mode v line s h =
    store_long-IsLaid mode none (low_bits 32 n) line s (low_bits-lt 32 n) h
long_value-IsLaid none mode v line s h =
    if-IsLaid (is_some (normalize_label v) || is_some (label_expr_match v)) _ _
      (store_long-IsLaid mode (some v) 0 line s (omega arith) h)
      (store_long-IsLaid mode none 0 line _ (omega arith) h)

pub do_long-IsLaid :
    (mode : DataMode) (vs : List Text) (line : ℕ) (s : State)
    → IsLaid s
    → IsLaid (do_long mode vs line s)
unfolding do_long
do_long-IsLaid mode [] line s h = h
do_long-IsLaid mode (v ∷ vs) line s h =
    do_long-IsLaid mode vs line _ (long_value-IsLaid (parse_int (strip v)) mode v line s h)

align_ram-IsLaid : (sec : Section) (n : ℕ) (s : State) → IsLaid s → IsLaid (align_ram sec n s)
unfolding align_ram reserve_bss
align_ram-IsLaid data_ n s h = pad_data-IsLaid n s h
align_ram-IsLaid bss n s h = h
align_ram-IsLaid _ n s h = h

align_image-IsLaid :
    (n line : ℕ) (s : State) → IsLaid s → IsLaid (pad_image true n line (flush_pending_bytes s))
align_image-IsLaid n line s h =
    pad_image-IsLaid true n line (flush_pending_bytes s) (flush_pending_bytes-IsLaid s h)

pub do_align-IsLaid :
    (mode : DataMode) (n line : ℕ) (s : State) → IsLaid s → IsLaid (do_align mode n line s)
unfolding do_align
do_align-IsLaid rom n line s h =
    if-IsLaid (in_image rom s.current_section) _ (align_ram s.current_section (2 ^ n) s)
      (align_image-IsLaid _ line s h) (align_ram-IsLaid s.current_section (2 ^ n) s h)
do_align-IsLaid mode n line s h =
    if-IsLaid (in_image mode s.current_section) _ s (align_image-IsLaid _ line s h) h

define_comm-IsLaid :
    (mode : DataMode) (name : Text) (size align line : ℕ) (s : State)
    → IsLaid s
    → IsLaid (define_comm mode name size align line s)
unfolding define_comm
define_comm-IsLaid rom name size align line s h = h
define_comm-IsLaid mode name size align line s h =
    let n = words_of_alignment align in
    emit_zeros-IsLaid ((size + 3) / 4) line (pad_image false n line s)
      (pad_image-IsLaid false n line s h)

comm_symbol-IsLaid :
    (o : Option Text) (mode : DataMode) (sym : Text) (size align line : ℕ) (s : State)
    → IsLaid s
    → IsLaid (comm_symbol o mode sym size align line s)
unfolding comm_symbol
comm_symbol-IsLaid none mode sym size align line s h = h
comm_symbol-IsLaid (some name) mode sym size align line s h =
    if-IsLaid (is_some (Dict.get s.label_map name)) _ _ h
      (define_comm-IsLaid mode name size align line s h)

pub do_comm-IsLaid :
    (mode : DataMode) (sym : Text) (size align line : ℕ) (s : State)
    → IsLaid s
    → IsLaid (do_comm mode sym size align line s)
unfolding do_comm
do_comm-IsLaid mode sym size align line s h =
    comm_symbol-IsLaid (normalize_label (strip sym)) mode (strip sym) size align line s h
