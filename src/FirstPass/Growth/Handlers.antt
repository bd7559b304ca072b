-- ===== src/FirstPass/Growth/Handlers.antt =====
-- The handlers of the data directives only add.
use procesador_32_bits.Base.{
  inl, inr, arith, ℕ, ◌+◌, ◌-◌, ◌/◌, ◌%◌, ◌^◌, ◌≡◌, refl, ap, ◌∙◌, Bool, true, false, ◌||◌, List,
  [], ◌∷◌, ◌++◌, Option, none, some, replicate, is_some, if◌then◌else◌, ◌==◌, length, ltb,
}
use procesador_32_bits.Base.Int.{ℤ, low_bits}
use procesador_32_bits.Text.{Text, strip}
use procesador_32_bits.Text.Number.{parse_int}
use procesador_32_bits.Dict
use procesador_32_bits.Operands.{normalize_label}
use procesador_32_bits.Expression.{label_expr_match}
use procesador_32_bits.FirstPass.{
  Section, data_, bss, DataMode, rom, State, raw_word, add_error, bad_number, bad_symbol,
  duplicate_symbol, bss_base, padding, mark_text_start, emit, emit_zeros, flush_pending_bytes,
}
use procesador_32_bits.FirstPass.Data.{
  words_of_alignment, in_image, logged, logged_int, pad_image, define_comm, comm_symbol, do_comm,
  extend_data, pad_data, reserve_bss, align_ram, do_align, byte_at, data_long, ram_long, store_long,
  long_value, do_long, store_bytes, store_short, do_short, do_byte, do_ascii, all_bytes, do_string,
  do_zeros,
}
use procesador_32_bits.FirstPass.Growth.{
  Grows, Grows-refl, Grows-trans, Prefix-refl, if-Grows, mark_text_start-Grows, emit-Grows,
  emit_zeros-Grows, add_error-Grows, flush_pending_bytes-Grows, set_label-Grows, set-KeepsLabels,
  set-LabelsBetween, else-Grows, none-is_some,
}

pad_image-Grows : (marks : Bool) (n line : ℕ) (s : State) → Grows s (pad_image marks n line s)
unfolding pad_image
pad_image-Grows marks n line s =
    let t = if marks then mark_text_start s else s in
    let u = emit_zeros (n - s.rom_address % n) line t in
    if-Grows (s.rom_address % n == 0) s s u (Grows-refl s) (
      Grows-trans s t u
        (if-Grows marks s (mark_text_start s) s (mark_text_start-Grows s) (Grows-refl s))
        (emit_zeros-Grows (n - s.rom_address % n) line t))

extend_data-Grows : (bytes : List ℕ) (s : State) → Grows s (extend_data bytes s)
unfolding extend_data
extend_data-Grows bytes s = (
  λ k a h. h,
  Prefix-refl s.pending,
  Prefix-refl s.errors,
  (bytes, refl),
  (omega arith, omega arith, omega arith),
  λ k a h. inl h,
  λ e. refl,
)

pad_data-Grows : (n : ℕ) (s : State) → Grows s (pad_data n s)
unfolding pad_data
pad_data-Grows n s = extend_data-Grows (replicate (padding n s.ram_data_offset) 0) s

reserve_bss-Grows : (n size : ℕ) (s : State) → Grows s (reserve_bss n size s)
unfolding reserve_bss
reserve_bss-Grows n size s = (
  λ k a h. h,
  Prefix-refl s.pending,
  Prefix-refl s.errors,
  Prefix-refl s.rom_data_bytes,
  (omega arith, omega arith, omega arith),
  λ k a h. inl h,
  λ e. refl,
)

pad_image-labels : (n line : ℕ) (s : State) → (pad_image false n line s).label_map ≡ s.label_map
unfolding pad_image
pad_image-labels n line s = if_label (s.rom_address % n == 0)
  where
    if_label :
        (c : Bool)
        → (if c then s else emit_zeros (n - s.rom_address % n) line s).label_map ≡ s.label_map
    if_label true = refl
    if_label false = refl

define_comm-Grows :
    (mode : DataMode) (name : Text) (size align line : ℕ) (s : State)
    → Dict.get s.label_map name ≡ none
    → Grows s (define_comm mode name size align line s)
unfolding define_comm
define_comm-Grows rom name size align line s fresh =
    let n = if ltb 0 align then align else 1 in
    let offset = s.ram_bss_offset + padding n s.ram_bss_offset in
    let t = define_comm rom name size align line s in
    (
      set-KeepsLabels s.label_map name (bss_base + offset) fresh,
      Prefix-refl s.pending,
      Prefix-refl s.errors,
      Prefix-refl s.rom_data_bytes,
      (omega arith, omega arith, omega arith),
      set-LabelsBetween s t name (bss_base + offset) refl (inr (inr (omega arith, omega arith))),
      λ e. refl,
    )
define_comm-Grows mode name size align line s fresh =
    let n = words_of_alignment align in
    let t = pad_image false n line s in
    let u = record t { label_map = Dict.set t.label_map name t.rom_address } in
    let still : Dict.get t.label_map name ≡ none =
      ap (λ d. Dict.get d name) (pad_image-labels n line s) ∙ fresh in
    Grows-trans s u (emit_zeros ((size + 3) / 4) line u)
      (Grows-trans s t u (pad_image-Grows false n line s)
        (set_label-Grows name t.rom_address t still (inl (omega arith, omega arith))))
      (emit_zeros-Grows ((size + 3) / 4) line u)

comm_symbol-Grows :
    (o : Option Text) (mode : DataMode) (sym : Text) (size align line : ℕ) (s : State)
    → Grows s (comm_symbol o mode sym size align line s)
unfolding comm_symbol
comm_symbol-Grows none mode sym size align line s = add_error-Grows (some line) (bad_symbol sym) s
comm_symbol-Grows (some name) mode sym size align line s =
    else-Grows (is_some (Dict.get s.label_map name)) s
      (add_error (some line) (duplicate_symbol name) s) (define_comm mode name size align line s)
      (add_error-Grows (some line) (duplicate_symbol name) s)
      λ e.
        define_comm-Grows mode name size align line s (none-is_some (Dict.get s.label_map name) e)

pub do_comm-Grows :
    (mode : DataMode) (sym : Text) (size align line : ℕ) (s : State)
    → Grows s (do_comm mode sym size align line s)
unfolding do_comm
do_comm-Grows mode sym size align line s =
    comm_symbol-Grows (normalize_label (strip sym)) mode (strip sym) size align line s

align_ram-Grows : (sec : Section) (n : ℕ) (s : State) → Grows s (align_ram sec n s)
unfolding align_ram
align_ram-Grows data_ n s = pad_data-Grows n s
align_ram-Grows bss n s = reserve_bss-Grows n 0 s
align_ram-Grows _ n s = Grows-refl s

aligned-Grows : (n line : ℕ) (s : State) → Grows s (pad_image true n line (flush_pending_bytes s))
aligned-Grows n line s =
    let t = flush_pending_bytes s in
    Grows-trans s t (pad_image true n line t) (flush_pending_bytes-Grows s)
      (pad_image-Grows true n line t)

pub do_align-Grows : (mode : DataMode) (n line : ℕ) (s : State) → Grows s (do_align mode n line s)
unfolding do_align
do_align-Grows rom n line s =
    if-Grows (in_image rom s.current_section) s _ (align_ram s.current_section (2 ^ n) s)
      (aligned-Grows (words_of_alignment (2 ^ n)) line s)
      (align_ram-Grows s.current_section (2 ^ n) s)
do_align-Grows mode n line s =
    if-Grows (in_image mode s.current_section) s _ s
      (aligned-Grows (words_of_alignment (2 ^ n)) line s) (Grows-refl s)

append_cons-nil : (xs : List ℕ) (x : ℕ) (ys : List ℕ) → xs ++ x ∷ ys ≡ [] → ⊥
append_cons-nil [] x ys h = cc
append_cons-nil (w ∷ xs) x ys h = cc

data_long-Grows : (e : Option Text) (v : ℕ) (s : State) → Grows s (data_long e v s)
unfolding data_long extend_data
data_long-Grows none v s =
    extend_data-Grows (byte_at 0 v ∷ byte_at 1 v ∷ byte_at 2 v ∷ byte_at 3 v ∷ []) s
data_long-Grows (some e) v s = (
  λ k a h. h,
  Prefix-refl s.pending,
  Prefix-refl s.errors,
  (0 ∷ 0 ∷ 0 ∷ 0 ∷ [], refl),
  (omega arith, omega arith, omega arith),
  λ k a h. inl h,
  λ nil. absurd (append_cons-nil s.rom_data_bytes 0 (0 ∷ 0 ∷ 0 ∷ []) nil),
)

ram_long-Grows :
    (sec : Section) (e : Option Text) (v : ℕ) (s : State) → Grows s (ram_long sec e v s)
unfolding ram_long
ram_long-Grows data_ e v s =
    let t = pad_data 4 s in
    Grows-trans s t (data_long e v t) (pad_data-Grows 4 s) (data_long-Grows e v t)
ram_long-Grows bss e v s = reserve_bss-Grows 4 4 s
ram_long-Grows _ e v s = Grows-refl s

image_long-Grows :
    (e : Option Text) (v line : ℕ) (s : State)
    → Grows s (emit (raw_word v e line) (mark_text_start (flush_pending_bytes s)))
image_long-Grows e v line s =
    let t = flush_pending_bytes s in
    let u = mark_text_start t in
    Grows-trans s u (emit (raw_word v e line) u)
      (Grows-trans s t u (flush_pending_bytes-Grows s) (mark_text_start-Grows t))
      (emit-Grows (raw_word v e line) u)

store_long-Grows :
    (mode : DataMode) (e : Option Text) (v line : ℕ) (s : State)
    → Grows s (store_long mode e v line s)
unfolding store_long
store_long-Grows rom e v line s =
    if-Grows (in_image rom s.current_section) s _ (ram_long s.current_section e v s)
      (image_long-Grows e v line s) (ram_long-Grows s.current_section e v s)
store_long-Grows mode e v line s =
    if-Grows (in_image mode s.current_section) s _ s (image_long-Grows e v line s) (Grows-refl s)

long_value-Grows :
    (o : Option ℤ) (mode : DataMode) (v : Text) (line : ℕ) (s : State)
    → Grows s (long_value o mode v line s)
unfolding long_value
long_value-Grows (some n) mode v line s = store_long-Grows mode none (low_bits 32 n) line s
long_value-Grows none mode v line s =
    let t = add_error (some line) (bad_number v) s in
    if-Grows (is_some (normalize_label v) || is_some (label_expr_match v)) s
      (store_long mode (some v) 0 line s) (store_long mode none 0 line t)
      (store_long-Grows mode (some v) 0 line s)
      (Grows-trans s t (store_long mode none 0 line t)
        (add_error-Grows (some line) (bad_number v) s) (store_long-Grows mode none 0 line t))

pub do_long-Grows :
    (mode : DataMode) (vs : List Text) (line : ℕ) (s : State) → Grows s (do_long mode vs line s)
unfolding do_long
do_long-Grows mode [] line s = Grows-refl s
do_long-Grows mode (v ∷ vs) line s =
    let t = long_value (parse_int (strip v)) mode v line s in
    Grows-trans s t (do_long mode vs line t) (long_value-Grows (parse_int (strip v)) mode v line s)
      (do_long-Grows mode vs line t)

store_bytes-Grows :
    (mode : DataMode) (sec : Section) (bytes : List ℕ) (s : State)
    → Grows s (store_bytes mode sec bytes s)
unfolding store_bytes
store_bytes-Grows rom data_ bytes s = extend_data-Grows bytes s
store_bytes-Grows rom bss bytes s = reserve_bss-Grows 1 (length bytes) s
store_bytes-Grows mode sec bytes s = Grows-refl s

store_short-Grows :
    (mode : DataMode) (sec : Section) (v : ℕ) (s : State) → Grows s (store_short mode sec v s)
unfolding store_short
store_short-Grows rom data_ v s =
    let t = pad_data 2 s in
    let bytes = byte_at 0 v ∷ byte_at 1 v ∷ [] in
    Grows-trans s t (extend_data bytes t) (pad_data-Grows 2 s) (extend_data-Grows bytes t)
store_short-Grows rom bss v s = reserve_bss-Grows 2 2 s
store_short-Grows mode sec v s = store_bytes-Grows mode sec (byte_at 0 v ∷ byte_at 1 v ∷ []) s

logged-Grows : (o : Option ℤ) (v : Text) (line : ℕ) (s : State) → Grows s (logged o v line s).1
unfolding logged
logged-Grows none v line s = add_error-Grows (some line) (bad_number (strip v)) s
logged-Grows (some n) v line s = Grows-refl s

pub do_short-Grows :
    (mode : DataMode) (vs : List Text) (line : ℕ) (s : State) → Grows s (do_short mode vs line s)
unfolding do_short logged_int
do_short-Grows mode [] line s = Grows-refl s
do_short-Grows mode (v ∷ vs) line s =
    let (n, t) = logged_int v line s in
    let u = store_short mode t.current_section (low_bits 16 n) t in
    Grows-trans s u (do_short mode vs line u)
      (Grows-trans s t u (logged-Grows (parse_int (strip v)) v line s)
        (store_short-Grows mode t.current_section (low_bits 16 n) t))
      (do_short-Grows mode vs line u)

pub do_byte-Grows :
    (mode : DataMode) (vs : List Text) (line : ℕ) (s : State) → Grows s (do_byte mode vs line s)
unfolding do_byte logged_int
do_byte-Grows mode [] line s = Grows-refl s
do_byte-Grows mode (v ∷ vs) line s =
    let (n, t) = logged_int v line s in
    let u = store_bytes mode t.current_section (low_bits 8 n ∷ []) t in
    Grows-trans s u (do_byte mode vs line u)
      (Grows-trans s t u (logged-Grows (parse_int (strip v)) v line s)
        (store_bytes-Grows mode t.current_section (low_bits 8 n ∷ []) t))
      (do_byte-Grows mode vs line u)

do_ascii-Grows : (mode : DataMode) (bs : List ℕ) (s : State) → Grows s (do_ascii mode bs s)
unfolding do_ascii
do_ascii-Grows mode [] s = Grows-refl s
do_ascii-Grows mode (b ∷ bs) s =
    let t = store_bytes mode s.current_section (b ∷ []) s in
    Grows-trans s t (do_ascii mode bs t) (store_bytes-Grows mode s.current_section (b ∷ []) s)
      (do_ascii-Grows mode bs t)

pub do_string-Grows : (mode : DataMode) (bs : List ℕ) (s : State) → Grows s (do_string mode bs s)
unfolding do_string
do_string-Grows mode bs s =
    if-Grows (all_bytes bs) s (do_ascii mode bs s) _ (do_ascii-Grows mode bs s) (Grows-refl s)

pub do_zeros-Grows : (mode : DataMode) (n : ℕ) (s : State) → Grows s (do_zeros mode n s)
unfolding do_zeros
do_zeros-Grows mode n s = store_bytes-Grows mode s.current_section (replicate n 0) s
