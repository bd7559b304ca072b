-- ===== src/FirstPass/Growth/Labels.antt =====
-- What a label of the source stands for: the next thing of its section.
use mathlib.Core.Path.{subst}
use procesador_32_bits.Base.{
  ℕ, ◌+◌, ◌≤◌, ◌≡◌, refl, sym, ◌∙◌, ap, true, false, List, [], ◌∷◌, none, some, length,
  if◌then◌else◌,
}
use procesador_32_bits.Dict
use procesador_32_bits.Lexer.{code_part, tokenize_line, drop_last}
use procesador_32_bits.Operands.{normalize_label}
use procesador_32_bits.Text.{Text}
use procesador_32_bits.Text.Equality.{text_eq_refl}
use procesador_32_bits.FirstPass.{
  State, Section, text, rodata, data_, bss, DataMode, rom, ram, other_mode, ram_base, bss_base,
  raw_word, mark_text_start, emit, emit_words, words_of_bytes, pad_to_words, flush_pending_bytes,
}
use procesador_32_bits.FirstPass.Directive.{other, classify}
use procesador_32_bits.FirstPass.Growth.{Prefix, Grows, Grows-trans}
use procesador_32_bits.FirstPass.Growth.Source.{do_tokens-Grows, do_lines-Grows}
use procesador_32_bits.FirstPass.Layout.{IsLaid, flush_pending_bytes-IsLaid}
use procesador_32_bits.FirstPass.Lines.{
  ends_with_colon, label_address, define_label, do_tokens, do_code, do_directive, do_line, do_lines,
}

-- In ROM mode a label of .data is the RAM address behind the bytes of the blob so far, and the blob goes
-- on from there; a label of .bss is the provisional address of what is reserved next; every other
-- label, and in other modes each label, is the number of the entry of the image that comes next.
abbrev pub Points : DataMode → Section → State → State → Text → Type 0
Points rom data_ u e name =
    (Dict.get e.label_map name ≡ some (ram_base + length u.rom_data_bytes))
    × Prefix u.rom_data_bytes e.rom_data_bytes
Points rom bss u e name =
    (Dict.get e.label_map name ≡ some (bss_base + u.ram_bss_offset))
    × (u.ram_bss_offset ≤ e.ram_bss_offset)
Points _ _ u e name =
    (Dict.get e.label_map name ≡ some (length u.pending)) × Prefix u.pending e.pending

-- What a flush does not change
emit_words-keeps :
    (ws : List ℕ) (s : State)
    → ((emit_words ws s).current_section ≡ s.current_section)
      × ((emit_words ws s).label_map ≡ s.label_map)
unfolding emit_words emit mark_text_start
emit_words-keeps [] s = (refl, refl)
emit_words-keeps (w ∷ ws) s = emit_words-keeps ws (emit (raw_word w none 0) (mark_text_start s))

flush_pending_bytes-keeps :
    (s : State)
    → ((flush_pending_bytes s).current_section ≡ s.current_section)
      × ((flush_pending_bytes s).label_map ≡ s.label_map)
unfolding flush_pending_bytes
flush_pending_bytes-keeps s = emit_words-keeps (words_of_bytes (pad_to_words s.pending_bytes)) s

labelled : DataMode → Text → State → State
labelled mode name u = record u { label_map = Dict.set u.label_map name (label_address mode u) }

labelled-get :
    (mode : DataMode) (name : Text) (u e : State) (a : ℕ)
    → label_address mode u ≡ a
    → Grows (labelled mode name u) e
    → Dict.get e.label_map name ≡ some a
unfolding labelled
labelled-get mode name u e a h grows =
    grows.0 name a (
      Dict.get-set u.label_map name name (label_address mode u)
      ∙ rw (text_eq_refl name) (ap some h))

labelled-image :
    (mode : DataMode) (name : Text) (u e : State)
    → label_address mode u ≡ u.rom_address
    → IsLaid u
    → Grows (labelled mode name u) e
    → (Dict.get e.label_map name ≡ some (length u.pending)) × Prefix u.pending e.pending
unfolding labelled
labelled-image mode name u e h laid grows =
    (labelled-get mode name u e (length u.pending) (h ∙ laid.addressed) grows, grows.1)

-- The label is kept by all that follows, and so is what was there before it.
labelled-Points :
    (mode : DataMode) (sec : Section) (name : Text) (u e : State)
    → u.current_section ≡ sec
    → IsLaid u
    → Grows (labelled mode name u) e
    → Points mode sec u e name
unfolding labelled label_address
labelled-Points rom data_ name u e h laid grows =
    (labelled-get rom name u e _ (rw h (ap (λ n. ram_base + n) laid.counted)) grows, grows.3)
labelled-Points rom bss name u e h laid grows =
    (labelled-get rom name u e _ (rw h refl) grows, grows.4.2)
labelled-Points rom text name u e h laid grows = labelled-image rom name u e (rw h refl) laid grows
labelled-Points rom rodata name u e h laid grows =
    labelled-image rom name u e (rw h refl) laid grows
labelled-Points ram sec name u e h laid grows = labelled-image ram name u e refl laid grows
labelled-Points other_mode sec name u e h laid grows =
    labelled-image other_mode name u e refl laid grows

-- A line `name:` that is not a directive, for a name that is new, makes the label
line-labelled :
    (mode : DataMode) (line : ℕ) (l t name : Text) (ts : List Text) (s : State)
    → s.raised ≡ false
    → classify (code_part l) ≡ other
    → tokenize_line (code_part l) ≡ t ∷ ts
    → ends_with_colon t ≡ true
    → normalize_label (drop_last t) ≡ some name
    → Dict.get s.label_map name ≡ none
    → do_line mode line l s ≡ do_tokens ts line (labelled mode name (flush_pending_bytes s))
unfolding do_line do_directive do_code define_label labelled
line-labelled mode line l t name ts s quiet code tokens colon named fresh =
    let fresh' = ap (λ d. Dict.get d name) ((flush_pending_bytes-keeps s).1) ∙ fresh in
    ap (λ b. if b then s else do_directive mode (classify (code_part l)) (code_part l) line s) quiet
    ∙ rw (code, tokens, colon, named, fresh') refl

-- In a state with the invariant of the image, a line that begins with a new label `name:` and is no
-- directive gives the label, to the end of the source and in spite of all that follows, the place of
-- what comes next in its section. In ROM mode that is for .data the RAM address behind the bytes so
-- far, which the blob keeps in front, and for .bss the provisional address behind what is reserved so
-- far; for other sections and in other modes it is the number of entries of the image so far, the bytes
-- that wait included, which the image keeps in front.
pub do_lines-Points :
    (mode : DataMode) (line : ℕ) (l t name : Text) (ts rest : List Text) (s : State)
    → IsLaid s
    → s.raised ≡ false
    → classify (code_part l) ≡ other
    → tokenize_line (code_part l) ≡ t ∷ ts
    → ends_with_colon t ≡ true
    → normalize_label (drop_last t) ≡ some name
    → Dict.get s.label_map name ≡ none
    → Points mode s.current_section (flush_pending_bytes s) (do_lines mode line (l ∷ rest) s) name
unfolding do_lines
do_lines-Points mode line l t name ts rest s laid quiet code tokens colon named fresh =
    let u = flush_pending_bytes s in
    let v = do_tokens ts line (labelled mode name u) in
    subst (λ w. Points mode s.current_section u (do_lines mode (line + 1) rest w) name)
      (sym (line-labelled mode line l t name ts s quiet code tokens colon named fresh))
      (labelled-Points mode s.current_section name u (do_lines mode (line + 1) rest v)
        ((flush_pending_bytes-keeps s).0) (flush_pending_bytes-IsLaid s laid)
        (Grows-trans (labelled mode name u) v (do_lines mode (line + 1) rest v)
          (do_tokens-Grows ts line (labelled mode name u)) (do_lines-Grows mode (line + 1) rest v)))
