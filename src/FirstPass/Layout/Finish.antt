-- ===== src/FirstPass/Layout/Finish.antt =====
-- The layout of the whole first pass: the loop over the lines, the blob and the routine `.start`.
use procesador_32_bits.Base.{
  ℕ, zero, suc, ◌+◌, ◌^◌, ◌<◌, true, false, ◌||◌, List, [], ◌∷◌, ◌++◌, Option, none, some, arith,
  All, All-append, length, ◌<<◌, ltb, map, if◌then◌else◌,
}
use procesador_32_bits.Base.Int.{pos}
use procesador_32_bits.Text.{Text}
use procesador_32_bits.Isa.{build_word, opcode, Mnemonic, ldi, adi, lod, str, jmp}
use procesador_32_bits.Isa.Fields.{IsWord, build_word_fields, opcode-lt}
use procesador_32_bits.Address.{compute_hi_lo}
use procesador_32_bits.FirstPass.{
  DataMode, rom, State, words, initial, emit, pad_to_words, word_of_bytes, flush_pending_bytes,
}
use procesador_32_bits.FirstPass.Directive.{classify}
use procesador_32_bits.FirstPass.Lines.{do_line, do_lines, raises}
use procesador_32_bits.Lexer.{code_part}
use procesador_32_bits.FirstPass.Start.{
  get_reloc, blob_word, emit_blob, append_words, load_register, copy_words, copy_routine,
  main_entry, load_text_start, load_entry, with_blob, data_words, with_copy, inject_start,
  bss_start, fix_labels, finish, first_pass, jump_word,
}
use procesador_32_bits.FirstPass.Layout.{
  IsByte, IsSound, IsLaid, initial-IsLaid, word_of_bytes-lt, pad_to_words-IsByte,
  flush_pending_bytes-IsLaid,
}
use procesador_32_bits.FirstPass.Layout.Source.{do_directive-IsLaid}
use procesador_32_bits.FirstPass.Layout.Handlers.{if-IsLaid}

pub do_line-IsLaid :
    (mode : DataMode) (line : ℕ) (l : Text) (s : State) → IsLaid s → IsLaid (do_line mode line l s)
unfolding do_line
do_line-IsLaid mode line l s h =
    if-IsLaid s.raised s _ h
      (do_directive-IsLaid mode (classify (code_part l)) (code_part l) line s h)

-- After any lines `rom_address` counts the words of the image, `ram_data_offset` the bytes of
-- .data, every word known fits 32 bits and every stored byte fits 8.
pub do_lines-IsLaid :
    (mode : DataMode) (line : ℕ) (ls : List Text) (s : State)
    → IsLaid s
    → IsLaid (do_lines mode line ls s)
unfolding do_lines
do_lines-IsLaid mode line [] s h = h
do_lines-IsLaid mode line (l ∷ ls) s h =
    do_lines-IsLaid mode (line + 1) ls (do_line mode line l s) (do_line-IsLaid mode line l s h)

blob_word-IsSound : (o : Option Text) (v : ℕ) → IsWord v → IsSound (blob_word o v)
blob_word-IsSound none v h = h
blob_word-IsSound (some e) v h = omega arith

-- The blob is emitted with its address; behind it only the pending list is of interest.
emit_blob-IsSound :
    (offset : ℕ) (bytes : List ℕ) (s : State)
    → All IsByte bytes
    → All IsSound s.pending
    → All IsSound (emit_blob offset bytes s).pending
unfolding emit_blob
emit_blob-IsSound offset (a ∷ b ∷ c ∷ d ∷ bytes) s (ha, (hb, (hc, (hd, h)))) k =
    let i = blob_word (get_reloc offset s.rom_data_relocs) (word_of_bytes a b c d) in
    emit_blob-IsSound (offset + 4) bytes (emit i s) h (
      All-append IsSound s.pending (i ∷ []) k (
        blob_word-IsSound (get_reloc offset s.rom_data_relocs) _
            (word_of_bytes-lt a b c d ha hb hc hd),
        tt,
      ))
emit_blob-IsSound offset _ s h k = k

append_words-IsSound :
    (ws : List ℕ) (s : State)
    → All IsWord ws
    → All IsSound s.pending
    → All IsSound (append_words ws s).pending
append_words-IsSound ws s h k = All-append IsSound s.pending _ k (wrapped ws h)
  where
    wrapped : (ws : List ℕ) → All IsWord ws → All IsSound (map (λ w. words (w ∷ []) 0) ws)
    wrapped [] h = tt
    wrapped (w ∷ ws) h = (h.0, wrapped ws h.1)

-- A word of the routine fits whatever its operands are.
pub routine_word :
    (tipo : ℕ) (m : Mnemonic) (x : ℕ) → tipo < 2 ^ 3 → IsWord (build_word tipo (opcode m) x)
routine_word tipo m x h = (build_word_fields tipo (opcode m) x h (opcode-lt m)).0

load_register-IsWord : (n : ℕ) (halves : ℕ × ℕ) → All IsWord (load_register n halves)
unfolding load_register
load_register-IsWord n (hi, lo) =
    (routine_word 4 ldi _ (omega arith), (routine_word 4 adi _ (omega arith), tt))

copy_words-IsWord : (n i : ℕ) → All IsWord (copy_words n i)
unfolding copy_words
copy_words-IsWord zero i = tt
copy_words-IsWord (suc n) i = (
  routine_word 2 lod _ (omega arith),
  (routine_word 2 str _ (omega arith), copy_words-IsWord n (i + 1)),
)

copy_routine-IsWord : (n start : ℕ) → All IsWord (copy_routine n start)
unfolding copy_routine
copy_routine-IsWord zero start = tt
copy_routine-IsWord (suc n) start =
    let copy = copy_words (suc n) 0 in
    All-append IsWord (load_register 15 (compute_hi_lo (pos start)))
      (load_register 1 (0x0400, 0) ++ copy) (load_register-IsWord 15 (compute_hi_lo (pos start)))
      (All-append IsWord (load_register 1 (0x0400, 0)) copy (load_register-IsWord 1 (0x0400, 0))
        (copy_words-IsWord (suc n) 0))

load_text_start-IsSound :
    (o : Option ℕ) (s : State) → All IsSound s.pending → All IsSound (load_text_start o s).pending
unfolding load_text_start
load_text_start-IsSound none s k =
    append_words-IsSound (load_register 15 (compute_hi_lo (pos 0))) s
      (load_register-IsWord 15 (compute_hi_lo (pos 0))) k
load_text_start-IsSound (some start) s k =
    append_words-IsSound (load_register 15 (compute_hi_lo (pos start))) s
      (load_register-IsWord 15 (compute_hi_lo (pos start))) k

load_entry-IsSound :
    (o : Option Text) (s : State) → All IsSound s.pending → All IsSound (load_entry o s).pending
unfolding load_entry
load_entry-IsSound none s k = load_text_start-IsSound s.text_start_word s k
load_entry-IsSound (some name) s k = All-append IsSound s.pending _ k (tt, (tt, tt))

with_blob-IsSound : (s : State) → IsLaid s → All IsSound (with_blob s).pending
unfolding with_blob
with_blob-IsSound s h =
    emit_blob-IsSound 0 (pad_to_words s.rom_data_bytes) s
      (pad_to_words-IsByte s.rom_data_bytes h.blob_bytes) h.sound

with_copy-IsSound : (s : State) → IsLaid s → All IsSound (with_copy s).pending
unfolding with_copy
with_copy-IsSound s h =
    append_words-IsSound (copy_routine (data_words s) s.rom_address) (with_blob s)
      (copy_routine-IsWord (data_words s) s.rom_address) (with_blob-IsSound s h)

pub inject_start-IsSound : (s : State) → IsLaid s → All IsSound (inject_start s).pending
unfolding inject_start
inject_start-IsSound s h =
    let entry = main_entry (with_copy s).label_map in
    append_words-IsSound (jump_word ∷ []) (load_entry entry (with_copy s))
      (routine_word 0 jmp (15 << 16) (omega arith), tt)
      (load_entry-IsSound entry (with_copy s) (with_copy-IsSound s h))

finish-IsSound : (mode : DataMode) (s : State) → IsLaid s → All IsSound (finish mode s).pending
unfolding finish
finish-IsSound rom s h =
    let fixed = record s { label_map = fix_labels (bss_start s) s.label_map } in
    elim (ltb 0 (length s.rom_data_bytes) || ltb 0 s.ram_bss_offset)
      as (λ b. All IsSound (if b then inject_start fixed else fixed).pending) [
        | true ↦ inject_start-IsSound fixed h
        | false ↦ h.sound
      ]
finish-IsSound mode s h = h.sound

-- Every pending entry of the first pass is one word, and what it already holds fits 32 bits.
pub first_pass-IsSound :
    (lines : List Text) (mode : DataMode) (relocs : List (ℕ × Text))
    → All IsSound (first_pass lines mode relocs).pending
unfolding first_pass
first_pass-IsSound lines mode relocs =
    let s = do_lines mode 1 lines (initial relocs) in
    let laid = do_lines-IsLaid mode 1 lines (initial relocs) (initial-IsLaid relocs) in
    elim (raises mode lines relocs)
      as (λ b. All IsSound (if b then s else finish mode (flush_pending_bytes s)).pending) [
        | true ↦ laid.sound
        | false ↦ finish-IsSound mode (flush_pending_bytes s) (flush_pending_bytes-IsLaid s laid)
      ]
