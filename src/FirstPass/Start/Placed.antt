-- ===== src/FirstPass/Start/Placed.antt =====
-- Where `inject_start` puts the blob, the label `.start` and the routine.
use procesador_32_bits.Base.{
  ℕ, suc, ◌+◌, ◌/◌, ◌≡◌, refl, sym, ap, ◌∙◌, List, [], ◌∷◌, ◌++◌, append_assoc, append-nil, some,
  arith, length, map, if◌then◌else◌,
}
use procesador_32_bits.Text.{Text, codes, text_eq}
use procesador_32_bits.Dict
use procesador_32_bits.Dict.{Dict}
use procesador_32_bits.FirstPass.{
  State, PendingInstruction, words, pending_tokens, emit, pad_to_words, word_of_bytes,
}
use procesador_32_bits.FirstPass.Start.{
  get_reloc, blob_word, emit_blob, copy_routine, main_entry, jump_word, load_entry, with_blob,
  data_words, with_copy, inject_start,
}
use procesador_32_bits.FirstPass.Start.Entry.{hi_tokens, lo_tokens}

-- The entries of the blob: a word of four bytes, or the expression that a relocation names.
pub blob_entries : List (ℕ × Text) → ℕ → List ℕ → List PendingInstruction
blob_entries relocs offset (b0 ∷ b1 ∷ b2 ∷ b3 ∷ bytes) =
    blob_word (get_reloc offset relocs) (word_of_bytes b0 b1 b2 b3)
    ∷ blob_entries relocs (offset + 4) bytes
blob_entries relocs offset _ = []

length-blob_entries :
    (relocs : List (ℕ × Text)) (offset : ℕ) (bytes : List ℕ)
    → length (blob_entries relocs offset bytes) ≡ length bytes / 4
unfolding blob_entries
length-blob_entries relocs offset (b0 ∷ b1 ∷ b2 ∷ b3 ∷ bytes) =
    omega (arith, length-blob_entries relocs (offset + 4) bytes)
length-blob_entries relocs offset [] = refl
length-blob_entries relocs offset (_ ∷ []) = refl
length-blob_entries relocs offset (_ ∷ _ ∷ []) = refl
length-blob_entries relocs offset (_ ∷ _ ∷ _ ∷ []) = refl

-- Entries behind the image, with `rom_address` moved.
abbrev pub placed : List PendingInstruction → State → State
placed entries s = record s {
  pending = s.pending ++ entries;
  rom_address = s.rom_address + length entries;
}

placed-nil : (s : State) → s ≡ placed [] s
placed-nil s = λ i. record s { pending = sym (append-nil s.pending) i; rom_address = same i }
  where
    same : s.rom_address ≡ s.rom_address + 0
    same = omega arith

placed-cons :
    (x : PendingInstruction) (xs : List PendingInstruction) (s : State)
    → placed xs (emit x s) ≡ placed (x ∷ xs) s
unfolding emit
placed-cons x xs s =
    λ i. record s { pending = append_assoc s.pending (x ∷ []) xs i; rom_address = same i }
  where
    same : s.rom_address + 1 + length xs ≡ s.rom_address + suc (length xs)
    same = omega arith

-- The blob changes the pending list and `rom_address` only.
pub emit_blob-placed :
    (offset : ℕ) (bytes : List ℕ) (s : State)
    → emit_blob offset bytes s ≡ placed (blob_entries s.rom_data_relocs offset bytes) s
unfolding emit_blob blob_entries
emit_blob-placed offset (b0 ∷ b1 ∷ b2 ∷ b3 ∷ bytes) s =
    let x = blob_word (get_reloc offset s.rom_data_relocs) (word_of_bytes b0 b1 b2 b3) in
    unfold emit in
    emit_blob-placed (offset + 4) bytes (emit x s)
    ∙ placed-cons x (blob_entries s.rom_data_relocs (offset + 4) bytes) s
emit_blob-placed offset [] s = placed-nil s
emit_blob-placed offset (_ ∷ []) s = placed-nil s
emit_blob-placed offset (_ ∷ _ ∷ []) s = placed-nil s
emit_blob-placed offset (_ ∷ _ ∷ _ ∷ []) s = placed-nil s

-- The blob of a state, a number of words that `data_words` counts.
abbrev pub blob_of : State → List PendingInstruction
blob_of s = blob_entries s.rom_data_relocs 0 (pad_to_words s.rom_data_bytes)

abbrev pub literals : List ℕ → List PendingInstruction
literals = map λ w. words (w ∷ []) 0

-- The blob, the copy routine, the words that load main, and the jump.
abbrev pub injected : State → List PendingInstruction
injected s =
    blob_of s
    ++ (literals (copy_routine (data_words s) s.rom_address)
        ++ pending_tokens hi_tokens 0 ∷ pending_tokens lo_tokens 0 ∷ words (jump_word ∷ []) 0 ∷ [])

with_blob-pending : (s : State) → (with_blob s).pending ≡ s.pending ++ blob_of s
unfolding with_blob
with_blob-pending s =
    ap (λ (o : State). o.pending) (emit_blob-placed 0 (pad_to_words s.rom_data_bytes) s)

pub length-blob_of : (s : State) → length (blob_of s) ≡ data_words s
length-blob_of s = length-blob_entries s.rom_data_relocs 0 (pad_to_words s.rom_data_bytes)

-- The label `.start` stands behind the blob, and every other label stays.
pub with_copy-label :
    (s : State) (k : Text)
    → Dict.get (with_copy s).label_map k ≡ (
        if text_eq (codes ".start") k
        then some (s.rom_address + data_words s)
        else Dict.get s.label_map k)
unfolding with_copy with_blob
with_copy-label s k =
    let blob = emit_blob-placed 0 (pad_to_words s.rom_data_bytes) s in
    rw (Dict.get-set, blob, length-blob_of)

main_entry-main :
    (d : Dict ℕ) (a : ℕ) → Dict.get d (codes "main") ≡ some a → main_entry d ≡ some (codes "main")
main_entry-main d a e = rw e

pub with_copy-main :
    (s : State) (a : ℕ)
    → Dict.get s.label_map (codes "main") ≡ some a
    → Dict.get (with_copy s).label_map (codes "main") ≡ some a
unfolding text_eq
with_copy-main s a e = with_copy-label s (codes "main") ∙ e

-- The map that the routine was made with is the one of the result.
pub inject_start-labels :
    (s : State) (a : ℕ)
    → Dict.get s.label_map (codes "main") ≡ some a
    → (inject_start s).label_map ≡ (with_copy s).label_map
unfolding inject_start load_entry
inject_start-labels s a e = rw (main_entry-main (with_copy s).label_map a (with_copy-main s a e))

-- With a label main the routine ends with the load of its address and the jump.
pub inject_start-pending :
    (s : State) (a : ℕ)
    → Dict.get s.label_map (codes "main") ≡ some a
    → (inject_start s).pending ≡ s.pending ++ injected s
unfolding inject_start with_copy load_entry
inject_start-pending s a e =
    rw (main_entry-main (with_copy s).label_map a (with_copy-main s a e))
      (simp (with_blob-pending, append_assoc))
