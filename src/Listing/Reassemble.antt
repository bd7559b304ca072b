-- ===== src/Listing/Reassemble.antt =====
-- The block at the end of a source changes nothing that is assembled.
use procesador_32_bits.FirstPass.Start.{finish, first_pass}
use procesador_32_bits.Base.{
  if◌then◌else◌, ℕ, zero, suc, ◌≡◌, refl, sym, ap, ◌∙◌, Bool-cases, inl, inr, false, List, [], ◌∷◌,
  ◌++◌, append_assoc, append-nil, ==_iff, none, replicate,
}
use procesador_32_bits.Text.{Text, rstrip, put_unless}
use procesador_32_bits.FirstPass.{flush_pending_bytes, DataMode, State, initial}
use procesador_32_bits.FirstPass.Lines.{do_lines}
use procesador_32_bits.SecondPass.{Assembly, second_pass, assemble_lines}
use procesador_32_bits.Listing.{
  newline, sentinel, readlines, strip_start_listing_from_lines, before_text, without_block,
  add_block, write_start_listing,
}
use procesador_32_bits.Listing.First.{before_text-none}
use procesador_32_bits.Listing.Search.{occurs}
use procesador_32_bits.Listing.Lines.{readlines-Closes, do_lines-Closes}
use procesador_32_bits.Listing.Sentinel.{strip_lines-AllLack, readlines-AllLack}
use procesador_32_bits.Listing.Block.{add_block-again, add_block-lines, tidy, tidy-lacks}

-- The state of the first pass behind a text depends on these lines.
abbrev pub SameLines : List Text → List Text → Type 0
SameLines ls ms =
    (mode : DataMode) (line : ℕ) (s : State) → do_lines mode line ls s ≡ do_lines mode line ms s

pub readlines-newline : (x : Text) → SameLines (readlines (x ++ b'\n' ∷ [])) (readlines x)
readlines-newline x =
    λ mode line s. do_lines-Closes mode line (readlines x) _ s (readlines-Closes x)

put_unless-replicate :
    (c : ℕ) (rest s : Text) (n : ℕ)
    → s ≡ rest ++ replicate n b'\n'
    → (m : ℕ) × (c ∷ s ≡ put_unless (newline c) c rest ++ replicate m b'\n')
put_unless-replicate c (d ∷ rest) s n h = (n, ap (λ l. c ∷ l) h)
put_unless-replicate c [] s n h = elim (Bool-cases (newline c)) [
  | inl end ↦
      let e : c ≡ b'\n' = (==_iff c b'\n').0 end in
      (suc n, rw end (ap (λ d. d ∷ s) e ∙ ap (λ l. b'\n' ∷ l) h))
  | inr inside ↦ (n, rw inside (ap (λ l. c ∷ l) h))
]

rstrip-replicate : (x : Text) → (n : ℕ) × (x ≡ rstrip newline x ++ replicate n b'\n')
unfolding rstrip
rstrip-replicate [] = (zero, refl)
rstrip-replicate (c ∷ x) =
    let r = rstrip-replicate x in put_unless-replicate c (rstrip newline x) x r.0 r.1

-- Newlines at the end change nothing.
replicate-SameLines :
    (n : ℕ) (x : Text) → SameLines (readlines (x ++ replicate n b'\n')) (readlines x)
replicate-SameLines zero x mode line s = ap (λ y. do_lines mode line (readlines y) s) (append-nil x)
replicate-SameLines (suc n) x mode line s =
    ap (λ y. do_lines mode line (readlines y) s) (sym (append_assoc x (b'\n' ∷ []) _))
    ∙ (replicate-SameLines n (x ++ b'\n' ∷ []) mode line s ∙ readlines-newline x mode line s)

tidy-SameLines : (x : Text) → SameLines (readlines (tidy x)) (readlines x)
tidy-SameLines x mode line s =
    let r = rstrip-replicate x in
    readlines-newline (rstrip newline x) mode line s
    ∙ (sym (replicate-SameLines r.0 (rstrip newline x) mode line s)
        ∙ ap (λ y. do_lines mode line (readlines y) s) (sym r.1))

-- What the runs of the assembler leave of a file, with the listing that each of them writes.
unfoldable pub rewritten : Text → List (List Text) → Text
rewritten content [] = content
rewritten content (l ∷ ls) = rewritten (write_start_listing content l) ls

block-SameLines :
    (x : Text) (listing : List Text) (ls : List (List Text))
    → occurs sentinel x ≡ false
    → SameLines
        (strip_start_listing_from_lines (readlines (rewritten (add_block x listing) ls)))
        (readlines x)
unfolding rewritten
block-SameLines x listing [] h mode line s =
    ap (λ ls. do_lines mode line ls s) (add_block-lines x listing h)
    ∙ readlines-newline x mode line s
block-SameLines x listing (l ∷ ls) h mode line s =
    ap (λ y. do_lines mode line (strip_start_listing_from_lines (readlines (rewritten y ls))) s)
      (add_block-again x listing l h)
    ∙ (block-SameLines (tidy x) l ls (tidy-lacks x h) mode line s ∙ tidy-SameLines x mode line s)

-- The assembly by the state behind the loop over the lines.
abbrev assembly_of : DataMode → State → Assembly
assembly_of mode t =
    let s = if t.raised then t else finish mode (flush_pending_bytes t) in
    let o = second_pass s.label_map s.pending in
    record {
      instructions = o.result;
      errors = s.errors ++ o.errors;
      label_map = s.label_map;
      text_start_word = s.text_start_word;
      raised = t.raised;
    }

pub SameLines-assemble_lines :
    (ls ms : List Text) (mode : DataMode) (relocs : List (ℕ × Text))
    → SameLines ls ms
    → assemble_lines ls mode relocs ≡ assemble_lines ms mode relocs
unfolding assemble_lines first_pass
SameLines-assemble_lines ls ms mode relocs h = ap (assembly_of mode) (h mode 1 (initial relocs))

pub fresh-write_start_listing :
    (content : Text) (listing : List Text)
    → before_text sentinel content ≡ none
    → write_start_listing content listing ≡ add_block content listing
unfolding write_start_listing
fresh-write_start_listing content listing h =
    ap (λ o. add_block (without_block o content) listing) h

-- What the runs leave is read as what was there at first.
pub rewritten-SameLines :
    (content : Text) (listings : List (List Text))
    → before_text sentinel content ≡ none
    → SameLines
        (strip_start_listing_from_lines (readlines (rewritten content listings)))
        (readlines content)
unfolding rewritten
rewritten-SameLines content [] h mode line s =
    ap (λ ls. do_lines mode line ls s)
      (strip_lines-AllLack (readlines content)
        (readlines-AllLack content (before_text-none sentinel content h)))
rewritten-SameLines content (l ∷ ls) h mode line s =
    ap (λ y. do_lines mode line (strip_start_listing_from_lines (readlines (rewritten y ls))) s)
      (fresh-write_start_listing content l h)
    ∙ block-SameLines content l ls (before_text-none sentinel content h) mode line s

-- However often listings, whatever they are, are written to a source that does not contain the sentinel of
-- the listings, the next run assembles what was there at first.
pub rewritten-assemble_lines :
    (content : Text) (listings : List (List Text)) (mode : DataMode) (relocs : List (ℕ × Text))
    → before_text sentinel content ≡ none
    → assemble_lines
        (strip_start_listing_from_lines (readlines (rewritten content listings)))
        mode
        relocs
      ≡ assemble_lines (readlines content) mode relocs
rewritten-assemble_lines content listings mode relocs h =
    SameLines-assemble_lines _ _ mode relocs (rewritten-SameLines content listings h)
