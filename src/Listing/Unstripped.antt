-- ===== src/Listing/Unstripped.antt =====
-- A source with its listing, assembled without dropping the block first.
use procesador_32_bits.Base.{
  if◌then◌else◌, ℕ, suc, ◌+◌, ◌≡◌, refl, ap, ◌∙◌, true, List, [], ◌∷◌, ◌++◌, append_assoc, none,
  All, arith, length,
}
use procesador_32_bits.Text.{Text, before}
use procesador_32_bits.Lexer.{code_part}
use procesador_32_bits.FirstPass.{DataMode, State}
use procesador_32_bits.FirstPass.Directive.{classify}
use procesador_32_bits.FirstPass.Lines.{do_line, do_lines, do_directive}
use procesador_32_bits.FirstPass.StartListing.{start_listing}
use procesador_32_bits.SecondPass.{assemble_lines}
use procesador_32_bits.Listing.{
  sentinel, readlines, before_text, join_lines, add_block, write_start_listing,
}
use procesador_32_bits.Listing.Search.{OneLine}
use procesador_32_bits.Listing.Lines.{if-same, readlines-append, do_line-blank}
use procesador_32_bits.Listing.Sentinel.{sentinel-OneLine}
use procesador_32_bits.Listing.Reassemble.{
  SameLines, readlines-newline, SameLines-assemble_lines, fresh-write_start_listing,
}
use procesador_32_bits.Listing.Comments.{opens_comment, IsComment, start_listing-IsComment}

code_part-comment : (l : Text) → opens_comment l ≡ true → code_part l ≡ []
unfolding code_part before
code_part-comment [] h = cc
code_part-comment (c ∷ l) h = rw h refl

do_line-comment :
    (mode : DataMode) (line : ℕ) (l : Text) (s : State)
    → opens_comment l ≡ true
    → do_line mode line l s ≡ s
unfolding do_line
do_line-comment mode line l s h =
    ap (λ c. if s.raised then s else do_directive mode (classify c) c line s)
      (code_part-comment l h)
    ∙ if-same s.raised s

do_lines-append :
    (mode : DataMode) (line : ℕ) (ls ms : List Text) (s : State)
    → do_lines mode line (ls ++ ms) s
      ≡ do_lines mode (line + length ls) ms (do_lines mode line ls s)
unfolding do_lines
do_lines-append mode line [] ms s =
    let e : line ≡ line + 0 = omega arith in ap (λ n. do_lines mode n ms s) e
do_lines-append mode line (l ∷ ls) ms s =
    let e : line + 1 + length ls ≡ line + suc (length ls) = omega arith in
    let t = do_line mode line l s in
    do_lines-append mode (line + 1) ls ms t
    ∙ ap (λ n. do_lines mode n ms (do_lines mode (line + 1) ls t)) e

-- Lines that do nothing.
abbrev Quiet : List Text → Type 0
Quiet ls = (mode : DataMode) (line : ℕ) (s : State) → do_lines mode line ls s ≡ s

Quiet-cons :
    (l : Text) (ls : List Text)
    → ((mode : DataMode) (line : ℕ) (s : State) → do_line mode line l s ≡ s)
    → Quiet ls
    → Quiet (l ∷ ls)
unfolding do_lines
Quiet-cons l ls h k mode line s = rw (h mode line s) (k mode (line + 1) s)

readlines-one :
    (l rest : Text) → OneLine l → readlines (l ++ b'\n' ∷ rest) ≡ (l ++ b'\n' ∷ []) ∷ readlines rest
unfolding readlines
readlines-one [] rest h = refl
readlines-one (c ∷ l) rest h = rw (h.0, readlines-one l rest h.1) refl

opens-newline : (l : Text) → opens_comment l ≡ true → opens_comment (l ++ b'\n' ∷ []) ≡ true
opens-newline [] h = cc
opens-newline (c ∷ l) h = h

Quiet-comment :
    (l rest : Text) → IsComment l → Quiet (readlines rest) → Quiet (readlines (l ++ b'\n' ∷ rest))
Quiet-comment l rest h k mode line s =
    ap (λ ls. do_lines mode line ls s) (readlines-one l rest h.1)
    ∙ Quiet-cons (l ++ b'\n' ∷ []) (readlines rest)
        (λ m n t. do_line-comment m n (l ++ b'\n' ∷ []) t (opens-newline l h.0)) k mode line s

Quiet-nil : Quiet (readlines [])
unfolding readlines do_lines
Quiet-nil mode line s = refl

Quiet-listing :
    (ls : List Text) → All IsComment ls → Quiet (readlines (join_lines ls ++ b'\n' ∷ []))
unfolding join_lines readlines
Quiet-listing [] h mode line s = Quiet-cons (b'\n' ∷ []) [] do_line-blank Quiet-nil mode line s
Quiet-listing (l ∷ []) h mode line s = Quiet-comment l [] h.0 Quiet-nil mode line s
Quiet-listing (l ∷ m ∷ ls) h mode line s =
    ap (λ t. do_lines mode line (readlines t) s)
      (append_assoc l (b'\n' ∷ join_lines (m ∷ ls)) (b'\n' ∷ []))
    ∙ Quiet-comment l (join_lines (m ∷ ls) ++ b'\n' ∷ []) h.0 (Quiet-listing (m ∷ ls) h.1) mode line
        s

add_block-SameLines :
    (x : Text) (ls : List Text)
    → All IsComment ls
    → SameLines (readlines (add_block x ls)) (readlines x)
add_block-SameLines x ls h mode line s =
    let rest = join_lines ls ++ b'\n' ∷ [] in
    let lines = readlines (x ++ b'\n' ∷ []) in
    let block = readlines (sentinel ++ b'\n' ∷ rest) in
    ap (λ l. do_lines mode line l s) (readlines-append x (sentinel ++ b'\n' ∷ rest))
    ∙ (do_lines-append mode line lines block s
        ∙ (Quiet-comment sentinel rest (refl, sentinel-OneLine) (Quiet-listing ls h) mode
              (line + length lines) (do_lines mode line lines s)
            ∙ readlines-newline x mode line s))

-- The block that a run adds is safe even where it is not dropped: a source without a block, with the
-- listing that its own assembly makes behind it, is assembled, as it stands, to the same result.
pub assemble_lines-unstripped :
    (content : Text) (mode : DataMode) (relocs : List (ℕ × Text))
    → before_text sentinel content ≡ none
    → assemble_lines
        (readlines (write_start_listing content (start_listing (readlines content) mode relocs)))
        mode
        relocs
      ≡ assemble_lines (readlines content) mode relocs
assemble_lines-unstripped content mode relocs h =
    let listing = start_listing (readlines content) mode relocs in
    ap (λ t. assemble_lines (readlines t) mode relocs) (fresh-write_start_listing content listing h)
    ∙ SameLines-assemble_lines _ _ mode relocs (
        add_block-SameLines content listing
          (start_listing-IsComment (readlines content) mode relocs))
