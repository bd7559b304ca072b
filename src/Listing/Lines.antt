-- ===== src/Listing/Lines.antt =====
-- The lines of a text to which a newline is added, and what the first pass makes of them.
use procesador_32_bits.Base.{
  if◌then◌else◌, false, ℕ, ◌+◌, ◌≡◌, refl, ap, ◌∙◌, Bool, Bool-cases, inl, inr, true, List, [], ◌∷◌,
  ◌++◌, ◌==◌, ◌⊎◌,
}
use procesador_32_bits.Text.{Text, is_space, before, strip, rstrip}
use procesador_32_bits.Lexer.{code_part}
use procesador_32_bits.FirstPass.{DataMode, State}
use procesador_32_bits.FirstPass.Directive.{classify}
use procesador_32_bits.FirstPass.Lines.{do_line, do_lines, do_directive}
use procesador_32_bits.Listing.{newline, cons_line, readlines}

cons_line-append :
    (c : ℕ) (l : Text) (ls ms : List Text)
    → cons_line c ((l ∷ ls) ++ ms) ≡ cons_line c (l ∷ ls) ++ ms
cons_line-append c l ls ms = refl

-- A text with a newline has a line.
readlines-first :
    (x : Text) → (l : Text) × (ls : List Text) × (readlines (x ++ b'\n' ∷ []) ≡ l ∷ ls)
unfolding readlines
readlines-first [] = (b'\n' ∷ [], [], refl)
readlines-first (c ∷ x) = elim (Bool-cases (newline c)) [
  | inl end ↦ (c ∷ [], readlines (x ++ b'\n' ∷ []), rw end refl)
  | inr inside ↦ let r = readlines-first x in (c ∷ r.0, r.1, rw (inside, r.2) refl)
]

-- The lines up to a newline, and those behind it.
pub readlines-append :
    (x z : Text) → readlines (x ++ b'\n' ∷ z) ≡ readlines (x ++ b'\n' ∷ []) ++ readlines z
unfolding readlines
readlines-append [] z = refl
readlines-append (c ∷ x) z = elim (Bool-cases (newline c)) [
  | inl end ↦ rw end (ap (λ ls. (c ∷ []) ∷ ls) (readlines-append x z))
  | inr inside ↦ let r = readlines-first x in rw (inside, readlines-append x z, r.2) refl
]

-- The lines of a text, and those of the text with one newline more.
pub data Closes : List Text → List Text → Type 0 where
  added : Closes [] ((b'\n' ∷ []) ∷ [])
  ended : (l : Text) → Closes (l ∷ []) ((l ++ b'\n' ∷ []) ∷ [])
  after : (l : Text) (ls ms : List Text) → Closes ls ms → Closes (l ∷ ls) (l ∷ ms)

cons_line-Closes :
    (c : ℕ) (ls ms : List Text) → Closes ls ms → Closes (cons_line c ls) (cons_line c ms)
cons_line-Closes c _ _ added = ended (c ∷ [])
cons_line-Closes c _ _ (ended l) = ended (c ∷ l)
cons_line-Closes c _ _ (after l ls ms h) = after (c ∷ l) ls ms h

pub readlines-Closes : (x : Text) → Closes (readlines x) (readlines (x ++ b'\n' ∷ []))
unfolding readlines
readlines-Closes [] = added
readlines-Closes (c ∷ x) = elim (Bool-cases (newline c)) [
  | inl end ↦ rw end (after (c ∷ []) _ _ (readlines-Closes x))
  | inr inside ↦ rw inside (cons_line-Closes c _ _ (readlines-Closes x))
]

pub rstrip-newline :
    (p : ℕ → Bool) (s : Text) → p b'\n' ≡ true → rstrip p (s ++ b'\n' ∷ []) ≡ rstrip p s
unfolding rstrip
rstrip-newline p [] h = rw h refl
rstrip-newline p (c ∷ s) h = rw (rstrip-newline p s h) refl

is_space-newline : is_space b'\n' ≡ true
unfolding is_space
is_space-newline = refl

strip-newline : (s : Text) → strip (s ++ b'\n' ∷ []) ≡ strip s
unfolding strip
strip-newline [] = refl
strip-newline (c ∷ s) = elim (Bool-cases (is_space c)) [
  | inl space ↦ rw space (strip-newline s)
  | inr other ↦ rw other (rstrip-newline is_space (c ∷ s) is_space-newline)
]

before-newline :
    (l : Text)
    → (before b';' (l ++ b'\n' ∷ []) ≡ before b';' l)
      ⊎ (before b';' (l ++ b'\n' ∷ []) ≡ before b';' l ++ b'\n' ∷ [])
unfolding before
before-newline [] = inr refl
before-newline (c ∷ l) = elim (Bool-cases (c == b';')) [
  | inl comment ↦ inl (rw comment refl)
  | inr code ↦ elim (before-newline l) [
    | inl same ↦ inl (rw (code, same) refl)
    | inr longer ↦ inr (rw (code, longer) refl)
  ]
]

-- The code of a line does not depend on its newline.
code_part-newline : (l : Text) → code_part (l ++ b'\n' ∷ []) ≡ code_part l
unfolding code_part
code_part-newline l = elim (before-newline l) [
  | inl same ↦ ap strip same
  | inr longer ↦ ap strip longer ∙ strip-newline (before b';' l)
]

do_line-newline :
    (mode : DataMode) (line : ℕ) (l : Text) (s : State)
    → do_line mode line (l ++ b'\n' ∷ []) s ≡ do_line mode line l s
unfolding do_line
do_line-newline mode line l s =
    ap (λ c. if s.raised then s else do_directive mode (classify c) c line s) (code_part-newline l)

-- A line without code does nothing, whether or not it is still read.
pub if-same : (c : Bool) (s : State) → (if c then s else s) ≡ s
if-same true s = refl
if-same false s = refl

pub do_line-blank : (mode : DataMode) (line : ℕ) (s : State) → do_line mode line (b'\n' ∷ []) s ≡ s
unfolding do_line
do_line-blank mode line s = if-same s.raised s

-- A newline at the end of the source changes nothing.
pub do_lines-Closes :
    (mode : DataMode) (line : ℕ) (ls ms : List Text) (s : State)
    → Closes ls ms
    → do_lines mode line ms s ≡ do_lines mode line ls s
unfolding do_lines
do_lines-Closes mode line _ _ s added = do_line-blank mode line s
do_lines-Closes mode line _ _ s (ended l) = do_line-newline mode line l s
do_lines-Closes mode line _ _ s (after l ls ms h) =
    do_lines-Closes mode (line + 1) ls ms (do_line mode line l s) h
