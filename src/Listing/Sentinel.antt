-- ===== src/Listing/Sentinel.antt =====
-- The lines of a text that lacks the sentinel are those that `_strip_start_listing_from_lines` keeps.
use procesador_32_bits.Base.{
  ℕ, ◌≡◌, refl, ◌∙◌, Bool, Bool-cases, inl, inr, true, false, not, ◌&&◌, List, [], ◌∷◌, ◌++◌,
  ==_iff, arith, All,
}
use procesador_32_bits.Text.{Text, is_space, strip, starts_with, text_eq}
use procesador_32_bits.Text.Equality.{text_eq_iff}
use procesador_32_bits.Listing.{
  newline, sentinel, cons_line, readlines, strip_start_listing_from_lines,
}
use procesador_32_bits.Listing.First.{occurs-cons}
use procesador_32_bits.Listing.Search.{occurs, OneLine, ==-refl, occurs-front, strip-occurs}

unfoldable pub is_one_line : Text → Bool
is_one_line [] = true
is_one_line (c ∷ s) = not (newline c) && is_one_line s

pub is_one_line-OneLine : (s : Text) → is_one_line s ≡ true → OneLine s
unfolding is_one_line
is_one_line-OneLine [] h = tt
is_one_line-OneLine (c ∷ s) h = (ground arith, is_one_line-OneLine s (ground arith))

pub sentinel-OneLine : OneLine sentinel
unfolding is_one_line
sentinel-OneLine = is_one_line-OneLine sentinel refl

-- The first of some lines is a front of a text.
IsFront : List Text → Text → Type 0
IsFront [] x = Unit
IsFront (l ∷ ls) x = starts_with l x ≡ true

cons_line-IsFront :
    (c : ℕ) (ls : List Text) (x : Text) → IsFront ls x → IsFront (cons_line c ls) (c ∷ x)
unfolding IsFront starts_with
cons_line-IsFront c [] x h = rw (==-refl c) refl
cons_line-IsFront c (l ∷ ls) x h = rw (==-refl c) h

readlines-IsFront : (x : Text) → IsFront (readlines x) x
unfolding readlines IsFront starts_with
readlines-IsFront [] = tt
readlines-IsFront (c ∷ x) = elim (Bool-cases (newline c)) [
  | inl end ↦ rw (end, ==-refl c) refl
  | inr inside ↦ rw inside (cons_line-IsFront c (readlines x) x (readlines-IsFront x))
]

-- No line has the sentinel.
abbrev pub AllLack : List Text → Type 0
AllLack ls = All (λ l. occurs sentinel l ≡ false) ls

cons_line-AllLack :
    (c : ℕ) (ls : List Text) (x : Text)
    → IsFront (cons_line c ls) (c ∷ x)
    → occurs sentinel (c ∷ x) ≡ false
    → AllLack ls
    → AllLack (cons_line c ls)
unfolding IsFront
cons_line-AllLack c [] x f h k = (occurs-front sentinel _ _ f h, tt)
cons_line-AllLack c (l ∷ ls) x f h k = (occurs-front sentinel _ _ f h, k.1)

occurs-newline-only : occurs sentinel (b'\n' ∷ []) ≡ false
unfolding occurs
occurs-newline-only = refl

pub readlines-AllLack : (x : Text) → occurs sentinel x ≡ false → AllLack (readlines x)
unfolding readlines
readlines-AllLack [] h = tt
readlines-AllLack (c ∷ x) h =
    let lines = readlines-AllLack x (occurs-cons sentinel c x h).1 in
    elim (Bool-cases (newline c)) [
      | inl end ↦
          let e : c ≡ b'\n' = (==_iff c b'\n').0 end in rw end (rw e occurs-newline-only, lines)
      | inr inside ↦ rw inside (
          cons_line-AllLack c (readlines x) x
            (cons_line-IsFront c (readlines x) x (readlines-IsFront x)) h lines)
    ]

strip-sentinel : strip sentinel ≡ sentinel
unfolding strip
strip-sentinel = refl

other_line : (l : Text) → occurs sentinel l ≡ false → text_eq (strip l) (strip sentinel) ≡ false
unfolding strip
other_line l h = elim (Bool-cases (text_eq (strip l) (strip sentinel))) [
  | inl same ↦
      let e : strip l ≡ sentinel =
        (text_eq_iff (strip l) (strip sentinel)).0 same ∙ strip-sentinel in
      absurd (cc (strip-occurs sentinel is_space l e, h))
  | inr other ↦ other
]

-- Lines without the sentinel are kept, up to the sentinel.
pub strip_lines-append :
    (ls ms : List Text)
    → AllLack ls
    → strip_start_listing_from_lines (ls ++ (sentinel ++ b'\n' ∷ []) ∷ ms) ≡ ls
unfolding strip_start_listing_from_lines
strip_lines-append [] ms h = refl
strip_lines-append (l ∷ ls) ms h = rw (other_line l h.0, strip_lines-append ls ms h.1) refl

pub strip_lines-AllLack : (ls : List Text) → AllLack ls → strip_start_listing_from_lines ls ≡ ls
unfolding strip_start_listing_from_lines
strip_lines-AllLack [] h = refl
strip_lines-AllLack (l ∷ ls) h = rw (other_line l h.0, strip_lines-AllLack ls h.1) refl
