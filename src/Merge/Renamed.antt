-- ===== src/Merge/Renamed.antt =====
-- A line whose local labels are renamed is no directive that merging looks for.
use mathlib.Core.Path.{subst}
use procesador_32_bits.Base.{
  ℕ, ◌≡◌, refl, sym, ap, ◌∙◌, Bool-cases, inl, inr, true, false, [], ◌∷◌, ◌++◌, Option, none, ◌==◌,
  arith, if◌then◌else◌,
}
use procesador_32_bits.Text.{Text, codes, is_letter, is_space, lower_code, within}
use procesador_32_bits.Text.Regex.{spaces, word, many}
use procesador_32_bits.FirstPass.Directive.{section_match}
use procesador_32_bits.Merge.{
  in_code, in_label, is_label_start, starts_label, place_behind, rename_from, globl_match,
}

other_letter :
    (w d : ℕ) → within b'a' b'z' w ≡ true → is_label_start d ≡ false → (lower_code d == w) ≡ false
unfolding lower_code is_letter
other_letter w d letter h = ground arith

lower_code-dot : (c : ℕ) → (lower_code c == b'.') ≡ true → c ≡ b'.'
unfolding lower_code
lower_code-dot c h = ground arith

letter_f : (w : ℕ) → (w == b'f') ≡ false → (lower_code b'f' == w) ≡ false
unfolding lower_code
letter_f w h = ground arith

space-is_no_dot : (c : ℕ) → is_space c ≡ true → (c == b'.') ≡ false
unfolding is_space
space-is_no_dot c h = ground arith

space-is_no_quote : (c : ℕ) → is_space c ≡ true → (c == b'"') ≡ false
unfolding is_space
space-is_no_quote c h = ground arith

space-is_no_comment : (c : ℕ) → is_space c ≡ true → (c == b';') ≡ false
unfolding is_space
space-is_no_comment c h = ground arith

place_behind-space : (c : ℕ) → is_space c ≡ true → place_behind c ≡ in_code
place_behind-space c h = rw (space-is_no_quote c h, space-is_no_comment c h) refl

module _ (q : Text) where
  abbrev pub renamed : Text → Text
  renamed l = rename_from (b'f' ∷ q) in_code l

  renamed-space : (c : ℕ) (l : Text) → is_space c ≡ true → renamed (c ∷ l) ≡ c ∷ renamed l
  unfolding rename_from
  renamed-space c l h = rw (space-is_no_dot c h, place_behind-space c h) refl

  module _ {R : Type 0} where
    word-behind_dot :
        (w : ℕ) (ws : Text) (k : Text → Option R) (l : Text)
        → within b'a' b'z' w ≡ true
        → (w == b'f') ≡ false
        → word (w ∷ ws) k (
            if starts_label l
            then b'f' ∷ (q ++ b'_' ∷ rename_from (b'f' ∷ q) in_label l)
            else renamed l)
          ≡ none
    unfolding word rename_from
    word-behind_dot w ws k [] letter other = refl
    word-behind_dot w ws k (d ∷ l) letter other = elim (Bool-cases (is_label_start d)) [
      | inl start ↦ rw start (rw (letter_f w other) refl)
      | inr no_start ↦ rw no_start (rw (other_letter w d letter no_start) refl)
    ]

    -- A word of a dot and a letter other than f does not match.
    word-renamed :
        (w : ℕ) (ws : Text) (k : Text → Option R) (l : Text)
        → within b'a' b'z' w ≡ true
        → (w == b'f') ≡ false
        → word (b'.' ∷ w ∷ ws) k (renamed l) ≡ none
    unfolding word rename_from
    word-renamed w ws k [] letter other = refl
    word-renamed w ws k (c ∷ l) letter other = elim (Bool-cases (lower_code c == b'.')) [
      | inl dot ↦
          subst (λ d. word (b'.' ∷ w ∷ ws) k (renamed (d ∷ l)) ≡ none) (sym (lower_code-dot c dot))
            (word-behind_dot w ws k l letter other)
      | inr no_dot ↦ rw no_dot refl
    ]

    spaces-renamed :
        (k : Text → Option R)
        → ((l : Text) → k (renamed l) ≡ none)
        → (l : Text) → spaces k (renamed l) ≡ none
    unfolding spaces many rename_from
    spaces-renamed k h [] = h []
    spaces-renamed k h (c ∷ l) = elim (Bool-cases (is_space c)) [
      | inl space ↦
          let e = renamed-space c l space in
          ap (spaces k) e ∙ rw space (rw (spaces-renamed k h l) (ap k (sym e) ∙ h (c ∷ l)))
      | inr other ↦ rw other (h (c ∷ l))
    ]

  -- No line is the start of a section any more, by either spelling.
  pub section_match-renamed :
      (w : ℕ) (ws l : Text)
      → within b'a' b'z' w ≡ true
      → (w == b'f') ≡ false
      → section_match (b'.' ∷ w ∷ ws) (renamed l) ≡ none
  unfolding section_match
  section_match-renamed w ws l letter other =
      spaces-renamed _
        (λ l.
          rw (word-renamed b's' (codes "ection") _ l refl refl, word-renamed w ws _ l letter other)
            refl)
        l

  pub globl_match-renamed : (l : Text) → globl_match (renamed l) ≡ none
  unfolding globl_match
  globl_match-renamed l = spaces-renamed _ (λ l. word-renamed b'g' (codes "lobl") _ l refl refl) l
