-- ===== src/Text/Split.antt =====
-- Splitting a text at a separator.
use procesador_32_bits.Base.{ℕ, ◌≡◌, ◌≢◌, refl, ap, ◌∙◌, List, [], ◌∷◌, ◌++◌, arith, All}
use procesador_32_bits.Text.{Text, before, split}
use procesador_32_bits.Text.Format.{IsPlain}

-- A separator ends a word that does not have it.
pub split-word :
    (sep : ℕ) (w s : Text) → All (λ c. c ≢ sep) w → split sep (w ++ sep ∷ s) ≡ w ∷ split sep s
unfolding split
split-word sep [] s h = ground arith
split-word sep (c ∷ w) s h = ground (arith, split-word sep w s h.1)

pub split-last : (sep : ℕ) (w : Text) → All (λ c. c ≢ sep) w → split sep w ≡ w ∷ []
unfolding split
split-last sep [] h = refl
split-last sep (c ∷ w) h = ground (arith, split-last sep w h.1)

pub before-word : (sep : ℕ) (w s : Text) → All (λ c. c ≢ sep) w → before sep (w ++ sep ∷ s) ≡ w
unfolding before
before-word sep [] s h = ground arith
before-word sep (c ∷ w) s h = ground (arith, before-word sep w s h.1)

pub no_space : (w : Text) → All IsPlain w → All (λ c. c ≢ b' ') w
no_space [] h = tt
no_space (c ∷ w) h = (h.0.0, no_space w h.1)

-- The words of a text, one after the other.
pub then_word :
    (sep : ℕ) (w s : Text) {ws : List Text}
    → All (λ c. c ≢ sep) w
    → split sep s ≡ ws
    → split sep (w ++ sep ∷ s) ≡ w ∷ ws
then_word sep w s h e = split-word sep w s h ∙ ap (λ ws. w ∷ ws) e

pub then_empty :
    (sep : ℕ) (s : Text) {ws : List Text} → split sep s ≡ ws → split sep (sep ∷ s) ≡ [] ∷ ws
then_empty sep s e = then_word sep [] s tt e
