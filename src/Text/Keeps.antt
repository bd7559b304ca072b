-- ===== src/Text/Keeps.antt =====
-- What holds of every character of a text holds of every character of its parts.
use procesador_32_bits.Base.{ℕ, Bool, true, false, [], ◌∷◌, All, ◌==◌, if◌then◌else◌}
use procesador_32_bits.Text.{Text, is_space, lstrip, rstrip, strip, before, put_unless}

module _ (P : ℕ → Type 0) where
  lstrip-All : (p : ℕ → Bool) (s : Text) → All P s → All P (lstrip p s)
  unfolding lstrip
  lstrip-All p [] a = tt
  lstrip-All p (c ∷ s) a = elim (p c) as (λ b. All P (if b then lstrip p s else c ∷ s)) [
    | true ↦ lstrip-All p s a.1
    | false ↦ a
  ]

  put_unless-All : (b : Bool) (c : ℕ) (s : Text) → P c → All P s → All P (put_unless b c s)
  put_unless-All true c [] h a = tt
  put_unless-All false c [] h a = (h, tt)
  put_unless-All b c (d ∷ s) h a = (h, a)

  rstrip-All : (p : ℕ → Bool) (s : Text) → All P s → All P (rstrip p s)
  unfolding rstrip
  rstrip-All p [] a = tt
  rstrip-All p (c ∷ s) a = put_unless-All (p c) c (rstrip p s) a.0 (rstrip-All p s a.1)

  pub strip-All : (s : Text) → All P s → All P (strip s)
  unfolding strip
  strip-All s a = rstrip-All is_space (lstrip is_space s) (lstrip-All is_space s a)

  pub before-All : (sep : ℕ) (s : Text) → All P s → All P (before sep s)
  unfolding before
  before-All sep [] a = tt
  before-All sep (c ∷ s) a = elim (c == sep) as (λ b. All P (if b then [] else c ∷ before sep s)) [
    | true ↦ tt
    | false ↦ (a.0, before-All sep s a.1)
  ]
