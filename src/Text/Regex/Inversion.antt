-- ===== src/Text/Regex/Inversion.antt =====
-- What a successful match says: the text in front of the rest that the continuation took.
use procesador_32_bits.Base.{
  ℕ, ◌≡◌, ◌⊎◌, inl, inr, Bool, [], ◌∷◌, Option, none, some, All, Bool-cases, ◌==◌,
}
use procesador_32_bits.Text.{Text, is_space, lower_code}
use procesador_32_bits.Text.Regex.{or_else, one, word, many, many_one, spaces, at_end}

module _ {ℓ} {R : Type ℓ} where
  pub or_else-eq-some :
      (m n : Option R) {r : R} → or_else m n ≡ some r → (m ≡ some r) ⊎ (n ≡ some r)
  or_else-eq-some none n h = inr h
  or_else-eq-some (some _) n h = inl h

-- A predicate on characters that holds of the text holds of the match and of the rest.
module _ {ℓ} {R : Type ℓ} (P : ℕ → Type 0) where
  pub one-All :
      (p : ℕ → Bool) (k : Text → Option R) (s : Text) {r : R}
      → All P s
      → one p k s ≡ some r
      → (rest : Text) × All P rest × (k rest ≡ some r)
  unfolding one
  one-All p k [] a h = absurd (cc)
  one-All p k (c ∷ s) a h = elim (Bool-cases (p c)) [
    | inl e ↦ (s, a.1, rw e at h)
    | inr e ↦ absurd (cc (rw e at h))
  ]

  pub word-All :
      (w : Text) (k : Text → Option R) (s : Text) {r : R}
      → All P s
      → word w k s ≡ some r
      → (rest : Text) × All P rest × (k rest ≡ some r)
  unfolding word
  word-All [] k s a h = (s, a, h)
  word-All (c ∷ w) k [] a h = absurd (cc)
  word-All (c ∷ w) k (d ∷ s) a h = elim (Bool-cases (lower_code d == c)) [
    | inl e ↦ word-All w k s a.1 (rw e at h)
    | inr e ↦ absurd (cc (rw e at h))
  ]

  pub many-All :
      (p : ℕ → Bool) (k : Text → Text → Option R) (s : Text) {r : R}
      → All P s
      → many p k s ≡ some r
      → (w : Text) × (rest : Text) × All P w × All P rest × (k w rest ≡ some r)
  unfolding many
  many-All p k [] a h = ([], [], tt, tt, h)
  many-All p k (c ∷ s) a h = elim (Bool-cases (p c)) [
    | inr e ↦ ([], c ∷ s, tt, a, rw e at h)
    | inl e ↦ elim (or_else-eq-some (many p (λ w. k (c ∷ w)) s) (k [] (c ∷ s)) (rw e at h)) [
      | inr stop ↦ ([], c ∷ s, tt, a, stop)
      | inl more ↦
          let (w, rest, aw, ar, e') = many-All p (λ w. k (c ∷ w)) s a.1 more in
          (c ∷ w, rest, (a.0, aw), ar, e')
    ]
  ]

  pub many_one-All :
      (p : ℕ → Bool) (k : Text → Text → Option R) (s : Text) {r : R}
      → All P s
      → many_one p k s ≡ some r
      → (w : Text) × (rest : Text) × All P w × All P rest × (k w rest ≡ some r)
  unfolding many_one
  many_one-All p k [] a h = absurd (cc)
  many_one-All p k (c ∷ s) a h = elim (Bool-cases (p c)) [
    | inl e ↦
        let (w, rest, aw, ar, e') = many-All p (λ w. k (c ∷ w)) s a.1 (rw e at h) in
        (c ∷ w, rest, (a.0, aw), ar, e')
    | inr e ↦ absurd (cc (rw e at h))
  ]

  pub spaces-All :
      (k : Text → Option R) (s : Text) {r : R}
      → All P s
      → spaces k s ≡ some r
      → (rest : Text) × All P rest × (k rest ≡ some r)
  unfolding spaces
  spaces-All k s a h = let (w, rest, aw, ar, e) = many-All is_space (λ _. k) s a h in (rest, ar, e)

pub at_end-eq-some {ℓ} : {R : Type ℓ} (r : R) (s : Text) {q : R} → at_end r s ≡ some q → r ≡ q
unfolding at_end
at_end-eq-some r [] h = cc
at_end-eq-some r (c ∷ []) {q} h = elim (Bool-cases (c == b'\n')) [
  | inl e ↦ let same : some r ≡ some q = rw e at h in cc same
  | inr e ↦ absurd (cc (rw e at h))
]
at_end-eq-some r (c ∷ d ∷ s) h = absurd (cc)
