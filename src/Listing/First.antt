-- ===== src/Listing/First.antt =====
-- The first occurrence of a text, and what stands before it.
use mathlib.Core.Path.{subst}
use procesador_32_bits.Base.{
  ℕ, ◌≡◌, refl, sym, ap, ◌∙◌, Bool-cases, inl, inr, true, false, [], ◌∷◌, ◌++◌, Option, none, some,
  if◌then◌else◌,
}
use procesador_32_bits.Text.{Text, starts_with}
use procesador_32_bits.Listing.{before_text, cons_found}
use procesador_32_bits.Listing.Search.{
  occurs, OneLine, starts_with-newline, starts_with_trans, starts_with-append, ==-refl,
}

-- One step of the search.
before_text-cons :
    (t : Text) (c : ℕ) (s : Text)
    → before_text t (c ∷ s)
      ≡ (if starts_with t (c ∷ s) then some [] else cons_found c (before_text t s))
unfolding before_text
before_text-cons t c s = refl

before_text-here :
    (t : Text) (c : ℕ) (s : Text) → starts_with t (c ∷ s) ≡ true → before_text t (c ∷ s) ≡ some []
before_text-here t c s h = before_text-cons t c s ∙ rw h refl

before_text-later :
    (t : Text) (c : ℕ) (s : Text)
    → starts_with t (c ∷ s) ≡ false
    → before_text t (c ∷ s) ≡ cons_found c (before_text t s)
before_text-later t c s h = before_text-cons t c s ∙ rw h refl

cons_found-some :
    (c : ℕ) (o : Option Text) (y : Text)
    → cons_found c o ≡ some y
    → (s : Text) × (o ≡ some s) × (y ≡ c ∷ s)
cons_found-some c none y h = absurd (cc h)
cons_found-some c (some s) y h = (s, refl, cc h)

cons_found-none : (c : ℕ) (o : Option Text) → cons_found c o ≡ none → o ≡ none
cons_found-none c none h = refl
cons_found-none c (some s) h = absurd (cc h)

starts_with-nil : (a : ℕ) (t : Text) → starts_with (a ∷ t) [] ≡ false
unfolding starts_with
starts_with-nil a t = refl

occurs-nil : (a : ℕ) (t : Text) → occurs (a ∷ t) [] ≡ false
unfolding occurs
occurs-nil a t = refl

before_text-starts_with :
    (a : ℕ) (t x y : Text) → before_text (a ∷ t) x ≡ some y → starts_with y x ≡ true
unfolding starts_with before_text
before_text-starts_with a t [] y h = absurd (cc h)
before_text-starts_with a t (c ∷ x) y h = elim (Bool-cases (starts_with (a ∷ t) (c ∷ x))) [
  | inl here ↦
      let e : [] ≡ y = cc (sym (before_text-here (a ∷ t) c x here) ∙ h) in
      subst (λ (z : Text). starts_with z (c ∷ x) ≡ true) e refl
  | inr not_here ↦
      let r = cons_found-some c _ y (sym (before_text-later (a ∷ t) c x not_here) ∙ h) in
      rw (r.2, ==-refl c) (before_text-starts_with a t x r.0 r.1)
]

pub occurs-cons :
    (t : Text) (c : ℕ) (s : Text)
    → occurs t (c ∷ s) ≡ false
    → (starts_with t (c ∷ s) ≡ false) × (occurs t s ≡ false)
unfolding occurs
occurs-cons t c s h = elim (Bool-cases (starts_with t (c ∷ s))) [
  | inl here ↦ absurd (cc (rw here at h))
  | inr not_here ↦ (not_here, rw not_here at h)
]

before_text-nil : (a : ℕ) (t : Text) → before_text (a ∷ t) [] ≡ none
unfolding before_text starts_with
before_text-nil a t = refl

occurs-false :
    (t : Text) (c : ℕ) (s : Text)
    → starts_with t (c ∷ s) ≡ false
    → occurs t s ≡ false
    → occurs t (c ∷ s) ≡ false
unfolding occurs
occurs-false t c s h k = rw (h, k) refl

not_front :
    (t x y : Text) → starts_with x y ≡ true → starts_with t y ≡ false → starts_with t x ≡ false
not_front t x y h k = elim (Bool-cases (starts_with t x)) [
  | inl front ↦ absurd (cc (starts_with_trans t x y front h, k))
  | inr out ↦ out
]

-- What stands before the first occurrence has none.
pub occurs-before_text :
    (a : ℕ) (t x y : Text) → before_text (a ∷ t) x ≡ some y → occurs (a ∷ t) y ≡ false
occurs-before_text a t [] y h = absurd (cc (before_text-nil a t, h))
occurs-before_text a t (c ∷ x) y h = elim (Bool-cases (starts_with (a ∷ t) (c ∷ x))) [
  | inl here ↦
      let e : [] ≡ y = cc (sym (before_text-here (a ∷ t) c x here) ∙ h) in
      subst (λ (z : Text). occurs (a ∷ t) z ≡ false) e (occurs-nil a t)
  | inr not_here ↦
      let r = cons_found-some c _ y (sym (before_text-later (a ∷ t) c x not_here) ∙ h) in
      let front = before_text-starts_with a t (c ∷ x) y h in
      let step : occurs (a ∷ t) (c ∷ r.0) ≡ false =
        occurs-false (a ∷ t) c r.0
          (not_front (a ∷ t) (c ∷ r.0) (c ∷ x)
            (subst (λ (z : Text). starts_with z (c ∷ x) ≡ true) r.2 front) not_here)
          (occurs-before_text a t x r.0 r.1) in
      ap (occurs (a ∷ t)) r.2 ∙ step
]

pub before_text-none : (t x : Text) → before_text t x ≡ none → occurs t x ≡ false
unfolding occurs before_text starts_with
before_text-none [] [] h = absurd (cc h)
before_text-none (a ∷ t) [] h = refl
before_text-none t (c ∷ x) h = elim (Bool-cases (starts_with t (c ∷ x))) [
  | inl here ↦ absurd (cc (before_text-here t c x here, h))
  | inr not_here ↦
      rw
        (
          not_here,
          before_text-none t x (cons_found-none c _ (sym (before_text-later t c x not_here) ∙ h)),
        )
        refl
]

-- Behind a text without it and a newline, the occurrence is found.
pub before_text-newline :
    (a : ℕ) (t x z : Text)
    → OneLine (a ∷ t)
    → occurs (a ∷ t) x ≡ false
    → before_text (a ∷ t) (x ++ b'\n' ∷ ((a ∷ t) ++ z)) ≡ some (x ++ b'\n' ∷ [])
before_text-newline a t [] z h k =
    before_text-later (a ∷ t) b'\n' _ (starts_with-newline (a ∷ t) [] _ h ∙ starts_with-nil a t)
    ∙ ap (cons_found b'\n') (before_text-here (a ∷ t) a (t ++ z) (starts_with-append (a ∷ t) z))
before_text-newline a t (c ∷ x) z h k =
    let r = occurs-cons (a ∷ t) c x k in
    before_text-later (a ∷ t) c _ (starts_with-newline (a ∷ t) (c ∷ x) _ h ∙ r.0)
    ∙ ap (cons_found c) (before_text-newline a t x z h r.1)
