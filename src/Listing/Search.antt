-- ===== src/Listing/Search.antt =====
-- Where a text without newlines occurs, and white space around it.
use procesador_32_bits.Base.{
  ℕ, ◌≡◌, refl, ap, ◌∙◌, Bool, Bool-cases, inl, inr, true, false, ◌&&◌, ◌||◌, [], ◌∷◌, ◌++◌, ◌==◌,
  arith, All,
}
use procesador_32_bits.Text.{Text, starts_with, lstrip, rstrip, put_unless}
use procesador_32_bits.Listing.{newline}

-- Whether `t` stands somewhere in a text.
unfoldable pub occurs : Text → Text → Bool
unfolding starts_with
occurs t [] = starts_with t []
occurs t (c ∷ s) = starts_with t (c ∷ s) || occurs t s

abbrev pub OneLine : Text → Type 0
OneLine t = All (λ c. newline c ≡ false) t

-- A text without newlines does not reach over one.
pub starts_with-newline :
    (t x z : Text) → OneLine t → starts_with t (x ++ b'\n' ∷ z) ≡ starts_with t x
unfolding starts_with
starts_with-newline [] x z h = refl
starts_with-newline (a ∷ t) [] z h = rw (h.0) refl
starts_with-newline (a ∷ t) (c ∷ x) z h = ap (λ b. a == c && b) (starts_with-newline t x z h.1)

pub occurs-newline :
    (a : ℕ) (t x z : Text)
    → OneLine (a ∷ t)
    → occurs (a ∷ t) (x ++ b'\n' ∷ z) ≡ (occurs (a ∷ t) x || occurs (a ∷ t) z)
unfolding occurs
occurs-newline a t [] z h = rw (starts_with-newline (a ∷ t) [] z h) refl
occurs-newline a t (c ∷ x) z h =
    rw (starts_with-newline (a ∷ t) (c ∷ x) z h, occurs-newline a t x z h) (ground arith)

pub starts_with_trans :
    (t x y : Text) → starts_with t x ≡ true → starts_with x y ≡ true → starts_with t y ≡ true
unfolding starts_with
starts_with_trans [] x y h k = refl
starts_with_trans (a ∷ t) [] y h k = cc
starts_with_trans (a ∷ t) (c ∷ x) [] h k = cc
starts_with_trans (a ∷ t) (c ∷ x) (d ∷ y) h k =
    let rest = starts_with_trans t x y (ground arith) (ground arith) in ground arith

pub starts_with-append : (x y : Text) → starts_with x (x ++ y) ≡ true
unfolding starts_with
starts_with-append [] y = refl
starts_with-append (c ∷ x) y = let rest = starts_with-append x y in ground arith

-- What occurs in the front of a text occurs in it.
pub occurs-starts_with :
    (t x y : Text) → starts_with x y ≡ true → occurs t x ≡ true → occurs t y ≡ true
unfolding occurs starts_with
occurs-starts_with t [] [] h k = k
occurs-starts_with [] [] (d ∷ y) h k = refl
occurs-starts_with (a ∷ t) [] (d ∷ y) h k = cc
occurs-starts_with t (c ∷ x) [] h k = cc
occurs-starts_with t (c ∷ x) (d ∷ y) h k = elim (Bool-cases (starts_with t (c ∷ x))) [
  | inl here ↦ let there = starts_with_trans t (c ∷ x) (d ∷ y) here h in rw there refl
  | inr not_here ↦
      let later = occurs-starts_with t x y (ground arith) (ground (arith, not_here, k)) in
      rw later (ground arith)
]

pub ==-refl : (c : ℕ) → (c == c) ≡ true
==-refl c = ground arith

put_unless-starts_with :
    (b : Bool) (c : ℕ) (x s : Text)
    → starts_with x s ≡ true
    → starts_with (put_unless b c x) (c ∷ s) ≡ true
unfolding starts_with
put_unless-starts_with true c [] s h = refl
put_unless-starts_with false c [] s h = let same = ==-refl c in ground arith
put_unless-starts_with b c (d ∷ x) s h = rw (==-refl c) h

pub rstrip-starts_with : (p : ℕ → Bool) (s : Text) → starts_with (rstrip p s) s ≡ true
unfolding starts_with rstrip
rstrip-starts_with p [] = refl
rstrip-starts_with p (c ∷ s) =
    put_unless-starts_with (p c) c (rstrip p s) s (rstrip-starts_with p s)

occurs-lstrip :
    (t : Text) (p : ℕ → Bool) (s : Text) → occurs t (lstrip p s) ≡ true → occurs t s ≡ true
unfolding occurs lstrip
occurs-lstrip t p [] h = h
occurs-lstrip t p (c ∷ s) h = elim (Bool-cases (p c)) [
  | inl stripped ↦
      let later : occurs t s ≡ true = occurs-lstrip t p s (rw stripped at h) in
      ground (arith, later)
  | inr kept ↦ rw kept at h
]

starts_with_refl : (t : Text) → starts_with t t ≡ true
unfolding starts_with
starts_with_refl [] = refl
starts_with_refl (c ∷ t) = rw (==-refl c) (starts_with_refl t)

occurs_refl : (t : Text) → occurs t t ≡ true
unfolding occurs
occurs_refl [] = refl
occurs_refl (c ∷ t) = rw (starts_with_refl (c ∷ t)) refl

-- A text that is `t` with characters stripped from both ends contains it.
pub strip-occurs :
    (t : Text) (p : ℕ → Bool) (s : Text) → rstrip p (lstrip p s) ≡ t → occurs t s ≡ true
strip-occurs t p s e = occurs-lstrip t p s (
    occurs-starts_with t (rstrip p (lstrip p s)) (lstrip p s) (rstrip-starts_with p (lstrip p s))
      (ap (occurs t) e ∙ occurs_refl t))

-- What a text lacks, its front lacks.
pub occurs-front : (t x y : Text) → starts_with x y ≡ true → occurs t y ≡ false → occurs t x ≡ false
occurs-front t x y h k = elim (Bool-cases (occurs t x)) [
  | inl found ↦ absurd (cc (occurs-starts_with t x y h found, k))
  | inr missing ↦ missing
]
