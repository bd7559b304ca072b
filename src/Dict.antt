-- ===== src/Dict.antt =====
-- Python's dict with text keys, in insertion order: an update keeps the place of its key.
use procesador_32_bits.Base.{
  inr, inl, Bool-cases, All, ◌≡◌, refl, List, [], ◌∷◌, Option, none, some, arith, if◌then◌else◌,
}
use mathlib.Core.Path.{subst}
use procesador_32_bits.Text.{Text, text_eq}
use procesador_32_bits.Text.Equality.{text_eq_iff}

abbrev pub Dict {ℓ} : Type ℓ → Type ℓ
Dict V = List (Text × V)

module _ {ℓ} {V : Type ℓ} where
  -- d.get(k)
  unfoldable pub get : Dict V → Text → Option V
  get [] k = none
  get ((j, v) ∷ d) k = if text_eq j k then some v else get d k

  -- d[k] = v
  unfoldable pub set : Dict V → Text → V → Dict V
  set [] k v = (k, v) ∷ []
  set ((j, w) ∷ d) k v = if text_eq j k then (j, v) ∷ d else (j, w) ∷ set d k v

  pub get-set :
      (d : Dict V) (k j : Text) (v : V)
      → get (set d k v) j ≡ (if text_eq k j then some v else get d j)
  unfolding get set
  get-set [] k j v = refl
  get-set ((i, w) ∷ d) k j v =
      ground (arith, text_eq_iff k j, text_eq_iff i k, text_eq_iff i j, get-set d k j v)

  -- What holds of every value of a dict holds of the value of a key.
  pub get-All {κ} :
      (P : V → Type κ) (d : Dict V) (k : Text) {v : V} → All (λ e. P e.1) d → get d k ≡ some v → P v
  unfolding get
  get-All P [] k h e = absurd (cc)
  get-All P ((j, w) ∷ d) k {v} h e = elim (Bool-cases (text_eq j k)) [
    | inl found ↦
        let same : some w ≡ some v = rw found at e in let q : w ≡ v = cc same in subst P q h.0
    | inr other ↦ get-All P d k h.1 (rw other at e)
  ]
