-- ===== src/Text/Regex.antt =====
-- The pieces of the regular expressions of Ensamblador/assembler.py, as matchers with backtracking:
-- a piece takes what to do with the rest, and tries its longest match first, as `re` does.
pub mod Inversion
use procesador_32_bits.Base.{ℕ, Bool, not, [], ◌∷◌, Option, none, some, ◌==◌, if◌then◌else◌}
use procesador_32_bits.Text.{Text, is_space, is_digit, is_hex_digit, lower_code}
use procesador_32_bits.Text.Number.{digits_value}

module _ {ℓ} {R : Type ℓ} where
  -- The alternative that `re` tries when the first one has no match.
  abbrev pub or_else : Option R → Option R → Option R
  or_else m n = elim m [ some r ↦ some r | none ↦ n ]

  -- One character of a class.
  unfoldable pub one : (ℕ → Bool) → (Text → Option R) → Text → Option R
  one p k [] = none
  one p k (c ∷ s) = if p c then k s else none

  -- The same, with the character for the continuation.
  unfoldable pub one_of : (ℕ → Bool) → (ℕ → Text → Option R) → Text → Option R
  one_of p k [] = none
  one_of p k (c ∷ s) = if p c then k c s else none

  -- A literal, under IGNORECASE; it is written in lower case.
  unfoldable pub word : Text → (Text → Option R) → Text → Option R
  unfolding lower_code
  word [] k s = k s
  word (w ∷ ws) k [] = none
  word (w ∷ ws) k (c ∷ s) = let rest = word ws k s in if lower_code c == w then rest else none

  -- A greedy `p*`, whose match goes to the continuation.
  unfoldable pub many : (ℕ → Bool) → (Text → Text → Option R) → Text → Option R
  many p k [] = k [] []
  many p k (c ∷ s) =
      let longer = many p (λ w. k (c ∷ w)) s in
      if p c then or_else longer (k [] (c ∷ s)) else k [] (c ∷ s)

  -- A greedy `p+`.
  unfoldable pub many_one : (ℕ → Bool) → (Text → Text → Option R) → Text → Option R
  unfolding many
  many_one p k [] = none
  many_one p k (c ∷ s) = if p c then many p (λ w. k (c ∷ w)) s else none

  -- A greedy `c?`, whose match goes to the continuation.
  unfoldable pub maybe_char : ℕ → (Text → Text → Option R) → Text → Option R
  maybe_char c k [] = k [] []
  maybe_char c k (d ∷ s) = if d == c then or_else (k (d ∷ []) s) (k [] (d ∷ s)) else k [] (d ∷ s)

  -- `\s*`
  unfoldable pub spaces : (Text → Option R) → Text → Option R
  unfolding many is_space
  spaces k = many is_space (λ _. k)

  -- `$`: the end, or the newline at the end.
  unfoldable pub at_end : R → Text → Option R
  at_end r [] = some r
  at_end r (c ∷ []) = if c == b'\n' then some r else none
  at_end r (c ∷ d ∷ s) = none

-- `.`
abbrev pub is_dot : ℕ → Bool
is_dot c = not (c == b'\n')

-- `\d+|0x[0-9a-fA-F]+`, with its value; `x` is the test for the letter of the prefix.
module _ {ℓ} {R : Type ℓ} where
  unfoldable pub number : (ℕ → Bool) → (ℕ → Text → Option R) → Text → Option R
  unfolding one many_one is_digit is_hex_digit digits_value
  number x k s =
      or_else (many_one is_digit (λ ds. k (digits_value 10 0 ds)) s)
        (one (λ c. c == b'0') (one x (many_one is_hex_digit (λ ds. k (digits_value 16 0 ds)))) s)
