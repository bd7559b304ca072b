-- ===== src/Operands/Bounds.antt =====
-- What an accepted register or immediate can be.
use procesador_32_bits.Base.{
  ◌-◌, refl, refl, ◌≤◌, suc, ℕ, ◌<◌, ◌^◌, ◌≡◌, Bool, true, false, [], ◌∷◌, Option, none, some,
  arith,
}
use procesador_32_bits.Base.Int.{low_bits, ℤ, pos, negsuc}
use procesador_32_bits.Base.Result.{ok}
use procesador_32_bits.Text.{Text, codes, upper, strip}
use procesador_32_bits.Text.Number.{parse_int}
use procesador_32_bits.Operands.{
  register_number, after_letters, parse_register, parse_special_register, fit_immediate,
  accept_immediate, parse_immediate,
}
use native.Mathlib.Nat.{mod-eq_of_lt, one-le-pow}

register_number-lt : (s : Text) (n : ℕ) → register_number s ≡ some n → n < 16
unfolding register_number
register_number-lt [] n h = cc
register_number-lt (d ∷ []) n h = ground arith
register_number-lt (t ∷ d ∷ []) n h = ground arith
register_number-lt (t ∷ d ∷ e ∷ s) n h = cc

after_letters-lt : (l s : Text) (n : ℕ) → after_letters l s ≡ some n → n < 16
unfolding after_letters
after_letters-lt [] s n h = register_number-lt s n h
after_letters-lt (l ∷ ls) [] n h = cc
after_letters-lt (l ∷ ls) (c ∷ s) n h = ground (arith, after_letters-lt ls s n)

pub parse_register-lt : (t : Text) (line n : ℕ) → parse_register t line ≡ ok n → n < 2 ^ 4
unfolding parse_register
parse_register-lt t line n h = ground (arith, after_letters-lt (codes "R") (upper (strip t)) n)

pub parse_special_register-lt :
    (t : Text) (line n : ℕ) → parse_special_register t line ≡ ok n → n < 2 ^ 4
unfolding parse_special_register
parse_special_register-lt t line n h =
    ground (arith, after_letters-lt (codes "SR") (upper (strip t)) n)

fit_immediate-lt :
    (v : ℤ) (line bits : ℕ) (signed : Bool) (n : ℕ)
    → fit_immediate v line bits signed ≡ ok n
    → n < 2 ^ bits
unfolding fit_immediate
fit_immediate-lt (pos m) line bits signed n h = ground (arith, one-le-pow bits 2)
fit_immediate-lt (negsuc m) line bits true n h = ground (arith, one-le-pow bits 2)
fit_immediate-lt (negsuc m) line bits false n h = cc

accept_immediate-lt :
    (v : Option ℤ) (t : Text) (line bits : ℕ) (signed : Bool) (n : ℕ)
    → accept_immediate v t line bits signed ≡ ok n
    → n < 2 ^ bits
unfolding accept_immediate
accept_immediate-lt none t line bits signed n h = cc
accept_immediate-lt (some v) t line bits signed n h = fit_immediate-lt v line bits signed n h

pub parse_immediate-lt :
    (t : Text) (line bits : ℕ) (signed : Bool) (n : ℕ)
    → parse_immediate t line bits signed ≡ ok n
    → n < 2 ^ bits
unfolding parse_immediate
parse_immediate-lt t line bits signed n h =
    accept_immediate-lt (parse_int (strip t)) (strip t) line bits signed n h

-- The values that parse_immediate accepts.
abbrev pub Fits : ℕ → Bool → ℤ → Type 0
Fits bits signed (pos n) = n < 2 ^ bits
Fits bits true (negsuc n) = suc n ≤ 2 ^ (bits - 1)
Fits bits false (negsuc n) = ⊥

-- A value in the range becomes its remainder by 2 ** bits: for a negative one, the two's complement.
fit_immediate-ok :
    (v : ℤ) (line bits : ℕ) (signed : Bool)
    → Fits bits signed v
    → fit_immediate v line bits signed ≡ ok (low_bits bits v)
unfolding fit_immediate
fit_immediate-ok (pos n) line bits signed h = ground (arith, one-le-pow bits 2, mod-eq_of_lt h)
fit_immediate-ok (negsuc n) line bits true h = ground arith
fit_immediate-ok (negsuc n) line bits false h = elim h [ ]

fit_immediate-Fits :
    (v : ℤ) (line bits n : ℕ) (signed : Bool)
    → fit_immediate v line bits signed ≡ ok n
    → Fits bits signed v
unfolding fit_immediate
fit_immediate-Fits (pos m) line bits n signed h = ground (arith, one-le-pow bits 2)
fit_immediate-Fits (negsuc m) line bits n true h = ground arith
fit_immediate-Fits (negsuc m) line bits n false h = absurd (cc)

accept_immediate-eq-ok :
    (o : Option ℤ) (t : Text) (line bits n : ℕ) (signed : Bool)
    → accept_immediate o t line bits signed ≡ ok n
    → (v : ℤ) × (o ≡ some v) × Fits bits signed v × (n ≡ low_bits bits v)
unfolding accept_immediate
accept_immediate-eq-ok none t line bits n signed h = absurd (cc)
accept_immediate-eq-ok (some v) t line bits n signed h =
    let fits = fit_immediate-Fits v line bits n signed h in
    (v, refl, fits, cc (h, fit_immediate-ok v line bits signed fits))

-- What is accepted is a literal whose value fits the width, and the result is that value modulo
-- 2 ** bits: nothing else is ever returned.
pub parse_immediate-eq-ok :
    (t : Text) (line bits n : ℕ) (signed : Bool)
    → parse_immediate t line bits signed ≡ ok n
    → (v : ℤ) × (parse_int (strip t) ≡ some v) × Fits bits signed v × (n ≡ low_bits bits v)
unfolding parse_immediate
parse_immediate-eq-ok t line bits n signed h =
    accept_immediate-eq-ok (parse_int (strip t)) (strip t) line bits n signed h
