-- ===== src/CommandLine/Steps.antt =====
-- One step of the loop of `main` that takes --data-mode out of the arguments.
use procesador_32_bits.Base.{
  Bool, Bool-cases, inl, inr, true, false, not, ◌&&◌, ◌||◌, ◌≡◌, refl, sym, ap, ◌∙◌, List, [], ◌∷◌,
  ◌++◌, some, All, arith,
}
use procesador_32_bits.Text.{Text, text_eq, lower}
use procesador_32_bits.Text.Equality.{text_eq_iff, text_eq_refl}
use procesador_32_bits.CommandLine.{
  cons_left, popped, cons_popped, remove, pop_flag, sets_mode, is_mode_flag, after_equals, mode_or,
  with_mode, with_popped, mode_step,
}

-- An argument that the loop takes out, and one whose value is the next argument.
abbrev pub is_option : Text → Bool
is_option a = sets_mode a || is_mode_flag a

abbrev pub is_flag : Text → Bool
is_flag a = not (sets_mode a) && is_mode_flag a

abbrev pub AllPlain : List Text → Type 0
AllPlain = All (λ a. is_option a ≡ false)

differs : (a b : Text) → is_option a ≡ true → is_option b ≡ false → text_eq b a ≡ false
differs a b h k = elim (Bool-cases (text_eq b a)) [
  | inl same ↦
      let e : b ≡ a = (text_eq_iff b a).0 same in absurd (cc (sym h ∙ (ap is_option (sym e) ∙ k)))
  | inr other ↦ other
]

remove-plain :
    (a : Text) (k more : List Text)
    → is_option a ≡ true
    → AllPlain k
    → remove a (k ++ a ∷ more) ≡ some (k ++ more)
unfolding remove
remove-plain a [] more h plain = rw (text_eq_refl a) refl
remove-plain a (b ∷ k) more h plain =
    rw (differs a b h plain.0) (ap (cons_left b) (remove-plain a k more h plain.1))

pop_flag-plain :
    (a : Text) (k more : List Text)
    → is_option a ≡ true
    → AllPlain k
    → pop_flag a (k ++ a ∷ more) ≡ some ((popped more).0, k ++ (popped more).1)
unfolding pop_flag
pop_flag-plain a [] more h plain = rw (text_eq_refl a) refl
pop_flag-plain a (b ∷ k) more h plain =
    rw (differs a b h plain.0) (ap (cons_popped b) (pop_flag-plain a k more h plain.1))

pub mode_step-plain :
    (a : Text) (state : Text × List Text) → is_option a ≡ false → mode_step a state ≡ some state
unfolding mode_step
mode_step-plain a state h = ground (arith, h)

or-left : (b c : Bool) → b ≡ true → (b || c) ≡ true
or-left true c h = refl
or-left false c h = cc

flag-is_option : (b c : Bool) → (not b && c) ≡ true → (b || c) ≡ true
flag-is_option true c h = refl
flag-is_option false c h = h

-- An option with its value after the equals sign is taken out of what is left.
pub mode_step-sets :
    (a mode : Text) (k more : List Text)
    → sets_mode a ≡ true
    → AllPlain k
    → mode_step a (mode, k ++ a ∷ more) ≡ some (lower (after_equals a), k ++ more)
unfolding mode_step
mode_step-sets a mode k more h plain = rw h (
    ap (with_mode (lower (after_equals a)))
      (remove-plain a k more (or-left (sets_mode a) (is_mode_flag a) h) plain))

pub mode_step-flag :
    (a mode : Text) (k more : List Text)
    → is_flag a ≡ true
    → AllPlain k
    → mode_step a (mode, k ++ a ∷ more) ≡ some (mode_or (popped more).0 mode, k ++ (popped more).1)
unfolding mode_step
mode_step-flag a mode k more h plain =
    let unset : sets_mode a ≡ false = ground (arith, h) in
    let flag : is_mode_flag a ≡ true = ground (arith, h) in
    rw (unset, flag)
      (ap (with_popped mode)
        (pop_flag-plain a k more (flag-is_option (sets_mode a) (is_mode_flag a) h) plain))
