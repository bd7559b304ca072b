-- ===== src/Text/Equality.antt =====
-- The Boolean test on texts decides equality.
use procesador_32_bits.Base.{◌≡◌, ◌↔◌, refl, true, [], ◌∷◌, arith}
use procesador_32_bits.Text.{Text, text_eq}

pub text_eq_iff : (a b : Text) → (text_eq a b ≡ true) ↔ (a ≡ b)
unfolding text_eq
text_eq_iff [] [] = ground arith
text_eq_iff [] (d ∷ t) = ground arith
text_eq_iff (c ∷ s) [] = ground arith
text_eq_iff (c ∷ s) (d ∷ t) = ground (arith, text_eq_iff s t)

pub text_eq_refl : (a : Text) → text_eq a a ≡ true
text_eq_refl a = (text_eq_iff a a).1 refl
