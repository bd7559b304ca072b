-- ===== src/Annotated/Octets.antt =====
-- The binary digits of a word in four groups of eight.
use mathlib.Core.Path.{subst}
use native.Mathlib.Nat.{pow-succ', add-mul, mul_assoc}
use procesador_32_bits.Base.{
  ℕ, zero, suc, ◌+◌, ◌-◌, ◌*◌, ◌/◌, ◌%◌, ◌^◌, ◌<◌, ◌≤◌, ◌≡◌, ◌≢◌, refl, sym, ap, ◌∙◌, true, inl,
  inr, Bool-cases, [], ◌∷◌, Option, none, ◌++◌, some, arith, ltb, length, length-append,
  length-replicate, replicate, take, drop, All, All-append, map, bit_and_mask, bit_and, ◌>>◌,
}
use procesador_32_bits.Text.{Text}
use procesador_32_bits.Text.Number.{digits_value, digit_value}
use procesador_32_bits.Text.Format.{
  digit, digits, format_number, digits_value-append, digits_value-format_number,
}
use procesador_32_bits.Annotated.{octet}
use procesador_32_bits.Rom.{word_to_bytes}

abbrev IsBit : ℕ → Type 0
IsBit c = b'0' ≤ c × c ≤ b'1'

digit-IsBit : (d : ℕ) → d < 2 → IsBit (digit d)
unfolding digit
digit-IsBit d h = ground arith

digits-IsBit : (fuel n : ℕ) → All IsBit (digits 2 fuel n)
unfolding digits
digits-IsBit zero n = tt
digits-IsBit (suc fuel) n = elim (Bool-cases (ltb n 2)) [
  | inl small ↦ rw (small, digits) (digit-IsBit n (ground arith), tt)
  | inr large ↦
      rw (large, digits)
        (All-append IsBit (digits 2 fuel (n / 2)) _ (digits-IsBit fuel (n / 2))
          (digit-IsBit (n % 2) (omega arith), tt))
]

zeros-IsBit : (k : ℕ) → All IsBit (replicate k b'0')
zeros-IsBit zero = tt
zeros-IsBit (suc k) = ((omega arith, omega arith), zeros-IsBit k)

format-IsBit : (n : ℕ) → All IsBit (format_number 2 32 n)
unfolding format_number
format-IsBit n =
    All-append IsBit (replicate (32 - length (digits 2 (suc n) n)) b'0') _ (zeros-IsBit _)
      (digits-IsBit (suc n) n)

-- A number below 2 ** k has at most k digits, but one at least.
length-digits : (k fuel n : ℕ) → n < 2 ^ suc k → length (digits 2 fuel n) ≤ suc k
unfolding digits
length-digits k zero n h = omega arith
length-digits zero (suc fuel) n h =
    rw ((let small : ltb n 2 ≡ true = ground arith in small), digits) (omega arith)
length-digits (suc k) (suc fuel) n h = elim (Bool-cases (ltb n 2)) [
  | inl small ↦ rw (small, digits) (omega arith)
  | inr large ↦
      rw (large, digits)
        (omega (
          arith,
          length-append (digits 2 fuel (n / 2)) (digit (n % 2) ∷ []),
          length-digits k fuel (n / 2) (omega (arith, pow-succ' 2 (suc k))),
        ))
]

length-format : (n : ℕ) → n < 2 ^ 32 → length (format_number 2 32 n) ≡ 32
unfolding format_number
length-format n h = omega (
  arith,
  length-append (replicate (32 - length (digits 2 (suc n) n)) b'0') (digits 2 (suc n) n),
  length-replicate {A = ℕ} (32 - length (digits 2 (suc n) n)) (b'0'),
  length-digits 31 (suc n) n h,
)

digit_of_bit : (c : ℕ) → IsBit c → digit_value c ≡ some (c - b'0')
unfolding digit_value
digit_of_bit c h = ground arith

bit_value :
    (acc c : ℕ) (s : Text)
    → IsBit c
    → digits_value 2 acc (c ∷ s) ≡ digits_value 2 (acc * 2 + (c - b'0')) s
unfolding digits_value
bit_value acc c s h =
    ap (λ (o : Option ℕ). digits_value 2 (acc * 2 + elim o [ none ↦ 0 | some d ↦ d ]) s)
      (digit_of_bit c h)

nil_value : (acc : ℕ) → digits_value 2 acc [] ≡ acc
unfolding digits_value
nil_value acc = refl

-- The digits behind an accumulator.
value_acc :
    (acc : ℕ) (s : Text)
    → All IsBit s
    → digits_value 2 acc s ≡ acc * 2 ^ length s + digits_value 2 0 s
value_acc acc [] h = omega (arith, nil_value acc, nil_value 0)
value_acc acc (c ∷ s) h =
    let w = 2 ^ length s in
    let d = c - b'0' in
    omega (
      arith,
      bit_value acc c s h.0,
      bit_value 0 c s h.0,
      value_acc (acc * 2 + d) s h.1,
      value_acc (0 * 2 + d) s h.1,
      pow-succ' 2 (length s),
      add-mul (acc * 2) d w,
      add-mul (0 * 2) d w,
      mul_assoc acc 2 w,
      ap (λ t. acc * t) (pow-succ' 2 (length s)),
    )

bit_times-le : (d w : ℕ) → d < 2 → (0 * 2 + d) * w ≤ w
bit_times-le zero w h = omega arith
bit_times-le (suc zero) w h = omega arith
bit_times-le (suc (suc d)) w h = absurd (omega arith)

value-lt : (s : Text) → All IsBit s → digits_value 2 0 s < 2 ^ length s
value-lt [] h = omega (arith, nil_value 0)
value-lt (c ∷ s) h =
    let d = c - b'0' in
    omega (
      arith,
      bit_value 0 c s h.0,
      value_acc (0 * 2 + d) s h.1,
      value-lt s h.1,
      bit_times-le d (2 ^ length s) (omega arith),
      pow-succ' 2 (length s),
    )

take-append-drop : (n : ℕ) (s : Text) → take n s ++ drop n s ≡ s
take-append-drop zero s = refl
take-append-drop (suc n) [] = refl
take-append-drop (suc n) (c ∷ s) = ap (λ t. c ∷ t) (take-append-drop n s)

take-All : (n : ℕ) (s : Text) → All IsBit s → All IsBit (take n s)
take-All zero s h = tt
take-All (suc n) [] h = tt
take-All (suc n) (c ∷ s) h = (h.0, take-All n s h.1)

drop-All : (n : ℕ) (s : Text) → All IsBit s → All IsBit (drop n s)
drop-All zero s h = h
drop-All (suc n) [] h = tt
drop-All (suc n) (c ∷ s) h = drop-All n s h.1

length-take : (n m : ℕ) (s : Text) → length s ≡ n + m → length (take n s) ≡ n
length-take zero m s h = refl
length-take (suc n) m [] h = absurd (omega arith)
length-take (suc n) m (c ∷ s) h = omega (arith, length-take n m s (omega arith))

length-drop : (n m : ℕ) (s : Text) → length s ≡ n + m → length (drop n s) ≡ m
length-drop zero m s h = omega arith
length-drop (suc n) m [] h = absurd (omega arith)
length-drop (suc n) m (c ∷ s) h = length-drop n m s (omega arith)

drop_nil : (m : ℕ) → drop {A = ℕ} m [] ≡ []
drop_nil zero = refl
drop_nil (suc m) = refl

drop-drop : (n m : ℕ) (s : Text) → drop m (drop n s) ≡ drop (n + m) s
drop-drop zero m s = let e : m ≡ 0 + m = omega arith in ap (λ k. drop k s) e
drop-drop (suc n) m [] =
    let e : suc (n + m) ≡ suc n + m = omega arith in drop_nil m ∙ ap (λ k. drop {A = ℕ} k []) e
drop-drop (suc n) m (c ∷ s) =
    let e : suc (n + m) ≡ suc n + m = omega arith in drop-drop n m s ∙ ap (λ k. drop k (c ∷ s)) e

-- The value of a text of n + m bits, cut behind n of them.
cut_value :
    (n m : ℕ) (s : Text)
    → All IsBit s
    → length s ≡ n + m
    → (digits_value 2 0 s ≡ digits_value 2 0 (take n s) * 2 ^ m + digits_value 2 0 (drop n s))
      × (digits_value 2 0 (take n s) < 2 ^ n)
cut_value n m s h e =
    let front = digits_value 2 0 (take n s) in
    (
      ap (digits_value 2 0) (sym (take-append-drop n s))
          ∙ (digits_value-append 2 (take n s) (drop n s) 0
              ∙ (value_acc front (drop n s) (drop-All n s h)
                  ∙ ap (λ k. front * 2 ^ k + digits_value 2 0 (drop n s)) (length-drop n m s e))),
      subst (λ k. front < 2 ^ k) (length-take n m s e) (value-lt (take n s) (take-All n s h)),
    )

-- The groups of a word are its bytes, the highest first.
pub octets-word_to_bytes :
    (w : ℕ)
    → w < 2 ^ 32
    → let bits : Text = format_number 2 32 w in
      map (digits_value 2 0) (octet 0 bits ∷ octet 1 bits ∷ octet 2 bits ∷ octet 3 bits ∷ [])
      ≡ word_to_bytes w
unfolding word_to_bytes
octets-word_to_bytes w h =
    let s = format_number 2 32 w in
    let v = digits_value 2 0 in
    let b0 = format-IsBit w in
    let b1 = drop-All 8 s b0 in
    let b2 = drop-All 8 (drop 8 s) b1 in
    let l0 = length-format w h in
    let l1 = length-drop 8 24 s l0 in
    let l2 = length-drop 8 16 (drop 8 s) l1 in
    let c0 = cut_value 8 24 s b0 l0 in
    let c1 = cut_value 8 16 (drop 8 s) b1 l1 in
    let c2 = cut_value 8 8 (drop 8 (drop 8 s)) b2 l2 in
    let t = drop 8 (drop 8 (drop 8 s)) in
    let l3 = length-drop 8 8 (drop 8 (drop 8 s)) l2 in
    let all = digits_value-format_number 2 (omega arith) (omega arith) 32 w in
    let c3 = cut_value 8 0 t (drop-All 8 (drop 8 (drop 8 s)) b2) l3 in
    let last : v (drop 8 t) < 1 =
      subst (λ k. v (drop 8 t) < 2 ^ k) (length-drop 8 0 t l3)
        (value-lt (drop 8 t) (drop-All 8 t (drop-All 8 (drop 8 (drop 8 s)) b2))) in
    let d2 : v (octet 2 s) ≡ v (take 8 (drop 8 (drop 8 s))) =
      ap (λ x. v (take 8 x)) (sym (drop-drop 8 8 s)) in
    let d3 : v (octet 3 s) ≡ v (take 8 t) =
      ap (λ x. v (take 8 x)) (sym (ap (drop 8) (drop-drop 8 8 s) ∙ drop-drop 16 8 s)) in
    let e0 : v (octet 0 s) ≡ bit_and (w >> 24) 0xFF = omega (arith, bit_and_mask 8 (w / 2 ^ 24)) in
    let e1 : v (octet 1 s) ≡ bit_and (w >> 16) 0xFF = omega (arith, bit_and_mask 8 (w / 2 ^ 16)) in
    let e2 : v (octet 2 s) ≡ bit_and (w >> 8) 0xFF = omega (arith, bit_and_mask 8 (w / 2 ^ 8)) in
    let e3 : v (octet 3 s) ≡ bit_and w 0xFF = omega (arith, bit_and_mask 8 w) in cc (e0, e1, e2, e3)

bits-HasNone : (s : Text) → All IsBit s → All (λ c. c ≢ b' ') s
bits-HasNone [] h = tt
bits-HasNone (c ∷ s) h = (omega (arith, h.0), bits-HasNone s h.1)

pub octet-HasNone : (i w : ℕ) → All (λ c. c ≢ b' ') (octet i (format_number 2 32 w))
octet-HasNone i w =
    let bits = drop-All (i * 8) (format_number 2 32 w) (format-IsBit w) in
    bits-HasNone _ (take-All 8 (drop (i * 8) (format_number 2 32 w)) bits)
