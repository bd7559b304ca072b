-- ===== src/Text/Format.antt =====
-- Python's formats of a number: `{n:0wx}`, `{n:0wb}` and `str(n)`, and what their digits stand for.
use native.Mathlib.Nat.{mod-lt, div-lt_self, div-add-mod'}
use procesador_32_bits.Base.{
  ℕ, zero, suc, ◌+◌, ◌-◌, ◌*◌, ◌/◌, ◌%◌, ◌<◌, ◌≤◌, ◌≡◌, ◌≢◌, refl, ap, ◌∙◌, true, false, inl, inr,
  Bool-cases, [], ◌∷◌, ◌++◌, Option, none, some, arith, ltb, length, replicate, All, All-append,
  if◌then◌else◌,
}
use procesador_32_bits.Text.{Text, upper, upper_code}
use procesador_32_bits.Text.Number.{digit_value, digits_value}

unfoldable pub digit : ℕ → ℕ
digit d = if ltb d 10 then b'0' + d else b'a' + (d - 10)

-- The digits of a number to a base, on fuel.
unfoldable pub digits : ℕ → ℕ → ℕ → Text
unfolding digit
digits base zero n = []
digits base (suc fuel) n = elim (ltb n base) [
  | true ↦ digit n ∷ []
  | false ↦ digits base fuel (n / base) ++ digit (n % base) ∷ []
]

-- The digits, with zeros in front up to the width.
unfoldable pub format_number : ℕ → ℕ → ℕ → Text
unfolding digits
format_number base width n =
    let text = digits base (suc n) n in replicate (width - length text) b'0' ++ text

-- f"{n:0wx}"
unfoldable pub format_hex : ℕ → ℕ → Text
unfolding format_number
format_hex = format_number 16

-- str(n)
abbrev pub decimal : ℕ → Text
decimal = format_number 10 0

digit_value-digit : (d : ℕ) → d < 16 → digit_value (digit d) ≡ some d
unfolding digit_value digit
digit_value-digit d h = ground arith

pub digits_value-append :
    (base : ℕ) (s t : Text) (acc : ℕ)
    → digits_value base acc (s ++ t) ≡ digits_value base (digits_value base acc s) t
unfolding digits_value
digits_value-append base [] t acc = refl
digits_value-append base (c ∷ s) t acc = digits_value-append base s t _

digits_value-digit :
    (base acc d : ℕ) → d < 16 → digits_value base acc (digit d ∷ []) ≡ acc * base + d
unfolding digits_value
digits_value-digit base acc d h = rw (digit_value-digit d h)

digits_value-zeros :
    (base k : ℕ) (s : Text) → digits_value base 0 (replicate k b'0' ++ s) ≡ digits_value base 0 s
unfolding digits_value digit_value
digits_value-zeros base zero s = refl
digits_value-zeros base (suc k) s =
    let e : 0 * base + 0 ≡ 0 = omega arith in
    ap (λ acc. digits_value base acc (replicate k b'0' ++ s)) e ∙ digits_value-zeros base k s

-- A character that separates no words.
abbrev pub IsPlain : ℕ → Type 0
IsPlain c = (c ≢ b' ') × (c ≢ b':') × (c ≢ b';') × (c ≢ b')') × (c ≢ b'\n')

digit-IsPlain : (d : ℕ) → d < 16 → IsPlain (digit d)
unfolding digit
digit-IsPlain d h = ground arith

zeros-IsPlain : (k : ℕ) → All IsPlain (replicate k b'0')
zeros-IsPlain zero = tt
zeros-IsPlain (suc k) = (omega arith, zeros-IsPlain k)

module _ (base : ℕ) (two : 2 ≤ base) (sixteen : base ≤ 16) where
  mod-lt-base : (n : ℕ) → n % base < base
  mod-lt-base n = mod-lt n (omega arith)

  digits_value-digits : (fuel n : ℕ) → n < fuel → digits_value base 0 (digits base fuel n) ≡ n
  unfolding digits
  digits_value-digits zero n h = elim h [ ]
  digits_value-digits (suc fuel) n h = elim (Bool-cases (ltb n base)) [
    | inl small ↦ rw (small, digits) (digits_value-digit base 0 n (ground arith) ∙ omega arith)
    | inr large ↦
        let less : n / base < n = div-lt_self (ground arith) (omega arith) in
        rw (large, digits)
          (digits_value-append base (digits base fuel (n / base)) _ 0
            ∙ (digits_value-digit base _ (n % base) (omega (arith, mod-lt-base n))
                ∙ (ap (λ v. v * base + n % base) (digits_value-digits fuel (n / base) (omega arith))
                    ∙ div-add-mod' n base)))
  ]

  -- The digits stand for the number, whatever the width.
  pub digits_value-format_number :
      (width n : ℕ) → digits_value base 0 (format_number base width n) ≡ n
  unfolding format_number
  digits_value-format_number width n =
      digits_value-zeros base _ (digits base (suc n) n)
      ∙ digits_value-digits (suc n) n (omega arith)

  digits-IsPlain : (fuel n : ℕ) → All IsPlain (digits base fuel n)
  unfolding digits
  digits-IsPlain zero n = tt
  digits-IsPlain (suc fuel) n = elim (Bool-cases (ltb n base)) [
    | inl small ↦ rw (small, digits) (digit-IsPlain n (ground arith), tt)
    | inr large ↦
        rw (large, digits)
          (All-append IsPlain (digits base fuel (n / base)) _ (digits-IsPlain fuel (n / base))
            (digit-IsPlain (n % base) (omega (arith, mod-lt-base n)), tt))
  ]

  pub format_number-IsPlain : (width n : ℕ) → All IsPlain (format_number base width n)
  unfolding format_number
  format_number-IsPlain width n =
      All-append IsPlain (replicate (width - length (digits base (suc n) n)) b'0') _
        (zeros-IsPlain _) (digits-IsPlain (suc n) n)

pub digits_value-format_hex : (width n : ℕ) → digits_value 16 0 (format_hex width n) ≡ n
unfolding format_hex
digits_value-format_hex = digits_value-format_number 16 (omega arith) (omega arith)

pub format_hex-IsPlain : (width n : ℕ) → All IsPlain (format_hex width n)
unfolding format_hex
format_hex-IsPlain = format_number-IsPlain 16 (omega arith) (omega arith)

-- The same in capitals.
upper_code-IsPlain : (c : ℕ) → IsPlain c → IsPlain (upper_code c)
unfolding upper_code
upper_code-IsPlain c h = ground arith

upper-IsPlain : (s : Text) → All IsPlain s → All IsPlain (upper s)
unfolding upper
upper-IsPlain [] h = tt
upper-IsPlain (c ∷ s) h = (upper_code-IsPlain c h.0, upper-IsPlain s h.1)

digit_value-upper_code : (c : ℕ) → digit_value (upper_code c) ≡ digit_value c
unfolding digit_value upper_code
digit_value-upper_code c = ground arith

digits_value-upper :
    (base : ℕ) (s : Text) (acc : ℕ) → digits_value base acc (upper s) ≡ digits_value base acc s
unfolding digits_value upper
digits_value-upper base [] acc = refl
digits_value-upper base (c ∷ s) acc =
    ap
      (λ (o : Option ℕ).
        digits_value base (acc * base + elim o [ none ↦ 0 | some d ↦ d ]) (upper s))
      (digit_value-upper_code c)
    ∙ digits_value-upper base s _

-- f"{n:0wX}"
unfoldable pub format_upper : ℕ → ℕ → Text
unfolding format_hex upper
format_upper width n = upper (format_hex width n)

pub digits_value-format_upper : (width n : ℕ) → digits_value 16 0 (format_upper width n) ≡ n
unfolding format_upper
digits_value-format_upper width n =
    digits_value-upper 16 (format_hex width n) 0 ∙ digits_value-format_hex width n

pub format_upper-IsPlain : (width n : ℕ) → All IsPlain (format_upper width n)
unfolding format_upper
format_upper-IsPlain width n = upper-IsPlain (format_hex width n) (format_hex-IsPlain width n)

pub decimal-IsPlain : (n : ℕ) → All IsPlain (decimal n)
decimal-IsPlain = format_number-IsPlain 10 (omega arith) (omega arith) 0

pub digits_value-decimal : (n : ℕ) → digits_value 10 0 (decimal n) ≡ n
digits_value-decimal = digits_value-format_number 10 (omega arith) (omega arith) 0
