-- ===== src/Encode/Prefixes.antt =====
-- What a prefix that was read, and accepted for its mnemonic, says of the type field.
use procesador_32_bits.Base.{
  refl, ℕ, ◌^◌, ◌<◌, ◌≡◌, ◌⊎◌, inl, inr, Bool, true, false, List, [], ◌∷◌, Option, none, some,
  arith, Bool-cases,
}
use procesador_32_bits.Base.Result.{ok}
use procesador_32_bits.Text.{Text, codes, text_eq, upper}
use procesador_32_bits.Dict
use procesador_32_bits.Isa.{Mnemonic, is_memory, is_arithmetic, is_ldi, mem_types}
use procesador_32_bits.Encode.{
  Prefix, after_prefix, no_prefix, type_prefix, classify_prefix, read_prefix, check_prefix,
}

-- The type field has three bits, and with no prefix for memory, H or L it is 0 or the 4 of SLT.
pub record IsRead (p : Prefix) : Type 0 where
  pub tipo-lt : p.tipo < 2 ^ 3
  pub plain : p.is_mem_prefix ≡ false → p.is_hl_prefix ≡ false → (p.tipo ≡ 0) ⊎ (p.tipo ≡ 4)

after_prefix-IsRead :
    (first : Text) (tipo : ℕ) (is_mem is_hl : Bool) (ts : List Text) (line : ℕ) {p : Prefix}
    → tipo < 2 ^ 3
    → (is_mem ≡ false → is_hl ≡ false → (tipo ≡ 0) ⊎ (tipo ≡ 4))
    → after_prefix first tipo is_mem is_hl ts line ≡ ok p
    → IsRead p
unfolding after_prefix
after_prefix-IsRead first tipo is_mem is_hl [] line lt plain h = absurd (cc)
after_prefix-IsRead first tipo is_mem is_hl (t ∷ ts) line lt plain h = record {
  tipo-lt = ground arith;
  plain = λ a b. ground (arith, plain);
}

no_prefix-IsRead :
    (first : Text) (ts : List Text) (line : ℕ) {p : Prefix}
    → no_prefix first ts line ≡ ok p
    → IsRead p
unfolding no_prefix
no_prefix-IsRead first ts line h = record { tipo-lt = ground arith; plain = λ a b. ground arith }

mem_types-lt : (k : Text) {tipo : ℕ} → Dict.get mem_types k ≡ some tipo → tipo < 2 ^ 3
mem_types-lt k = Dict.get-All (λ tipo. tipo < 2 ^ 3) mem_types k (omega arith)

type_prefix-IsRead :
    (o : Option ℕ) (first : Text) (ts : List Text) (line : ℕ) {p : Prefix}
    → ((tipo : ℕ) → o ≡ some tipo → tipo < 2 ^ 3)
    → type_prefix o first ts line ≡ ok p
    → IsRead p
unfolding type_prefix
type_prefix-IsRead none first ts line lt h = no_prefix-IsRead first ts line h
type_prefix-IsRead (some tipo) first ts line lt h =
    after_prefix-IsRead first tipo true false ts line (lt tipo refl) (λ a b. absurd (cc)) h

classify_prefix-IsRead :
    (first : Text) (ts : List Text) (line : ℕ) {p : Prefix}
    → classify_prefix first ts line ≡ ok p
    → IsRead p
unfolding classify_prefix
classify_prefix-IsRead first ts line h = elim (Bool-cases (text_eq first (codes "SLT"))) [
  | inl slt ↦
      after_prefix-IsRead first 4 false false ts line (omega arith) (λ a b. inr refl) (rw slt at h)
  | inr not_slt ↦ elim (Bool-cases (text_eq first (codes "H"))) [
    | inl is_h ↦
        after_prefix-IsRead first 4 false true ts line (omega arith) (λ a b. inr refl)
          (rw (not_slt, is_h) at h)
    | inr not_h ↦ elim (Bool-cases (text_eq first (codes "L"))) [
      | inl is_l ↦
          after_prefix-IsRead first 0 false true ts line (omega arith) (λ a b. inl refl)
            (rw (not_slt, not_h, is_l) at h)
      | inr not_l ↦
          type_prefix-IsRead (Dict.get mem_types first) first ts line
            (λ tipo e. mem_types-lt first e) (rw (not_slt, not_h, not_l) at h)
    ]
  ]
]

pub read_prefix-IsRead :
    (ts : List Text) (line : ℕ) {p : Prefix} → read_prefix ts line ≡ ok p → IsRead p
unfolding read_prefix
read_prefix-IsRead [] line h = absurd (cc)
read_prefix-IsRead (t ∷ ts) line h = classify_prefix-IsRead (upper t) ts line h

-- For a mnemonic that takes no prefix, an accepted prefix is none: the type field is 0.
pub check_prefix-bare :
    (p : Prefix) (m : Mnemonic) (line : ℕ)
    → IsRead p
    → is_memory m ≡ false
    → is_ldi m ≡ false
    → is_arithmetic m ≡ false
    → check_prefix p m line ≡ ok tt
    → p.tipo ≡ 0
unfolding check_prefix
check_prefix-bare p m line r a b c h = ground arith
