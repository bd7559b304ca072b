-- ===== src/Expression/Bounds.antt =====
-- A resolved immediate fits its 16-bit field, wherever it comes from.
use procesador_32_bits.Base.{
  ℕ, ◌^◌, ◌<◌, ◌≡◌, Bool, Option, none, some, arith, Bool-cases, inl, inr,
}
use procesador_32_bits.Base.Int.{ℤ}
use procesador_32_bits.Base.Result.{ok, err}
use procesador_32_bits.Text.{Text, strip}
use procesador_32_bits.Dict.{Dict}
use procesador_32_bits.Errors.{Parsed}
use procesador_32_bits.Operands.{parse_immediate}
use procesador_32_bits.Operands.Bounds.{parse_immediate-lt}
use procesador_32_bits.Expression.{
  Half, hi, lo, half_of, pseudo_match, eval_label_expr, resolve_pseudo, try_label, looks_numeric,
  kind_or_hi, resolve_number, resolve_direct, resolve_match, resolve_imm_or_pseudo,
}

half_of-lt : (kind : Half) (a : ℤ) → half_of kind a < 2 ^ 16
half_of-lt hi a = omega arith
half_of-lt lo a = omega arith

try_label-lt :
    (kind : Half) (r : Parsed ℤ) (rest : Parsed ℕ) (n : ℕ)
    → ((m : ℕ) → rest ≡ ok m → m < 2 ^ 16)
    → try_label kind r rest ≡ ok n
    → n < 2 ^ 16
unfolding try_label
try_label-lt kind (ok a) rest n h e = ground (arith, half_of-lt kind a)
try_label-lt kind (err _) rest n h e = h n e

resolve_pseudo-lt :
    (kind : Half) (line : ℕ) (r : Parsed ℤ) (n : ℕ) → resolve_pseudo kind line r ≡ ok n → n < 2 ^ 16
unfolding resolve_pseudo
resolve_pseudo-lt kind line (ok a) n e = ground (arith, half_of-lt kind a)
resolve_pseudo-lt kind line (err _) n e = cc

resolve_number-lt :
    (t : Text) (line : ℕ) (d : Option (Dict ℕ)) (k : Option Half) (signed : Bool) (n : ℕ)
    → resolve_number t line d k 16 signed ≡ ok n
    → n < 2 ^ 16
unfolding resolve_number
resolve_number-lt t line none k signed n h = parse_immediate-lt t line 16 signed n h
resolve_number-lt t line (some d) k signed n h = elim (Bool-cases (looks_numeric t)) [
  | inl numeric ↦ parse_immediate-lt t line 16 signed n (rw numeric at h)
  | inr other ↦
      try_label-lt (kind_or_hi k) (eval_label_expr t d) (parse_immediate t line 16 signed) n
        (λ m e. parse_immediate-lt t line 16 signed m e) (rw other at h)
]

resolve_direct-lt :
    (t : Text) (line : ℕ) (d : Option (Dict ℕ)) (k : Option Half) (signed : Bool) (n : ℕ)
    → resolve_direct t line d k 16 signed ≡ ok n
    → n < 2 ^ 16
unfolding resolve_direct
resolve_direct-lt t line d none signed n h = resolve_number-lt t line d none signed n h
resolve_direct-lt t line none (some k) signed n h = ground arith
resolve_direct-lt t line (some d) (some k) signed n h =
    try_label-lt k (eval_label_expr t d) (resolve_number t line (some d) (some k) 16 signed) n
      (λ m e. resolve_number-lt t line (some d) (some k) signed m e) h

resolve_match-lt :
    (p : Option (Half × Text)) (t : Text) (line : ℕ) (d : Option (Dict ℕ)) (k : Option Half)
    (signed : Bool) (n : ℕ)
    → resolve_match p t line d k 16 signed ≡ ok n
    → n < 2 ^ 16
unfolding resolve_match
resolve_match-lt none t line d k signed n h = resolve_direct-lt t line d k signed n h
resolve_match-lt (some (half, expr)) t line none k signed n h = ground arith
resolve_match-lt (some (half, expr)) t line (some d) k signed n h =
    resolve_pseudo-lt half line (eval_label_expr expr d) n h

-- Under a width of 16 bits, whatever a resolved operand comes from (an explicit half, a label, or a
-- literal), it is below 2 ** 16.
pub resolve_imm_or_pseudo-lt :
    (t : Text) (line : ℕ) (d : Option (Dict ℕ)) (k : Option Half) (signed : Bool) (n : ℕ)
    → resolve_imm_or_pseudo t line d k 16 signed ≡ ok n
    → n < 2 ^ 16
unfolding resolve_imm_or_pseudo
resolve_imm_or_pseudo-lt t line d k signed n h =
    resolve_match-lt (pseudo_match (strip t)) (strip t) line d k signed n h
