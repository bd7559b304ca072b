-- ===== src/FirstPass/Start/Entry.antt =====
-- The words that the entry of `.start` stands for: the address of main in R15, and the jump.
use procesador_32_bits.Base.{
  ℕ, ◌≡◌, ap, List, [], ◌∷◌, Option, some, bit_or, ◌<<◌, arith, Bool, true, false,
}
use procesador_32_bits.Base.Int.{ℤ, pos}
use procesador_32_bits.Base.Result.{ok}
use procesador_32_bits.Text.{Text, codes, text_eq}
use procesador_32_bits.Dict
use procesador_32_bits.Dict.{Dict}
use procesador_32_bits.Isa.{build_word, opcode, ldi, adi}
use procesador_32_bits.Address.{compute_hi_lo}
use procesador_32_bits.Address.HiLo.{compute_hi_lo-lt}
use procesador_32_bits.Expression.{Half, eval_label_expr, resolve_imm_or_pseudo, half_of}
use procesador_32_bits.Encode.{encode_single, read_prefix, check_prefix, encode_operands}
use procesador_32_bits.Operands.{parse_register}

abbrev pub hi_tokens : List Text
hi_tokens = codes "H" ∷ codes "LDI" ∷ codes "R15" ∷ codes "%hi(main)" ∷ []

abbrev pub lo_tokens : List Text
lo_tokens = codes "SLT" ∷ codes "ADI" ∷ codes "R15" ∷ codes "%lo(main)" ∷ []

-- A half already fits 16 bits.
half_of_hi : (x : ℤ) → half_of Half.hi x ≡ (compute_hi_lo x).0
half_of_hi x = omega (arith, (compute_hi_lo-lt x).0)

half_of_lo : (x : ℤ) → half_of Half.lo x ≡ (compute_hi_lo x).1
half_of_lo x = omega (arith, (compute_hi_lo-lt x).1)

module _ (d : Dict ℕ) (a : ℕ) (e : Dict.get d (codes "main") ≡ some a) where
  eval_main : eval_label_expr (codes "main") d ≡ ok (pos a)
  unfolding eval_label_expr
  eval_main = rw e

  resolve_main_hi :
      (k : Option Half) (signed : Bool)
      → resolve_imm_or_pseudo (codes "%hi(main)") 0 (some d) k 16 signed
        ≡ ok (compute_hi_lo (pos a)).0
  unfolding resolve_imm_or_pseudo
  resolve_main_hi k signed = rw e (ap ok (half_of_hi (pos a)))

  pub encode_main_hi :
      encode_single hi_tokens 0 (some d)
      ≡ ok (build_word 4 (opcode ldi) (bit_or (15 << 20) (compute_hi_lo (pos a)).0))
  unfolding encode_single read_prefix text_eq Dict.get check_prefix encode_operands parse_register
  encode_main_hi = rw (resolve_main_hi (some Half.hi) false)

  resolve_main_lo :
      (k : Option Half) (signed : Bool)
      → resolve_imm_or_pseudo (codes "%lo(main)") 0 (some d) k 16 signed
        ≡ ok (compute_hi_lo (pos a)).1
  unfolding resolve_imm_or_pseudo
  resolve_main_lo k signed = rw e (ap ok (half_of_lo (pos a)))

  pub encode_main_lo :
      encode_single lo_tokens 0 (some d)
      ≡ ok (build_word 4 (opcode adi) (bit_or (15 << 20) (compute_hi_lo (pos a)).1))
  unfolding encode_single read_prefix text_eq Dict.get check_prefix encode_operands parse_register
  encode_main_lo = rw (resolve_main_lo (some Half.lo) true)
