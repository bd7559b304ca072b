-- ===== src/Encode/Formats.antt =====
-- What the functions of the formats return: the word holds the operands that were written, under the
-- opcode of the mnemonic and the type of the prefix.
use procesador_32_bits.Base.{
  refl, none, some, ℕ, ◌+◌, ◌*◌, ◌^◌, ◌<◌, ◌≡◌, bit_or_low, ◌<<◌, true, List, [], ◌∷◌, Option, some,
  arith,
}
use procesador_32_bits.Base.Result.{ok, bind-eq-ok}
use procesador_32_bits.Text.{Text, upper, strip}
use procesador_32_bits.Dict
use procesador_32_bits.Dict.{Dict}
use procesador_32_bits.Errors.{Parsed}
use procesador_32_bits.Isa.{Mnemonic, opcode, build_word, conditions}
use procesador_32_bits.Isa.Fields.{
  IsWord, tipo_of, opcode_of, operands_of, reg_a_of, reg_b_of, imm_of, opcode-lt, two_fields,
  build_word_operands,
}
use procesador_32_bits.Operands.{parse_register, parse_special_register, parse_immediate}
use procesador_32_bits.Operands.Bounds.{
  parse_register-lt, parse_special_register-lt, parse_immediate-lt,
}
use procesador_32_bits.Expression.{resolve_imm_or_pseudo}
use procesador_32_bits.Expression.Bounds.{resolve_imm_or_pseudo-lt}
use procesador_32_bits.Encode.{
  Prefix, immediate_half, immediate_signed, condition_or, read_condition, no_operands,
  three_registers, register_a, register_b, register_immediate, condition_register, memory_operands,
  from_special, to_special,
}
use procesador_32_bits.Encode.Decode.{
  bare, regs_abc, reg_a, reg_b, reg_imm, cond_reg, memory, special_reg, reg_special, Holds,
}

-- The three fields that every format has.
abbrev pub Header : Mnemonic → ℕ → ℕ → Type 0
Header m tipo w = IsWord w × (tipo_of w ≡ tipo) × (opcode_of w ≡ opcode m)

reread : {r : Parsed ℕ} {x y : ℕ} → r ≡ ok x → y ≡ x → r ≡ ok y
reread h e = rw (e, h)

conditions-lt : (k : Text) {c : ℕ} → Dict.get conditions k ≡ some c → c < 2 ^ 4
conditions-lt k = Dict.get-All (λ c. c < 2 ^ 4) conditions k (omega arith)

condition_or-lt :
    (o : Option ℕ) (r : Parsed ℕ) {n : ℕ}
    → ((c : ℕ) → o ≡ some c → c < 2 ^ 4)
    → (r ≡ ok n → n < 2 ^ 4)
    → condition_or o r ≡ ok n
    → n < 2 ^ 4
condition_or-lt none r found other h = other h
condition_or-lt (some c) r found other h = ground (arith, found c refl)

read_condition-lt : (t : Text) (line : ℕ) {n : ℕ} → read_condition t line ≡ ok n → n < 2 ^ 4
read_condition-lt t line =
    condition_or-lt (Dict.get conditions (upper (strip t))) _ (λ c. conditions-lt (upper (strip t)))
      (condition_or-lt (Dict.get conditions (strip t)) _ (λ c. conditions-lt (strip t))
        (λ h. absurd (cc)))

module _ (m : Mnemonic) (p : Prefix) (line : ℕ) (d : Option (Dict ℕ)) (w : ℕ) where
  built :
      (tipo a b r x : ℕ)
      → tipo < 2 ^ 3
      → a < 2 ^ 4
      → b < 2 ^ 4
      → r < 2 ^ 16
      → x ≡ a * 2 ^ 20 + b * 2 ^ 16 + r
      → ◌≡◌ {A = Parsed ℕ} (ok (build_word tipo (opcode m) x)) (ok w)
      → Header m tipo w × (operands_of w ≡ x) × (reg_a_of w ≡ a) × (reg_b_of w ≡ b) × (imm_of w ≡ r)
  built tipo a b r x ht ha hb hr e h =
      let f = build_word_operands tipo (opcode m) a b r x ht (opcode-lt m) ha hb hr e (cc h) in
      ((f.0, f.1, f.2), f.3, f.4, f.5, f.6)

  pub no_operands-Holds :
      (args : List Text)
      → no_operands m p args line ≡ ok w
      → Header m 0 w × Holds m p line d w bare args
  unfolding no_operands
  no_operands-Holds [] h =
      let f =
        built 0 0 0 0 0 (omega arith) (omega arith) (omega arith) (omega arith) (omega arith) h in
      (f.0, f.1)
  no_operands-Holds (a ∷ args) h = absurd (cc)

  pub three_registers-Holds :
      (args : List Text)
      → p.tipo < 2 ^ 3
      → three_registers m p args line ≡ ok w
      → Header m p.tipo w × Holds m p line d w regs_abc args
  unfolding three_registers
  three_registers-Holds (a ∷ b ∷ c ∷ []) fits h =
      let (ra, ea, h1) = bind-eq-ok (parse_register a line) _ h in
      let (rb, eb, h2) = bind-eq-ok (parse_register b line) _ h1 in
      let (rc, ec, h3) = bind-eq-ok (parse_register c line) _ h2 in
      let lt_b = parse_register-lt b line rb eb in
      let lt_c = parse_register-lt c line rc ec in
      let f =
        built p.tipo ra rb (rc << 12) _ fits (parse_register-lt a line ra ea) lt_b (omega arith)
          (two_fields ra rb (rc << 12) lt_b (omega arith)) h3 in
      (f.0, (reread ea f.2, reread eb f.3, reread ec (omega (arith, f.4))))
  three_registers-Holds _ fits h = absurd (cc)

  pub register_a-Holds :
      (args : List Text)
      → register_a m p args line ≡ ok w
      → Header m 0 w × Holds m p line d w reg_a args
  unfolding register_a
  register_a-Holds (a ∷ []) h =
      let (ra, ea, h1) = bind-eq-ok (parse_register a line) _ h in
      let f =
        built 0 ra 0 0 _ (omega arith) (parse_register-lt a line ra ea) (omega arith) (omega arith)
          (omega arith) h1 in
      (f.0, reread ea f.2)
  register_a-Holds _ h = absurd (cc)

  pub register_b-Holds :
      (args : List Text)
      → register_b m p args line ≡ ok w
      → Header m 0 w × Holds m p line d w reg_b args
  unfolding register_b
  register_b-Holds (b ∷ []) h =
      let (rb, eb, h1) = bind-eq-ok (parse_register b line) _ h in
      let f =
        built 0 0 rb 0 _ (omega arith) (omega arith) (parse_register-lt b line rb eb) (omega arith)
          (omega arith) h1 in
      (f.0, reread eb f.3)
  register_b-Holds _ h = absurd (cc)

  pub register_immediate-Holds :
      (args : List Text)
      → p.tipo < 2 ^ 3
      → register_immediate m p args line d ≡ ok w
      → Header m p.tipo w × Holds m p line d w reg_imm args
  unfolding register_immediate
  register_immediate-Holds (a ∷ i ∷ []) fits h =
      let (ra, ea, h1) = bind-eq-ok (parse_register a line) _ h in
      let (imm, ei, h2) =
        bind-eq-ok (resolve_imm_or_pseudo i line d (immediate_half m p) 16 (immediate_signed m)) _
          h1 in
      let lt = resolve_imm_or_pseudo-lt i line d (immediate_half m p) (immediate_signed m) imm ei in
      let f =
        built p.tipo ra 0 imm _ fits (parse_register-lt a line ra ea) (omega arith) lt
          (omega (arith, bit_or_low 20 ra imm (omega arith))) h2 in
      (f.0, (reread ea f.2, reread ei f.4))
  register_immediate-Holds _ fits h = absurd (cc)

  pub condition_register-Holds :
      (args : List Text)
      → condition_register m p args line ≡ ok w
      → Header m 0 w × Holds m p line d w cond_reg args
  unfolding condition_register
  condition_register-Holds (c ∷ b ∷ []) h =
      let (cond, ec, h1) = bind-eq-ok (read_condition c line) _ h in
      let (rb, eb, h2) = bind-eq-ok (parse_register b line) _ h1 in
      let lt_b = parse_register-lt b line rb eb in
      let f =
        built 0 cond rb 0 _ (omega arith) (read_condition-lt c line ec) lt_b (omega arith)
          (omega (arith, bit_or_low 20 cond (rb << 16) (omega arith))) h2 in
      (f.0, (reread ec f.2, reread eb f.3))
  condition_register-Holds _ h = absurd (cc)

  pub memory_operands-Holds :
      (args : List Text)
      → p.tipo < 2 ^ 3
      → memory_operands m p args line ≡ ok w
      → Header m p.tipo w × Holds m p line d w memory args
  unfolding memory_operands
  memory_operands-Holds (a ∷ b ∷ o ∷ []) fits h =
      let (ra, ea, h1) = bind-eq-ok (parse_register a line) _ h in
      let (rb, eb, h2) = bind-eq-ok (parse_register b line) _ h1 in
      let (offset, eo, h3) = bind-eq-ok (parse_immediate o line 16 true) _ h2 in
      let lt_b = parse_register-lt b line rb eb in
      let lt_o = parse_immediate-lt o line 16 true offset eo in
      let f =
        built p.tipo ra rb offset _ fits (parse_register-lt a line ra ea) lt_b lt_o
          (two_fields ra rb offset lt_b lt_o) h3 in
      (f.0, (reread ea f.2, reread eb f.3, reread eo f.4))
  memory_operands-Holds _ fits h = absurd (cc)

  pub from_special-Holds :
      (args : List Text)
      → from_special m p args line ≡ ok w
      → Header m 0 w × Holds m p line d w special_reg args
  unfolding from_special
  from_special-Holds (c ∷ a ∷ []) h =
      let (rc, ec, h1) = bind-eq-ok (parse_special_register c line) _ h in
      let (ra, ea, h2) = bind-eq-ok (parse_register a line) _ h1 in
      let lt_a = parse_register-lt a line ra ea in
      let f =
        built 0 rc ra 0 _ (omega arith) (parse_special_register-lt c line rc ec) lt_a (omega arith)
          (omega (arith, bit_or_low 20 rc (ra << 16) (omega arith))) h2 in
      (f.0, (reread ec f.2, reread ea f.3))
  from_special-Holds _ h = absurd (cc)

  pub to_special-Holds :
      (args : List Text)
      → to_special m p args line ≡ ok w
      → Header m 0 w × Holds m p line d w reg_special args
  unfolding to_special
  to_special-Holds (a ∷ c ∷ []) h =
      let (ra, ea, h1) = bind-eq-ok (parse_register a line) _ h in
      let (rc, ec, h2) = bind-eq-ok (parse_special_register c line) _ h1 in
      let lt_c = parse_special_register-lt c line rc ec in
      let f =
        built 0 ra rc 0 _ (omega arith) (parse_register-lt a line ra ea) lt_c (omega arith)
          (omega (arith, bit_or_low 20 ra (rc << 16) (omega arith))) h2 in
      (f.0, (reread ea f.2, reread ec f.3))
  to_special-Holds _ h = absurd (cc)
