-- ===== src/Encode/Words.antt =====
-- What `encode_single` returns: by the prefix and the format of the mnemonic, the word is an encoding of
-- the tokens.
use procesador_32_bits.Base.{◌∙◌, refl, none, some, ℕ, ◌≡◌, List, Option, some}
use mathlib.Core.Path.{sym}
use procesador_32_bits.Base.Result.{ok, bind-eq-ok}
use procesador_32_bits.Text.{Text}
use procesador_32_bits.Dict
use procesador_32_bits.Dict.{Dict}
use procesador_32_bits.Isa.{
  Mnemonic, mnemonics, nop, hlt, gof, ldi, adi, jmp, brh, cal, ret, lod, str, cye, cyr, scl, srt,
}
use procesador_32_bits.Encode.Prefixes.{IsRead, read_prefix-IsRead, check_prefix-bare}
use procesador_32_bits.Encode.{
  encode_operands, encode_single, read_prefix, check_prefix, find_mnemonic, check_prefix,
  find_mnemonic, read_prefix, encode_single, Prefix,
}
use procesador_32_bits.Encode.Decode.{format, Encodes, Holds}
use procesador_32_bits.Encode.Formats.{
  Header, no_operands-Holds, three_registers-Holds, register_a-Holds, register_b-Holds,
  register_immediate-Holds, condition_register-Holds, memory_operands-Holds, from_special-Holds,
  to_special-Holds,
}

module _ (p : Prefix) (line : ℕ) (d : Option (Dict ℕ)) (w : ℕ) (r : IsRead p) where
  -- For the formats whose word ignores the prefix the check has refused every prefix.
  encodes_bare :
      (m : Mnemonic)
      → p.tipo ≡ 0
      → Header m 0 w × Holds m p line d w (format m) p.args
      → Encodes m p line d w
  encodes_bare m e h = record { word = h.0.0; tipo = h.0.1 ∙ sym e; code = h.0.2; operands = h.1 }

  encodes_typed :
      (m : Mnemonic)
      → Header m p.tipo w × Holds m p line d w (format m) p.args
      → Encodes m p line d w
  encodes_typed m h = record { word = h.0.0; tipo = h.0.1; code = h.0.2; operands = h.1 }

  encode_operands-Encodes :
      (m : Mnemonic)
      → check_prefix p m line ≡ ok tt
      → encode_operands m p line d ≡ ok w
      → Encodes m p line d w
  unfolding encode_operands
  encode_operands-Encodes gof c h =
      encodes_bare gof (check_prefix-bare p gof line r refl refl refl c)
        (register_a-Holds gof p line d w p.args h)
  encode_operands-Encodes jmp c h =
      encodes_bare jmp (check_prefix-bare p jmp line r refl refl refl c)
        (register_b-Holds jmp p line d w p.args h)
  encode_operands-Encodes cal c h =
      encodes_bare cal (check_prefix-bare p cal line r refl refl refl c)
        (register_b-Holds cal p line d w p.args h)
  encode_operands-Encodes brh c h =
      encodes_bare brh (check_prefix-bare p brh line r refl refl refl c)
        (condition_register-Holds brh p line d w p.args h)
  encode_operands-Encodes cye c h =
      encodes_bare cye (check_prefix-bare p cye line r refl refl refl c)
        (from_special-Holds cye p line d w p.args h)
  encode_operands-Encodes cyr c h =
      encodes_bare cyr (check_prefix-bare p cyr line r refl refl refl c)
        (to_special-Holds cyr p line d w p.args h)
  encode_operands-Encodes nop c h =
      encodes_bare nop (check_prefix-bare p nop line r refl refl refl c)
        (no_operands-Holds nop p line d w p.args h)
  encode_operands-Encodes hlt c h =
      encodes_bare hlt (check_prefix-bare p hlt line r refl refl refl c)
        (no_operands-Holds hlt p line d w p.args h)
  encode_operands-Encodes ret c h =
      encodes_bare ret (check_prefix-bare p ret line r refl refl refl c)
        (no_operands-Holds ret p line d w p.args h)
  encode_operands-Encodes scl c h =
      encodes_bare scl (check_prefix-bare p scl line r refl refl refl c)
        (no_operands-Holds scl p line d w p.args h)
  encode_operands-Encodes srt c h =
      encodes_bare srt (check_prefix-bare p srt line r refl refl refl c)
        (no_operands-Holds srt p line d w p.args h)
  encode_operands-Encodes ldi c h =
      encodes_typed ldi (register_immediate-Holds ldi p line d w p.args r.tipo-lt h)
  encode_operands-Encodes adi c h =
      encodes_typed adi (register_immediate-Holds adi p line d w p.args r.tipo-lt h)
  encode_operands-Encodes lod c h =
      encodes_typed lod (memory_operands-Holds lod p line d w p.args r.tipo-lt h)
  encode_operands-Encodes str c h =
      encodes_typed str (memory_operands-Holds str p line d w p.args r.tipo-lt h)
  encode_operands-Encodes m c h =
      encodes_typed m (three_registers-Holds m p line d w p.args r.tipo-lt h)

find_mnemonic-ok :
    (o : Option Mnemonic) (t : Text) (line : ℕ) {m : Mnemonic}
    → find_mnemonic o t line ≡ ok m
    → o ≡ some m
unfolding find_mnemonic
find_mnemonic-ok none t line h = absurd (cc)
find_mnemonic-ok (some m) t line h = cc

-- The tokens read as a prefix and a known mnemonic, and `w` is the encoding of both.
abbrev pub IsEncoding : List Text → ℕ → Option (Dict ℕ) → ℕ → Type 0
IsEncoding tokens line d w =
    (p : Prefix) × (m : Mnemonic) × (read_prefix tokens line ≡ ok p)
    × (Dict.get mnemonics p.mnemonic ≡ some m)
    × Encodes m p line d w

-- A word that `encode_single` returns fits 32 bits, has the type of the prefix and the opcode of the
-- mnemonic, and holds in its fields exactly what the operand texts of the format stand for.
pub encode_single-Encodes :
    (tokens : List Text) (line : ℕ) (d : Option (Dict ℕ)) (w : ℕ)
    → encode_single tokens line d ≡ ok w
    → IsEncoding tokens line d w
unfolding encode_single
encode_single-Encodes tokens line d w h =
    let (p, ep, h1) = bind-eq-ok (read_prefix tokens line) _ h in
    let (m, em, h2) =
      bind-eq-ok (find_mnemonic (Dict.get mnemonics p.mnemonic) p.mnemonic line) _ h1 in
    let (u, ec, h3) = bind-eq-ok (check_prefix p m line) _ h2 in
    let known = find_mnemonic-ok (Dict.get mnemonics p.mnemonic) p.mnemonic line em in
    (
      p,
      m,
      ep,
      known,
      encode_operands-Encodes p line d w (read_prefix-IsRead tokens line ep) m ec h3,
    )
