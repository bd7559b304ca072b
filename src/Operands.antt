-- ===== src/Operands.antt =====
-- `parse_register`, `parse_special_register`, `parse_immediate` and `normalize_label` of
-- Ensamblador/assembler.py.
pub mod Bounds
use procesador_32_bits.Base.{
  is_some, ℕ, ◌+◌, ◌-◌, ◌^◌, Bool, true, false, not, ◌&&◌, ◌||◌, [], ◌∷◌, Option, none, some, ◌==◌,
  leb, if◌then◌else◌,
}
use procesador_32_bits.Base.Int.{ℤ, pos, negsuc, low_bits}
use procesador_32_bits.Base.Result.{Result, ok, err, ◌>>=◌}
use procesador_32_bits.Text.{is_quote, Text, codes, within, is_digit, is_letter, upper, strip}
use procesador_32_bits.Text.Regex.{one, many, at_end}
use procesador_32_bits.Text.Number.{parse_int}
use procesador_32_bits.Errors.{
  Parsed, raise_at, bad_register, bad_special_register, bad_immediate, out_of_signed_range,
  out_of_range,
}

-- int of what (1[0-5]|[0-9]) matches, and of nothing else
register_number : Text → Option ℕ
unfolding is_digit
register_number (d ∷ []) = if is_digit d then some (d - b'0') else none
register_number (t ∷ d ∷ []) =
    if t == b'1' && within b'0' b'5' d then some (10 + (d - b'0')) else none
register_number _ = none

unfoldable pub after_letters : Text → Text → Option ℕ
unfolding register_number
after_letters [] s = register_number s
after_letters (l ∷ letters) [] = none
after_letters (l ∷ letters) (c ∷ s) =
    let rest = after_letters letters s in if c == l then rest else none

unfoldable pub parse_register : Text → ℕ → Parsed ℕ
unfolding after_letters strip upper
parse_register token line_num =
    let token = upper (strip token) in
    elim (after_letters (codes "R") token) [
      | none ↦ raise_at line_num (bad_register token)
      | some n ↦ ok n
    ]

unfoldable pub parse_special_register : Text → ℕ → Parsed ℕ
unfolding after_letters strip upper
parse_special_register token line_num =
    let token = upper (strip token) in
    elim (after_letters (codes "SR") token) [
      | none ↦ raise_at line_num (bad_special_register token)
      | some n ↦ ok n
    ]

-- The range test of parse_immediate, and the two's complement of a negative value.
unfoldable pub fit_immediate : ℤ → ℕ → ℕ → Bool → Parsed ℕ
fit_immediate (pos n) line_num bits signed =
    if leb n (2 ^ bits - 1)
    then ok n
    else raise_at line_num
        (if signed then out_of_signed_range (pos n) bits else out_of_range (pos n) bits)
fit_immediate (negsuc n) line_num bits true =
    if leb (n + 1) (2 ^ (bits - 1))
    then ok (low_bits bits (negsuc n))
    else raise_at line_num (out_of_signed_range (negsuc n) bits)
fit_immediate (negsuc n) line_num bits false = raise_at line_num (out_of_range (negsuc n) bits)

accept_immediate : Option ℤ → Text → ℕ → ℕ → Bool → Parsed ℕ
unfolding fit_immediate
accept_immediate none token line_num bits signed = raise_at line_num (bad_immediate token)
accept_immediate (some value) token line_num bits signed = fit_immediate value line_num bits signed

unfoldable pub parse_immediate : Text → ℕ → ℕ → Bool → Parsed ℕ
unfolding strip parse_int accept_immediate
parse_immediate token line_num bits signed =
    accept_immediate (parse_int (strip token)) (strip token) line_num bits signed

-- [A-Za-z_] and [A-Za-z0-9_.@$]
abbrev label_start : ℕ → Bool
label_start c = is_letter c || c == b'_'

abbrev label_rest : ℕ → Bool
label_rest c = is_letter c || is_digit c || c == b'_' || c == b'.' || c == b'@' || c == b'$'

-- _LABEL_PLAIN_RE
plain_label : Text → Option (Unit {0})
unfolding one many at_end is_letter is_digit
plain_label = one label_start (many label_rest (λ _. at_end tt))

-- _LABEL_LOCAL_RE
local_label : Text → Option (Unit {0})
unfolding plain_label
local_label = one (λ c. c == b'.') plain_label

-- _LABEL_QUOTED_RE: the text between the quotes
unfoldable pub quoted_label : Text → Option Text
unfolding one many at_end
quoted_label = one is_quote (many (λ c. not (is_quote c)) (λ name. one is_quote (at_end name)))

unfoldable pub normalize_label : Text → Option Text
unfolding strip quoted_label local_label
normalize_label raw =
    let raw = strip raw in
    elim (quoted_label raw) [
      | some name ↦ some name
      | none ↦ if is_some (plain_label raw) || is_some (local_label raw) then some raw else none
    ]

is_valid_label_name : Text → Bool
unfolding normalize_label
is_valid_label_name token = is_some (normalize_label token)
