-- ===== src/Text/Number.antt =====
-- Python's `int(text, base)` for the bases 2, 10 and 16: outer white space, a sign, the base's prefix,
-- and digits with single underscores between them. `none` is the ValueError.
use procesador_32_bits.Base.{
  ◌&&◌, not, ℕ, ◌+◌, ◌-◌, ◌*◌, Bool, true, false, [], ◌∷◌, Option, none, some, ◌==◌, ltb,
  if◌then◌else◌,
}
use procesador_32_bits.Base.Int.{ℤ, pos, negate}
use procesador_32_bits.Text.{Text, codes, within, is_digit, lower_code, lower, strip, starts_with}

unfoldable pub digit_value : ℕ → Option ℕ
unfolding is_digit lower_code
digit_value c =
    if is_digit c
    then some (c - b'0')
    else if within b'a' b'z' (lower_code c)
    then some (lower_code c - b'a' + 10)
    else none

-- The value so far and whether a digit must follow, after one more character.
next_digit : ℕ → ℕ → Bool → ℕ → Option (ℕ × Bool)
unfolding digit_value
next_digit base acc must c =
    if c == b'_' then (if must then none else some (acc, true)) else elim (digit_value c) [
      | none ↦ none
      | some d ↦ if ltb d base then some (acc * base + d, false) else none
    ]

unfoldable pub scan_digits : ℕ → ℕ → Bool → Text → Option ℕ
unfolding next_digit
scan_digits base acc must [] = if must then none else some acc
scan_digits base acc must (c ∷ s) = elim (next_digit base acc must c) [
  | none ↦ none
  | some (acc', must') ↦ scan_digits base acc' must' s
]

-- The letter of the prefix of a base; 0 for none.
abbrev prefix_letter : ℕ → ℕ
prefix_letter base = if base == 16 then b'x' else if base == 2 then b'b' else 0

drop_underscore : Text → Text
drop_underscore [] = []
drop_underscore (c ∷ s) = if c == b'_' then s else c ∷ s

drop_prefix : ℕ → Text → Text
unfolding lower_code drop_underscore
drop_prefix base (z ∷ x ∷ s) =
    if z == b'0' && not (prefix_letter base == 0)
    then (if lower_code x == prefix_letter base then drop_underscore s else z ∷ x ∷ s)
    else z ∷ x ∷ s
drop_prefix base s = s

unsigned : ℕ → Text → Option ℕ
unfolding drop_prefix scan_digits
unsigned base s = scan_digits base 0 true (drop_prefix base s)

abbrev signed_as : (ℕ → ℤ) → Option ℕ → Option ℤ
signed_as f none = none
signed_as f (some n) = some (f n)

after_sign : ℕ → Text → Option ℤ
unfolding unsigned
after_sign base [] = none
after_sign base (c ∷ s) =
    if c == b'-'
    then signed_as (λ n. negate (pos n)) (unsigned base s)
    else if c == b'+'
    then signed_as pos (unsigned base s)
    else signed_as pos (unsigned base (c ∷ s))

unfoldable pub int : ℕ → Text → Option ℤ
unfolding after_sign strip
int base s = after_sign base (strip s)

-- The literal that parse_immediate, _parse_int_val and _try_parse_int_val read: 0xHEX, 0bBIN, or
-- decimal. The callers have stripped the text.
unfoldable pub parse_int : Text → Option ℤ
unfolding int lower starts_with
parse_int token =
    if starts_with (codes "0x") (lower token)
    then int 16 token
    else if starts_with (codes "0b") (lower token)
    then int 2 token
    else int 10 token

-- int(digits) and int(digits, 16) of what `\d+` or `0x[0-9a-fA-F]+` matched, which cannot fail.
unfoldable pub digits_value : ℕ → ℕ → Text → ℕ
unfolding digit_value
digits_value base acc [] = acc
digits_value base acc (c ∷ s) =
    digits_value base (acc * base + elim (digit_value c) [ none ↦ 0 | some d ↦ d ]) s
