-- ===== src/Text.antt =====
-- The methods of Python's `str` that Ensamblador/assembler.py calls. A text is the list of its
-- code points. White space, letter case and digits are those of ASCII.
pub mod Regex
pub mod Number
pub mod Format
pub mod Split
pub mod Equality
pub mod Keeps
use Prim.Native.Char.{code}
use Prim.Native.String.{String}
use procesador_32_bits.Base.{
  ℕ, ◌+◌, ◌-◌, Bool, true, false, ◌&&◌, ◌||◌, List, [], ◌∷◌, map, ◌==◌, leb, if◌then◌else◌,
}

abbrev pub Text : Type 0
Text = List ℕ

-- The code points of a literal.
abbrev pub codes : String → Text
codes String.[] = []
codes (String.◌∷◌ c s) = code c ∷ codes s

abbrev pub within : ℕ → ℕ → ℕ → Bool
within lo hi c = leb lo c && leb c hi

abbrev pub is_quote : ℕ → Bool
is_quote c = c == b'"'

-- str.isspace, and `\s`
unfoldable pub is_space : ℕ → Bool
is_space c = within 9 13 c || within 28 32 c

unfoldable pub is_digit : ℕ → Bool
is_digit c = within b'0' b'9' c

unfoldable pub is_letter : ℕ → Bool
is_letter c = within b'A' b'Z' c || within b'a' b'z' c

unfoldable pub is_hex_digit : ℕ → Bool
unfolding is_digit
is_hex_digit c = is_digit c || within b'a' b'f' c || within b'A' b'F' c

unfoldable pub upper_code : ℕ → ℕ
upper_code c = if within b'a' b'z' c then c - 32 else c

unfoldable pub lower_code : ℕ → ℕ
lower_code c = if within b'A' b'Z' c then c + 32 else c

unfoldable pub upper : Text → Text
unfolding upper_code
upper = map upper_code

unfoldable pub lower : Text → Text
unfolding lower_code
lower = map lower_code

-- s.lstrip of the characters that `p` accepts
unfoldable pub lstrip : (ℕ → Bool) → Text → Text
lstrip p [] = []
lstrip p (c ∷ s) = let rest = lstrip p s in if p c then rest else c ∷ s

abbrev pub put_unless : Bool → ℕ → Text → Text
put_unless b c [] = if b then [] else c ∷ []
put_unless b c (d ∷ s) = c ∷ d ∷ s

unfoldable pub rstrip : (ℕ → Bool) → Text → Text
rstrip p [] = []
rstrip p (c ∷ s) = put_unless (p c) c (rstrip p s)

-- s.strip()
unfoldable pub strip : Text → Text
unfolding is_space lstrip rstrip
strip s = rstrip is_space (lstrip is_space s)

unfoldable pub text_eq : Text → Text → Bool
text_eq [] [] = true
text_eq (c ∷ s) (d ∷ t) = c == d && text_eq s t
text_eq _ _ = false

-- s.startswith(prefix)
unfoldable pub starts_with : Text → Text → Bool
starts_with [] s = true
starts_with (c ∷ p) [] = false
starts_with (c ∷ p) (d ∷ s) = c == d && starts_with p s

-- s.isdigit()
all_digits : Text → Bool
unfolding is_digit
all_digits [] = true
all_digits (c ∷ s) = is_digit c && all_digits s

unfoldable pub is_numeric : Text → Bool
unfolding all_digits
is_numeric [] = false
is_numeric (c ∷ s) = all_digits (c ∷ s)

-- s.split(sep)[0]
unfoldable pub before : ℕ → Text → Text
before sep [] = []
before sep (c ∷ s) = let rest = before sep s in if c == sep then [] else c ∷ rest

abbrev cons_first : ℕ → List Text → List Text
cons_first c [] = (c ∷ []) ∷ []
cons_first c (w ∷ ws) = (c ∷ w) ∷ ws

-- s.split(sep)
unfoldable pub split : ℕ → Text → List Text
split sep [] = [] ∷ []
split sep (c ∷ s) = let rest = split sep s in if c == sep then [] ∷ rest else cons_first c rest
