-- ===== src/Lexer.antt =====
-- `tokenize_line` and `_decode_c_string` of Ensamblador/assembler.py.
pub mod Strings
use procesador_32_bits.Base.{
  ℕ, ◌+◌, ◌-◌, ◌*◌, ◌%◌, Bool, true, false, not, ◌&&◌, ◌||◌, List, [], ◌∷◌, ◌++◌, ◌==◌, ltb,
  if◌then◌else◌,
}
use procesador_32_bits.Text.{Text, within, before, strip}

-- raw_line.split(';')[0].strip()
unfoldable pub code_part : Text → Text
unfolding before strip
code_part raw_line = strip (before b';' raw_line)

abbrev pub is_separator : ℕ → Bool
is_separator c = c == b' ' || c == b'\t' || c == b','

-- if buf: tokens.append(buf)
abbrev pub flush_token : Text → List Text → List Text
flush_token [] tokens = tokens
flush_token (c ∷ buf) tokens = (c ∷ buf) ∷ tokens

-- The loop over the code. `quoted` is true between a quote and the one that closes it, or the end if
-- none does; all that stands there goes to the token.
unfoldable pub tokenize_from : Bool → Text → Text → List Text
tokenize_from quoted buf [] = flush_token buf []
tokenize_from quoted buf (c ∷ s) = elim (is_separator c && not quoted) [
  | true ↦ flush_token buf (tokenize_from false [] s)
  | false ↦ tokenize_from (if c == b'"' then not quoted else quoted) (buf ++ c ∷ []) s
]

unfoldable pub tokenize_line : Text → List Text
unfolding code_part tokenize_from
tokenize_line raw_line = tokenize_from false [] (code_part raw_line)

-- Where the loop of _decode_c_string stands: at a character, behind a backslash, or behind some octal
-- digits (their number and value).
pub data Place : Type 0 where
  at_char after_backslash : Place
  in_octal : ℕ → ℕ → Place

unfoldable pub is_octal : ℕ → Bool
is_octal c = within b'0' b'7' c

unfoldable pub decode_plain : ℕ → Place × List ℕ
decode_plain c = if c == b'\\' then (after_backslash, []) else (at_char, c ∷ [])

-- The dictionary `escapes`, and the cases behind it.
unfoldable pub decode_escape : ℕ → Place × List ℕ
unfolding is_octal
decode_escape c =
    if c == b'n'
    then (at_char, 0x0A ∷ [])
    else if c == b't'
    then (at_char, 0x09 ∷ [])
    else if c == b'r'
    then (at_char, 0x0D ∷ [])
    else if c == b'a'
    then (at_char, 0x07 ∷ [])
    else if c == b'b'
    then (at_char, 0x08 ∷ [])
    else if c == b'f'
    then (at_char, 0x0C ∷ [])
    else if c == b'v'
    then (at_char, 0x0B ∷ [])
    else if is_octal c
    then (in_octal 1 (c - b'0'), [])
    else (at_char, c ∷ [])

-- The place after a character, and the bytes that it completes.
unfoldable pub decode_char : Place → ℕ → Place × List ℕ
unfolding decode_plain decode_escape
decode_char at_char c = decode_plain c
decode_char after_backslash c = decode_escape c
decode_char (in_octal k v) c =
    if is_octal c && ltb k 3
    then (in_octal (k + 1) (v * 8 + (c - b'0')), [])
    else ((decode_plain c).0, v % 256 ∷ (decode_plain c).1)

-- The bytes that stand open at the end; a last backslash stands for itself.
unfoldable pub decode_end : Place → List ℕ
decode_end at_char = []
decode_end after_backslash = b'\\' ∷ []
decode_end (in_octal k v) = v % 256 ∷ []

unfoldable pub decode_from : Place → Text → List ℕ
unfolding decode_char decode_end
decode_from p [] = decode_end p
decode_from p (c ∷ s) = (decode_char p c).1 ++ decode_from (decode_char p c).0 s

-- s[:-1]
abbrev pub drop_last : Text → Text
drop_last [] = []
drop_last (c ∷ []) = []
drop_last (c ∷ d ∷ s) = c ∷ drop_last (d ∷ s)

-- quoted[1:-1]
abbrev pub inside_quotes : Text → Text
inside_quotes [] = []
inside_quotes (c ∷ s) = drop_last s

-- The code points; a bytearray refuses those above 255, which `do_string` of the first pass sees to.
unfoldable pub decode_c_string : Text → List ℕ
unfolding decode_from
decode_c_string quoted = decode_from at_char (inside_quotes quoted)
