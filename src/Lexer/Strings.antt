-- ===== src/Lexer/Strings.antt =====
-- `_decode_c_string` undoes a printer of C strings.
use procesador_32_bits.Base.{
  ℕ, ◌+◌, ◌*◌, ◌/◌, ◌%◌, ◌<◌, ◌≡◌, refl, ap, ◌∙◌, true, inl, inr, Bool-cases, ◌||◌, List, [], ◌∷◌,
  ◌++◌, arith, ◌==◌, ==_iff, ◌⊎◌, All, if◌then◌else◌,
}
use procesador_32_bits.Text.{Text, within}
use procesador_32_bits.Lexer.{
  Place, at_char, after_backslash, in_octal, decode_plain, decode_escape, decode_char, decode_from,
  drop_last, decode_c_string,
}

-- The printer: quotes and backslashes behind a backslash, printable characters as they are, some
-- control characters by their letter, and any other byte as three octal digits.
escape_control : ℕ → Text
escape_control b =
    if b == 10
    then b'\\' ∷ b'n' ∷ []
    else if b == 9
    then b'\\' ∷ b't' ∷ []
    else b'\\' ∷ (b'0' + b / 64) ∷ (b'0' + b / 8 % 8) ∷ (b'0' + b % 8) ∷ []

escape_byte : ℕ → Text
unfolding escape_control
escape_byte b =
    if b == b'"' || b == b'\\'
    then b'\\' ∷ b ∷ []
    else if within 32 126 b
    then b ∷ []
    else escape_control b

pub escape : List ℕ → Text
unfolding escape_byte
escape [] = []
escape (b ∷ bs) = escape_byte b ++ escape bs

abbrev pub quote : List ℕ → Text
quote bs = b'"' ∷ (escape bs ++ b'"' ∷ [])

-- Behind three octal digits the byte is complete.
decode_from-octal :
    (v : ℕ) (s : Text) → decode_from (in_octal 3 v) s ≡ v % 256 ∷ decode_from at_char s
unfolding decode_from
decode_from-octal v [] = refl
decode_from-octal v (c ∷ s) = ground arith

decode_escape-digit : (d : ℕ) → d < 8 → decode_escape (b'0' + d) ≡ (in_octal 1 d, [])
unfolding decode_escape
decode_escape-digit d h = ground arith

decode_char-digit :
    (k v d : ℕ)
    → k < 3
    → d < 8
    → decode_char (in_octal k v) (b'0' + d) ≡ (in_octal (k + 1) (v * 8 + d), [])
unfolding decode_char
decode_char-digit k v d hk h = ground arith

-- A character that completes no byte.
decode_from-silent :
    (p q : Place) (c : ℕ) (s : Text)
    → decode_char p c ≡ (q, [])
    → decode_from p (c ∷ s) ≡ decode_from q s
unfolding decode_from
decode_from-silent p q c s e = ap (λ (r : Place × List ℕ). r.1 ++ decode_from r.0 s) e

decode_digits :
    (b : ℕ) (s : Text)
    → b < 256
    → decode_from at_char (b'\\' ∷ (b'0' + b / 64) ∷ (b'0' + b / 8 % 8) ∷ (b'0' + b % 8) ∷ s)
      ≡ b ∷ decode_from at_char s
unfolding decode_char decode_plain
decode_digits b s h =
    let v = b / 64 * 8 + b / 8 % 8 in
    let value : (v * 8 + b % 8) % 256 ≡ b = omega arith in
    decode_from-silent at_char after_backslash b'\\' _ refl
    ∙ (decode_from-silent after_backslash (in_octal 1 (b / 64)) (b'0' + b / 64) _
          (decode_escape-digit (b / 64) (omega arith))
        ∙ (decode_from-silent (in_octal 1 (b / 64)) (in_octal 2 v) (b'0' + b / 8 % 8) _
              (decode_char-digit 1 (b / 64) (b / 8 % 8) (omega arith) (omega arith))
            ∙ (decode_from-silent (in_octal 2 v) (in_octal 3 (v * 8 + b % 8)) (b'0' + b % 8) s
                  (decode_char-digit 2 v (b % 8) (omega arith) (omega arith))
                ∙ (decode_from-octal (v * 8 + b % 8) s
                    ∙ ap (λ x. x ∷ decode_from at_char s) value))))

decode_control :
    (b : ℕ) (s : Text)
    → b < 256
    → decode_from at_char (escape_control b ++ s) ≡ b ∷ decode_from at_char s
unfolding escape_control decode_from
decode_control b s h = elim (Bool-cases (b == 10)) [
  | inl newline ↦ let e : b ≡ 10 = (==_iff b 10).0 newline in rw e
  | inr other ↦ elim (Bool-cases (b == 9)) [
    | inl tab ↦ let e : b ≡ 9 = (==_iff b 9).0 tab in rw e
    | inr rest ↦ rw (other, rest) (decode_digits b s h)
  ]
]

is_special : (b : ℕ) → (b == b'"' || b == b'\\') ≡ true → (b ≡ b'"') ⊎ (b ≡ b'\\')
is_special b h = ground arith

decode_escape_byte :
    (b : ℕ) (s : Text)
    → b < 256
    → decode_from at_char (escape_byte b ++ s) ≡ b ∷ decode_from at_char s
unfolding escape_byte decode_from
decode_escape_byte b s h = elim (Bool-cases (b == b'"' || b == b'\\')) [
  | inl special ↦ elim (is_special b special) [ inl e ↦ rw e | inr e ↦ rw e ]
  | inr plain ↦ elim (Bool-cases (within 32 126 b)) [
    | inl printable ↦ rw (plain, printable) (ground arith)
    | inr control ↦ rw (plain, control) (decode_control b s h)
  ]
]

decode_from-escape : (bs : List ℕ) → All (λ b. b < 256) bs → decode_from at_char (escape bs) ≡ bs
unfolding escape decode_from
decode_from-escape [] h = refl
decode_from-escape (b ∷ bs) h =
    decode_escape_byte b (escape bs) h.0 ∙ ap (λ l. b ∷ l) (decode_from-escape bs h.1)

drop_last-append : (s : Text) (c : ℕ) → drop_last (s ++ c ∷ []) ≡ s
drop_last-append [] c = refl
drop_last-append (d ∷ []) c = refl
drop_last-append (d ∷ e ∷ s) c = ap (λ l. d ∷ l) (drop_last-append (e ∷ s) c)

-- Any list of bytes, printed between quotes with its escapes, is decoded to itself.
pub decode_c_string-quote : (bs : List ℕ) → All (λ b. b < 256) bs → decode_c_string (quote bs) ≡ bs
unfolding decode_c_string
decode_c_string-quote bs h =
    ap (decode_from at_char) (drop_last-append (escape bs) b'"') ∙ decode_from-escape bs h
