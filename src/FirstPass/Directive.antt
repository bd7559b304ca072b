-- ===== src/FirstPass/Directive.antt =====
-- The regular expressions of the directives, and the order in which `first_pass` tries them on a line.
use procesador_32_bits.Base.{
  ℕ, Bool, not, ◌||◌, List, [], ◌∷◌, ◌++◌, Option, none, some, ◌==◌, if◌then◌else◌,
}
use procesador_32_bits.Text.{
  is_quote, Text, codes, is_space, is_letter, is_digit, starts_with, strip, lower, split,
}
use procesador_32_bits.Text.Regex.{
  or_else, one, word, many, many_one, spaces, number, at_end, is_dot,
}
use procesador_32_bits.Text.Number.{digits_value}
use procesador_32_bits.Lexer.{decode_c_string}
use procesador_32_bits.FirstPass.{Section, text, data_, bss}

pub data Directive : Type 0 where
  blank : Directive
  section : Section → Directive
  -- the symbol, the size and the alignment
  comm : Text → ℕ → ℕ → Directive
  align : ℕ → Directive
  long short byte : List Text → Directive
  ascii : List ℕ → Directive
  zeros : ℕ → Directive
  -- an instruction, a label, or a directive that is dropped
  other : Directive

-- `\b` behind a letter
unfoldable pub word_end : Text → Option (Unit {0})
unfolding is_letter is_digit
word_end [] = some tt
word_end (c ∷ s) = if is_letter c || is_digit c || c == b'_' then none else some tt

-- `^\s*(?:\.section\s+)?NAME\b`
unfoldable pub section_match : Text → Text → Option (Unit {0})
unfolding spaces word many_one is_space word_end
section_match name = spaces λ s.
    or_else (word (codes ".section") (many_one is_space (λ _. word name word_end)) s)
      (word name word_end s)

-- `(?:;.*)?$`
unfoldable pub comment_end {ℓ} : {R : Type ℓ} → R → Text → Option R
unfolding one many at_end
comment_end r s = or_else (one (λ c. c == b';') (many is_dot (λ _. at_end r)) s) (at_end r s)

abbrev pub is_x : ℕ → Bool
is_x c = c == b'x' || c == b'X'

-- _P2ALIGN_RE: the fill value is skipped
unfoldable pub align_match : Text → Option ℕ
unfolding spaces word many_one is_space is_digit number comment_end one digits_value
align_match = spaces λ s.
    let tail : Text → Option ℕ = many_one is_space (λ _. many_one is_digit (λ ds rest.
      let n = digits_value 10 0 ds in
      or_else
        (spaces (one (λ c. c == b',') (spaces (number is_x (λ _. spaces (comment_end n))))) rest)
        (spaces (comment_end n) rest))) in
    or_else (word (codes ".p2align") tail s) (word (codes ".align") tail s)

-- `\s+(.+)$`
unfoldable pub list_tail : Text → Option Text
unfolding many_one is_space at_end
list_tail = many_one is_space (λ _. many_one is_dot (λ vals. at_end vals))

-- _LONG_RE, _SHORT_RE and _BYTE_RE
unfoldable pub long_match : Text → Option Text
unfolding spaces word list_tail
long_match =
    spaces λ s. or_else (word (codes ".long") list_tail s) (word (codes ".word") list_tail s)

unfoldable pub short_match : Text → Option Text
unfolding spaces word list_tail
short_match = spaces (word (codes ".short") list_tail)

unfoldable pub byte_match : Text → Option Text
unfolding spaces word list_tail
byte_match = spaces (word (codes ".byte") list_tail)

-- `"\s*$`, behind the characters between the quotes
unfoldable pub string_close : Text → Text → Option Text
unfolding one spaces at_end
string_close inner = one is_quote (spaces (at_end (b'"' ∷ (inner ++ b'"' ∷ []))))

unfoldable pub string_open : Text → Option Text
unfolding one many string_close
string_open = one is_quote (many is_dot string_close)

-- `\s+(".*")\s*$`
unfoldable pub string_tail : Text → Option Text
unfolding many_one is_space string_open
string_tail = many_one is_space (λ _. string_open)

-- _ASCIZ_RE or _ASCII_RE
unfoldable pub string_match : Text → Option Text
unfolding spaces word string_tail
string_match s =
    or_else (spaces (word (codes ".asciz") string_tail) s)
      (spaces (word (codes ".ascii") string_tail) s)

-- _ZERO_RE, with the value of its group
unfoldable pub zero_match : Text → Option ℕ
unfolding spaces word many_one is_space number comment_end
zero_match = spaces λ s.
    let tail : Text → Option ℕ =
      many_one is_space (λ _. number is_x (λ n. spaces (comment_end n))) in
    or_else (word (codes ".zero") tail s)
      (or_else (word (codes ".space") tail s) (word (codes ".skip") tail s))

-- _COMM_RE, with the values of its groups; the alignment is 1 if there is none
unfoldable pub comm_match : Text → Option (Text × ℕ × ℕ)
unfolding spaces word many_one is_space one number comment_end
comm_match = spaces (
    word (codes ".comm") (
      many_one is_space (λ _.
        many_one (λ c. not (c == b',' || is_space c))
          (λ sym. spaces (
            one (λ c. c == b',')
              (spaces (
                number is_x (λ size rest.
                  or_else
                    (spaces
                      (one (λ c. c == b',')
                        (spaces (number is_x (λ align. spaces (comment_end (sym, size, align))))))
                      rest)
                    (spaces (comment_end (sym, size, 1)) rest)))))))))

-- [v.strip() for v in vals.split(',') if v.strip()]
abbrev pub keep_nonempty : Text → List Text → List Text
keep_nonempty [] vs = vs
keep_nonempty (c ∷ v) vs = (c ∷ v) ∷ vs

unfoldable pub stripped_values : List Text → List Text
unfolding strip
stripped_values [] = []
stripped_values (v ∷ vs) = keep_nonempty (strip v) (stripped_values vs)

unfoldable pub values : Text → List Text
unfolding stripped_values split
values vals = stripped_values (split b',' (strip vals))

-- The bytes of .asciz and .ascii.
unfoldable pub string_bytes : Text → Text → List ℕ
unfolding starts_with lower decode_c_string
string_bytes code_line quoted =
    if starts_with (codes ".asciz") (lower code_line)
    then decode_c_string quoted ++ 0 ∷ []
    else decode_c_string quoted

abbrev pub on_match {ℓ κ} : {A : Type ℓ} {B : Type κ} → Option A → (A → B) → B → B
on_match none f otherwise = otherwise
on_match (some a) f otherwise = f a

unfoldable pub classify : Text → Directive
unfolding section_match comm_match align_match long_match short_match byte_match string_match
    zero_match values string_bytes
classify [] = blank
classify (c ∷ s) =
    let line = c ∷ s in
    on_match (section_match (codes ".text") line) (λ _. section text)
      (on_match (section_match (codes ".rodata") line) (λ _. section data_)
        (on_match (section_match (codes ".data") line) (λ _. section data_)
          (on_match (section_match (codes ".bss") line) (λ _. section bss)
            (on_match (comm_match line) (λ g. comm g.0 g.1 g.2)
              (on_match (align_match line) align (
                on_match (long_match line) (λ vals. long (values vals))
                  (on_match (short_match line) (λ vals. short (values vals))
                    (on_match (byte_match line) (λ vals. byte (values vals))
                      (on_match (string_match line) (λ quoted. ascii (string_bytes line quoted))
                        (on_match (zero_match line) zeros other))))))))))
