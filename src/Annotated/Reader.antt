-- ===== src/Annotated/Reader.antt =====
-- The reading of an annotated listing, as a specification: a line that is no comment gives the source
-- line, the two addresses, the word and its bytes.
use procesador_32_bits.Base.{
  ℕ, ◌*◌, ◌≡◌, ◌≢◌, refl, ap, ◌∙◌, List, [], ◌∷◌, ◌++◌, Option, none, some, arith, map, drop, All,
  All-append, ◌==◌, if◌then◌else◌, false, Bool,
}
use procesador_32_bits.Text.{Text, before, split}
use procesador_32_bits.Text.Number.{digits_value}
use procesador_32_bits.Text.Split.{then_word, then_empty, split-last, before-word, no_space}
use procesador_32_bits.Text.Format.{
  IsPlain, format_number, format_upper, format_upper-IsPlain, digits_value-format_upper, decimal,
  decimal-IsPlain, digits_value-decimal,
}
use procesador_32_bits.Dict.{Dict}
use procesador_32_bits.SecondPass.{Instruction}
use procesador_32_bits.SecondPass.Image.{HasWord}
use procesador_32_bits.Rom.{word_to_bytes}
use procesador_32_bits.Annotated.{
  addr_to_label, octet, word_line, label_lines, instruction_lines, write_annotated_hex,
}
use procesador_32_bits.Annotated.Octets.{octets-word_to_bytes, octet-HasNone}

pub record Row : Type 0 where
  pub line : ℕ
  pub address : ℕ
  pub byte_address : ℕ
  pub word : ℕ
  pub bytes : List ℕ

row_of_columns : List Text → Option Row
row_of_columns (a ∷ b ∷ _ ∷ w ∷ _ ∷ o0 ∷ o1 ∷ o2 ∷ o3 ∷ _ ∷ l ∷ _) = some (record {
  line = digits_value 10 0 (before b')' (drop 2 l));
  address = digits_value 16 0 a;
  byte_address = digits_value 16 0 b;
  word = digits_value 16 0 w;
  bytes = map (digits_value 2 0) (o0 ∷ o1 ∷ o2 ∷ o3 ∷ []);
})
row_of_columns _ = none

abbrev cons_row : Option Row → List Row → List Row
cons_row none rows = rows
cons_row (some row) rows = row ∷ rows

is_comment : Text → Bool
is_comment [] = false
is_comment (c ∷ s) = c == b';'

pub read_listing : List Text → List Row
unfolding row_of_columns is_comment
read_listing [] = []
read_listing (l ∷ ls) =
    let rest = read_listing ls in
    if is_comment l then rest else cons_row (row_of_columns (split b' ' l)) rest

-- What the listing has to say of an instruction.
abbrev pub row_of : Instruction → Row
row_of x = record {
  line = x.src_line;
  address = x.address;
  byte_address = x.address * 4;
  word = x.word;
  bytes = word_to_bytes x.word;
}

no_bracket : (w : Text) → All IsPlain w → All (λ c. c ≢ b')') w
no_bracket [] h = tt
no_bracket (c ∷ w) h = (h.0.3, no_bracket w h.1)

upper_words : (width n : ℕ) → All (λ c. c ≢ b' ') (format_upper width n)
upper_words width n = no_space (format_upper width n) (format_upper-IsPlain width n)

last_word :
    (x : Instruction)
    → All (λ c. c ≢ b' ') (b'(' ∷ b'L' ∷ (decimal x.src_line ++ b')' ∷ b'\n' ∷ []))
last_word x = (
  omega arith,
  (
    omega arith,
    All-append (λ c. c ≢ b' ') (decimal x.src_line) (b')' ∷ b'\n' ∷ [])
        (no_space (decimal x.src_line) (decimal-IsPlain x.src_line))
        (omega arith, (omega arith, tt)),
  ),
)

split-word_line :
    (x : Instruction)
    → let s : Text = format_number 2 32 x.word in
      split b' ' (word_line x)
      ≡ format_upper 5 x.address
        ∷ format_upper 6 (x.address * 4)
        ∷ []
        ∷ format_upper 8 x.word
        ∷ []
        ∷ octet 0 s
        ∷ octet 1 s
        ∷ octet 2 s
        ∷ octet 3 s
        ∷ []
        ∷ (b'(' ∷ b'L' ∷ (decimal x.src_line ++ b')' ∷ b'\n' ∷ []))
        ∷ []
unfolding word_line
split-word_line x =
    let sep : ℕ = b' ' in
    let octets = λ (i : ℕ). octet-HasNone i x.word in
    then_word sep _ _ (upper_words 5 x.address) (
      then_word sep _ _ (upper_words 6 (x.address * 4)) (
        then_empty sep _ (
          then_word sep _ _ (upper_words 8 x.word) (
            then_empty sep _ (
              then_word sep _ _ (octets 0) (
                then_word sep _ _ (octets 1) (
                  then_word sep _ _ (octets 2) (
                    then_word sep _ _ (octets 3)
                      (then_empty sep _ (split-last sep _ (last_word x)))))))))))

row_of-word_line :
    (x : Instruction) → HasWord x → row_of_columns (split b' ' (word_line x)) ≡ some (row_of x)
unfolding row_of_columns
row_of-word_line x h =
    let line = digits_value 10 0 (before b')' (decimal x.src_line ++ b')' ∷ b'\n' ∷ [])) in
    let e : line ≡ x.src_line =
      ap (digits_value 10 0) (
        before-word b')' (decimal x.src_line) (b'\n' ∷ [])
          (no_bracket (decimal x.src_line) (decimal-IsPlain x.src_line)))
      ∙ digits_value-decimal x.src_line in
    ap row_of_columns (split-word_line x)
    ∙ cc (
      e,
      digits_value-format_upper 5 x.address,
      digits_value-format_upper 6 (x.address * 4),
      digits_value-format_upper 8 x.word,
      octets-word_to_bytes x.word h,
    )

plain-is_comment : (w s : Text) → All IsPlain w → is_comment (w ++ b' ' ∷ s) ≡ false
unfolding is_comment
plain-is_comment [] s h = refl
plain-is_comment (c ∷ w) s h = ground (arith, h.0)

no_comment : (x : Instruction) → is_comment (word_line x) ≡ false
unfolding is_comment word_line
no_comment x = plain-is_comment (format_upper 5 x.address) _ (format_upper-IsPlain 5 x.address)

skip_labels :
    (o : Option Text) (ls : List Text) → read_listing (label_lines o ++ ls) ≡ read_listing ls
unfolding read_listing is_comment
skip_labels none ls = refl
skip_labels (some name) ls = refl

read-instruction_lines :
    (d : Dict ℕ) (xs : List Instruction)
    → All HasWord xs
    → read_listing (instruction_lines d xs) ≡ map row_of xs
unfolding read_listing instruction_lines
read-instruction_lines d [] h = refl
read-instruction_lines d (x ∷ xs) h =
    skip_labels (addr_to_label d x.address) (word_line x ∷ instruction_lines d xs)
    ∙ rw (no_comment x, row_of-word_line x h.0, read-instruction_lines d xs h.1) refl

-- A reader of the listing finds each instruction of the list, in order, whatever the labels: its source
-- line, its word and byte address, its word in hexadecimal, and in binary the four bytes that the ROM
-- file has.
pub read_listing-write_annotated_hex :
    (xs : List Instruction) (d : Dict ℕ)
    → All HasWord xs
    → read_listing (write_annotated_hex xs d) ≡ map row_of xs
unfolding read_listing write_annotated_hex is_comment
read_listing-write_annotated_hex xs d h = read-instruction_lines d xs h
