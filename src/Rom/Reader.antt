-- ===== src/Rom/Reader.antt =====
-- The reading of a file of `v3.0 hex words addressed`, as a specification: a row gives its address
-- before a colon and its bytes behind spaces, a byte that no row has is 0, and a later row counts.
use mathlib.Core.Path.{ap₂}
use procesador_32_bits.Base.{
  ℕ, ◌+◌, ◌-◌, ◌≡◌, ◌≢◌, refl, sym, ap, ◌∙◌, append_assoc, ◌&&◌, List, [], ◌∷◌, ◌++◌, map, arith,
  ltb, leb, length, get_or, All, All-append, if◌then◌else◌,
}
use procesador_32_bits.Text.{Text, before, split}
use procesador_32_bits.Text.Number.{digits_value}
use procesador_32_bits.Text.Split.{split-word, split-last, before-word, no_space}
use procesador_32_bits.Rom.{row_line, join_bytes}
use procesador_32_bits.Text.Format.{
  format_hex, digits_value-format_hex, IsPlain, format_hex-IsPlain,
}

abbrev pub hex_value : Text → ℕ
hex_value s = digits_value 16 0 s

abbrev pub row_of_words : List Text → ℕ × List ℕ
row_of_words [] = (0, [])
row_of_words (w ∷ ws) = (hex_value (before b':' w), map hex_value ws)

unfoldable pub read_row : Text → ℕ × List ℕ
unfolding split before
read_row line = row_of_words (split b' ' line)

-- The byte at an address, if `d` stood there before the rows.
unfoldable pub read_rows : List Text → ℕ → ℕ → ℕ
unfolding read_row
read_rows [] address d = d
read_rows (line ∷ lines) address d =
    let row = read_row line in
    read_rows lines address (
      if leb row.0 address && ltb address (row.0 + length row.1)
      then get_or row.1 (address - row.0) 0
      else d)

unfoldable pub read_byte : List Text → ℕ → ℕ
unfolding read_rows
read_byte [] address = 0
read_byte (header ∷ rows) address = read_rows rows address 0

no_colon : (w : Text) → All IsPlain w → All (λ c. c ≢ b':') w
no_colon [] h = tt
no_colon (c ∷ w) h = (h.0.1, no_colon w h.1)

number_words : (width n : ℕ) → All (λ c. c ≢ b' ') (format_hex width n)
number_words width n = no_space (format_hex width n) (format_hex-IsPlain width n)

split-join_bytes :
    (b : ℕ) (bs : List ℕ) → split b' ' (join_bytes (b ∷ bs)) ≡ map (format_hex 2) (b ∷ bs)
unfolding join_bytes
split-join_bytes b [] = split-last b' ' (format_hex 2 b) (number_words 2 b)
split-join_bytes b (c ∷ bs) =
    split-word b' ' (format_hex 2 b) (join_bytes (c ∷ bs)) (number_words 2 b)
    ∙ ap (λ ws. format_hex 2 b ∷ ws) (split-join_bytes c bs)

hex_values : (bs : List ℕ) → map hex_value (map (format_hex 2) bs) ≡ bs
hex_values [] = refl
hex_values (b ∷ bs) = cc (digits_value-format_hex 2 b, hex_values bs)

-- A row is read back from its line.
pub read_row-row_line : (row b : ℕ) (bs : List ℕ) → read_row (row_line row (b ∷ bs)) ≡ (row, b ∷ bs)
unfolding read_row row_line
read_row-row_line row b bs =
    let address = format_hex 5 row in
    let word = address ++ b':' ∷ [] in
    let plain : All (λ c. c ≢ b' ') word =
      All-append (λ c. c ≢ b' ') address (b':' ∷ []) (number_words 5 row) (omega arith) in
    let words : split b' ' (address ++ b':' ∷ b' ' ∷ join_bytes (b ∷ bs))
        ≡ word ∷ map (format_hex 2) (b ∷ bs) =
      ap (split b' ') (sym (append_assoc address (b':' ∷ []) (b' ' ∷ join_bytes (b ∷ bs))))
      ∙ (split-word b' ' word (join_bytes (b ∷ bs)) plain
          ∙ ap (λ ws. word ∷ ws) (split-join_bytes b bs)) in
    let value : hex_value (before b':' word) ≡ row =
      ap hex_value (before-word b':' address [] (no_colon address (format_hex-IsPlain 5 row)))
      ∙ digits_value-format_hex 5 row in
    ap row_of_words words ∙ ap₂ (λ r l. (r, l)) value (hex_values (b ∷ bs))

-- Reading a file goes line by line.
pub read_rows-append :
    (xs ys : List Text) (a d : ℕ) → read_rows (xs ++ ys) a d ≡ read_rows ys a (read_rows xs a d)
unfolding read_rows
read_rows-append [] ys a d = refl
read_rows-append (x ∷ xs) ys a d = read_rows-append xs ys a _

-- What a row says of an address.
pub read_rows-cons :
    (row b : ℕ) (bs : List ℕ) (rest : List Text) (a d : ℕ)
    → read_rows (row_line row (b ∷ bs) ∷ rest) a d
      ≡ read_rows rest a
          (if leb row a && ltb a (row + length (b ∷ bs)) then get_or (b ∷ bs) (a - row) 0 else d)
unfolding read_rows
read_rows-cons row b bs rest a d = rw (read_row-row_line row b bs)
