-- ===== src/Listing/Comments.antt =====
-- The listing of `.start` consists of comments.
use procesador_32_bits.Base.{
  ℕ, zero, suc, ◌+◌, ◌≡◌, refl, Bool, true, false, ◌&&◌, ◌||◌, List, [], ◌∷◌, ◌++◌, Option, none,
  some, arith, All, All-append, ◌==◌, if◌then◌else◌, length, ltb, is_some, map,
}
use procesador_32_bits.Text.{Text, codes}
use procesador_32_bits.Text.Format.{
  IsPlain, format_upper, format_upper-IsPlain, decimal, decimal-IsPlain,
}
use procesador_32_bits.Dict
use procesador_32_bits.Dict.{Dict}
use procesador_32_bits.FirstPass.{DataMode, rom, State}
use procesador_32_bits.FirstPass.Start.{bss_start, fix_labels, main_entry, data_words, with_copy}
use procesador_32_bits.FirstPass.StartListing.{
  Part, literal, number, upper, Line, text_of, f_string, copy_lines, copy_part, entry_part,
  inject_listing, finish_listing, start_listing,
}
use procesador_32_bits.Listing.{newline}
use procesador_32_bits.Listing.Search.{OneLine}
use procesador_32_bits.Listing.Sentinel.{is_one_line, is_one_line-OneLine}

-- The first character is a semicolon.
abbrev pub opens_comment : Text → Bool
opens_comment [] = false
opens_comment (c ∷ s) = c == b';'

-- A comment of one line.
abbrev pub IsComment : Text → Type 0
IsComment l = (opens_comment l ≡ true) × OneLine l

plain-OneLine : (s : Text) → All IsPlain s → OneLine s
plain-OneLine [] h = tt
plain-OneLine (c ∷ s) h = (ground (arith, h.0.4), plain-OneLine s h.1)

-- The same of the parts of a line, where numbers need no test.
is_one_line_part : Part → Bool
unfolding is_one_line
is_one_line_part (literal s) = is_one_line s
is_one_line_part (number n) = true
is_one_line_part (upper w n) = true

are_one_line : Line → Bool
unfolding is_one_line_part
are_one_line [] = true
are_one_line (part ∷ parts) = is_one_line_part part && are_one_line parts

opens : Line → Bool
opens [] = false
opens (part ∷ parts) = opens_comment (text_of part)

is_comment : Line → Bool
unfolding opens are_one_line
is_comment parts = opens parts && are_one_line parts

text_of-OneLine : (part : Part) → is_one_line_part part ≡ true → OneLine (text_of part)
unfolding is_one_line_part
text_of-OneLine (literal s) h = is_one_line-OneLine s h
text_of-OneLine (number n) h = plain-OneLine (decimal n) (decimal-IsPlain n)
text_of-OneLine (upper w n) h = plain-OneLine (format_upper w n) (format_upper-IsPlain w n)

f_string-OneLine : (parts : Line) → are_one_line parts ≡ true → OneLine (f_string parts)
unfolding are_one_line
f_string-OneLine [] h = tt
f_string-OneLine (part ∷ parts) h =
    All-append (λ c. newline c ≡ false) (text_of part) (f_string parts)
      (text_of-OneLine part (ground arith)) (f_string-OneLine parts (ground arith))

opens-append : (a b : Text) → opens_comment a ≡ true → opens_comment (a ++ b) ≡ true
opens-append [] b h = cc
opens-append (c ∷ a) b h = h

f_string-opens : (parts : Line) → opens parts ≡ true → opens_comment (f_string parts) ≡ true
unfolding opens
f_string-opens [] h = h
f_string-opens (part ∷ parts) h = opens-append (text_of part) (f_string parts) h

AreComments : List Line → Type 0
AreComments = All (λ l. is_comment l ≡ true)

f_string-IsComment : (ls : List Line) → AreComments ls → All IsComment (map f_string ls)
unfolding AreComments is_comment
f_string-IsComment [] h = tt
f_string-IsComment (l ∷ ls) h = (
  (f_string-opens l (ground (arith, h.0)), f_string-OneLine l (ground (arith, h.0))),
  f_string-IsComment ls h.1,
)

copy_lines-AreComments : (n i : ℕ) → AreComments (copy_lines n i)
unfolding AreComments is_comment copy_lines
copy_lines-AreComments zero i = tt
copy_lines-AreComments (suc n) i = (refl, (refl, copy_lines-AreComments n (i + 1)))

copy_part-AreComments : (n start : ℕ) → AreComments (copy_part n start)
unfolding AreComments is_comment copy_part
copy_part-AreComments zero start = tt
copy_part-AreComments (suc n) start =
    (refl, (refl, (refl, (refl, (refl, copy_lines-AreComments (suc n) 0)))))

entry_part-AreComments :
    (b c : Bool) (start : Option ℕ)
    → AreComments (
        entry_part
          (if b then some (codes "main") else if c then some (codes "\"main\"") else none)
          start)
unfolding AreComments is_comment entry_part
entry_part-AreComments true c start = (refl, (refl, tt))
entry_part-AreComments false true start = (refl, (refl, tt))
entry_part-AreComments false false (some start) = (refl, (refl, tt))
entry_part-AreComments false false none = (refl, (refl, tt))

AreComments-append : (ls ms : List Line) → AreComments ls → AreComments ms → AreComments (ls ++ ms)
unfolding AreComments
AreComments-append = All-append (λ l. is_comment l ≡ true)

inject_listing-AreComments : (s : State) → AreComments (inject_listing s)
unfolding inject_listing AreComments is_comment
inject_listing-AreComments s =
    let d = (with_copy s).label_map in
    let entry = entry_part (main_entry d) s.text_start_word in
    let entries =
      entry_part-AreComments (is_some (Dict.get d (codes "main")))
        (is_some (Dict.get d (codes "\"main\""))) s.text_start_word in
    (
      refl,
      (
        refl,
        AreComments-append (copy_part (data_words s) s.rom_address) _
            (copy_part-AreComments (data_words s) s.rom_address)
            (refl, AreComments-append entry _ entries (refl, tt)),
      ),
    )

if-AreComments : (c : Bool) (ls : List Line) → AreComments ls → AreComments (if c then ls else [])
unfolding AreComments
if-AreComments true ls h = h
if-AreComments false ls h = tt

finish_listing-AreComments : (mode : DataMode) (s : State) → AreComments (finish_listing mode s)
unfolding finish_listing AreComments
finish_listing-AreComments rom s =
    let fixed = record s { label_map = fix_labels (bss_start s) s.label_map } in
    if-AreComments (ltb 0 (length s.rom_data_bytes) || ltb 0 s.ram_bss_offset) _
      (inject_listing-AreComments fixed)
finish_listing-AreComments _ s = tt

-- Each line of the listing is a comment of one line, whatever the source.
pub start_listing-IsComment :
    (lines : List Text) (mode : DataMode) (relocs : List (ℕ × Text))
    → All IsComment (start_listing lines mode relocs)
unfolding start_listing
start_listing-IsComment lines mode relocs = f_string-IsComment _ (finish_listing-AreComments mode _)
