-- ===== src/Listing.antt =====
-- The listing of `.start` that Ensamblador/assembler.py keeps at the end of a .s file:
-- `_strip_start_listing_from_lines`, and `_write_start_listing_to_s` as a function from the text of
-- the file to its new text.
pub mod Search
pub mod First
pub mod Lines
pub mod Sentinel
pub mod Block
pub mod Reassemble
pub mod Comments
pub mod Unstripped
use procesador_32_bits.Base.{Bool, List, [], ◌∷◌, ◌++◌, Option, none, some, ℕ, ◌==◌, if◌then◌else◌}
use procesador_32_bits.Text.{Text, codes, strip, rstrip, starts_with, text_eq}

abbrev pub sentinel : Text
sentinel = codes "; ════════════════════ .start auto-generado ════════════════════"

abbrev pub newline : ℕ → Bool
newline c = c == b'\n'

abbrev pub cons_line : ℕ → List Text → List Text
cons_line c [] = (c ∷ []) ∷ []
cons_line c (l ∷ ls) = (c ∷ l) ∷ ls

-- f.readlines(): each line ends with its newline, but the last one need not.
unfoldable pub readlines : Text → List Text
readlines [] = []
readlines (c ∷ s) =
    let rest = readlines s in if newline c then (c ∷ []) ∷ rest else cons_line c rest

-- The lines before the first that is the sentinel, white space around it aside.
unfoldable pub strip_start_listing_from_lines : List Text → List Text
unfolding text_eq strip
strip_start_listing_from_lines [] = []
strip_start_listing_from_lines (l ∷ ls) =
    let rest = strip_start_listing_from_lines ls in
    if text_eq (strip l) (strip sentinel) then [] else l ∷ rest

abbrev pub cons_found : ℕ → Option Text → Option Text
cons_found c none = none
cons_found c (some s) = some (c ∷ s)

-- content[:content.find(t)]; `none` stands for the index -1.
unfoldable pub before_text : Text → Text → Option Text
unfolding starts_with
before_text t [] = if starts_with t [] then some [] else none
before_text t (c ∷ s) =
    let rest = before_text t s in if starts_with t (c ∷ s) then some [] else cons_found c rest

-- The text without the block of an earlier run.
abbrev pub without_block : Option Text → Text → Text
without_block (some text) content = rstrip newline text ++ b'\n' ∷ []
without_block none content = content

-- '\n'.join(lines)
unfoldable pub join_lines : List Text → Text
join_lines [] = []
join_lines (l ∷ []) = l
join_lines (l ∷ m ∷ ls) = l ++ b'\n' ∷ join_lines (m ∷ ls)

abbrev pub add_block : Text → List Text → Text
add_block content start_listing =
    content ++ b'\n' ∷ (sentinel ++ b'\n' ∷ (join_lines start_listing ++ b'\n' ∷ []))

-- The text of the file that _write_start_listing_to_s leaves, from the text that it finds.
unfoldable pub write_start_listing : Text → List Text → Text
unfolding before_text rstrip join_lines
write_start_listing content start_listing =
    add_block (without_block (before_text sentinel content) content) start_listing
