-- ===== src/Merge.antt =====
-- `_rename_local_labels_in_lines` and `merge_asm_files` of Ensamblador/assembler.py. A file is its path
-- with its lines, or with `none` where it cannot be read; what is written is the list of its pieces.
pub mod Renamed
pub mod Concatenated
use procesador_32_bits.Base.{
  ℕ, zero, suc, ◌+◌, ◌/◌, ◌%◌, Bool, true, false, ◌&&◌, ◌||◌, List, [], ◌∷◌, ◌++◌, Option, none,
  some, map, ◌==◌, ltb, is_some, if◌then◌else◌,
}
use procesador_32_bits.Base.Result.{Result, ok, err}
use procesador_32_bits.Dict
use procesador_32_bits.Dict.{Dict}
use procesador_32_bits.Text.{Text, codes, is_letter, is_digit, is_space, strip}
use procesador_32_bits.Text.Format.{format_number, decimal}
use procesador_32_bits.Text.Regex.{spaces, word, many_one, at_end, is_dot}
use procesador_32_bits.Operands.{normalize_label}
use procesador_32_bits.FirstPass.Directive.{section_match}

-- Where the loop over a line stands: outside quotes, in a local label there, in quotes, in the comment.
pub data RenamePlace : Type 0 where
  in_code in_label in_quotes in_comment : RenamePlace

-- [A-Za-z_]
abbrev pub is_label_start : ℕ → Bool
is_label_start c = is_letter c || c == b'_'

-- [A-Za-z0-9_.@$]
abbrev pub is_label_char : ℕ → Bool
is_label_char c = is_label_start c || (is_digit c || (c == b'.' || (c == b'@' || c == b'$')))

abbrev pub starts_label : Text → Bool
starts_label [] = false
starts_label (c ∷ s) = is_label_start c

-- A quote ends a segment and a semicolon starts the comment.
abbrev pub place_behind : ℕ → RenamePlace
place_behind c = if c == b'"' then in_quotes else if c == b';' then in_comment else in_code

-- The loop over a line, with the substitution in its segments: they hold no quote, so that the tests of
-- the pattern for quotes around a label always pass.
unfoldable pub rename_from : Text → RenamePlace → Text → Text
unfolding is_letter is_digit
rename_from prefix place [] = []
rename_from prefix in_code (c ∷ s) =
    let renamed = rename_from prefix in_label s in
    let rest = rename_from prefix (place_behind c) s in
    c ∷ (if c == b'.' && starts_label s then prefix ++ b'_' ∷ renamed else rest)
rename_from prefix in_label (c ∷ s) =
    c ∷ rename_from prefix (if is_label_char c then in_label else place_behind c) s
rename_from prefix in_quotes (c ∷ s) =
    c ∷ rename_from prefix (if c == b'"' then in_code else in_quotes) s
rename_from prefix in_comment (c ∷ s) = c ∷ rename_from prefix in_comment s

unfoldable pub rename_local_labels_in_lines : List Text → Text → List Text
unfolding rename_from
rename_local_labels_in_lines lines prefix = map (rename_from prefix in_code) lines

-- `^\s*\.globl\s+(.+)$`, with its group
unfoldable pub globl_match : Text → Option Text
unfolding spaces word many_one is_space at_end
globl_match =
    spaces (word (codes ".globl") (many_one is_space (λ _. many_one is_dot (λ name. at_end name))))

pub data MergeError : Type 0 where
  unreadable : (path : Text) → MergeError
  collision : (sym first second : Text) → MergeError

-- The variables of the loop over the files.
pub record Merged : Type 0 where
  pub errors : List MergeError
  pub all_text_lines : List Text
  pub all_rodata_lines : List Text
  pub global_symbols : Dict Text

abbrev label_or : Option Text → Text → Text
label_or (some name) raw = name
label_or none raw = raw

abbrev add_global : Option Text → Text → Text → Merged → Merged
add_global (some first) sym path m = record m { errors = m.errors ++ collision sym first path ∷ [] }
add_global none sym path m = record m { global_symbols = Dict.set m.global_symbols sym path }

unfoldable pub declare_global : Option Text → Text → Merged → Merged
unfolding normalize_label strip Dict.get Dict.set
declare_global none path m = m
declare_global (some group) path m =
    let sym = label_or (normalize_label (strip group)) (strip group) in
    add_global (Dict.get m.global_symbols sym) sym path m

unfoldable pub declare_globals : List Text → Text → Merged → Merged
unfolding declare_global globl_match
declare_globals [] path m = m
declare_globals (l ∷ ls) path m = declare_globals ls path (declare_global (globl_match l) path m)

abbrev pub add_rodata : Text → Merged → Merged
add_rodata l m = record m { all_rodata_lines = m.all_rodata_lines ++ l ∷ [] }

abbrev pub add_line : Bool → Text → Merged → Merged
add_line true l m = add_rodata l m
add_line false l m = record m { all_text_lines = m.all_text_lines ++ l ∷ [] }

-- The second loop over the lines, with in_rodata_section.
unfoldable pub separate : Bool → List Text → Merged → Merged
unfolding section_match
separate in_rodata [] m = m
separate in_rodata (l ∷ ls) m =
    let rodata = separate true ls (add_rodata l m) in
    let text = separate false ls m in
    let other = separate in_rodata ls (add_line in_rodata l m) in
    if is_some (section_match (codes ".rodata") l)
    then rodata
    else if is_some (section_match (codes ".text") l)
    then text
    else other

abbrev pub File : Type 0
File = Text × Option (List Text)

unfoldable pub merge_file : ℕ → File → Merged → Merged
unfolding rename_local_labels_in_lines declare_globals separate format_number
merge_file idx (path, none) m = record m { errors = m.errors ++ unreadable path ∷ [] }
merge_file idx (path, some raw_lines) m =
    let lines = rename_local_labels_in_lines raw_lines (b'f' ∷ decimal idx) in
    separate false lines (declare_globals lines path m)

unfoldable pub merge_files : ℕ → List File → Merged → Merged
unfolding merge_file
merge_files idx [] m = m
merge_files idx (f ∷ fs) m = merge_files (idx + 1) fs (merge_file idx f m)

abbrev pub no_files : Merged
no_files = record { errors = []; all_text_lines = []; all_rodata_lines = []; global_symbols = [] }

abbrev pub rodata_part : List Text → List Text
rodata_part [] = []
rodata_part (l ∷ ls) = codes "\n" ∷ l ∷ ls

abbrev pub merge_result : Merged → Result (List MergeError) (List Text)
merge_result m = elim m.errors [
  | e ∷ es ↦ err (e ∷ es)
  | [] ↦ ok (codes "\t.text\n" ∷ (m.all_text_lines ++ rodata_part m.all_rodata_lines))
]

-- The errors, or what is written to the merged file.
unfoldable pub merge_asm_files : List File → Result (List MergeError) (List Text)
unfolding merge_files
merge_asm_files files = merge_result (merge_files 0 files no_files)
