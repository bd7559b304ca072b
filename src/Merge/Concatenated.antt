-- ===== src/Merge/Concatenated.antt =====
-- What merging makes of files that can be read.
use procesador_32_bits.Base.{
  ℕ, ◌+◌, ◌≡◌, refl, sym, ap, ◌∙◌, false, List, [], ◌∷◌, ◌++◌, append_assoc, append-nil, some, map,
}
use procesador_32_bits.Base.Result.{ok}
use procesador_32_bits.Text.{Text, codes}
use procesador_32_bits.Text.Format.{decimal}
use procesador_32_bits.Merge.{
  rename_local_labels_in_lines, Merged, declare_global, declare_globals, add_line, separate, File,
  merge_file, merge_files, no_files, merge_asm_files,
}
use procesador_32_bits.Merge.Renamed.{renamed, section_match-renamed, globl_match-renamed}

declare_globals-renamed :
    (q : Text) (ls : List Text) (path : Text) (m : Merged)
    → declare_globals (map (renamed q) ls) path m ≡ m
unfolding declare_globals declare_global
declare_globals-renamed q [] path m = refl
declare_globals-renamed q (l ∷ ls) path m =
    ap (λ o. declare_globals (map (renamed q) ls) path (declare_global o path m))
      (globl_match-renamed q l)
    ∙ declare_globals-renamed q ls path m

abbrev with_text : List Text → Merged → Merged
with_text ls m = record m { all_text_lines = m.all_text_lines ++ ls }

separate-renamed :
    (q : Text) (ls : List Text) (m : Merged)
    → separate false (map (renamed q) ls) m ≡ with_text (map (renamed q) ls) m
unfolding separate
separate-renamed q [] m =
    ap (λ t. record m { all_text_lines = t }) (sym (append-nil m.all_text_lines))
separate-renamed q (l ∷ ls) m =
    rw
      (
        section_match-renamed q b'r' (codes "odata") l refl refl,
        section_match-renamed q b't' (codes "ext") l refl refl,
      )
      (separate-renamed q ls (add_line false (renamed q l) m)
        ∙ ap (λ t. record m { all_text_lines = t })
            (append_assoc m.all_text_lines (renamed q l ∷ []) (map (renamed q) ls)))

-- Files that can be read, with their lines.
abbrev pub readable : List (Text × List Text) → List File
readable = map (λ f. (f.0, some f.1))

-- The lines of all files, renamed by the number of their file, one file behind the other.
pub all_renamed : ℕ → List (Text × List Text) → List Text
all_renamed idx [] = []
all_renamed idx ((path, lines) ∷ fs) =
    rename_local_labels_in_lines lines (b'f' ∷ decimal idx) ++ all_renamed (idx + 1) fs

merge_file-readable :
    (idx : ℕ) (path : Text) (lines : List Text) (m : Merged)
    → merge_file idx (path, some lines) m
      ≡ with_text (rename_local_labels_in_lines lines (b'f' ∷ decimal idx)) m
unfolding merge_file rename_local_labels_in_lines
merge_file-readable idx path lines m =
    let q = decimal idx in
    ap (separate false (map (renamed q) lines)) (declare_globals-renamed q lines path m)
    ∙ separate-renamed q lines m

merge_files-readable :
    (idx : ℕ) (fs : List (Text × List Text)) (m : Merged)
    → merge_files idx (readable fs) m ≡ with_text (all_renamed idx fs) m
unfolding merge_files all_renamed
merge_files-readable idx [] m =
    ap (λ t. record m { all_text_lines = t }) (sym (append-nil m.all_text_lines))
merge_files-readable idx ((path, lines) ∷ fs) m =
    ap (merge_files (idx + 1) (readable fs)) (merge_file-readable idx path lines m)
    ∙ (merge_files-readable (idx + 1) fs _
        ∙ ap (λ t. record m { all_text_lines = t }) (append_assoc m.all_text_lines _ _))

-- Files that can be read are merged into their renamed lines, one file behind the other, below one
-- .text line: no collision of global symbols is reported and no .rodata line is moved, whatever the
-- files declare.
pub merge_asm_files-readable :
    (fs : List (Text × List Text))
    → merge_asm_files (readable fs) ≡ ok (codes "\t.text\n" ∷ all_renamed 0 fs)
unfolding merge_asm_files
merge_asm_files-readable fs =
    rw (merge_files-readable 0 fs no_files)
      (ap (λ (t : List Text). ok (codes "\t.text\n" ∷ t)) (append-nil (all_renamed 0 fs)))
