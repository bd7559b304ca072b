-- ===== src/Tests/Merge.antt =====
-- The theorem on merging at two files that define the same global symbol.
use procesador_32_bits.Base.{◌≡◌, refl, List, [], ◌∷◌}
use procesador_32_bits.Base.Result.{ok}
use procesador_32_bits.Text.{Text, codes}
use procesador_32_bits.Text.Format.{decimal, format_number}
use procesador_32_bits.Merge.{in_code, rename_from, merge_asm_files}
use procesador_32_bits.Merge.Concatenated.{readable, all_renamed, merge_asm_files-readable}

abbrev files : List (Text × List Text)
files =
    (codes "a.s", codes "\t.globl\tmain\n" ∷ codes "main:\n" ∷ codes ".L1:\n" ∷ [])
    ∷ (codes "b.s", codes "\t.globl\tmain\n" ∷ codes "\t.section .rodata\n" ∷ codes "main:\n" ∷ [])
    ∷ []

renamed_label :
    rename_from (codes "f0") in_code (codes "JMP .L1 ; to .L1") ≡ codes "JMP .f0_L1 ; to .L1"
unfolding rename_from
renamed_label = refl

quoted_label_stays :
    rename_from (codes "f0") in_code (codes "x \".L1\" .L2") ≡ codes "x \".L1\" .f0_L2"
unfolding rename_from
quoted_label_stays = refl

twelve : decimal 12 ≡ codes "12"
unfolding format_number
twelve = refl

merge_asm_files-readable_example :
    merge_asm_files (readable files) ≡ ok (codes "\t.text\n" ∷ all_renamed 0 files)
merge_asm_files-readable_example = merge_asm_files-readable files
