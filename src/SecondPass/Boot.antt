-- ===== src/SecondPass/Boot.antt =====
-- `assemble_lines` in ROM mode gives an image that boots.
pub mod Parts
pub mod Routine
use mathlib.Core.Path.{ap₂, subst}
use procesador_32_bits.Base.{
  false, ℕ, zero, suc, ◌+◌, ◌-◌, ◌*◌, ◌/◌, ◌%◌, ◌^◌, ◌<◌, ◌≤◌, ◌≡◌, refl, sym, ap, ◌∙◌, true, ◌||◌,
  ltb, All, List, [], ◌∷◌, ◌++◌, append_assoc, append-nil, Option, none, some, arith, length,
  length-append, map, drop, get_or, drop-append_left, get_or-append_left, get_or-append_right,
}
use mathlib.Core.List.{map-append}
use procesador_32_bits.Base.Int.{pos}
use procesador_32_bits.Base.Result.{ok}
use procesador_32_bits.Text.{Text, codes, text_eq}
use procesador_32_bits.Dict
use procesador_32_bits.Dict.{Dict}
use procesador_32_bits.Isa.{build_word, opcode}
use procesador_32_bits.Address.{compute_hi_lo}
use procesador_32_bits.Address.HiLo.{load, load_rom, compute_hi_lo-lt}
use procesador_32_bits.FirstPass.{
  DataMode, rom, initial, flush_pending_bytes, State, PendingInstruction, words, pending_tokens,
  raw_word, ram_base,
}
use procesador_32_bits.FirstPass.Layout.{
  IsByte, IsSound, IsLaid, initial-IsLaid, flush_pending_bytes-IsLaid,
}
use procesador_32_bits.FirstPass.Layout.Finish.{do_lines-IsLaid, inject_start-IsSound}
use procesador_32_bits.FirstPass.Lines.{do_lines}
use procesador_32_bits.FirstPass.Lines.{raises}
use procesador_32_bits.FirstPass.Start.{
  copy_routine, jump_word, data_words, with_copy, inject_start, load_register, bss_start,
  fix_labels, finish, first_pass,
}
use procesador_32_bits.FirstPass.Start.Placed.{
  blob_of, literals, injected, length-blob_of, inject_start-pending, inject_start-labels,
  with_copy-main, with_copy-label,
}
use procesador_32_bits.FirstPass.Start.Entry.{hi_tokens, lo_tokens, encode_main_hi, encode_main_lo}
use procesador_32_bits.FirstPass.Start.Copy.{
  Copied, execute-copy_routine, execute-load_register, put_self,
}
use procesador_32_bits.Machine.{Machine, execute, put, jump_target}
use procesador_32_bits.SecondPass.{Instruction, Assembly, second_pass, assemble_lines}
use procesador_32_bits.SecondPass.Resolved.{Stands, AllStand, second_pass-AllStand}
use procesador_32_bits.SecondPass.Boot.Parts.{words_in}
use procesador_32_bits.SecondPass.Boot.Routine.{HoldsRom, Boots, stood-Boots}

-- The state of the first pass in ROM mode when the addresses of .bss are fixed and nothing is injected.
abbrev pub scanned : List Text → List (ℕ × Text) → State
scanned lines relocs =
    let s = flush_pending_bytes (do_lines rom 1 lines (initial relocs)) in
    record s { label_map = fix_labels (bss_start s) s.label_map }

scanned-IsLaid : (lines : List Text) (relocs : List (ℕ × Text)) → IsLaid (scanned lines relocs)
scanned-IsLaid lines relocs =
    flush_pending_bytes-IsLaid _
      (do_lines-IsLaid rom 1 lines (initial relocs) (initial-IsLaid relocs))

first_pass-scanned :
    (lines : List Text) (relocs : List (ℕ × Text))
    → raises rom lines relocs ≡ false
    → (ltb 0 (length (scanned lines relocs).rom_data_bytes)
        || ltb 0 (scanned lines relocs).ram_bss_offset)
      ≡ true
    → first_pass lines rom relocs ≡ inject_start (scanned lines relocs)
unfolding first_pass finish
first_pass-scanned lines relocs k h = rw (k, h)

append-eq-nil : {A : Type 0} (xs ys : List A) → xs ++ ys ≡ [] → ys ≡ []
append-eq-nil [] ys e = e
append-eq-nil (x ∷ xs) ys e = absurd (cc)

-- What is shown of the state behind the injection.
abbrev Booted : State → ℕ → Machine → State → Type 0
Booted s a m out =
    (second_pass out.label_map out.pending).errors ≡ []
    → HoldsRom (words_in (second_pass out.label_map out.pending).result) m
    → (Dict.get out.label_map (codes ".start") ≡ some (s.rom_address + data_words s))
      × Boots out.label_map s a (words_in (second_pass out.label_map out.pending).result) m

inject_start-Booted :
    (s : State) (a : ℕ) (m : Machine)
    → IsLaid s
    → Dict.get s.label_map (codes "main") ≡ some a
    → data_words s ≤ 8192
    → s.rom_address + data_words s ≤ 2 ^ 18
    → a < 2 ^ 18
    → Booted s a m (inject_start s)
unfolding text_eq
inject_start-Booted s a m laid main small fits reach errors holds =
    let out = inject_start s in
    let xs = (second_pass out.label_map out.pending).result in
    let labels : out.label_map ≡ (with_copy s).label_map = inject_start-labels s a main in
    let stand : AllStand out.label_map (s.pending ++ injected s) xs =
      subst (λ ps. AllStand out.label_map ps xs) (inject_start-pending s a main)
        (second_pass-AllStand out.label_map out.pending (inject_start-IsSound s laid) errors) in
    (
      ap (λ d. Dict.get d (codes ".start")) labels ∙ with_copy-label s (codes ".start"),
      stood-Boots out.label_map s a xs m laid stand
          (ap (λ d. Dict.get d (codes "main")) labels ∙ with_copy-main s a main) small fits reach
          holds,
    )

first_pass-Booted :
    (lines : List Text) (relocs : List (ℕ × Text)) (a : ℕ) (m : Machine)
    → let s : State = scanned lines relocs in
      raises rom lines relocs ≡ false
      → (ltb 0 (length s.rom_data_bytes) || ltb 0 s.ram_bss_offset) ≡ true
      → Dict.get s.label_map (codes "main") ≡ some a
      → a < 2 ^ 18
      → data_words s ≤ 8192
      → s.rom_address + data_words s ≤ 2 ^ 18
      → Booted s a m (first_pass lines rom relocs)
first_pass-Booted lines relocs a m quiet filled main reach small fits =
    subst (Booted (scanned lines relocs) a m) (sym (first_pass-scanned lines relocs quiet filled)) (
      inject_start-Booted (scanned lines relocs) a m (scanned-IsLaid lines relocs) main small fits
        reach)

-- Assembled in ROM mode with no error, a program that has data, a label main in the ROM and at most
-- 8192 words of .data has `.start` behind its blob, and boots from there.
pub assemble_lines-Boots :
    (lines : List Text) (relocs : List (ℕ × Text)) (a : ℕ) (m : Machine)
    → let s : State = scanned lines relocs in
      let out : Assembly = assemble_lines lines rom relocs in
      raises rom lines relocs ≡ false
      → (ltb 0 (length s.rom_data_bytes) || ltb 0 s.ram_bss_offset) ≡ true
      → Dict.get s.label_map (codes "main") ≡ some a
      → a < 2 ^ 18
      → data_words s ≤ 8192
      → s.rom_address + data_words s ≤ 2 ^ 18
      → out.errors ≡ []
      → HoldsRom (words_in out.instructions) m
      → (Dict.get out.label_map (codes ".start") ≡ some (s.rom_address + data_words s))
        × Boots out.label_map s a (words_in out.instructions) m
unfolding assemble_lines
assemble_lines-Boots lines relocs a m quiet filled main reach small fits errors holds =
    first_pass-Booted lines relocs a m quiet filled main reach small fits
      (append-eq-nil (first_pass lines rom relocs).errors _ errors) holds
