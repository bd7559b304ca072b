-- ===== src/FirstPass/Relocs.antt =====
-- The relocations that `first_pass` keeps as an attribute of itself, from one call to the next.
use procesador_32_bits.Base.{
  ℕ, ◌≡◌, refl, Bool-cases, inl, inr, Bool, true, false, ◌||◌, List, [], ◌∷◌, Option, none, some,
  length, ltb, arith,
}
use procesador_32_bits.Text.{Text}
use procesador_32_bits.FirstPass.{rom, State, initial, flush_pending_bytes}
use procesador_32_bits.FirstPass.Lines.{do_lines, raises}
use procesador_32_bits.FirstPass.Start.{
  bss_start, fix_labels, main_entry, with_blob, with_copy, load_entry, load_text_start,
  inject_start, finish, first_pass,
}
use procesador_32_bits.FirstPass.Growth.{Grows-trans, flush_pending_bytes-Grows}
use procesador_32_bits.FirstPass.Growth.Source.{do_lines-Grows}

load_text_start-relocs :
    (o : Option ℕ) (s : State) → (load_text_start o s).rom_data_relocs ≡ s.rom_data_relocs
unfolding load_text_start
load_text_start-relocs none s = refl
load_text_start-relocs (some start) s = refl

load_entry-relocs :
    (o : Option Text) (s : State) → (load_entry o s).rom_data_relocs ≡ s.rom_data_relocs
unfolding load_entry
load_entry-relocs none s = load_text_start-relocs s.text_start_word s
load_entry-relocs (some name) s = refl

inject_start-relocs : (s : State) → (inject_start s).rom_data_relocs ≡ []
unfolding inject_start with_copy with_blob
inject_start-relocs s = load_entry-relocs (main_entry (with_copy s).label_map) (with_copy s)

-- The length of a list, tested.
filled-nil : {A : Type 0} (xs : List A) → ltb 0 (length xs) ≡ false → xs ≡ []
filled-nil [] h = refl
filled-nil (x ∷ xs) h = absurd (ground (arith, h))

left-false : (b c : Bool) → (b || c) ≡ false → b ≡ false
left-false true c h = h
left-false false c h = refl

finish-relocs :
    (s : State)
    → (s.rom_data_bytes ≡ [] → s.rom_data_relocs ≡ [])
    → (finish rom s).rom_data_relocs ≡ []
unfolding finish
finish-relocs s h =
    let fixed = record s { label_map = fix_labels (bss_start s) s.label_map } in
    let filled = ltb 0 (length s.rom_data_bytes) in
    elim (Bool-cases (filled || ltb 0 s.ram_bss_offset)) [
      | inl injected ↦ rw injected (inject_start-relocs fixed)
      | inr plain ↦
          rw plain
            (h (filled-nil s.rom_data_bytes (left-false filled (ltb 0 s.ram_bss_offset) plain)))
    ]

-- In ROM mode a call of `first_pass` that finds no relocation of an earlier call, and does not end with the
-- ValueError of a string, leaves none for the next.
pub first_pass-relocs :
    (lines : List Text)
    → raises rom lines [] ≡ false
    → (first_pass lines rom []).rom_data_relocs ≡ []
unfolding first_pass
first_pass-relocs lines quiet =
    let s = initial [] in
    let t = do_lines rom 1 lines s in
    let u = flush_pending_bytes t in
    rw quiet (
      finish-relocs u
        (Grows-trans s t u (do_lines-Grows rom 1 lines s) (flush_pending_bytes-Grows t)).6)
