-- ===== src/FirstPass/Start/Addresses.antt =====
-- Where the labels of a program in ROM mode stand behind the loop that fixes those of .bss.
use mathlib.Core.Path.{subst}
use procesador_32_bits.Base.{
  ◌-◌, ℕ, ◌+◌, ◌<◌, ◌≤◌, ◌≡◌, refl, sym, ap, ◌∙◌, ◌⊎◌, inl, inr, Bool, true, false, Bool-cases,
  ◌||◌, [], ◌∷◌, List, Option, none, some, arith, length, ltb, if◌then◌else◌,
}
use procesador_32_bits.Dict
use procesador_32_bits.Dict.{Dict}
use procesador_32_bits.Text.{Text, codes, text_eq}
use procesador_32_bits.FirstPass.{rom, State, ram_base, bss_base, initial, flush_pending_bytes}
use procesador_32_bits.FirstPass.Lines.{raises, do_lines}
use procesador_32_bits.FirstPass.Growth.{Between, Grows-trans, flush_pending_bytes-Grows}
use procesador_32_bits.FirstPass.Growth.Source.{do_lines-Grows}
use procesador_32_bits.FirstPass.Start.{
  bss_start, fix_address, fix_labels, main_entry, load_text_start, load_entry, with_copy,
  inject_start, finish, first_pass,
}
use procesador_32_bits.FirstPass.Start.Placed.{with_copy-label}

-- The fixed address of a label is that of its address.
get-fix_labels :
    (start : ℕ) (d : Dict ℕ) (k : Text) (a : ℕ)
    → Dict.get (fix_labels start d) k ≡ some a
    → (b : ℕ) × (Dict.get d k ≡ some b) × (a ≡ fix_address start b)
unfolding fix_labels Dict.get
get-fix_labels start [] k a h = absurd (cc h)
get-fix_labels start ((j, b) ∷ d) k a h = elim (Bool-cases (text_eq j k)) [
  | inl found ↦
      let e : some (fix_address start b) ≡ some a = rw found at h in (b, rw found refl, cc e)
  | inr other ↦ let r = get-fix_labels start d k a (rw other at h) in (r.0, rw other r.1, r.2)
]

load_text_start-labels : (o : Option ℕ) (s : State) → (load_text_start o s).label_map ≡ s.label_map
unfolding load_text_start
load_text_start-labels none s = refl
load_text_start-labels (some a) s = refl

load_entry-labels : (o : Option Text) (s : State) → (load_entry o s).label_map ≡ s.label_map
unfolding load_entry
load_entry-labels none s = load_text_start-labels s.text_start_word s
load_entry-labels (some name) s = refl

-- The routine adds the label `.start` and changes no other.
inject_start-label :
    (s : State) (k : Text)
    → text_eq (codes ".start") k ≡ false
    → Dict.get (inject_start s).label_map k ≡ Dict.get s.label_map k
unfolding inject_start
inject_start-label s k other =
    ap (λ d. Dict.get d k) (load_entry-labels (main_entry (with_copy s).label_map) (with_copy s))
    ∙ (with_copy-label s k ∙ rw other refl)

if-label :
    (c : Bool) (s : State) (k : Text)
    → text_eq (codes ".start") k ≡ false
    → Dict.get (if c then inject_start s else s).label_map k ≡ Dict.get s.label_map k
if-label true s k other = inject_start-label s k other
if-label false s k other = refl

-- The labels behind the pass are those of the loop, with the addresses of .bss fixed.
finish-label :
    (s : State) (k : Text) (a : ℕ)
    → text_eq (codes ".start") k ≡ false
    → Dict.get (finish rom s).label_map k ≡ some a
    → (b : ℕ) × (Dict.get s.label_map k ≡ some b) × (a ≡ fix_address (bss_start s) b)
unfolding finish
finish-label s k a other h =
    let t = record s { label_map = fix_labels (bss_start s) s.label_map } in
    let same = if-label (ltb 0 (length s.rom_data_bytes) || ltb 0 s.ram_bss_offset) t k other in
    get-fix_labels (bss_start s) s.label_map k a (sym same ∙ h)

-- The address `a` that a label has at the end, by the address `b` that the loop gave it: in the image
-- and in .data it is the same; in .bss the offset is kept, and the section starts behind .data.
abbrev pub InSection : State → ℕ → ℕ → Type 0
InSection s b a =
    ((b ≤ s.rom_address) × (a ≡ b))
    ⊎ (((ram_base ≤ b) × (b ≤ ram_base + s.ram_data_offset) × (a ≡ b))
        ⊎ ((offset : ℕ) × (offset ≤ s.ram_bss_offset)
            × (b ≡ bss_base + offset)
            × (a ≡ ram_base + bss_start s + offset)))

fix_address-InSection :
    (relocs : List (ℕ × Text)) (s : State) (b : ℕ)
    → s.rom_address < ram_base
    → ram_base + s.ram_data_offset < bss_base
    → bss_base + s.ram_bss_offset < 0x0B600000
    → Between (initial relocs) s b
    → InSection s b (fix_address (bss_start s) b)
unfolding fix_address
fix_address-InSection relocs s b low below small (inl h) = inl (omega arith, ground arith)
fix_address-InSection relocs s b low below small (inr (inl h)) =
    inr (inl (omega arith, omega arith, ground arith))
fix_address-InSection relocs s b low below small (inr (inr h)) =
    inr (inr (b - bss_base, omega arith, omega arith, ground arith))

-- The state behind the loop over the lines and the last bytes.
abbrev pub behind_lines : List Text → List (ℕ × Text) → State
behind_lines lines relocs = flush_pending_bytes (do_lines rom 1 lines (initial relocs))

-- Every label of the loop stands in one of the three, at the provisional addresses of .bss.
behind_lines-Between :
    (lines : List Text) (relocs : List (ℕ × Text)) (k : Text) (a : ℕ)
    → Dict.get (behind_lines lines relocs).label_map k ≡ some a
    → Between (initial relocs) (behind_lines lines relocs) a
unfolding Dict.get
behind_lines-Between lines relocs k a h =
    let s = initial relocs in
    let t = do_lines rom 1 lines s in
    let (_, _, _, _, _, between, _) =
      Grows-trans s t (flush_pending_bytes t) (do_lines-Grows rom 1 lines s)
        (flush_pending_bytes-Grows t) in
    elim (between k a h) [ inl old ↦ absurd (cc old) | inr new ↦ new ]

-- In ROM mode every label other than `.start` has an address from the loop: one in the image or in .data
-- stays as it is, and one in .bss keeps its offset in a section that starts behind .data, as long as
-- the image ends below the RAM, .data below the provisional addresses of .bss, .bss has less than
-- 0xB0000 bytes, and no ValueError ends the call.
pub first_pass-InSection :
    (lines : List Text) (relocs : List (ℕ × Text)) (k : Text) (a : ℕ)
    → raises rom lines relocs ≡ false
    → (behind_lines lines relocs).rom_address < ram_base
    → ram_base + (behind_lines lines relocs).ram_data_offset < bss_base
    → bss_base + (behind_lines lines relocs).ram_bss_offset < 0x0B600000
    → text_eq (codes ".start") k ≡ false
    → Dict.get (first_pass lines rom relocs).label_map k ≡ some a
    → (b : ℕ) × (Dict.get (behind_lines lines relocs).label_map k ≡ some b)
      × InSection (behind_lines lines relocs) b a
unfolding first_pass
first_pass-InSection lines relocs k a quiet low below small other h =
    let s = behind_lines lines relocs in
    let (b, found, e) = finish-label s k a other (rw quiet at h) in
    (
      b,
      found,
      subst (InSection s b) (sym e) (
          fix_address-InSection relocs s b low below small
            (behind_lines-Between lines relocs k b found)),
    )
