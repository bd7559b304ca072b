-- ===== src/SecondPass/Boot/Routine.antt =====
-- The routine `.start` of an image: what it does on a machine that has the image in its ROM.
use mathlib.Core.Path.{ap₂, subst}
use procesador_32_bits.Base.{
  ℕ, ◌+◌, ◌*◌, ◌^◌, ◌<◌, ◌≤◌, ◌≡◌, refl, sym, ap, ◌∙◌, List, [], ◌∷◌, ◌++◌, append_assoc, some,
  arith, length, drop, get_or,
}
use procesador_32_bits.Base.Int.{pos}
use procesador_32_bits.Text.{codes}
use procesador_32_bits.Dict
use procesador_32_bits.Dict.{Dict}
use procesador_32_bits.Address.{compute_hi_lo}
use procesador_32_bits.FirstPass.{State, words, pending_tokens, ram_base}
use procesador_32_bits.FirstPass.Layout.{IsLaid}
use procesador_32_bits.FirstPass.Start.{copy_routine, jump_word, data_words, load_register}
use procesador_32_bits.FirstPass.Start.Jump.{entered, execute-entered, jump-entered}
use procesador_32_bits.FirstPass.Start.Placed.{blob_of, literals, injected, length-blob_of}
use procesador_32_bits.FirstPass.Start.Entry.{hi_tokens, lo_tokens}
use procesador_32_bits.FirstPass.Start.Copy.{Copied, execute-copy_routine}
use procesador_32_bits.Machine.{Machine, execute, jump_target}
use procesador_32_bits.SecondPass.{Instruction}
use procesador_32_bits.SecondPass.Resolved.{AllStand}
use procesador_32_bits.SecondPass.Boot.Parts.{
  words_in, AllStand-append, AllStand-literals, AllStand-entry, length-words_in, drop-parts,
  get_or-parts, length-parts, words_in-parts,
}

-- The ROM of the machine, from 0xFFF00000 on, holds the image.
abbrev pub HoldsRom : List ℕ → Machine → Type 0
HoldsRom image m = (k : ℕ) → k < length image → m.mem (0xFFF00000 + 4 * k) ≡ get_or image k 0

-- The image of `s` has at `.start` a routine and behind it a jump. The routine copies to RAM the words
-- that the entries of .data stand for, leaves the rest of the memory as it was, and the jump goes to
-- the byte address of main.
pub record Boots (d : Dict ℕ) (s : State) (a : ℕ) (image : List ℕ) (m : Machine) : Type 0 where
  pub blob : List Instruction
  pub stands : AllStand d (blob_of s) blob
  pub routine : List ℕ
  pub found : drop (s.rom_address + data_words s) image ≡ routine ++ jump_word ∷ []
  pub copied :
      (j : ℕ)
      → j < data_words s
      → (execute routine m).mem (ram_base + j * 4) ≡ get_or (words_in blob) j 0
  pub below : (x : ℕ) → x < ram_base → (execute routine m).mem x ≡ m.mem x
  pub above : (x : ℕ) → ram_base + data_words s * 4 ≤ x → (execute routine m).mem x ≡ m.mem x
  pub jumps : jump_target jump_word (execute routine m) ≡ some (0xFFF00000 + 4 * a)

execute-append : (xs ys : List ℕ) (m : Machine) → execute (xs ++ ys) m ≡ execute ys (execute xs m)
unfolding execute
execute-append [] ys m = refl
execute-append (x ∷ xs) ys m = execute-append xs ys _

execute-routine :
    (n start a : ℕ) (m : Machine)
    → execute (copy_routine n start ++ load_register 15 (compute_hi_lo (pos a))) m
      ≡ entered a (execute (copy_routine n start) m)
execute-routine n start a m =
    rw execute-append (execute-entered a (execute (copy_routine n start) m))

-- The copy, read from the image that the ROM holds.
Copied-image :
    (n start : ℕ) (p b r e : List ℕ) (m o : Machine)
    → HoldsRom (p ++ (b ++ (r ++ e))) m
    → start ≡ length p
    → n ≡ length b
    → Copied (0xFFF00000 + 4 * start) ram_base n 0 m o
    → (j : ℕ) → j < n
    → o.mem (ram_base + j * 4) ≡ get_or b j 0
Copied-image n start p b r e m o holds hr hb c j h =
    let moved : 0xFFF00000 + 4 * start + j * 4 ≡ 0xFFF00000 + 4 * (start + j) = omega arith in
    let inside : start + j < length (p ++ (b ++ (r ++ e))) = omega (arith, length-parts p b r e) in
    c.copied j (omega arith) (omega arith)
    ∙ (ap m.mem moved
        ∙ (holds (start + j) inside
            ∙ get_or-parts p b r e (start + j) j (omega arith) (omega arith)))

-- The four parts of the image: the program, the blob, the copy routine and the entry.
module _ (d : Dict ℕ) (s : State) (a : ℕ) (m : Machine) (p b r e : List Instruction)
    (laid : IsLaid s) (before : length p ≡ length s.pending) (size : length b ≡ data_words s)
    (small : data_words s ≤ 8192) (fits : s.rom_address + data_words s ≤ 2 ^ 18)
    (reach : a < 2 ^ 18) where
  abbrev copy : List ℕ
  copy = copy_routine (data_words s) s.rom_address

  abbrev enter : List ℕ
  enter = load_register 15 (compute_hi_lo (pos a))

  abbrev parts : List ℕ
  parts = words_in p ++ (words_in b ++ (words_in r ++ words_in e))

  copied-parts :
      HoldsRom parts m
      → (j : ℕ) → j < data_words s
      → (execute copy m).mem (ram_base + j * 4) ≡ get_or (words_in b) j 0
  copied-parts holds =
      Copied-image (data_words s) s.rom_address (words_in p) (words_in b) (words_in r) (words_in e)
        m (execute copy m) holds (omega (arith, laid.addressed, length-words_in p))
        (omega (arith, length-words_in b))
        (execute-copy_routine (data_words s) s.rom_address m small fits)

  found-parts :
      words_in r ≡ copy
      → words_in e ≡ enter ++ jump_word ∷ []
      → drop (s.rom_address + data_words s) parts ≡ (copy ++ enter) ++ jump_word ∷ []
  found-parts hr he =
      drop-parts (words_in p) (words_in b) (words_in r) (words_in e) (s.rom_address + data_words s)
        (omega (arith, laid.addressed, length-words_in p, length-words_in b))
      ∙ (ap₂ (λ x y. x ++ y) hr he ∙ sym (append_assoc copy enter (jump_word ∷ [])))

  -- The entry changes registers only.
  after-enter : execute (copy ++ enter) m ≡ entered a (execute copy m)
  after-enter = execute-routine (data_words s) s.rom_address a m

  parts-Boots :
      AllStand d (blob_of s) b
      → words_in r ≡ copy
      → words_in e ≡ enter ++ jump_word ∷ []
      → HoldsRom parts m
      → Boots d s a parts m
  parts-Boots stand hr he holds =
      let c = execute-copy_routine (data_words s) s.rom_address m small fits in
      let same = λ (x : ℕ). ap (λ (o : Machine). o.mem x) after-enter in
      record {
        blob = b;
        stands = stand;
        routine = copy ++ enter;
        found = found-parts hr he;
        copied = λ j h. same (ram_base + j * 4) ∙ copied-parts holds j h;
        below = λ x h. same x ∙ c.below x (omega arith);
        above = λ x h. same x ∙ c.above x (omega arith);
        jumps = ap (jump_target jump_word) after-enter ∙ jump-entered a (execute copy m) reach;
      }

pub stood-Boots :
    (d : Dict ℕ) (s : State) (a : ℕ) (xs : List Instruction) (m : Machine)
    → IsLaid s
    → AllStand d (s.pending ++ injected s) xs
    → Dict.get d (codes "main") ≡ some a
    → data_words s ≤ 8192
    → s.rom_address + data_words s ≤ 2 ^ 18
    → a < 2 ^ 18
    → HoldsRom (words_in xs) m
    → Boots d s a (words_in xs) m
stood-Boots d s a xs m laid stand main small fits reach holds =
    let entry =
      pending_tokens hi_tokens 0 ∷ pending_tokens lo_tokens 0 ∷ words (jump_word ∷ []) 0 ∷ [] in
    let copy = copy_routine (data_words s) s.rom_address in
    let (p, x1, e1, n1, k1, l1) = AllStand-append d s.pending (injected s) xs stand in
    let (b, x2, e2, n2, k2, l2) = AllStand-append d (blob_of s) (literals copy ++ entry) x1 l1 in
    let (r, e, e3, n3, k3, l3) = AllStand-append d (literals copy) entry x2 l2 in
    let whole : words_in xs ≡ words_in p ++ (words_in b ++ (words_in r ++ words_in e)) =
      ap words_in (e1 ∙ ap (λ y. p ++ y) (e2 ∙ ap (λ y. b ++ y) e3)) ∙ words_in-parts p b r e in
    subst (λ image. HoldsRom image m → Boots d s a image m) (sym whole)
      (parts-Boots d s a m p b r e laid n1 (n2 ∙ length-blob_of s) small fits reach k2
        (AllStand-literals d copy r k3) (AllStand-entry d a e main l3))
      holds
