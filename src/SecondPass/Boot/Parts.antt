-- ===== src/SecondPass/Boot/Parts.antt =====
-- The parts of an image of the second pass and their words.
use procesador_32_bits.Base.{
  ℕ, suc, ◌+◌, ◌<◌, ◌≤◌, ◌≡◌, refl, sym, ap, ◌∙◌, List, [], ◌∷◌, ◌++◌, append_assoc, some, arith,
  length, length-append, map, drop, get_or, drop-append_left, get_or-append_left,
  get_or-append_right,
}
use mathlib.Core.List.{map-append}
use procesador_32_bits.Base.Int.{pos}
use procesador_32_bits.Text.{codes}
use procesador_32_bits.Dict
use procesador_32_bits.Dict.{Dict}
use procesador_32_bits.Address.{compute_hi_lo}
use procesador_32_bits.FirstPass.{PendingInstruction, words, pending_tokens}
use procesador_32_bits.FirstPass.Start.{jump_word, load_register}
use procesador_32_bits.FirstPass.Start.Placed.{literals}
use procesador_32_bits.FirstPass.Start.Entry.{hi_tokens, lo_tokens, encode_main_hi, encode_main_lo}
use procesador_32_bits.SecondPass.{Instruction}
use procesador_32_bits.SecondPass.Resolved.{AllStand}

abbrev pub words_in : List Instruction → List ℕ
words_in = map λ x. x.word

pub AllStand-append :
    (d : Dict ℕ) (is js : List PendingInstruction) (xs : List Instruction)
    → AllStand d (is ++ js) xs
    → (ys : List Instruction) × (zs : List Instruction) × (xs ≡ ys ++ zs)
      × (length ys ≡ length is)
      × AllStand d is ys
      × AllStand d js zs
AllStand-append d [] js xs h = ([], xs, refl, refl, tt, h)
AllStand-append d (i ∷ is) js [] h = elim h [ ]
AllStand-append d (i ∷ is) js (x ∷ xs) h =
    let (ys, zs, e, n, k, l) = AllStand-append d is js xs h.1 in
    (x ∷ ys, zs, ap (λ r. x ∷ r) e, ap suc n, (h.0, k), l)

pub AllStand-literals :
    (d : Dict ℕ) (ws : List ℕ) (xs : List Instruction)
    → AllStand d (literals ws) xs
    → words_in xs ≡ ws
AllStand-literals d [] [] h = refl
AllStand-literals d [] (x ∷ xs) h = elim h [ ]
AllStand-literals d (w ∷ ws) [] h = elim h [ ]
AllStand-literals d (w ∷ ws) (x ∷ xs) h =
    let rest = AllStand-literals d ws xs h.1 in cc (h.0.1, rest)

-- The last three entries are the load of main and the jump.
pub AllStand-entry :
    (d : Dict ℕ) (a : ℕ) (xs : List Instruction)
    → Dict.get d (codes "main") ≡ some a
    → AllStand d
        (pending_tokens hi_tokens 0 ∷ pending_tokens lo_tokens 0 ∷ words (jump_word ∷ []) 0 ∷ [])
        xs
    → words_in xs ≡ load_register 15 (compute_hi_lo (pos a)) ++ jump_word ∷ []
unfolding load_register
AllStand-entry d a (x ∷ y ∷ z ∷ []) e (h0, (h1, (h2, h))) =
    let upper = sym h0.1 ∙ encode_main_hi d a e in
    let lower = sym h1.1 ∙ encode_main_lo d a e in cc (upper, lower, h2.1)
AllStand-entry d a [] e h = elim h [ ]
AllStand-entry d a (x ∷ []) e h = elim h.1 [ ]
AllStand-entry d a (x ∷ y ∷ []) e h = elim h.1.1 [ ]
AllStand-entry d a (x ∷ y ∷ z ∷ w ∷ xs) e h = elim h.1.1.1 [ ]

pub length-words_in : (xs : List Instruction) → length (words_in xs) ≡ length xs
length-words_in [] = refl
length-words_in (x ∷ xs) = ap suc (length-words_in xs)

-- The four parts of an image, and where they lie.
module _ (p b r e : List ℕ) where
  pub drop-parts : (k : ℕ) → k ≡ length p + length b → drop k (p ++ (b ++ (r ++ e))) ≡ r ++ e
  drop-parts k h =
      let size : k ≡ length (p ++ b) = omega (arith, h, length-append p b) in
      rw (size, ← append_assoc p b (r ++ e)) (drop-append_left (p ++ b) (r ++ e))

  pub get_or-parts :
      (k j : ℕ) → k ≡ length p + j → j < length b → get_or (p ++ (b ++ (r ++ e))) k 0 ≡ get_or b j 0
  get_or-parts k j h lt =
      get_or-append_right p (b ++ (r ++ e)) k j 0 h ∙ get_or-append_left b (r ++ e) j 0 lt

  pub length-parts : length p + length b ≤ length (p ++ (b ++ (r ++ e)))
  length-parts = omega (arith, length-append p (b ++ (r ++ e)), length-append b (r ++ e))

pub words_in-parts :
    (p b r e : List Instruction)
    → words_in (p ++ (b ++ (r ++ e))) ≡ words_in p ++ (words_in b ++ (words_in r ++ words_in e))
words_in-parts p b r e = simp map-append
