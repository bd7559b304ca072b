-- ===== src/SecondPass/Resolved.antt =====
-- If the second pass reports no error, every word is what its entry stands for.
use procesador_32_bits.Base.{
  ℕ, ◌≡◌, refl, sym, ◌∙◌, ap, List, [], ◌∷◌, ◌++◌, append_assoc, append-nil, none, some, All,
}
use procesador_32_bits.Base.Int.{ℤ, low_bits}
use procesador_32_bits.Base.Result.{ok, err}
use procesador_32_bits.Dict.{Dict}
use procesador_32_bits.Errors.{Parsed}
use procesador_32_bits.Address.{target_address}
use procesador_32_bits.Expression.{eval_label_expr}
use procesador_32_bits.Encode.{encode_single}
use procesador_32_bits.FirstPass.{PendingInstruction, words, pending_tokens, raw_word}
use procesador_32_bits.FirstPass.Layout.{IsSound}
use procesador_32_bits.SecondPass.{
  Instruction, Output, put_word, put_words, put_parsed, raw_address, resolve, resolve_all,
  second_pass,
}

-- The specification of one entry: its literal word, the 32-bit address of its expression, or the
-- encoding of its tokens under the label map.
abbrev pub Stands : Dict ℕ → PendingInstruction → Instruction → Type 0
Stands d (words ws line) x = (x.src_line ≡ line) × (ws ≡ x.word ∷ [])
Stands d (pending_tokens tokens line) x =
    (x.src_line ≡ line) × (encode_single tokens line (some d) ≡ ok x.word)
Stands d (raw_word val none line) x = (x.src_line ≡ line) × (x.word ≡ val)
Stands d (raw_word val (some expr) line) x =
    (x.src_line ≡ line)
    × (address : ℤ) × (eval_label_expr expr d ≡ ok address)
    × (x.word ≡ low_bits 32 (target_address address))

-- The entries and the words, one by one.
abbrev pub AllStand : Dict ℕ → List PendingInstruction → List Instruction → Type 0
AllStand d [] [] = Unit
AllStand d (i ∷ is) (x ∷ xs) = Stands d i x × AllStand d is xs
AllStand d _ _ = ⊥

-- One word more, with no error before or since.
abbrev Adds : Output → Output → (Instruction → Type 0) → Type 0
Adds o p P = (x : Instruction) × (p.result ≡ o.result ++ x ∷ []) × (o.errors ≡ []) × P x

ne_nil : {A : Type 0} (xs : List A) (x : A) → xs ++ x ∷ [] ≡ [] → ⊥
ne_nil [] x e = cc
ne_nil (y ∷ ys) x e = cc

put_parsed-Adds :
    (r : Parsed ℕ) (line : ℕ) (o : Output)
    → (put_parsed r line o).errors ≡ []
    → Adds o (put_parsed r line o) (λ x. (x.src_line ≡ line) × (r ≡ ok x.word))
unfolding put_parsed put_word
put_parsed-Adds (ok w) line o e =
    (record { src_line = line; address = o.address; word = w }, refl, e, (refl, refl))
put_parsed-Adds (err x) line o e = absurd (ne_nil o.errors _ e)

raw_address-eq-ok :
    (r : Parsed ℤ) (line w : ℕ)
    → raw_address r line ≡ ok w
    → (address : ℤ) × (r ≡ ok address) × (w ≡ low_bits 32 (target_address address))
unfolding raw_address
raw_address-eq-ok (ok a) line w h = (a, refl, cc)
raw_address-eq-ok (err e) line w h = absurd (cc)

resolve-Adds :
    (d : Dict ℕ) (i : PendingInstruction) (o : Output)
    → IsSound i
    → (resolve d i o).errors ≡ []
    → Adds o (resolve d i o) (Stands d i)
unfolding resolve put_words put_word
resolve-Adds d (raw_word val none line) o k e =
    (record { src_line = line; address = o.address; word = val }, refl, e, (refl, refl))
resolve-Adds d (raw_word val (some expr) line) o k e =
    let (x, r, f, (l, q)) = put_parsed-Adds (raw_address (eval_label_expr expr d) line) line o e in
    let (a, p, w) = raw_address-eq-ok (eval_label_expr expr d) line x.word q in
    (x, r, f, (l, a, p, w))
resolve-Adds d (pending_tokens tokens line) o k e =
    put_parsed-Adds (encode_single tokens line (some d)) line o e
resolve-Adds d (words [] line) o k e = elim k [ ]
resolve-Adds d (words (w ∷ []) line) o k e =
    (record { src_line = line; address = o.address; word = w }, refl, e, (refl, refl))
resolve-Adds d (words (w ∷ v ∷ ws) line) o k e = elim k [ ]

resolve_all-AllStand :
    (d : Dict ℕ) (is : List PendingInstruction) (o : Output)
    → All IsSound is
    → (resolve_all d is o).errors ≡ []
    → (xs : List Instruction) × ((resolve_all d is o).result ≡ o.result ++ xs)
      × (o.errors ≡ [])
      × AllStand d is xs
unfolding resolve_all
resolve_all-AllStand d [] o k e = ([], sym (append-nil o.result), e, tt)
resolve_all-AllStand d (i ∷ is) o k e =
    let (xs, r, e1, stand) = resolve_all-AllStand d is (resolve d i o) k.1 e in
    let (x, r1, e0, here) = resolve-Adds d i o k.0 e1 in
    (x ∷ xs, r ∙ (ap (λ l. l ++ xs) r1 ∙ append_assoc o.result (x ∷ []) xs), e0, (here, stand))

-- With no error reported, the result lists for each entry, in order, the word that it stands for, with
-- the source line of the entry.
pub second_pass-AllStand :
    (d : Dict ℕ) (pending : List PendingInstruction)
    → All IsSound pending
    → (second_pass d pending).errors ≡ []
    → AllStand d pending (second_pass d pending).result
unfolding second_pass
second_pass-AllStand d pending k e =
    let (xs, r, e0, stand) =
      resolve_all-AllStand d pending (record { result = []; errors = []; address = 0 }) k e in
    rw r stand
