-- ===== src/SecondPass/Image.antt =====
-- The image of the second pass: one 32-bit word for each entry of the first, numbered from 0.
use procesador_32_bits.Base.{
  ℕ, ◌+◌, ◌≡◌, refl, List, [], ◌∷◌, ◌++◌, none, some, arith, All, All-append, length, length-append,
}
use procesador_32_bits.Base.Int.{ℤ, low_bits}
use procesador_32_bits.Base.Result.{ok, err}
use procesador_32_bits.Text.{Text}
use procesador_32_bits.Dict.{Dict}
use procesador_32_bits.Errors.{Parsed}
use procesador_32_bits.Address.{target_address}
use procesador_32_bits.Isa.Fields.{IsWord}
use procesador_32_bits.Expression.{eval_label_expr}
use procesador_32_bits.Encode.{encode_single}
use procesador_32_bits.Encode.Words.{encode_single-Encodes}
use procesador_32_bits.FirstPass.{
  DataMode, PendingInstruction, report_of, words, pending_tokens, raw_word,
}
use procesador_32_bits.FirstPass.Start.{first_pass}
use procesador_32_bits.FirstPass.Layout.{IsSound}
use procesador_32_bits.FirstPass.Layout.Handlers.{low_bits-lt}
use procesador_32_bits.FirstPass.Layout.Finish.{first_pass-IsSound}
use procesador_32_bits.SecondPass.{
  Instruction, Output, put_word, put_words, put_parsed, raw_address, resolve, resolve_all,
  second_pass, assemble_lines,
}

-- The addresses count up from `n`.
abbrev pub Numbered : ℕ → List Instruction → Type 0
Numbered n [] = Unit
Numbered n (i ∷ is) = (i.address ≡ n) × Numbered (n + 1) is

abbrev pub HasWord : Instruction → Type 0
HasWord i = IsWord i.word

Numbered-append :
    (n m : ℕ) (is : List Instruction) (i : Instruction)
    → Numbered n is
    → n + length is ≡ m
    → i.address ≡ m
    → Numbered n (is ++ i ∷ [])
Numbered-append n m [] i h e a = (omega arith, tt)
Numbered-append n m (x ∷ xs) i h e a = (h.0, Numbered-append (n + 1) m xs i h.1 (omega arith) a)

record IsImage (o : Output) : Type 0 where
  counted : o.address ≡ length o.result
  numbered : Numbered 0 o.result
  fits : All HasWord o.result

put_word-IsImage : (line w : ℕ) (o : Output) → IsWord w → IsImage o → IsImage (put_word line w o)
unfolding put_word
put_word-IsImage line w o k h =
    let i : Instruction = record { src_line = line; address = o.address; word = w } in
    record {
      counted = omega (arith, h.counted, length-append o.result (i ∷ []));
      numbered = Numbered-append 0 o.address o.result i h.numbered (omega (arith, h.counted)) refl;
      fits = All-append HasWord o.result (i ∷ []) h.fits (k, tt);
    }

length-put_word :
    (line w : ℕ) (o : Output) → length (put_word line w o).result ≡ length o.result + 1
unfolding put_word
length-put_word line w o =
    omega (
      arith,
      length-append o.result (record { src_line = line; address = o.address; word = w } ∷ []),
    )

-- What `resolve` does to an output: one word more.
abbrev Extends : Output → Output → Type 0
Extends o p = (IsImage o → IsImage p) × (length p.result ≡ length o.result + 1)

put_word-Extends : (line w : ℕ) (o : Output) → IsWord w → Extends o (put_word line w o)
put_word-Extends line w o k = (put_word-IsImage line w o k, length-put_word line w o)

put_parsed-Extends :
    (r : Parsed ℕ) (line : ℕ) (o : Output)
    → ((w : ℕ) → r ≡ ok w → IsWord w)
    → Extends o (put_parsed r line o)
unfolding put_parsed
put_parsed-Extends (ok w) line o k = put_word-Extends line w o (k w refl)
put_parsed-Extends (err e) line o k =
    let o' = record o { errors = o.errors ++ report_of e ∷ [] } in
    (
      (λ h.
          put_word-IsImage line 0 o' (omega arith)
            (record { counted = h.counted; numbered = h.numbered; fits = h.fits })),
      length-put_word line 0 o',
    )

raw_address-IsWord : (r : Parsed ℤ) (line w : ℕ) → raw_address r line ≡ ok w → IsWord w
unfolding raw_address
raw_address-IsWord (ok a) line w h =
    let e : low_bits 32 (target_address a) ≡ w = cc in
    omega (arith, e, low_bits-lt 32 (target_address a))
raw_address-IsWord (err e) line w h = absurd (cc)

resolve-Extends :
    (d : Dict ℕ) (i : PendingInstruction) (o : Output) → IsSound i → Extends o (resolve d i o)
unfolding resolve put_words
resolve-Extends d (raw_word val none line) o k = put_word-Extends line val o k
resolve-Extends d (raw_word val (some expr) line) o k =
    put_parsed-Extends (raw_address (eval_label_expr expr d) line) line o
      (raw_address-IsWord (eval_label_expr expr d) line)
resolve-Extends d (pending_tokens tokens line) o k =
    put_parsed-Extends (encode_single tokens line (some d)) line o
      λ w h. let (p, m, e, f, g) = encode_single-Encodes tokens line (some d) w h in g.word
resolve-Extends d (words [] line) o k = elim k [ ]
resolve-Extends d (words (w ∷ []) line) o k = put_word-Extends line w o k
resolve-Extends d (words (w ∷ v ∷ ws) line) o k = elim k [ ]

resolve_all-IsImage :
    (d : Dict ℕ) (is : List PendingInstruction) (o : Output)
    → All IsSound is
    → IsImage o
    → IsImage (resolve_all d is o)
      × (length (resolve_all d is o).result ≡ length o.result + length is)
unfolding resolve_all
resolve_all-IsImage d [] o k h = (h, omega arith)
resolve_all-IsImage d (i ∷ is) o k h =
    let (keeps, grows) = resolve-Extends d i o k.0 in
    let (image, size) = resolve_all-IsImage d is (resolve d i o) k.1 (keeps h) in
    (image, omega (arith, grows, size))

-- Of sound entries the second pass makes as many 32-bit words, at the addresses 0, 1, 2 and so on,
-- also where it reports errors.
pub second_pass_image :
    (d : Dict ℕ) (pending : List PendingInstruction)
    → All IsSound pending
    → Numbered 0 (second_pass d pending).result
      × All HasWord (second_pass d pending).result
      × (length (second_pass d pending).result ≡ length pending)
unfolding second_pass
second_pass_image d pending k =
    let (image, size) =
      resolve_all-IsImage d pending (record { result = []; errors = []; address = 0 }) k
        (record { counted = refl; numbered = tt; fits = tt }) in
    (image.numbered, image.fits, omega (arith, size))

-- Whatever the lines and the mode, `assemble_lines` gives 32-bit words at the addresses 0, 1, 2 and so
-- on, one for each pending entry of the first pass, also where it reports errors. Where the ValueError of a
-- string ends the first pass, this is said of the entries up to there.
pub assemble_lines_image :
    (lines : List Text) (mode : DataMode) (relocs : List (ℕ × Text))
    → Numbered 0 (assemble_lines lines mode relocs).instructions
      × All HasWord (assemble_lines lines mode relocs).instructions
      × (length (assemble_lines lines mode relocs).instructions
          ≡ length (first_pass lines mode relocs).pending)
unfolding assemble_lines
assemble_lines_image lines mode relocs =
    let s = first_pass lines mode relocs in
    second_pass_image s.label_map s.pending (first_pass-IsSound lines mode relocs)
