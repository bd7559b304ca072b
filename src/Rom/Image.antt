-- ===== src/Rom/Image.antt =====
-- The words that a reader of the file finds: the image, and the reset vector at 0xFFFF0.
use mathlib.Core.Path.{subst}
use procesador_32_bits.Base.{
  ℕ, zero, suc, ◌+◌, ◌-◌, ◌*◌, ◌/◌, ◌^◌, ◌<◌, ◌≡◌, refl, sym, ap, ◌∙◌, true, false, ◌&&◌, List, [],
  ◌∷◌, ◌++◌, Option, some, arith, ◌==◌, ltb, leb, length, get_or, get_elem?, if◌then◌else◌,
  bit_and_mask, All,
}
use procesador_32_bits.Text.{Text}
use procesador_32_bits.Dict.{Dict}
use procesador_32_bits.Isa.Fields.{IsWord}
use procesador_32_bits.FirstPass.{DataMode}
use procesador_32_bits.SecondPass.{Instruction, Assembly, assemble_lines}
use procesador_32_bits.SecondPass.Image.{Numbered, HasWord, assemble_lines_image}
use procesador_32_bits.Rom.{
  ByteMap, get_byte, word_to_bytes, put_bytes, put_image, row_line, reset_bytes, reset_target,
  file_of, write_rom_logisim, last_row_of, write_rows,
}
use procesador_32_bits.Rom.Reader.{read_rows, read_byte, read_rows-append, read_rows-cons}
use procesador_32_bits.Rom.Rows.{read_rows-write_rows}

get_or-cons :
    (b i : ℕ) (bs : List ℕ) → get_or (b ∷ bs) i 0 ≡ (if i == 0 then b else get_or bs (i - 1) 0)
get_or-cons b zero bs = refl
get_or-cons b (suc i) bs = ground arith

get_byte-put_bytes :
    (bs : List ℕ) (a x : ℕ) (m : ByteMap)
    → get_byte (put_bytes a bs m) x
      ≡ (if leb a x && ltb x (a + length bs) then get_or bs (x - a) 0 else get_byte m x)
unfolding put_bytes get_byte
get_byte-put_bytes [] a x m = ground arith
get_byte-put_bytes (b ∷ bs) a x m =
    get_byte-put_bytes bs (a + 1) x ((a, b) ∷ m) ∙ ground (arith, get_or-cons b (x - a) bs)

pub ap₄ :
    (f : ℕ → ℕ → ℕ → ℕ → ℕ) {a b c d a' b' c' d' : ℕ}
    → a ≡ a'
    → b ≡ b'
    → c ≡ c'
    → d ≡ d'
    → f a b c d ≡ f a' b' c' d'
ap₄ f p q r s = cc

-- Four bytes, the highest first, rebuild the word.
abbrev pub big_endian : ℕ → ℕ → ℕ → ℕ → ℕ
big_endian b0 b1 b2 b3 = b0 * 2 ^ 24 + b1 * 2 ^ 16 + b2 * 2 ^ 8 + b3

abbrev pub word_at : (ℕ → ℕ) → ℕ → ℕ
word_at byte k = big_endian (byte (4 * k)) (byte (4 * k + 1)) (byte (4 * k + 2)) (byte (4 * k + 3))

pub word_to_bytes_word : (w : ℕ) → IsWord w → word_at (λ i. get_or (word_to_bytes w) i 0) 0 ≡ w
unfolding word_to_bytes
word_to_bytes_word w h = omega (
  arith,
  bit_and_mask 8 (w / 2 ^ 24),
  bit_and_mask 8 (w / 2 ^ 16),
  bit_and_mask 8 (w / 2 ^ 8),
  bit_and_mask 8 w,
)

-- The words of a numbered list, written from `n` on: what stands before stays.
put_image-before :
    (n x : ℕ) (xs : List Instruction) (m : ByteMap)
    → Numbered n xs
    → x < 4 * n
    → get_byte (put_image xs m) x ≡ get_byte m x
unfolding put_image word_to_bytes
put_image-before n x [] m h lt = refl
put_image-before n x (i ∷ is) m h lt =
    put_image-before (n + 1) x is (put_bytes (i.address * 4) (word_to_bytes i.word) m) h.1
      (omega arith)
    ∙ (get_byte-put_bytes (word_to_bytes i.word) (i.address * 4) x m ∙ ground (arith, h.0))

-- An address inside the bytes of a word.
inside_word :
    (a x c : ℕ) (bs : List ℕ) (m : ByteMap)
    → x ≡ a + c
    → c < length bs
    → (if leb a x && ltb x (a + length bs) then get_or bs (x - a) 0 else get_byte m x)
      ≡ get_or bs c 0
inside_word a x c bs m e h =
    let offset : x - a ≡ c = omega arith in
    let here : (leb a x && ltb x (a + length bs)) ≡ true = ground arith in rw (here, offset)

put_image-byte :
    (n j c x : ℕ) (xs : List Instruction) (m : ByteMap) {i : Instruction}
    → Numbered n xs
    → get_elem? xs j ≡ some i
    → c < 4
    → x ≡ 4 * (n + j) + c
    → get_byte (put_image xs m) x ≡ get_or (word_to_bytes i.word) c 0
unfolding put_image word_to_bytes
put_image-byte n j c x [] m h e lt at = absurd (cc)
put_image-byte n zero c x (y ∷ ys) m {i} h e lt at =
    let same : y ≡ i = cc in
    put_image-before (n + 1) x ys (put_bytes (y.address * 4) (word_to_bytes y.word) m) h.1
      (omega arith)
    ∙ (get_byte-put_bytes (word_to_bytes y.word) (y.address * 4) x m
        ∙ (inside_word (y.address * 4) x c (word_to_bytes y.word) m (omega (arith, h.0)) lt
            ∙ ap (λ (z : Instruction). get_or (word_to_bytes z.word) c 0) same))
put_image-byte n (suc j) c x (y ∷ ys) m h e lt at =
    put_image-byte (n + 1) j c x ys (put_bytes (y.address * 4) (word_to_bytes y.word) m) h.1 e lt
      (omega arith)

-- A last row of sixteen bytes.
read_rows-last :
    (row a d b : ℕ) (bs bytes : List ℕ)
    → bytes ≡ b ∷ bs
    → length bytes ≡ 16
    → read_rows (row_line row bytes ∷ []) a d
      ≡ (if leb row a && ltb a (row + 16) then get_or bytes (a - row) 0 else d)
unfolding read_rows
read_rows-last row a d b bs bytes e size =
    let total : length (b ∷ bs) ≡ 16 = ap length (sym e) ∙ size in
    rw e (
      read_rows-cons row b bs [] a d
      ∙ ap (λ n. if leb row a && ltb a (row + n) then get_or (b ∷ bs) (a - row) 0 else d) total)

reset_bytes_row :
    (target : ℕ)
    → (b : ℕ) × (bs : List ℕ) × (reset_bytes target ≡ b ∷ bs) × (length (reset_bytes target) ≡ 16)
unfolding reset_bytes
reset_bytes_row target = (_, _, refl, refl)

read_byte-rows :
    (header : Text) (rows : List Text) (a : ℕ) → read_byte (header ∷ rows) a ≡ read_rows rows a 0
unfolding read_byte
read_byte-rows header rows a = refl

-- The byte of the file at an address: that of the reset vector, or that of the image.
pub read_byte-file_of :
    (m : ByteMap) (target a : ℕ)
    → read_byte (file_of m target) a ≡ (
        if leb 0xFFFF0 a && ltb a (0xFFFF0 + 16)
        then get_or (reset_bytes target) (a - 0xFFFF0) 0
        else get_byte m a)
read_byte-file_of m target a =
    let rows = write_rows (last_row_of m / 16 + 1) 0 (last_row_of m) m in
    let reset = row_line 0xFFFF0 (reset_bytes target) ∷ [] in
    let (b, bs, e, size) = reset_bytes_row target in
    read_byte-rows _ (rows ++ reset) a
    ∙ (read_rows-append rows reset a 0
        ∙ (ap (read_rows reset a) (read_rows-write_rows a m)
            ∙ read_rows-last 0xFFFF0 a (get_byte m a) b bs (reset_bytes target) e size))

-- The word that the file has at the word index of an instruction is the instruction's word.
file_of-word :
    (xs : List Instruction) (target k : ℕ) {x : Instruction}
    → Numbered 0 xs
    → get_elem? xs k ≡ some x
    → IsWord x.word
    → k < 0x3FFFC
    → word_at (read_byte (file_of (put_image xs []) target)) k ≡ x.word
file_of-word xs target k {x} h e w lt =
    ap₄ big_endian (byte 0 (4 * k) (omega arith) (omega arith))
      (byte 1 (4 * k + 1) (omega arith) (omega arith))
      (byte 2 (4 * k + 2) (omega arith) (omega arith))
      (byte 3 (4 * k + 3) (omega arith) (omega arith))
    ∙ word_to_bytes_word x.word w
  where
    byte :
        (c a : ℕ)
        → c < 4
        → a ≡ 4 * (0 + k) + c
        → read_byte (file_of (put_image xs []) target) a ≡ get_or (word_to_bytes x.word) c 0
    byte c a hc ha =
        let out : (leb 0xFFFF0 a && ltb a (0xFFFF0 + 16)) ≡ false = ground arith in
        read_byte-file_of (put_image xs []) target a
        ∙ (ap
              (λ t.
                if t
                then get_or (reset_bytes target) (a - 0xFFFF0) 0
                else get_byte (put_image xs []) a)
              out
            ∙ put_image-byte 0 k c a xs [] h e hc ha)

All-get_elem? :
    (P : Instruction → Type 0) (xs : List Instruction) (k : ℕ) {x : Instruction}
    → All P xs
    → get_elem? xs k ≡ some x
    → P x
All-get_elem? P [] k h e = absurd (cc)
All-get_elem? P (y ∷ ys) zero {x} h e = let same : y ≡ x = cc in subst P same h.0
All-get_elem? P (y ∷ ys) (suc k) h e = All-get_elem? P ys k h.1 e

pub written :
    (xs : List Instruction) (d : Option (Dict ℕ)) (mode : DataMode) (start : Option ℕ) (k : ℕ)
    {x : Instruction}
    → Numbered 0 xs
    → All HasWord xs
    → get_elem? xs k ≡ some x
    → k < 0x3FFFC
    → (file : List Text) × (write_rom_logisim xs d mode start ≡ some file)
      × (word_at (read_byte file) k ≡ x.word)
unfolding write_rom_logisim
written [] d mode start k n f e lt = absurd (cc)
written (y ∷ ys) d mode start k n f e lt = (
  file_of (put_image (y ∷ ys) []) (reset_target (y ∷ ys) d mode start),
  refl,
  file_of-word (y ∷ ys) (reset_target (y ∷ ys) d mode start) k n e
      (All-get_elem? HasWord (y ∷ ys) k f e) lt,
)

-- The file that `write_rom_logisim` makes of an assembled image holds each of its words, the highest
-- byte first, at the word's address, below the reset vector.
pub write_rom_logisim-word :
    (lines : List Text) (mode : DataMode) (relocs : List (ℕ × Text)) (k : ℕ) {x : Instruction}
    → let out : Assembly = assemble_lines lines mode relocs in
      get_elem? out.instructions k ≡ some x
      → k < 0x3FFFC
      → (file : List Text) × (write_rom_logisim out.instructions
            (some out.label_map)
            mode
            out.text_start_word
          ≡ some file)
        × (word_at (read_byte file) k ≡ x.word)
write_rom_logisim-word lines mode relocs k e lt =
    let out = assemble_lines lines mode relocs in
    let (numbered, fits, _) = assemble_lines_image lines mode relocs in
    written out.instructions (some out.label_map) mode out.text_start_word k numbered fits e lt
