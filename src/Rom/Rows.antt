-- ===== src/Rom/Rows.antt =====
-- The rows that the loop writes give back every byte of the map.
use native.Mathlib.Decide.{dec_lt}
use procesador_32_bits.Base.{
  ℕ, zero, suc, ◌+◌, ◌-◌, ◌*◌, ◌/◌, ◌%◌, ◌≤◌, ◌<◌, ◌≡◌, refl, sym, ap, ◌∙◌, false, inl, inr,
  Bool-cases, ◌&&◌, List, [], ◌∷◌, arith, ltb, leb, length, get_or, if◌then◌else◌,
}
use procesador_32_bits.Text.{Text}
use procesador_32_bits.Rom.{
  ByteMap, get_byte, max_address, row_bytes, any_byte, row_line, write_rows, last_row_of,
}
use procesador_32_bits.Rom.Reader.{read_rows, read_rows-cons}

length-row_bytes : (n a : ℕ) (m : ByteMap) → length (row_bytes n a m) ≡ n
unfolding row_bytes
length-row_bytes zero a m = refl
length-row_bytes (suc n) a m = ap suc (length-row_bytes n (a + 1) m)

get_or-row_bytes :
    (n a i x : ℕ) (m : ByteMap) → i < n → x ≡ a + i → get_or (row_bytes n a m) i 0 ≡ get_byte m x
unfolding row_bytes
get_or-row_bytes zero a i x m h e = elim h [ ]
get_or-row_bytes (suc n) a zero x m h e = let q : a ≡ x = omega arith in ap (get_byte m) q
get_or-row_bytes (suc n) a (suc i) x m h e =
    get_or-row_bytes n (a + 1) i x m (omega arith) (omega arith)

-- A row that is left out holds zeros.
get_or-any_byte : (bs : List ℕ) (i : ℕ) → any_byte bs ≡ false → get_or bs i 0 ≡ 0
unfolding any_byte
get_or-any_byte [] i h = refl
get_or-any_byte (b ∷ bs) zero h = ground arith
get_or-any_byte (b ∷ bs) (suc i) h = get_or-any_byte bs i (ground arith)

-- Behind the largest address there is no byte.
get_byte-above : (m : ByteMap) (a : ℕ) → max_address m < a → get_byte m a ≡ 0
unfolding get_byte max_address
get_byte-above [] a h = refl
get_byte-above ((k, b) ∷ m) a h = ground (arith, get_byte-above m a)

-- One round of the loop.
abbrev with_row : ℕ → ByteMap → List Text → List Text
with_row row m rest =
    if any_byte (row_bytes 16 row m) then row_line row (row_bytes 16 row m) ∷ rest else rest

-- A row that is written, as a condition on the address.
read_row_bytes :
    (row a d : ℕ) (m : ByteMap) (rest : List Text)
    → read_rows (row_line row (row_bytes 16 row m) ∷ rest) a d
      ≡ read_rows rest a
          (if leb row a && ltb a (row + 16) then get_or (row_bytes 16 row m) (a - row) 0 else d)
unfolding row_bytes
read_row_bytes row a d m rest =
    read_rows-cons row (get_byte m row) (row_bytes 15 (row + 1) m) rest a d

with_row-inside :
    (row a : ℕ) (m : ByteMap) (rest : List Text)
    → row ≤ a
    → a < row + 16
    → read_rows (with_row row m rest) a 0 ≡ read_rows rest a (get_byte m a)
with_row-inside row a m rest lo hi =
    let byte : get_or (row_bytes 16 row m) (a - row) 0 ≡ get_byte m a =
      get_or-row_bytes 16 row (a - row) a m (omega arith) (omega arith) in
    elim (Bool-cases (any_byte (row_bytes 16 row m))) [
      | inl some_byte ↦
          rw (some_byte, read_row_bytes row a 0 m rest)
            (ap (read_rows rest a) (ground (arith, byte)))
      | inr no_byte ↦
          rw no_byte (ap (read_rows rest a) (sym (get_or-any_byte _ (a - row) no_byte) ∙ byte))
    ]

with_row-outside :
    (row a d : ℕ) (m : ByteMap) (rest : List Text)
    → (leb row a && ltb a (row + 16)) ≡ false
    → read_rows (with_row row m rest) a d ≡ read_rows rest a d
with_row-outside row a d m rest out = elim (Bool-cases (any_byte (row_bytes 16 row m))) [
  | inl some_byte ↦ rw (some_byte, read_row_bytes row a d m rest, out)
  | inr no_byte ↦ rw no_byte
]

-- The rows from `row` on say nothing of what stands before.
write_rows-before :
    (fuel row last a d : ℕ) (m : ByteMap) → a < row → read_rows (write_rows fuel row last m) a d ≡ d
unfolding write_rows read_rows
write_rows-before zero row last a d m h = refl
write_rows-before (suc fuel) row last a d m h = elim (Bool-cases (leb row last)) [
  | inl more ↦ rw more (
      with_row-outside row a d m (write_rows fuel (row + 16) last m) (ground arith)
      ∙ write_rows-before fuel (row + 16) last a d m (omega arith))
  | inr done ↦ rw done
]

-- With fuel for every row up to the last, each byte from `row` on is read back.
write_rows-from :
    (fuel row last a : ℕ) (m : ByteMap)
    → row ≤ a
    → row % 16 ≡ last % 16
    → max_address m < last + 16
    → last + 16 ≤ row + 16 * fuel
    → read_rows (write_rows fuel row last m) a 0 ≡ get_byte m a
unfolding write_rows read_rows
write_rows-from zero row last a m h e top enough = sym (get_byte-above m a (omega arith))
write_rows-from (suc fuel) row last a m h e top enough = elim (Bool-cases (leb row last)) [
  | inr done ↦ rw done (sym (get_byte-above m a (ground arith)))
  | inl more ↦ rw more (elim (dec_lt a (row + 16)) [
    | yes inside ↦
        with_row-inside row a m (write_rows fuel (row + 16) last m) h inside
        ∙ write_rows-before fuel (row + 16) last a (get_byte m a) m inside
    | no outside ↦
        with_row-outside row a 0 m (write_rows fuel (row + 16) last m) (ground arith)
        ∙ write_rows-from fuel (row + 16) last a m (omega arith) (omega arith) top (omega arith)
  ])
]

-- The rows of a map give back each of its bytes, and 0 where it has none.
pub read_rows-write_rows :
    (a : ℕ) (m : ByteMap)
    → read_rows (write_rows (last_row_of m / 16 + 1) 0 (last_row_of m) m) a 0 ≡ get_byte m a
read_rows-write_rows a m =
    write_rows-from (last_row_of m / 16 + 1) 0 (last_row_of m) a m (omega arith) (omega arith)
      (omega arith) (omega arith)
