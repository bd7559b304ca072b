-- ===== src/FirstPass/Start/Copy.antt =====
-- The execution of the copy part of `.start`.
use native.Mathlib.Decide.{dec_lt}
use mathlib.Core.Path.{subst}
use procesador_32_bits.Base.{
  bit_or, bit_or_low, ◌<<◌, ap, ◌∙◌, sym, ℕ, zero, suc, ◌+◌, ◌*◌, ◌%◌, ◌^◌, ◌<◌, ◌≤◌, ◌≡◌, refl,
  List, ◌++◌, arith,
}
use procesador_32_bits.Base.Int.{pos}
use procesador_32_bits.Isa.{Mnemonic, opcode, build_word, ldi, adi, lod, str}
use procesador_32_bits.Isa.Fields.{build_word_operands, opcode-lt, two_fields}
use procesador_32_bits.Address.{compute_hi_lo}
use procesador_32_bits.Address.HiLo.{load, load_rom, compute_hi_lo-lt}
use procesador_32_bits.FirstPass.{ram_base}
use procesador_32_bits.FirstPass.Start.{load_register, copy_words, copy_routine}
use procesador_32_bits.Machine.{add_signed, Machine, put, put_reg, act, step, execute}

step-build_word :
    (tipo : ℕ) (k : Mnemonic) (a b r x : ℕ) (m : Machine)
    → tipo < 2 ^ 3
    → a < 2 ^ 4
    → b < 2 ^ 4
    → r < 2 ^ 16
    → x ≡ a * 2 ^ 20 + b * 2 ^ 16 + r
    → step (build_word tipo (opcode k) x) m ≡ act tipo (opcode k) a b r m
unfolding step
step-build_word tipo k a b r x m ht ha hb hr e =
    let f = build_word_operands tipo (opcode k) a b r x ht (opcode-lt k) ha hb hr e refl in
    rw (f.1, f.2, f.4, f.5, f.6)

-- A word offset of the routine is below 0x8000, so its sign bit is clear.
add_signed_offset :
    (base i : ℕ)
    → i < 8192
    → base + i * 4 < 2 ^ 32
    → add_signed base (i * 4 % 2 ^ 16) ≡ base + i * 4
add_signed_offset base i hi h = ground arith

abbrev lod_word : ℕ → ℕ
lod_word i = build_word 0b010 (opcode lod) (bit_or (bit_or (15 << 20) (2 << 16)) (i * 4 % 2 ^ 16))

abbrev str_word : ℕ → ℕ
str_word i = build_word 0b010 (opcode str) (bit_or (bit_or (1 << 20) (2 << 16)) (i * 4 % 2 ^ 16))

step-lod_word :
    (src i : ℕ) (m : Machine)
    → m.reg 15 ≡ src
    → i < 8192
    → src + i * 4 < 2 ^ 32
    → step (lod_word i) m ≡ record m { reg = put 2 (m.mem (src + i * 4)) m.reg }
unfolding opcode
step-lod_word src i m e hi hs =
    let lt : i * 4 % 2 ^ 16 < 2 ^ 16 = omega arith in
    let decoded =
      step-build_word 2 lod 15 2 (i * 4 % 2 ^ 16) _ m (omega arith) (omega arith) (omega arith) lt
        (two_fields 15 2 (i * 4 % 2 ^ 16) (omega arith) lt) in
    let address : add_signed (m.reg 15) (i * 4 % 2 ^ 16) ≡ src + i * 4 =
      ap (λ b. add_signed b (i * 4 % 2 ^ 16)) e ∙ add_signed_offset src i hi hs in
    decoded ∙ ap (λ a. record m { reg = put 2 (m.mem a) m.reg }) address

step-str_word :
    (dst i : ℕ) (m : Machine)
    → m.reg 1 ≡ dst
    → i < 8192
    → dst + i * 4 < 2 ^ 32
    → step (str_word i) m ≡ record m { mem = put (dst + i * 4) (m.reg 2) m.mem }
unfolding opcode
step-str_word dst i m e hi hd =
    let lt : i * 4 % 2 ^ 16 < 2 ^ 16 = omega arith in
    let decoded =
      step-build_word 2 str 1 2 (i * 4 % 2 ^ 16) _ m (omega arith) (omega arith) (omega arith) lt
        (two_fields 1 2 (i * 4 % 2 ^ 16) (omega arith) lt) in
    let address : add_signed (m.reg 1) (i * 4 % 2 ^ 16) ≡ dst + i * 4 =
      ap (λ b. add_signed b (i * 4 % 2 ^ 16)) e ∙ add_signed_offset dst i hi hd in
    decoded ∙ ap (λ a. record m { mem = put a (m.reg 2) m.mem }) address

-- The machine after one word is copied.
abbrev copied_word : ℕ → ℕ → ℕ → Machine → Machine
copied_word src dst i m = record {
  reg = put 2 (m.mem (src + i * 4)) m.reg;
  mem = put (dst + i * 4) (m.mem (src + i * 4)) m.mem;
}

copy_pair :
    (src dst i : ℕ) (m : Machine)
    → m.reg 15 ≡ src
    → m.reg 1 ≡ dst
    → i < 8192
    → dst + i * 4 < 2 ^ 32
    → src + i * 4 < 2 ^ 32
    → step (str_word i) (step (lod_word i) m) ≡ copied_word src dst i m
copy_pair src dst i m h15 h1 hi hd hs =
    ap (step (str_word i)) (step-lod_word src i m h15 hi hs)
    ∙ step-str_word dst i (record m { reg = put 2 (m.mem (src + i * 4)) m.reg }) h1 hi hd

-- `o` has at `dst` the words `i` to `i + n` that `m` has at `src`, and otherwise its memory.
pub record Copied (src dst n i : ℕ) (m o : Machine) : Type 0 where
  pub copied : (j : ℕ) → i ≤ j → j < i + n → o.mem (dst + j * 4) ≡ m.mem (src + j * 4)
  pub below : (a : ℕ) → a < dst + i * 4 → o.mem a ≡ m.mem a
  pub above : (a : ℕ) → dst + (i + n) * 4 ≤ a → o.mem a ≡ m.mem a

Copied-suc :
    (src dst n i : ℕ) (m o : Machine)
    → dst + (i + suc n) * 4 ≤ src
    → Copied src dst n (i + 1) (copied_word src dst i m) o
    → Copied src dst (suc n) i m o
Copied-suc src dst n i m o hd c = record {
  copied = λ j hi hj. elim (dec_lt i j) [
    | yes later ↦ c.copied j (omega arith) (omega arith) ∙ ground arith
    | no now ↦
        let e : j ≡ i = omega arith in rw e (c.below (dst + i * 4) (omega arith) ∙ ground arith)
  ];
  below = λ a h. c.below a (omega arith) ∙ ground arith;
  above = λ a h. c.above a (omega arith) ∙ ground arith;
}

execute-copy_words :
    (src dst n i : ℕ) (m : Machine)
    → m.reg 15 ≡ src
    → m.reg 1 ≡ dst
    → i + n ≤ 8192
    → dst + (i + n) * 4 ≤ src
    → src + (i + n) * 4 ≤ 2 ^ 32
    → Copied src dst n i m (execute (copy_words n i) m)
unfolding execute copy_words
execute-copy_words src dst zero i m h15 h1 hn hd hs = record {
  copied = λ j hi hj. absurd (omega arith);
  below = λ a h. refl;
  above = λ a h. refl;
}
execute-copy_words src dst (suc n) i m h15 h1 hn hd hs =
    let pair = copy_pair src dst i m h15 h1 (omega arith) (omega arith) (omega arith) in
    let rest =
      execute-copy_words src dst n (i + 1) (copied_word src dst i m) h15 h1 (omega arith)
        (omega arith) (omega arith) in
    subst (λ p. Copied src dst (suc n) i m (execute (copy_words n (i + 1)) p)) (sym pair)
      (Copied-suc src dst n i m _ hd rest)

-- A register other than R0 takes the value.
pub put_reg-suc :
    (k v : ℕ) (m : Machine) → put_reg (suc k) v m ≡ record m { reg = put (suc k) v m.reg }
put_reg-suc k v m = ground arith

pub put_self : (a v : ℕ) (f : ℕ → ℕ) → put a v f a ≡ v
put_self a v f = ground arith

-- The two halves of an address put it into a register.
pub execute-load_register :
    (k : ℕ) (halves : ℕ × ℕ) (ws : List ℕ) (m : Machine)
    → suc k < 2 ^ 4
    → halves.0 < 2 ^ 16
    → halves.1 < 2 ^ 16
    → execute (load_register (suc k) halves ++ ws) m
      ≡ execute ws
          (record m { reg = put (suc k) (load halves) (put (suc k) (halves.0 * 2 ^ 16) m.reg) })
unfolding execute load_register opcode
execute-load_register k (hi, lo) ws m hn h0 h1 =
    let n = suc k in
    let upper = record m { reg = put n (hi * 2 ^ 16) m.reg } in
    let ldi_step : step (build_word 4 (opcode ldi) (bit_or (n << 20) hi)) m ≡ upper =
      step-build_word 4 ldi n 0 hi _ m (omega arith) hn (omega arith) h0
        (bit_or_low 20 n hi (omega arith) ∙ omega arith)
      ∙ put_reg-suc k (hi * 2 ^ 16) m in
    let adi_step : step (build_word 4 (opcode adi) (bit_or (n << 20) lo)) upper
        ≡ record m { reg = put n (load (hi, lo)) (put n (hi * 2 ^ 16) m.reg) } =
      step-build_word 4 adi n 0 lo _ upper (omega arith) hn (omega arith) h1
        (bit_or_low 20 n lo (omega arith) ∙ omega arith)
      ∙ (put_reg-suc k (add_signed (upper.reg n) lo) upper
          ∙ ap (λ v. record upper { reg = put n (add_signed v lo) upper.reg })
              (put_self n (hi * 2 ^ 16) m.reg)) in
    ap (λ o. execute ws (step (build_word 4 (opcode adi) (bit_or (n << 20) lo)) o)) ldi_step
    ∙ ap (execute ws) adi_step

copy_routine-suc :
    (n start_word : ℕ)
    → copy_routine (suc n) start_word
      ≡ load_register 15 (compute_hi_lo (pos start_word))
        ++ (load_register 1 (0x0400, 0x0000) ++ copy_words (suc n) 0)
unfolding copy_routine
copy_routine-suc n start_word = refl

-- The machine when the two address registers are loaded.
abbrev addressed : ℕ × ℕ → Machine → Machine
addressed halves m = record m {
  reg =
      put 1 (load (0x0400, 0x0000))
        (put 1 (0x0400 * 2 ^ 16) (put 15 (load halves) (put 15 (halves.0 * 2 ^ 16) m.reg)));
}

execute-copy_routine-suc :
    (n start_word : ℕ) (m : Machine)
    → execute (copy_routine (suc n) start_word) m
      ≡ execute (copy_words (suc n) 0) (addressed (compute_hi_lo (pos start_word)) m)
execute-copy_routine-suc n start_word m =
    let halves = compute_hi_lo (pos start_word) in
    let fits = compute_hi_lo-lt (pos start_word) in
    let target : List ℕ = load_register 1 (0x0400, 0x0000) ++ copy_words (suc n) 0 in
    rw copy_routine-suc (
      execute-load_register 14 halves target m (omega arith) fits.0 fits.1
      ∙ execute-load_register 0 (0x0400, 0x0000) (copy_words (suc n) 0)
          (record m { reg = put 15 (load halves) (put 15 (halves.0 * 2 ^ 16) m.reg) }) (omega arith)
          (omega arith) (omega arith))

execute-copy_suc :
    (n start_word : ℕ) (m : Machine)
    → suc n ≤ 8192
    → start_word + suc n ≤ 2 ^ 18
    → Copied
        (0xFFF00000 + 4 * start_word)
        ram_base
        (suc n)
        0
        m
        (execute (copy_routine (suc n) start_word) m)
execute-copy_suc n start_word m hn hs =
    let halves = compute_hi_lo (pos start_word) in
    let source : load halves ≡ 0xFFF00000 + 4 * start_word = load_rom start_word (omega arith) in
    let c =
      execute-copy_words (0xFFF00000 + 4 * start_word) ram_base (suc n) 0 (addressed halves m)
        source refl (omega arith) (omega arith) (omega arith) in
    rw execute-copy_routine-suc (record { copied = c.copied; below = c.below; above = c.above })

-- The copy part of `.start`, run on any machine, copies to 0x04000000 the `n` words that stand from
-- word `start_word` of the ROM on, and leaves the rest of the memory alone.
pub execute-copy_routine :
    (n start_word : ℕ) (m : Machine)
    → n ≤ 8192
    → start_word + n ≤ 2 ^ 18
    → Copied (0xFFF00000 + 4 * start_word) ram_base n 0 m (execute (copy_routine n start_word) m)
unfolding copy_routine execute
execute-copy_routine zero start_word m hn hs = record {
  copied = λ j hi hj. absurd (omega arith);
  below = λ a h. refl;
  above = λ a h. refl;
}
execute-copy_routine (suc n) start_word m hn hs = execute-copy_suc n start_word m hn hs
