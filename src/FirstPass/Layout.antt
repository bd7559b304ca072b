-- ===== src/FirstPass/Layout.antt =====
-- The invariant of the image and of the .data blob, and the helpers of `first_pass` that keep it.
pub mod Handlers
pub mod Source
pub mod Finish
use procesador_32_bits.Base.{
  ◌∙◌, ℕ, zero, suc, ◌+◌, ◌-◌, ◌*◌, ◌%◌, ◌^◌, ◌<◌, ◌≡◌, refl, List, [], ◌∷◌, ◌++◌, Option, none,
  some, arith, All, All-append, length, length-append, replicate, length-replicate, bit_or, ◌<<◌,
  bit_or_low, bit_or_comm,
}
use procesador_32_bits.Text.{Text}
use procesador_32_bits.Isa.Fields.{IsWord}
use procesador_32_bits.FirstPass.{
  State, PendingInstruction, words, pending_tokens, raw_word, initial, mark_text_start, emit,
  emit_zeros, padding, pad_to_words, word_of_bytes, words_of_bytes, emit_words, flush_pending_bytes,
}

abbrev pub IsByte : ℕ → Type 0
IsByte b = b < 2 ^ 8

-- One word of the image: `size` is 1, and what is known of its value fits 32 bits.
abbrev pub IsSound : PendingInstruction → Type 0
IsSound (words (w ∷ []) line) = IsWord w
IsSound (words _ line) = ⊥
IsSound (pending_tokens tokens line) = Unit
IsSound (raw_word val expr line) = IsWord val

-- `rom_address` counts the pending words, `ram_data_offset` the bytes of .data, and bytes are bytes.
pub record Layout (address : ℕ) (pending : List PendingInstruction) (offset : ℕ)
    (blob waiting : List ℕ) : Type 0 where
  pub addressed : address ≡ length pending
  pub sound : All IsSound pending
  pub counted : offset ≡ length blob
  pub blob_bytes : All IsByte blob
  pub waiting_bytes : All IsByte waiting

-- The other fields of the state may change at will.
abbrev pub IsLaid : State → Type 0
IsLaid s = Layout s.rom_address s.pending s.ram_data_offset s.rom_data_bytes s.pending_bytes

pub All-replicate {ℓ κ} :
    {A : Type ℓ} (P : A → Type κ) (n : ℕ) (a : A) → P a → All P (replicate n a)
All-replicate P zero a h = tt
All-replicate P (suc n) a h = (h, All-replicate P n a h)

pub initial-IsLaid : (relocs : List (ℕ × Text)) → IsLaid (initial relocs)
initial-IsLaid relocs = record {
  addressed = refl;
  sound = tt;
  counted = refl;
  blob_bytes = tt;
  waiting_bytes = tt;
}

pub mark_text_start-IsLaid : (s : State) → IsLaid s → IsLaid (mark_text_start s)
unfolding mark_text_start
mark_text_start-IsLaid s h = h

pub emit-IsLaid : (i : PendingInstruction) (s : State) → IsSound i → IsLaid s → IsLaid (emit i s)
unfolding emit
emit-IsLaid i s k h = record {
  addressed = omega (arith, h.addressed, length-append s.pending (i ∷ []));
  sound = All-append IsSound s.pending (i ∷ []) h.sound (k, tt);
  counted = h.counted;
  blob_bytes = h.blob_bytes;
  waiting_bytes = h.waiting_bytes;
}

pub emit_zeros-IsLaid : (n line : ℕ) (s : State) → IsLaid s → IsLaid (emit_zeros n line s)
unfolding emit_zeros
emit_zeros-IsLaid n line s h =
    let zeros = replicate n (raw_word 0 none line) in
    record {
      addressed = omega (
        arith,
        h.addressed,
        length-append s.pending zeros,
        length-replicate n (raw_word 0 none line),
      );
      sound =
          All-append IsSound s.pending zeros h.sound
            (All-replicate IsSound n (raw_word 0 none line) (omega arith));
      counted = h.counted;
      blob_bytes = h.blob_bytes;
      waiting_bytes = h.waiting_bytes;
    }

-- Four bytes, the lowest first, as a sum.
pub word_of_bytes-sum :
    (b0 b1 b2 b3 : ℕ)
    → IsByte b0
    → IsByte b1
    → IsByte b2
    → word_of_bytes b0 b1 b2 b3 ≡ b0 + b1 * 2 ^ 8 + b2 * 2 ^ 16 + b3 * 2 ^ 24
unfolding word_of_bytes
word_of_bytes-sum b0 b1 b2 b3 h0 h1 h2 =
    let e1 : bit_or b0 (b1 << 8) ≡ b1 * 2 ^ 8 + b0 =
      bit_or_comm b0 (b1 << 8) ∙ bit_or_low 8 b1 b0 h0 in
    let e2 : bit_or (b1 * 2 ^ 8 + b0) (b2 << 16) ≡ b2 * 2 ^ 16 + (b1 * 2 ^ 8 + b0) =
      bit_or_comm (b1 * 2 ^ 8 + b0) (b2 << 16) ∙ bit_or_low 16 b2 (b1 * 2 ^ 8 + b0) (omega arith) in
    let low = b2 * 2 ^ 16 + (b1 * 2 ^ 8 + b0) in
    let e3 : bit_or low (b3 << 24) ≡ b3 * 2 ^ 24 + low =
      bit_or_comm low (b3 << 24) ∙ bit_or_low 24 b3 low (omega arith) in
    rw (e1, e2, e3) (omega arith)

pub word_of_bytes-lt :
    (b0 b1 b2 b3 : ℕ)
    → IsByte b0
    → IsByte b1
    → IsByte b2
    → IsByte b3
    → IsWord (word_of_bytes b0 b1 b2 b3)
word_of_bytes-lt b0 b1 b2 b3 h0 h1 h2 h3 = omega (arith, word_of_bytes-sum b0 b1 b2 b3 h0 h1 h2)

pub words_of_bytes-IsWord : (bytes : List ℕ) → All IsByte bytes → All IsWord (words_of_bytes bytes)
unfolding words_of_bytes
words_of_bytes-IsWord (a ∷ b ∷ c ∷ d ∷ bytes) (ha, (hb, (hc, (hd, h)))) =
    (word_of_bytes-lt a b c d ha hb hc hd, words_of_bytes-IsWord bytes h)
words_of_bytes-IsWord _ h = tt

pub pad_to_words-IsByte : (bytes : List ℕ) → All IsByte bytes → All IsByte (pad_to_words bytes)
unfolding pad_to_words
pad_to_words-IsByte bytes h =
    All-append IsByte bytes _ h (All-replicate IsByte (padding 4 (length bytes)) 0 (omega arith))

emit_words-IsLaid : (ws : List ℕ) (s : State) → All IsWord ws → IsLaid s → IsLaid (emit_words ws s)
unfolding emit_words
emit_words-IsLaid [] s k h = h
emit_words-IsLaid (w ∷ ws) s k h =
    emit_words-IsLaid ws (emit (raw_word w none 0) (mark_text_start s)) k.1
      (emit-IsLaid (raw_word w none 0) (mark_text_start s) k.0 (mark_text_start-IsLaid s h))

pub flush_pending_bytes-IsLaid : (s : State) → IsLaid s → IsLaid (flush_pending_bytes s)
unfolding flush_pending_bytes
flush_pending_bytes-IsLaid s h =
    let ws = words_of_bytes (pad_to_words s.pending_bytes) in
    let bytes = pad_to_words-IsByte s.pending_bytes h.waiting_bytes in
    let k = emit_words-IsLaid ws s (words_of_bytes-IsWord _ bytes) h in
    record {
      addressed = k.addressed;
      sound = k.sound;
      counted = k.counted;
      blob_bytes = k.blob_bytes;
      waiting_bytes = tt;
    }
