-- ===== src/FirstPass/Bytes.antt =====
-- The bytes that wait in `pending_bytes`, and the words that `flush_pending_bytes` makes of them.
use procesador_32_bits.Base.{
  ℕ, ◌/◌, ◌%◌, ◌^◌, ◌≡◌, List, [], ◌∷◌, ◌++◌, none, map, replicate, length,
}
use procesador_32_bits.FirstPass.{State, PendingInstruction, raw_word, padding}

-- The bytes of words, the lowest of each first.
pub bytes_of_words : List ℕ → List ℕ
bytes_of_words [] = []
bytes_of_words (w ∷ ws) =
    w % 256 ∷ w / 2 ^ 8 % 256 ∷ w / 2 ^ 16 % 256 ∷ w / 2 ^ 24 ∷ bytes_of_words ws

-- The entries that a list of words adds to the image.
abbrev entries : List ℕ → List PendingInstruction
entries = map (λ w. raw_word w none 0)

-- Entries are added to the image that spell a list of bytes, and zeros up to a whole word.
abbrev pub Spells : State → State → List ℕ → Type 0
Spells s t bytes =
    (ws : List ℕ) × (t.pending ≡ s.pending ++ map (λ w. raw_word w none 0) ws)
    × (bytes_of_words ws ≡ bytes ++ replicate (padding 4 (length bytes)) 0)
    × (t.pending_bytes ≡ [])
