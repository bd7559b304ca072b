-- ===== src/FirstPass/Growth.antt =====
-- The loop of `first_pass` only adds: what a line has put into the image, the blob, the labels or the
-- errors stays. Here the relation, and the helpers of the handlers.
pub mod Handlers
pub mod Source
pub mod Labels
use mathlib.Core.Path.{subst}
use procesador_32_bits.Base.{
  ℕ, ◌+◌, ◌≤◌, ◌⊎◌, ◌≡◌, refl, sym, ◌∙◌, ap, Bool, Bool-cases, inl, inr, true, false, List, [], ◌∷◌,
  ◌++◌, append_assoc, append-nil, Option, none, some, is_some, replicate, if◌then◌else◌, arith,
}
use procesador_32_bits.Text.{Text, text_eq}
use procesador_32_bits.Text.Equality.{text_eq_iff}
use procesador_32_bits.Dict
use procesador_32_bits.Dict.{Dict}
use procesador_32_bits.FirstPass.{
  State, ram_base, bss_base, PendingInstruction, Problem, raw_word, add_error, mark_text_start,
  emit, emit_zeros, emit_words, words_of_bytes, pad_to_words, flush_pending_bytes,
}

abbrev pub Prefix : {A : Type 0} → List A → List A → Type 0
Prefix {A} xs ys = (zs : List A) × (ys ≡ xs ++ zs)

-- A label that has an address keeps it.
abbrev pub KeepsLabels : Dict ℕ → Dict ℕ → Type 0
KeepsLabels d e = (k : Text) (a : ℕ) → Dict.get d k ≡ some a → Dict.get e k ≡ some a

-- The next free places in the image, in .data and in .bss do not go back.
abbrev pub Advances : State → State → Type 0
Advances s t =
    s.rom_address ≤ t.rom_address
    × s.ram_data_offset ≤ t.ram_data_offset
    × s.ram_bss_offset ≤ t.ram_bss_offset

-- An address between the free places of two states, in one of the three.
abbrev pub Between : State → State → ℕ → Type 0
Between s t a =
    (s.rom_address ≤ a × a ≤ t.rom_address)
    ⊎ ((ram_base + s.ram_data_offset ≤ a × a ≤ ram_base + t.ram_data_offset)
        ⊎ (bss_base + s.ram_bss_offset ≤ a × a ≤ bss_base + t.ram_bss_offset))

-- Every label is one that was there before, or stands between the free places.
abbrev pub LabelsBetween : State → State → Type 0
LabelsBetween s t =
    (k : Text) (a : ℕ)
    → Dict.get t.label_map k ≡ some a
    → (Dict.get s.label_map k ≡ some a) ⊎ Between s t a

-- A relocation is not written without bytes of .data.
abbrev pub KeepsRelocs : State → State → Type 0
KeepsRelocs s t = t.rom_data_bytes ≡ [] → t.rom_data_relocs ≡ s.rom_data_relocs

-- Entries of the image, errors and bytes of .data are added at the end, labels are kept, and new ones
-- stand behind what was there; relocations come with bytes of .data.
abbrev pub Grows : State → State → Type 0
Grows s t =
    KeepsLabels s.label_map t.label_map
    × Prefix s.pending t.pending
    × Prefix s.errors t.errors
    × Prefix s.rom_data_bytes t.rom_data_bytes
    × Advances s t
    × LabelsBetween s t
    × KeepsRelocs s t

pub Prefix-refl : {A : Type 0} (xs : List A) → Prefix xs xs
Prefix-refl xs = ([], sym (append-nil xs))

pub Prefix-trans : {A : Type 0} (xs ys zs : List A) → Prefix xs ys → Prefix ys zs → Prefix xs zs
Prefix-trans xs ys zs (a, e) (b, f) = (a ++ b, f ∙ (ap (λ l. l ++ b) e ∙ append_assoc xs a b))

Prefix-nil : {A : Type 0} (xs ys : List A) → Prefix xs ys → ys ≡ [] → xs ≡ []
Prefix-nil [] ys p h = refl
Prefix-nil (x ∷ xs) ys (zs, e) h = absurd (cc (e, h))

pub Advances-refl : (s : State) → Advances s s
Advances-refl s = (omega arith, omega arith, omega arith)

pub Grows-refl : (s : State) → Grows s s
Grows-refl s = (
  λ k a h. h,
  Prefix-refl s.pending,
  Prefix-refl s.errors,
  Prefix-refl s.rom_data_bytes,
  Advances-refl s,
  λ k a h. inl h,
  λ e. refl,
)

Between-left : (s t u : State) (a : ℕ) → Advances s t → Between t u a → Between s u a
Between-left s t u a (r, d, b) (inl h) = inl (omega arith, h.1)
Between-left s t u a (r, d, b) (inr (inl h)) = inr (inl (omega arith, h.1))
Between-left s t u a (r, d, b) (inr (inr h)) = inr (inr (omega arith, h.1))

Between-right : (s t u : State) (a : ℕ) → Advances t u → Between s t a → Between s u a
Between-right s t u a (r, d, b) (inl h) = inl (h.0, omega arith)
Between-right s t u a (r, d, b) (inr (inl h)) = inr (inl (h.0, omega arith))
Between-right s t u a (r, d, b) (inr (inr h)) = inr (inr (h.0, omega arith))

LabelsBetween-trans :
    (s t u : State)
    → Advances s t
    → Advances t u
    → LabelsBetween s t
    → LabelsBetween t u
    → LabelsBetween s u
LabelsBetween-trans s t u v w l m k a h = elim (m k a h) [
  | inl old ↦ elim (l k a old) [
    | inl older ↦ inl older
    | inr new ↦ inr (Between-right s t u a w new)
  ]
  | inr new ↦ inr (Between-left s t u a v new)
]

Advances-trans : (s t u : State) → Advances s t → Advances t u → Advances s u
Advances-trans s t u (a, b, c) (d, e, f) = (omega arith, omega arith, omega arith)

pub Grows-trans : (s t u : State) → Grows s t → Grows t u → Grows s u
Grows-trans s t u (l, p, e, b, v, n, r) (l', p', e', b', v', n', r') = (
  λ k a h. l' k a (l k a h),
  Prefix-trans s.pending t.pending u.pending p p',
  Prefix-trans s.errors t.errors u.errors e e',
  Prefix-trans s.rom_data_bytes t.rom_data_bytes u.rom_data_bytes b b',
  Advances-trans s t u v v',
  LabelsBetween-trans s t u v v' n n',
  λ nil. r' nil ∙ r (Prefix-nil t.rom_data_bytes u.rom_data_bytes b' nil),
)

pub if-Grows : (c : Bool) (s t u : State) → Grows s t → Grows s u → Grows s (if c then t else u)
if-Grows true s t u h k = h
if-Grows false s t u h k = k

-- A branch that is taken where its test fails.
pub else-Grows :
    (c : Bool) (s t u : State) → Grows s t → (c ≡ false → Grows s u) → Grows s (if c then t else u)
else-Grows true s t u h k = h
else-Grows false s t u h k = k refl

pub none-is_some : {A : Type 0} (o : Option A) → is_some o ≡ false → o ≡ none
none-is_some none h = refl
none-is_some (some a) h = cc

pub mark_text_start-Grows : (s : State) → Grows s (mark_text_start s)
unfolding mark_text_start
mark_text_start-Grows s = Grows-refl s

pub emit-Grows : (i : PendingInstruction) (s : State) → Grows s (emit i s)
unfolding emit
emit-Grows i s = (
  λ k a h. h,
  (i ∷ [], refl),
  Prefix-refl s.errors,
  Prefix-refl s.rom_data_bytes,
  (omega arith, omega arith, omega arith),
  λ k a h. inl h,
  λ e. refl,
)

pub emit_zeros-Grows : (n line : ℕ) (s : State) → Grows s (emit_zeros n line s)
unfolding emit_zeros
emit_zeros-Grows n line s = (
  λ k a h. h,
  (replicate n (raw_word 0 none line), refl),
  Prefix-refl s.errors,
  Prefix-refl s.rom_data_bytes,
  (omega arith, omega arith, omega arith),
  λ k a h. inl h,
  λ e. refl,
)

pub add_error-Grows : (line : Option ℕ) (p : Problem) (s : State) → Grows s (add_error line p s)
add_error-Grows line p s = (
  λ k a h. h,
  Prefix-refl s.pending,
  (record { line = line; problem = p } ∷ [], refl),
  Prefix-refl s.rom_data_bytes,
  Advances-refl s,
  λ k a h. inl h,
  λ e. refl,
)

emit_words-Grows : (ws : List ℕ) (s : State) → Grows s (emit_words ws s)
unfolding emit_words
emit_words-Grows [] s = Grows-refl s
emit_words-Grows (w ∷ ws) s =
    let t = mark_text_start s in
    let u = emit (raw_word w none 0) t in
    Grows-trans s u (emit_words ws u)
      (Grows-trans s t u (mark_text_start-Grows s) (emit-Grows (raw_word w none 0) t))
      (emit_words-Grows ws u)

pub flush_pending_bytes-Grows : (s : State) → Grows s (flush_pending_bytes s)
unfolding flush_pending_bytes
flush_pending_bytes-Grows s = emit_words-Grows (words_of_bytes (pad_to_words s.pending_bytes)) s

-- A new name shadows no label.
pub set-KeepsLabels :
    (d : Dict ℕ) (name : Text) (v : ℕ) → Dict.get d name ≡ none → KeepsLabels d (Dict.set d name v)
set-KeepsLabels d name v fresh k a h =
    Dict.get-set d name k v ∙ elim (Bool-cases (text_eq name k)) [
      | inl same ↦
          let e : name ≡ k = (text_eq_iff name k).0 same in
          let missing : Dict.get d k ≡ none = ap (Dict.get d) (sym e) ∙ fresh in
          absurd (cc (missing, h))
      | inr other ↦ rw other h
    ]

pub set-LabelsBetween :
    (s t : State) (name : Text) (v : ℕ)
    → t.label_map ≡ Dict.set s.label_map name v
    → Between s t v
    → LabelsBetween s t
set-LabelsBetween s t name v e h k a found =
    let value : (if text_eq name k then some v else Dict.get s.label_map k) ≡ some a =
      sym (Dict.get-set s.label_map name k v) ∙ (ap (λ d. Dict.get d k) (sym e) ∙ found) in
    elim (Bool-cases (text_eq name k)) [
      | inl same ↦
          let w : some v ≡ some a = rw same at value in
          let q : v ≡ a = cc w in inr (subst (Between s t) q h)
      | inr other ↦ inl (rw other at value)
    ]

pub set_label-Grows :
    (name : Text) (v : ℕ) (s : State)
    → Dict.get s.label_map name ≡ none
    → Between s s v
    → Grows s (record s { label_map = Dict.set s.label_map name v })
set_label-Grows name v s fresh h = (
  set-KeepsLabels s.label_map name v fresh,
  Prefix-refl s.pending,
  Prefix-refl s.errors,
  Prefix-refl s.rom_data_bytes,
  Advances-refl s,
  set-LabelsBetween s (record s { label_map = Dict.set s.label_map name v }) name v refl h,
  λ e. refl,
)
