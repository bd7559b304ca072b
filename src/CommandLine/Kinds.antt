-- ===== src/CommandLine/Kinds.antt =====
-- The C files and the other files among the files that `main` builds from.
use procesador_32_bits.Base.{
  ◌+◌, ◌≡◌, refl, ap, Bool, Bool-cases, inl, inr, true, false, ◌&&◌, List, [], ◌∷◌, length, arith,
}
use procesador_32_bits.Text.{Text}
use procesador_32_bits.CommandLine.Paths.{is_c_file, c_files_of, asm_files_of}

-- Whether all are C files
unfoldable pub all_c : List Text → Bool
unfolding is_c_file
all_c [] = true
all_c (f ∷ fs) = is_c_file f && all_c fs

pub files-length : (fs : List Text) → length fs ≡ length (c_files_of fs) + length (asm_files_of fs)
unfolding c_files_of asm_files_of
files-length [] = refl
files-length (f ∷ fs) = elim (Bool-cases (is_c_file f)) [
  | inl c ↦ rw c (omega (arith, files-length fs))
  | inr other ↦ rw other (omega (arith, files-length fs))
]

pub c_files-all : (fs : List Text) → asm_files_of fs ≡ [] → c_files_of fs ≡ fs
unfolding c_files_of asm_files_of
c_files-all [] h = refl
c_files-all (f ∷ fs) h = elim (Bool-cases (is_c_file f)) [
  | inl c ↦ let h' = rw c at h in rw c (ap (λ l. f ∷ l) (c_files-all fs h'))
  | inr other ↦ let h' = rw other at h in absurd (cc h')
]

pub asm_files-all : (fs : List Text) → c_files_of fs ≡ [] → asm_files_of fs ≡ fs
unfolding c_files_of asm_files_of
asm_files-all [] h = refl
asm_files-all (f ∷ fs) h = elim (Bool-cases (is_c_file f)) [
  | inl c ↦ let h' = rw c at h in absurd (cc h')
  | inr other ↦ let h' = rw other at h in rw other (ap (λ l. f ∷ l) (asm_files-all fs h'))
]

pub asm_files-all_c : (fs : List Text) → asm_files_of fs ≡ [] → all_c fs ≡ true
unfolding asm_files_of all_c
asm_files-all_c [] h = refl
asm_files-all_c (f ∷ fs) h = elim (Bool-cases (is_c_file f)) [
  | inl c ↦ let h' = rw c at h in rw c (asm_files-all_c fs h')
  | inr other ↦ let h' = rw other at h in absurd (cc h')
]

pub asm_files-not_all_c :
    (fs : List Text) (a : Text) (l : List Text) → asm_files_of fs ≡ a ∷ l → all_c fs ≡ false
unfolding asm_files_of all_c
asm_files-not_all_c [] a l h = absurd (cc h)
asm_files-not_all_c (f ∷ fs) a l h = elim (Bool-cases (is_c_file f)) [
  | inl c ↦ let h' = rw c at h in rw c (asm_files-not_all_c fs a l h')
  | inr other ↦ rw other refl
]

pub c_files-not_c : (a : Text) → c_files_of (a ∷ []) ≡ [] → is_c_file a ≡ false
unfolding c_files_of
c_files-not_c a h = elim (Bool-cases (is_c_file a)) [
  | inl c ↦ let h' = rw c at h in absurd (cc h')
  | inr other ↦ other
]
