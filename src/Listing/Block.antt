-- ===== src/Listing/Block.antt =====
-- The block at the end of a source: the next run drops it from the lines, and replaces it.
use procesador_32_bits.Base.{
  ℕ, ◌≡◌, refl, sym, ap, ◌∙◌, Bool, Bool-cases, inl, inr, false, List, [], ◌∷◌, ◌++◌, Option, none,
  some,
}
use procesador_32_bits.Text.{Text, codes, rstrip, put_unless}
use procesador_32_bits.Listing.{
  newline, sentinel, readlines, strip_start_listing_from_lines, before_text, without_block,
  join_lines, add_block, write_start_listing,
}
use procesador_32_bits.Listing.First.{occurs-before_text, before_text-none, before_text-newline}
use procesador_32_bits.Listing.Search.{occurs, occurs-newline, rstrip-starts_with, occurs-front}
use procesador_32_bits.Listing.Lines.{readlines-append, rstrip-newline}
use procesador_32_bits.Listing.Sentinel.{sentinel-OneLine, strip_lines-append, readlines-AllLack}

-- The sentinel behind its semicolon.
abbrev sentinel_rest : Text
sentinel_rest = codes " ════════════════════ .start auto-generado ════════════════════"

add_newline-lacks :
    (x : Text) → occurs sentinel x ≡ false → occurs sentinel (x ++ b'\n' ∷ []) ≡ false
unfolding occurs
add_newline-lacks x h = occurs-newline b';' sentinel_rest x [] sentinel-OneLine ∙ rw h refl

-- The text in front of the block has no sentinel.
without_block-lacks :
    (o : Option Text) (x : Text)
    → before_text sentinel x ≡ o
    → occurs sentinel (without_block o x) ≡ false
without_block-lacks none x h = before_text-none sentinel x h
without_block-lacks (some y) x h = add_newline-lacks (rstrip newline y) (
    occurs-front sentinel (rstrip newline y) y (rstrip-starts_with newline y)
      (occurs-before_text b';' sentinel_rest x y h))

abbrev block : List Text → Text
block listing = b'\n' ∷ (join_lines listing ++ b'\n' ∷ [])

-- What the next run reads behind a text without the sentinel.
add_block-found :
    (x : Text) (listing : List Text)
    → occurs sentinel x ≡ false
    → before_text sentinel (add_block x listing) ≡ some (x ++ b'\n' ∷ [])
add_block-found x listing h =
    before_text-newline b';' sentinel_rest x (block listing) sentinel-OneLine h

pub add_block-again :
    (x : Text) (listing listing' : List Text)
    → occurs sentinel x ≡ false
    → write_start_listing (add_block x listing) listing'
      ≡ add_block (rstrip newline x ++ b'\n' ∷ []) listing'
unfolding write_start_listing
add_block-again x listing listing' h =
    rw (add_block-found x listing h, rstrip-newline newline x refl) refl

sentinel_line : readlines (sentinel ++ b'\n' ∷ []) ≡ (sentinel ++ b'\n' ∷ []) ∷ []
unfolding readlines
sentinel_line = refl

pub add_block-lines :
    (x : Text) (listing : List Text)
    → occurs sentinel x ≡ false
    → strip_start_listing_from_lines (readlines (add_block x listing)) ≡ readlines (x ++ b'\n' ∷ [])
add_block-lines x listing h =
    ap strip_start_listing_from_lines (
      readlines-append x (sentinel ++ block listing)
      ∙ ap (λ ls. readlines (x ++ b'\n' ∷ []) ++ ls)
          (readlines-append sentinel (join_lines listing ++ b'\n' ∷ [])
            ∙ ap (λ ls. ls ++ readlines (join_lines listing ++ b'\n' ∷ [])) sentinel_line))
    ∙ strip_lines-append (readlines (x ++ b'\n' ∷ [])) _
        (readlines-AllLack (x ++ b'\n' ∷ []) (add_newline-lacks x h))

put_unless-rstrip :
    (p : ℕ → Bool) (c : ℕ) (s : Text)
    → rstrip p s ≡ s
    → rstrip p (put_unless (p c) c s) ≡ put_unless (p c) c s
unfolding rstrip
put_unless-rstrip p c [] h = elim (Bool-cases (p c)) [
  | inl stripped ↦ rw stripped refl
  | inr kept ↦ rw (kept, kept) refl
]
put_unless-rstrip p c (d ∷ s) h = rw h refl

rstrip-rstrip : (p : ℕ → Bool) (s : Text) → rstrip p (rstrip p s) ≡ rstrip p s
unfolding rstrip
rstrip-rstrip p [] = refl
rstrip-rstrip p (c ∷ s) = put_unless-rstrip p c (rstrip p s) (rstrip-rstrip p s)

-- The text of the program in a file, before the block that a run adds.
abbrev body : Text → Text
body content = without_block (before_text sentinel content) content

body-lacks : (content : Text) → occurs sentinel (body content) ≡ false
body-lacks content = without_block-lacks (before_text sentinel content) content refl

-- The text with one newline at its end.
abbrev pub tidy : Text → Text
tidy x = rstrip newline x ++ b'\n' ∷ []

pub tidy-lacks : (x : Text) → occurs sentinel x ≡ false → occurs sentinel (tidy x) ≡ false
tidy-lacks x h =
    add_newline-lacks (rstrip newline x)
      (occurs-front sentinel (rstrip newline x) x (rstrip-starts_with newline x) h)

tidy-tidy : (x : Text) → tidy (tidy x) ≡ tidy x
tidy-tidy x =
    ap (λ y. y ++ b'\n' ∷ [])
      (rstrip-newline newline (rstrip newline x) refl ∙ rstrip-rstrip newline x)

write_start_listing-twice :
    (content : Text) (first second : List Text)
    → write_start_listing (write_start_listing content first) second
      ≡ add_block (tidy (body content)) second
unfolding write_start_listing
write_start_listing-twice content first second =
    add_block-again (body content) first second (body-lacks content)

-- From the second run on, the new block stands in the place of the old one: the text that a run leaves
-- does not depend on the listing of the run before, and nothing accumulates.
pub write_start_listing-again :
    (content : Text) (first second third : List Text)
    → write_start_listing (write_start_listing (write_start_listing content first) second) third
      ≡ write_start_listing (write_start_listing content first) third
write_start_listing-again content first second third =
    ap (λ x. write_start_listing x third) (write_start_listing-twice content first second)
    ∙ (add_block-again (tidy (body content)) second third
          (tidy-lacks (body content) (body-lacks content))
        ∙ (ap (λ x. add_block x third) (tidy-tidy (body content))
            ∙ sym (write_start_listing-twice content first third)))
