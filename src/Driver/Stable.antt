-- ===== src/Driver/Stable.antt =====
-- The file of a source that is assembled again and again.
use procesador_32_bits.Base.{
  false, ℕ, zero, suc, ◌≡◌, refl, sym, ap, ◌∙◌, true, List, [], ◌∷◌, none,
}
use procesador_32_bits.Base.Result.{Result, ok, err}
use procesador_32_bits.Text.{Text}
use procesador_32_bits.FirstPass.{rom}
use procesador_32_bits.FirstPass.Lines.{raises}
use procesador_32_bits.FirstPass.StartListing.{start_listing}
use procesador_32_bits.Listing.{
  sentinel, readlines, strip_start_listing_from_lines, before_text, write_start_listing,
}
use procesador_32_bits.Listing.Block.{write_start_listing-again}
use procesador_32_bits.Listing.Reassemble.{rewritten, rewritten-SameLines}
use procesador_32_bits.Driver.{
  Files, Session, rewrite, write_start_listing_to_s, keep_listing, assemble_source,
}
use procesador_32_bits.Driver.Runs.{
  Lawful, SameLines-start_listing, runs, Holds, run-Holds, assemble_source-ended, ended,
}

-- The text behind a run that makes the listing `l`, and behind `n` such runs.
abbrev after : List Text → Text → Text
after [] content = content
after (l ∷ ls) content = write_start_listing content (l ∷ ls)

abbrev after_runs : List Text → ℕ → Text → Text
after_runs l zero content = content
after_runs l (suc n) content = after_runs l n (after l content)

after-again :
    (l : List Text) (content : Text)
    → after l (after l (after l content)) ≡ after l (after l content)
after-again [] content = refl
after-again (l ∷ ls) content = write_start_listing-again content (l ∷ ls) (l ∷ ls) (l ∷ ls)

after_runs-again :
    (l : List Text) (n : ℕ) (content : Text)
    → after_runs l (suc (suc n)) content ≡ after l (after l content)
after_runs-again l zero content = refl
after_runs-again l (suc n) content = after_runs-again l n (after l content) ∙ after-again l content

-- The text of a file that was read.
abbrev text_read : Result Text Text → Text
text_read (ok t) = t
text_read (err e) = e

module _ {World : Type 0} (files : Files World) (lawful : Lawful files) (path : Text)
    (writable : (w : World) (t : Text) → (files.write_text w path t).1 ≡ true) (content : Text)
    (fresh : before_text sentinel content ≡ none)
    (quiet : raises rom (readlines content) [] ≡ false) where
  keep_listing-after :
      (l : List Text) (content : Text) (w : World)
      → files.read_text w path ≡ ok content
      → files.read_text (keep_listing files path l w) path ≡ ok (after l content)
  unfolding keep_listing write_start_listing_to_s rewrite
  keep_listing-after [] content w h = h
  keep_listing-after (l ∷ ls) content w h =
      let t = write_start_listing content (l ∷ ls) in
      ap (λ r. files.read_text (rewrite files r path (l ∷ ls) w) path) h
      ∙ lawful.written w path t (writable w t)

  run-after :
      (s : Session World) (h : Holds files lawful path writable content fresh quiet s)
      → files.read_text (assemble_source files path rom s).1.world path
        ≡ ok (after (start_listing (readlines content) rom []) (rewritten content h.0))
  unfolding ended
  run-after s h =
      let t = rewritten content h.0 in
      let same =
        SameLines-start_listing (strip_start_listing_from_lines (readlines t)) (readlines content)
          (rewritten-SameLines content h.0 fresh) in
      ap (λ r. files.read_text r.1.world path)
        (assemble_source-ended files lawful path writable content fresh quiet s h)
      ∙ (ap (λ l. files.read_text (keep_listing files path l s.world) path) same
          ∙ keep_listing-after (start_listing (readlines content) rom []) t s.world h.1)

  runs-after :
      (n : ℕ) (s : Session World) (h : Holds files lawful path writable content fresh quiet s)
      → files.read_text (runs files lawful path writable content fresh quiet n s).world path
        ≡ ok (after_runs (start_listing (readlines content) rom []) n (rewritten content h.0))
  unfolding runs
  runs-after zero s h = h.1
  runs-after (suc n) s h =
      let l = start_listing (readlines content) rom [] in
      let next = run-Holds files lawful path writable content fresh quiet s h in
      let e = ap text_read (sym next.1 ∙ run-after s h) in
      runs-after n (assemble_source files path rom s).1 next ∙ ap (λ t. ok (after_runs l n t)) e

  -- A source that can be read, does not contain the sentinel of the listings, has no string that
  -- raises a ValueError, and finds no relocation of an earlier call, is the same text behind two runs
  -- in ROM mode in one process and behind any number of further runs, if it can be written each time;
  -- what is written is taken to be read back.
  pub runs-stable :
      (n : ℕ) (s : Session World)
      → files.read_text s.world path ≡ ok content
      → s.relocs ≡ []
      → files.read_text
          (runs files lawful path writable content fresh quiet (suc (suc n)) s).world
          path
        ≡ files.read_text (runs files lawful path writable content fresh quiet 2 s).world path
  unfolding rewritten
  runs-stable n s h k =
      let l = start_listing (readlines content) rom [] in
      let held : Holds files lawful path writable content fresh quiet s = ([], h, k) in
      runs-after (suc (suc n)) s held
      ∙ (ap ok (after_runs-again l n content) ∙ sym (runs-after 2 s held))
