-- ===== src/Driver/Runs.antt =====
-- A source that is assembled any number of times in one process.
use procesador_32_bits.Base.{
  ℕ, zero, suc, ◌≡◌, refl, sym, ap, ◌∙◌, true, false, List, [], ◌∷◌, ◌++◌, none,
}
use mathlib.Core.Path.{subst}
use procesador_32_bits.Base.Result.{ok}
use procesador_32_bits.Text.{Text}
use procesador_32_bits.FirstPass.{DataMode, rom, initial}
use procesador_32_bits.FirstPass.Lines.{raises}
use procesador_32_bits.FirstPass.Relocs.{first_pass-relocs}
use procesador_32_bits.FirstPass.StartListing.{start_listing}
use procesador_32_bits.SecondPass.{assemble_lines}
use procesador_32_bits.Listing.{
  sentinel, readlines, strip_start_listing_from_lines, before_text, write_start_listing,
}
use procesador_32_bits.Listing.Reassemble.{
  rewritten-SameLines, SameLines, rewritten, rewritten-assemble_lines,
}
use procesador_32_bits.FirstPass.Start.{first_pass}
use procesador_32_bits.Driver.{
  assemble_unless, Ended, Files, outcome_of, Session, rewrite, write_start_listing_to_s,
  keep_listing, assemble_kept, assemble_read, assemble_source,
}

-- What the code relies on: a text that was written is read back.
pub record Lawful {World : Type 0} (files : Files World) : Type 0 where
  pub written :
      (w : World) (path t : Text)
      → (files.write_text w path t).1 ≡ true
      → files.read_text (files.write_text w path t).0 path ≡ ok t

rewritten-append :
    (content : Text) (ls : List (List Text)) (l : List Text)
    → rewritten content (ls ++ l ∷ []) ≡ write_start_listing (rewritten content ls) l
unfolding rewritten
rewritten-append content [] l = refl
rewritten-append content (k ∷ ls) l = rewritten-append (write_start_listing content k) ls l

pub SameLines-start_listing :
    (ls ms : List Text) → SameLines ls ms → start_listing ls rom [] ≡ start_listing ms rom []
unfolding start_listing
SameLines-start_listing ls ms h = rw (h rom 1 (initial [])) refl

-- A file without a listing is read as it is.
pub assemble_read-content :
    {World : Type 0} (files : Files World) (content path : Text) (mode : DataMode)
    (s : Session World)
    → s.relocs ≡ []
    → before_text sentinel content ≡ none
    → raises mode (readlines content) [] ≡ false
    → (assemble_read files (ok content) path mode s).0
      ≡ ok (outcome_of (assemble_lines (readlines content) mode []))
unfolding assemble_read assemble_kept assemble_unless rewritten
assemble_read-content files content path mode s k fresh quiet =
    let lines = strip_start_listing_from_lines (readlines content) in
    let s' = record s { relocs = [] } in
    let still =
      ap (λ t. t.raised) (rewritten-SameLines content [] fresh mode 1 (initial [])) ∙ quiet in
    ap (λ rs. (assemble_kept files path mode lines (record s { relocs = rs })).0) k
    ∙ (ap (λ b. (assemble_unless files b path mode lines s').0) still
        ∙ ap (λ a. ok (outcome_of a)) (rewritten-assemble_lines content [] mode [] fresh))

module _ {World : Type 0} (files : Files World) (lawful : Lawful files) (path : Text)
    (writable : (w : World) (t : Text) → (files.write_text w path t).1 ≡ true) (content : Text)
    (fresh : before_text sentinel content ≡ none)
    (quiet : raises rom (readlines content) [] ≡ false) where
  -- The session behind `n` runs.
  unfoldable pub runs : ℕ → Session World → Session World
  runs zero s = s
  runs (suc n) s = runs n (assemble_source files path rom s).1

  -- The file holds what is left of the content by some runs.
  abbrev Keeps : World → Type 0
  Keeps w = (ls : List (List Text)) × (files.read_text w path ≡ ok (rewritten content ls))

  -- And no relocation is kept.
  abbrev pub Holds : Session World → Type 0
  Holds s =
      (ls : List (List Text)) × (files.read_text s.world path ≡ ok (rewritten content ls))
      × (s.relocs ≡ [])

  -- The lines that a run assembles
  abbrev pub lines_of : List (List Text) → List Text
  lines_of ls = strip_start_listing_from_lines (readlines (rewritten content ls))

  pub lines_of-raises : (ls : List (List Text)) → raises rom (lines_of ls) [] ≡ false
  lines_of-raises ls =
      ap (λ t. t.raised) (rewritten-SameLines content ls fresh rom 1 (initial [])) ∙ quiet

  rewrite-Keeps :
      (ls : List (List Text)) (l : List Text) (w : World)
      → Keeps (rewrite files (ok (rewritten content ls)) path l w)
  unfolding rewrite
  rewrite-Keeps ls l w =
      let t = write_start_listing (rewritten content ls) l in
      (
        ls ++ l ∷ [],
        lawful.written w path t (writable w t) ∙ ap ok (sym (rewritten-append content ls l)),
      )

  keep_listing-Keeps :
      (ls : List (List Text)) (l : List Text) (w : World)
      → files.read_text w path ≡ ok (rewritten content ls)
      → Keeps (keep_listing files path l w)
  unfolding keep_listing write_start_listing_to_s
  keep_listing-Keeps ls [] w h = (ls, h)
  keep_listing-Keeps ls (l ∷ k) w h =
      subst (λ r. Keeps (rewrite files r path (l ∷ k) w)) (sym h) (rewrite-Keeps ls (l ∷ k) w)

  -- What a run gives, and leaves.
  unfoldable pub ended : List (List Text) → World → Ended World
  ended ls w = (
    ok (outcome_of (assemble_lines (lines_of ls) rom [])),
    record {
      world = keep_listing files path (start_listing (lines_of ls) rom []) w;
      relocs = (first_pass (lines_of ls) rom []).rom_data_relocs;
    },
  )

  pub assemble_source-ended :
      (s : Session World) (h : Holds s) → assemble_source files path rom s ≡ ended h.0 s.world
  unfolding assemble_source assemble_read assemble_kept assemble_unless ended
  assemble_source-ended s (ls, h, k) =
      ap (λ r. assemble_read files r path rom s) h
      ∙ (ap
            (λ rs.
              assemble_kept files path rom (lines_of ls) (record { world = s.world; relocs = rs }))
            k
          ∙ ap
              (λ b.
                assemble_unless files b path rom (lines_of ls)
                  (record { world = s.world; relocs = [] }))
              (lines_of-raises ls))

  pub run-Holds : (s : Session World) → Holds s → Holds (assemble_source files path rom s).1
  unfolding ended
  run-Holds s h =
      let lines = lines_of h.0 in
      let (ls, e) = keep_listing-Keeps h.0 (start_listing lines rom []) s.world h.1 in
      subst (λ r. Holds r.1) (sym (assemble_source-ended s h))
        (ls, e, first_pass-relocs lines (lines_of-raises h.0))

  runs-Holds : (n : ℕ) (s : Session World) → Holds s → Holds (runs n s)
  unfolding runs
  runs-Holds zero s h = h
  runs-Holds (suc n) s h = runs-Holds n (assemble_source files path rom s).1 (run-Holds s h)

  -- A source that can be read and written, does not contain the sentinel of the listings, has no
  -- string that raises a ValueError, and finds no relocation of an earlier call, assembled in ROM mode
  -- any number of times in one process, gives each time the assembly of the text that the file had at
  -- first; what is written is taken to be read back.
  pub assemble_source-runs :
      (n : ℕ) (s : Session World)
      → files.read_text s.world path ≡ ok content
      → s.relocs ≡ []
      → (assemble_source files path rom (runs n s)).0
        ≡ ok (outcome_of (assemble_lines (readlines content) rom []))
  unfolding rewritten ended
  assemble_source-runs n s h k =
      let held = runs-Holds n s ([], h, k) in
      ap (λ r. r.0) (assemble_source-ended (runs n s) held)
      ∙ ap (λ a. ok (outcome_of a)) (rewritten-assemble_lines content held.0 rom [] fresh)
