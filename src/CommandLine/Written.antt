-- ===== src/CommandLine/Written.antt =====
-- From the command line to the ROM file.
use procesador_32_bits.FirstPass.Lines.{raises}
use procesador_32_bits.Base.{
  Bool, true, false, ◌||◌, ◌≡◌, refl, sym, ap, ◌∙◌, List, [], ◌∷◌, ◌++◌, Option, none, some,
  if◌then◌else◌,
}
use mathlib.Core.Path.{subst}
use procesador_32_bits.Base.Result.{ok}
use procesador_32_bits.Text.{Text, codes}
use procesador_32_bits.Rom.{write_rom_logisim}
use procesador_32_bits.Annotated.{write_annotated_hex}
use procesador_32_bits.SecondPass.{assemble_lines}
use procesador_32_bits.Listing.{sentinel, readlines, before_text}
use procesador_32_bits.Driver.{Raised, Outcome, outcome_of, Session, assemble_read, assemble_source}
use procesador_32_bits.Driver.Runs.{assemble_read-content}
use procesador_32_bits.Driver.System.{System}
use procesador_32_bits.CommandLine.{Options, parse_options}
use procesador_32_bits.CommandLine.Paths.{
  is_c_file, is_source, has_char, c_files_of, asm_files_of, expand,
}
use procesador_32_bits.CommandLine.Main.{
  Ending, exited, mode_of, file_text, join_pieces, write_rom, write_listing, make_parent,
  then_write, raised_of, is_empty, write_outputs, ending_of, report, assemble_reported, build,
  build_paths, build_options, with_options, main,
}

-- The texts of two paths can be written, the first is read back and is kept when the second is written, and
-- a folder is there or can be made.
pub record Writable {World : Type 0} (system : System World) (path listing folder : Text)
    : Type 0 where
  pub written : (w : World) (t : Text) → (system.files.write_text w path t).1 ≡ true
  pub read_back :
      (w : World) (t : Text)
      → system.files.read_text (system.files.write_text w path t).0 path ≡ ok t
  pub listed : (w : World) (t : Text) → (system.files.write_text w listing t).1 ≡ true
  pub kept :
      (w : World) (t : Text)
      → system.files.read_text (system.files.write_text w listing t).0 path
        ≡ system.files.read_text w path
  pub made : (w : World) → (system.makedirs w folder).1 ≡ none

-- What the program relies on for the ROM file and the listing of a source.
abbrev pub Outputs : {World : Type 0} → System World → Text → Text → Type 0
Outputs system rom_path source =
    Writable system rom_path (system.root source ++ codes "_listado.hex") (system.dirname rom_path)

module _ {World : Type 0} (system : System World) where
  -- Nothing was raised, and the file has the text.
  abbrev Has : Text → Text → Option Raised × World → Type 0
  Has path t r = (r.0 ≡ none) × (system.files.read_text r.1 path ≡ ok t)

  make_parent-none :
      (folder : Text) (w : World)
      → (system.makedirs w folder).1 ≡ none
      → (make_parent system folder w).0 ≡ none
  make_parent-none [] w h = refl
  make_parent-none (c ∷ folder) w h = ap (raised_of system) h

  then_write-Has :
      (path t : Text) (r : Option Raised × World) (next : World → Option Raised × World)
      → r.0 ≡ none
      → ((w : World) → Has path t (next w))
      → Has path t (then_write system r next)
  then_write-Has path t (none, w) next h k = k w
  then_write-Has path t (some e, w) next h k = absurd (cc h)

  write_rom-Has :
      (path source : Text) (writable : Outputs system path source) (lines : List Text) (w : World)
      → Has path (file_text lines) (write_rom system path (some lines) w)
  write_rom-Has path source writable lines w =
      let t = file_text lines in
      then_write-Has path t (make_parent system (system.dirname path) w) _
        (make_parent-none (system.dirname path) w (writable.made w))
        λ v. (rw (writable.written v t) refl, writable.read_back v t)

  write_listing-Has :
      (listing : Bool) (path source : Text) (writable : Outputs system path source) (t : Text)
      (o : Outcome) (r : Option Raised × World)
      → Has path t r
      → Has path t (then_write system r (write_listing system listing source o))
  write_listing-Has listing path source writable t o (some e, w) h = h
  write_listing-Has false path source writable t o (none, w) h = h
  write_listing-Has true path source writable t o (none, w) h =
      let pieces = join_pieces (write_annotated_hex o.instructions o.label_map) in
      (rw (writable.listed w pieces) refl, writable.kept w pieces ∙ h.1)

  -- The program ends with 0, and the file has the text.
  abbrev pub Wrote : Text → Text → Ending × Session World → Type 0
  Wrote path t r = (r.0 ≡ exited 0) × (system.files.read_text r.1.world path ≡ ok t)

  ending_of-Wrote :
      (path t : Text) (s : Session World) (r : Option Raised × World)
      → Has path t r
      → Wrote path t (ending_of system s r)
  ending_of-Wrote path t s (none, w) h = (refl, h.1)
  ending_of-Wrote path t s (some e, w) h = absurd (cc (h.0))

  report-Wrote :
      (options : Options) (rom_path source : Text) (writable : Outputs system rom_path source)
      (o : Outcome) (s : Session World) (lines : List Text)
      → o.errors ≡ []
      → write_rom_logisim o.instructions
          (some o.label_map)
          (mode_of options.data_mode)
          o.text_start_word
        ≡ some lines
      → Wrote rom_path (file_text lines) (report system options rom_path source (ok o, s))
  unfolding report write_outputs
  report-Wrote options rom_path source writable o s lines none_of image =
      let t = file_text lines in
      let r = write_rom system rom_path (some lines) s.world in
      let listing = write_listing system options.generate_listing source o in
      let outputs = write_outputs system options rom_path source o s.world in
      let e =
        ap (λ b. if b then ending_of system s outputs else (exited 1, s)) (ap is_empty none_of)
        ∙ ap
            (λ l.
              ending_of system s (then_write system (write_rom system rom_path l s.world) listing))
            image in
      let has =
        write_listing-Has options.generate_listing rom_path source writable t o r
          (write_rom-Has rom_path source writable lines s.world) in
      subst (Wrote rom_path t) (sym e)
        (ending_of-Wrote rom_path t s (then_write system r listing) has)

  -- Two paths of which the second is neither a source nor a folder
  main-report :
      (b : Text) (more : List Text) (options : Options) (a rom_path : Text) (s : Session World)
      → parse_options (b ∷ more) ≡ some options
      → options.paths ≡ a ∷ rom_path ∷ []
      → (is_source rom_path || system.is_dir s.world rom_path) ≡ false
      → (has_char b'*' a || has_char b'?' a) ≡ false
      → system.is_dir s.world a ≡ false
      → is_c_file a ≡ false
      → system.is_file s.world a ≡ true
      → main system (b ∷ more) s ≡ assemble_reported system options rom_path a s
  unfolding main with_options build_options build_paths expand c_files_of asm_files_of build
  main-report b more options a rom_path s parsed paths output plain no_dir no_c there =
      ap (λ o. with_options system o s) parsed
      ∙ (ap (λ l. build_options system options l s) paths
          ∙ rw (output, plain, no_dir, no_c, there) refl)

  -- One assembly file and a path for the ROM: if the file can be read, does not contain the sentinel of the
  -- listings, raises no ValueError and assembles without errors to an image, no relocation is kept by an
  -- earlier run, and the ROM file and the listing can be written, the program ends with 0 and the ROM file
  -- has the lines that `write_rom_logisim` makes of that image. The options leave the two paths, the
  -- first a file that is there, without wildcards, not a C file and no folder, the second no source
  -- and no folder. Writable means that the folder of the ROM file is there or can be made, and that
  -- the ROM file is read back as it was written and is not changed by writing the listing.
  pub main-Wrote :
      (b : Text) (more : List Text) (options : Options) (a rom_path content : Text)
      (s : Session World) (lines : List Text) (writable : Outputs system rom_path a)
      → parse_options (b ∷ more) ≡ some options
      → options.paths ≡ a ∷ rom_path ∷ []
      → (is_source rom_path || system.is_dir s.world rom_path) ≡ false
      → (has_char b'*' a || has_char b'?' a) ≡ false
      → system.is_dir s.world a ≡ false
      → is_c_file a ≡ false
      → system.is_file s.world a ≡ true
      → system.files.read_text s.world a ≡ ok content
      → s.relocs ≡ []
      → before_text sentinel content ≡ none
      → raises (mode_of options.data_mode) (readlines content) [] ≡ false
      → let image : Outcome =
          outcome_of (assemble_lines (readlines content) (mode_of options.data_mode) []) in
        image.errors ≡ []
        → write_rom_logisim image.instructions
            (some image.label_map)
            (mode_of options.data_mode)
            image.text_start_word
          ≡ some lines
        → Wrote rom_path (file_text lines) (main system (b ∷ more) s)
  unfolding assemble_reported assemble_source
  main-Wrote b more options a rom_path content s lines writable parsed paths output plain no_dir
        no_c there found k fresh quiet none_of made =
      let mode = mode_of options.data_mode in
      let s' = (assemble_source system.files a mode s).1 in
      let e =
        main-report b more options a rom_path s parsed paths output plain no_dir no_c there
        ∙ ap (λ o. report system options rom_path a (o, s'))
            (ap (λ r. (assemble_read system.files r a mode s).0) found
              ∙ assemble_read-content system.files content a mode s k fresh quiet) in
      subst (Wrote rom_path (file_text lines)) (sym e) (
        report-Wrote options rom_path a writable
          (outcome_of (assemble_lines (readlines content) mode [])) s' lines none_of made)
