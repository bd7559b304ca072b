-- ===== src/Window/Agrees.antt =====
-- The window does what the command line does.
use procesador_32_bits.Base.{
  ◌+◌, ◌≡◌, refl, sym, ap, ◌∙◌, Bool, true, false, ◌&&◌, List, [], ◌∷◌, Option, none, some, ◌==◌,
  length, arith, ==_iff, if◌then◌else◌,
}
use procesador_32_bits.Base.Result.{ok, err}
use procesador_32_bits.Text.{Text}
use procesador_32_bits.Driver.{Ended, Raised, Session, assemble_source}
use procesador_32_bits.Driver.System.{System}
use procesador_32_bits.CommandLine.{Options}
use procesador_32_bits.CommandLine.Paths.{c_files_of, asm_files_of, expand, are_files}
use procesador_32_bits.CommandLine.Kinds.{files-length, c_files-all, asm_files-all}
use procesador_32_bits.CommandLine.Main.{
  mode_of, Ending, exited, raised, window, is_empty, ending_of, write_outputs, report,
  assemble_reported, build, build_paths,
}
use procesador_32_bits.Window.{stopped, show, assemble_shown, run_files, run_expanded, run_sources}

-- What an exit code leaves of a run: whether it ended with an exception.
abbrev pub exception_of : Ending → Option Raised
exception_of (exited n) = none
exception_of (raised e) = some e
exception_of window = none

and_true : (b : Bool) → (b && true) ≡ b
and_true true = refl
and_true false = refl

module _ {World : Type 0} (system : System World) where
  abbrev pub as_shown : Ending × Session World → Option Raised × Session World
  as_shown (ending, s) = (exception_of ending, s)

  stopped-ending_of :
      (s : Session World) (r : Option Raised × World)
      → stopped system s r ≡ as_shown (ending_of system s r)
  stopped-ending_of s (none, w) = refl
  stopped-ending_of s (some e, w) = refl

  if-shown :
      (c : Bool) (a : Option Raised × Session World) (b : Ending × Session World)
      (s : Session World)
      → a ≡ as_shown b
      → (if c then a else (none, s)) ≡ as_shown (if c then b else (exited 1, s))
  if-shown true a b s h = h
  if-shown false a b s h = refl

  show-report :
      (options : Options) (rom_path source : Text) (r : Ended World)
      → show system options rom_path source r ≡ as_shown (report system options rom_path source r)
  unfolding show report
  show-report options rom_path source (err e, s) = refl
  show-report options rom_path source (ok o, s) =
      if-shown (is_empty o.errors) _ _ s
        (stopped-ending_of s (write_outputs system options rom_path source o s.world))

  -- What the window does with files whose C files are `cs`.
  abbrev ran :
      Options → Text → List Text → List Text → Session World → Option Raised × Session World
  ran options rom_path fs cs s =
      if are_files system s.world fs then run_files system options rom_path cs fs s else (none, s)

  no_choice : (c : Bool) (a : Option Raised × Session World) → (if c then a else a) ≡ a
  no_choice true a = refl
  no_choice false a = refl

  ran-compiles :
      (options : Options) (rom_path c : Text) (cs : List Text) (s : Session World)
      → ran options rom_path (c ∷ cs) (c ∷ cs) s
        ≡ as_shown (build system options rom_path (c ∷ cs) [] s)
  unfolding build run_files
  ran-compiles options rom_path c cs s =
      let same : (length (c ∷ cs) == length (c ∷ cs)) ≡ true =
        (==_iff (length (c ∷ cs)) (length (c ∷ cs))).1 refl in
      if-shown (are_files system s.world (c ∷ cs)) _ _ s
        (rw same (show-report options rom_path c _))

  ran-assembles :
      (options : Options) (rom_path a : Text) (s : Session World)
      → ran options rom_path (a ∷ []) [] s ≡ as_shown (build system options rom_path [] (a ∷ []) s)
  unfolding build assemble_reported run_files are_files assemble_shown
  ran-assembles options rom_path a s =
      ap (λ b. if b then assemble_shown system options rom_path a s else (none, s))
        (and_true (system.is_file s.world a))
      ∙ if-shown (system.is_file s.world a) _ _ s (
          show-report options rom_path a
            (assemble_source system.files a (mode_of options.data_mode) s))

  ran-mixed :
      (options : Options) (rom_path c a : Text) (fs cs l : List Text) (s : Session World)
      → length fs ≡ length (c ∷ cs) + length (a ∷ l)
      → ran options rom_path fs (c ∷ cs) s ≡ (none, s)
  unfolding run_files
  ran-mixed options rom_path c a fs cs l s h =
      let differ : (length (c ∷ cs) == length fs) ≡ false = ground (arith, h) in
      rw differ (no_choice (are_files system s.world fs) (none, s))

  -- The same list of files, in two parts
  ran-build :
      (options : Options) (rom_path : Text) (fs cs others : List Text) (s : Session World)
      → c_files_of fs ≡ cs
      → asm_files_of fs ≡ others
      → ran options rom_path fs cs s ≡ as_shown (build system options rom_path cs others s)
  unfolding build run_files
  ran-build options rom_path fs (c ∷ cs) [] s h k =
      ap (λ l. ran options rom_path l (c ∷ cs) s) (sym (c_files-all fs k) ∙ h)
      ∙ ran-compiles options rom_path c cs s
  ran-build options rom_path fs [] [] s h k =
      ap (λ l. ran options rom_path l [] s) (sym (asm_files-all fs h) ∙ k)
      ∙ no_choice (are_files system s.world []) (none, s)
  ran-build options rom_path fs [] (a ∷ []) s h k =
      ap (λ l. ran options rom_path l [] s) (sym (asm_files-all fs h) ∙ k)
      ∙ ran-assembles options rom_path a s
  ran-build options rom_path fs [] (a ∷ b ∷ l) s h k =
      ap (λ l. ran options rom_path l [] s) (sym (asm_files-all fs h) ∙ k)
      ∙ no_choice (are_files system s.world (a ∷ b ∷ l)) (none, s)
  ran-build options rom_path fs (c ∷ cs) (a ∷ l) s h k = ran-mixed options rom_path c a fs cs l s (
      files-length fs
      ∙ (ap (λ x. length x + length (asm_files_of fs)) h ∙ ap (λ y. length (c ∷ cs) + length y) k))

  -- For the same options, ROM path, paths and session, the window and the command line build the same and
  -- leave the same files and session, and end with the same exception or without one, whatever wildcards,
  -- folders, missing or mixed files are among the paths.
  pub run_sources-build_paths :
      (options : Options) (rom_path : Text) (paths : List Text) (s : Session World)
      → run_sources system options rom_path paths s
        ≡ as_shown (build_paths system options (rom_path, paths) s)
  unfolding run_sources build_paths run_expanded
  run_sources-build_paths options rom_path [] s = refl
  run_sources-build_paths options rom_path (f ∷ fs) s =
      let files = expand system s.world (f ∷ fs) in
      ran-build options rom_path files (c_files_of files) (asm_files_of files) s refl refl
