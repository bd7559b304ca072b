-- ===== src/CommandLine/Main.antt =====
-- `main` of Ensamblador/assembler.py with arguments: what it builds, what it writes, and its exit
-- code. What it prints is left out, and the window that it opens without arguments.
use procesador_32_bits.Base.{
  ℕ, Bool, true, false, List, [], ◌∷◌, ◌++◌, Option, none, some, if◌then◌else◌,
}
use procesador_32_bits.Base.Result.{ok, err}
use procesador_32_bits.Text.{Text, codes, text_eq, lower}
use procesador_32_bits.FirstPass.{DataMode, rom, ram, other_mode}
use procesador_32_bits.Rom.{write_rom_logisim}
use procesador_32_bits.Annotated.{write_annotated_hex}
use procesador_32_bits.Listing.{join_lines}
use procesador_32_bits.Driver.{
  Ended, Raised, os_error, write_failed, value_error, Outcome, Session, assemble_source,
}
use procesador_32_bits.Driver.System.{System}
use procesador_32_bits.Driver.Build.{at_world, compile_and_assemble}
use procesador_32_bits.CommandLine.Paths.{
  is_source, c_files_of, asm_files_of, rom_path_of, expand, are_files,
}
use procesador_32_bits.CommandLine.{Options, parse_options}

-- sys.exit(n), an exception that ends the program, or the window.
pub data Ending : Type 0 where
  exited : ℕ → Ending
  raised : Raised → Ending
  window : Ending

unfoldable pub mode_of : Text → DataMode
unfolding text_eq lower
mode_of data_mode =
    if text_eq (lower data_mode) (codes "rom")
    then rom
    else if text_eq (lower data_mode) (codes "ram")
    then ram
    else other_mode

-- `"\n".join(lines) + "\n"` of the lines of the ROM file, and the pieces of the listing one behind the
-- other
abbrev pub file_text : List Text → Text
file_text lines = join_lines lines ++ b'\n' ∷ []

unfoldable pub join_pieces : List Text → Text
join_pieces [] = []
join_pieces (p ∷ ps) = p ++ join_pieces ps

abbrev pub is_empty : {A : Type 0} → List A → Bool
is_empty [] = true
is_empty (a ∷ more) = false

module _ {World : Type 0} (system : System World) where
  -- A step that may raise, and the one behind it.
  abbrev pub then_write :
      Option Raised × World → (World → Option Raised × World) → Option Raised × World
  then_write (none, w) next = next w
  then_write (some e, w) next = (some e, w)

  abbrev pub write_file : Text → Text → World → Option Raised × World
  write_file path t w =
      let (w', done) = system.files.write_text w path t in
      (if done then none else some write_failed, w')

  abbrev pub raised_of : Option Text → Option Raised
  raised_of none = none
  raised_of (some e) = some (os_error e)

  -- os.makedirs(parent, exist_ok=True), if there is a parent
  abbrev pub make_parent : Text → World → Option Raised × World
  make_parent [] w = (none, w)
  make_parent (c ∷ p) w = let (w', problem) = system.makedirs w (c ∷ p) in (raised_of problem, w')

  -- write_rom_logisim on the lines of its file, if it writes one
  abbrev pub write_rom : Text → Option (List Text) → World → Option Raised × World
  write_rom path none w = (none, w)
  write_rom path (some lines) w =
      then_write (make_parent (system.dirname path) w) (write_file path (file_text lines))

  abbrev pub write_listing : Bool → Text → Outcome → World → Option Raised × World
  write_listing false source o w = (none, w)
  write_listing true source o w =
      write_file (system.root source ++ codes "_listado.hex")
        (join_pieces (write_annotated_hex o.instructions o.label_map)) w

  unfoldable pub write_outputs : Options → Text → Text → Outcome → World → Option Raised × World
  unfolding write_rom_logisim mode_of join_lines join_pieces write_annotated_hex
  write_outputs options rom_path source o w =
      then_write
        (write_rom rom_path
          (write_rom_logisim o.instructions (some o.label_map) (mode_of options.data_mode)
            o.text_start_word)
          w)
        (write_listing options.generate_listing source o)

  abbrev pub ending_of : Session World → Option Raised × World → Ending × Session World
  ending_of s (none, w) = (exited 0, at_world system s w)
  ending_of s (some e, w) = (raised e, at_world system s w)

  -- Behind the build: the errors end the program with 1, and without errors the files are written.
  unfoldable pub report : Options → Text → Text → Ended World → Ending × Session World
  unfolding write_outputs
  report options rom_path source (err e, s) = (raised e, s)
  report options rom_path source (ok o, s) =
      if is_empty o.errors
      then ending_of s (write_outputs options rom_path source o s.world)
      else (exited 1, s)

  unfoldable pub assemble_reported : Options → Text → Text → Session World → Ending × Session World
  unfolding report assemble_source mode_of
  assemble_reported options rom_path a s =
      report options rom_path a (assemble_source system.files a (mode_of options.data_mode) s)

  -- One assembly file, or C files; `source` is the file that names the listing.
  unfoldable pub build :
      Options → Text → List Text → List Text → Session World → Ending × Session World
  unfolding are_files report compile_and_assemble assemble_reported mode_of
  build options rom_path (c ∷ cs) [] s =
      if are_files system s.world (c ∷ cs)
      then report options rom_path c (
          compile_and_assemble system (c ∷ cs) options.opt_level options.generate_ll
            (mode_of options.data_mode) s)
      else (exited 1, s)
  build options rom_path [] (a ∷ []) s =
      if system.is_file s.world a then assemble_reported options rom_path a s else (exited 1, s)
  build options rom_path c_files asm_files s = (exited 1, s)

  unfoldable pub build_paths : Options → Text × List Text → Session World → Ending × Session World
  unfolding expand build c_files_of asm_files_of
  build_paths options (rom_path, []) s = (exited 1, s)
  build_paths options (rom_path, a ∷ more) s =
      let paths = expand system s.world (a ∷ more) in
      build options rom_path (c_files_of paths) (asm_files_of paths) s

  unfoldable pub build_options : Options → List Text → Session World → Ending × Session World
  unfolding build_paths is_source
  build_options options [] s = (exited 1, s)
  build_options options (a ∷ more) s = build_paths options (rom_path_of system s.world a more) s

  unfoldable pub with_options : Option Options → Session World → Ending × Session World
  unfolding build_options
  with_options none s = (raised value_error, s)
  with_options (some options) s = build_options options options.paths s

  unfoldable pub main : List Text → Session World → Ending × Session World
  unfolding with_options parse_options
  main [] s = (window, s)
  main (a ∷ more) s = with_options (parse_options (a ∷ more)) s
