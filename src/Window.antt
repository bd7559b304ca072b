-- ===== src/Window.antt =====
-- The window of Ensamblador/assembler.py, `AssemblerGUI`: what its fields hold, the answers of its
-- dialogues, and the button that assembles. Its widgets and its log are left out.
pub mod Agrees
use procesador_32_bits.Base.{
  ℕ, Bool, true, false, List, [], ◌∷◌, ◌++◌, Option, none, some, ◌==◌, length, map, if◌then◌else◌,
}
use procesador_32_bits.Base.Result.{Result, ok, err}
use procesador_32_bits.Text.{Text, codes, strip, lower}
use procesador_32_bits.Text.Format.{decimal}
use procesador_32_bits.Driver.{Ended, Raised, Outcome, Session, assemble_source}
use procesador_32_bits.Driver.System.{System}
use procesador_32_bits.Driver.Build.{at_world, compile_and_assemble}
use procesador_32_bits.CommandLine.{Options}
use procesador_32_bits.CommandLine.Paths.{rom_output_path, is_c_file, c_files_of, expand, are_files}
use procesador_32_bits.CommandLine.Main.{mode_of, is_empty, write_outputs}

-- _selected_files and the variables of the widgets
pub record Form : Type 0 where
  pub selected_files : List Text
  pub path_var : Text
  pub rom_var : Text
  pub listing_var : Bool
  pub ll_var : Bool
  pub opt_var : Text
  pub data_mode_var : Text

-- __init__ and _build_ui
abbrev pub new_form : Form
new_form = record {
  selected_files = [];
  path_var = [];
  rom_var = rom_output_path;
  listing_var = true;
  ll_var = false;
  opt_var = codes "-O0";
  data_mode_var = codes "ROM";
}

-- ", ".join(names)
unfoldable pub join_names : List Text → Text
join_names [] = []
join_names (n ∷ []) = n
join_names (n ∷ m ∷ more) = n ++ b',' ∷ b' ' ∷ join_names (m ∷ more)

-- The options that the fields give.
abbrev pub options_of : Form → Options
options_of form = record {
  data_mode = lower form.data_mode_var;
  generate_listing = form.listing_var;
  generate_ll = form.ll_var;
  opt_level = form.opt_var;
  paths = [];
}

abbrev typed : Text → List Text
typed [] = []
typed (c ∷ source) = (c ∷ source) ∷ []

-- The files chosen, or the path that was typed.
unfoldable pub sources_of : Form → List Text
unfolding strip
sources_of form = elim form.selected_files [
  | [] ↦ typed (strip form.path_var)
  | f ∷ files ↦ f ∷ files
]

module _ {World : Type 0} (system : System World) where
  -- The text that stands for the files chosen.
  abbrev pub shown : List Text → Text
  shown (f ∷ []) = f
  shown files =
      b'['
      ∷ (decimal (length files) ++ (codes " archivos] " ++ join_names (map system.basename files)))

  -- _browse with the files of its dialogue, none if it is cancelled
  unfoldable pub browse : List Text → Form → Form
  unfolding join_names
  browse [] form = form
  browse (f ∷ files) form = record form { selected_files = f ∷ files; path_var = shown (f ∷ files) }

  -- _browse_dir with the folder of its dialogue
  unfoldable pub browse_dir : Text → Form → Form
  browse_dir [] form = form
  browse_dir (c ∷ folder) form = record form {
    selected_files = (c ∷ folder) ∷ [];
    path_var = c ∷ folder;
  }

  -- _browse_rom with the path of its dialogue
  unfoldable pub browse_rom : Text → Form → Form
  browse_rom [] form = form
  browse_rom (c ∷ path) form = record form { rom_var = c ∷ path }

  abbrev pub Shown : Type 0
  Shown = Option Raised × Session World

  abbrev pub stopped : Session World → Option Raised × World → Shown
  stopped s (problem, w) = (problem, at_world system s w)

  -- Behind the build: errors are shown, and without errors the files are written.
  unfoldable pub show : Options → Text → Text → Ended World → Shown
  unfolding write_outputs
  show options rom_path source (err e, s) = (some e, s)
  show options rom_path source (ok o, s) =
      if is_empty o.errors
      then stopped s (write_outputs system options rom_path source o s.world)
      else (none, s)

  unfoldable pub assemble_shown : Options → Text → Text → Session World → Shown
  unfolding show assemble_source mode_of
  assemble_shown options rom_path f s =
      show options rom_path f (assemble_source system.files f (mode_of options.data_mode) s)

  -- Files that are there: C files alone, or one other file.
  unfoldable pub run_files : Options → Text → List Text → List Text → Session World → Shown
  unfolding show compile_and_assemble assemble_shown mode_of
  run_files options rom_path (c ∷ c_files) files s =
      if length (c ∷ c_files) == length files
      then show options rom_path c (
          compile_and_assemble system (c ∷ c_files) options.opt_level options.generate_ll
            (mode_of options.data_mode) s)
      else (none, s)
  run_files options rom_path [] (f ∷ []) s = assemble_shown options rom_path f s
  run_files options rom_path [] files s = (none, s)

  unfoldable pub run_expanded : Options → Text → List Text → Session World → Shown
  unfolding are_files run_files c_files_of
  run_expanded options rom_path files s =
      if are_files system s.world files
      then run_files options rom_path (c_files_of files) files s
      else (none, s)

  unfoldable pub run_sources : Options → Text → List Text → Session World → Shown
  unfolding expand run_expanded
  run_sources options rom_path [] s = (none, s)
  run_sources options rom_path (f ∷ files) s =
      run_expanded options rom_path (expand system s.world (f ∷ files)) s

  -- _run
  unfoldable pub run : Form → Session World → Shown
  unfolding run_sources sources_of strip lower
  run form s = run_sources (options_of form) (strip form.rom_var) (sources_of form) s
