-- ===== src/Driver/System.antt =====
-- What Ensamblador/assembler.py takes from the operating system, as parameters: processes, files, folders
-- and the functions of os.path, which differ by platform.
use procesador_32_bits.Base.{ℕ, Bool, false, List, [], ◌∷◌, Option, ◌==◌, ◌||◌, ◌&&◌, if◌then◌else◌}
use procesador_32_bits.Base.Int.{ℤ}
use procesador_32_bits.Base.Result.{Result}
use procesador_32_bits.Text.{Text, within}
use procesador_32_bits.Driver.{Files}

-- The result of subprocess.run(…, capture_output=True, text=True)
pub record Completed : Type 0 where
  pub returncode : ℤ
  pub stdout : Text
  pub stderr : Text

-- Each operation gives the world behind it, and its result or the text of the exception.
pub record System (World : Type 0) : Type 0 where
  pub files : Files World
  -- subprocess.run(cmd, shell=True, …)
  pub run : World → Text → World × Result Text Completed
  -- shutil.copyfile; `none` if it succeeds
  pub copyfile : World → Text → Text → World × Option Text
  -- tempfile.mkdtemp(prefix="isa32_asm_")
  pub mkdtemp : World → World × Result Text Text
  -- shutil.rmtree(path, ignore_errors=True)
  pub rmtree : World → Text → World
  -- os.makedirs(path, exist_ok=True); `none` if it succeeds
  pub makedirs : World → Text → World × Option Text
  pub is_file : World → Text → Bool
  pub is_dir : World → Text → Bool
  -- glob.glob(pattern, recursive=True)
  pub glob : World → Text → List Text
  -- os.walk: the folders below a folder, each with the names of its files
  pub walk : World → Text → List (Text × List Text)
  pub abspath : World → Text → Text
  pub basename : Text → Text
  pub dirname : Text → Text
  -- os.path.splitext(path)[0]
  pub root : Text → Text
  pub join : Text → Text → Text

-- The ASCII line ends of str.splitlines.
abbrev pub ends_line : ℕ → Bool
ends_line c = within 10 13 c || within 28 30 c

abbrev add_char : ℕ → List Text → List Text
add_char c [] = (c ∷ []) ∷ []
add_char c (l ∷ ls) = (c ∷ l) ∷ ls

-- The lines of a text; `cr` tells that a carriage return stands before it, with which a newline is one end.
unfoldable pub split_lines : Bool → Text → List Text
split_lines cr [] = []
split_lines cr (c ∷ s) =
    let rest = split_lines (c == 13) s in
    if cr && c == 10 then rest else if ends_line c then [] ∷ rest else add_char c rest

-- s.splitlines()
abbrev pub splitlines : Text → List Text
splitlines s = split_lines false s
