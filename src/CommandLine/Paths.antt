-- ===== src/CommandLine/Paths.antt =====
-- The paths among the arguments of `main`: the sources, the ROM file, wildcards and folders.
use procesador_32_bits.Base.{
  ℕ, ◌-◌, Bool, true, false, ◌&&◌, ◌||◌, List, [], ◌∷◌, ◌++◌, ◌==◌, length, drop, if◌then◌else◌,
}
use procesador_32_bits.Text.{Text, codes, text_eq, lower}
use procesador_32_bits.Driver.System.{System}

-- s.endswith(suffix)
unfoldable pub ends_with : Text → Text → Bool
unfolding text_eq
ends_with suffix s = text_eq (drop (length s - length suffix) s) suffix

unfoldable pub ends_with_any : List Text → Text → Bool
unfolding ends_with
ends_with_any [] s = false
ends_with_any (e ∷ es) s = ends_with e s || ends_with_any es s

abbrev pub source_exts : List Text
source_exts = codes ".c" ∷ codes ".s" ∷ codes ".asm" ∷ codes ".txt" ∷ codes ".C" ∷ []

unfoldable pub is_c_file : Text → Bool
unfolding ends_with lower
is_c_file path = ends_with (codes ".c") (lower path)

unfoldable pub is_source : Text → Bool
unfolding ends_with_any lower
is_source path = ends_with_any source_exts (lower path)

-- [a for a in args if is_c_file a], and those that are not
unfoldable pub c_files_of : List Text → List Text
unfolding is_c_file
c_files_of [] = []
c_files_of (a ∷ more) = let rest = c_files_of more in if is_c_file a then a ∷ rest else rest

unfoldable pub asm_files_of : List Text → List Text
unfolding is_c_file
asm_files_of [] = []
asm_files_of (a ∷ more) = let rest = asm_files_of more in if is_c_file a then rest else a ∷ rest

-- ROM_OUTPUT_PATH
abbrev pub rom_output_path : Text
rom_output_path = codes "D:\\Yo\\Escritorio\\Procesador-32-bits\\System\\Memory\\ROM"

-- args[-1] and args[:-1]
abbrev pub last_of : Text → List Text → Text
last_of a [] = a
last_of a (b ∷ more) = last_of b more

abbrev pub init_of : Text → List Text → List Text
init_of a [] = []
init_of a (b ∷ more) = a ∷ init_of b more

abbrev pub has_char : ℕ → Text → Bool
has_char c [] = false
has_char c (d ∷ s) = c == d || has_char c s

module _ {World : Type 0} (system : System World) where
  -- The last argument is the ROM file if it is neither a source nor a folder.
  abbrev pub rom_path_of : World → Text → List Text → Text × List Text
  rom_path_of w a more =
      if is_source (last_of a more) || system.is_dir w (last_of a more)
      then (rom_output_path, a ∷ more)
      else (last_of a more, init_of a more)

  unfoldable pub c_names : Text → List Text → List Text
  unfolding is_c_file
  c_names folder [] = []
  c_names folder (name ∷ names) =
      let rest = c_names folder names in
      if is_c_file name then system.join folder name ∷ rest else rest

  unfoldable pub c_files_below : List (Text × List Text) → List Text
  unfolding c_names
  c_files_below [] = []
  c_files_below ((folder, names) ∷ folders) = c_names folder names ++ c_files_below folders

  abbrev pub or_itself : List Text → Text → List Text
  or_itself [] a = a ∷ []
  or_itself (p ∷ ps) a = p ∷ ps

  unfoldable pub expand : World → List Text → List Text
  unfolding c_files_below
  expand w [] = []
  expand w (a ∷ more) =
      (if has_char b'*' a || has_char b'?' a
        then or_itself (system.glob w a) a
        else if system.is_dir w a
        then c_files_below (system.walk w a)
        else a ∷ [])
      ++ expand w more

  unfoldable pub are_files : World → List Text → Bool
  are_files w [] = true
  are_files w (a ∷ more) = system.is_file w a && are_files w more
