-- ===== src/Driver/Compile.antt =====
-- From C to the ROM: `compile_c_to_ll`, `link_ll_files`, `compile_ll_to_s`, `compile_c_to_s` and
-- `compile_and_assemble` of Ensamblador/assembler.py. What is only logged is left out.
use procesador_32_bits.Base.{
  zero, Bool, true, false, List, [], ◌∷◌, ◌++◌, Option, none, some, map, if◌then◌else◌,
}
use procesador_32_bits.Base.Int.{ℤ, pos}
use procesador_32_bits.Base.Result.{Result, ok, err}
use procesador_32_bits.Text.{Text, codes, upper, starts_with}
use procesador_32_bits.Driver.{
  Raised, os_error, Failure, not_copied, clang_not_invoked, link_not_invoked, llc_not_invoked,
  clang_failed, link_failed, llc_failed, output_line,
}
use procesador_32_bits.Driver.System.{Completed, System, split_lines, splitlines}

-- returncode != 0
abbrev pub is_failure : ℤ → Bool
is_failure (pos zero) = false
is_failure _ = true

-- result.stderr or result.stdout
abbrev pub or_text : Text → Text → Text
or_text [] t = t
or_text s t = s

-- The errors of a run of a tool: the exception, or its output under a heading.
unfoldable pub tool_errors : (Text → Failure) → Failure → Result Text Completed → List Failure
unfolding split_lines
tool_errors not_invoked heading (err e) = not_invoked e ∷ []
tool_errors not_invoked heading (ok r) =
    if is_failure r.returncode
    then heading ∷ map output_line (splitlines (or_text r.stderr r.stdout))
    else []

abbrev pub quoted : Text → Text
quoted path = b'"' ∷ (path ++ b'"' ∷ [])

-- opt_level.upper() if opt_level.startswith('-') else f"-{opt_level.upper()}"
unfoldable pub option_of : Text → Text
unfolding starts_with upper
option_of opt_level =
    if starts_with (codes "-") opt_level then upper opt_level else b'-' ∷ upper opt_level

unfoldable pub clang_command : Text → Text → Text → Text
unfolding option_of
clang_command c_path ll_path opt_level =
    codes "clang "
    ++ (option_of opt_level
        ++ (codes " -fno-ms-volatile -target arm-none-eabi -S -emit-llvm "
            ++ (quoted c_path ++ (codes " -o " ++ quoted ll_path))))

-- " ".join(f'"{p}"' for p in ll_paths)
unfoldable pub inputs_str : List Text → Text
inputs_str [] = []
inputs_str (p ∷ []) = quoted p
inputs_str (p ∷ q ∷ ps) = quoted p ++ b' ' ∷ inputs_str (q ∷ ps)

unfoldable pub link_command : List Text → Text → Text
unfolding inputs_str
link_command ll_paths output_ll_path =
    codes "llvm-link " ++ (inputs_str ll_paths ++ (codes " -S -o " ++ quoted output_ll_path))

unfoldable pub llc_command : Text → Text → Text
llc_command ll_path s_path =
    codes "llc -march=isa32_lm " ++ (quoted ll_path ++ (codes " -o " ++ quoted s_path))

abbrev pub copy_errors : Option Text → List Failure
copy_errors none = []
copy_errors (some e) = not_copied e ∷ []

-- The name that the C file `c_path` has in a folder of .ll files.
abbrev pub ll_path_of : {World : Type 0} → System World → Text → Text → Text
ll_path_of system tmp_dir c_path =
    system.join tmp_dir (system.root (system.basename c_path) ++ codes ".ll")

module _ {World : Type 0} (system : System World) where
  unfoldable pub compile_c_to_ll : Text → Text → Text → World → List Failure × World
  unfolding clang_command tool_errors
  compile_c_to_ll c_path ll_path opt_level w =
      let (w', result) = system.run w (clang_command c_path ll_path opt_level) in
      (tool_errors clang_not_invoked (clang_failed c_path) result, w')

  -- A single file is copied.
  unfoldable pub link_ll_files : List Text → Text → World → List Failure × World
  unfolding link_command tool_errors
  link_ll_files (ll_path ∷ []) output_ll_path w =
      let (w', problem) = system.copyfile w ll_path output_ll_path in (copy_errors problem, w')
  link_ll_files ll_paths output_ll_path w =
      let (w', result) = system.run w (link_command ll_paths output_ll_path) in
      (tool_errors link_not_invoked link_failed result, w')

  unfoldable pub compile_ll_to_s : Text → Text → World → List Failure × World
  unfolding llc_command tool_errors
  compile_ll_to_s ll_path s_path w =
      let (w', result) = system.run w (llc_command ll_path s_path) in
      (tool_errors llc_not_invoked llc_failed result, w')

  -- The stage behind another runs if that has no errors.
  abbrev pub then_run : List Failure × World → (World → List Failure × World) → List Failure × World
  then_run ([], w) next = next w
  then_run (e ∷ errors, w) next = (e ∷ errors, w)

  abbrev remove_tmp : Text → List Failure × World → List Failure × World
  remove_tmp tmp_dir (errors, w) = (errors, system.rmtree w tmp_dir)

  unfoldable pub compile_in_folder :
      Result Text Text → Text → Text → Text → World → Result Raised (List Failure) × World
  unfolding compile_c_to_ll compile_ll_to_s
  compile_in_folder (err e) c_path s_path opt_level w = (err (os_error e), w)
  compile_in_folder (ok tmp_dir) c_path s_path opt_level w =
      let ll_path = ll_path_of system tmp_dir c_path in
      let (errors, w') =
        remove_tmp tmp_dir (
          then_run (compile_c_to_ll c_path ll_path opt_level w) (compile_ll_to_s ll_path s_path)) in
      (ok errors, w')

  unfoldable pub compile_c_to_s : Text → Text → Text → World → Result Raised (List Failure) × World
  unfolding compile_in_folder
  compile_c_to_s c_path s_path opt_level w =
      let (w', folder) = system.mkdtemp w in compile_in_folder folder c_path s_path opt_level w'
