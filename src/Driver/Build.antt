-- ===== src/Driver/Build.antt =====
-- `compile_and_assemble` of Ensamblador/assembler.py: each C file to a .ll file, the .ll files to one, that
-- to a .s file, and that to the words of the ROM.
use procesador_32_bits.Base.{Bool, true, false, List, [], ◌∷◌, ◌++◌, Option, none, some}
use procesador_32_bits.Base.Result.{Result, ok, err}
use procesador_32_bits.Text.{Text, codes}
use procesador_32_bits.FirstPass.{DataMode}
use procesador_32_bits.Driver.{
  Ended, os_error, index_error, Failure, failed, Session, assemble_source,
}
use procesador_32_bits.Driver.System.{System}
use procesador_32_bits.Driver.Compile.{compile_c_to_ll, link_ll_files, compile_ll_to_s, ll_path_of}

module _ {World : Type 0} (system : System World) where
  abbrev pub at_world : Session World → World → Session World
  at_world s w = record s { world = w }

  -- One more file in front of the result of those behind it.
  abbrev pub add_compiled :
      List Failure → Text → List Failure × List Text × World → List Failure × List Text × World
  add_compiled [] ll_path (errors, ll_paths, w) = (errors, ll_path ∷ ll_paths, w)
  add_compiled errs ll_path (errors, ll_paths, w) = (errs ++ errors, ll_paths, w)

  -- Step 1: every file is compiled, whatever errors the ones before it have. The result has all
  -- errors and the .ll files of the others.
  unfoldable pub compile_all : Text → Text → List Text → World → List Failure × List Text × World
  unfolding compile_c_to_ll
  compile_all tmp_dir opt_level [] w = ([], [], w)
  compile_all tmp_dir opt_level (c_path ∷ c_paths) w =
      let ll_path = ll_path_of system tmp_dir c_path in
      let (errs, w') = compile_c_to_ll system c_path ll_path opt_level w in
      add_compiled errs ll_path (compile_all tmp_dir opt_level c_paths w')

  -- Steps 3 and 4, behind the errors of llc
  unfoldable pub assemble_final :
      Text → DataMode → List Failure × World → Session World → Ended World
  unfolding assemble_source
  assemble_final final_s mode ([], w) s = assemble_source system.files final_s mode (at_world s w)
  assemble_final final_s mode (errs, w) s = (ok (failed errs), at_world s w)

  unfoldable pub generate_code : Text → Text → DataMode → Session World → Ended World
  unfolding compile_ll_to_s assemble_final
  generate_code unido_ll final_s mode s =
      assemble_final final_s mode (compile_ll_to_s system unido_ll final_s s.world) s

  -- generate_ll: the linked file is kept; an exception of the copy is not caught here.
  unfoldable pub keep_ll : Bool → Text → Text → World → Option Text × World
  keep_ll true unido_ll final_ll w =
      let (w', problem) = system.copyfile w unido_ll final_ll in (problem, w')
  keep_ll false unido_ll final_ll w = (none, w)

  unfoldable pub code_or_raise :
      Option Text × World → Text → Text → DataMode → Session World → Ended World
  unfolding generate_code
  code_or_raise (none, w) unido_ll final_s mode s =
      generate_code unido_ll final_s mode (at_world s w)
  code_or_raise (some e, w) unido_ll final_s mode s = (err (os_error e), at_world s w)

  -- os.path.join(first_dir, first_base + suffix)
  abbrev pub beside : World → Text → Text → Text
  beside w c_path suffix =
      system.join (system.dirname (system.abspath w c_path))
        (system.root (system.basename c_path) ++ suffix)

  -- Behind the linker: c_paths[0] names the files that are made.
  unfoldable pub build_linked :
      List Text → Text → Bool → DataMode → List Failure × World → Session World → Ended World
  unfolding keep_ll code_or_raise
  build_linked [] unido_ll generate_ll mode ([], w) s = (err index_error, at_world s w)
  build_linked (c_path ∷ c_paths) unido_ll generate_ll mode ([], w) s =
      code_or_raise (keep_ll generate_ll unido_ll (beside w c_path (codes "_combined.ll")) w)
        unido_ll (beside w c_path (codes "_combined.s")) mode s
  build_linked c_paths unido_ll generate_ll mode (errs, w) s = (ok (failed errs), at_world s w)

  unfoldable pub build_compiled :
      List Text
      → Text
      → Bool
      → DataMode
      → List Failure × List Text × World
      → Session World
      → Ended World
  unfolding link_ll_files build_linked
  build_compiled c_paths unido_ll generate_ll mode ([], ll_paths, w) s =
      build_linked c_paths unido_ll generate_ll mode (link_ll_files system ll_paths unido_ll w) s
  build_compiled c_paths unido_ll generate_ll mode (errors, ll_paths, w) s =
      (ok (failed errors), at_world s w)

  -- The block under `try`
  unfoldable pub build_in : Text → List Text → Text → Bool → DataMode → Session World → Ended World
  unfolding compile_all build_compiled
  build_in tmp_dir c_paths opt_level generate_ll mode s =
      build_compiled c_paths (system.join tmp_dir (codes "unido.ll")) generate_ll mode
        (compile_all tmp_dir opt_level c_paths s.world) s

  -- `finally`
  abbrev pub remove_dir : Text → Ended World → Ended World
  remove_dir tmp_dir (result, s) = (result, at_world s (system.rmtree s.world tmp_dir))

  unfoldable pub build_in_folder :
      Result Text Text → List Text → Text → Bool → DataMode → Session World → Ended World
  unfolding build_in
  build_in_folder (err e) c_paths opt_level generate_ll mode s = (err (os_error e), s)
  build_in_folder (ok tmp_dir) c_paths opt_level generate_ll mode s =
      remove_dir tmp_dir (build_in tmp_dir c_paths opt_level generate_ll mode s)

  unfoldable pub compile_and_assemble :
      List Text → Text → Bool → DataMode → Session World → Ended World
  unfolding build_in_folder
  compile_and_assemble c_paths opt_level generate_ll mode s =
      let (w, folder) = system.mkdtemp s.world in
      build_in_folder folder c_paths opt_level generate_ll mode (at_world s w)
