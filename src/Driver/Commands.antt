-- ===== src/Driver/Commands.antt =====
-- The commands that the compiler driver runs, with what the tools answer to them.
use procesador_32_bits.Base.{Bool, ◌≡◌, ◌≢◌, refl, ap, ◌∙◌, List, [], ◌∷◌, ◌++◌}
use procesador_32_bits.Base.Result.{Result, ok}
use procesador_32_bits.Text.{Text, codes}
use procesador_32_bits.FirstPass.{DataMode}
use procesador_32_bits.Driver.{Failure, clang_not_invoked, clang_failed, failed, Session}
use procesador_32_bits.Driver.System.{Completed, System}
use procesador_32_bits.Driver.Compile.{compile_c_to_ll, tool_errors, clang_command, ll_path_of}
use procesador_32_bits.Driver.Build.{
  at_world, add_compiled, compile_all, build_compiled, build_in, remove_dir, build_in_folder,
  compile_and_assemble,
}

-- A C file and what clang answered for it.
abbrev pub Answer : Type 0
Answer = Text × Result Text Completed

unfoldable pub errors_of : Answer → List Failure
errors_of (c_path, result) = tool_errors clang_not_invoked (clang_failed c_path) result

-- The errors of all the files, in their order.
unfoldable pub all_errors : List Answer → List Failure
unfolding errors_of
all_errors [] = []
all_errors (x ∷ xs) = errors_of x ++ all_errors xs

module _ {World : Type 0} (system : System World) (tmp_dir opt_level : Text) where
  unfoldable pub command_of : Text → Text
  command_of c_path = clang_command c_path (ll_path_of system tmp_dir c_path) opt_level

  -- One clang for each file, the next in the world that the one before leaves.
  unfoldable pub run_all : List Text → World → List Answer × World
  unfolding command_of
  run_all [] w = ([], w)
  run_all (c ∷ cs) w =
      let (w', result) = system.run w (command_of c) in
      let (answers, behind) = run_all cs w' in ((c, result) ∷ answers, behind)

  abbrev if_none : List Failure → Text → List Text → List Text
  if_none [] ll_path ll_paths = ll_path ∷ ll_paths
  if_none (e ∷ es) ll_path ll_paths = ll_paths

  -- The .ll files of those without errors.
  unfoldable pub all_compiled : List Answer → List Text
  unfolding errors_of
  all_compiled [] = []
  all_compiled (x ∷ xs) = if_none (errors_of x) (ll_path_of system tmp_dir x.0) (all_compiled xs)

  add_compiled-append :
      (errs : List Failure) (ll_path : Text) (errors : List Failure) (ll_paths : List Text)
      (w : World)
      → add_compiled system errs ll_path (errors, ll_paths, w)
        ≡ (errs ++ errors, if_none errs ll_path ll_paths, w)
  add_compiled-append [] ll_path errors ll_paths w = refl
  add_compiled-append (e ∷ es) ll_path errors ll_paths w = refl

  pub compile_all-run_all :
      (cs : List Text) (w : World)
      → compile_all system tmp_dir opt_level cs w
        ≡ (all_errors (run_all cs w).0, all_compiled (run_all cs w).0, (run_all cs w).1)
  unfolding compile_all compile_c_to_ll all_errors all_compiled run_all errors_of command_of
  compile_all-run_all [] w = refl
  compile_all-run_all (c ∷ cs) w =
      let ll_path = ll_path_of system tmp_dir c in
      let (w', result) = system.run w (command_of c) in
      let (answers, behind) = run_all cs w' in
      ap (add_compiled system (errors_of (c, result)) ll_path) (compile_all-run_all cs w')
      ∙ add_compiled-append (errors_of (c, result)) ll_path (all_errors answers)
          (all_compiled answers) behind

  build_compiled-errors :
      (cs : List Text) (unido : Text) (generate_ll : Bool) (mode : DataMode) (errors : List Failure)
      (ll_paths : List Text) (w : World) (s : Session World)
      → errors ≢ []
      → build_compiled system cs unido generate_ll mode (errors, ll_paths, w) s
        ≡ ((ok (failed errors), at_world system s w))
  unfolding build_compiled
  build_compiled-errors cs unido generate_ll mode [] ll_paths w s h = absurd (h refl)
  build_compiled-errors cs unido generate_ll mode (e ∷ es) ll_paths w s h = refl

  -- Once there is a temporary folder, when clang answers one of the files with an error, every file is
  -- compiled all the same, each in the world that the one before leaves; the outcome has the errors of all
  -- of them, in the order of the files, and nothing else; neither the linker nor llc is run, and
  -- the temporary folder is removed: that is all that happens.
  pub compile_and_assemble-errors :
      (cs : List Text) (generate_ll : Bool) (mode : DataMode) (s : Session World) (w : World)
      → system.mkdtemp s.world ≡ (w, ok tmp_dir)
      → all_errors (run_all cs w).0 ≢ []
      → compile_and_assemble system cs opt_level generate_ll mode s ≡ (
        ok (failed (all_errors (run_all cs w).0)),
        at_world system s (system.rmtree (run_all cs w).1 tmp_dir),
      )
  unfolding compile_and_assemble build_in_folder build_in
  compile_and_assemble-errors cs generate_ll mode s w made h =
      let unido = system.join tmp_dir (codes "unido.ll") in
      let (answers, behind) = run_all cs w in
      ap (λ r. build_in_folder system r.1 cs opt_level generate_ll mode (at_world system s r.0))
        made
      ∙ ap (remove_dir system tmp_dir) (
          ap (λ r. build_compiled system cs unido generate_ll mode r (at_world system s w))
            (compile_all-run_all cs w)
          ∙ build_compiled-errors cs unido generate_ll mode (all_errors answers)
              (all_compiled answers) behind (at_world system s w) h)
