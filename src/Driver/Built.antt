-- ===== src/Driver/Built.antt =====
-- The compiler driver when every tool succeeds.
use procesador_32_bits.Base.{none, false, ◌≡◌, refl, ap, ◌∙◌, List, [], ◌∷◌, ◌++◌, map}
use procesador_32_bits.Base.Result.{ok}
use procesador_32_bits.Text.{Text, codes}
use procesador_32_bits.FirstPass.{DataMode}
use procesador_32_bits.FirstPass.Lines.{raises}
use procesador_32_bits.SecondPass.{assemble_lines}
use procesador_32_bits.Listing.{sentinel, readlines, before_text}
use procesador_32_bits.Driver.{
  link_not_invoked, link_failed, llc_not_invoked, llc_failed, outcome_of, Session, assemble_read,
  assemble_source,
}
use procesador_32_bits.Driver.Runs.{assemble_read-content}
use procesador_32_bits.Driver.System.{System}
use procesador_32_bits.Driver.Compile.{
  tool_errors, link_command, llc_command, link_ll_files, compile_ll_to_s, ll_path_of,
}
use procesador_32_bits.Driver.Build.{
  at_world, beside, assemble_final, generate_code, keep_ll, code_or_raise, build_linked,
  build_compiled, build_in, build_in_folder, compile_and_assemble,
}
use procesador_32_bits.Driver.Commands.{
  command_of, errors_of, all_errors, all_compiled, run_all, compile_all-run_all,
}

append-nil-left : {A : Type 0} (xs ys : List A) → xs ++ ys ≡ [] → xs ≡ []
append-nil-left [] ys h = refl
append-nil-left (x ∷ xs) ys h = cc

append-nil-right : {A : Type 0} (xs ys : List A) → xs ++ ys ≡ [] → ys ≡ []
append-nil-right [] ys h = h
append-nil-right (x ∷ xs) ys h = absurd (cc h)

module _ {World : Type 0} (system : System World) (tmp_dir opt_level : Text) where
  abbrev pub unido : Text
  unido = system.join tmp_dir (codes "unido.ll")

  -- Without errors every file has its .ll file.
  all_compiled-map :
      (cs : List Text) (w : World)
      → all_errors (run_all system tmp_dir opt_level cs w).0 ≡ []
      → all_compiled system tmp_dir opt_level (run_all system tmp_dir opt_level cs w).0
        ≡ map (ll_path_of system tmp_dir) cs
  unfolding all_errors all_compiled run_all
  all_compiled-map [] w h = refl
  all_compiled-map (c ∷ cs) w h =
      let (w', result) = system.run w (command_of system tmp_dir opt_level c) in
      let none_of = append-nil-left (errors_of (c, result)) _ h in
      let rest = all_compiled-map cs w' (append-nil-right (errors_of (c, result)) _ h) in
      rw none_of (ap (λ l. ll_path_of system tmp_dir c ∷ l) rest)

  abbrev pub link_of : List Text → Text
  link_of cs = link_command (map (ll_path_of system tmp_dir) cs) unido

  generate_code-assembles :
      (content final_s : Text) (mode : DataMode) (s : Session World)
      → tool_errors llc_not_invoked llc_failed (system.run s.world (llc_command unido final_s)).1
        ≡ []
      → system.files.read_text (system.run s.world (llc_command unido final_s)).0 final_s
        ≡ ok content
      → s.relocs ≡ []
      → before_text sentinel content ≡ none
      → raises mode (readlines content) [] ≡ false
      → (generate_code system unido final_s mode s).0
        ≡ ok (outcome_of (assemble_lines (readlines content) mode []))
  unfolding generate_code compile_ll_to_s assemble_final assemble_source
  generate_code-assembles content final_s mode s none_of found k fresh quiet =
      let w = (system.run s.world (llc_command unido final_s)).0 in
      ap (λ es. (assemble_final system final_s mode (es, w) s).0) none_of
      ∙ (ap (λ r. (assemble_read system.files r final_s mode (at_world system s w)).0) found
          ∙ assemble_read-content system.files content final_s mode (at_world system s w) k fresh
              quiet)

  link_ll_files-answer :
      (p q : Text) (ps : List Text) (w : World)
      → tool_errors link_not_invoked link_failed (system.run w (link_command (p ∷ q ∷ ps) unido)).1
        ≡ []
      → link_ll_files system (p ∷ q ∷ ps) unido w
        ≡ ([], (system.run w (link_command (p ∷ q ∷ ps) unido)).0)
  unfolding link_ll_files
  link_ll_files-answer p q ps w none_of =
      ap (λ es. (es, (system.run w (link_command (p ∷ q ∷ ps) unido)).0)) none_of

  -- Two or more C files, without a copy of the .ll file, in a process that keeps no relocation: when
  -- there is a temporary folder, clang takes each of them, the linker their .ll files and llc what it
  -- makes, the outcome is the assembly of the text that llc leaves beside the first C file, if that
  -- can be read, does not contain the sentinel of the listings, and has no string that raises a
  -- ValueError.
  pub compile_and_assemble-assembles :
      (c d : Text) (cs : List Text) (content : Text) (mode : DataMode) (s : Session World)
      (w : World)
      → system.mkdtemp s.world ≡ (w, ok tmp_dir)
      → all_errors (run_all system tmp_dir opt_level (c ∷ d ∷ cs) w).0 ≡ []
      → let compiled : World = (run_all system tmp_dir opt_level (c ∷ d ∷ cs) w).1 in
        let linked : World = (system.run compiled (link_of (c ∷ d ∷ cs))).0 in
        let final_s : Text = beside system linked c (codes "_combined.s") in
        tool_errors link_not_invoked link_failed (system.run compiled (link_of (c ∷ d ∷ cs))).1 ≡ []
        → tool_errors llc_not_invoked llc_failed (system.run linked (llc_command unido final_s)).1
          ≡ []
        → system.files.read_text (system.run linked (llc_command unido final_s)).0 final_s
          ≡ ok content
        → s.relocs ≡ []
        → before_text sentinel content ≡ none
        → raises mode (readlines content) [] ≡ false
        → (compile_and_assemble system (c ∷ d ∷ cs) opt_level false mode s).0
          ≡ ok (outcome_of (assemble_lines (readlines content) mode []))
  unfolding compile_and_assemble build_in_folder build_in build_compiled build_linked keep_ll
      code_or_raise
  compile_and_assemble-assembles c d cs content mode s w made compiled linked_well coded found k
        fresh quiet =
      let files = c ∷ d ∷ cs in
      let ran = run_all system tmp_dir opt_level files w in
      let lls = all_compiled system tmp_dir opt_level ran.0 in
      let s' = at_world system s w in
      let linked = (system.run ran.1 (link_of files)).0 in
      let final_s = beside system linked c (codes "_combined.s") in
      ap (λ r. (build_in_folder system r.1 files opt_level false mode (at_world system s r.0)).0)
        made
      ∙ (ap (λ r. (build_compiled system files unido false mode r s').0)
            (compile_all-run_all system tmp_dir opt_level files w)
          ∙ (ap (λ es. (build_compiled system files unido false mode (es, lls, ran.1) s').0)
                compiled
              ∙ (ap
                    (λ ls.
                      (build_linked system files unido false mode
                        (link_ll_files system ls unido ran.1) s').0)
                    (all_compiled-map files w compiled)
                  ∙ (ap (λ r. (build_linked system files unido false mode r s').0)
                        (link_ll_files-answer (ll_path_of system tmp_dir c)
                          (ll_path_of system tmp_dir d) (map (ll_path_of system tmp_dir) cs) ran.1
                          linked_well)
                      ∙ generate_code-assembles content final_s mode (at_world system s linked)
                          coded found k fresh quiet))))
