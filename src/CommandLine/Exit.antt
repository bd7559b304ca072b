-- ===== src/CommandLine/Exit.antt =====
-- How a run of `main` ends, as a relation, and that it ends in no other way.
use procesador_32_bits.Base.{
  ◌+◌, ◌≤◌, Bool, Bool-cases, true, false, ◌||◌, ◌≡◌, ◌≢◌, refl, ap, sym, ◌∙◌, inl, inr, List, [],
  ◌∷◌, ◌++◌, Option, none, some, if◌then◌else◌, length, arith,
}
use mathlib.Core.Path.{subst}
use procesador_32_bits.Base.Result.{ok, err}
use procesador_32_bits.Text.{Text}
use procesador_32_bits.Driver.{
  Ended, Raised, value_error, Failure, Outcome, Session, assemble_source,
}
use procesador_32_bits.Driver.System.{System}
use procesador_32_bits.Driver.Build.{at_world, compile_and_assemble}
use procesador_32_bits.CommandLine.{Options, parse_options}
use procesador_32_bits.CommandLine.Kinds.{
  all_c, files-length, c_files-all, asm_files-all, asm_files-all_c, asm_files-not_all_c,
  c_files-not_c,
}
use procesador_32_bits.CommandLine.Paths.{
  is_source, is_c_file, rom_output_path, last_of, init_of, c_files_of, asm_files_of, expand,
  are_files,
}
use procesador_32_bits.CommandLine.Main.{
  Ending, exited, raised, mode_of, write_outputs, ending_of, report, assemble_reported, build,
  build_paths, build_options, with_options, main, is_empty,
}

init-last : (a : Text) (more : List Text) → init_of a more ++ last_of a more ∷ [] ≡ a ∷ more
init-last a [] = refl
init-last a (b ∷ more) = ap (λ l. a ∷ l) (init-last b more)

module _ {World : Type 0} (system : System World) where
  -- The ROM file and the sources that the paths of some options ask for.
  pub data Asks (options : Options) (w : World) : Text → List Text → Type 0 where
    -- The last path is the ROM file if it is neither a source nor a folder.
    names :
        (paths : List Text) (rom_path : Text)
        → options.paths ≡ paths ++ rom_path ∷ []
        → (is_source rom_path || system.is_dir w rom_path) ≡ false
        → Asks options w rom_path (expand system w paths)
    -- Otherwise all paths are sources, and the ROM file has its fixed place.
    defaults :
        (paths : List Text) (last : Text)
        → options.paths ≡ paths ++ last ∷ []
        → (is_source last || system.is_dir w last) ≡ true
        → Asks options w rom_output_path (expand system w options.paths)

  -- The sources of which nothing is built.
  pub data Refused (w : World) : List Text → Type 0 where
    no_source : Refused w []
    missing : (sources : List Text) → are_files system w sources ≡ false → Refused w sources
    mixed : (sources : List Text) → 2 ≤ length sources → all_c sources ≡ false → Refused w sources

  -- What is built of some sources: one assembly file, or C files, all of which are there. The first of
  -- them names the listing.
  pub data Builds (options : Options) (s : Session World)
      : List Text → Text → Ended World → Type 0 where
    assembles :
        (a : Text)
        → is_c_file a ≡ false
        → system.is_file s.world a ≡ true
        → Builds options s (a ∷ []) a (assemble_source system.files a (mode_of options.data_mode) s)
    compiles :
        (c : Text) (cs : List Text)
        → all_c (c ∷ cs) ≡ true
        → are_files system s.world (c ∷ cs) ≡ true
        → Builds options s (c ∷ cs) c (
            compile_and_assemble system
              (c ∷ cs)
              options.opt_level
              options.generate_ll
              (mode_of options.data_mode)
              s)

  -- How the program ends and what it leaves, for some options, a ROM file and sources.
  pub data EndsAt (options : Options) (rom_path : Text) (sources : List Text) (s : Session World)
      : Ending × Session World → Type 0 where
    -- the sources are refused, before anything is done
    refuses : Refused s.world sources → EndsAt options rom_path sources s (exited 1, s)
    -- the errors of the build; neither the ROM nor the listing is written
    fails :
        (source : Text) (o : Outcome) (t : Session World)
        → Builds options s sources source (ok o, t)
        → o.errors ≢ []
        → EndsAt options rom_path sources s (exited 1, t)
    -- an exception of the build
    breaks :
        (source : Text) (e : Raised) (t : Session World)
        → Builds options s sources source (err e, t)
        → EndsAt options rom_path sources s (raised e, t)
    -- without errors, all the files are written
    writes :
        (source : Text) (o : Outcome) (t : Session World) (w : World)
        → Builds options s sources source (ok o, t)
        → o.errors ≡ []
        → write_outputs system options rom_path source o t.world ≡ (none, w)
        → EndsAt options rom_path sources s (exited 0, at_world system t w)
    -- an exception in writing
    stops :
        (source : Text) (o : Outcome) (t : Session World) (e : Raised) (w : World)
        → Builds options s sources source (ok o, t)
        → o.errors ≡ []
        → write_outputs system options rom_path source o t.world ≡ (some e, w)
        → EndsAt options rom_path sources s (raised e, at_world system t w)

  -- Without a path nothing is done; otherwise the paths ask for a ROM file and sources.
  pub data Ends (options : Options) (s : Session World) : Ending × Session World → Type 0 where
    no_paths : options.paths ≡ [] → Ends options s (exited 1, s)
    asks :
        (rom_path : Text) (sources : List Text) (r : Ending × Session World)
        → Asks options s.world rom_path sources
        → EndsAt options rom_path sources s r
        → Ends options s r

  module _ (options : Options) (rom_path : Text) (sources : List Text) (s : Session World) where
    write-EndsAt :
        (source : Text) (o : Outcome) (t : Session World)
        → Builds options s sources source (ok o, t)
        → o.errors ≡ []
        → (r : Option Raised × World) → write_outputs system options rom_path source o t.world ≡ r
        → EndsAt options rom_path sources s (ending_of system t r)
    write-EndsAt source o t b h (none, w) e = writes source o t w b h e
    write-EndsAt source o t b h (some x, w) e = stops source o t x w b h e

    errors-EndsAt :
        (source : Text) (o : Outcome) (t : Session World)
        → Builds options s sources source (ok o, t)
        → (es : List Failure) → o.errors ≡ es
        → EndsAt options rom_path sources s (
            if is_empty es
            then ending_of system t (write_outputs system options rom_path source o t.world)
            else (exited 1, t))
    errors-EndsAt source o t b [] h =
        write-EndsAt source o t b h (write_outputs system options rom_path source o t.world) refl
    errors-EndsAt source o t b (e ∷ es) h = fails source o t b (λ k. absurd (cc (h, k)))

    report-EndsAt :
        (source : Text) (r : Ended World)
        → Builds options s sources source r
        → EndsAt options rom_path sources s (report system options rom_path source r)
    unfolding report
    report-EndsAt source (err e, t) b = breaks source e t b
    report-EndsAt source (ok o, t) b = errors-EndsAt source o t b o.errors refl

    if-EndsAt :
        (c : Bool) (r : Ending × Session World)
        → (c ≡ true → EndsAt options rom_path sources s r)
        → (c ≡ false → Refused s.world sources)
        → EndsAt options rom_path sources s (if c then r else (exited 1, s))
    if-EndsAt true r h k = h refl
    if-EndsAt false r h k = refuses (k refl)

  module _ (options : Options) (rom_path : Text) (s : Session World) where
    compiles-EndsAt :
        (c : Text) (cs : List Text)
        → all_c (c ∷ cs) ≡ true
        → EndsAt options rom_path (c ∷ cs) s (build system options rom_path (c ∷ cs) [] s)
    unfolding build
    compiles-EndsAt c cs h =
        if-EndsAt options rom_path (c ∷ cs) s (are_files system s.world (c ∷ cs)) _
          (λ there. report-EndsAt options rom_path (c ∷ cs) s c _ (compiles c cs h there))
          (missing (c ∷ cs))

    assembles-EndsAt :
        (a : Text)
        → is_c_file a ≡ false
        → EndsAt options rom_path (a ∷ []) s (build system options rom_path [] (a ∷ []) s)
    unfolding build assemble_reported are_files
    assembles-EndsAt a h =
        if-EndsAt options rom_path (a ∷ []) s (system.is_file s.world a) _
          (λ there. report-EndsAt options rom_path (a ∷ []) s a _ (assembles a h there))
          λ gone. missing (a ∷ []) (rw gone refl)

    -- The same list of sources, in two parts
    build-EndsAt :
        (fs cs others : List Text)
        → c_files_of fs ≡ cs
        → asm_files_of fs ≡ others
        → EndsAt options rom_path fs s (build system options rom_path cs others s)
    unfolding build
    build-EndsAt fs (c ∷ cs) [] h k =
        let e : fs ≡ c ∷ cs = sym (c_files-all fs k) ∙ h in
        subst (λ l. EndsAt options rom_path l s (build system options rom_path (c ∷ cs) [] s))
          (sym e) (compiles-EndsAt c cs (ap all_c (sym e) ∙ asm_files-all_c fs k))
    build-EndsAt fs [] (a ∷ []) h k =
        let e : fs ≡ a ∷ [] = sym (asm_files-all fs h) ∙ k in
        subst (λ l. EndsAt options rom_path l s (build system options rom_path [] (a ∷ []) s))
          (sym e) (assembles-EndsAt a (c_files-not_c a (ap c_files_of (sym e) ∙ h)))
    build-EndsAt fs [] [] h k =
        refuses (subst (Refused s.world) (sym (sym (c_files-all fs k) ∙ h)) no_source)
    build-EndsAt fs [] (a ∷ b ∷ l) h k =
        let two =
          files-length fs
          ∙ (ap (λ x. length x + length (asm_files_of fs)) h
              ∙ ap (λ y. length {A = Text} [] + length y) k) in
        refuses (mixed fs (ground (arith, two)) (asm_files-not_all_c fs a (b ∷ l) k))
    build-EndsAt fs (c ∷ cs) (a ∷ l) h k =
        let two =
          files-length fs
          ∙ (ap (λ x. length x + length (asm_files_of fs)) h
              ∙ ap (λ y. length (c ∷ cs) + length y) k) in
        refuses (mixed fs (ground (arith, two)) (asm_files-not_all_c fs a l k))

    build_paths-EndsAt :
        (paths : List Text)
        → EndsAt options rom_path
            (expand system s.world paths)
            s
            (build_paths system options (rom_path, paths) s)
    unfolding build_paths expand
    build_paths-EndsAt [] = refuses no_source
    build_paths-EndsAt (a ∷ more) =
        let fs = expand system s.world (a ∷ more) in
        build-EndsAt fs (c_files_of fs) (asm_files_of fs) refl refl

  paths-Ends :
      (options : Options) (paths : List Text) (s : Session World)
      → options.paths ≡ paths
      → Ends options s (build_options system options paths s)
  unfolding build_options
  paths-Ends options [] s h = no_paths h
  paths-Ends options (a ∷ more) s h =
      let last = last_of a more in
      let e = h ∙ sym (init-last a more) in
      elim (Bool-cases (is_source last || system.is_dir s.world last)) [
        | inl source ↦ rw source (
            asks rom_output_path (expand system s.world options.paths) _
              (defaults (init_of a more) last e source)
              (subst
                (λ l.
                  EndsAt options rom_output_path (expand system s.world l) s
                    (build_paths system options (rom_output_path, a ∷ more) s))
                (sym h) (build_paths-EndsAt options rom_output_path s (a ∷ more))))
        | inr output ↦ rw output (
            asks last (expand system s.world (init_of a more)) _
              (names (init_of a more) last e output)
              (build_paths-EndsAt options last s (init_of a more)))
      ]

  -- The end of a run with arguments: an exception of the arguments, or one of the ends for the options
  -- that they give.
  abbrev pub MainEnds : Option Options → Session World → Ending × Session World → Type 0
  MainEnds none s r = r ≡ (raised value_error, s)
  MainEnds (some options) s r = Ends options s r

  options-Ends : (o : Option Options) (s : Session World) → MainEnds o s (with_options system o s)
  unfolding with_options
  options-Ends none s = refl
  options-Ends (some options) s = paths-Ends options options.paths s refl

  -- Whatever the arguments, the files and the tools: the last path names the ROM file if it is neither a
  -- source nor a folder, and otherwise the ROM file has its fixed place and all paths are sources. The
  -- run is refused with 1 and changes nothing for one of these reasons: there is no path, no source, a
  -- source that is not there, or more than one source of which not all are C files. Otherwise it builds
  -- the one assembly file or the C files with the options given, and behind the build it ends with the
  -- exception of the build; with 1, writing neither ROM nor listing, if there are errors; with 0 if there
  -- are none and the outputs for that ROM file are written; or with the exception of the writing.
  -- Arguments that cannot be parsed end the run with a ValueError.
  pub main-Ends :
      (a : Text) (more : List Text) (s : Session World)
      → MainEnds (parse_options (a ∷ more)) s (main system (a ∷ more) s)
  unfolding main
  main-Ends a more s = options-Ends (parse_options (a ∷ more)) s
