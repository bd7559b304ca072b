-- ===== src/Tests/CommandLine.antt =====
-- The theorems on the command line and the window, on a machine whose files are a dict.
use procesador_32_bits.FirstPass.Lines.{raises, do_lines}
use procesador_32_bits.Base.{
  ◌≡◌, ◌≢◌, refl, ap, ◌∙◌, Bool-cases, inl, inr, true, false, List, [], ◌∷◌, Option, none, some,
  is_some,
}
use procesador_32_bits.Text.{Text, codes, before, text_eq}
use procesador_32_bits.Text.Equality.{text_eq_iff}
use procesador_32_bits.Dict.{Dict, get, set, get-set}
use procesador_32_bits.Rom.{write_rom_logisim}
use procesador_32_bits.Listing.{readlines}
use procesador_32_bits.SecondPass.{Assembly, assemble_lines}
use procesador_32_bits.CommandLine.{Options, parse_options, parse_mode}
use procesador_32_bits.CommandLine.Scan.{scan, values_plain, parse_mode-scan}
use procesador_32_bits.CommandLine.Paths.{is_source, is_c_file}
use procesador_32_bits.CommandLine.Main.{main, mode_of, file_text}
use procesador_32_bits.CommandLine.Exit.{MainEnds, main-Ends}
use procesador_32_bits.CommandLine.Written.{Outputs, Wrote, main-Wrote}
use procesador_32_bits.Window.{run_sources, options_of, new_form}
use procesador_32_bits.CommandLine.Main.{build_paths}
use procesador_32_bits.Window.Agrees.{as_shown, run_sources-build_paths}
use procesador_32_bits.Tests.Boot.{assembled}
use procesador_32_bits.Tests.Rom.{or_nothing, some-or_nothing}
use procesador_32_bits.Tests.Driver.{
  or_missing, read-set, data_source, data_source_fresh, session, working,
}

-- Options in three forms
abbrev arguments : List Text
arguments =
    codes "--data-mode"
    ∷ codes "RAM"
    ∷ codes "a.s"
    ∷ codes "--Data-Mode=ROM"
    ∷ codes "--ll"
    ∷ codes "rom"
    ∷ []

arguments_plain : values_plain false arguments ≡ true
unfolding values_plain
arguments_plain = refl

parse_mode-scan_example : parse_mode arguments ≡ some (scan false (codes "rom") arguments)
parse_mode-scan_example = parse_mode-scan arguments arguments_plain

arguments_scanned :
    scan false (codes "rom") arguments
    ≡ (codes "rom", codes "a.s" ∷ codes "--ll" ∷ codes "rom" ∷ [])
unfolding scan
arguments_scanned = refl

-- The value of a flag that is an option itself: args.remove raises a ValueError.
flag_behind_flag :
    parse_mode (codes "--data-mode" ∷ codes "--data-mode=ram" ∷ codes "a.s" ∷ []) ≡ none
unfolding parse_mode
flag_behind_flag = refl

main-Ends_example :
    MainEnds working
      (parse_options (codes "a.s" ∷ codes "rom" ∷ []))
      session
      (main working (codes "a.s" ∷ codes "rom" ∷ []) session)
main-Ends_example = main-Ends working (codes "a.s") (codes "rom" ∷ []) session

run_sources-build_paths_example :
    run_sources working (options_of new_form) (codes "rom") (codes "a.s" ∷ []) session
    ≡ as_shown working
        (build_paths working (options_of new_form) (codes "rom", codes "a.s" ∷ []) session)
run_sources-build_paths_example =
    run_sources-build_paths working (options_of new_form) (codes "rom") (codes "a.s" ∷ []) session

other_text : (a b : Text) → a ≢ b → text_eq a b ≡ false
other_text a b h = elim (Bool-cases (text_eq a b)) [
  | inl same ↦ absurd (h ((text_eq_iff a b).0 same))
  | inr other ↦ other
]

get-other :
    (w : Dict Text) (k j t : Text) → k ≢ j → or_missing (get (set w k t) j) ≡ or_missing (get w j)
get-other w k j t h = ap or_missing (get-set w k j t) ∙ rw (other_text k j h) refl

outputs : Outputs working (codes "rom") (codes "a.s")
unfolding before
outputs = record {
  written = λ w t. refl;
  read_back = λ w t. read-set w (codes "rom") t;
  listed = λ w t. refl;
  kept = λ w t. get-other w _ (codes "rom") t (λ h. absurd (cc h));
  made = λ w. refl;
}

abbrev plain_arguments : List Text
plain_arguments = codes "--no-list" ∷ codes "a.s" ∷ codes "-o2" ∷ codes "rom" ∷ []

abbrev plain_options : Options
plain_options = record {
  data_mode = codes "rom";
  generate_listing = false;
  generate_ll = false;
  opt_level = codes "-O2";
  paths = codes "a.s" ∷ codes "rom" ∷ [];
}

plain_parsed : parse_options plain_arguments ≡ some plain_options
unfolding parse_options
plain_parsed = refl

abbrev data_image : Assembly
data_image = assemble_lines (readlines data_source) (mode_of plain_options.data_mode) []

abbrev data_file : Option (List Text)
data_file =
    write_rom_logisim data_image.instructions (some data_image.label_map)
      (mode_of plain_options.data_mode) data_image.text_start_word

data_file_made : is_some data_file ≡ true
unfolding assembled write_rom_logisim readlines mode_of
data_file_made = refl

data_errors : data_image.errors ≡ []
unfolding assembled readlines mode_of
data_errors = refl

data_quiet : raises (mode_of plain_options.data_mode) (readlines data_source) [] ≡ false
unfolding do_lines readlines mode_of
data_quiet = refl

main-Wrote_example :
    Wrote working
      (codes "rom")
      (file_text (or_nothing data_file))
      (main working plain_arguments session)
unfolding get text_eq is_source is_c_file before
main-Wrote_example =
    main-Wrote working (codes "--no-list") (codes "a.s" ∷ codes "-o2" ∷ codes "rom" ∷ [])
      plain_options (codes "a.s") (codes "rom") data_source session (or_nothing data_file) outputs
      plain_parsed refl refl refl refl refl refl refl refl data_source_fresh data_quiet
      (rw data_errors refl) (some-or_nothing data_file data_file_made)
