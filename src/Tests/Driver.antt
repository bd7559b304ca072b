-- ===== src/Tests/Driver.antt =====
-- The theorems on the driver, on a machine whose files are a dict.
use procesador_32_bits.FirstPass.Lines.{raises, do_lines}
use procesador_32_bits.Base.{
  ℕ, ◌≡◌, ◌≢◌, refl, ap, ◌∙◌, true, false, List, [], ◌∷◌, ◌++◌, Option, none, some,
}
use procesador_32_bits.Base.Int.{pos}
use procesador_32_bits.Base.Result.{Result, ok, err}
use procesador_32_bits.Text.{Text, codes, before, text_eq}
use procesador_32_bits.Text.Equality.{text_eq_refl}
use procesador_32_bits.Dict.{Dict, get, set, get-set}
use procesador_32_bits.FirstPass.{rom}
use procesador_32_bits.FirstPass.Start.{first_pass}
use procesador_32_bits.FirstPass.Relocs.{first_pass-relocs}
use procesador_32_bits.Listing.{readlines, sentinel, before_text}
use procesador_32_bits.SecondPass.{assemble_lines}
use procesador_32_bits.Driver.{Files, outcome_of, failed, Session, assemble_source}
use procesador_32_bits.Driver.Runs.{Lawful, runs, assemble_source-runs}
use procesador_32_bits.Driver.Stable.{runs-stable}
use procesador_32_bits.Driver.System.{Completed, System}
use procesador_32_bits.Driver.Compile.{tool_errors}
use procesador_32_bits.Driver.Build.{at_world, compile_and_assemble}
use procesador_32_bits.Driver.Commands.{Answer, all_errors, run_all, compile_and_assemble-errors}
use procesador_32_bits.Driver.Built.{compile_and_assemble-assembles}
use procesador_32_bits.Tests.{program_quiet, program}
use procesador_32_bits.Tests.Source.{source_quiet, source, source_fresh}

abbrev pub or_missing : Option Text → Result Text Text
or_missing none = err (codes "no such file")
or_missing (some t) = ok t

abbrev pub files : Files (Dict Text)
files = record {
  read_text = λ w path. or_missing (get w path);
  write_text = λ w path t. (set w path t, true);
}

pub read-set : (w : Dict Text) (path t : Text) → or_missing (get (set w path t) path) ≡ ok t
read-set w path t = ap or_missing (get-set w path path t) ∙ rw (text_eq_refl path) refl

lawful : Lawful files
lawful = record { written = λ w path t h. read-set w path t }

abbrev pub path : Text
path = codes "a.s"

-- Code and a word of .data, for which a run writes a listing
abbrev pub data_source : Text
data_source = codes "\t.text\nmain:\n NOP\n\t.data\n\t.long 5"

pub data_source_fresh : before_text sentinel data_source ≡ none
unfolding before_text
data_source_fresh = refl

abbrev pub session : Session (Dict Text)
session = record { world = (path, data_source) ∷ []; relocs = [] }

pub data_source_quiet : raises rom (readlines data_source) [] ≡ false
unfolding do_lines readlines
data_source_quiet = refl

-- The session behind some runs at the source.
abbrev behind_runs : ℕ → Session (Dict Text)
behind_runs n =
    runs files lawful path (λ w t. refl) data_source data_source_fresh data_source_quiet n session

assemble_source-runs_example :
    (assemble_source files path rom (behind_runs 3)).0
    ≡ ok (outcome_of (assemble_lines (readlines data_source) rom []))
unfolding get text_eq
assemble_source-runs_example =
    assemble_source-runs files lawful path (λ w t. refl) data_source data_source_fresh
      data_source_quiet 3 session refl refl

runs-stable_example :
    files.read_text (behind_runs 5).world path ≡ files.read_text (behind_runs 2).world path
unfolding get text_eq
runs-stable_example =
    runs-stable files lawful path (λ w t. refl) data_source data_source_fresh data_source_quiet 3
      session refl refl

first_pass-relocs_example : (first_pass program rom []).rom_data_relocs ≡ []
first_pass-relocs_example = first_pass-relocs program program_quiet

-- A machine on which every command answers the same and leaves a file.
abbrev pub machine : Completed → System (Dict Text)
machine answer = record {
  files = files;
  run = λ w command. (set w (codes "a_combined.s") source, ok answer);
  copyfile = λ w from to. (w, none);
  mkdtemp = λ w. (w, ok (codes "tmp"));
  rmtree = λ w folder. w;
  makedirs = λ w folder. (w, none);
  is_file = λ w path. true;
  is_dir = λ w path. false;
  glob = λ w pattern. [];
  walk = λ w folder. [];
  abspath = λ w path. path;
  basename = λ path. path;
  dirname = λ path. [];
  root = λ path. before b'.' path;
  join = λ folder name. folder ++ name;
}

-- clang refuses both files, with a line on stderr.
abbrev refusing : System (Dict Text)
refusing = machine (record { returncode = pos 1; stdout = []; stderr = codes "bad" })

abbrev c_paths : List Text
c_paths = codes "a.c" ∷ codes "b.c" ∷ []

-- What the compiler answers, and the files behind it.
abbrev refused : List Answer × Dict Text
refused = run_all refusing (codes "tmp") (codes "-O0") c_paths session.world

some_errors : all_errors refused.0 ≢ []
unfolding all_errors run_all tool_errors
some_errors h = cc h

compile_and_assemble-errors_example :
    compile_and_assemble refusing c_paths (codes "-O0") false rom session ≡ (
      ok (failed (all_errors refused.0)),
      at_world refusing session (refusing.rmtree refused.1 (codes "tmp")),
    )
compile_and_assemble-errors_example =
    compile_and_assemble-errors refusing (codes "tmp") (codes "-O0") c_paths false rom session
      session.world refl some_errors

-- Every tool succeeds.
abbrev pub working : System (Dict Text)
working = machine (record { returncode = pos 0; stdout = []; stderr = [] })

compile_and_assemble-assembles_example :
    (compile_and_assemble working c_paths (codes "-O0") false rom session).0
    ≡ ok (outcome_of (assemble_lines (readlines source) rom []))
unfolding all_errors run_all tool_errors before
compile_and_assemble-assembles_example =
    compile_and_assemble-assembles working (codes "tmp") (codes "-O0") (codes "a.c") (codes "b.c")
      [] source rom session session.world refl refl refl refl
      (read-set _ (codes "a_combined.s") source) refl source_fresh source_quiet
