-- ===== src/Driver.antt =====
-- `assemble_source` of Ensamblador/assembler.py: the file is read, assembled, and written again with the
-- listing of `.start`. The file system is a parameter.
pub mod System
pub mod Compile
pub mod Build
pub mod Commands
pub mod Built
pub mod Runs
pub mod Stable
use procesador_32_bits.Base.{
  true, false, if◌then◌else◌, ℕ, zero, suc, Bool, List, [], ◌∷◌, Option, none, map,
}
use procesador_32_bits.Base.Result.{Result, ok, err}
use procesador_32_bits.Text.{Text}
use procesador_32_bits.Dict.{Dict}
use procesador_32_bits.FirstPass.{DataMode, State, Report}
use procesador_32_bits.FirstPass.Lines.{raises}
use procesador_32_bits.FirstPass.Start.{first_pass}
use procesador_32_bits.FirstPass.StartListing.{start_listing}
use procesador_32_bits.SecondPass.{Instruction, Assembly, assemble_lines}
use procesador_32_bits.Listing.{readlines, strip_start_listing_from_lines, write_start_listing}

-- Text files: reading one gives its text or that of the OSError; writing one gives the files behind it,
-- and whether it was done without an OSError.
pub record Files (World : Type 0) : Type 0 where
  pub read_text : World → Text → Result Text Text
  pub write_text : World → Text → Text → World × Bool

-- An exception that the program does not catch.
pub data Raised : Type 0 where
  os_error : Text → Raised
  -- that of a text file which cannot be written
  write_failed : Raised
  index_error value_error : Raised

-- An entry of `errors`. The Spanish wording is not modelled, but for the lines of a tool's output.
pub data Failure : Type 0 where
  reported : Report → Failure
  not_opened not_copied : Text → Failure
  clang_not_invoked link_not_invoked llc_not_invoked : Text → Failure
  clang_failed : Text → Failure
  link_failed llc_failed : Failure
  output_line : Text → Failure

-- (instructions, errors, label_map, text_start_word)
pub record Outcome : Type 0 where
  pub instructions : List Instruction
  pub errors : List Failure
  pub label_map : Dict ℕ
  pub text_start_word : Option ℕ

abbrev pub failed : List Failure → Outcome
failed errors = record {
  instructions = [];
  errors = errors;
  label_map = [];
  text_start_word = none;
}

abbrev pub outcome_of : Assembly → Outcome
outcome_of a = record {
  instructions = a.instructions;
  errors = map reported a.errors;
  label_map = a.label_map;
  text_start_word = a.text_start_word;
}

-- A process: the files, and the attribute `first_pass.rom_data_relocs`.
pub record Session (World : Type 0) : Type 0 where
  pub world : World
  pub relocs : List (ℕ × Text)

-- An outcome or an exception, and the session behind it.
abbrev pub Ended : Type 0 → Type 0
Ended World = Result Raised Outcome × Session World

module _ {World : Type 0} (files : Files World) where
  -- The file that was read, written again; an OSError is passed over.
  unfoldable pub rewrite : Result Text Text → Text → List Text → World → World
  unfolding write_start_listing
  rewrite (ok content) path listing w =
      (files.write_text w path (write_start_listing content listing)).0
  rewrite (err e) path listing w = w

  unfoldable pub write_start_listing_to_s : Text → List Text → World → World
  unfolding rewrite
  write_start_listing_to_s path listing w = rewrite (files.read_text w path) path listing w

  -- The file is rewritten if there is a listing.
  unfoldable pub keep_listing : Text → List Text → World → World
  unfolding write_start_listing_to_s
  keep_listing path [] w = w
  keep_listing path (l ∷ ls) w = write_start_listing_to_s path (l ∷ ls) w

  -- The lines assembled, or the ValueError of the first pass, which leaves its relocations behind.
  unfoldable pub assemble_unless : Bool → Text → DataMode → List Text → Session World → Ended World
  unfolding keep_listing assemble_lines start_listing first_pass
  assemble_unless true path mode lines s =
      (err value_error, record s { relocs = (first_pass lines mode s.relocs).rom_data_relocs })
  assemble_unless false path mode lines s = (
    ok (outcome_of (assemble_lines lines mode s.relocs)),
    record {
      world = keep_listing path (start_listing lines mode s.relocs) s.world;
      relocs = (first_pass lines mode s.relocs).rom_data_relocs;
    },
  )

  unfoldable pub assemble_kept : Text → DataMode → List Text → Session World → Ended World
  unfolding assemble_unless
  assemble_kept path mode lines s = assemble_unless (raises mode lines s.relocs) path mode lines s

  unfoldable pub assemble_read : Result Text Text → Text → DataMode → Session World → Ended World
  unfolding assemble_kept strip_start_listing_from_lines readlines
  assemble_read (ok content) path mode s =
      assemble_kept path mode (strip_start_listing_from_lines (readlines content)) s
  assemble_read (err e) path mode s = (ok (failed (not_opened e ∷ [])), s)

  unfoldable pub assemble_source : Text → DataMode → Session World → Ended World
  unfolding assemble_read
  assemble_source path mode s = assemble_read (files.read_text s.world path) path mode s
