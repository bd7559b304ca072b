-- ===== src/Lib.antt =====
-- A verification library for the assembler of the ISA32_LM processor, Ensamblador/assembler.py.
--
-- The program. `assemble_lines` runs two passes over the lines of a .s file. `first_pass` recognises the
-- section and data directives by regular expressions, defines labels, encodes the instructions that
-- name no symbol, and leaves a list of pending entries of one word each; in rom mode it keeps .data in
-- a blob, puts the blob behind the program and appends the routine `.start`, which copies it to RAM and
-- jumps to `main`. `second_pass` encodes what waited for the label map and numbers the words.
-- `assemble_source` does this to a file, and writes a listing of `.start` back to its end;
-- `compile_and_assemble` makes such a file of C files with clang, llvm-link and llc. `main` and the window
-- build one or the other, and write the words as a ROM file for Logisim and as an annotated listing.
--
-- The files:
-- - Base, Text, Errors, Dict: lists, bits, integers, results; Python's str methods and int on texts of
--   code points; AssemblerError; a dict with text keys in insertion order. Text/Regex has the matchers
--   that stand for the regular expressions, with backtracking by continuations, Text/Format the numbers
--   of f-strings, Text/Split the words of a line.
-- - Isa: OPCODES, MEM_TYPES, CONDITIONS, build_word; Isa/Fields: the fields of a word.
-- - Operands: parse_register, parse_special_register, parse_immediate, normalize_label;
--   Operands/Bounds: what they accept.
-- - Address: compute_hi_lo; Address/HiLo: the register that the two halves load.
-- - Lexer: tokenize_line and _decode_c_string; Lexer/Strings: a printer of C strings.
-- - Expression: eval_label_expr and _resolve_imm_or_pseudo; Expression/Bounds: the 16-bit field.
-- - Encode: encode_single, one function per format; Encode/Decode: the instruction formats as a
--   specification; Encode/Prefixes, Encode/Formats and Encode/Words: that the code meets it.
-- - FirstPass: the variables of first_pass as a record, flush_pending_bytes; FirstPass/Directive: the
--   regular expressions of the directives and their order; FirstPass/Data: one function for each
--   directive; FirstPass/Lines: labels, instructions and the loop over the lines; FirstPass/Start:
--   the addresses of .bss, the blob and `.start`, with its children on what stands where behind the
--   program (Placed), on its parts (Entry, Copy, Jump) and on the labels (Addresses);
--   FirstPass/StartListing: the lines of comments that describe `.start` in the source;
--   FirstPass/Relocs: the relocations behind a call;
--   FirstPass/Layout: the invariant of the image; FirstPass/Growth: what a line adds, and
--   where a label points to (Labels); FirstPass/Bytes: the words of the bytes that wait.
-- - Machine: the registers and the memory of the processor, and a step of the instructions that `.start`
--   uses, after Docs/ISA_REFERENCE.md. It is a specification.
-- - SecondPass: second_pass and assemble_lines; SecondPass/Image: the addresses and sizes of the words;
--   SecondPass/Resolved: the values of the words; SecondPass/Reports: the errors;
--   SecondPass/Boot: `.start` executed.
-- - Rom: write_rom_logisim, the bytes and the lines of the file;
--   Rom/Reader: a reader of such files, the specification; Rom/Rows, Rom/Image and Rom/Reset: what it
--   finds; Rom/PowerOn: the program in the file, started; Rom/Loop: the loop over the rows.
-- - Annotated: write_annotated_hex, the pieces of text of the file; Annotated/Octets: its binary column;
--   Annotated/Reader: a reader of the listing, the specification.
-- - Listing: _strip_start_listing_from_lines and _write_start_listing_to_s on the text of the file;
--   Listing/Search and Listing/First: occurrences of a text; Listing/Lines and Listing/Sentinel: the
--   lines of a file; Listing/Block and Listing/Reassemble: the block over several runs;
--   Listing/Comments: the lines of the listing; Listing/Unstripped: the block left in the source.
-- - Merge: _rename_local_labels_in_lines and merge_asm_files, from the lines of the files to the pieces
--   of the merged one; Merge/Renamed: what the renaming does to directives; Merge/Concatenated: what is
--   left of merging.
-- - Driver: assemble_source on files that are a parameter; Driver/Runs and Driver/Stable: the source
--   and the file over several runs; Driver/System: the operating system, a parameter; Driver/Compile
--   and Driver/Build: compile_c_to_ll, link_ll_files, compile_ll_to_s, compile_c_to_s and
--   compile_and_assemble; Driver/Commands and Driver/Built: the driver when clang refuses a file, and
--   when every tool succeeds.
-- - CommandLine: the options of main; CommandLine/Steps and CommandLine/Scan: a scanner of them, the
--   specification; CommandLine/Paths, CommandLine/Kinds and CommandLine/Main: the paths, the build and the files
--   written; CommandLine/Exit: how a run ends; CommandLine/Written: the ROM file of a source.
-- - Window: the fields of AssemblerGUI, its dialogues and its button; Window/Agrees: the window beside
--   the command line.
-- - Tests: the theorems at concrete inputs, and runs.
--
-- Conventions. An AssemblerError is an `err` with a constructor for each raise; the wording of the
-- messages is not modelled, but whether a text carries its line is (the field `prefix`). Python integers
-- are ℕ where they cannot be negative and ℤ where they can; masks are remainders by powers of two. Texts
-- are lists of code points with the ASCII classes of letters, digits and white space; of Python's limits,
-- that of 4300 digits in int is left out. The ValueError of a character above 255 in a string is the
-- field `raised` of the state of the first pass, behind which no line is read. The functions are structural recursions but for two: the rows of the ROM file take as fuel the number of
-- rows up to that of the last byte, which Rom/Loop shows to be enough, and the digits of n in
-- any base take n + 1, which Text/Format shows to be enough. The attribute
-- `first_pass.rom_data_relocs` is the argument `relocs`: what an earlier call left there. The text of a
-- file is what Python reads, with its line ends already made newlines.
--
-- The operating system (files, processes, folders, os.path) is a record of functions on a world, which the
-- driver and the command line take as a parameter; an exception that nothing catches is a value.
--
-- Not modelled: what is printed or logged, and the widgets of the window.
pub mod Base
pub mod Text
pub mod Errors
pub mod Dict
pub mod Isa
pub mod Operands
pub mod Address
pub mod Lexer
pub mod Expression
pub mod Encode
pub mod FirstPass
pub mod Machine
pub mod SecondPass
pub mod Rom
pub mod Annotated
pub mod Listing
pub mod Merge
pub mod Driver
pub mod CommandLine
pub mod Window
pub mod Tests
