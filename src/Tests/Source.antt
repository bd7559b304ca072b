-- ===== src/Tests/Source.antt =====
-- The theorems on the loop over the source, string literals and listings, at concrete texts.
use procesador_32_bits.Base.{false, [], ◌∷◌, ◌≡◌, refl, none, arith}
use procesador_32_bits.FirstPass.{rom, initial, State}
use procesador_32_bits.FirstPass.Lines.{raises, do_lines}
use procesador_32_bits.FirstPass.Growth.{Grows}
use procesador_32_bits.FirstPass.Growth.Source.{do_lines-Grows}
use procesador_32_bits.Lexer.{decode_c_string}
use procesador_32_bits.Lexer.Strings.{quote, decode_c_string-quote}
use procesador_32_bits.Listing.{
  sentinel, readlines, strip_start_listing_from_lines, before_text, write_start_listing,
}
use procesador_32_bits.Listing.Block.{write_start_listing-again}
use procesador_32_bits.Listing.Reassemble.{rewritten, rewritten-assemble_lines}
use procesador_32_bits.SecondPass.{assemble_lines}
use procesador_32_bits.Tests.{program}
use procesador_32_bits.Text.{Text, codes}

do_lines-Grows_example : Grows (initial []) (do_lines rom 1 program (initial []))
do_lines-Grows_example = do_lines-Grows rom 1 program (initial [])

-- A newline, a quote, a letter, a byte above 127, a backslash and a zero.
decode_c_string-quote_example :
    decode_c_string (quote (10 ∷ 34 ∷ 65 ∷ 200 ∷ 92 ∷ 0 ∷ [])) ≡ 10 ∷ 34 ∷ 65 ∷ 200 ∷ 92 ∷ 0 ∷ []
decode_c_string-quote_example =
    decode_c_string-quote (10 ∷ 34 ∷ 65 ∷ 200 ∷ 92 ∷ 0 ∷ [])
      (omega arith, (omega arith, (omega arith, (omega arith, (omega arith, (omega arith, tt))))))

-- A source without a listing, assembled twice.
abbrev pub source : Text
source = codes ".text\nmain:\n NOP\n JMP R1"

pub source_fresh : before_text sentinel source ≡ none
unfolding before_text
source_fresh = refl

pub source_quiet : raises rom (readlines source) [] ≡ false
unfolding do_lines readlines
source_quiet = refl

rewritten-assemble_lines_example :
    assemble_lines
      (strip_start_listing_from_lines
        (readlines (rewritten source ((codes "; a" ∷ []) ∷ (codes "; b" ∷ codes "; c" ∷ []) ∷ []))))
      rom
      []
    ≡ assemble_lines (readlines source) rom []
rewritten-assemble_lines_example =
    rewritten-assemble_lines source ((codes "; a" ∷ []) ∷ (codes "; b" ∷ codes "; c" ∷ []) ∷ []) rom
      [] source_fresh

write_start_listing-again_example :
    write_start_listing
      (write_start_listing (write_start_listing source (codes "; a" ∷ [])) (codes "; b" ∷ []))
      (codes "; c" ∷ [])
    ≡ write_start_listing (write_start_listing source (codes "; a" ∷ [])) (codes "; c" ∷ [])
write_start_listing-again_example =
    write_start_listing-again source (codes "; a" ∷ []) (codes "; b" ∷ []) (codes "; c" ∷ [])

-- Two lines of code, the block, and the lines that the next run keeps.
kept_lines :
    strip_start_listing_from_lines
      (readlines (write_start_listing (codes "a\nb") (codes "; x" ∷ [])))
    ≡ codes "a\n" ∷ codes "b\n" ∷ []
unfolding strip_start_listing_from_lines readlines write_start_listing
kept_lines = refl

-- Two bytes wait in .text, and three follow.
abbrev waiting : State
waiting = record (initial []) { pending_bytes = 1 ∷ 2 ∷ [] }
