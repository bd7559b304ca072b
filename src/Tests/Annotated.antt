-- ===== src/Tests/Annotated.antt =====
-- The theorems on the annotated listing and on the listing of `.start` at a program.
use procesador_32_bits.Base.{◌≡◌, refl, [], All, map}
use procesador_32_bits.Text.{codes}
use procesador_32_bits.Text.Format.{format_number, format_upper}
use procesador_32_bits.FirstPass.{rom}
use procesador_32_bits.FirstPass.StartListing.{start_listing}
use procesador_32_bits.Listing.{readlines, write_start_listing}
use procesador_32_bits.Listing.Comments.{IsComment, start_listing-IsComment}
use procesador_32_bits.Listing.Unstripped.{assemble_lines-unstripped}
use procesador_32_bits.SecondPass.{Instruction, assemble_lines}
use procesador_32_bits.SecondPass.Image.{assemble_lines_image}
use procesador_32_bits.Annotated.{word_line, write_annotated_hex}
use procesador_32_bits.Annotated.Reader.{read_listing, row_of, read_listing-write_annotated_hex}
use procesador_32_bits.Tests.{program, labels}
use procesador_32_bits.Tests.Source.{source, source_fresh}

read_listing-write_annotated_hex_example :
    read_listing (write_annotated_hex (assemble_lines program rom []).instructions labels)
    ≡ map row_of (assemble_lines program rom []).instructions
read_listing-write_annotated_hex_example =
    read_listing-write_annotated_hex (assemble_lines program rom []).instructions labels
      ((assemble_lines_image program rom []).1)

-- A word of the listing
abbrev jump : Instruction
jump = record { src_line = 12; address = 3; word = 0x0E0F0000 }

jump_line :
    word_line jump ≡ codes "00003 00000C  0E0F0000  00001110 00001111 00000000 00000000  (L12)\n"
unfolding word_line format_upper format_number
jump_line = refl

start_listing-IsComment_example : All IsComment (start_listing program rom [])
start_listing-IsComment_example = start_listing-IsComment program rom []

assemble_lines-unstripped_example :
    assemble_lines
      (readlines (write_start_listing source (start_listing (readlines source) rom [])))
      rom
      []
    ≡ assemble_lines (readlines source) rom []
assemble_lines-unstripped_example = assemble_lines-unstripped source rom [] source_fresh
