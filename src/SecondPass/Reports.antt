-- ===== src/SecondPass/Reports.antt =====
-- The errors of the second pass.
use procesador_32_bits.Base.{
  ℕ, ◌≡◌, refl, sym, ap, ◌∙◌, List, [], ◌∷◌, ◌++◌, append_assoc, append-nil, none, some,
}
use procesador_32_bits.Base.Int.{ℤ}
use procesador_32_bits.Base.Result.{ok, err}
use procesador_32_bits.Dict.{Dict}
use procesador_32_bits.Errors.{Parsed}
use procesador_32_bits.Expression.{eval_label_expr}
use procesador_32_bits.Encode.{encode_single}
use procesador_32_bits.FirstPass.{
  PendingInstruction, words, pending_tokens, raw_word, Report, report_of,
}
use procesador_32_bits.SecondPass.{
  Output, put_word, put_words, put_parsed, raw_address, resolve, resolve_all, second_pass,
}

-- The report of an error, if there is one.
abbrev reports_of : {A : Type 0} → Parsed A → List Report
reports_of (ok a) = []
reports_of (err e) = report_of e ∷ []

-- What is wrong with an entry: its expression has no value, or its tokens no encoding, under the labels.
abbrev pub reports : Dict ℕ → PendingInstruction → List Report
reports d (words ws line) = []
reports d (pending_tokens tokens line) = reports_of (encode_single tokens line (some d))
reports d (raw_word val none line) = []
reports d (raw_word val (some expr) line) = reports_of (eval_label_expr expr d)

abbrev pub all_reports : Dict ℕ → List PendingInstruction → List Report
all_reports d [] = []
all_reports d (i ∷ is) = reports d i ++ all_reports d is

put_words-errors : (ws : List ℕ) (line : ℕ) (o : Output) → (put_words ws line o).errors ≡ o.errors
unfolding put_words put_word
put_words-errors [] line o = refl
put_words-errors (w ∷ ws) line o = put_words-errors ws line (put_word line w o)

put_parsed-errors :
    (r : Parsed ℕ) (line : ℕ) (o : Output) → (put_parsed r line o).errors ≡ o.errors ++ reports_of r
unfolding put_parsed put_word
put_parsed-errors (ok w) line o = sym (append-nil o.errors)
put_parsed-errors (err e) line o = refl

-- The line number comes too late for the text of the error.
raw_address-reports : (r : Parsed ℤ) (line : ℕ) → reports_of (raw_address r line) ≡ reports_of r
unfolding raw_address
raw_address-reports (ok a) line = refl
raw_address-reports (err e) line = refl

resolve-errors :
    (d : Dict ℕ) (i : PendingInstruction) (o : Output)
    → (resolve d i o).errors ≡ o.errors ++ reports d i
unfolding resolve put_word
resolve-errors d (words ws line) o = put_words-errors ws line o ∙ sym (append-nil o.errors)
resolve-errors d (pending_tokens tokens line) o =
    put_parsed-errors (encode_single tokens line (some d)) line o
resolve-errors d (raw_word val none line) o = sym (append-nil o.errors)
resolve-errors d (raw_word val (some expr) line) o =
    put_parsed-errors (raw_address (eval_label_expr expr d) line) line o
    ∙ ap (λ l. o.errors ++ l) (raw_address-reports (eval_label_expr expr d) line)

resolve_all-errors :
    (d : Dict ℕ) (is : List PendingInstruction) (o : Output)
    → (resolve_all d is o).errors ≡ o.errors ++ all_reports d is
unfolding resolve_all
resolve_all-errors d [] o = sym (append-nil o.errors)
resolve_all-errors d (i ∷ is) o =
    resolve_all-errors d is (resolve d i o)
    ∙ (ap (λ l. l ++ all_reports d is) (resolve-errors d i o)
        ∙ append_assoc o.errors (reports d i) (all_reports d is))

-- The errors of the second pass are those of its entries, all of them and in order: one for each expression
-- without a value and each instruction without an encoding under the labels, with the line that the
-- error showed where it was raised.
pub second_pass-errors :
    (d : Dict ℕ) (pending : List PendingInstruction)
    → (second_pass d pending).errors ≡ all_reports d pending
unfolding second_pass
second_pass-errors d pending =
    resolve_all-errors d pending (record { result = []; errors = []; address = 0 })
