-- ===== src/CommandLine/Scan.antt =====
-- A scanner of the arguments from the left, and that the loops of `main` agree with it.
use procesador_32_bits.Base.{
  Bool, Bool-cases, inl, inr, true, false, not, ◌&&◌, ◌≡◌, refl, sym, ap, ◌∙◌, List, [], ◌∷◌, ◌++◌,
  append_assoc, Option, some, All-append, arith, if◌then◌else◌,
}
use mathlib.Core.Path.{subst}
use procesador_32_bits.Text.{Text, codes, lower}
use procesador_32_bits.CommandLine.{sets_mode, is_mode_flag, after_equals, mode_loop, parse_mode}
use procesador_32_bits.CommandLine.Steps.{
  is_option, is_flag, AllPlain, mode_step-plain, mode_step-sets, mode_step-flag,
}

abbrev pub keep_unless : Bool → Text → Text × List Text → Text × List Text
keep_unless true a scanned = scanned
keep_unless false a (mode, rest) = (mode, a ∷ rest)

-- From the left; `waiting` tells that the argument before was a flag.
unfoldable pub scan : Bool → Text → List Text → Text × List Text
unfolding sets_mode is_mode_flag after_equals lower
scan waiting mode [] = (mode, [])
scan true mode (a ∷ more) = scan false (lower a) more
scan false mode (a ∷ more) =
    keep_unless (is_option a) a
      (scan (is_flag a) (if sets_mode a then lower (after_equals a) else mode) more)

-- No value of a flag is an option itself.
unfoldable pub values_plain : Bool → List Text → Bool
unfolding sets_mode is_mode_flag
values_plain waiting [] = true
values_plain true (a ∷ more) = not (is_option a) && values_plain false more
values_plain false (a ∷ more) = values_plain (is_flag a) more

-- What the loop leaves: the arguments that it has passed, and what the scanner keeps of the rest.
abbrev behind : List Text → Text × List Text → Option (Text × List Text)
behind k (mode, rest) = some (mode, k ++ rest)

abbrev Scanned : List Text → Text → List Text → Type 0
Scanned more mode k = mode_loop more (some (mode, k ++ more)) ≡ behind k (scan false mode more)

snoc-Plain : (k : List Text) (a : Text) → AllPlain k → is_option a ≡ false → AllPlain (k ++ a ∷ [])
snoc-Plain k a plain h = All-append (λ b. is_option b ≡ false) k (a ∷ []) plain (h, tt)

scan-plain :
    (a : Text) (more : List Text) (mode : Text)
    → is_option a ≡ false
    → scan false mode (a ∷ more) ≡ keep_unless false a (scan false mode more)
unfolding scan
scan-plain a more mode h =
    let unset : sets_mode a ≡ false = ground (arith, h) in
    let unflagged : is_mode_flag a ≡ false = ground (arith, h) in rw (unset, unflagged) refl

behind-kept :
    (k : List Text) (a : Text) (r : Text × List Text)
    → behind (k ++ a ∷ []) r ≡ behind k (keep_unless false a r)
behind-kept k a (mode, rest) = ap (λ l. some (mode, l)) (append_assoc k (a ∷ []) rest)

plain-Scanned :
    (a : Text) (more : List Text) (mode : Text) (k : List Text)
    → is_option a ≡ false
    → Scanned more mode (k ++ a ∷ [])
    → Scanned (a ∷ more) mode k
unfolding mode_loop
plain-Scanned a more mode k h rest =
    ap (mode_loop more) (mode_step-plain a (mode, k ++ a ∷ more) h)
    ∙ (ap (λ l. mode_loop more (some (mode, l))) (sym (append_assoc k (a ∷ []) more))
        ∙ (rest
            ∙ (behind-kept k a (scan false mode more)
                ∙ ap (behind k) (sym (scan-plain a more mode h)))))

sets-Scanned :
    (a : Text) (more : List Text) (mode : Text) (k : List Text)
    → sets_mode a ≡ true
    → AllPlain k
    → Scanned more (lower (after_equals a)) k
    → Scanned (a ∷ more) mode k
unfolding mode_loop scan
sets-Scanned a more mode k h plain rest =
    ap (mode_loop more) (mode_step-sets a mode k more h plain) ∙ (rest ∙ rw h refl)

-- A flag, its value, and what stands behind them
flag-Scanned :
    (a v : Text) (more : List Text) (mode : Text) (k : List Text)
    → is_flag a ≡ true
    → is_option v ≡ false
    → AllPlain k
    → Scanned more (lower v) k
    → Scanned (a ∷ v ∷ more) mode k
unfolding mode_loop scan
flag-Scanned a v more mode k h plain_value plain rest =
    let unset : sets_mode a ≡ false = ground (arith, h) in
    let flag : is_mode_flag a ≡ true = ground (arith, h) in
    ap (mode_loop (v ∷ more)) (mode_step-flag a mode k (v ∷ more) h plain)
    ∙ (ap (mode_loop more) (mode_step-plain v (lower v, k ++ more) plain_value)
        ∙ (rest ∙ rw (unset, flag) refl))

last-Scanned :
    (a mode : Text) (k : List Text) → is_flag a ≡ true → AllPlain k → Scanned (a ∷ []) mode k
unfolding mode_loop scan
last-Scanned a mode k h plain =
    let unset : sets_mode a ≡ false = ground (arith, h) in
    let flag : is_mode_flag a ≡ true = ground (arith, h) in
    ap (mode_loop []) (mode_step-flag a mode k [] h plain) ∙ rw (unset, flag) refl

-- What an argument can be.
data Kind (a : Text) : Type 0 where
  plain_argument : is_option a ≡ false → Kind a
  mode_setting : sets_mode a ≡ true → Kind a
  mode_flag : is_flag a ≡ true → Kind a

kind : (a : Text) → Kind a
kind a = elim (Bool-cases (sets_mode a)) [
  | inl set ↦ mode_setting set
  | inr unset ↦ elim (Bool-cases (is_mode_flag a)) [
    | inl flag ↦ mode_flag (ground (arith, unset, flag))
    | inr other ↦ plain_argument (ground (arith, unset, other))
  ]
]

values-plain :
    (a : Text) (more : List Text)
    → is_option a ≡ false
    → values_plain false (a ∷ more) ≡ true
    → values_plain false more ≡ true
unfolding values_plain
values-plain a more h values =
    let unflagged : is_flag a ≡ false = ground (arith, h) in rw unflagged at values

values-sets :
    (a : Text) (more : List Text)
    → sets_mode a ≡ true
    → values_plain false (a ∷ more) ≡ true
    → values_plain false more ≡ true
unfolding values_plain
values-sets a more h values =
    let unflagged : is_flag a ≡ false = ground (arith, h) in rw unflagged at values

values-flag :
    (a v : Text) (more : List Text)
    → is_flag a ≡ true
    → values_plain false (a ∷ v ∷ more) ≡ true
    → (is_option v ≡ false) × (values_plain false more ≡ true)
unfolding values_plain
values-flag a v more h values =
    let both : not (is_option v) && values_plain false more ≡ true =
      subst (λ b. values_plain b (v ∷ more) ≡ true) h values in
    (ground (arith, both), ground (arith, both))

loop-Scanned :
    (more : List Text) (mode : Text) (k : List Text)
    → AllPlain k
    → values_plain false more ≡ true
    → Scanned more mode k
unfolding mode_loop scan
loop-Scanned [] mode k plain h = refl
loop-Scanned (a ∷ []) mode k plain h = elim (kind a) [
  | plain_argument e ↦ plain-Scanned a [] mode k e refl
  | mode_setting e ↦ sets-Scanned a [] mode k e plain refl
  | mode_flag e ↦ last-Scanned a mode k e plain
]
loop-Scanned (a ∷ v ∷ more) mode k plain h = elim (kind a) [
  | plain_argument e ↦ plain-Scanned a (v ∷ more) mode k e (
      loop-Scanned (v ∷ more) mode (k ++ a ∷ []) (snoc-Plain k a plain e)
        (values-plain a (v ∷ more) e h))
  | mode_setting e ↦
      sets-Scanned a (v ∷ more) mode k e plain
        (loop-Scanned (v ∷ more) (lower (after_equals a)) k plain (values-sets a (v ∷ more) e h))
  | mode_flag e ↦
      let (plain_value, values) = values-flag a v more e h in
      flag-Scanned a v more mode k e plain_value plain (loop-Scanned more (lower v) k plain values)
]

-- Where no value of a flag --data-mode is an option --data-mode itself, the loop that takes arguments
-- out of the list it is not running over does what a scan from the left does: the mode is that of the
-- last option, and every other argument is kept in its place.
pub parse_mode-scan :
    (args : List Text)
    → values_plain false args ≡ true
    → parse_mode args ≡ some (scan false (codes "rom") args)
unfolding parse_mode
parse_mode-scan args h = loop-Scanned args (codes "rom") [] tt h
