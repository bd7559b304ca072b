-- ===== src/CommandLine.antt =====
-- The command line of Ensamblador/assembler.py: the options that `main` takes out of the arguments.
pub mod Steps
pub mod Scan
pub mod Paths
pub mod Kinds
pub mod Main
pub mod Exit
pub mod Written
use procesador_32_bits.Base.{
  Bool, true, false, not, ◌||◌, List, [], ◌∷◌, ◌++◌, Option, none, some, ◌==◌, if◌then◌else◌,
}
use procesador_32_bits.Text.{Text, codes, text_eq, starts_with, lower, upper}
use procesador_32_bits.FirstPass.Lines.{is_one_of}

abbrev pub cons_left : Text → Option (List Text) → Option (List Text)
cons_left a none = none
cons_left a (some more) = some (a ∷ more)

-- args.remove(a); `none` stands for the ValueError.
unfoldable pub remove : Text → List Text → Option (List Text)
unfolding text_eq
remove a [] = none
remove a (b ∷ bs) = let rest = remove a bs in if text_eq b a then some bs else cons_left b rest

-- The value behind a flag, if it has one, and the arguments without both.
abbrev pub popped : List Text → Option Text × List Text
popped [] = (none, [])
popped (v ∷ vs) = (some v, vs)

abbrev pub cons_popped : Text → Option (Option Text × List Text) → Option (Option Text × List Text)
cons_popped a none = none
cons_popped a (some (v, more)) = some (v, a ∷ more)

-- idx = args.index(a), args.pop(idx + 1) where there is one, args.pop(idx)
unfoldable pub pop_flag : Text → List Text → Option (Option Text × List Text)
unfolding text_eq
pop_flag a [] = none
pop_flag a (b ∷ bs) =
    let rest = pop_flag a bs in if text_eq b a then some (popped bs) else cons_popped b rest

-- a.lower().startswith('--data-mode=') and a.lower() == '--data-mode'
unfoldable pub sets_mode : Text → Bool
unfolding starts_with lower
sets_mode a = starts_with (codes "--data-mode=") (lower a)

unfoldable pub is_mode_flag : Text → Bool
unfolding text_eq lower
is_mode_flag a = text_eq (lower a) (codes "--data-mode")

-- a.split('=', 1)[1]
unfoldable pub after_equals : Text → Text
after_equals [] = []
after_equals (c ∷ s) = let rest = after_equals s in if c == b'=' then s else rest

abbrev pub mode_or : Option Text → Text → Text
mode_or none mode = mode
mode_or (some v) mode = lower v

abbrev pub with_mode : Text → Option (List Text) → Option (Text × List Text)
with_mode mode none = none
with_mode mode (some args) = some (mode, args)

abbrev pub with_popped : Text → Option (Option Text × List Text) → Option (Text × List Text)
with_popped mode none = none
with_popped mode (some (v, args)) = some (mode_or v mode, args)

-- One argument of the first loop; the state is `data_mode` and what is left of `args`.
unfoldable pub mode_step : Text → Text × List Text → Option (Text × List Text)
unfolding remove pop_flag sets_mode is_mode_flag after_equals lower
mode_step a (mode, args) =
    if sets_mode a
    then with_mode (lower (after_equals a)) (remove a args)
    else if is_mode_flag a
    then with_popped mode (pop_flag a args)
    else some (mode, args)

unfoldable pub mode_loop : List Text → Option (Text × List Text) → Option (Text × List Text)
unfolding mode_step
mode_loop more none = none
mode_loop [] (some state) = some state
mode_loop (a ∷ more) (some state) = mode_loop more (mode_step a state)

-- The loop runs over a copy of `args`.
unfoldable pub parse_mode : List Text → Option (Text × List Text)
unfolding mode_loop
parse_mode args = mode_loop args (some (codes "rom", args))

-- [a for a in args if a != flag]
unfoldable pub without : Text → List Text → List Text
unfolding text_eq
without flag [] = []
without flag (a ∷ more) = let rest = without flag more in if text_eq a flag then rest else a ∷ rest

abbrev pub levels : List Text
levels = codes "-o0" ∷ codes "-o1" ∷ codes "-o2" ∷ codes "-o3" ∷ []

unfoldable pub is_level : Text → Bool
unfolding is_one_of lower
is_level a = is_one_of (lower a) levels

unfoldable pub level_step : Text → Text × List Text → Option (Text × List Text)
unfolding remove is_level upper
level_step a (level, args) =
    if is_level a then with_mode (upper a) (remove a args) else some (level, args)

unfoldable pub level_loop : List Text → Option (Text × List Text) → Option (Text × List Text)
unfolding level_step
level_loop more none = none
level_loop [] (some state) = some state
level_loop (a ∷ more) (some state) = level_loop more (level_step a state)

pub record Options : Type 0 where
  pub data_mode : Text
  pub generate_listing : Bool
  pub generate_ll : Bool
  pub opt_level : Text
  pub paths : List Text

abbrev pub with_level : Text → Bool → Bool → Option (Text × List Text) → Option Options
with_level mode listing ll none = none
with_level mode listing ll (some (level, args)) = some (record {
  data_mode = mode;
  generate_listing = listing;
  generate_ll = ll;
  opt_level = level;
  paths = args;
})

abbrev pub no_list : Text
no_list = codes "--no-list"

abbrev pub ll_flag : Text
ll_flag = codes "--ll"

-- The flags --no-list and --ll, and the level of optimisation
unfoldable pub parse_flags : Option (Text × List Text) → Option Options
unfolding is_one_of without level_loop
parse_flags none = none
parse_flags (some (mode, args)) =
    let args' = without ll_flag (without no_list args) in
    with_level mode (not (is_one_of no_list args)) (is_one_of ll_flag (without no_list args))
      (level_loop args' (some (codes "-O0", args')))

unfoldable pub parse_options : List Text → Option Options
unfolding parse_mode parse_flags
parse_options args = parse_flags (parse_mode args)
