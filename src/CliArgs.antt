-- ===== src/CliArgs.antt =====
-- p36_cli_args.h: options on the command line. `argv` is a list of texts without NULL; what the
-- functions print before they return 2 or exit is a value. `calloc` and `malloc` succeed.
pub mod Expand
mod Tests
use preon_star.Base.{
  Bool, Bytes, List, Option, [], bytes_eq, codes, false, if◌then◌else◌, leb, none, not, some, ◌&&◌,
  ◌++◌, ◌==◌, ◌||◌, ◌∷◌,
}

pub data Diagnosis : Type 0 where
  unknown_option unexpected_argument : Bytes → Diagnosis
  invalid_option missing_value takes_no_value : Bytes → Diagnosis

-- `p36_cli_token_is_option`: a dash, and neither the end nor a digit nor a dot behind it
unfoldable pub token_is_option : Bytes → Bool
token_is_option (a ∷ b ∷ s) = a == b'-' && not (leb b'0' b && leb b b'9' || b == b'.')
token_is_option _ = false

-- the loop of `p36_cli_reject_option_arguments`, from `argv[1]`; `none` is the result 0
unfoldable pub reject_options : List Bytes → Option Diagnosis
reject_options [] = none
reject_options (a ∷ args) =
    let rest = reject_options args in if token_is_option a then some (unknown_option a) else rest

-- `p36_cli_require_no_arguments`, from `argv[1]`
unfoldable pub require_no_arguments : List Bytes → Option Diagnosis
require_no_arguments [] = none
require_no_arguments (a ∷ args) =
    some (if token_is_option a then unknown_option a else unexpected_argument a)

-- The text before the first `=` and the text behind it, as `strchr` finds it.
unfoldable pub split_equals : Bytes → Option (Bytes × Bytes)
split_equals [] = none
split_equals (c ∷ s) =
    let rest = split_equals s in
    if c == b'='
    then some ([], s)
    else elim rest [ none ↦ none | some (name, value) ↦ some (c ∷ name, value) ]

-- `--name=value`, in the two parts behind the dashes
unfoldable pub long_equals : Bytes → Option (Bytes × Bytes)
long_equals (a ∷ b ∷ s) = if a == b'-' && b == b'-' then split_equals s else none
long_equals _ = none

abbrev pub dashed : Bytes → Bytes
dashed name = b'-' ∷ b'-' ∷ name

-- the options that take no value
abbrev pub is_flag : Bytes → Bool
is_flag option = bytes_eq option (codes "--help") || bytes_eq option (codes "--list")

pub data Expanded : Type 0 where
  argv : List Bytes → Expanded
  exits : Diagnosis → Expanded

-- the new arguments for one old one, whose parts are given
abbrev pub expand_parts : Bytes → Option (Bytes × Bytes) → Expanded
expand_parts arg none = argv (arg ∷ [])
expand_parts arg (some (name, value)) =
    if bytes_eq name []
    then exits (invalid_option arg)
    else if bytes_eq value []
    then exits (missing_value (dashed name))
    else if is_flag (dashed name)
    then exits (takes_no_value (dashed name))
    else argv (dashed name ∷ value ∷ [])

unfoldable pub expand_arg : Bytes → Expanded
expand_arg arg = expand_parts arg (long_equals arg)

abbrev pub append_args : Expanded → Expanded → Expanded
append_args (argv a) (argv b) = argv (a ++ b)
append_args (argv a) (exits d) = exits d
append_args (exits d) r = exits d

-- the loop from `i = 1`
unfoldable pub expand_args : List Bytes → Expanded
expand_args [] = argv []
expand_args (a ∷ args) = append_args (expand_arg a) (expand_args args)

-- `p36_cli_expand_long_equals`; `argv[0]` is kept as it is
unfoldable pub expand_long_equals : List Bytes → Expanded
expand_long_equals [] = argv []
expand_long_equals (program ∷ args) = append_args (argv (program ∷ [])) (expand_args args)
