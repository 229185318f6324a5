-- ===== src/CliArgs/Tests.antt =====
-- Runs of the expansion, and its theorems at a concrete command line.
use preon_star.Base.{Bytes, List, [], bytes_eq, codes, false, refl, some, true, ◌↔◌, ◌∷◌, ◌≡◌}
use preon_star.CliArgs.{
  argv, exits, expand_arg, expand_args, expand_long_equals, invalid_option, long_equals,
  missing_value, reject_options, split_equals, takes_no_value, token_is_option, unknown_option,
}
use preon_star.CliArgs.Expand.{Spells, expand_long_equals_iff}

abbrev line : List Bytes
line = codes "--ctx=4=2" ∷ codes "-n" ∷ codes "--x" ∷ []

abbrev spelt : List Bytes
spelt = codes "--ctx" ∷ codes "4=2" ∷ codes "-n" ∷ codes "--x" ∷ []

expand-line : expand_long_equals (codes "p36=" ∷ line) ≡ argv (codes "p36=" ∷ spelt)
unfolding expand_long_equals expand_args expand_arg long_equals split_equals bytes_eq
expand-line = refl

expand-errors :
    (expand_args (codes "--=a" ∷ []) ≡ exits (invalid_option (codes "--=a")))
    × (expand_args (codes "--a=" ∷ []) ≡ exits (missing_value (codes "--a")))
    × (expand_args (codes "--help=a" ∷ []) ≡ exits (takes_no_value (codes "--help")))
unfolding expand_args expand_arg long_equals split_equals bytes_eq
expand-errors = (refl, refl, refl)

options :
    (token_is_option (codes "-1") ≡ false)
    × (token_is_option (codes "-") ≡ false)
    × (token_is_option (codes "-a") ≡ true)
    × (reject_options line ≡ some (unknown_option (codes "--ctx=4=2")))
unfolding token_is_option reject_options
options = (refl, refl, refl, refl)

expand_long_equals_iff_example :
    (expand_long_equals (codes "p36=" ∷ line) ≡ argv (codes "p36=" ∷ spelt))
    ↔ ((rest : List Bytes) × (codes "p36=" ∷ spelt ≡ codes "p36=" ∷ rest) × Spells line rest)
expand_long_equals_iff_example = expand_long_equals_iff (codes "p36=") line (codes "p36=" ∷ spelt)
