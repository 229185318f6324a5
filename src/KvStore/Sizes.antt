-- ===== src/KvStore/Sizes.antt =====
-- The size of a checkpoint file, and whether it fits the budget.
use preon_star.Base.{
  Bool, Option, false, if◌then◌else◌, leb, ltb, none, some, true, ℕ, ◌%◌, ◌+◌, ◌-◌, ◌/◌, ◌==◌, ◌^◌,
  ◌||◌,
}

abbrev pub uint64_max : ℕ
uint64_max = 2 ^ 64 - 1

-- the header and the word of the text's length
abbrev pub fixed : ℕ
fixed = 48 + 4

-- `kv_cache_file_size_bytes`; each difference is taken only where it does not wrap
unfoldable pub file_size_bytes : ℕ → ℕ → ℕ → Option ℕ
file_size_bytes text payload trailer =
    if ltb (uint64_max - fixed) text
      || ltb (uint64_max - fixed - text) payload
      || ltb (uint64_max - fixed - text - payload) trailer
    then none
    else some ((fixed + text + payload + trailer) % 2 ^ 64)

-- `kv_cache_budget_required`
unfoldable pub budget_required : ℕ → Option ℕ
budget_required file =
    let slack = file / 100 + (if file % 100 == 0 then 0 else 1) in
    if ltb (uint64_max - file) slack then none else some ((file + slack) % 2 ^ 64)

-- the result of `p36_kvstore_file_size_fits`, and what it writes
pub record Fit : Type 0 where
  pub fits : Bool
  pub file_bytes : ℕ
  pub required_bytes : ℕ

abbrev pub no_fit : ℕ → ℕ → Fit
no_fit file required = record { fits = false; file_bytes = file; required_bytes = required }

-- the budget's part, for a file whose size is known
unfoldable pub budget_fit : ℕ → ℕ → Fit
unfolding budget_required
budget_fit budget file =
    if budget == 0
    then record { fits = true; file_bytes = file; required_bytes = 0 }
    else elim (budget_required file) [
      | none ↦ no_fit file 0
      | some required ↦ record {
        fits = leb required budget;
        file_bytes = file;
        required_bytes = required;
      }
    ]

-- `p36_kvstore_file_size_fits`; what is not written stays 0
unfoldable pub file_size_fits : ℕ → ℕ → ℕ → ℕ → Fit
unfolding file_size_bytes
file_size_fits budget text payload trailer = elim (file_size_bytes text payload trailer) [
  | none ↦ no_fit 0 0
  | some file ↦ budget_fit budget file
]
