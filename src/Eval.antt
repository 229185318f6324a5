-- ===== src/Eval.antt =====
-- The grading of answers, p36_eval.c; here the lines of a code that an answer names. `strtol` is a
-- parameter, with the bytes behind the number; its numbers are those of a `long`, where it keeps to
-- them.
pub mod Lines
pub mod Matches
pub mod Ranges
pub mod Answer
pub mod Integer
pub mod Find
pub mod Letter
pub mod Strict
mod Decimal
mod Tests
use preon_star.Base.{
  Bool, Bytes, [], false, if◌then◌else◌, leb, length, not, suc, true, zero, ℕ, ◌&&◌, ◌-◌, ◌==◌,
  ◌||◌, ◌∷◌,
}

-- `long`
pub data ℤ : Type 0 where
  pos : ℕ → ℤ
  negsuc : ℕ → ℤ

abbrev pub leℤ : ℤ → ℤ → Bool
leℤ (pos a) (pos b) = leb a b
leℤ (pos a) (negsuc b) = false
leℤ (negsuc a) (pos b) = true
leℤ (negsuc a) (negsuc b) = leb b a

-- the array `set`, and `any`
pub record LineSet : Type 0 where
  pub any : Bool
  pub has : ℕ → Bool

abbrev pub empty : LineSet
empty = record { any = false; has = λ i. false }

-- `sizeof(expected)`
abbrev pub set_len : ℕ
set_len = 256

-- the loop that sets the lines from `low` on
abbrev pub set_from : ℕ → ℤ → LineSet → LineSet
set_from low (negsuc b) s = s
set_from low (pos b) s =
    let high = if leb set_len b then set_len - 1 else b in
    record { any = s.any || leb low high; has = λ i. s.has i || (leb low i && leb i high) }

abbrev pub from_zero : ℤ → ℕ
from_zero (pos a) = a
from_zero (negsuc a) = 0

-- the lines from `a` to `b`, or from `b` to `a`
unfoldable pub set_lines : ℤ → ℤ → LineSet → LineSet
set_lines a b s = if leℤ a b then set_from (from_zero a) b s else set_from (from_zero b) a s

abbrev pub is_digit : ℕ → Bool
is_digit c = leb b'0' c && leb c b'9'

unfoldable pub skip_to_digit : Bytes → Bytes
skip_to_digit [] = []
skip_to_digit (c ∷ s) = let rest = skip_to_digit s in if is_digit c then c ∷ s else rest

-- the loop of `compsec_answer_matches`, at line `i`
unfoldable pub inside_from : ℕ → ℕ → Bool → LineSet → LineSet → Bool
inside_from zero i hit expected got = hit
inside_from (suc f) i hit expected got =
    let rest = inside_from f (suc i) (got.has i || hit) expected got in
    if not (got.has i) then rest else if not (expected.has i) then false else rest

module _ (strtol : Bytes → ℤ × Bytes) where
  -- the second number of a range, or the first again
  abbrev pub range_end : ℤ × Bytes → ℤ × Bytes
  range_end (a, []) = (a, [])
  range_end (a, c ∷ s) = if c == b'-' then strtol s else (a, c ∷ s)

  -- the loop of `parse_line_spec`; each round takes a digit at least
  unfoldable pub lines_from : ℕ → LineSet → Bytes → LineSet
  unfolding set_lines
  lines_from zero set s = set
  lines_from (suc f) set [] = set
  lines_from (suc f) set (c ∷ s) =
      let (a, rest) = strtol (c ∷ s) in
      let (b, behind) = range_end (a, rest) in
      lines_from f (set_lines a b set) (skip_to_digit behind)

  -- `parse_line_spec`
  unfoldable pub parse_line_spec : Bytes → LineSet
  unfolding lines_from skip_to_digit
  parse_line_spec spec = lines_from (length spec) empty (skip_to_digit spec)

  -- `compsec_answer_matches`
  unfoldable pub compsec_answer_matches : Bytes → Bytes → Bool
  unfolding inside_from parse_line_spec
  compsec_answer_matches expected_spec got_spec =
      let expected = parse_line_spec expected_spec in
      let got = parse_line_spec got_spec in
      if not expected.any
      then false
      else if not got.any
      then false
      else inside_from set_len 0 false expected got
