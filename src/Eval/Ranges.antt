-- ===== src/Eval/Ranges.antt =====
-- The lines of a specification that is written as its format says.
use preon_star.Base.{
  Bool, Bytes, List, [], false, leb, true, ℕ, ◌&&◌, ◌++◌, ◌<◌, ◌==◌, ◌^◌, ◌||◌, ◌∷◌, ◌≡◌,
}
use preon_star.Eval.{LineSet, is_digit, lines_from, pos, range_end, set_lines, skip_to_digit, ℤ}

-- one line, or the lines between two
pub data Spec : Type 0 where
  line : ℕ → Spec
  range : ℕ → ℕ → Spec

abbrev pub names : Spec → ℕ → Bool
names (line n) i = n == i
names (range a b) i = (leb a i && leb i b) || (leb b i && leb i a)

abbrev pub is_named : List Spec → ℕ → Bool
is_named [] i = false
is_named (x ∷ xs) i = names x i || is_named xs i

abbrev pub NotDigit : Bytes → Type 0
NotDigit [] = Unit
NotDigit (c ∷ s) = is_digit c ≡ false

-- the numbers of a specification are positive values of a `long`
abbrev pub IsLong : Spec → Type 0
IsLong (line n) = n < 2 ^ 63
IsLong (range a b) = (a < 2 ^ 63) × (b < 2 ^ 63)

-- `strtol` reads what `show` writes for a number below 2^63, up to a byte that is no digit; what
-- `show` writes begins with a digit
pub record ReadsLongs (strtol : Bytes → ℤ × Bytes) (show : ℕ → Bytes) : Type 0 where
  pub reads : (n : ℕ) (r : Bytes) → n < 2 ^ 63 → NotDigit r → strtol (show n ++ r) ≡ (pos n, r)
  pub starts : (n : ℕ) → (c : ℕ) × (t : Bytes) × (show n ≡ c ∷ t) × (is_digit c ≡ true)

abbrev pub show_specs : (ℕ → Bytes) → List Spec → Bytes
show_specs show [] = []
show_specs show (line n ∷ xs) = show n ++ b',' ∷ show_specs show xs
show_specs show (range a b ∷ xs) = show a ++ b'-' ∷ (show b ++ b',' ∷ show_specs show xs)

module _ (strtol : Bytes → ℤ × Bytes) (show : ℕ → Bytes) (laws : ReadsLongs strtol show) where
  abbrev round : ℕ → LineSet → ℤ × Bytes → LineSet
  round f set r =
      let (b, behind) = range_end strtol r in
      lines_from strtol f (set_lines r.0 b set) (skip_to_digit behind)
