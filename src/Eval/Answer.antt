-- ===== src/Eval/Answer.antt =====
-- The normal forms of answers, and when one is right. A buffer is as long as its size says, which is
-- not 0. `isspace`, `isalnum` and `tolower` are those of the C locale.
use preon_star.Base.{
  Bool, Bytes, List, Option, [], bytes_eq, codes, false, if◌then◌else◌, leb, length, ltb, none, not,
  some, starts_with, suc, take, true, zero, ℕ, ◌&&◌, ◌++◌, ◌+◌, ◌-◌, ◌==◌, ◌||◌, ◌∷◌,
}
use preon_star.Eval.{compsec_answer_matches, is_digit, ℤ}
use preon_star.Web.Encode.{is_alnum}

-- `normalize_integer_answer`: all leading zeros go but a last digit
unfoldable pub drop_zeros : Bytes → Bytes
drop_zeros [] = []
drop_zeros (c ∷ []) = c ∷ []
drop_zeros (c ∷ d ∷ s) = let rest = drop_zeros (d ∷ s) in if c == b'0' then rest else c ∷ d ∷ s

unfoldable pub normalize_integer_answer : ℕ → Bytes → Bytes
unfolding drop_zeros
normalize_integer_answer size s = take (size - 1) (drop_zeros s)

abbrev pub is_space : ℕ → Bool
is_space c = leb 9 c && leb c 13 || c == b' '

abbrev pub to_lower : ℕ → ℕ
to_lower c = if leb b'A' c && leb c b'Z' then c + 32 else c

-- the end without what is trimmed
unfoldable pub trim_end : (ℕ → Bool) → Bytes → Bytes
trim_end trimmed [] = []
trim_end trimmed (c ∷ s) =
    let rest = trim_end trimmed s in
    if length rest == 0 then (if trimmed c then [] else c ∷ []) else c ∷ rest

-- how many bytes behind a backslash go with it
abbrev pub command_length : Bytes → ℕ
command_length s =
    if starts_with (codes "boxed") s
    then 5
    else if starts_with (codes "left") s
    then 4
    else if starts_with (codes "right") s
    then 5
    else 0

abbrev pub is_markup : ℕ → Bool
is_markup c = is_space c || c == b'$' || c == b'*' || c == b'{' || c == b'}'

-- the loop of `normalize_exact_answer`; the next `skip` bytes are no part of the answer
unfoldable pub exact_from : ℕ → Bytes → Bytes
unfolding starts_with
exact_from skip [] = []
exact_from (suc skip) (c ∷ s) = exact_from skip s
exact_from zero (c ∷ s) =
    let dropped = is_markup c || c == b'\\' in
    let rest =
      exact_from (if is_markup c then 0 else if c == b'\\' then command_length s else 0) s in
    if dropped then rest else to_lower c ∷ rest

-- `normalize_exact_answer`
unfoldable pub normalize_exact_answer : ℕ → Bytes → Bytes
unfolding exact_from trim_end
normalize_exact_answer size s =
    trim_end (λ c. c == b'.' || c == b';') (take (size - 1) (exact_from 0 s))

abbrev pub is_kept : ℕ → Bool
is_kept c = is_alnum c || c == b',' || c == b'-' || c == b'+' || c == b'/' || c == b'.'

-- the loop of `normalize_ordered_answer`
unfoldable pub ordered_from : Bool → Bytes → Bytes
ordered_from in_tag [] = []
ordered_from in_tag (c ∷ s) =
    let rest = ordered_from (if c == b'<' then true else if c == b'>' then false else in_tag) s in
    if c == b'<' || in_tag || not (is_kept c) then rest else to_lower c ∷ rest

-- `normalize_ordered_answer`
unfoldable pub normalize_ordered_answer : ℕ → Bytes → Bytes
unfolding ordered_from trim_end
normalize_ordered_answer size s =
    trim_end (λ c. c == b'.' || c == b',') (take (size - 1) (ordered_from false s))

-- `strchr`, behind the byte; and `strchr` with what stands in front of the byte
unfoldable pub behind_byte : ℕ → Bytes → Option Bytes
behind_byte b [] = none
behind_byte b (c ∷ s) = let rest = behind_byte b s in if c == b then some s else rest

abbrev pub in_front : ℕ → Option (Bytes × Bytes) → Option (Bytes × Bytes)
in_front c none = none
in_front c (some (a, r)) = some (c ∷ a, r)

unfoldable pub up_to_byte : ℕ → Bytes → Option (Bytes × Bytes)
up_to_byte b [] = none
up_to_byte b (c ∷ s) =
    let rest = in_front c (up_to_byte b s) in if c == b then some ([], s) else rest

-- `strstr(src, "\\frac")`
unfoldable pub frac_in : Bytes → Option Bytes
unfolding starts_with
frac_in [] = none
frac_in (c ∷ s) =
    let rest = frac_in s in if starts_with (codes "\\frac") (c ∷ s) then some (c ∷ s) else rest

-- the text of the next braces, and what is behind them
abbrev pub braced : Option Bytes → Option (Bytes × Bytes)
braced none = none
braced (some s) = up_to_byte b'}' s

unfoldable pub next_braces : Bytes → Option (Bytes × Bytes)
unfolding behind_byte up_to_byte
next_braces s = braced (behind_byte b'{' s)

unfoldable pub without_spaces : Bytes → Bytes
without_spaces [] = []
without_spaces (c ∷ s) = let rest = without_spaces s in if is_space c then rest else c ∷ rest

abbrev pub with_denominator : Bytes → Option (Bytes × Bytes) → Option Bytes
with_denominator a none = none
with_denominator a (some (b, r)) = some (without_spaces a ++ b'/' ∷ without_spaces b)

unfoldable pub fraction_at : Option (Bytes × Bytes) → Option Bytes
unfolding next_braces without_spaces
fraction_at none = none
fraction_at (some (a, r)) = with_denominator a (next_braces r)

abbrev pub fraction_of : Option Bytes → Option Bytes
fraction_of none = none
fraction_of (some s) = fraction_at (next_braces s)

abbrev pub is_number_byte : ℕ → Bool
is_number_byte c = is_digit c || c == b'-' || c == b'+' || c == b'/' || c == b'.'

unfoldable pub number_bytes : Bytes → Bytes
number_bytes [] = []
number_bytes (c ∷ s) = let rest = number_bytes s in if is_number_byte c then c ∷ rest else rest

abbrev pub rational_of : ℕ → Bytes → Option Bytes → Bytes
rational_of size s (some f) = take (size - 1) f
rational_of size s none = trim_end (λ c. c == b'.') (take (size - 1) (number_bytes s))

-- `normalize_rational_answer`
unfoldable pub normalize_rational_answer : ℕ → Bytes → Bytes
unfolding frac_in fraction_at number_bytes trim_end
normalize_rational_answer size s = rational_of size s (fraction_of (frac_in s))

-- `eval_answer_kind`
pub data AnswerKind : Type 0 where
  auto : AnswerKind
  choice : AnswerKind
  integer : AnswerKind
  rational : AnswerKind
  exact_text : AnswerKind
  ordered_sequence : AnswerKind
  line_set : AnswerKind

-- what the grading reads of `eval_case`
pub record EvalCase : Type 0 where
  pub answer_kind : AnswerKind
  pub nchoices : ℕ
  pub source : Option Bytes
  pub answer : Option Bytes
  pub aliases : List Bytes

abbrev pub is_compsec : Option Bytes → Bool
is_compsec none = false
is_compsec (some s) = bytes_eq s (codes "COMPSEC")

-- `eval_case_answer_kind`
unfoldable pub eval_case_answer_kind : EvalCase → AnswerKind
unfolding bytes_eq
eval_case_answer_kind tc = elim tc.answer_kind [
  | auto ↦ if ltb 0 tc.nchoices then choice else if is_compsec tc.source then line_set else integer
  | choice ↦ choice
  | integer ↦ integer
  | rational ↦ rational
  | exact_text ↦ exact_text
  | ordered_sequence ↦ ordered_sequence
  | line_set ↦ line_set
]

-- `EVAL_ANSWER_MAX`
abbrev pub answer_max : ℕ
answer_max = 256

-- `normalize_expected_answer`
unfoldable pub normalize_expected_answer : AnswerKind → Bytes → Bytes
unfolding normalize_integer_answer normalize_rational_answer normalize_exact_answer
    normalize_ordered_answer
normalize_expected_answer rational s = normalize_rational_answer answer_max s
normalize_expected_answer exact_text s = normalize_exact_answer answer_max s
normalize_expected_answer ordered_sequence s = normalize_ordered_answer answer_max s
normalize_expected_answer integer s = normalize_integer_answer answer_max s
normalize_expected_answer auto s = take (answer_max - 1) s
normalize_expected_answer choice s = take (answer_max - 1) s
normalize_expected_answer line_set s = take (answer_max - 1) s

-- one of the answers, in its normal form
unfoldable pub is_one_of : AnswerKind → Bytes → List Bytes → Bool
unfolding normalize_expected_answer bytes_eq
is_one_of kind got [] = false
is_one_of kind got (a ∷ as') =
    bytes_eq got (normalize_expected_answer kind a) || is_one_of kind got as'

abbrev pub same_letter : Bytes → Option Bytes → Bool
same_letter (c ∷ s) (some (d ∷ t)) = c == d
same_letter _ _ = false

-- `EVAL_MAX_ALIASES` is 4
abbrev pub same_text : AnswerKind → EvalCase → Bytes → Option Bytes → Bool
same_text kind tc got none = false
same_text kind tc got (some a) = is_one_of kind got (a ∷ take 4 tc.aliases)

module _ (strtol : Bytes → ℤ × Bytes) where
  abbrev pub same_lines : Bytes → Option Bytes → Bool
  same_lines got none = false
  same_lines got (some a) = compsec_answer_matches strtol a got

  unfoldable pub matches_by : AnswerKind → EvalCase → Bytes → Bool
  unfolding is_one_of compsec_answer_matches
  matches_by choice tc got = same_letter got tc.answer
  matches_by line_set tc got = same_lines got tc.answer
  matches_by integer tc got = same_text integer tc got tc.answer
  matches_by rational tc got = same_text rational tc got tc.answer
  matches_by exact_text tc got = same_text exact_text tc got tc.answer
  matches_by ordered_sequence tc got = same_text ordered_sequence tc got tc.answer
  matches_by auto tc got = same_text auto tc got tc.answer

  -- `answer_matches`, for an answer that was found
  unfoldable pub answer_matches : EvalCase → Bytes → Bool
  unfolding matches_by eval_case_answer_kind
  answer_matches tc got = matches_by (eval_case_answer_kind tc) tc got
