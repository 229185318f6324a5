-- ===== src/Eval/Tests.antt =====
-- Runs of the grading, and the theorems at concrete values.
use preon_star.Base.{
  [], arith, bytes_eq, codes, none, refl, some, starts_with, true, ◌++◌, ◌↔◌, ◌∷◌, ◌≡◌,
}
use preon_star.Eval.{skip_to_digit}
use preon_star.Eval.Answer.{
  EvalCase, answer_matches, answer_max, auto, behind_byte, drop_zeros, eval_case_answer_kind,
  exact_from, frac_in, fraction_at, integer, next_braces, normalize_exact_answer,
  normalize_integer_answer, normalize_ordered_answer, normalize_rational_answer, ordered_from,
  trim_end, up_to_byte, without_spaces,
}
use preon_star.Eval.Integer.{IsInteger, answer_matches_iff, value_from}
use preon_star.Eval.Strict.{find_case_answer_strict-append}
use preon_star.Eval.Find.{
  behind_last_eq, find_case_answer_strict, find_integer_answer, last_run,
  normalize_compsec_line_spec, push_all, scan_first_integer, spec_from,
}
use preon_star.Eval.Letter.{
  back_gap, find_answer_letter, find_behind, find_last_answer_marker, is_in, is_ruled_out,
  letter_from, lower, marker_from, mc_letter_is_negated, skip_while, starts_caseless, take_while,
  word_negates,
}
use preon_star.Eval.Decimal.{strtol}

abbrev eval_case : EvalCase
eval_case = record {
  answer_kind = auto;
  nchoices = 0;
  source = none;
  answer = some (codes "082");
  aliases = [];
}

eval_case-kind : eval_case_answer_kind eval_case ≡ integer
unfolding eval_case_answer_kind
eval_case-kind = refl

padded-IsInteger : IsInteger (codes "082")
padded-IsInteger = record {
  digits =
      ((omega arith, omega arith), ((omega arith, omega arith), ((omega arith, omega arith), tt)));
  some_digit = omega arith;
  short = omega arith;
}

bare-IsInteger : IsInteger (codes "82")
bare-IsInteger = record {
  digits = ((omega arith, omega arith), ((omega arith, omega arith), tt));
  some_digit = omega arith;
  short = omega arith;
}

answer_matches_iff_example :
    (answer_matches strtol eval_case (normalize_integer_answer answer_max (codes "82")) ≡ true)
    ↔ (value_from 0 (codes "82") ≡ value_from 0 (codes "082"))
answer_matches_iff_example =
    answer_matches_iff strtol eval_case (codes "082") (codes "82") eval_case-kind refl refl
      padded-IsInteger bare-IsInteger

normalize_ordered_tag : normalize_ordered_answer 256 (codes "<b>A1</b>, B2.") ≡ codes "a1,b2"
unfolding normalize_ordered_answer ordered_from trim_end
normalize_ordered_tag = refl

normalize_exact_boxed : normalize_exact_answer 256 (codes "$\\boxed{X + 1}$.") ≡ codes "x+1"
unfolding normalize_exact_answer exact_from trim_end starts_with
normalize_exact_boxed = refl

normalize_rational_frac : normalize_rational_answer 256 (codes "x = \\frac{ 3 }{4}") ≡ codes "3/4"
unfolding normalize_rational_answer frac_in fraction_at next_braces behind_byte up_to_byte
    without_spaces starts_with
normalize_rational_frac = refl

find_case_answer_strict-append_example :
    find_case_answer_strict 256 integer 0
      (codes "Answer: 1" ++ b'\n' ∷ codes "Answer: m = 2+3 = 5 ")
    ≡ find_case_answer_strict 256 integer 0 (codes "Answer: m = 2+3 = 5 ")
find_case_answer_strict-append_example =
    find_case_answer_strict-append 256 0 integer (codes "Answer: 1") (codes "Answer: m = 2+3 = 5 ")
      (unfold trim_end in omega arith)

integer_on_line : find_integer_answer 256 (codes "Answer: m = 2+3 = 05 ") ≡ codes "5"
unfolding find_integer_answer scan_first_integer behind_last_eq last_run find_last_answer_marker
    find_behind marker_from starts_caseless skip_while take_while skip_to_digit
    normalize_integer_answer drop_zeros starts_with
integer_on_line = refl

letter_not_negated : find_answer_letter (codes "<think>A</think>Answer: not B, D") 4 ≡ b'D'
unfolding find_answer_letter find_last_answer_marker letter_from find_behind marker_from
    starts_caseless skip_while take_while mc_letter_is_negated back_gap word_negates is_ruled_out
    lower is_in bytes_eq starts_with
letter_not_negated = refl

line_spec_words : normalize_compsec_line_spec 256 (codes "lines 9 and 20 - 22.") ≡ codes "9,20-22"
unfolding normalize_compsec_line_spec spec_from push_all skip_while take_while skip_to_digit
    trim_end
line_spec_words = refl

-- behind a blank the loop passes over one digit
line_spec_blank : normalize_compsec_line_spec 256 (codes "9 15") ≡ codes "9,5"
unfolding normalize_compsec_line_spec spec_from push_all skip_while take_while skip_to_digit
    trim_end
line_spec_blank = refl
