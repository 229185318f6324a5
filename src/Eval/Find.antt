-- ===== src/Eval/Find.antt =====
-- Finding an answer in a text: integers, lines and payloads, and the last line alone. `size` is that
-- of the destination, from two on but in `find_case_answer_strict`; an allocation that fails is not
-- modelled.
use preon_star.Base.{
  Bool, Bytes, Option, [], bytes_eq, codes, drop, false, if◌then◌else◌, length, ltb, none, not,
  some, suc, take, zero, ℕ, ◌++◌, ◌+◌, ◌-◌, ◌==◌, ◌||◌, ◌∷◌,
}
use preon_star.Eval.{is_digit, skip_to_digit}
use preon_star.Eval.Answer.{
  AnswerKind, auto, choice, exact_text, integer, is_space, line_set, normalize_exact_answer,
  normalize_integer_answer, normalize_ordered_answer, normalize_rational_answer, ordered_sequence,
  rational, trim_end,
}
use preon_star.Eval.Letter.{
  find_answer_letter, find_behind, find_last_answer_marker, skip_while, take_while, visible_of,
}

-- `scan_first_integer`
unfoldable pub scan_first_integer : ℕ → Bytes → Option Bytes
unfolding skip_to_digit take_while normalize_integer_answer
scan_first_integer size s =
    let run = take_while is_digit (skip_to_digit s) in
    if length run == 0 then none else some (normalize_integer_answer size run)

-- the line of the marker, of 160 bytes at most
abbrev pub not_newline : ℕ → Bool
not_newline c = not (c == b'\n')

abbrev pub answer_line : Bytes → Bytes
answer_line a = take_while not_newline (take 160 a)

-- behind the last `=`
unfoldable pub behind_last_eq : Bytes → Option Bytes
behind_last_eq [] = none
behind_last_eq (c ∷ s) = elim (behind_last_eq s) [
  | some t ↦ some t
  | none ↦ if c == b'=' then some s else none
]

-- the last digits of a text
unfoldable pub last_run : Bytes → Bool → Bytes → Bytes
last_run run inside [] = run
last_run run inside (c ∷ s) =
    let run' = if is_digit c then (if inside then run ++ c ∷ [] else c ∷ []) else run in
    last_run run' (is_digit c) s

abbrev pub first_some : Option Bytes → Option Bytes → Option Bytes
first_some none o = o
first_some (some a) o = some a

abbrev pub integer_on : ℕ → Bytes → Option Bytes → Option Bytes
integer_on size row none = scan_first_integer size row
integer_on size row (some t) = first_some (scan_first_integer size t) (scan_first_integer size row)

abbrev pub integer_at : ℕ → Option Bytes → Option Bytes
integer_at size none = none
integer_at size (some a) = integer_on size (answer_line a) (behind_last_eq (answer_line a))

abbrev pub integer_or_last : ℕ → Bytes → Option Bytes → Bytes
integer_or_last size visible (some n) = n
integer_or_last size visible none =
    let run = last_run [] false visible in
    if length run == 0 then take (size - 1) (codes "?") else normalize_integer_answer size run

-- `find_integer_answer`
unfoldable pub find_integer_answer : ℕ → Bytes → Bytes
unfolding scan_first_integer behind_last_eq last_run find_last_answer_marker find_behind
find_integer_answer size generated =
    let visible = visible_of generated in
    integer_or_last size visible (integer_at size (find_last_answer_marker visible))

-- one more byte, where there is room
abbrev pub push : ℕ → Bytes → ℕ → Bytes
push size out c = if ltb (length out + 1) size then out ++ c ∷ [] else out

unfoldable pub push_all : ℕ → Bytes → Bytes → Bytes
push_all size out [] = out
push_all size out (c ∷ s) = push_all size (push size out c) s

-- behind the first number of a range: the range's end, if there is one
abbrev pub range_tail : ℕ → Bytes → Bytes → Bytes × Bytes
range_tail size out [] = (out, [])
range_tail size out (c ∷ s) =
    let after = skip_while is_space s in
    let run = take_while is_digit after in
    if c == b'-'
    then (push_all size (push size out b'-') run, drop (length run) after)
    else (out, c ∷ s)

-- the loop of `normalize_compsec_line_spec`; it goes on behind the byte where a number ended
unfoldable pub spec_from : ℕ → ℕ → Bytes → Bytes → Bytes
unfolding push_all skip_while take_while
spec_from zero size out s = out
spec_from (suc f) size out [] = out
spec_from (suc f) size out (c ∷ s) =
    let run = take_while is_digit (c ∷ s) in
    let comma = if length out == 0 then out else push size out b',' in
    let (out', behind) =
      range_tail size (push_all size comma run) (skip_while is_space (drop (length run) (c ∷ s))) in
    spec_from f size out' (skip_to_digit (drop 1 behind))

abbrev pub or_unknown : ℕ → Bytes → Bytes
or_unknown size s = if length s == 0 then take (size - 1) (codes "?") else s

-- `normalize_compsec_line_spec`
unfoldable pub normalize_compsec_line_spec : ℕ → Bytes → Bytes
unfolding spec_from skip_to_digit trim_end
normalize_compsec_line_spec size s =
    or_unknown size
      (trim_end (λ c. c == b',' || c == b'-') (spec_from (length s) size [] (skip_to_digit s)))

abbrev pub compsec_at : ℕ → Bytes → Option Bytes → Bytes
compsec_at size generated none = find_integer_answer size generated
compsec_at size generated (some a) =
    let spec = normalize_compsec_line_spec size (answer_line a) in
    if bytes_eq spec (codes "?") then find_integer_answer size generated else spec

-- `find_compsec_answer`
unfoldable pub find_compsec_answer : ℕ → Bytes → Bytes
unfolding find_integer_answer normalize_compsec_line_spec bytes_eq
find_compsec_answer size generated =
    compsec_at size generated (find_last_answer_marker (visible_of generated))

-- behind the colon of the marker
abbrev pub behind_colon : Bytes → Option Bytes
behind_colon [] = none
behind_colon (c ∷ s) =
    if c == b':' then some (skip_while (λ x. is_space x || x == b'*') s) else none

abbrev pub payload_at : Option Bytes → Option Bytes
payload_at none = none
payload_at (some m) = behind_colon (skip_while is_space (drop 6 m))

-- `answer_payload`
unfoldable pub answer_payload : Bytes → Option Bytes
unfolding find_last_answer_marker skip_while
answer_payload row = payload_at (find_last_answer_marker row)

abbrev pub normalize_payload : ℕ → AnswerKind → Option Bytes → Bytes
normalize_payload size kind none = take (size - 1) (codes "?")
normalize_payload size rational (some p) = or_unknown size (normalize_rational_answer size p)
normalize_payload size ordered_sequence (some p) = or_unknown size (normalize_ordered_answer size p)
normalize_payload size exact_text (some p) = or_unknown size (normalize_exact_answer size p)
normalize_payload size _ (some p) = take (size - 1) (codes "?")

-- `find_payload_answer`
unfoldable pub find_payload_answer : ℕ → AnswerKind → Bytes → Bytes
unfolding answer_payload normalize_rational_answer normalize_ordered_answer normalize_exact_answer
find_payload_answer size kind generated =
    normalize_payload size kind (answer_payload (visible_of generated))

-- `find_case_answer`
unfoldable pub find_case_answer : ℕ → AnswerKind → ℕ → Bytes → Bytes
unfolding find_payload_answer find_compsec_answer find_integer_answer find_answer_letter
find_case_answer size choice n generated = find_answer_letter generated n ∷ []
find_case_answer size line_set n generated = find_compsec_answer size generated
find_case_answer size integer n generated = find_integer_answer size generated
find_case_answer size rational n generated = find_payload_answer size rational generated
find_case_answer size exact_text n generated = find_payload_answer size exact_text generated
find_case_answer size ordered_sequence n generated =
    find_payload_answer size ordered_sequence generated
find_case_answer size auto n generated = take (size - 1) (codes "?")

-- behind the last newline or carriage return
abbrev pub is_line_end : ℕ → Bool
is_line_end c = c == b'\n' || c == b'\r'

unfoldable pub last_line : Bytes → Bytes → Bytes
last_line row [] = row
last_line row (c ∷ s) = last_line (if is_line_end c then [] else row ++ c ∷ []) s

abbrev pub strict_at : ℕ → AnswerKind → ℕ → Bytes → Option Bytes → Option Bytes
strict_at size kind n row none = none
strict_at size kind n row (some p) = some (find_case_answer size kind n row)

-- `find_case_answer_strict`; `none` is false
unfoldable pub find_case_answer_strict : ℕ → AnswerKind → ℕ → Bytes → Option Bytes
unfolding find_case_answer answer_payload last_line trim_end
find_case_answer_strict size kind n generated =
    let text = trim_end is_space generated in
    let row = last_line [] text in
    if size == 0
    then none
    else if length text == 0
    then none
    else strict_at size kind n row (answer_payload row)
