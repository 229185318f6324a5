-- ===== src/Eval/Strict.antt =====
-- The strict grading looks at the last line alone.
use preon_star.Base.{
  Bool, Bytes, Option, [], ap, append_assoc, arith, false, if◌then◌else◌, length, length-append,
  none, refl, sym, ℕ, ◌++◌, ◌<◌, ◌==◌, ◌∙◌, ◌∷◌, ◌≡◌,
}
use preon_star.Eval.Answer.{AnswerKind, is_space, trim_end}
use preon_star.Eval.Find.{
  answer_payload, find_case_answer_strict, is_line_end, last_line, strict_at,
}

not_zero : (n : ℕ) → 0 < n → (n == 0) ≡ false
not_zero n h = ground arith

trim_end-append :
    (trimmed : ℕ → Bool) (a b : Bytes)
    → 0 < length (trim_end trimmed b)
    → trim_end trimmed (a ++ b) ≡ a ++ trim_end trimmed b
unfolding trim_end
trim_end-append trimmed [] b h = refl
trim_end-append trimmed (c ∷ a) b h =
    let rest = trim_end-append trimmed a b h in
    let long : (length (trim_end trimmed (a ++ b)) == 0) ≡ false =
      not_zero (length (trim_end trimmed (a ++ b)))
        (omega (arith, h, ap length rest, length-append a (trim_end trimmed b))) in
    rw long (ap (◌∷◌ c) rest)

last_line-append : (a b row : Bytes) → last_line row (a ++ b'\n' ∷ b) ≡ last_line [] b
unfolding last_line
last_line-append [] b row = refl
last_line-append (c ∷ a) b row = last_line-append a b (if is_line_end c then [] else row ++ c ∷ [])

-- Whatever stands in front of a newline has no part in the strict grading, if something other than
-- blanks stands behind it.
pub find_case_answer_strict-append :
    (size n : ℕ) (kind : AnswerKind) (front last : Bytes)
    → 0 < length (trim_end is_space last)
    → find_case_answer_strict size kind n (front ++ b'\n' ∷ last)
      ≡ find_case_answer_strict size kind n last
unfolding find_case_answer_strict
find_case_answer_strict-append size n kind front last h =
    let blank = trim_end is_space last in
    let judged : Bytes → Bytes → Option Bytes = λ text row.
      if length text == 0 then none else strict_at size kind n row (answer_payload row) in
    let graded : Bytes → Option Bytes = λ row. strict_at size kind n row (answer_payload row) in
    let some_text : (length blank == 0) ≡ false = not_zero (length blank) h in
    let whole : trim_end is_space (front ++ b'\n' ∷ last) ≡ front ++ b'\n' ∷ blank =
      ap (trim_end is_space) (sym (append_assoc front (b'\n' ∷ []) last))
      ∙ trim_end-append is_space (front ++ b'\n' ∷ []) last h
      ∙ append_assoc front (b'\n' ∷ []) blank in
    let longer : (length (front ++ b'\n' ∷ blank) == 0) ≡ false =
      not_zero (length (front ++ b'\n' ∷ blank))
        (omega (arith, length-append front (b'\n' ∷ blank))) in
    ap (λ (o : Option Bytes). if size == 0 then none else o)
      (ap (λ (t : Bytes). judged t (last_line [] t)) whole
        ∙ ap (λ (b : Bool). if b then none else graded (last_line [] (front ++ b'\n' ∷ blank)))
            longer
        ∙ ap graded (last_line-append front blank [])
        ∙ ap (λ (b : Bool). if b then none else graded (last_line [] blank)) (sym some_text))
