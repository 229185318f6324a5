-- ===== src/Eval/Integer.antt =====
-- Integers have the same normal form exactly if they are the same number.
use preon_star.Base.{
  ==_iff, All, Bool, Bytes, [], ap, ap₂, arith, bytes_eq, bytes_eq_refl, bytes_eq_sound, false,
  if_cases, if_intro, inl, inr, length, refl, some, suc, sym, take, true, zero, ℕ, ◌*◌, ◌+◌, ◌-◌,
  ◌<◌, ◌==◌, ◌||◌, ◌↔◌, ◌∙◌, ◌∷◌, ◌≡◌, ◌≤◌, ◌⊎◌,
}
use preon_star.Eval.{ℤ}
use preon_star.Eval.Answer.{
  AnswerKind, EvalCase, answer_matches, answer_max, drop_zeros, eval_case_answer_kind, integer,
  is_one_of, matches_by, normalize_expected_answer, normalize_integer_answer,
}

abbrev pub IsDigit : ℕ → Type 0
IsDigit c = (b'0' ≤ c) × (c ≤ b'9')

-- the number that decimal digits stand for, behind digits that stand for `a`
abbrev pub value_from : ℕ → Bytes → ℕ
value_from a [] = a
value_from a (c ∷ s) = value_from (a * 10 + (c - b'0')) s

value_from-lt :
    (s t : Bytes) (a b : ℕ)
    → All IsDigit s
    → All IsDigit t
    → length s ≡ length t
    → a < b
    → value_from a s < value_from b t
value_from-lt [] [] a b hs ht e h = h
value_from-lt [] (d ∷ t) a b hs ht e h = absurd (omega (arith, e))
value_from-lt (c ∷ s) [] a b hs ht e h = absurd (omega (arith, e))
value_from-lt (c ∷ s) (d ∷ t) a b ((c0, c9), hs) ((d0, d9), ht) e h =
    value_from-lt s t (a * 10 + (c - b'0')) (b * 10 + (d - b'0')) hs ht (omega (arith, e))
      (omega (arith, h, c0, c9, d0, d9))

-- a number with more digits, of which the first is not 0, is larger
value_from-longer :
    (t s : Bytes) (b : ℕ)
    → All IsDigit s
    → All IsDigit t
    → 0 < b
    → length s ≤ length t
    → value_from 0 s < value_from b t
value_from-longer [] [] b hs ht h l = h
value_from-longer [] (c ∷ s) b hs ht h l = absurd (omega (arith, l))
value_from-longer (d ∷ t) s b hs (hd, ht) h l = elim (split (length s) (length t) l) [
  | inl e ↦ value_from-lt s (d ∷ t) 0 b hs (hd, ht) e h
  | inr m ↦ value_from-longer t s (b * 10 + (d - b'0')) hs ht (omega (arith, h)) m
]
  where
    split : (n m : ℕ) → n ≤ suc m → (n ≡ suc m) ⊎ (n ≤ m)
    split n m l = omega arith

value_from-injective :
    (s t : Bytes) (a b : ℕ)
    → All IsDigit s
    → All IsDigit t
    → length s ≡ length t
    → value_from a s ≡ value_from b t
    → (a ≡ b) × (s ≡ t)
value_from-injective [] [] a b hs ht e h = (h, refl)
value_from-injective [] (d ∷ t) a b hs ht e h = absurd (omega (arith, e))
value_from-injective (c ∷ s) [] a b hs ht e h = absurd (omega (arith, e))
value_from-injective (c ∷ s) (d ∷ t) a b ((c0, c9), hs) ((d0, d9), ht) e h =
    let (q, r) =
      value_from-injective s t (a * 10 + (c - b'0')) (b * 10 + (d - b'0')) hs ht (omega (arith, e))
        h in
    let same : c ≡ d = omega (arith, q, c0, c9, d0, d9) in
    (omega (arith, q, c0, c9, d0, d9), ap₂ ◌∷◌ same r)

-- one digit, or more of which the first is not 0
abbrev IsCanonical : Bytes → Type 0
IsCanonical [] = ⊥
IsCanonical (c ∷ []) = Unit
IsCanonical (c ∷ d ∷ s) = b'0' < c

shorter-ne :
    (s t : Bytes)
    → All IsDigit s
    → All IsDigit t
    → IsCanonical s
    → IsCanonical t
    → length s < length t
    → value_from 0 s < value_from 0 t
shorter-ne [] t hs ht cs ct l = absurd cs
shorter-ne (c ∷ s) [] hs ht cs ct l = absurd ct
shorter-ne (c ∷ s) (d ∷ []) hs ht cs ct l = absurd (omega (arith, l))
shorter-ne (c ∷ s) (d ∷ e ∷ t) hs (hd, ht) cs ct l =
    value_from-longer (e ∷ t) (c ∷ s) (0 * 10 + (d - b'0')) hs ht (omega (arith, ct))
      (omega (arith, l))

canonical_unique :
    (s t : Bytes)
    → All IsDigit s
    → All IsDigit t
    → IsCanonical s
    → IsCanonical t
    → value_from 0 s ≡ value_from 0 t
    → s ≡ t
canonical_unique s t hs ht cs ct e = elim (three (length s) (length t)) [
  | inl l ↦ absurd (omega (arith, e, shorter-ne s t hs ht cs ct l))
  | inr r ↦ elim r [
    | inl l ↦ absurd (omega (arith, e, shorter-ne t s ht hs ct cs l))
    | inr l ↦ (value_from-injective s t 0 0 hs ht l e).1
  ]
]
  where
    three : (n m : ℕ) → (n < m) ⊎ ((m < n) ⊎ (n ≡ m))
    three n m = omega arith

drop_zeros-IsCanonical :
    (c : ℕ) (s : Bytes) → All IsDigit (c ∷ s) → IsCanonical (drop_zeros (c ∷ s))
unfolding drop_zeros
drop_zeros-IsCanonical c [] h = tt
drop_zeros-IsCanonical c (d ∷ s) ((c0, c9), h) =
    if_cases IsCanonical (c == b'0') (λ e. drop_zeros-IsCanonical d s h) (λ e. above c c0 e)
  where
    above : (c : ℕ) → b'0' ≤ c → (c == b'0') ≡ false → b'0' < c
    above c h e = ground arith

drop_zeros-value : (s : Bytes) → value_from 0 (drop_zeros s) ≡ value_from 0 s
unfolding drop_zeros
drop_zeros-value [] = refl
drop_zeros-value (c ∷ []) = refl
drop_zeros-value (c ∷ d ∷ s) =
    if_cases (λ (r : Bytes). value_from 0 r ≡ value_from 0 (c ∷ d ∷ s)) (c == b'0')
      (λ e.
        let zero_digit : 0 ≡ 0 * 10 + (c - b'0') = omega (arith, (==_iff c b'0').0 e) in
        drop_zeros-value (d ∷ s) ∙ ap (λ (a : ℕ). value_from a (d ∷ s)) zero_digit)
      (λ e. refl)

drop_zeros-digits : (s : Bytes) → All IsDigit s → All IsDigit (drop_zeros s)
unfolding drop_zeros
drop_zeros-digits [] h = tt
drop_zeros-digits (c ∷ []) h = h
drop_zeros-digits (c ∷ d ∷ s) (hc, h) =
    if_intro (All IsDigit) (c == b'0') (drop_zeros-digits (d ∷ s) h) (hc, h)

drop_zeros-le : (s : Bytes) → length (drop_zeros s) ≤ length s
unfolding drop_zeros
drop_zeros-le [] = omega arith
drop_zeros-le (c ∷ []) = omega arith
drop_zeros-le (c ∷ d ∷ s) =
    if_intro (λ (r : Bytes). length r ≤ suc (suc (length s))) (c == b'0')
      (omega (arith, drop_zeros-le (d ∷ s))) (omega arith)

-- an integer as it is written: digits, at most as many as the buffer of an answer holds
pub record IsInteger (s : Bytes) : Type 0 where
  pub digits : All IsDigit s
  pub some_digit : 0 < length s
  pub short : length s < answer_max

take_all : (n : ℕ) (s : Bytes) → length s ≤ n → take n s ≡ s
take_all zero [] h = refl
take_all zero (c ∷ s) h = absurd (omega (arith, h))
take_all (suc n) [] h = refl
take_all (suc n) (c ∷ s) h = ap (◌∷◌ c) (take_all n s (omega (arith, h)))

normal_form : (s : Bytes) → IsInteger s → normalize_integer_answer answer_max s ≡ drop_zeros s
unfolding normalize_integer_answer
normal_form s v = take_all 255 (drop_zeros s) (omega (arith, v.short, drop_zeros-le s))

canonical : (s : Bytes) → IsInteger s → IsCanonical (drop_zeros s)
canonical [] v = absurd (omega (arith, v.some_digit))
canonical (c ∷ s) v = drop_zeros-IsCanonical c s v.digits

normalize_integer_answer_iff :
    (s t : Bytes)
    → IsInteger s
    → IsInteger t
    → (normalize_integer_answer answer_max s ≡ normalize_integer_answer answer_max t)
      ↔ (value_from 0 s ≡ value_from 0 t)
normalize_integer_answer_iff s t v w = (
  λ e.
      let same : drop_zeros s ≡ drop_zeros t = sym (normal_form s v) ∙ e ∙ normal_form t w in
      sym (drop_zeros-value s) ∙ ap (value_from 0) same ∙ drop_zeros-value t,
  λ e.
      normal_form s v
      ∙ canonical_unique (drop_zeros s) (drop_zeros t) (drop_zeros-digits s v.digits)
          (drop_zeros-digits t w.digits) (canonical s v) (canonical t w)
          (drop_zeros-value s ∙ e ∙ sym (drop_zeros-value t))
      ∙ sym (normal_form t w),
)

or_false : (b : Bool) → (b || false) ≡ b
or_false b = ground arith

module _ (strtol : Bytes → ℤ × Bytes) where
  matches_by-integer :
      (tc : EvalCase) (a got : Bytes)
      → tc.answer ≡ some a
      → tc.aliases ≡ []
      → matches_by strtol integer tc got ≡ bytes_eq got (normalize_integer_answer answer_max a)
  unfolding matches_by is_one_of normalize_expected_answer
  matches_by-integer tc a got h n =
      rw (h, n) (or_false (bytes_eq got (normalize_integer_answer answer_max a)))

  -- An integer that was found, in its normal form, is the right answer of a case without other spellings
  -- exactly if it is the same number as the case's answer, however many zeros stand in front of either.
  pub answer_matches_iff :
      (tc : EvalCase) (a found : Bytes)
      → eval_case_answer_kind tc ≡ integer
      → tc.answer ≡ some a
      → tc.aliases ≡ []
      → IsInteger a
      → IsInteger found
      → (answer_matches strtol tc (normalize_integer_answer answer_max found) ≡ true)
        ↔ (value_from 0 found ≡ value_from 0 a)
  unfolding answer_matches
  answer_matches_iff tc a found k h n v w =
      let got = normalize_integer_answer answer_max found in
      let want = normalize_integer_answer answer_max a in
      let (f, g) = normalize_integer_answer_iff found a w v in
      let judged : matches_by strtol (eval_case_answer_kind tc) tc got ≡ bytes_eq got want =
        ap (λ (x : AnswerKind). matches_by strtol x tc got) k ∙ matches_by-integer tc a got h n in
      (
        λ e. f (bytes_eq_sound got want (sym judged ∙ e)),
        λ e. judged ∙ ap (λ (x : Bytes). bytes_eq x want) (g e) ∙ bytes_eq_refl want,
      )
