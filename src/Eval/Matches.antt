-- ===== src/Eval/Matches.antt =====
-- When an answer's lines are accepted.
use preon_star.Base.{
  ==_iff, Bool, Bool-cases, Bytes, ap, ap₂, arith, false, if◌then◌else◌, inl, inr, not, refl, subst,
  suc, sym, true, zero, ℕ, ◌+◌, ◌<◌, ◌==◌, ◌||◌, ◌↔◌, ◌∙◌, ◌≡◌, ◌≤◌, ◌⊎◌,
}
use preon_star.Eval.{LineSet, compsec_answer_matches, inside_from, parse_line_spec, set_len, ℤ}
use preon_star.Eval.Lines.{Below, IsMarked, parse_line_spec-IsMarked}

abbrev SomeFrom : ℕ → ℕ → LineSet → Type 0
SomeFrom f i got = (j : ℕ) × (i ≤ j) × (j < i + f) × (got.has j ≡ true)

abbrev Inside : ℕ → ℕ → LineSet → LineSet → Type 0
Inside f i expected got = (j : ℕ) → i ≤ j → j < i + f → got.has j ≡ true → expected.has j ≡ true

abbrev Accepts : ℕ → ℕ → Bool → LineSet → LineSet → Type 0
Accepts f i hit expected got = ((hit ≡ true) ⊎ SomeFrom f i got) × Inside f i expected got

step_true :
    (f i : ℕ) (hit : Bool) (expected got : LineSet)
    → got.has i ≡ true
    → expected.has i ≡ true
    → Accepts f (suc i) true expected got ↔ Accepts (suc f) i hit expected got
step_true f i hit expected got g e = (
  (λ (h, a). (inr (i, omega arith, omega arith, g), widen a)),
  λ (h, a). (inl refl, λ j l m. a j (omega (arith, l)) (omega (arith, m))),
)
  where
    widen : Inside f (suc i) expected got → Inside (suc f) i expected got
    widen a j l m gj = elim (Bool-cases (i == j)) [
      | inl same ↦ subst (λ (k : ℕ). expected.has k ≡ true) ((==_iff i j).0 same) e
      | inr other ↦ a j (later i j l other) (omega (arith, m)) gj
    ]
      where
        later : (i j : ℕ) → i ≤ j → (i == j) ≡ false → suc i ≤ j
        later i j l o = ground arith

step_false :
    (f i : ℕ) (hit : Bool) (expected got : LineSet)
    → got.has i ≡ false
    → Accepts f (suc i) hit expected got ↔ Accepts (suc f) i hit expected got
step_false f i hit expected got g = (
  (λ (h, a). (
    elim h [ inl x ↦ inl x | inr (j, l, m, x) ↦ inr (j, omega (arith, l), omega (arith, m), x) ],
    widen a,
  )),
  λ (h, a). (narrow h, λ j l m. a j (omega (arith, l)) (omega (arith, m))),
)
  where
    later : (i j : ℕ) → i ≤ j → (i == j) ≡ false → suc i ≤ j
    later i j l o = ground arith

    not_here : (j : ℕ) → got.has j ≡ true → (i == j) ≡ false
    not_here j x = elim (Bool-cases (i == j)) [
      | inl same ↦ absurd (clash j ((==_iff i j).0 same) x)
      | inr other ↦ other
    ]
      where
        clash : (j : ℕ) → i ≡ j → got.has j ≡ true → ⊥
        clash j same x = cc (ap got.has same, g, x)

    widen : Inside f (suc i) expected got → Inside (suc f) i expected got
    widen a j l m gj = a j (later i j l (not_here j gj)) (omega (arith, m)) gj

    narrow : ((hit ≡ true) ⊎ SomeFrom (suc f) i got) → (hit ≡ true) ⊎ SomeFrom f (suc i) got
    narrow (inl x) = inl x
    narrow (inr (j, l, m, x)) = inr (j, later i j l (not_here j x), omega (arith, m), x)

iff_from : {P Q : Type 0} (x y : Bool) → x ≡ y → ((y ≡ true) ↔ P) → (P ↔ Q) → (x ≡ true) ↔ Q
iff_from x y e (f, g) (h, k) = (λ a. h (f (sym e ∙ a)), λ q. e ∙ g (k q))

nothing_left :
    (i : ℕ) (hit : Bool) (expected got : LineSet) → (hit ≡ true) ↔ Accepts 0 i hit expected got
nothing_left i hit expected got = (λ h. (inl h, λ j l m. absurd (omega (arith, l, m))), back)
  where
    back : Accepts 0 i hit expected got → hit ≡ true
    back (inl h, a) = h
    back (inr (j, l, m, x), a) = absurd (omega (arith, l, m))

inside_from_iff :
    (f i : ℕ) (hit : Bool) (expected got : LineSet)
    → (inside_from f i hit expected got ≡ true) ↔ Accepts f i hit expected got
unfolding inside_from
inside_from_iff zero i hit expected got = nothing_left i hit expected got
inside_from_iff (suc f) i hit expected got = elim (Bool-cases (got.has i)) [
  | inl g ↦ elim (Bool-cases (expected.has i)) [
    | inl e ↦
        iff_from (choose (got.has i) (expected.has i)) (inside_from f (suc i) true expected got)
          (ap₂ choose g e) (inside_from_iff f (suc i) true expected got)
          (step_true f i hit expected got g e)
    | inr e ↦ (λ h. absurd (refused g e h), λ (h, a). absurd (outside g e a))
  ]
  | inr g ↦
      iff_from (choose (got.has i) (expected.has i)) (inside_from f (suc i) hit expected got)
        (ap (λ (b : Bool). choose b (expected.has i)) g)
        (inside_from_iff f (suc i) hit expected got) (step_false f i hit expected got g)
]
  where
    choose : Bool → Bool → Bool
    choose a b =
        let rest = inside_from f (suc i) (a || hit) expected got in
        if not a then rest else if not b then false else rest

    refused :
        got.has i ≡ true → expected.has i ≡ false → choose (got.has i) (expected.has i) ≡ true → ⊥
    refused g e h = cc (ap₂ choose g e, h)

    outside : got.has i ≡ true → expected.has i ≡ false → Inside (suc f) i expected got → ⊥
    outside g e a = cc (a i (omega arith) (omega arith) g, e)

-- the lines of `got` are some, and all of them lines of `expected`
abbrev pub IsAnswer : LineSet → LineSet → Type 0
IsAnswer expected got =
    Below got × ((j : ℕ) → j < set_len → got.has j ≡ true → expected.has j ≡ true)

module _ (strtol : Bytes → ℤ × Bytes) where
  -- An answer is accepted exactly if it names at least one line below 256, and every such line that
  -- it names is one of the expected lines.
  pub compsec_answer_matches_iff :
      (expected_spec got_spec : Bytes)
      → (compsec_answer_matches strtol expected_spec got_spec ≡ true)
        ↔ IsAnswer (parse_line_spec strtol expected_spec) (parse_line_spec strtol got_spec)
  unfolding compsec_answer_matches
  compsec_answer_matches_iff expected_spec got_spec =
      judged (parse_line_spec strtol expected_spec) (parse_line_spec strtol got_spec)
        (parse_line_spec-IsMarked strtol expected_spec) (parse_line_spec-IsMarked strtol got_spec)
    where
      judged :
          (expected got : LineSet)
          → IsMarked expected
          → IsMarked got
          → ((if not expected.any
                then false
                else if not got.any
                then false
                else inside_from set_len 0 false expected got)
              ≡ true)
            ↔ IsAnswer expected got
      judged expected got me mg = (forth, back)
        where
          run : Bool
          run = inside_from set_len 0 false expected got

          passed :
              (a b r : Bool)
              → (if not a then false else if not b then false else r) ≡ true
              → (b ≡ true) × (r ≡ true)
          passed a b r h = ground arith

          forth :
              (if not expected.any then false else if not got.any then false else run) ≡ true
              → IsAnswer expected got
          forth h =
              let (g, r) = passed expected.any got.any run h in
              let (hit, all) = (inside_from_iff set_len 0 false expected got).0 r in
              (mg.0 g, λ j l x. all j (omega arith) (omega (arith, l)) x)

          back :
              IsAnswer expected got
              → (if not expected.any then false else if not got.any then false else run) ≡ true
          back ((i, l, x), all) =
              let a : expected.any ≡ true = me.1 (i, l, all i l x) in
              let b : got.any ≡ true = mg.1 (i, l, x) in
              let r : run ≡ true = (inside_from_iff set_len 0 false expected got).1 (
                inr (i, omega arith, omega (arith, l), x),
                λ j z m y. all j (omega (arith, m)) y,
              ) in
              rw (a, b) r
