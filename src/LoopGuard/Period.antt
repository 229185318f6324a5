-- ===== src/LoopGuard/Period.antt =====
-- The search for a period at the end of the text.
use preon_star.Base.{
  ==_iff, Bool, Bool-cases, Bytes, [], ap, arith, drop, false, get_or, if◌then◌else◌, inl, inr,
  length, ltb, ltb-false→le, ltb→lt, refl, suc, sym, take, true, zero, ℕ, ◌%◌, ◌*◌, ◌+◌, ◌-◌, ◌<◌,
  ◌==◌, ◌↔◌, ◌≡◌, ◌≤◌, ◌⊎◌,
}
use preon_star.LoopGuard.{
  distinct, lines_repeat, period_repeats, repeats, same_from, some_period, text_detected,
}

-- from `i` on, `n` bytes of the text repeat with the period
same_from_iff :
    (n i period : ℕ) (s : Bytes)
    → (same_from n i period s ≡ true)
      ↔ ((k : ℕ) → i ≤ k → k < i + n → get_or s k 0 ≡ get_or s (k % period) 0)
unfolding same_from
same_from_iff zero i period s = (λ h k l u. absurd (omega arith), λ h. refl)
same_from_iff (suc n) i period s =
    let ih = same_from_iff n (suc i) period s in
    let eq = ==_iff (get_or s i 0) (get_or s (i % period) 0) in
    (
      λ h k l u. elim (Bool-cases (k == i)) [
        | inl e ↦ rw ((==_iff k i).0 e) (eq.0 (ground arith))
        | inr ne ↦ ih.0 (ground arith) k (ground arith) (omega arith)
      ],
      λ h.
          rw (eq.1 (h i (omega arith) (omega arith)))
            (ih.1 (λ k l u. h k (omega arith) (omega arith))),
    )

abbrev suffix_of : Bytes → ℕ → Bytes
suffix_of text period = drop (length text - period * repeats) text

-- The last eight times `period` bytes of the text are one block of `period` bytes eight times, the
-- text has them, and the block has four different bytes.
pub record RepeatsBy (text : Bytes) (period : ℕ) : Type 0 where
  pub long : 32 ≤ period
  pub inside : period * repeats ≤ length text
  pub same :
      (k : ℕ)
      → k < period * repeats
      → get_or (suffix_of text period) k 0 ≡ get_or (suffix_of text period) (k % period) 0
  pub varied : 4 ≤ length (distinct (take period (suffix_of text period)) [])

below-mod : (k p : ℕ) → k < p → k % p ≡ k
below-mod k p h = grind arith

period_repeats_iff : (text : Bytes) (p : ℕ) → (period_repeats text p ≡ true) ↔ RepeatsBy text p
unfolding period_repeats
period_repeats_iff text p =
    let suffix = suffix_of text p in
    let repeated = p * repeats in
    let r = same_from_iff (repeated - p) p p suffix in
    (
      λ h. record {
        long = ground arith;
        inside = ground arith;
        same = λ k u. elim (Bool-cases (ltb k p)) [
          | inl b ↦ ap (λ (i : ℕ). get_or suffix i 0) (sym (below-mod k p (ltb→lt k p b)))
          | inr b ↦
              let f : same_from (repeated - p) p p suffix ≡ true = ground arith in
              let l : 32 ≤ p = ground arith in r.0 f k (ltb-false→le k p b) (omega arith)
        ];
        varied = ground arith;
      },
      λ w.
          let f : same_from (repeated - p) p p suffix ≡ true =
            r.1 (λ k l u. w.same k (omega (arith, u, w.long))) in
          ground (arith, w.long, w.inside, w.varied),
    )

some_period_iff :
    (n p : ℕ) (text : Bytes)
    → (some_period n p text ≡ true)
      ↔ ((q : ℕ) × (p ≤ q) × (q < p + n) × (period_repeats text q ≡ true))
unfolding some_period
some_period_iff zero p text = (λ h. cc, λ (q, l, u, h). absurd (omega arith))
some_period_iff (suc n) p text =
    let ih = some_period_iff n (suc p) text in
    elim (Bool-cases (period_repeats text p)) [
      | inl e ↦ rw e (λ h. (p, omega arith, omega arith, e), λ w. refl)
      | inr e ↦ rw e (
        λ h. let (q, l, u, g) = ih.0 h in (q, omega arith, omega arith, g),
        λ (q, l, u, g). elim (Bool-cases (q == p)) [
          | inl same ↦ cc (e, g, ap (period_repeats text) ((==_iff q p).0 same))
          | inr above ↦ ih.1 (q, ground arith, omega arith, g)
        ],
      )
    ]

guarded :
    (b c d : Bool)
    → ((if b then false else if c then true else d) ≡ true)
      ↔ ((b ≡ false) × ((c ≡ true) ⊎ (d ≡ true)))
guarded true c d = (λ h. cc, λ h. cc)
guarded false true d = (λ h. (refl, inl refl), λ h. refl)
guarded false false d = (λ h. (refl, inr h), λ h. elim h.1 [ inl e ↦ cc | inr e ↦ e ])

long_enough : (n : ℕ) → (ltb n 128 ≡ false) ↔ (128 ≤ n)
long_enough n = ground arith

-- A text is found to loop if and only if it has 128 bytes and its last lines repeat, or it
-- ends in eight equal blocks of 32 to 256 bytes with four different bytes in a block.
pub text_detected_iff :
    (text : Bytes)
    → (text_detected text ≡ true) ↔ (
        (128 ≤ length text)
        × ((lines_repeat text ≡ true) ⊎ ((p : ℕ) × (p ≤ 256) × RepeatsBy text p)))
unfolding text_detected
text_detected_iff text =
    let g = guarded (ltb (length text) 128) (lines_repeat text) (some_period (257 - 16) 16 text) in
    let r = some_period_iff (257 - 16) 16 text in
    let n = long_enough (length text) in
    (
      λ h. (
        n.0 (g.0 h).0,
        elim (g.0 h).1 [
          | inl e ↦ inl e
          | inr e ↦
              let (q, l, u, m) = r.0 e in inr (q, omega arith, (period_repeats_iff text q).0 m)
        ],
      ),
      λ (l, w). g.1 (
        n.1 l,
        elim w [
          | inl e ↦ inl e
          | inr (q, u, m) ↦
              inr (r.1 (q, omega (arith, m.long), omega arith, (period_repeats_iff text q).1 m))
        ],
      ),
    )
