-- ===== src/ToolText/Stream.antt =====
-- The test on a streamed fragment: what it holds back is what may still become an escaped
-- delimiter.
use preon_star.Base.{
  &&-eq-true, Bool-cases, Bytes, [], ap, append-nil, append_assoc, arith, codes, false, inl, inr,
  length, ltb, refl, starts_with, starts_with-append, starts_with-split, subst, suc, sym, true,
  zero, ℕ, ◌&&◌, ◌++◌, ◌==◌, ◌↔◌, ◌∙◌, ◌∷◌, ◌≡◌, ◌≢◌, ◌⊎◌,
}
use preon_star.ToolText.{
  closes, escaped_close, is_start_of, partial_close, partial_escape, partial_tail, skip_amps, tail,
}
use preon_star.ToolText.Close.{
  amps, amps-append, escaped_close-split, less, skip_amps-amps, skip_amps-split,
}

is_start_of-split : (p s : Bytes) → is_start_of p s ≡ true → (r : Bytes) × (p ≡ s ++ r)
unfolding is_start_of
is_start_of-split p s h = starts_with-split s p h

is_start_of-append : (s r : Bytes) → is_start_of (s ++ r) s ≡ true
unfolding is_start_of
is_start_of-append s r = starts_with-append s r

partial_tail-completes :
    (end s : Bytes) → partial_tail end s ≡ true → (r : Bytes) × (s ++ r ≡ less (tail end))
unfolding partial_tail
partial_tail-completes end (a ∷ b ∷ c ∷ t) h =
    let (spelt, rest) =
      &&-eq-true (a == b'l' && b == b't' && c == b';')
        (ltb (length t) (length (tail end)) && is_start_of (tail end) t) h in
    let (r, q) =
      is_start_of-split (tail end) t (&&-eq-true (ltb (length t) (length (tail end))) _ rest).1 in
    (r, ground (arith, q))
partial_tail-completes _ _ h = cc

-- Behind the loop, a text held back can be completed.
partial_close-completes :
    (end s : Bytes)
    → partial_close end s ≡ true
    → (k : ℕ) × (r : Bytes) × (s ++ r ≡ amps k (less (tail end)))
unfolding partial_close
partial_close-completes end s h =
    elim (Bool-cases (ltb (length s) 4 && is_start_of (codes "amp;") s)) [
      | inl e ↦
          let (r, q) = is_start_of-split (codes "amp;") s (&&-eq-true _ _ e).1 in
          (
            1,
            r ++ less (tail end),
            sym (append_assoc s r _) ∙ ap (λ x. x ++ less (tail end)) (sym q),
          )
      | inr e ↦ elim (Bool-cases (ltb (length s) 3)) [
        | inl short ↦
            let (r, q) = is_start_of-split (codes "lt;") s (rw (e, short) at h) in
            (0, r ++ tail end, sym (append_assoc s r _) ∙ ap (λ x. x ++ tail end) (sym q))
        | inr long ↦ let (r, q) = partial_tail-completes end s (rw (e, long) at h) in (0, r, q)
      ]
    ]

-- two starts of one text: one is a start of the other
starts_of_one :
    (s t r x : Bytes)
    → s ++ r ≡ t ++ x
    → (starts_with t s ≡ true) ⊎ ((ltb (length s) (length t) && is_start_of t s) ≡ true)
unfolding is_start_of starts_with
starts_of_one s [] r x e = inl refl
starts_of_one [] (c ∷ t) r x e = inr (ground arith)
starts_of_one (d ∷ s) (c ∷ t) r x e =
    let same : d ≡ c = cc e in
    elim (starts_of_one s t r x (cc e)) [
      | inl h ↦ inl (ground (arith, h, same))
      | inr h ↦ inr (ground (arith, h, same))
    ]

whole_or_held :
    (end s r x : Bytes)
    → s ++ r ≡ tail end ++ x
    → (closes end (less s) ≡ true) ⊎ (partial_close end (less s) ≡ true)
unfolding partial_close partial_tail closes
whole_or_held end s r x e = elim (starts_of_one s (tail end) r x e) [
  | inl h ↦ inl h
  | inr h ↦ inr (ground (arith, h))
]

-- Behind the loop, a start of an escaped delimiter is held back, unless it is whole.
partial_close-less :
    (end s r x : Bytes)
    → s ++ r ≡ less (tail end ++ x)
    → (closes end (skip_amps s) ≡ true) ⊎ (partial_close end (skip_amps s) ≡ true)
partial_close-less end [] r x e =
    inr (unfold skip_amps partial_close is_start_of starts_with in refl)
partial_close-less end (a ∷ []) r x e =
    inr (unfold skip_amps partial_close is_start_of starts_with in ground arith)
partial_close-less end (a ∷ b ∷ []) r x e =
    inr (unfold skip_amps partial_close is_start_of starts_with in ground arith)
partial_close-less end (a ∷ b ∷ c ∷ s) r x e =
    let ea : a ≡ b'l' = cc e in
    let eb : b ≡ b't' = cc e in
    let ec : c ≡ b';' = cc e in rw (ea, eb, ec, skip_amps-amps 0 s) (whole_or_held end s r x (cc e))

partial_close-amps :
    (end : Bytes) (k : ℕ) (s r x : Bytes)
    → s ++ r ≡ amps k (less (tail end ++ x))
    → (closes end (skip_amps s) ≡ true) ⊎ (partial_close end (skip_amps s) ≡ true)
partial_close-amps end zero s r x e = partial_close-less end s r x e
partial_close-amps end (suc k) (a ∷ b ∷ c ∷ d ∷ s) r x e =
    let ea : a ≡ b'a' = cc e in
    let eb : b ≡ b'm' = cc e in
    let ec : c ≡ b'p' = cc e in
    let ed : d ≡ b';' = cc e in
    let step : skip_amps (b'a' ∷ b'm' ∷ b'p' ∷ b';' ∷ s) ≡ skip_amps s = unfold skip_amps in refl in
    rw (ea, eb, ec, ed, step) (partial_close-amps end k s r x (cc e))
partial_close-amps end (suc k) _ r x e =
    inr (unfold skip_amps partial_close is_start_of starts_with in ground arith)

skip_amps-past : (k : ℕ) (s : Bytes) → skip_amps (amps k s) ≡ skip_amps s
unfolding skip_amps
skip_amps-past zero s = refl
skip_amps-past (suc k) s = skip_amps-past k s

append-past : (k : ℕ) (s r : Bytes) → amps k s ++ r ≡ amps k (s ++ r)
append-past zero s r = refl
append-past (suc k) s r = ap (λ x. b'a' ∷ b'm' ∷ b'p' ∷ b';' ∷ x) (append-past k s r)

closes_whole : (end : Bytes) → closes end (less (tail end)) ≡ true
unfolding closes
closes_whole end =
    subst (λ x. starts_with (tail end) x ≡ true) (append-nil (tail end))
      (starts_with-append (tail end) [])

-- the completion of a fragment that is held back
completes :
    (end : Bytes) (c : ℕ) (s : Bytes)
    → partial_escape end (c ∷ s) ≡ true
    → (r : Bytes) × (escaped_close end (c ∷ (s ++ r)) ≡ true)
unfolding partial_escape escaped_close
completes end c s h =
    let held : partial_close end (skip_amps s) ≡ true = ground arith in
    let first : (c == b'&') ≡ true = ground arith in
    let (k, r, q) = partial_close-completes end (skip_amps s) held in
    let (j, p) = skip_amps-split s in
    let text : s ++ r ≡ amps j (amps k (less (tail end))) =
      ap (λ x. x ++ r) p ∙ append-past j (skip_amps s) r ∙ ap (amps j) q in
    let rest : closes end (skip_amps (s ++ r)) ≡ true =
      rw (text, skip_amps-past j, skip_amps-amps k) (closes_whole end) in
    (r, rw (first, rest))

held_back :
    (end : Bytes) (c : ℕ) (s r : Bytes)
    → escaped_close end (c ∷ (s ++ r)) ≡ true
    → escaped_close end (c ∷ s) ≡ false
    → partial_escape end (c ∷ s) ≡ true
held_back end c s r e unclosed =
    let (k, x, q) = escaped_close-split end (c ∷ (s ++ r)) e in
    let first : c ≡ b'&' = cc q in
    let text : s ++ r ≡ amps k (less (tail end ++ x)) = cc (q, amps-append k (tail end) x) in
    elim (partial_close-amps end k s r x text) [
      | inl whole ↦ absurd (unfold escaped_close in ground arith)
      | inr held ↦ unfold partial_escape in ground arith
    ]

-- A fragment that is not empty and does not yet begin with an escaped delimiter is held back exactly
-- if some text behind it makes it begin with one.
pub partial_escape_iff :
    (end s : Bytes)
    → s ≢ []
    → escaped_close end s ≡ false
    → (partial_escape end s ≡ true) ↔ ((r : Bytes) × (escaped_close end (s ++ r) ≡ true))
partial_escape_iff end [] ne u = absurd (ne refl)
partial_escape_iff end (c ∷ s) ne u = (completes end c s, λ r. held_back end c s r.0 r.1 u)
