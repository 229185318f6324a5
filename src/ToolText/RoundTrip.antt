-- ===== src/ToolText/RoundTrip.antt =====
-- Reading back what the writer escaped.
use preon_star.Base.{
  All, Bool-cases, Bytes, [], ap, arith, false, inl, inr, refl, starts_with, starts_with-append,
  starts_with-split, suc, true, ℕ, ◌++◌, ◌∷◌, ◌≡◌, ◌⊎◌,
}
use preon_star.ToolText.{escape, escaped_close, needs_escape, unescape, unescape_from}
use preon_star.ToolText.Close.{amps, escaped_close-amps, escaped_close-split, less}
use preon_star.ToolText.Escaped.{
  IsPlain, All-not_amp, amps-IsPlain, delimiter, escape-append_plain, escape-split,
}

module _ (t : Bytes) (plain : All IsPlain t) where
  -- a byte that is copied does not begin an escaped delimiter in the output either
  escaped_close-copied :
      (c : ℕ) (s : Bytes)
      → needs_escape (delimiter t) (c ∷ s) ≡ false
      → escaped_close (delimiter t) (c ∷ escape (delimiter t) s) ≡ false
  unfolding needs_escape
  escaped_close-copied c s n =
      elim (Bool-cases (escaped_close (delimiter t) (c ∷ escape (delimiter t) s))) [
        | inr e ↦ e
        | inl e ↦
            let (k, r, q) = escaped_close-split (delimiter t) _ e in
            let u = amps k (less t) in
            let (s', p) = escape-split t u s r (All-not_amp u (amps-IsPlain k t plain)) (cc q) in
            let first : c ≡ b'&' = cc q in
            let closed = escaped_close-amps (delimiter t) s' k in
            let found : escaped_close (delimiter t) (c ∷ s) ≡ true = rw (first, p) closed in
            absurd (ground (arith, found, n))
      ]

  unescape-copied :
      (c : ℕ) (s : Bytes)
      → escaped_close (delimiter t) (c ∷ s) ≡ false
      → unescape_from (delimiter t) 0 (c ∷ s) ≡ c ∷ unescape_from (delimiter t) 0 s
  unfolding unescape_from
  unescape-copied c s n = rw n

  unescape-less :
      (r : Bytes)
      → unescape_from (delimiter t) 0 (b'&' ∷ (less (t ++ r)))
        ≡ b'<' ∷ unescape_from (delimiter t) 0 (t ++ r)
  unfolding unescape_from starts_with
  unescape-less r = rw (escaped_close-amps (delimiter t) r 0)

  unescape-amp :
      (k : ℕ) (r : Bytes)
      → unescape_from (delimiter t) 0 (b'&' ∷ (amps (suc k) (less t) ++ r))
        ≡ b'&' ∷ unescape_from (delimiter t) 0 (amps k (less t) ++ r)
  unfolding unescape_from starts_with
  unescape-amp k r = rw (escaped_close-amps (delimiter t) r (suc k))

  escape-less :
      (r : Bytes)
      → escape (delimiter t) (b'<' ∷ (t ++ r)) ≡ b'&' ∷ less (t ++ escape (delimiter t) r)
  unfolding escape needs_escape starts_with
  escape-less r =
      rw (starts_with-append t r) (ap (λ s. b'&' ∷ less s) (escape-append_plain t t r plain))

  escape-amp :
      (k : ℕ) (r : Bytes)
      → escape (delimiter t) (b'&' ∷ (amps k (less t) ++ r))
        ≡ b'&' ∷ (amps (suc k) (less t) ++ escape (delimiter t) r)
  unfolding escape needs_escape starts_with
  escape-amp k r = rw (escaped_close-amps (delimiter t) r k) (
      ap (λ s. b'&' ∷ b'a' ∷ b'm' ∷ b'p' ∷ b';' ∷ s)
        (escape-append_plain t (amps k (less t)) r (amps-IsPlain k t plain)))

  escape-copied :
      (c : ℕ) (s : Bytes)
      → needs_escape (delimiter t) (c ∷ s) ≡ false
      → escape (delimiter t) (c ∷ s) ≡ c ∷ escape (delimiter t) s
  unfolding escape
  escape-copied c s n = rw n

  -- a text that needs an escape is the delimiter, or an escaped delimiter, and what follows
  needs_escape-split :
      (c : ℕ) (s : Bytes)
      → needs_escape (delimiter t) (c ∷ s) ≡ true
      → ((r : Bytes) × (c ∷ s ≡ b'<' ∷ (t ++ r)))
        ⊎ ((k : ℕ) × (r : Bytes) × (c ∷ s ≡ b'&' ∷ (amps k (less t) ++ r)))
  unfolding needs_escape
  needs_escape-split c s n = elim (Bool-cases (starts_with (delimiter t) (c ∷ s))) [
    | inl e ↦ let (r, q) = starts_with-split (delimiter t) (c ∷ s) e in inl (r, q)
    | inr e ↦ inr (escaped_close-split (delimiter t) (c ∷ s) (ground (arith, e, n)))
  ]

  round_trip : (s : Bytes) → unescape_from (delimiter t) 0 (escape (delimiter t) s) ≡ s
  round_trip [] = unfold escape unescape_from in refl
  round_trip (c ∷ s) = elim (Bool-cases (needs_escape (delimiter t) (c ∷ s))) [
    | inr n ↦
        rw (escape-copied c s n, unescape-copied c _ (escaped_close-copied c s n))
          (ap (◌∷◌ c) (round_trip s))
    | inl n ↦ elim (needs_escape-split c s n) [
      | inl (r, q) ↦
          let same : s ≡ t ++ r = cc q in
          rw (q, escape-less r, unescape-less, ← escape-append_plain t t r plain, ← same)
            (ap (◌∷◌ b'<') (round_trip s))
      | inr (k, r, q) ↦
          let u = amps k (less t) in
          let same : s ≡ u ++ r = cc q in
          rw
            (
              q,
              escape-amp k r,
              unescape-amp k,
              ← escape-append_plain t u r (amps-IsPlain k t plain),
              ← same,
            )
            (ap (◌∷◌ b'&') (round_trip s))
    ]
  ]

-- For a delimiter `<t` whose rest `t` holds neither `<` nor `&`, unescaping the escaped text gives
-- the text back, whatever bytes it holds (the delimiter itself and its escaped spellings too).
pub unescape-escape :
    (t : Bytes) → All IsPlain t → (s : Bytes) → unescape (delimiter t) (escape (delimiter t) s) ≡ s
unfolding unescape
unescape-escape t plain s = round_trip t plain s
