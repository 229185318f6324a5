-- ===== src/ToolText/Escaped.antt =====
-- How `escape` acts on plain text, for a delimiter `<t` whose rest `t` holds neither `<` nor `&`.
use preon_star.Base.{
  All, Bool-cases, Bytes, Lacks, [], ap, ap₂, arith, false, inl, inr, refl, starts_with, suc, zero,
  ℕ, ◌++◌, ◌∷◌, ◌≡◌, ◌≢◌,
}
use preon_star.ToolText.{escape, escaped_close, needs_escape}
use preon_star.ToolText.Close.{amps, less}

abbrev pub IsPlain : ℕ → Type 0
IsPlain c = (c ≢ b'<') × (c ≢ b'&')

pub amps-IsPlain : (k : ℕ) (t : Bytes) → All IsPlain t → All IsPlain (amps k (less t))
amps-IsPlain zero t h = ground (arith, h)
amps-IsPlain (suc k) t h = ground (arith, amps-IsPlain k t h)

pub All-not_amp : (u : Bytes) → All IsPlain u → Lacks b'&' u
All-not_amp [] h = tt
All-not_amp (c ∷ u) h = (h.0.1, All-not_amp u h.1)

module _ (t : Bytes) where
  abbrev pub delimiter : Bytes
  delimiter = b'<' ∷ t

  needs_escape-plain : (c : ℕ) (s : Bytes) → IsPlain c → needs_escape delimiter (c ∷ s) ≡ false
  unfolding needs_escape escaped_close starts_with
  needs_escape-plain c s h = ground arith

  pub escape-append_plain :
      (u s : Bytes) → All IsPlain u → escape delimiter (u ++ s) ≡ u ++ escape delimiter s
  unfolding escape
  escape-append_plain [] s h = refl
  escape-append_plain (c ∷ u) s h =
      rw (needs_escape-plain c (u ++ s) h.0) (ap (◌∷◌ c) (escape-append_plain u s h.1))

  -- A start of the escaped text without `&` is a start of the text.
  pub escape-split :
      (u s r : Bytes) → Lacks b'&' u → escape delimiter s ≡ u ++ r → (s' : Bytes) × (s ≡ u ++ s')
  unfolding escape
  escape-split [] s r h e = (s, refl)
  escape-split (c ∷ u) [] r h e = cc
  escape-split (c ∷ u) (d ∷ s) r h e = elim (Bool-cases (needs_escape delimiter (d ∷ s))) [
    | inl n ↦ absurd (h.0 (ground (arith, rw n at e)))
    | inr n ↦
        let copied : d ∷ escape delimiter s ≡ c ∷ (u ++ r) = rw n at e in
        let (s', q) = escape-split u s r h.1 (cc copied) in
        let same : d ≡ c = cc copied in (s', ap₂ ◌∷◌ same q)
  ]
