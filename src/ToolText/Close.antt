-- ===== src/ToolText/Close.antt =====
-- What `escaped_close` accepts: `&`, any number of `amp;`, `lt;` and the rest of the delimiter.
use preon_star.Base.{
  &&-eq-true, Bool-cases, Bytes, [], ap, ap₂, arith, inl, inr, refl, starts_with,
  starts_with-append, starts_with-split, suc, true, zero, ℕ, ◌&&◌, ◌++◌, ◌==◌, ◌∙◌, ◌∷◌, ◌≡◌,
}
use preon_star.ToolText.{closes, escaped_close, skip_amps, tail}

-- `amp;` as often as the number says, in front of a text
abbrev pub amps : ℕ → Bytes → Bytes
amps zero s = s
amps (suc k) s = b'a' ∷ b'm' ∷ b'p' ∷ b';' ∷ amps k s

abbrev pub less : Bytes → Bytes
less s = b'l' ∷ b't' ∷ b';' ∷ s

pub skip_amps-amps : (k : ℕ) (s : Bytes) → skip_amps (amps k (less s)) ≡ less s
unfolding skip_amps
skip_amps-amps zero [] = refl
skip_amps-amps zero (c ∷ s) = refl
skip_amps-amps (suc k) s = skip_amps-amps k s

pub skip_amps-split : (s : Bytes) → (k : ℕ) × (s ≡ amps k (skip_amps s))
unfolding skip_amps
skip_amps-split (a ∷ b ∷ c ∷ d ∷ s) =
    elim (Bool-cases (a == b'a' && b == b'm' && c == b'p' && d == b';')) [
      | inl e ↦ let (k, q) = skip_amps-split s in (suc k, rw e (ground (arith, q)))
      | inr e ↦ (0, rw e)
    ]
skip_amps-split _ = (0, refl)

pub amps-append : (k : ℕ) (t r : Bytes) → amps k (less (t ++ r)) ≡ amps k (less t) ++ r
amps-append zero t r = refl
amps-append (suc k) t r = ap (λ s. b'a' ∷ b'm' ∷ b'p' ∷ b';' ∷ s) (amps-append k t r)

closes-split : (end s : Bytes) → closes end s ≡ true → (r : Bytes) × (s ≡ less (tail end ++ r))
unfolding closes
closes-split end (a ∷ b ∷ c ∷ s) h =
    let (spelt, rest) =
      &&-eq-true (a == b'l' && b == b't' && c == b';') (starts_with (tail end) s) h in
    let (r, q) = starts_with-split (tail end) s rest in (r, ground (arith, q))
closes-split _ _ h = cc

-- The tail of the delimiter may be any text here.
pub escaped_close-split :
    (end s : Bytes)
    → escaped_close end s ≡ true
    → (k : ℕ) × (r : Bytes) × (s ≡ b'&' ∷ (amps k (less (tail end)) ++ r))
unfolding escaped_close
escaped_close-split end [] h = cc
escaped_close-split end (c ∷ s) h =
    let (k, skipped) = skip_amps-split s in
    let closed : closes end (skip_amps s) ≡ true = ground arith in
    let (r, q) = closes-split end (skip_amps s) closed in
    let first : c ≡ b'&' = ground arith in
    (k, r, ap₂ ◌∷◌ first (skipped ∙ ap (amps k) q ∙ amps-append k (tail end) r))

closes-less : (end r : Bytes) → closes end (less (tail end ++ r)) ≡ true
unfolding closes
closes-less end r = starts_with-append (tail end) r

pub escaped_close-amps :
    (end r : Bytes) (k : ℕ) → escaped_close end (b'&' ∷ (amps k (less (tail end)) ++ r)) ≡ true
unfolding escaped_close
escaped_close-amps end r k =
    rw (← amps-append k (tail end) r, skip_amps-amps k (tail end ++ r)) (closes-less end r)
