-- ===== src/ToolText/Delimiter.antt =====
-- The closing delimiter does not occur in escaped text.
use mathlib.Core.Option
use preon_star.Base.{
  All, Bool-cases, Bytes, Lacks, Option, [], ap, append_assoc, ap₂, arith, codes, false,
  if◌then◌else◌, inl, inr, length, length-append, none, refl, some, starts_with, starts_with-append,
  starts_with-split, suc, sym, true, ℕ, ◌++◌, ◌+◌, ◌==◌, ◌∙◌, ◌∷◌, ◌≡◌, ◌≢◌,
}
use preon_star.ToolText.{escape, needs_escape}
use preon_star.ToolText.Escaped.{IsPlain, All-not_amp, delimiter, escape-split}

-- The place of the first occurrence of `p`, as `strstr` finds it.
unfoldable pub first_at : Bytes → Bytes → Option ℕ
first_at p [] = if starts_with p [] then some 0 else none
first_at p (c ∷ s) =
    let later = Option.map suc (first_at p s) in if starts_with p (c ∷ s) then some 0 else later

-- a start that lacks `b` lies before the first `b`
split_before :
    (b : ℕ) (t a x r : Bytes) → Lacks b t → a ++ b ∷ x ≡ t ++ r → (r' : Bytes) × (a ≡ t ++ r')
split_before b [] a x r h e = (a, refl)
split_before b (c ∷ t) [] x r h e = absurd (h.0 (sym (cc e)))
split_before b (c ∷ t) (d ∷ a) x r h e =
    let (r', q) = split_before b t a x r h.1 (cc e) in
    let same : d ≡ c = cc e in (r', ap₂ ◌∷◌ same q)

module _ (t : Bytes) (plain : All IsPlain t) (one_line : Lacks 10 t) (rest : Bytes) where
  -- what the writer puts behind the value: a newline, the delimiter and the text that follows
  abbrev closing : Bytes
  closing = 10 ∷ (delimiter t ++ rest)

  abbrev written : Bytes → Bytes
  written s = escape (delimiter t) s ++ closing

  first_at-other :
      (c : ℕ) (s : Bytes)
      → c ≢ b'<'
      → first_at (delimiter t) (c ∷ s) ≡ Option.map suc (first_at (delimiter t) s)
  unfolding first_at starts_with
  first_at-other c s ne = ground arith

  first_at-closing : first_at (delimiter t) closing ≡ some 1
  unfolding first_at starts_with
  first_at-closing = rw (starts_with-append t rest)

  starts_with-written :
      (c : ℕ) (s : Bytes)
      → needs_escape (delimiter t) (c ∷ s) ≡ false
      → starts_with (delimiter t) (c ∷ written s) ≡ false
  unfolding needs_escape
  starts_with-written c s n = elim (Bool-cases (starts_with (delimiter t) (c ∷ written s))) [
    | inr e ↦ e
    | inl e ↦
        let (r, q) = starts_with-split (delimiter t) (c ∷ written s) e in
        let (r', p) =
          split_before 10 t (escape (delimiter t) s) (delimiter t ++ rest) r one_line (cc q) in
        let (s', o) = escape-split t t s r' (All-not_amp t plain) p in
        let first : c ≡ b'<' = cc q in
        let found : starts_with (delimiter t) (c ∷ s) ≡ true =
          rw (first, o) (starts_with-append (delimiter t) s') in
        absurd (ground (arith, found, n))
  ]

  first_at-skip :
      (u x : Bytes) {n : ℕ}
      → Lacks b'<' u
      → first_at (delimiter t) x ≡ some n
      → first_at (delimiter t) (u ++ x) ≡ some (length u + n)
  first_at-skip [] x h e = e ∙ ap some (omega arith)
  first_at-skip (c ∷ u) x {n} h e =
      first_at-other c (u ++ x) h.0 ∙ rw (first_at-skip u x h.1 e) (ap some (omega arith))

  first_at-copied :
      (c : ℕ) (s : Bytes)
      → needs_escape (delimiter t) (c ∷ s) ≡ false
      → first_at (delimiter t) (c ∷ written s) ≡ Option.map suc (first_at (delimiter t) (written s))
  unfolding first_at
  first_at-copied c s n = rw (starts_with-written c s n)

  -- an escaped byte is written as `&` and bytes none of which is `<`
  escape-escaped :
      (c : ℕ) (s : Bytes)
      → needs_escape (delimiter t) (c ∷ s) ≡ true
      → (u : Bytes) × Lacks b'<' u × (escape (delimiter t) (c ∷ s) ≡ u ++ escape (delimiter t) s)
  unfolding escape
  escape-escaped c s n = elim (Bool-cases (c == b'<')) [
    | inl e ↦ (codes "&lt;", omega arith, rw (n, e))
    | inr e ↦ (codes "&amp;", omega arith, rw (n, e))
  ]

  escape-copied :
      (c : ℕ) (s : Bytes)
      → needs_escape (delimiter t) (c ∷ s) ≡ false
      → escape (delimiter t) (c ∷ s) ≡ c ∷ escape (delimiter t) s
  unfolding escape
  escape-copied c s n = rw n

  first_at-written :
      (s : Bytes) → first_at (delimiter t) (written s) ≡ some (length (escape (delimiter t) s) + 1)
  first_at-written [] = unfold escape in first_at-closing
  first_at-written (c ∷ s) = elim (Bool-cases (needs_escape (delimiter t) (c ∷ s))) [
    | inr n ↦
        rw (escape-copied c s n)
          (first_at-copied c s n ∙ rw (first_at-written s) (ap some (omega arith)))
    | inl n ↦
        let (u, no_less, e) = escape-escaped c s n in
        rw (e, append_assoc, length-append)
          (first_at-skip u (written s) no_less (first_at-written s) ∙ ap some (omega arith))
  ]

-- Behind an escaped value, a newline and the delimiter, the first occurrence of the delimiter is
-- the one that the writer put there, for a delimiter `<t` whose rest holds no `<`, `&` or newline:
-- a reader that looks for the delimiter finds the end of the value, whatever the value holds.
pub first_at-escape :
    (t : Bytes)
    → All IsPlain t
    → Lacks 10 t
    → (s rest : Bytes)
    → first_at (delimiter t) (escape (delimiter t) s ++ 10 ∷ (delimiter t ++ rest))
      ≡ some (length (escape (delimiter t) s) + 1)
first_at-escape t plain one_line s rest = first_at-written t plain one_line rest s
