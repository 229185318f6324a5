-- ===== src/PromptPrefix/Scanning.antt =====
-- Markers, the scan for the next one, and what is stripped from the end of a turn.
use preon_star.Base.{
  Bool-cases, Bytes, Lacks, Option, [], ap, append-nil, append_assoc, arith, false, if◌then◌else◌,
  inl, inr, none, refl, some, starts_with, starts_with-split, sym, true, ℕ, ◌++◌, ◌+◌, ◌==◌, ◌∙◌,
  ◌∷◌, ◌≡◌, ◌⊎◌,
}
use preon_star.PromptPrefix.{
  Role, assistant, drop_last, ends_in, is_marker, marker, marker_at, scan, strip, user,
}

abbrev pub count : ℕ → Bytes → ℕ
count b [] = 0
count b (c ∷ s) = (if c == b then 1 else 0) + count b s

pub count-append : (b : ℕ) (s r : Bytes) → count b (s ++ r) ≡ count b s + count b r
count-append b [] r = omega arith
count-append b (c ∷ s) r = omega (arith, count-append b s r)

-- Each newline is followed by something other than a marker.
abbrev pub IsUnbroken : Bytes → Type 0
IsUnbroken [] = Unit
IsUnbroken (c ∷ s) = (c ≡ 10 → marker_at s ≡ none) × IsUnbroken s

-- a text whose newlines are followed by no marker, whatever text comes behind
pub starts_with-before :
    (p s x : Bytes) → Lacks 10 p → starts_with p s ≡ false → starts_with p (s ++ 10 ∷ x) ≡ false
unfolding starts_with
starts_with-before [] s x h e = cc
starts_with-before (c ∷ p) [] x h e = ground (arith, h.0)
starts_with-before (c ∷ p) (d ∷ s) x h e = ground (arith, starts_with-before p s x h.1)

pub starts_with-longer : (p s x : Bytes) → starts_with p (s ++ x) ≡ false → starts_with p s ≡ false
unfolding starts_with
starts_with-longer [] s x e = cc
starts_with-longer (c ∷ p) [] x e = refl
starts_with-longer (c ∷ p) (d ∷ s) x e = ground (arith, starts_with-longer p s x)

marker-Lacks : (r : Role) → Lacks 10 (marker r)
marker-Lacks user = omega arith
marker-Lacks assistant = omega arith

-- `marker_at` finds none exactly if the text starts with neither marker
pub marker_at-none :
    (s : Bytes)
    → (starts_with (marker user) s ≡ false)
    → (starts_with (marker assistant) s ≡ false)
    → marker_at s ≡ none
unfolding marker_at
marker_at-none s hu ha = rw (hu, ha)

pub of_marker_at-none :
    (s : Bytes)
    → marker_at s ≡ none
    → (starts_with (marker user) s ≡ false) × (starts_with (marker assistant) s ≡ false)
unfolding marker_at
of_marker_at-none s e = ground arith

pub marker_at-before : (s x : Bytes) → marker_at s ≡ none → marker_at (s ++ 10 ∷ x) ≡ none
marker_at-before s x e =
    let (hu, ha) = of_marker_at-none s e in
    marker_at-none (s ++ 10 ∷ x) (starts_with-before (marker user) s x (marker-Lacks user) hu)
      (starts_with-before (marker assistant) s x (marker-Lacks assistant) ha)

pub marker_at-longer : (s x : Bytes) → marker_at (s ++ x) ≡ none → marker_at s ≡ none
marker_at-longer s x e =
    let (hu, ha) = of_marker_at-none (s ++ x) e in
    marker_at-none s (starts_with-longer (marker user) s x hu)
      (starts_with-longer (marker assistant) s x ha)

pub marker_at-marker : (r : Role) (s : Bytes) → marker_at (marker r ++ s) ≡ some (r, s)
unfolding marker_at starts_with
marker_at-marker user s = refl
marker_at-marker assistant s = refl

spelt : Option (Role × Bytes) → Bytes
spelt none = []
spelt (some (r, s)) = marker r ++ s

spelt_unique :
    (s x s' : Bytes) (r r' : Role)
    → s ≡ marker r' ++ x
    → marker_at s ≡ some (r, s')
    → s ≡ marker r ++ s'
unfolding spelt
spelt_unique s x s' r r' q e = q ∙ ap spelt (sym (ap marker_at q ∙ marker_at-marker r' x) ∙ e)

-- A marker is spelt out, and the bytes behind it are what is returned.
pub marker_at-some :
    (s : Bytes) {r : Role} {s' : Bytes} → marker_at s ≡ some (r, s') → s ≡ marker r ++ s'
marker_at-some s {r} {s'} e = elim (Bool-cases (starts_with (marker user) s)) [
  | inl h ↦ let (x, q) = starts_with-split (marker user) s h in spelt_unique s x s' r user q e
  | inr h ↦ elim (Bool-cases (starts_with (marker assistant) s)) [
    | inl k ↦
        let (x, q) = starts_with-split (marker assistant) s k in spelt_unique s x s' r assistant q e
    | inr k ↦ cc (e, marker_at-none s h k)
  ]
]

-- The scan splits the text, and counts the newlines of its first part.
pub scan-split :
    (s : Bytes)
    → (s ≡ (scan s).body ++ (scan s).next) × ((scan s).newlines ≡ count 10 (scan s).body)
unfolding scan
scan-split [] = (refl, refl)
scan-split (c ∷ s) = ground (arith, scan-split s)

-- It stops at a marker, or at the end.
pub scan-next : (s : Bytes) → ((scan s).next ≡ []) ⊎ (is_marker (scan s).next ≡ true)
unfolding scan
scan-next [] = inl refl
scan-next (c ∷ s) = ground (arith, scan-next s)

-- A text without a marker behind a newline is read up to the newline at its end, if a marker or
-- the end of the file stands there.
pub scan-unbroken :
    (s x : Bytes)
    → IsUnbroken s
    → (x ≡ []) ⊎ (is_marker x ≡ true)
    → ((scan (s ++ 10 ∷ x)).body ≡ s ++ 10 ∷ []) × ((scan (s ++ 10 ∷ x)).next ≡ x)
unfolding scan
scan-unbroken [] x h (inl e) = rw e (ground arith)
scan-unbroken [] x h (inr e) = rw e (refl, refl)
scan-unbroken (c ∷ s) x h m = ground (arith, scan-unbroken s x h.1 m, marker_at-before s x, h.0)

pub ends_in-concat : (b c : ℕ) (s : Bytes) → ends_in b (s ++ c ∷ []) ≡ (c == b)
unfolding ends_in
ends_in-concat b c [] = refl
ends_in-concat b c (d ∷ []) = refl
ends_in-concat b c (d ∷ e ∷ s) = ends_in-concat b c (e ∷ s)

pub drop_last-concat : (c : ℕ) (s : Bytes) → drop_last (s ++ c ∷ []) ≡ s
unfolding drop_last
drop_last-concat c [] = refl
drop_last-concat c (d ∷ []) = refl
drop_last-concat c (d ∷ e ∷ s) = ap (◌∷◌ d) (drop_last-concat c (e ∷ s))

pub strip-line : (s : Bytes) → ends_in 13 s ≡ false → strip (s ++ 10 ∷ []) ≡ s
unfolding strip
strip-line s h = rw (ends_in-concat 10 10 s, drop_last-concat 10 s, h)

-- What is left of a text when its last byte is dropped is a start of it.
pub drop_last-split : (s : Bytes) → (x : Bytes) × (s ≡ drop_last s ++ x)
unfolding drop_last
drop_last-split [] = ([], refl)
drop_last-split (c ∷ []) = (c ∷ [], refl)
drop_last-split (c ∷ d ∷ s) = let (x, q) = drop_last-split (d ∷ s) in (x, ap (◌∷◌ c) q)

pub strip-split : (s : Bytes) → (x : Bytes) × (s ≡ strip s ++ x)
unfolding strip
strip-split s =
    let (x, p) = drop_last-split s in
    let (y, q) = drop_last-split (drop_last s) in
    elim (Bool-cases (ends_in 10 s)) [
      | inr h ↦ ([], rw h (sym (append-nil s)))
      | inl h ↦ elim (Bool-cases (ends_in 13 (drop_last s))) [
        | inr k ↦ (x, rw (h, k) p)
        | inl k ↦ (y ++ x, rw (h, k) (p ∙ ap (λ t. t ++ x) q ∙ append_assoc _ y x))
      ]
    ]
