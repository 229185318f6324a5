-- ===== src/PromptPrefix/Shape.antt =====
-- What a parsed prefix looks like.
use preon_star.Base.{
  Bool, Bool-cases, Bytes, Lacks, List, Option-cases, [], ap, append_assoc, arith, false, inl, inr,
  length, none, refl, some, subst, suc, true, ℕ, ◌&&◌, ◌++◌, ◌+◌, ◌==◌, ◌∷◌, ◌≡◌, ◌≢◌,
}
use preon_star.PromptPrefix.{
  Result, Turn, drop_last, ends_in, err, expected, has_nul, is_marker, marker_at, ok, scan, strip,
  ◌>>=◌,
}
use preon_star.PromptPrefix.Scanning.{IsUnbroken, drop_last-split, marker_at-longer, scan-split}

pub >>=-eq-ok {ℓ κ} :
    {A : Type ℓ} {B : Type κ} (r : Result A) (f : A → Result B) {b : B}
    → (r >>= f) ≡ ok b
    → (a : A) × (r ≡ ok a) × (f a ≡ ok b)
>>=-eq-ok (ok a) f h = (a, refl, h)
>>=-eq-ok (err e) f h = cc

pub All-split : (b : ℕ) (s r : Bytes) → Lacks b (s ++ r) → Lacks b s × Lacks b r
All-split b [] r h = (tt, h)
All-split b (c ∷ s) r h = let (hs, hr) = All-split b s r h.1 in ((h.0, hs), hr)

pub has_nul-Lacks : (s : Bytes) → has_nul s ≡ false → Lacks 0 s
has_nul-Lacks [] h = tt
has_nul-Lacks (c ∷ s) h = (ground arith, has_nul-Lacks s (ground arith))

IsUnbroken-start : (s x : Bytes) → IsUnbroken (s ++ x) → IsUnbroken s
IsUnbroken-start [] x h = tt
IsUnbroken-start (c ∷ s) x h = (λ e. marker_at-longer s x (h.0 e), IsUnbroken-start s x h.1)

pub of_not_marker : (s : Bytes) → is_marker s ≡ false → marker_at s ≡ none
of_not_marker s h = elim (Option-cases (marker_at s)) [
  | inl e ↦ e
  | inr (a, e) ↦ cc (ap (λ o. elim o as (λ _. Bool) [ none ↦ false | some m ↦ true ]) e, h)
]

IsUnbroken-drop_last : (s : Bytes) → IsUnbroken s → IsUnbroken (drop_last s)
IsUnbroken-drop_last s h =
    let (x, q) = drop_last-split s in IsUnbroken-start (drop_last s) x (subst IsUnbroken q h)

-- one more byte in front of what the scan reads of `s`
drop_last-cons :
    (c : ℕ) (b x s : Bytes)
    → s ≡ b ++ x
    → (c ≡ 10 → marker_at s ≡ none)
    → IsUnbroken (drop_last b)
    → IsUnbroken (drop_last (c ∷ b))
unfolding drop_last
drop_last-cons c [] x s q h u = tt
drop_last-cons c (d ∷ b) x s q h u =
    let (y, p) = drop_last-split (d ∷ b) in
    (
      λ e.
          marker_at-longer (drop_last (d ∷ b)) (y ++ x)
            (rw (← append_assoc (drop_last (d ∷ b)) y x, ← p, ← q) (h e)),
      u,
    )

whole-cons :
    (c : ℕ) (b x s : Bytes)
    → s ≡ b ++ x
    → (c ≡ 10 → marker_at s ≡ none)
    → (ends_in 10 b ≡ false → IsUnbroken b)
    → ends_in 10 (c ∷ b) ≡ false
    → IsUnbroken (c ∷ b)
unfolding ends_in
whole-cons c [] x s q h u e = (λ k. absurd (ground (arith, e, k)), tt)
whole-cons c (d ∷ b) x s q h u e = (λ k. marker_at-longer (d ∷ b) x (rw (← q) (h k)), u e)

not_broken : (c : ℕ) (s : Bytes) → (c == 10 && is_marker s) ≡ false → c ≡ 10 → marker_at s ≡ none
not_broken c s h e = of_not_marker s (ground (arith, h, e))

-- What the scan reads, without its last byte; and all of it, if that is no newline.
pub scan-IsUnbroken :
    (s : Bytes)
    → IsUnbroken (drop_last (scan s).body)
      × (ends_in 10 (scan s).body ≡ false → IsUnbroken (scan s).body)
unfolding scan
scan-IsUnbroken [] = unfold drop_last in (tt, λ h. tt)
scan-IsUnbroken (c ∷ s) = elim (Bool-cases (c == 10 && is_marker s)) [
  | inl h ↦ rw h (unfold drop_last ends_in in (tt, λ e. absurd (ground (arith, e, h))))
  | inr h ↦
      let r = scan s in
      let split = (scan-split s).0 in
      let (front, all) = scan-IsUnbroken s in
      rw h (
        drop_last-cons c r.body r.next s split (not_broken c s h) front,
        whole-cons c r.body r.next s split (not_broken c s h) all,
      )
]

pub strip-IsUnbroken :
    (s : Bytes)
    → IsUnbroken (drop_last s)
    → (ends_in 10 s ≡ false → IsUnbroken s)
    → IsUnbroken (strip s)
unfolding strip
strip-IsUnbroken s front all = elim (Bool-cases (ends_in 10 s)) [
  | inr h ↦ rw h (all h)
  | inl h ↦ elim (Bool-cases (ends_in 13 (drop_last s))) [
    | inr k ↦ rw (h, k) front
    | inl k ↦ rw (h, k) (IsUnbroken-drop_last (drop_last s) front)
  ]
]

-- the turn that stands behind `n` others
pub record IsTurn (n : ℕ) (t : Turn) : Type 0 where
  pub in_turn : t.role ≡ expected n
  pub not_empty : t.content ≢ []
  pub unbroken : IsUnbroken t.content
  pub no_nul : Lacks 0 t.content

abbrev pub IsScript : ℕ → List Turn → Type 0
IsScript n [] = Unit
IsScript n (t ∷ ts) = IsTurn n t × IsScript (suc n) ts

pub IsScript-concat :
    (n : ℕ) (ts : List Turn) (t : Turn)
    → IsScript n ts
    → IsTurn (n + length ts) t
    → IsScript n (ts ++ t ∷ [])
IsScript-concat n [] t h k = (subst (λ m. IsTurn m t) (omega arith) k, tt)
IsScript-concat n (u ∷ ts) t h k =
    (h.0, IsScript-concat (suc n) ts t h.1 (subst (λ m. IsTurn m t) (omega arith) k))
