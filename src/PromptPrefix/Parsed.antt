-- ===== src/PromptPrefix/Parsed.antt =====
-- What `parse` returns, on success and on failure.
use preon_star.Base.{
  Bool-cases, Bytes, Lacks, List, [], ap, arith, inl, inr, length, length-drop, refl, some,
  starts_with, starts_with-split, subst, suc, sym, ℕ, ◌%◌, ◌+◌, ◌∙◌, ◌∷◌, ◌≡◌, ◌≢◌, ◌≤◌,
}
use preon_star.PromptPrefix.{
  Error, Memory, Turn, assistant, err, expected, finish, fuel, has_nul, last_role, ok, parse,
  role_eq, skip_bom, turns_from,
}
use preon_star.PromptPrefix.Lines.{
  RefusedAt, Result-cases, none_yet, line_of, turns_from-IsScript, turns_from-RefusedAt,
  turns_from-ne-fuel,
}
use preon_star.PromptPrefix.Loop.{role_eq_sound}
use preon_star.PromptPrefix.Shape.{>>=-eq-ok, All-split, IsScript, has_nul-Lacks}

skip_bom-Lacks : (s : Bytes) → Lacks 0 s → Lacks 0 (skip_bom s)
unfolding skip_bom
skip_bom-Lacks s h = elim (Bool-cases (starts_with (0xef ∷ 0xbb ∷ 0xbf ∷ []) s)) [
  | inr e ↦ rw e h
  | inl e ↦
      let (x, q) = starts_with-split (0xef ∷ 0xbb ∷ 0xbf ∷ []) s e in
      rw (e, q) (All-split 0 (0xef ∷ 0xbb ∷ 0xbf ∷ []) x (subst (Lacks 0) q h)).1
]

skip_bom-length : (s : Bytes) → length (skip_bom s) ≤ length s
unfolding skip_bom
skip_bom-length s = ground (arith, length-drop 3 s)

-- the turn at the end of a script
pub IsScript-last :
    (n : ℕ) (t : Turn) (ts : List Turn)
    → IsScript n (t ∷ ts)
    → last_role t ts ≡ expected (n + length ts)
IsScript-last n t [] h = h.0.in_turn ∙ ap expected (omega arith)
IsScript-last n t (u ∷ ts) h = IsScript-last (suc n) u ts h.1 ∙ ap expected (omega arith)

expected-assistant : (n : ℕ) → expected n ≡ assistant → n % 2 ≡ 1
expected-assistant n h = ground arith

finish-ok :
    (ts us : List Turn)
    → finish ts ≡ ok us
    → (us ≡ ts) × (us ≢ []) × (IsScript 0 ts → length us % 2 ≡ 0)
unfolding finish
finish-ok [] us h = cc h
finish-ok (t ∷ ts) us h = elim (Bool-cases (role_eq (last_role t ts) assistant)) [
  | inr e ↦ cc (rw e at h)
  | inl e ↦
      let same : us ≡ t ∷ ts = cc (rw e at h) in
      rw same (
        refl,
        cc,
        λ i. omega (
          arith,
          expected-assistant (length ts)
              (sym (IsScript-last 0 t ts i ∙ ap expected (omega arith)) ∙ role_eq_sound _ _ e),
        ),
      )
]

finish-err : (ts : List Turn) {e : Error} {l : ℕ} → finish ts ≡ err e → line_of e ≢ some l
unfolding finish
finish-err ts h q = ground arith

module _ (m : Memory) where
  -- Parsed turns alternate, beginning with USER and ending with ASSISTANT, so their number is even
  -- and not 0; and no turn is empty, holds a NUL, or holds a newline with a marker behind it, so
  -- that no line of a turn but its first can start with a marker.
  pub parse-IsScript :
      (s : Bytes) {ts : List Turn}
      → parse m s ≡ ok ts
      → IsScript 0 ts × (length ts % 2 ≡ 0) × (ts ≢ [])
  unfolding parse
  parse-IsScript [] h = cc h
  parse-IsScript (c ∷ s) {ts} h = elim (Bool-cases (has_nul (c ∷ s))) [
    | inl e ↦ cc (rw e at h)
    | inr e ↦
        let (us, looped, finished) = >>=-eq-ok _ finish (rw e at h) in
        let (same, some_turn, even) = finish-ok us ts finished in
        let script =
          turns_from-IsScript m (length (c ∷ s) + 1) 1 [] (skip_bom (c ∷ s)) looped tt
            (skip_bom-Lacks (c ∷ s) (has_nul-Lacks (c ∷ s) e)) in
        (rw same script, even script, some_turn)
  ]

  -- The fuel of the loop, one more than the bytes of the file, is never used up.
  pub parse-ne-fuel : (s : Bytes) → parse m s ≢ err fuel
  unfolding parse finish
  parse-ne-fuel [] h = cc h
  parse-ne-fuel (c ∷ s) h = ground (
    arith,
    skip_bom-length (c ∷ s),
    turns_from-ne-fuel m (length (c ∷ s) + 1) 1 [] (skip_bom (c ∷ s)),
  )

  -- An error that names a line names the line, counted from 1, on which the refused turn begins,
  -- and what is wrong with it: the text (without its byte order mark) splits there, the line is one
  -- more than the newlines before, what stands before are turns that are accepted one behind the
  -- other, and the turn that begins there has no marker, a role that is not the one that is due, or
  -- no content.
  pub parse-RefusedAt :
      (s : Bytes) {e : Error} {l : ℕ}
      → parse m s ≡ err e
      → line_of e ≡ some l
      → RefusedAt m 1 (skip_bom s) e l
  unfolding parse
  parse-RefusedAt [] h q = cc (h, q)
  parse-RefusedAt (c ∷ s) {e} {l} h q = elim (Bool-cases (has_nul (c ∷ s))) [
    | inl z ↦ cc (q, rw z at h)
    | inr z ↦ elim (Result-cases (turns_from m (length (c ∷ s) + 1) 1 [] (skip_bom (c ∷ s)))) [
      | inl (ts, k) ↦ absurd (finish-err ts (rw (z, k) at h) q)
      | inr (e', k) ↦
          let same : e' ≡ e = cc (rw (z, k) at h) in
          turns_from-RefusedAt m (length (c ∷ s) + 1) 1 [] 1 [] (skip_bom (c ∷ s)) (k ∙ ap err same)
            q refl (inl refl) (none_yet (skip_bom (c ∷ s)))
    ]
  ]
