-- ===== src/PromptPrefix/Lines.antt =====
-- The loop over the turns: its results, its fuel, and the lines that its errors name.
use preon_star.Base.{
  Bytes, Lacks, List, Option, Option-cases, [], ap, append_assoc, arith, false, if_cases, if_intro,
  inl, inr, length, length-append, none, not, refl, some, subst, suc, sym, true, zero, ℕ, ◌++◌, ◌+◌,
  ◌<◌, ◌==◌, ◌||◌, ◌∙◌, ◌∷◌, ◌≡◌, ◌≢◌, ◌⊎◌,
}
use preon_star.PromptPrefix.{
  Error, Memory, Result, Role, Step, Turn, bad_start, assistant, empty_turn, err, expected, fuel,
  is_marker, is_nil, marker_at, max_turns, role_eq, scan, skip_blank, strip, user, ok, turn_at,
  turn_of, turns_from, wrong_role,
}
use preon_star.PromptPrefix.Scanning.{count, count-append}
use preon_star.PromptPrefix.Loop.{Consumes, role_eq_sound, turn_at-ok}
use preon_star.PromptPrefix.Shape.{All-split, IsScript, IsScript-concat, IsTurn}

-- the line that a message names
abbrev pub line_of : Error → Option ℕ
line_of (bad_start l) = some l
line_of (wrong_role l r) = some l
line_of (empty_turn l r) = some l
line_of _ = none

-- what is wrong with the turn that begins at `s` behind `n` others
abbrev pub Refuses : ℕ → Bytes → Error → Type 0
Refuses n s (bad_start l) = marker_at s ≡ none
Refuses n s (wrong_role l r) =
    (r ≡ expected n)
    × ((found : Role) × (s' : Bytes) × (marker_at s ≡ some (found, s')) × (found ≢ expected n))
Refuses n s (empty_turn l r) =
    (s' : Bytes) × (marker_at s ≡ some (r, s'))
    × (r ≡ expected n)
    × (strip (scan (skip_blank s')).body ≡ [])
Refuses n s _ = ⊥

-- `n` turns are accepted, one behind the other, where the text `read` stood, up to `unread`; the
-- lines are counted from `start`
pub data Reads (m : Memory) (start : ℕ) : ℕ → Bytes → Bytes → Type 0 where
  none_yet : (s : Bytes) → Reads m start 0 [] s
  one_more :
      (n : ℕ) (read unread used : Bytes) (step : Step)
      → Reads m start n read unread
      → turn_at m (start + count 10 read) n unread ≡ ok step
      → unread ≡ used ++ step.rest
      → Reads m start (suc n) (read ++ used) step.rest

-- The text splits where a turn is refused: the turns before it are read, it is refused for what the
-- error says, and `line` is the line on which it begins, which is the first turn of the file or
-- stands behind a newline, at a marker.
pub record RefusedAt (m : Memory) (start : ℕ) (s : Bytes) (e : Error) (line : ℕ) : Type 0 where
  pub turns : ℕ
  pub read : Bytes
  pub unread : Bytes
  pub splits : s ≡ read ++ unread
  pub line_is : line ≡ start + count 10 read
  pub at_marker : (read ≡ []) ⊎ (is_marker unread ≡ true)
  pub reads : Reads m start turns read unread
  pub refused : Refuses turns unread e

pub Result-cases {ℓ} :
    {A : Type ℓ} (r : Result A) → ((a : A) × (r ≡ ok a)) ⊎ ((e : Error) × (r ≡ err e))
Result-cases (ok a) = inl (a, refl)
Result-cases (err e) = inr (e, refl)

rest-lt : {line : ℕ} {s : Bytes} {step : Step} → Consumes line s step → length step.rest < length s
rest-lt {line} {s} {step} used =
    omega (arith, ap length used.splits, length-append used.used step.rest, used.not_none)

not_at_end :
    (read : Bytes) (c : ℕ) (s : Bytes)
    → (read ≡ []) ⊎ (c ∷ s ≡ []) ⊎ (is_marker (c ∷ s) ≡ true)
    → (read ≡ []) ⊎ (is_marker (c ∷ s) ≡ true)
not_at_end read c s (inl e) = inl e
not_at_end read c s (inr (inl e)) = cc
not_at_end read c s (inr (inr e)) = inr e

module _ (m : Memory) where
  turn_of-err :
      (line n : ℕ) (role : Role) (s : Bytes) {e : Error}
      → turn_of m line n role s ≡ err e
      → (e ≢ fuel) × ((l : ℕ) → line_of e ≡ some l → l ≡ line) × ((l : ℕ) → e ≢ bad_start l)
  unfolding turn_of
  turn_of-err line n role s h = ground arith

  turn_at-err :
      (line n : ℕ) (s : Bytes) {e : Error}
      → turn_at m line n s ≡ err e
      → (e ≢ fuel)
        × ((l : ℕ) → line_of e ≡ some l → l ≡ line)
        × ((l : ℕ) → e ≡ bad_start l → is_marker s ≡ false)
  unfolding turn_at
  turn_at-err line n s h = elim (Option-cases (marker_at s)) [
    | inl q ↦ ground (arith, rw (q, turn_at) at h)
    | inr ((role, s'), q) ↦
        let (no_fuel, lines, no_start) = turn_of-err line n role s' (rw (q, turn_at) at h) in
        (no_fuel, lines, λ l e. absurd (no_start l e))
  ]

  -- A round leaves fewer bytes, so fuel above their number is never used up.
  pub turns_from-ne-fuel :
      (f line : ℕ) (out : List Turn) (s : Bytes)
      → length s < f
      → turns_from m f line out s ≢ err fuel
  unfolding turns_from
  turns_from-ne-fuel zero line out s lt h = elim lt [ ]
  turns_from-ne-fuel (suc f) line out [] lt h = cc h
  turns_from-ne-fuel (suc f) line out (c ∷ s) lt h =
      elim (Result-cases (turn_at m line (length out) (c ∷ s))) [
        | inr (e, q) ↦ (turn_at-err line (length out) (c ∷ s) q).0 (cc (rw q at h))
        | inl (step, q) ↦
            let left = rest-lt (turn_at-ok m line (length out) (c ∷ s) q).0 in
            turns_from-ne-fuel f step.line (out ++ step.turn ∷ []) step.rest (omega arith)
              (rw q at h)
      ]

  -- what an error of a round says
  abbrev Tells : ℕ → Bytes → ℕ → Result Step → Type 0
  Tells n s l (ok step) = Unit
  Tells n s l (err e) = line_of e ≡ some l → Refuses n s e

  turn_of-Tells :
      (line n l : ℕ) (role : Role) (s s' : Bytes)
      → marker_at s ≡ some (role, s')
      → Tells n s l (turn_of m line n role s')
  unfolding turn_of
  turn_of-Tells line n l role s s' q =
      let text = strip (scan (skip_blank s')).body in
      if_cases (Tells n s l) (not (role_eq role (expected n)))
        (λ w h. (refl, (role, s', q, other w)))
        (λ w.
          if_cases (Tells n s l) (is_nil text)
            (λ z h. (s', q, role_eq_sound role (expected n) (same w), is_nil-eq text z))
            (λ z.
              if_cases (Tells n s l) (n == max_turns || not (m.grow n) || not (m.copy n))
                (λ f.
                  if_intro (λ (e : Error). Tells n s l (err e)) (n == max_turns) (λ h. cc h)
                    (λ h. cc h))
                (λ f. tt)))
    where
      same : not (role_eq role (expected n)) ≡ false → role_eq role (expected n) ≡ true
      same w = ground arith

      other : not (role_eq role (expected n)) ≡ true → role ≢ expected n
      other w e =
          absurd (not_same (expected n) (subst (λ r. not (role_eq r (expected n)) ≡ true) e w))
        where
          not_same : (r : Role) → not (role_eq r r) ≡ true → ⊥
          not_same user h = cc h
          not_same assistant h = cc h

      is_nil-eq : (text : Bytes) → is_nil text ≡ true → text ≡ []
      is_nil-eq [] h = refl
      is_nil-eq (c ∷ s) h = cc h

  turn_at-Tells : (line n l : ℕ) (s : Bytes) → Tells n s l (turn_at m line n s)
  unfolding turn_at
  turn_at-Tells line n l s = elim (Option-cases (marker_at s)) [
    | inl q ↦ rw (q, Tells) (λ h. q)
    | inr ((role, s'), q) ↦ rw (q, Tells) (turn_of-Tells line n l role s s' q)
  ]

  refused-here :
      (line n : ℕ) (s : Bytes) {e : Error} {l : ℕ}
      → turn_at m line n s ≡ err e
      → line_of e ≡ some l
      → (start : ℕ) (read : Bytes) → line ≡ start + count 10 read
      → (read ≡ []) ⊎ (is_marker s ≡ true)
      → Reads m start n read s
      → RefusedAt m start (read ++ s) e l
  refused-here line n s {e} {l} h q start read counted at reads = record {
    turns = n;
    read = read;
    unread = s;
    splits = refl;
    line_is = omega (arith, (turn_at-err line n s h).1 l q);
    at_marker = at;
    reads = reads;
    refused = subst (Tells n s l) h (turn_at-Tells line n l s) q;
  }

  -- The line of an error of the loop, whatever was read before it.
  pub turns_from-RefusedAt :
      (f start : ℕ) (read : Bytes) (line : ℕ) (out : List Turn) (s : Bytes) {e : Error} {l : ℕ}
      → turns_from m f line out s ≡ err e
      → line_of e ≡ some l
      → line ≡ start + count 10 read
      → (read ≡ []) ⊎ (s ≡ []) ⊎ (is_marker s ≡ true)
      → Reads m start (length out) read s
      → RefusedAt m start (read ++ s) e l
  unfolding turns_from
  turns_from-RefusedAt zero start read line out s h q counted at reads = cc (h, q)
  turns_from-RefusedAt (suc f) start read line out [] h q counted at reads = cc h
  turns_from-RefusedAt (suc f) start read line out (c ∷ s) {e} {l} h q counted at reads =
      elim (Result-cases (turn_at m line (length out) (c ∷ s))) [
        | inr (e', k) ↦
            let same : e' ≡ e = cc (rw k at h) in
            refused-here line (length out) (c ∷ s) (k ∙ ap err same) q start read counted
              (not_at_end read c s at) reads
        | inl (step, k) ↦
            let used = (turn_at-ok m line (length out) (c ∷ s) k).0 in
            let more : suc (length out) ≡ length (out ++ step.turn ∷ []) =
              omega (arith, length-append out (step.turn ∷ [])) in
            let reads' : Reads m start (suc (length out)) (read ++ used.used) step.rest =
              one_more (length out) read (c ∷ s) used.used step reads
                (subst (λ (i : ℕ). turn_at m i (length out) (c ∷ s) ≡ ok step) counted k)
                used.splits in
            let rest =
              turns_from-RefusedAt f start (read ++ used.used) step.line (out ++ step.turn ∷ [])
                step.rest (rw k at h) q (omega (arith, used.moves, count-append 10 read used.used))
                (inr used.stops)
                (subst (λ (i : ℕ). Reads m start i (read ++ used.used) step.rest) more reads') in
            subst (λ x. RefusedAt m start x e l)
              (append_assoc read used.used step.rest ∙ ap (λ x. read ++ x) (sym used.splits)) rest
      ]

  -- The turns that the loop returns are a script, if those that stood before are.
  pub turns_from-IsScript :
      (f line : ℕ) (out : List Turn) (s : Bytes) {ts : List Turn}
      → turns_from m f line out s ≡ ok ts
      → IsScript 0 out
      → Lacks 0 s
      → IsScript 0 ts
  unfolding turns_from
  turns_from-IsScript zero line out s h i z = cc h
  turns_from-IsScript (suc f) line out [] h i z = subst (IsScript 0) (cc h) i
  turns_from-IsScript (suc f) line out (c ∷ s) h i z =
      elim (Result-cases (turn_at m line (length out) (c ∷ s))) [
        | inr (e, k) ↦ cc (rw k at h)
        | inl (step, k) ↦
            let (used, in_order) = turn_at-ok m line (length out) (c ∷ s) k in
            turns_from-IsScript f step.line (out ++ step.turn ∷ []) step.rest (rw k at h)
              (IsScript-concat 0 out step.turn i
                (subst (λ n. IsTurn n step.turn) (omega arith) (in_order z)))
              (All-split 0 used.used step.rest (subst (Lacks 0) used.splits z)).1
      ]
