-- ===== src/PromptPrefix/RoundTrip.antt =====
-- A prefix file written from turns is read back as those turns.
use preon_star.Base.{
  All-append, Bytes, Lacks, List, [], ap, append-nil, append_assoc, arith, false, inl, inr, length,
  length-append, refl, some, starts_with, subst, suc, sym, true, zero, ℕ, ◌%◌, ◌++◌, ◌+◌, ◌<◌, ◌∙◌,
  ◌∷◌, ◌≡◌, ◌≢◌, ◌≤◌, ◌⊎◌,
}
use preon_star.PromptPrefix.{
  Memory, Role, Step, Turn, assistant, ends_in, expected, finish, has_nul, is_marker, is_nil,
  last_role, marker, marker_at, max_turns, ok, parse, role_eq, scan, skip_bom, turn_at, turn_of,
  turns_from, user,
}
use preon_star.PromptPrefix.Scanning.{marker_at-marker, scan-unbroken, strip-line}
use preon_star.PromptPrefix.Shape.{IsScript, IsTurn}
use preon_star.PromptPrefix.Parsed.{IsScript-last}

-- One line with the marker and a blank, and the content up to a newline.
unfoldable pub render : List Turn → Bytes
render [] = []
render (t ∷ ts) = marker t.role ++ b' ' ∷ (t.content ++ 10 ∷ render ts)

-- What a content must be to come back: a carriage return at its end would be stripped.
abbrev pub IsWritable : ℕ → List Turn → Type 0
IsWritable n [] = Unit
IsWritable n (t ∷ ts) = IsTurn n t × (ends_in 13 t.content ≡ false) × IsWritable (suc n) ts

marker_at-render :
    (t : Turn) (ts : List Turn)
    → marker_at (render (t ∷ ts)) ≡ some (t.role, b' ' ∷ (t.content ++ 10 ∷ render ts))
unfolding render
marker_at-render t ts = marker_at-marker t.role (b' ' ∷ (t.content ++ 10 ∷ render ts))

render-stops : (ts : List Turn) → (render ts ≡ []) ⊎ (is_marker (render ts) ≡ true)
render-stops [] = inl (unfold render in refl)
render-stops (t ∷ ts) = inr (rw (marker_at-render t ts, is_marker))

role_eq_refl : (r : Role) → role_eq r r ≡ true
role_eq_refl user = refl
role_eq_refl assistant = refl

is_nil-false : (s : Bytes) → s ≢ [] → is_nil s ≡ false
is_nil-false [] h = absurd (h refl)
is_nil-false (c ∷ s) h = refl

-- every allocation succeeds
abbrev pub IsAmple : Memory → Type 0
IsAmple m = (n : ℕ) → (m.grow n ≡ true) × (m.copy n ≡ true)

module _ (m : Memory) (ample : IsAmple m) where
  read_turn : (line : ℕ) (t : Turn) (ts : List Turn) → Step
  read_turn line t ts = record {
    turn = t;
    rest = render ts;
    line = line + (scan (t.content ++ 10 ∷ render ts)).newlines;
  }

  turn_of-render :
      (line n : ℕ) (t : Turn) (ts : List Turn)
      → IsTurn n t
      → ends_in 13 t.content ≡ false
      → n < max_turns
      → turn_of m line n t.role (b' ' ∷ (t.content ++ 10 ∷ render ts)) ≡ ok (read_turn line t ts)
  unfolding turn_of read_turn
  turn_of-render line n t ts i r lt =
      let (body, next) = scan-unbroken t.content (render ts) i.unbroken (render-stops ts) in
      let same : role_eq t.role (expected n) ≡ true =
        ap (role_eq t.role) (sym i.in_turn) ∙ role_eq_refl t.role in
      ground (
        arith,
        body,
        next,
        strip-line t.content r,
        same,
        is_nil-false t.content i.not_empty,
        ample n,
      )

  turn_at-render :
      (line n : ℕ) (t : Turn) (ts : List Turn)
      → IsTurn n t
      → ends_in 13 t.content ≡ false
      → n < max_turns
      → turn_at m line n (render (t ∷ ts)) ≡ ok (read_turn line t ts)
  unfolding turn_at
  turn_at-render line n t ts i r lt =
      rw (marker_at-render t ts, turn_at) (turn_of-render line n t ts i r lt)

  turn_at_nil : (line n : ℕ) {step : Step} → turn_at m line n [] ≢ ok step
  unfolding turn_at marker_at starts_with
  turn_at_nil line n h = cc h

  turns_from-step :
      (f line : ℕ) (out : List Turn) (s : Bytes) {step : Step}
      → turn_at m line (length out) s ≡ ok step
      → turns_from m (suc f) line out s ≡ turns_from m f step.line (out ++ step.turn ∷ []) step.rest
  unfolding turns_from
  turns_from-step f line out [] h = absurd (turn_at_nil line (length out) h)
  turns_from-step f line out (c ∷ s) h = rw h

  turns_from-render :
      (f line : ℕ) (out ts : List Turn)
      → IsWritable (length out) ts
      → length out + length ts ≤ max_turns
      → length ts < f
      → turns_from m f line out (render ts) ≡ ok (out ++ ts)
  unfolding read_turn
  turns_from-render zero line out ts w le lt = absurd (omega arith)
  turns_from-render (suc f) line out [] w le lt =
      unfold turns_from render in ap ok (sym (append-nil out))
  turns_from-render (suc f) line out (t ∷ ts) w le lt =
      let stepped = turn_at-render line (length out) t ts w.0 w.1 (omega arith) in
      turns_from-step f line out (render (t ∷ ts)) stepped
      ∙ turns_from-render f _ (out ++ t ∷ []) ts
          (subst (λ n. IsWritable n ts) (sym (length-append out (t ∷ []) ∙ omega arith)) w.2)
          (omega (arith, length-append out (t ∷ []))) (omega arith)
      ∙ ap ok (append_assoc out (t ∷ []) ts)

Lacks-has_nul : (s : Bytes) → Lacks 0 s → has_nul s ≡ false
Lacks-has_nul [] h = refl
Lacks-has_nul (c ∷ s) h = ground (arith, h.0, Lacks-has_nul s h.1)

marker-clean : (r : Role) → Lacks 0 (marker r)
marker-clean user = omega arith
marker-clean assistant = omega arith

render-clean : (n : ℕ) (ts : List Turn) → IsWritable n ts → Lacks 0 (render ts)
unfolding render
render-clean n [] w = tt
render-clean n (t ∷ ts) w =
    All-append (λ c. c ≢ 0) (marker t.role) _ (marker-clean t.role)
      (
        omega arith,
        All-append (λ c. c ≢ 0) t.content _ w.0.no_nul (omega arith, render-clean (suc n) ts w.2),
      )

length-render : (ts : List Turn) → length ts ≤ length (render ts)
unfolding render
length-render [] = omega arith
length-render (t ∷ ts) = omega (
  arith,
  length-render ts,
  length-append (marker t.role) (b' ' ∷ (t.content ++ 10 ∷ render ts)),
  length-append t.content (10 ∷ render ts),
)

skip_bom-marker : (r : Role) (s : Bytes) → skip_bom (marker r ++ s) ≡ marker r ++ s
unfolding skip_bom starts_with
skip_bom-marker user s = refl
skip_bom-marker assistant s = refl

finish-written :
    (t : Turn) (ts : List Turn)
    → IsScript 0 (t ∷ ts)
    → length (t ∷ ts) % 2 ≡ 0
    → finish (t ∷ ts) ≡ ok (t ∷ ts)
unfolding finish
finish-written t ts i even =
    let last : last_role t ts ≡ assistant = IsScript-last 0 t ts i ∙ ground arith in rw last

of_writable : (n : ℕ) (ts : List Turn) → IsWritable n ts → IsScript n ts
of_writable n [] w = tt
of_writable n (t ∷ ts) w = (w.0, of_writable (suc n) ts w.2)

parse-by_parts :
    (m : Memory) (s : Bytes) {ts : List Turn}
    → has_nul s ≡ false
    → skip_bom s ≡ s
    → turns_from m (length s + 1) 1 [] s ≡ ok ts
    → finish ts ≡ ok ts
    → ts ≢ []
    → parse m s ≡ ok ts
unfolding parse
parse-by_parts m [] {ts} clean bom looped done ne =
    let returned : ok [] ≡ ok ts = unfold turns_from in looped in absurd (ne (cc returned))
parse-by_parts m (c ∷ s) clean bom looped done ne = rw (clean, bom, looped) done

-- Turns that alternate from USER to ASSISTANT, hold no NUL, no empty content, no line that starts
-- with a marker and no carriage return at their end come back from the file that is written from
-- them, if memory suffices and there are not more than the code's limit.
pub parse-render :
    (m : Memory) (ts : List Turn)
    → IsAmple m
    → IsWritable 0 ts
    → length ts ≤ max_turns
    → length ts % 2 ≡ 0
    → ts ≢ []
    → parse m (render ts) ≡ ok ts
parse-render m [] ample w le even ne = absurd (ne refl)
parse-render m (t ∷ ts) ample w le even ne =
    parse-by_parts m (render (t ∷ ts)) (Lacks-has_nul (render (t ∷ ts)) (render-clean 0 (t ∷ ts) w))
      (unfold render in skip_bom-marker t.role _)
      (turns_from-render m ample (length (render (t ∷ ts)) + 1) 1 [] (t ∷ ts) w (omega arith)
        (omega (arith, length-render (t ∷ ts))))
      (finish-written t ts (of_writable 0 (t ∷ ts) w) even) ne
