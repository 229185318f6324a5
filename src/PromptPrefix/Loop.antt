-- ===== src/PromptPrefix/Loop.antt =====
-- One round of the loop: what it consumes, the turn that it adds, and the line that it reaches.
use preon_star.Base.{
  Bool-cases, Bytes, Lacks, Option-cases, [], ap, append_assoc, arith, false, inl, inr, length,
  length-append, not, refl, subst, sym, true, ℕ, ◌++◌, ◌+◌, ◌==◌, ◌||◌, ◌∙◌, ◌∷◌, ◌≡◌, ◌≢◌, ◌≤◌,
  ◌⊎◌,
}
use preon_star.PromptPrefix.Shape.{All-split, IsTurn, scan-IsUnbroken, strip-IsUnbroken}
use preon_star.PromptPrefix.{
  Memory, Role, Step, assistant, expected, is_marker, is_nil, marker, marker_at, max_turns, ok,
  role_eq, scan, skip_blank, strip, turn_at, turn_of, user,
}
use preon_star.PromptPrefix.Scanning.{
  count, count-append, marker_at-some, scan-next, scan-split, strip-split,
}

skip_blank-split : (s : Bytes) → (x : Bytes) × (s ≡ x ++ skip_blank s) × (count 10 x ≡ 0)
skip_blank-split [] = ([], refl, refl)
skip_blank-split (c ∷ s) = elim (Bool-cases (c == b' ' || c == b'\t')) [
  | inl h ↦ (c ∷ [], rw h, ground arith)
  | inr h ↦ ([], rw h, refl)
]

marker-count : (r : Role) → count 10 (marker r) ≡ 0
marker-count user = refl
marker-count assistant = refl

marker-length : (r : Role) → 5 ≤ length (marker r)
marker-length user = omega arith
marker-length assistant = omega arith

-- `step` is what a round does to the text `s` at line `line`.
pub record Consumes (line : ℕ) (s : Bytes) (step : Step) : Type 0 where
  pub used : Bytes
  pub splits : s ≡ used ++ step.rest
  pub moves : step.line ≡ line + count 10 used
  pub not_none : 5 ≤ length used
  pub stops : (step.rest ≡ []) ⊎ (is_marker step.rest ≡ true)

Lacks-used : (b : ℕ) (s x y : Bytes) → s ≡ x ++ y → Lacks b s → Lacks b x × Lacks b y
Lacks-used b s x y q h = All-split b x y (subst (Lacks b) q h)

pub role_eq_sound : (a b : Role) → role_eq a b ≡ true → a ≡ b
role_eq_sound user user h = refl
role_eq_sound user assistant h = cc
role_eq_sound assistant user h = cc
role_eq_sound assistant assistant h = refl

is_nil_sound : (s : Bytes) → is_nil s ≡ false → s ≢ []
is_nil_sound [] h = cc
is_nil_sound (c ∷ s) h = ground arith

module _ (m : Memory) (line n : ℕ) where
  -- the value of a round that returns one
  pub turn_of-ok :
      (role : Role) (s : Bytes) {step : Step}
      → turn_of m line n role s ≡ ok step
      → (role ≡ expected n)
        × (strip (scan (skip_blank s)).body ≢ [])
        × (step ≡ record {
          turn = record { role = role; content = strip (scan (skip_blank s)).body };
          rest = (scan (skip_blank s)).next;
          line = line + (scan (skip_blank s)).newlines;
        })
  unfolding turn_of
  turn_of-ok role s h = elim (Bool-cases (role_eq role (expected n))) [
    | inr e ↦ cc (rw e at h)
    | inl e ↦ elim (Bool-cases (is_nil (strip (scan (skip_blank s)).body))) [
      | inl k ↦ cc (rw (e, k) at h)
      | inr k ↦ elim (Bool-cases (n == max_turns || not (m.grow n) || not (m.copy n))) [
        | inl f ↦ cc (rw (e, k, f) at h)
        | inr f ↦ (role_eq_sound _ _ e, is_nil_sound _ k, cc (rw (e, k, f) at h))
      ]
    ]
  ]

  abbrev read_step : Role → Bytes → Step
  read_step role s = record {
    turn = record { role = role; content = strip (scan (skip_blank s)).body };
    rest = (scan (skip_blank s)).next;
    line = line + (scan (skip_blank s)).newlines;
  }

  read_step-Consumes :
      (role : Role) (s : Bytes) → Consumes line (marker role ++ s) (read_step role s)
  read_step-Consumes role s =
      let r = scan (skip_blank s) in
      let (b, blank, flat) = skip_blank-split s in
      let (read, lines) = scan-split (skip_blank s) in
      record {
        used = marker role ++ (b ++ r.body);
        splits =
            ap (λ x. marker role ++ x)
              (blank ∙ ap (λ x. b ++ x) read ∙ sym (append_assoc b r.body r.next))
            ∙ sym (append_assoc (marker role) (b ++ r.body) r.next);
        moves = omega (
          arith,
          count-append 10 (marker role) (b ++ r.body),
          count-append 10 b r.body,
          marker-count role,
          flat,
          lines,
        );
        not_none = omega (arith, length-append (marker role) (b ++ r.body), marker-length role);
        stops = scan-next (skip_blank s);
      }

  read_step-IsTurn :
      (role : Role) (s : Bytes)
      → role ≡ expected n
      → strip (scan (skip_blank s)).body ≢ []
      → Lacks 0 s
      → IsTurn n (read_step role s).turn
  read_step-IsTurn role s e ne h =
      let r = scan (skip_blank s) in
      let (b, blank, _) = skip_blank-split s in
      let (front, all) = scan-IsUnbroken (skip_blank s) in
      let (x, left) = strip-split r.body in
      let clean = (Lacks-used 0 s b (skip_blank s) blank h).1 in
      let clean_body =
        (Lacks-used 0 (skip_blank s) r.body r.next (scan-split (skip_blank s)).0 clean).0 in
      record {
        in_turn = e;
        not_empty = ne;
        unbroken = strip-IsUnbroken r.body front all;
        no_nul = (Lacks-used 0 r.body (strip r.body) x left clean_body).0;
      }

  -- What a round that succeeds consumes, and that the turn that it adds is in order.
  pub turn_at-ok :
      (s : Bytes) {step : Step}
      → turn_at m line n s ≡ ok step
      → Consumes line s step × (Lacks 0 s → IsTurn n step.turn)
  unfolding turn_at
  turn_at-ok s {step} h = elim (Option-cases (marker_at s)) [
    | inl e ↦ cc (rw (e, turn_at) at h)
    | inr ((role, s'), e) ↦
        let (in_turn, ne, q) = turn_of-ok role s' (rw (e, turn_at) at h) in
        let spelt = marker_at-some s e in
        rw (q, spelt)
          (
            read_step-Consumes role s',
            λ clean. read_step-IsTurn role s' in_turn ne (All-split 0 (marker role) s' clean).1,
          )
  ]
