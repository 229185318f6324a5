-- ===== src/LoopGuard/Leak.antt =====
-- `agent_action_leak`: reasoning that starts again after the model was to answer.
-- A budget at or below 0 is 0; the counts of tokens are far below the bounds of an `int`.
use mathlib.Core.Bool.{not}
use preon_star.Base.{
  Bool, Bytes, List, [], arith, codes, false, if◌then◌else◌, inl, inr, leb, ltb, ltb→lt,
  starts_with, suc, sym, true, ℕ, ◌&&◌, ◌*◌, ◌+◌, ◌<◌, ◌==◌, ◌||◌, ◌∙◌, ◌∷◌, ◌≡◌, ◌≤◌, ◌⊎◌,
}
use preon_star.LoopGuard.{newline}
use preon_star.LoopGuard.Window.{Detector, feed}

-- `agent_action_leak`
pub record ActionLeak : Type 0 where
  pub tokens : ℕ
  pub next_check : ℕ
  pub rep : Detector

-- the table of `agent_leak_marker_at`
abbrev pub leak_markers : List Bytes
leak_markers =
    codes "Wait"
    ∷ codes "Actually"
    ∷ codes "Hmm"
    ∷ codes "Let me re"
    ∷ codes "Let me think"
    ∷ codes "Let me check"
    ∷ codes "Let me look"
    ∷ codes "Let me read"
    ∷ codes "Let me see"
    ∷ codes "Let me verify"
    ∷ codes "But wait"
    ∷ codes "Hold on"
    ∷ codes "Alternatively"
    ∷ codes "Maybe I"
    ∷ codes "I need to re"
    ∷ codes "On second thought"
    ∷ codes "Okay, so"
    ∷ codes "OK, so"
    ∷ []

unfoldable pub any_prefix : List Bytes → Bytes → Bool
unfolding starts_with
any_prefix [] s = false
any_prefix (m ∷ ms) s = starts_with m s || any_prefix ms s

-- `agent_leak_marker_at`
unfoldable pub leak_marker_at : Bytes → Bool
unfolding any_prefix
leak_marker_at s = any_prefix leak_markers s

-- a byte that may stand in front of a sentence
abbrev pub is_lead : ℕ → Bool
is_lead c = c == 32 || c == newline || c == 45 || c == 42

abbrev pub ends_sentence : ℕ → Bool
ends_sentence c = c == 46 || c == 63 || c == 33

abbrev pub next_is_blank : Bytes → Bool
next_is_blank [] = false
next_is_blank (c ∷ s) = c == 32

-- the loop of `agent_leak_marker_count`
unfoldable pub count_from : Bool → Bytes → ℕ
unfolding leak_marker_at
count_from at_start [] = 0
count_from at_start (c ∷ s) =
    let here = at_start && not (is_lead c) in
    let opens = c == newline || (ends_sentence c && next_is_blank s) in
    (if here && leak_marker_at (c ∷ s) then 1 else 0)
    + count_from (opens || (at_start && not here)) s

unfoldable pub leak_marker_count : Bytes → ℕ
unfolding count_from
leak_marker_count t = count_from true t

-- what is left to do once the detector was fed
unfoldable pub judge_leak : ActionLeak → ℕ → Bool → ActionLeak × Bool
unfolding leak_marker_count
judge_leak l budget repeated =
    if budget == 0 || leb l.tokens budget
    then (l, false)
    else if repeated
    then (l, true)
    else if ltb l.tokens l.next_check
    then (l, false)
    else (
      record l { next_check = l.tokens + 32 },
      leb (if ltb (4 * budget) l.tokens then 1 else 3) (leak_marker_count l.rep.text),
    )

-- `agent_action_leak_feed`
unfoldable pub action_leak_feed : ActionLeak → ℕ → Bytes → ActionLeak × Bool
unfolding judge_leak feed
action_leak_feed l budget s =
    let (rep, repeated) = feed l.rep s in
    judge_leak (record l { tokens = suc l.tokens; rep = rep }) budget repeated

verdict-true :
    (spent repeated early late : Bool) (n : ℕ)
    → (if spent
        then false
        else if repeated
        then true
        else if early
        then false
        else leb (if late then 1 else 3) n)
      ≡ true
    → (spent ≡ false) × ((repeated ≡ true) ⊎ (3 ≤ n) ⊎ ((late ≡ true) × (1 ≤ n)))
verdict-true spent repeated early late n h = ground arith

judge_leak-verdict :
    (l : ActionLeak) (budget : ℕ) (repeated : Bool)
    → (judge_leak l budget repeated).1 ≡ (
        if budget == 0 || leb l.tokens budget
        then false
        else if repeated
        then true
        else if ltb l.tokens l.next_check
        then false
        else leb (if ltb (4 * budget) l.tokens then 1 else 3) (leak_marker_count l.rep.text))
unfolding judge_leak
judge_leak-verdict l budget repeated = ground arith

judge_leak-true :
    (l : ActionLeak) (budget : ℕ) (repeated : Bool)
    → (judge_leak l budget repeated).1 ≡ true
    → (0 < budget)
      × (budget < l.tokens)
      × ((repeated ≡ true)
          ⊎ (3 ≤ leak_marker_count l.rep.text)
          ⊎ ((4 * budget < l.tokens) × (1 ≤ leak_marker_count l.rep.text)))
unfolding judge_leak
judge_leak-true l budget repeated h =
    let n = leak_marker_count l.rep.text in
    let (a, b) =
      verdict-true (budget == 0 || leb l.tokens budget) repeated (ltb l.tokens l.next_check)
        (ltb (4 * budget) l.tokens) n (sym (judge_leak-verdict l budget repeated) ∙ h) in
    let p : (0 < budget) × (budget < l.tokens) = ground (arith, a) in
    (
      p.0,
      p.1,
      elim b [
        | inl e ↦ inl e
        | inr (inl e) ↦ inr (inl e)
        | inr (inr (e, k)) ↦ inr (inr (ltb→lt (4 * budget) l.tokens e, k))
      ],
    )

-- Content is aborted only past a positive budget of tokens, and only where the window was found
-- to loop, or has three marks of new reasoning, or past four budgets has one.
pub action_leak_feed-true :
    (l : ActionLeak) (budget : ℕ) (s : Bytes)
    → (action_leak_feed l budget s).1 ≡ true
    → (0 < budget)
      × (budget < suc l.tokens)
      × (((feed l.rep s).1 ≡ true)
          ⊎ (3 ≤ leak_marker_count (feed l.rep s).0.text)
          ⊎ ((4 * budget < suc l.tokens) × (1 ≤ leak_marker_count (feed l.rep s).0.text)))
unfolding action_leak_feed
action_leak_feed-true l budget s h =
    judge_leak-true (record l { tokens = suc l.tokens; rep = (feed l.rep s).0 }) budget
      (feed l.rep s).1 h
