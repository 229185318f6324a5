-- ===== src/PromptPrefix.antt =====
-- p36_prompt_prefix.c: the file of fixed turns that stands in front of a prompt.
-- `data + pos` with the bytes left is the list of those bytes, so `pos < len` is "not empty".
-- `error` is a value; a message's line and role are its fields. Pointers are never NULL here.
mod Scanning
pub mod Shape
mod Loop
pub mod Lines
pub mod Parsed
pub mod RoundTrip
pub mod Load
mod Tests
use preon_star.Base.{
  Bool, Bytes, List, Option, [], codes, drop, false, if◌then◌else◌, length, none, not, some,
  starts_with, suc, true, zero, ℕ, ◌%◌, ◌&&◌, ◌++◌, ◌+◌, ◌-◌, ◌/◌, ◌==◌, ◌^◌, ◌||◌, ◌∷◌,
}

pub data Role : Type 0 where
  user assistant : Role

-- `p36_prompt_prefix_turn`
pub record Turn : Type 0 where
  pub role : Role
  pub content : Bytes

-- One constructor for each message of the parser; `fuel` is the model's own, and never returned.
pub data Error : Type 0 where
  empty nul_byte no_turns must_end_assistant too_many no_memory fuel : Error
  bad_start : ℕ → Error
  wrong_role : ℕ → Role → Error
  empty_turn : ℕ → Role → Error

pub data Result {ℓ} (A : Type ℓ) : Type ℓ where
  ok : A → Result A
  err : Error → Result A

infixl 5 ◌>>=◌
abbrev pub ◌>>=◌ {ℓ κ} : {A : Type ℓ} {B : Type κ} → Result A → (A → Result B) → Result B
ok a >>= f = f a
err e >>= f = err e

-- The allocator: whether `realloc` of the turns and `malloc` of the content succeed, by the number
-- of turns that stand already.
pub record Memory : Type 0 where
  pub grow : ℕ → Bool
  pub copy : ℕ → Bool

abbrev pub marker : Role → Bytes
marker user = codes "USER:"
marker assistant = codes "ASSISTANT:"

abbrev pub role_eq : Role → Role → Bool
role_eq user user = true
role_eq assistant assistant = true
role_eq _ _ = false

-- `prefix_marker_at`: the role, and the bytes behind the marker
unfoldable pub marker_at : Bytes → Option (Role × Bytes)
marker_at s =
    if starts_with (marker user) s
    then some (user, drop 5 s)
    else if starts_with (marker assistant) s
    then some (assistant, drop 10 s)
    else none

abbrev pub is_marker : Bytes → Bool
is_marker s = elim (marker_at s) [ none ↦ false | some m ↦ true ]

-- the role that the turn after `count` others has
abbrev pub expected : ℕ → Role
expected count = if count % 2 == 0 then user else assistant

-- one blank behind the marker
abbrev pub skip_blank : Bytes → Bytes
skip_blank [] = []
skip_blank (c ∷ s) = if c == b' ' || c == b'\t' then s else c ∷ s

-- what the loop over `i` finds: `data[content_start .. next)`, the bytes from `next` on, and the
-- newlines that it counts
pub record Scan : Type 0 where
  pub body : Bytes
  pub next : Bytes
  pub newlines : ℕ

unfoldable pub scan : Bytes → Scan
scan [] = record { body = []; next = []; newlines = 0 }
scan (c ∷ s) =
    let r = scan s in
    if c == b'\n' && is_marker s then record { body = c ∷ []; next = s; newlines = 1 } else record {
      body = c ∷ r.body;
      next = r.next;
      newlines = (if c == b'\n' then 1 else 0) + r.newlines;
    }

-- `content_end > content_start && data[content_end - 1] == b`
unfoldable pub ends_in : ℕ → Bytes → Bool
ends_in b [] = false
ends_in b (c ∷ []) = c == b
ends_in b (c ∷ d ∷ s) = ends_in b (d ∷ s)

-- `content_end--`
unfoldable pub drop_last : Bytes → Bytes
drop_last [] = []
drop_last (c ∷ []) = []
drop_last (c ∷ d ∷ s) = c ∷ drop_last (d ∷ s)

-- the newline, and a carriage return in front of it
unfoldable pub strip : Bytes → Bytes
unfolding ends_in drop_last
strip s =
    let t = drop_last s in
    if ends_in b'\n' s then (if ends_in b'\r' t then drop_last t else t) else s

abbrev pub is_nil : Bytes → Bool
is_nil [] = true
is_nil (c ∷ s) = false

-- `SIZE_MAX / sizeof(out->turns[0])`: a role padded to eight bytes, and a pointer
abbrev pub max_turns : ℕ
max_turns = (2 ^ 64 - 1) / 16

-- what one round of the loop adds, the bytes that it leaves and the new `line`
pub record Step : Type 0 where
  pub turn : Turn
  pub rest : Bytes
  pub line : ℕ

abbrev pub has_nul : Bytes → Bool
has_nul [] = false
has_nul (c ∷ s) = c == 0 || has_nul s

-- the byte order mark
unfoldable pub skip_bom : Bytes → Bytes
skip_bom s = if starts_with (0xef ∷ 0xbb ∷ 0xbf ∷ []) s then drop 3 s else s

-- `out->turns[out->count - 1].role`
abbrev pub last_role : Turn → List Turn → Role
last_role t [] = t.role
last_role t (u ∷ ts) = last_role u ts

-- the checks behind the loop
unfoldable pub finish : List Turn → Result (List Turn)
finish [] = err no_turns
finish (t ∷ ts) = if role_eq (last_role t ts) assistant then ok (t ∷ ts) else err must_end_assistant

module _ (m : Memory) where
  -- the round behind the marker
  unfoldable pub turn_of : ℕ → ℕ → Role → Bytes → Result Step
  turn_of line count role s =
      let r = scan (skip_blank s) in
      let text = strip r.body in
      if not (role_eq role (expected count))
      then err (wrong_role line (expected count))
      else if is_nil text
      then err (empty_turn line role)
      else if count == max_turns || not (m.grow count) || not (m.copy count)
      then err (if count == max_turns then too_many else no_memory)
      else ok (record {
        turn = record { role = role; content = text };
        rest = r.next;
        line = line + r.newlines;
      })

  -- the body of the loop
  unfoldable pub turn_at : ℕ → ℕ → Bytes → Result Step
  turn_at line count s = elim (marker_at s) [
    | none ↦ err (bad_start line)
    | some (role, s') ↦ turn_of line count role s'
  ]

  -- `while (pos < len)`
  unfoldable pub turns_from : ℕ → ℕ → List Turn → Bytes → Result (List Turn)
  turns_from zero line out s = err fuel
  turns_from (suc f) line out [] = ok out
  turns_from (suc f) line out (c ∷ s) = do
    step ← turn_at line (length out) (c ∷ s)
    turns_from f step.line (out ++ step.turn ∷ []) step.rest

  -- `p36_prompt_prefix_parse`
  unfoldable pub parse : Bytes → Result (List Turn)
  parse [] = err empty
  parse (c ∷ s) =
      if has_nul (c ∷ s)
      then err nul_byte
      else do turns ← turns_from (length (c ∷ s) + 1) 1 [] (skip_bom (c ∷ s)); finish turns
