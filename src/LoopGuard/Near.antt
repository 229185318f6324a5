-- ===== src/LoopGuard/Near.antt =====
-- `agent_repetition_lines_near` stops early; its verdict is that of a full comparison.
use Prim.Native.Nat.{max, min}
use preon_star.Base.{
  Bytes, [], arith, if◌then◌else◌, leb, length, suc, true, ℕ, ◌+◌, ◌-◌, ◌/◌, ◌==◌, ◌↔◌, ◌∷◌, ◌≡◌,
  ◌≤◌,
}
use preon_star.LoopGuard.{allowed_mismatches, length_gap, lines_near, mismatches}

-- the number of places at which two lines differ, as far as both go
unfoldable pub differences : Bytes → Bytes → ℕ
differences (x ∷ a) (y ∷ b) = (if x == y then 0 else 1) + differences a b
differences _ _ = 0

mismatches-within :
    (allowed m : ℕ) (a b : Bytes)
    → leb (mismatches allowed m a b) allowed ≡ leb (m + differences a b) allowed
unfolding mismatches differences
mismatches-within allowed m (x ∷ a) (y ∷ b) =
    ground (arith, mismatches-within allowed m a b, mismatches-within allowed (suc m) a b)
mismatches-within allowed m [] b = ground arith
mismatches-within allowed m (x ∷ a) [] = ground arith

-- Two lines are near if and only if both have 24 bytes, their lengths are at most 2 apart, and the
-- places at which they differ, with the difference of the lengths, are at most the larger of 2
-- and a twentieth of the shorter length.
pub lines_near_iff :
    (a b : Bytes)
    → (lines_near a b ≡ true) ↔ (
        (24 ≤ length a)
        × (24 ≤ length b)
        × (length a ≤ length b + 2)
        × (length b ≤ length a + 2)
        × (differences a b + (max (length a) (length b) - min (length a) (length b))
            ≤ max 2 (min (length a) (length b) / 20)))
unfolding lines_near
lines_near_iff a b =
    let an = length a in
    let bn = length b in
    ground (arith, mismatches-within (allowed_mismatches an bn) (length_gap an bn) a b)
