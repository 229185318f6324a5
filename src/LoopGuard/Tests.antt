-- ===== src/LoopGuard/Tests.antt =====
-- Runs of the loop guard, and the theorems at concrete texts.
use Prim.Native.Nat.{max, min}
use preon_star.Base.{
  Bytes, [], arith, codes, length, refl, starts_with, true, ℕ, ◌*◌, ◌++◌, ◌+◌, ◌-◌, ◌/◌, ◌<◌, ◌↔◌,
  ◌∷◌, ◌≡◌, ◌≤◌, ◌⊎◌,
}
use preon_star.LoopGuard.{
  distinct, line_length, line_run, line_step, lines_near, lines_repeat, mismatches, newline_length,
  period_repeats, same_from, seen_in, skip_space, some_period, split_from, split_lines,
  text_detected, trim_line, trim_lines,
}
use preon_star.LoopGuard.Near.{differences, lines_near_iff}
use preon_star.LoopGuard.Period.{RepeatsBy, text_detected_iff}
use preon_star.LoopGuard.Window.{
  concat, empty_detector, feed, feed_all, feed_all-text, has_line_end, last_bytes,
}
use preon_star.LoopGuard.Leak.{
  ActionLeak, action_leak_feed, action_leak_feed-true, any_prefix, count_from, judge_leak,
  leak_marker_at, leak_marker_count,
}

abbrev line_a : Bytes
line_a = codes "checking file number 10 now"

abbrev line_b : Bytes
line_b = codes "checking file number 11 now"

near_lines : lines_near line_a line_b ≡ true
unfolding lines_near mismatches
near_lines = refl

abbrev twice : Bytes → Bytes
twice s = s ++ s

abbrev block : Bytes
block = codes "abcdefgh01234567abcdefgh01234567"

abbrev looping : Bytes
looping = twice (twice (twice block))

looping-detected : text_detected looping ≡ true
unfolding text_detected lines_repeat split_lines split_from line_length newline_length trim_lines
    trim_line skip_space line_run line_step some_period period_repeats same_from distinct seen_in
looping-detected = refl

marks : leak_marker_count (codes "Wait. Actually no.\n- Hmm") ≡ 3
unfolding leak_marker_count count_from leak_marker_at any_prefix starts_with
marks = refl

abbrev quiet : ActionLeak
quiet = record { tokens = 500; next_check = 0; rep = empty_detector }

leaking : (action_leak_feed quiet 100 (codes "Wait, so\n")).1 ≡ true
unfolding action_leak_feed judge_leak feed has_line_end text_detected leak_marker_count count_from
    leak_marker_at any_prefix starts_with
leaking = refl

lines_near_iff_example : (lines_near line_a line_b ≡ true) ↔ (
    (24 ≤ length line_a)
    × (24 ≤ length line_b)
    × (length line_a ≤ length line_b + 2)
    × (length line_b ≤ length line_a + 2)
    × (differences line_a line_b
          + (max (length line_a) (length line_b) - min (length line_a) (length line_b))
        ≤ max 2 (min (length line_a) (length line_b) / 20)))
lines_near_iff_example = lines_near_iff line_a line_b

text_detected_iff_example : (text_detected looping ≡ true) ↔ (
    (128 ≤ length looping)
    × ((lines_repeat looping ≡ true) ⊎ ((p : ℕ) × (p ≤ 256) × RepeatsBy looping p)))
text_detected_iff_example = text_detected_iff looping

feed_all-text_example :
    (feed_all empty_detector (line_a ∷ line_b ∷ [])).text
    ≡ last_bytes ([] ++ concat (line_a ∷ line_b ∷ []))
feed_all-text_example = feed_all-text (line_a ∷ line_b ∷ []) empty_detector (omega arith)

action_leak_feed-true_example :
    (0 < 100)
    × (100 < 501)
    × (((feed empty_detector (codes "Wait, so\n")).1 ≡ true)
        ⊎ (3 ≤ leak_marker_count (feed empty_detector (codes "Wait, so\n")).0.text)
        ⊎ ((4 * 100 < 501)
            × (1 ≤ leak_marker_count (feed empty_detector (codes "Wait, so\n")).0.text)))
action_leak_feed-true_example = action_leak_feed-true quiet 100 (codes "Wait, so\n") leaking
