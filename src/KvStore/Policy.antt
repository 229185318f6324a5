-- ===== src/KvStore/Policy.antt =====
-- When a checkpoint is written, and of how many tokens.
use preon_star.Base.{arith, true, ℕ, ◌%◌, ◌*◌, ◌+◌, ◌-◌, ◌/◌, ◌<◌, ◌≡◌, ◌≢◌, ◌≤◌, ◌⊎◌}
use preon_star.KvStore.Store.{
  Options, Store, continued_step, continued_store_target, note_store, restore_suppressed_continued,
  store_len, suppress_continued_store,
}

mod-lt_pos : (a n : ℕ) → 0 < n → a % n < n
mod-lt_pos a n h = grind arith

sub-mod-mod : (a n : ℕ) → 0 < n → (a - a % n) % n ≡ 0
sub-mod-mod a n h = grind arith

-- The checkpoint has all the tokens; or it has at least the minimum, ends on the alignment, and
-- leaves out the trimmed tail and less than one alignment more.
pub store_len-cases :
    (o : Options) (tokens : ℕ)
    → (store_len o tokens ≡ tokens)
      ⊎ ((o.min_tokens ≤ store_len o tokens)
          × ((o.boundary_align_tokens ≡ 0) ⊎ (store_len o tokens % o.boundary_align_tokens ≡ 0))
          × (store_len o tokens + o.boundary_trim_tokens ≤ tokens)
          × (tokens < store_len o tokens + o.boundary_trim_tokens + o.boundary_align_tokens + 1))
unfolding store_len
store_len-cases o tokens =
    let cut = tokens - o.boundary_trim_tokens in
    ground (arith, mod-lt_pos cut o.boundary_align_tokens, sub-mod-mod cut o.boundary_align_tokens)

continued_step-note_store :
    (kc : Store) (live : ℕ) → continued_step (note_store kc live) ≡ continued_step kc
unfolding continued_step note_store
continued_step-note_store kc live = ground arith

-- A checkpoint that is due is due at the live count itself, on a multiple of the step, at or above
-- the minimum and above the last one; and once it is noted it is due no more.
pub continued_store_target-once :
    (kc : Store) (live : ℕ)
    → continued_store_target kc live ≢ 0
    → (continued_store_target kc live ≡ live)
      × (live % continued_step kc ≡ 0)
      × (kc.opt.min_tokens ≤ live)
      × (kc.continued_last_store_tokens < live)
      × (continued_store_target (note_store kc live) live ≡ 0)
unfolding continued_store_target note_store
continued_store_target-once kc live h =
    let same = continued_step-note_store kc live in ground (arith, same)

round_up :
    (s a : ℕ)
    → 0 < a
    → (s ≤ (s + a - 1) / a * a) × ((s + a - 1) / a * a < s + a) × ((s + a - 1) / a * a % a ≡ 0)
round_up s a h = (grind arith, grind arith, grind arith)

-- The step is the interval, rounded up to the alignment.
pub continued_step-aligned :
    (kc : Store)
    → kc.enabled ≡ true
    → 0 < kc.opt.continued_interval_tokens
    → 0 < kc.opt.boundary_align_tokens
    → (kc.opt.continued_interval_tokens ≤ continued_step kc)
      × (continued_step kc < kc.opt.continued_interval_tokens + kc.opt.boundary_align_tokens)
      × (continued_step kc % kc.opt.boundary_align_tokens ≡ 0)
unfolding continued_step
continued_step-aligned kc on hi ha =
    ground (arith, round_up kc.opt.continued_interval_tokens kc.opt.boundary_align_tokens ha)

-- Restoring undoes a suppression, whether or not there was something to suppress.
pub restore-suppress :
    (kc : Store) (tokens : ℕ)
    → let (old, kc') = suppress_continued_store kc tokens in
      restore_suppressed_continued kc' old tokens ≡ kc
unfolding suppress_continued_store restore_suppressed_continued
restore-suppress kc tokens = ground arith
