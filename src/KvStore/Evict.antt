-- ===== src/KvStore/Evict.antt =====
-- `p36_kvstore_evict`. The score is a nonnegative double; only its order is used, so it is given as
-- a number. `unlink` tells for each entry whether its file can be removed.
pub mod Fits
use mathlib.Core.Bool.{not}
use preon_star.Base.{
  Bool, List, Option, [], drop, if◌then◌else◌, length, ltb, suc, take, zero, ℕ, ◌%◌, ◌&&◌, ◌++◌,
  ◌+◌, ◌-◌, ◌==◌, ◌^◌, ◌||◌, ◌∷◌,
}
use preon_star.KvStore.Header.{Entry}
use preon_star.KvStore.Files.{DirEntry, refresh}
use preon_star.KvStore.Store.{Store}

unfoldable pub sum_sizes : List Entry → ℕ
sum_sizes [] = 0
sum_sizes (e ∷ es) = e.file_size + sum_sizes es

-- `total` of the loop over the entries, a `uint64_t`
unfoldable pub total_size : List Entry → ℕ
unfolding sum_sizes
total_size es = sum_sizes es % 2 ^ 64

module _ (score : Entry → ℕ) where
  -- the entry goes before the victim that was found so far
  abbrev pub goes_before : Entry → Entry → Bool
  goes_before e v = ltb (score e) (score v) || (score e == score v && ltb e.last_used v.last_used)

  -- the loop that looks for the victim; it stands at entry `i`, and the victim so far is `v`
  unfoldable pub victim_from : ℕ → ℕ → Entry → List Entry → ℕ × Entry
  victim_from i n v [] = (n, v)
  victim_from i n v (e ∷ es) =
      let b = goes_before e v in victim_from (suc i) (if b then i else n) (if b then e else v) es

  -- the loop of `p36_kvstore_evict`: the entries that are removed, in their order, and the rest
  unfoldable pub evict_loop : (Entry → Bool) → ℕ → ℕ → ℕ → List Entry → List Entry × List Entry
  unfolding victim_from
  evict_loop unlink zero target total es = ([], es)
  evict_loop unlink (suc f) target total [] = ([], [])
  evict_loop unlink (suc f) target total (e0 ∷ es) =
      let (n, v) = victim_from 1 0 e0 es in
      let left = if unlink v then total - v.file_size else 0 in
      let (out, kept) =
        evict_loop unlink f target left (take n (e0 ∷ es) ++ drop (suc n) (e0 ∷ es)) in
      if ltb target total then (v ∷ out, kept) else ([], e0 ∷ es)

  -- the loop with its `total` and `target`, from the store that was read again
  unfoldable pub evict_from : (Entry → Bool) → ℕ → Store → Store × List Entry
  unfolding evict_loop total_size
  evict_from unlink extra kc =
      let (out, kept) =
        evict_loop unlink (length kc.entries) (kc.budget_bytes - extra) (total_size kc.entries)
          kc.entries in
      (record kc { entries = kept }, out)

  -- `p36_kvstore_evict`: the store afterwards, and the entries whose files it tried to remove
  unfoldable pub evict : (Entry → Bool) → Store → Option (List DirEntry) → ℕ → Store × List Entry
  unfolding evict_from refresh
  evict unlink kc listing extra =
      if not kc.enabled || kc.budget_bytes == 0 || ltb kc.budget_bytes extra
      then (kc, [])
      else evict_from unlink extra (refresh kc listing)
