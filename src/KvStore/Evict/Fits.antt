-- ===== src/KvStore/Evict/Fits.antt =====
-- The evictions: each takes a checkpoint that no other goes before, and they stop where the rest fits.
use mathlib.Core.Bool.{not}
use preon_star.Base.{
  All, Bool, Bool-cases, List, [], ap, arith, drop, false, get_elem?, if_intro, if◌then◌else◌, inl,
  inr, length, ltb, ltb-false→le, ltb→lt, refl, some, suc, take, true, zero, ℕ, ◌++◌, ◌+◌, ◌-◌, ◌<◌,
  ◌==◌, ◌^◌, ◌||◌, ◌∙◌, ◌∷◌, ◌≡◌, ◌≤◌,
}
use preon_star.KvStore.Evict.{
  evict, evict_from, evict_loop, goes_before, sum_sizes, total_size, victim_from,
}
use preon_star.KvStore.Header.{Entry}
use preon_star.KvStore.Files.{DirEntry, entries_of, refresh}
use preon_star.KvStore.Store.{Store}

drop-get :
    (i : ℕ) (e : Entry) (es all : List Entry) → drop i all ≡ e ∷ es → get_elem? all i ≡ some e
drop-get zero e es [] d = cc d
drop-get zero e es (x ∷ all) d = cc d
drop-get (suc i) e es [] d = cc d
drop-get (suc i) e es (x ∷ all) d = drop-get i e es all d

drop-next : (i : ℕ) (e : Entry) (es all : List Entry) → drop i all ≡ e ∷ es → drop (suc i) all ≡ es
drop-next zero e es [] d = cc d
drop-next zero e es (x ∷ all) d = cc d
drop-next (suc i) e es [] d = cc d
drop-next (suc i) e es (x ∷ all) d = drop-next i e es all d

picked :
    (b : Bool) (all : List Entry) (i n : ℕ) (e v : Entry)
    → get_elem? all i ≡ some e
    → get_elem? all n ≡ some v
    → get_elem? all (if b then i else n) ≡ some (if b then e else v)
picked true all i n e v he hv = he
picked false all i n e v he hv = hv

module _ (score : Entry → ℕ) where
  -- the victim is at its index
  victim_from-at :
      (es : List Entry) (i n : ℕ) (v : Entry) (all : List Entry)
      → get_elem? all n ≡ some v
      → drop i all ≡ es
      → let r = victim_from score i n v es in get_elem? all r.0 ≡ some r.1
  unfolding victim_from
  victim_from-at [] i n v all h d = h
  victim_from-at (e ∷ es) i n v all h d =
      let b = goes_before score e v in
      victim_from-at es (suc i) (if b then i else n) (if b then e else v) all
        (picked b all i n e v (drop-get i e es all d) h) (drop-next i e es all d)

  -- nothing in the list goes before the victim
  abbrev pub IsVictim : Entry → List Entry → Type 0
  IsVictim v = All (λ e. goes_before score e v ≡ false)

  chosen :
      (e v r : Entry)
      → goes_before score (if goes_before score e v then e else v) r ≡ false
      → (goes_before score v r ≡ false) × (goes_before score e r ≡ false)
  chosen e v r h = elim (Bool-cases (goes_before score e v)) [
    | inl b ↦ let k : goes_before score e r ≡ false = rw b at h in ground (arith, k, b)
    | inr b ↦ let k : goes_before score v r ≡ false = rw b at h in ground (arith, k, b)
  ]

  victim_from-IsVictim :
      (es : List Entry) (i n : ℕ) (v : Entry)
      → let r = (victim_from score i n v es).1 in (goes_before score v r ≡ false) × IsVictim r es
  unfolding victim_from
  victim_from-IsVictim [] i n v = (ground arith, tt)
  victim_from-IsVictim (e ∷ es) i n v =
      let b = goes_before score e v in
      let w = if b then e else v in
      let (first, rest) = victim_from-IsVictim es (suc i) (if b then i else n) w in
      let (x, y) = chosen e v (victim_from score (suc i) (if b then i else n) w es).1 first in
      (x, (y, rest))

abbrev pub without : ℕ → List Entry → List Entry
without n es = take n es ++ drop (suc n) es

sum_sizes-without :
    (n : ℕ) (es : List Entry) (v : Entry)
    → get_elem? es n ≡ some v
    → (sum_sizes (without n es) + v.file_size ≡ sum_sizes es)
      × (suc (length (without n es)) ≡ length es)
unfolding sum_sizes
sum_sizes-without n [] v h = cc h
sum_sizes-without zero (e ∷ es) v h =
    let q : e ≡ v = cc h in (omega (arith, ap (λ (x : Entry). x.file_size) q), refl)
sum_sizes-without (suc n) (e ∷ es) v h =
    let (a, b) = sum_sizes-without n es v h in (omega (arith, a), omega (arith, b))

branch :
    (b : Bool) (x y : List Entry × List Entry) (P : List Entry × List Entry → Type 0)
    → (b ≡ true → P x)
    → (b ≡ false → P y)
    → P (if b then x else y)
branch true x y P t f = t refl
branch false x y P t f = f refl

-- What a run of evictions is: an entry that no other goes before is taken while the files are larger
-- than the target, and at the end they are not.
abbrev pub Evicts : (Entry → ℕ) → ℕ → List Entry → List Entry → List Entry → Type 0
Evicts score target es [] kept = (kept ≡ es) × (sum_sizes es ≤ target)
Evicts score target es (v ∷ out) kept =
    (target < sum_sizes es)
    × IsVictim score v es
    × ((n : ℕ) × (get_elem? es n ≡ some v) × Evicts score target (without n es) out kept)

taken :
    (target total : ℕ) (es : List Entry)
    → total ≡ sum_sizes es
    → ltb target total ≡ true
    → target < sum_sizes es
taken target total es t b = omega (arith, t, ltb→lt target total b)

settled :
    (target total : ℕ) (es : List Entry)
    → total ≡ sum_sizes es
    → ltb target total ≡ false
    → sum_sizes es ≤ target
settled target total es t b = omega (arith, t, ltb-false→le target total b)

evict_loop-Evicts :
    (score : Entry → ℕ) (unlink : Entry → Bool) (f target total : ℕ) (es : List Entry)
    → ((e : Entry) → unlink e ≡ true)
    → total ≡ sum_sizes es
    → length es ≤ f
    → let r = evict_loop score unlink f target total es in
      Evicts score target es r.0 r.1 × (sum_sizes r.1 ≤ target)
unfolding evict_loop sum_sizes
evict_loop-Evicts score unlink zero target total [] ok t h = ((refl, omega arith), omega arith)
evict_loop-Evicts score unlink zero target total (e ∷ es) ok t h = absurd (omega arith)
evict_loop-Evicts score unlink (suc f) target total [] ok t h = ((refl, omega arith), omega arith)
evict_loop-Evicts score unlink (suc f) target total (e0 ∷ es) ok t h =
    let r = victim_from score 1 0 e0 es in
    let n = r.0 in
    let v = r.1 in
    let at : get_elem? (e0 ∷ es) n ≡ some v = victim_from-at score es 1 0 e0 (e0 ∷ es) refl refl in
    let (sum, len) = sum_sizes-without n (e0 ∷ es) v at in
    let left = if unlink v then total - v.file_size else 0 in
    let left_sum : left ≡ sum_sizes (without n (e0 ∷ es)) =
      ap (λ b. if b then total - v.file_size else 0) (ok v) ∙ omega (arith, t, sum) in
    let ih =
      evict_loop-Evicts score unlink f target left (without n (e0 ∷ es)) ok left_sum
        (omega (arith, h, len)) in
    branch (ltb target total)
      (
        v ∷ (evict_loop score unlink f target left (without n (e0 ∷ es))).0,
        (evict_loop score unlink f target left (without n (e0 ∷ es))).1,
      )
      ([], e0 ∷ es) (λ w. Evicts score target (e0 ∷ es) w.0 w.1 × (sum_sizes w.1 ≤ target))
      (λ b. (
        (taken target total (e0 ∷ es) t b, victim_from-IsVictim score es 1 0 e0, (n, at, ih.0)),
        ih.1,
      ))
      (λ b. ((refl, settled target total (e0 ∷ es) t b), settled target total (e0 ∷ es) t b))

-- From an enabled store with a budget that the incoming bytes fit, where every file can be removed
-- and the sizes do not wrap: the checkpoints of the directory are evicted one by one, each one that
-- no other goes before, while they and the incoming bytes exceed the budget; and at the end they fit.
pub evict-Evicts :
    (score : Entry → ℕ) (unlink : Entry → Bool) (kc : Store) (files : List DirEntry) (extra : ℕ)
    → ((e : Entry) → unlink e ≡ true)
    → kc.enabled ≡ true
    → 0 < kc.budget_bytes
    → extra ≤ kc.budget_bytes
    → sum_sizes (entries_of kc.dir files) < 2 ^ 64
    → let r = evict score unlink kc (some files) extra in
      Evicts score (kc.budget_bytes - extra) (entries_of kc.dir files) r.1 r.0.entries
      × (sum_sizes r.0.entries + extra ≤ kc.budget_bytes)
evict-Evicts score unlink kc files extra ok on some_budget fits room =
    let es = entries_of kc.dir files in
    let guard : (not kc.enabled || kc.budget_bytes == 0 || ltb kc.budget_bytes extra) ≡ false =
      rw on (ground (arith, some_budget, fits)) in
    let fresh : refresh kc (some files) ≡ record kc { entries = es } =
      unfold refresh in rw on refl in
    let opened : evict score unlink kc (some files) extra
        ≡ evict_from score unlink extra (record kc { entries = es }) =
      unfold evict in
      ap (λ b. if b then (kc, []) else evict_from score unlink extra (refresh kc (some files)))
        guard
      ∙ ap (evict_from score unlink extra) fresh in
    let total : total_size es ≡ sum_sizes es = unfold total_size in omega (arith, room) in
    let r =
      evict_loop-Evicts score unlink (length es) (kc.budget_bytes - extra) (total_size es) es ok
        total (omega arith) in
    rw opened (unfold evict_from in (r.0, omega (arith, r.1, fits)))

-- an eviction changes the entries alone
pub evict-keeps :
    (score : Entry → ℕ) (unlink : Entry → Bool) (kc : Store) (files : List DirEntry) (extra : ℕ)
    → let r = evict score unlink kc (some files) extra in r.0 ≡ record kc { entries = r.0.entries }
unfolding evict evict_from refresh
evict-keeps score unlink kc files extra =
    if_intro (λ (r : Store × List Entry). r.0 ≡ record kc { entries = r.0.entries })
      (not kc.enabled || kc.budget_bytes == 0 || ltb kc.budget_bytes extra) refl
      (if_intro
        (λ (s : Store).
          (evict_from score unlink extra s).0
          ≡ record kc { entries = (evict_from score unlink extra s).0.entries })
        (not kc.enabled) refl refl)
