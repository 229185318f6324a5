-- ===== src/KvStore/Open.antt =====
-- Opening and closing the store, and small operations on texts and tokens.
use mathlib.Core.Bool.{not}
use Prim.Native.Nat.{bit_and}
use preon_star.Base.{
  Bool, Bytes, List, Option, [], ap, arith, bytes_eq, codes, false, if◌then◌else◌, leb, length,
  none, not, refl, some, subst, take, true, ℕ, ◌%◌, ◌&&◌, ◌*◌, ◌++◌, ◌<◌, ◌==◌, ◌^◌, ◌∙◌, ◌∷◌, ◌≡◌,
  ◌≤◌,
}
use preon_star.KvStore.Header.{Entry}
use preon_star.KvStore.Files.{DirEntry, entries_of}
use preon_star.KvStore.Evict.{evict, sum_sizes}
use preon_star.KvStore.Store.{Options, Store}
use preon_star.KvStore.Evict.Fits.{Evicts, evict-Evicts, evict-keeps}

-- `p36_kvstore_key_kind`
unfoldable pub key_kind : ℕ → Bytes
key_kind ext_flags =
    if not (bit_and ext_flags 2 == 0)
    then codes "responses-visible"
    else if not (bit_and ext_flags 4 == 0)
    then codes "thinking-visible"
    else codes "token-text"

-- the loop of `kv_mkdir_p` behind the bytes `front`; `mkdir` tells whether the directory was made
-- or stood already
unfoldable pub mkdir_from : (Bytes → Bool) → Bytes → Bytes → Bool
mkdir_from mkdir front [] = mkdir front
mkdir_from mkdir front (c ∷ s) =
    let rest = mkdir_from mkdir (front ++ c ∷ []) s in
    if c == b'/' then mkdir front && rest else rest

-- `kv_mkdir_p`
unfoldable pub mkdir_p : (Bytes → Bool) → Bytes → Bool
unfolding mkdir_from
mkdir_p mkdir [] = false
mkdir_p mkdir (c ∷ s) = mkdir_from mkdir (c ∷ []) s

-- `p36_kvstore_clear`
unfoldable pub clear : Store → Store
clear kc = record kc { entries = [] }

-- `memset(kc, 0, sizeof(*kc))`
abbrev pub zero_store : Store
zero_store = record {
  enabled = false;
  dir = [];
  budget_bytes = 0;
  reject_different_quant = false;
  opt = record {
    min_tokens = 0;
    cold_max_tokens = 0;
    continued_interval_tokens = 0;
    boundary_trim_tokens = 0;
    boundary_align_tokens = 0;
  };
  continued_last_store_tokens = 0;
  entries = [];
}

-- `p36_kvstore_close`
unfoldable pub close : Store → Store
close kc = zero_store

-- the store as it is before the first eviction
abbrev pub opened_store : Bytes → ℕ → Bool → Options → Store
opened_store dir budget_mb reject opt = record zero_store {
  enabled = true;
  dir = dir;
  budget_bytes = (if budget_mb == 0 then 4096 else budget_mb) * 1024 * 1024 % 2 ^ 64;
  reject_different_quant = reject;
  opt = opt;
}

-- `p36_kvstore_open`: the result, the store, and the entries that are evicted at once
unfoldable pub open_store :
    (Entry → ℕ)
    → (Entry → Bool)
    → (Bytes → Bool)
    → Option Bytes
    → ℕ
    → Bool
    → Options
    → Option (List DirEntry)
    → Bool × (Store × List Entry)
unfolding evict mkdir_p
open_store score unlink mkdir none budget_mb reject opt listing = (false, (zero_store, []))
open_store score unlink mkdir (some dir) budget_mb reject opt listing =
    if mkdir_p mkdir dir
    then (true, evict score unlink (opened_store dir budget_mb reject opt) listing 0)
    else (false, (zero_store, []))

-- `p36_kvstore_byte_prefix_match`
unfoldable pub byte_prefix_match : Bytes → Bytes → Bool
byte_prefix_match text prefix =
    leb (length prefix) (length text) && bytes_eq (take (length prefix) text) prefix

-- `p36_kvstore_tokens_copy_prefix`; a negative `n` copies nothing, as 0 does
unfoldable pub tokens_copy_prefix : List ℕ → ℕ → List ℕ
tokens_copy_prefix src n = take n src

-- A store that is opened in a directory that can be made, where every file can be removed and the
-- sizes do not wrap, with a budget that does not wrap, is enabled, stands in the directory, and has
-- the budget, which is 4 GiB where none is given, the options and no continued checkpoint; its
-- entries are those of the directory's files less those that were evicted one by one, each one that
-- no other goes before, while they exceeded the budget; and what is left fits it.
pub open_store-fits :
    (score : Entry → ℕ) (unlink : Entry → Bool) (mkdir : Bytes → Bool) (dir : Bytes) (budget_mb : ℕ)
    (reject : Bool) (opt : Options) (files : List DirEntry)
    → ((e : Entry) → unlink e ≡ true)
    → mkdir_p mkdir dir ≡ true
    → budget_mb < 2 ^ 44
    → sum_sizes (entries_of dir files) < 2 ^ 64
    → let budget = (if budget_mb == 0 then 4096 else budget_mb) * 2 ^ 20 in
      let r = open_store score unlink mkdir (some dir) budget_mb reject opt (some files) in
      (r.0 ≡ true)
      × (r.1.0 ≡ record {
        enabled = true;
        dir = dir;
        budget_bytes = budget;
        reject_different_quant = reject;
        opt = opt;
        continued_last_store_tokens = 0;
        entries = r.1.0.entries;
      })
      × Evicts score budget (entries_of dir files) r.1.1 r.1.0.entries
      × (sum_sizes r.1.0.entries ≤ budget)
open_store-fits score unlink mkdir dir budget_mb reject opt files ok made small room =
    let kc = opened_store dir budget_mb reject opt in
    let bytes : kc.budget_bytes ≡ (if budget_mb == 0 then 4096 else budget_mb) * 2 ^ 20 =
      ground (arith, small) in
    let some_bytes : 0 < kc.budget_bytes = ground (arith, small) in
    let evicted = evict score unlink kc (some files) 0 in
    let (one_by_one, fits) =
      evict-Evicts score unlink kc files 0 ok refl some_bytes (omega arith) room in
    let opened : open_store score unlink mkdir (some dir) budget_mb reject opt (some files)
        ≡ (true, evicted) =
      unfold open_store in
      ap (λ b. if b then (true, evicted) else (false, (zero_store, []))) made in
    rw opened (
      refl,
      evict-keeps score unlink kc files 0
          ∙ ap (λ (b : ℕ). record kc { budget_bytes = b; entries = evicted.0.entries }) bytes,
      subst (λ (b : ℕ). Evicts score b (entries_of dir files) evicted.1 evicted.0.entries)
          (omega (arith, bytes)) one_by_one,
      omega (arith, fits, bytes),
    )
