-- ===== src/KvStore/Hit.antt =====
-- `p36_kvstore_try_load_text` as a whole: the search, the file's tests, and what a hit leaves.
-- `open_file` gives a file's bytes by its path. A result through a pointer is a field of the
-- outcome.
pub mod Loads
use mathlib.Core.Bool.{not}
use preon_star.Base.{Bytes, List, Option, [], if◌then◌else◌, none, not, some, ℕ, ◌||◌}
use preon_star.KvStore.Header.{Entry, quant_bits_valid}
use preon_star.KvStore.Files.{DirEntry, touch_file}
use preon_star.KvStore.Find.{Query, find_text_prefix}
use preon_star.KvStore.Load.{
  Loaded, load_failed, load_file, loaded, payload_discarded, payload_failed,
}
use preon_star.KvStore.Store.{Store}

-- what becomes of the checkpoint file
pub data FileChange : Type 0 where
  unchanged : FileChange
  removed : FileChange
  touched : Option Bytes → FileChange

-- the store, the tokens that are loaded, `effective_prompt`, and the file
pub record Hit : Type 0 where
  pub store : Store
  pub tokens : ℕ
  pub effective_prompt : List ℕ
  pub file : FileChange

abbrev pub miss : Store → FileChange → Hit
miss kc change = record { store = kc; tokens = 0; effective_prompt = []; file = change }

-- what follows the payload; `now` is the time
unfoldable pub settle_hit : Store → ℕ → Bytes → Loaded → Hit
settle_hit kc now file (load_failed why) = miss kc unchanged
settle_hit kc now file payload_failed = miss kc unchanged
settle_hit kc now file payload_discarded = miss kc removed
settle_hit kc now file (loaded tokens prompt hdr text hits) = record {
  store = record kc { continued_last_store_tokens = hdr.tokens };
  tokens = hdr.tokens;
  effective_prompt = prompt;
  file = touched (touch_file now hits file);
}

module _ (load_payload : Bytes → ℕ → Option (List ℕ)) (tokenize : Bytes → List ℕ)
    (open_file : Bytes → Option Bytes) where
  unfoldable pub load_opened : Store → Query → ℕ → Entry → Option Bytes → Hit
  unfolding load_file settle_hit
  load_opened kc q now e none = miss kc unchanged
  load_opened kc q now e (some file) =
      settle_hit kc now file (load_file load_payload tokenize q e.sha file)

  unfoldable pub load_found : Store → Query → ℕ → Option Entry → Hit
  unfolding load_opened
  load_found kc q now none = miss kc unchanged
  load_found kc q now (some e) = load_opened kc q now e (open_file e.path)

  -- `p36_kvstore_try_load_text`
  unfoldable pub try_load_text : Store → Option (List DirEntry) → Query → ℕ → Hit
  unfolding load_found find_text_prefix quant_bits_valid
  try_load_text kc listing q now =
      let (fresh, best) = find_text_prefix kc listing q in
      if not kc.enabled || not (quant_bits_valid q.quant_bits)
      then miss kc unchanged
      else load_found fresh q now best
