-- ===== src/KvStore/Find.antt =====
-- The search for the checkpoint that stands for the longest prefix of a prompt, and the test of a
-- file that a store would write again. An entry stands for its index.
pub mod Folding
pub mod Longest
use mathlib.Core.Bool.{not}
use preon_star.Base.{
  Bool, Bytes, List, Option, [], bytes_eq, false, if◌then◌else◌, leb, length, ltb, none, some, take,
  true, ℕ, ◌%◌, ◌&&◌, ◌-◌, ◌==◌, ◌^◌, ◌||◌, ◌∷◌,
}
use preon_star.KvStore.Header.{Entry, read_header}
use preon_star.KvStore.Files.{DirEntry, read_entry_file, refresh}
use preon_star.KvStore.Sha1.{sha1_bytes_hex}
use preon_star.KvStore.Store.{Store}

-- the prompt, and what the engine and the session are
pub record Query : Type 0 where
  pub prompt : Bytes
  pub model_id : ℕ
  pub quant_bits : ℕ
  pub ctx_size : ℕ

-- the guards of the loop of `p36_kvstore_find_text_prefix` that do not look at the best entry; a
-- count of tokens from 2^31 on is a negative `int`
unfoldable pub eligible : Store → Query → Entry → Bool
eligible kc q e =
    leb e.text_bytes (length q.prompt)
    && ltb e.tokens (2 ^ 31)
    && leb kc.opt.min_tokens e.tokens
    && e.model_id == q.model_id % 256
    && leb e.ctx_size q.ctx_size
    && (not kc.reject_different_quant || e.quant_bits == q.quant_bits % 256)

-- the entry is longer than the best one, or as long with more tokens
unfoldable pub beats : Entry → Option Entry → Bool
beats e none = true
beats e (some b) =
    ltb b.text_bytes e.text_bytes || (e.text_bytes == b.text_bytes && ltb b.tokens e.tokens)

-- the name is the hash of the prompt's first bytes
unfoldable pub names_prefix : Query → Entry → Bool
unfolding sha1_bytes_hex bytes_eq
names_prefix q e = bytes_eq (sha1_bytes_hex (take e.text_bytes q.prompt)) e.sha

unfoldable pub find_from : Store → Query → Option Entry → List Entry → Option Entry
unfolding eligible beats names_prefix
find_from kc q best [] = best
find_from kc q best (e ∷ es) =
    find_from kc q (if eligible kc q e && beats e best && names_prefix q e then some e else best) es

-- `p36_kvstore_find_text_prefix`: the store that was read again, and the best entry
unfoldable pub find_text_prefix : Store → Option (List DirEntry) → Query → Store × Option Entry
unfolding refresh find_from
find_text_prefix kc listing q =
    let fresh = refresh kc listing in (fresh, find_from fresh q none fresh.entries)

-- what is read behind the header of a file that may hold the text
unfoldable pub stored_text_is : Bytes → Bytes → Option (Entry × Bytes) → Bool
unfolding sha1_bytes_hex bytes_eq
stored_text_is sha text none = false
stored_text_is sha text (some (hdr, rest)) =
    hdr.text_bytes == length text
    && leb (length text) (length rest)
    && bytes_eq (sha1_bytes_hex (take (length text) rest)) sha
    && bytes_eq (take (length text) rest) text

-- `kv_cache_file_text_matches`
unfoldable pub file_text_matches : Bytes → Bytes → Bytes → Bool
unfolding read_header stored_text_is
file_text_matches sha text file =
    if ltb (2 ^ 32 - 1) (length text) then false else stored_text_is sha text (read_header file)

-- the entry's part of `kv_cache_existing_compatible`
unfoldable pub entry_compatible : Store → Query → Entry → Bool
entry_compatible kc q e =
    e.model_id == q.model_id % 256
    && (not kc.reject_different_quant || e.quant_bits == q.quant_bits % 256)
    && leb e.ctx_size q.ctx_size

-- what `kv_cache_existing_compatible` finds: the file stays, or goes, or is none of the store's
pub data Existing : Type 0 where
  absent : Existing
  kept : Existing
  unlinked : Existing

unfoldable pub judge_existing : Store → Query → Bytes → Bytes → Option Entry → Existing
unfolding entry_compatible file_text_matches
judge_existing kc q sha file none = absent
judge_existing kc q sha file (some e) =
    if entry_compatible kc q e && file_text_matches sha q.prompt file then kept else unlinked

-- `kv_cache_existing_compatible`, for the text that is stored as the query's prompt
unfoldable pub existing_compatible : Store → Query → Bytes → Bytes → Option Bytes → Existing
unfolding judge_existing read_entry_file
existing_compatible kc q path sha none = absent
existing_compatible kc q path sha (some file) =
    judge_existing kc q sha file (read_entry_file path sha file)
