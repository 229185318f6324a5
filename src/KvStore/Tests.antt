-- ===== src/KvStore/Tests.antt =====
-- Runs of the checkpoint store, and the theorems at concrete values.
use preon_star.Base.{
  All, Bytes, List, Option, [], arith, bytes_eq, codes, false, length, none, refl, replicate, some,
  starts_with, subst, true, ℕ, ◌*◌, ◌++◌, ◌+◌, ◌-◌, ◌<◌, ◌^◌, ◌∷◌, ◌≡◌, ◌≢◌, ◌≤◌, ◌⊎◌,
}
use preon_star.KvStore.Word.{le_get32, le_get64, le_put32, le_put64}
use preon_star.KvStore.Header.{
  Entry, IsStorable, decode, file_of, fill_header, header_accepted, quant_bits_valid, read_header,
  read_header-fill_header, read_parts, stored,
}
use preon_star.KvStore.Sizes.{budget_fit, file_size_fits}
use preon_star.KvStore.Store.{Store, default_options}
use preon_star.KvStore.Names.{
  IsByte, ends_in_slash, file_name, hex, lower_hex, path_join, sha_hex_name,
}
use preon_star.KvStore.Sha1.{
  be_put, be_words, extend, fill, final, init, pad, rol32, rounds, sha1, sha1_bytes_hex, transform,
  update, used,
}
use preon_star.KvStore.Sha1.Absorb.{update-append}
use preon_star.KvStore.Files.{
  DirEntry, entries_of, entry_at, entry_of, is_complete, read_entry_file,
}
use preon_star.KvStore.Evict.{evict, sum_sizes}
use preon_star.KvStore.Evict.Fits.{Evicts, evict-Evicts}
use preon_star.KvStore.Find.{Query, existing_compatible, find_text_prefix, kept}
use preon_star.KvStore.Find.Longest.{IsTop, MayLoad, find_text_prefix-IsTop}
use preon_star.KvStore.Find.Folding.{IsIn}
use preon_star.KvStore.Load.{check_file, load_file, loaded, serves}
use preon_star.KvStore.Load.Serves.{Serves, check_file-Serves, check_file-file_of}
use preon_star.KvStore.Write.{
  Calls, Request, existing_file, file_named, live_is, store_live_prefix_text, store_text,
  store_tokens, tmp_name, write_file, write_new, write_or_rewrite,
}
use preon_star.KvStore.Buffer.{Buf}
use preon_star.KvStore.Open.{mkdir_from, mkdir_p, open_store, open_store-fits, tokens_copy_prefix}
use preon_star.KvStore.Hit.{try_load_text}
use preon_star.KvStore.Hit.Loads.{Fails, IsHit, try_load_text-IsHit}
use preon_star.KvStore.Write.Failing.{IsUnchanged, store_live_prefix_text-IsUnchanged}
use preon_star.KvStore.Write.Served.{InRange, store_live_prefix_text-load_file}
use preon_star.KvStore.Write.Succeeding.{Fits, store_live_prefix_text-IsOk}

abbrev text : Bytes
text = codes "system: be brief"

abbrev payload : Bytes
payload = 1 ∷ 2 ∷ 3 ∷ []

abbrev checkpoint : Entry
checkpoint = record {
  sha = [];
  path = [];
  quant_bits = 4;
  model_id = 2;
  reason = 1;
  tokens = 600;
  hits = 3;
  ctx_size = 4096;
  ext_flags = 0;
  created_at = 1700000000;
  last_used = 1700000100;
  payload_bytes = 3;
  text_bytes = 16;
  file_size = 0;
}

checkpoint-IsStorable : IsStorable checkpoint
checkpoint-IsStorable = record {
  quant = unfold quant_bits_valid in refl;
  known_reason = omega arith;
  has_tokens = λ e. omega arith;
  tokens_lt = omega arith;
  hits_lt = omega arith;
  ctx_lt = omega arith;
  created_lt = omega arith;
  used_lt = omega arith;
  payload_lt = omega arith;
  text_lt = omega arith;
}

abbrev store : Store
store = record {
  enabled = true;
  dir = codes "/kv";
  budget_bytes = 100;
  reject_different_quant = true;
  opt = default_options;
  continued_last_store_tokens = 0;
  entries = [];
}

abbrev digest : Bytes
digest =
    0xa9 ∷ 0x99 ∷ 0x3e ∷ 0x36 ∷ 0x47 ∷ 0x06 ∷ 0x81 ∷ 0x6a ∷ 0xba ∷ 0x3e ∷ 0x25 ∷ 0x71 ∷ 0x78 ∷ 0x50
    ∷ 0xc2 ∷ 0x6c ∷ 0x9c ∷ 0xd0 ∷ 0xd8 ∷ 0x9d ∷ []

-- the test vector of the standard
sha1_abc : sha1 (codes "abc") ≡ digest
unfolding sha1 final update pad fill transform rounds extend be_words rol32 be_put
sha1_abc = refl

read_header-fill_header_example :
    read_header (file_of checkpoint text) ≡ some (stored checkpoint, text)
read_header-fill_header_example = read_header-fill_header checkpoint text checkpoint-IsStorable

abbrev budget : ℕ
budget = 2000

digest-IsByte : All IsByte digest
digest-IsByte = ground arith

update-append_example :
    (update (update init text) payload ≡ update init (text ++ payload))
    × (used (update init text) < 64)
update-append_example = update-append init text payload (omega arith)

abbrev files : List DirEntry
files =
    record { name = file_name (hex digest); bytes = file_of checkpoint (text ++ payload) }
    ∷ record { name = codes "readme"; bytes = [] }
    ∷ []

abbrev by_tokens : Entry → ℕ
by_tokens e = e.tokens

one_entry :
    entries_of (codes "/kv") files
    ≡ record checkpoint {
      sha = hex digest;
      path = path_join (codes "/kv") (file_name (hex digest));
      file_size = 71;
    }
      ∷ []
unfolding entries_of entry_at sha_hex_name lower_hex hex bytes_eq read_entry_file read_header
    read_parts decode header_accepted quant_bits_valid fill_header le_put32 le_put64 le_get32
    le_get64 entry_of is_complete path_join ends_in_slash
one_entry = refl

small : sum_sizes (entries_of (codes "/kv") files) < 2 ^ 64
small = rw one_entry (unfold sum_sizes in omega arith)

evict-Evicts_example :
    let r = evict by_tokens (λ e. true) store (some files) 50 in
    Evicts by_tokens (100 - 50) (entries_of (codes "/kv") files) r.1 r.0.entries
    × (sum_sizes r.0.entries + 50 ≤ 100)
evict-Evicts_example =
    evict-Evicts by_tokens (λ e. true) store files 50 (λ e. refl) refl (omega arith) (omega arith)
      small

abbrev query : Query
query = record { prompt = text ++ codes " user: hi"; model_id = 2; quant_bits = 4; ctx_size = 8192 }

find_text_prefix-IsTop_example :
    let r = find_text_prefix store (some files) query in
    ((r.1 ≡ none) × ((e : Entry) → IsIn e r.0.entries → MayLoad r.0 query e → ⊥))
    ⊎ ((e : Entry) × (r.1 ≡ some e) × IsTop r.0 query e)
find_text_prefix-IsTop_example = find_text_prefix-IsTop store (some files) query

check_file-file_of_example :
    check_file query (sha1_bytes_hex text) (file_of checkpoint (text ++ payload))
    ≡ serves (stored checkpoint) text payload
check_file-file_of_example =
    check_file-file_of checkpoint text payload (codes " user: hi") query checkpoint-IsStorable refl
      refl refl

check_file-Serves_example :
    Serves query
      (sha1_bytes_hex text)
      (file_of checkpoint (text ++ payload))
      (stored checkpoint)
      text
      payload
check_file-Serves_example =
    check_file-Serves query (sha1_bytes_hex text) (file_of checkpoint (text ++ payload))
      (stored checkpoint) text payload check_file-file_of_example

abbrev three_bytes : Buf
three_bytes = record { bytes = payload; cap = 256 }

open_store-fits_example :
    let r =
      open_store by_tokens
        (λ e. true)
        (λ d. true)
        (some (codes "/kv"))
        0
        true
        default_options
        (some files) in
    (r.0 ≡ true)
    × (r.1.0 ≡ record {
      enabled = true;
      dir = codes "/kv";
      budget_bytes = 4096 * 2 ^ 20;
      reject_different_quant = true;
      opt = default_options;
      continued_last_store_tokens = 0;
      entries = r.1.0.entries;
    })
    × Evicts by_tokens (4096 * 2 ^ 20) (entries_of (codes "/kv") files) r.1.1 r.1.0.entries
    × (sum_sizes r.1.0.entries ≤ 4096 * 2 ^ 20)
open_store-fits_example =
    open_store-fits by_tokens (λ e. true) (λ d. true) (codes "/kv") 0 true default_options files
      (λ e. refl) (unfold mkdir_p mkdir_from in refl) (omega arith) small

abbrev load_all : Bytes → ℕ → Option (List ℕ)
load_all bytes n = some (replicate 600 7)

abbrev open_one : Bytes → Option Bytes
open_one path = some (file_of checkpoint (text ++ payload))

try_load_text-IsHit_example :
    let h = try_load_text load_all (λ s. s) open_one store (some files) query 1700000200 in
    ((h.tokens ≡ 0)
      × (h.effective_prompt ≡ [])
      × Fails load_all (λ s. s) open_one store (some files) query)
    ⊎ IsHit load_all (λ s. s) open_one store (some files) query 1700000200 h
try_load_text-IsHit_example =
    try_load_text-IsHit load_all (λ s. s) open_one store (some files) query 1700000200

-- the calls of a store of two tokens
abbrev calls : Calls
calls = record {
  live = some (5 ∷ 6 ∷ []);
  model_id = 2;
  quant_bits = 4;
  ctx_size = 4096;
  render = λ tokens. text;
  trailer_size = λ s. some 0;
  trailer = λ s. ([], true);
  ext_flag = 1;
  staged = some payload;
  writes_trailer = true;
  now = 1700000000;
  pid = codes "42";
  unlink = λ path. true;
  opened = true;
  written = true;
  part = 0;
  renamed = true;
}

abbrev request : Request
request = record { store_len = 2; reason = some (codes "cold"); override = []; override_ext = 0 }

abbrev small_store : Store
small_store = record store { opt = record default_options { min_tokens = 2 } }

calls-Fits : Fits (λ e. 0) calls text payload 0 small_store.budget_bytes
unfolding file_size_fits budget_fit
calls-Fits = record { by_estimate = refl; by_trailer = refl }

store_live_prefix_text-IsOk_example :
    (store_live_prefix_text (λ e. 0) calls request (some (5 ∷ 6 ∷ 7 ∷ [])) small_store []).ok ≡ true
store_live_prefix_text-IsOk_example =
    store_live_prefix_text-IsOk (λ e. 0) calls request (5 ∷ 6 ∷ 7 ∷ []) small_store [] payload 0
      refl (omega arith) (unfold quant_bits_valid in refl) refl (omega arith) refl refl calls-Fits
      (record { opens = refl; writes = refl; completes = refl; renames = refl })

abbrev no_rename : Calls
no_rename = record calls { renamed = false }

store_live_prefix_text_fails :
    (store_live_prefix_text (λ e. 0) no_rename request (some (5 ∷ 6 ∷ [])) small_store []).ok
    ≡ false
unfolding store_live_prefix_text store_tokens store_text write_or_rewrite write_new write_file
    existing_compatible file_named tokens_copy_prefix quant_bits_valid live_is starts_with
    file_size_fits budget_fit
store_live_prefix_text_fails = refl

store_live_prefix_text-IsUnchanged_example :
    IsUnchanged
      (tmp_name (λ e. 0) no_rename text)
      []
      (store_live_prefix_text (λ e. 0) no_rename request (some (5 ∷ 6 ∷ [])) small_store []).files
store_live_prefix_text-IsUnchanged_example =
    store_live_prefix_text-IsUnchanged (λ e. 0) no_rename (tmp_name (λ e. 0) no_rename text) request
      (some (5 ∷ 6 ∷ [])) small_store [] (λ t e. refl) store_live_prefix_text_fails

calls-InRange : InRange (λ e. 0) calls
calls-InRange = record {
  now_lt = omega arith;
  payload_lt = λ p e. subst (λ (q : Bytes). length q < 2 ^ 64) (some_injective e) (omega arith);
}
  where
    some_injective : {p : Bytes} → some payload ≡ some p → payload ≡ p
    some_injective e = cc e

empty-ne-kept : existing_file (λ e. 0) calls text small_store [] ≢ kept
unfolding existing_compatible file_named
empty-ne-kept e = cc e

abbrev loads : Bytes → ℕ → Option (List ℕ)
loads p n = some (5 ∷ 6 ∷ [])

store_live_prefix_text-load_file_example :
    (file : Bytes) × (hdr : Entry) × (file_named
        (file_name (sha1_bytes_hex text))
        (store_live_prefix_text (λ e. 0) calls request (some (5 ∷ 6 ∷ 7 ∷ [])) small_store []).files
      ≡ some file)
    × (load_file loads
          (λ s. 9 ∷ [])
          (record { prompt = text ++ codes "!"; model_id = 2; quant_bits = 4; ctx_size = 4096 })
          (sha1_bytes_hex text)
          file
        ≡ loaded (5 ∷ 6 ∷ []) (5 ∷ 6 ∷ 9 ∷ []) hdr text 1)
store_live_prefix_text-load_file_example =
    store_live_prefix_text-load_file (λ e. 0) calls loads (λ s. 9 ∷ []) request (5 ∷ 6 ∷ 7 ∷ [])
      small_store []
      (record { prompt = text ++ codes "!"; model_id = 2; quant_bits = 4; ctx_size = 4096 })
      (codes "!") calls-InRange (λ p r e. refl) empty-ne-kept (omega arith) (omega arith) refl refl
      store_live_prefix_text-IsOk_example
