-- ===== src/KvStore/Write.antt =====
-- `p36_kvstore_store_live_prefix_text`. The directory is a list of files. What the engine, the
-- session, the trailer's hooks and the system's calls deliver is a record: a call that fails, and
-- what a call that succeeds gives.
pub mod Directory
pub mod Written
pub mod Served
pub mod Succeeding
pub mod Failing
use mathlib.Core.Bool.{not}
use Prim.Native.Nat.{bit_or}
use preon_star.KvStore.Reason
use preon_star.Base.{
  Bool, Bytes, List, Option, [], bytes_eq, codes, false, if◌then◌else◌, length, ltb, none, not,
  some, starts_with, take, true, ℕ, ◌%◌, ◌&&◌, ◌++◌, ◌-◌, ◌==◌, ◌^◌, ◌||◌, ◌∷◌,
}
use preon_star.KvStore.Header.{Entry, file_of, quant_bits_valid}
use preon_star.KvStore.Evict.{evict}
use preon_star.KvStore.Files.{DirEntry}
use preon_star.KvStore.Find.{Existing, Query, absent, existing_compatible, kept, unlinked}
use preon_star.KvStore.Names.{file_name, path_for_sha, path_join}
use preon_star.KvStore.Open.{tokens_copy_prefix}
use preon_star.KvStore.Reason.{reason_code}
use preon_star.KvStore.Sha1.{sha1_bytes_hex}
use preon_star.KvStore.Sizes.{file_size_fits}
use preon_star.KvStore.Store.{Store}
use preon_star.KvStore.Trailer.{rewrite_trailer}

-- the calls
pub record Calls : Type 0 where
  -- the session's tokens, the engine's model and the session's context
  pub live : Option (List ℕ)
  pub model_id : ℕ
  pub quant_bits : ℕ
  pub ctx_size : ℕ
  pub render : List ℕ → Bytes
  -- the hooks: the estimate of the trailer's bytes, what is written and whether that succeeds
  pub trailer_size : Bytes → Option ℕ
  pub trailer : Bytes → Bytes × Bool
  pub ext_flag : ℕ
  -- the payload that is staged
  pub staged : Option Bytes
  -- `hooks->write` is there
  pub writes_trailer : Bool
  -- the system: the time, the number of the process in digits, `unlink`, `fopen` of the temporary
  -- file, the writes up to `fclose`, how many bytes they leave where one fails, `rename`
  pub now : ℕ
  pub pid : Bytes
  pub unlink : Bytes → Bool
  pub opened : Bool
  pub written : Bool
  pub part : ℕ
  pub renamed : Bool

-- what is asked for: how many tokens, why, and a text that stands for them (or none) with its flags
pub record Request : Type 0 where
  pub store_len : ℕ
  pub reason : Option Bytes
  pub override : Bytes
  pub override_ext : ℕ

-- the result, the store and the directory afterwards
pub record Outcome : Type 0 where
  pub ok : Bool
  pub store : Store
  pub files : List DirEntry

abbrev pub outcome : Bool → Store → List DirEntry → Outcome
outcome ok kc files = record { ok = ok; store = kc; files = files }

-- `fopen` by a name
unfoldable pub file_named : Bytes → List DirEntry → Option Bytes
file_named name [] = none
file_named name (f ∷ fs) = if bytes_eq f.name name then some f.bytes else file_named name fs

-- the files whose names are not gone
unfoldable pub remaining : (Bytes → Bool) → List DirEntry → List DirEntry
remaining gone [] = []
remaining gone (f ∷ fs) = let rest = remaining gone fs in if gone f.name then rest else f ∷ rest

-- a file takes the place of what had its name
unfoldable pub put_file : Bytes → Bytes → List DirEntry → List DirEntry
unfolding remaining
put_file name bytes fs =
    record { name = name; bytes = bytes } ∷ remaining (λ (n : Bytes). bytes_eq n name) fs

-- the path is one of those that were removed
unfoldable pub is_removed : (Bytes → Bool) → List Entry → Bytes → Bool
is_removed unlink [] path = false
is_removed unlink (e ∷ es) path = (bytes_eq e.path path && unlink path) || is_removed unlink es path

-- the directory after an eviction tried to remove the entries' files
unfoldable pub after_eviction : Bytes → (Bytes → Bool) → List Entry → List DirEntry → List DirEntry
unfolding remaining is_removed path_join
after_eviction dir unlink tried fs =
    remaining (λ (n : Bytes). is_removed unlink tried (path_join dir n)) fs

-- the session stands exactly at the tokens
unfoldable pub live_is : Option (List ℕ) → List ℕ → Bool
unfolding starts_with
live_is none tokens = false
live_is (some live) tokens = length live == length tokens && starts_with tokens live

-- the text stands for the tokens
abbrev pub text_of : Calls → Request → List ℕ → Bytes
text_of c r tokens = if length r.override == 0 then c.render tokens else r.override

module _ (score : Entry → ℕ) (c : Calls) where
  -- the fields of the header
  unfoldable pub written_entry : Request → ℕ → Bytes → ℕ → Bytes → Entry
  written_entry r count text estimate payload =
      let hook = if ltb 0 estimate then c.ext_flag else 0 in
      record {
        sha = [];
        path = [];
        quant_bits = c.quant_bits % 256;
        model_id = c.model_id % 256;
        reason = reason_code r.reason;
        tokens = count % 2 ^ 32;
        hits = 0;
        ctx_size = c.ctx_size % 2 ^ 32;
        ext_flags = (if length r.override == 0 then hook else bit_or hook r.override_ext % 256);
        created_at = c.now;
        last_used = c.now;
        payload_bytes = length payload;
        text_bytes = length text % 2 ^ 32;
        file_size = 0;
      }

  -- the temporary file's name, behind the directory
  abbrev pub tmp_name : Bytes → Bytes
  tmp_name text = file_name (sha1_bytes_hex text) ++ (codes ".tmp." ++ c.pid)

  -- `unlink(tmp)`
  unfoldable pub unlink_tmp : Bytes → Bytes → List DirEntry → List DirEntry
  unfolding remaining path_join
  unlink_tmp dir text files =
      if c.unlink (path_join dir (tmp_name text))
      then remaining (λ (n : Bytes). bytes_eq n (tmp_name text)) files
      else files

  -- from the temporary file to `rename`, and to `unlink(tmp)` where something failed
  unfoldable pub write_file : Request → ℕ → Bytes → ℕ → Bytes → Store → List DirEntry → Outcome
  unfolding written_entry put_file file_size_fits unlink_tmp
  write_file r count text estimate payload kc files =
      let (trailer, complete) = c.trailer text in
      let fit = file_size_fits kc.budget_bytes (length text) (length payload) (length trailer) in
      let name = file_name (sha1_bytes_hex text) in
      let tmp = tmp_name text in
      let file =
        file_of (written_entry r count text estimate payload) (text ++ (payload ++ trailer)) in
      let whole = c.written && complete in
      let begun = put_file tmp (if whole then file else take c.part file) files in
      if not c.opened
      then outcome false kc files
      else if whole && fit.fits && c.renamed
      then outcome true kc (put_file name file (remaining (λ (n : Bytes). bytes_eq n tmp) begun))
      else outcome false kc (unlink_tmp kc.dir text begun)

  -- the staged payload, its size against the budget, and the eviction
  unfoldable pub write_new :
      Request → ℕ → Bytes → ℕ → Option Bytes → Store → List DirEntry → Outcome
  unfolding write_file evict after_eviction
  write_new r count text estimate none kc files = outcome false kc files
  write_new r count text estimate (some payload) kc files =
      let fit = file_size_fits kc.budget_bytes (length text) (length payload) estimate in
      let (kc', tried) =
        evict score (λ (e : Entry). c.unlink e.path) kc (some files) fit.file_bytes in
      if fit.fits
      then write_file r count text estimate payload kc' (after_eviction kc.dir c.unlink tried files)
      else outcome false kc files

  abbrev pub query_of : Bytes → Query
  query_of text = record {
    prompt = text;
    model_id = c.model_id;
    quant_bits = c.quant_bits;
    ctx_size = c.ctx_size;
  }

  abbrev pub existing_file : Bytes → Store → List DirEntry → Existing
  existing_file text kc files =
      let sha = sha1_bytes_hex text in
      existing_compatible kc (query_of text) (path_for_sha kc.dir sha) sha
        (file_named (file_name sha) files)

  -- the file that holds the text already has its trailer written again
  unfoldable pub rewrite_file : Bytes → ℕ → Option Bytes → Store → List DirEntry → Outcome
  unfolding rewrite_trailer put_file
  rewrite_file text estimate none kc files = outcome true kc files
  rewrite_file text estimate (some file) kc files =
      let (trailer, complete) = c.trailer text in
      if not c.writes_trailer
      then outcome true kc files
      else outcome true kc (
          put_file (file_name (sha1_bytes_hex text))
            (rewrite_trailer c.now c.ext_flag (some estimate) trailer complete file) files)

  unfoldable pub write_or_rewrite :
      Request → ℕ → Bytes → ℕ → Existing → Store → List DirEntry → Outcome
  unfolding write_new rewrite_file file_named is_removed
  write_or_rewrite r count text estimate kept kc files =
      rewrite_file text estimate (file_named (file_name (sha1_bytes_hex text)) files) kc files
  write_or_rewrite r count text estimate absent kc files =
      write_new r count text estimate c.staged kc files
  write_or_rewrite r count text estimate unlinked kc files =
      let name = file_name (sha1_bytes_hex text) in
      write_new r count text estimate c.staged kc
        (remaining (λ (n : Bytes). bytes_eq n name && c.unlink (path_join kc.dir n)) files)

  unfoldable pub store_text : Request → ℕ → Bytes → Option ℕ → Store → List DirEntry → Outcome
  unfolding write_or_rewrite existing_compatible
  store_text r count text none kc files = outcome false kc files
  store_text r count text (some estimate) kc files =
      write_or_rewrite r count text estimate (existing_file text kc files) kc files

  unfoldable pub store_tokens : Request → List ℕ → Store → List DirEntry → Outcome
  unfolding store_text live_is quant_bits_valid
  store_tokens r tokens kc files =
      let text = text_of c r tokens in
      if not (quant_bits_valid c.quant_bits)
        || not (live_is c.live tokens)
        || ltb (2 ^ 32 - 1) (length text)
      then outcome false kc files
      else store_text r (length tokens) text (c.trailer_size text) kc files

  -- `p36_kvstore_store_live_prefix_text`
  unfoldable pub store_live_prefix_text :
      Request → Option (List ℕ) → Store → List DirEntry → Outcome
  unfolding store_tokens tokens_copy_prefix
  store_live_prefix_text r none kc files = outcome false kc files
  store_live_prefix_text r (some tokens) kc files =
      if not kc.enabled || ltb r.store_len kc.opt.min_tokens
      then outcome false kc files
      else store_tokens r (tokens_copy_prefix tokens r.store_len) kc files
