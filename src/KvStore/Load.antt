-- ===== src/KvStore/Load.antt =====
-- `p36_kvstore_try_load_text`, from the entry that the search found. The engine and the session are
-- parameters: what loading the payload leaves as the session's tokens, and the tokenizer.
pub mod Serves
use mathlib.Core.Bool.{not}
use preon_star.Base.{
  Bytes, List, Option, bytes_eq, drop, if◌then◌else◌, length, ltb, none, some, starts_with, take, ℕ,
  ◌%◌, ◌++◌, ◌+◌, ◌==◌, ◌^◌,
}
use preon_star.KvStore.Header.{Entry, read_header}
use preon_star.KvStore.Find.{Query}
use preon_star.KvStore.Sha1.{sha1_bytes_hex}

-- `fail_reason`
pub data Failure : Type 0 where
  invalid_header : Failure
  different_model : Failure
  longer_than_prompt : Failure
  truncated_text : Failure
  hash_mismatch : Failure
  prefix_mismatch : Failure

-- the header, the text behind it and the payload behind that; or why they do not serve
pub data Cached : Type 0 where
  failed : Failure → Cached
  serves : Entry → Bytes → Bytes → Cached

-- the tests on the text, once it was read
unfoldable pub check_text : Query → Bytes → Entry → Bytes → Bytes → Cached
check_text q sha hdr text payload =
    if not (bytes_eq (sha1_bytes_hex text) sha)
    then failed hash_mismatch
    else if not (starts_with text q.prompt)
    then failed prefix_mismatch
    else serves hdr text payload

unfoldable pub check_header : Query → Bytes → Option (Entry × Bytes) → Cached
unfolding check_text
check_header q sha none = failed invalid_header
check_header q sha (some (hdr, rest)) =
    if not (hdr.model_id == q.model_id % 256)
    then failed different_model
    else if ltb (length q.prompt) hdr.text_bytes
    then failed longer_than_prompt
    else if ltb (length rest) hdr.text_bytes
    then failed truncated_text
    else check_text q sha hdr (take hdr.text_bytes rest) (drop hdr.text_bytes rest)

-- the tests of the file, up to the payload
unfoldable pub check_file : Query → Bytes → Bytes → Cached
unfolding check_header read_header
check_file q sha file = check_header q sha (read_header file)

-- what the call leaves: nothing, a message; a session that is invalid and a file that is removed;
-- or the tokens of the session and of the prompt, the entry, the text, and the file's new hits
pub data Loaded : Type 0 where
  load_failed : Failure → Loaded
  payload_failed : Loaded
  payload_discarded : Loaded
  loaded : List ℕ → List ℕ → Entry → Bytes → ℕ → Loaded

-- what follows `p36_session_load_payload`, by the tokens that it leaves; `tokenize` is the tokenizer
unfoldable pub after_payload : (Bytes → List ℕ) → Query → Entry → Bytes → Option (List ℕ) → Loaded
after_payload tokenize q hdr text none = payload_failed
after_payload tokenize q hdr text (some tokens) =
    if length tokens == hdr.tokens
    then loaded tokens (tokens ++ tokenize (drop (length text) q.prompt)) hdr text
        ((hdr.hits + 1) % 2 ^ 32)
    else payload_discarded

module _ (load_payload : Bytes → ℕ → Option (List ℕ)) (tokenize : Bytes → List ℕ) where
  unfoldable pub load_cached : Query → Cached → Loaded
  unfolding after_payload
  load_cached q (failed why) = load_failed why
  load_cached q (serves hdr text payload) =
      after_payload tokenize q hdr text (load_payload payload hdr.payload_bytes)

  unfoldable pub load_file : Query → Bytes → Bytes → Loaded
  unfolding load_cached check_file
  load_file q sha file = load_cached q (check_file q sha file)
