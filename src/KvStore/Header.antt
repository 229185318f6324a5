-- ===== src/KvStore/Header.antt =====
-- The fixed header of a checkpoint file.
use preon_star.KvStore.Reason
use preon_star.Base.{
  Bool, Bytes, Option, [], arith, drop, false, get_or, if◌then◌else◌, leb, length, le→leb, none,
  not, refl, some, take, true, ℕ, ◌&&◌, ◌++◌, ◌<◌, ◌==◌, ◌^◌, ◌||◌, ◌∙◌, ◌∷◌, ◌≡◌, ◌≢◌, ◌≤◌,
}
use preon_star.KvStore.Word.{
  le_get, le_get-le_put_4, le_get-le_put_8, le_get32, le_get64, le_put, le_put32, le_put64,
}
use preon_star.KvStore.Sha1.{word}

-- `P36_KVSTORE_FIXED_HEADER`, and the ABI of the payload
abbrev pub fixed_header : ℕ
fixed_header = 48

abbrev pub payload_abi : ℕ
payload_abi = 2

-- `p36_kvstore_entry`
pub record Entry : Type 0 where
  pub sha : Bytes
  pub path : Bytes
  pub quant_bits : ℕ
  pub model_id : ℕ
  pub reason : ℕ
  pub tokens : ℕ
  pub hits : ℕ
  pub ctx_size : ℕ
  pub ext_flags : ℕ
  pub created_at : ℕ
  pub last_used : ℕ
  pub payload_bytes : ℕ
  pub text_bytes : ℕ
  pub file_size : ℕ

-- `p36_kvstore_quant_bits_valid`
unfoldable pub quant_bits_valid : ℕ → Bool
quant_bits_valid q = leb 1 q && leb q 6 || q == 8

-- `p36_kvstore_fill_header`, from the fields that an entry holds
unfoldable pub fill_header : Entry → Bytes
unfolding le_put32 le_put64
fill_header e =
    b'K'
    ∷ b'V'
    ∷ b'C'
    ∷ 1
    ∷ e.quant_bits
    ∷ e.reason
    ∷ e.ext_flags
    ∷ e.model_id
    ∷ (le_put32 e.tokens
        ++ (le_put32 e.hits
            ++ (le_put32 e.ctx_size
                ++ (payload_abi
                    ∷ 0
                    ∷ 0
                    ∷ 0
                    ∷ (le_put64 e.created_at
                        ++ (le_put64 e.last_used ++ le_put64 e.payload_bytes))))))

abbrev pub byte_at : Bytes → ℕ → ℕ
byte_at h i = get_or h i 0

-- the fields that `p36_kvstore_read_header` takes from the 48 bytes and the word behind them
unfoldable pub decode : Bytes → ℕ → Entry
unfolding le_get32 le_get64
decode h text = record {
  sha = [];
  path = [];
  quant_bits = byte_at h 4;
  model_id = byte_at h 7;
  reason = if leb (byte_at h 5) Reason.agent_session then byte_at h 5 else Reason.unknown;
  tokens = le_get32 (drop 8 h);
  hits = le_get32 (drop 12 h);
  ctx_size = le_get32 (drop 16 h);
  ext_flags = byte_at h 6;
  created_at = le_get64 (drop 24 h);
  last_used = le_get64 (drop 32 h);
  payload_bytes = le_get64 (drop 40 h);
  text_bytes = text;
  file_size = 0;
}

-- the magic, the version and the ABI
unfoldable pub header_accepted : Bytes → Bool
header_accepted h =
    byte_at h 0 == b'K'
    && byte_at h 1 == b'V'
    && byte_at h 2 == b'C'
    && byte_at h 3 == 1
    && byte_at h 20 == payload_abi

-- what `p36_kvstore_read_header` returns for what the two calls of `fread` deliver
unfoldable pub read_parts : Bytes → Bytes → Bytes → Option (Entry × Bytes)
read_parts h word rest =
    let e = decode h (le_get word) in
    if not (length h == 48) || not (header_accepted h) || not (length word == 4)
    then none
    else if not (e.tokens == 0) && quant_bits_valid e.quant_bits
    then some (e, rest)
    else none

-- `p36_kvstore_read_header`, from a file's bytes: the entry, and the bytes behind what it reads
unfoldable pub read_header : Bytes → Option (Entry × Bytes)
unfolding read_parts
read_header file = read_parts (take 48 file) (take 4 (drop 48 file)) (drop 52 file)

-- the fields that a header holds, in the ranges that it can hold
pub record IsStorable (e : Entry) : Type 0 where
  pub quant : quant_bits_valid e.quant_bits ≡ true
  pub known_reason : e.reason ≤ Reason.agent_session
  pub has_tokens : e.tokens ≢ 0
  pub tokens_lt : e.tokens < 2 ^ 32
  pub hits_lt : e.hits < 2 ^ 32
  pub ctx_lt : e.ctx_size < 2 ^ 32
  pub created_lt : e.created_at < 2 ^ 64
  pub used_lt : e.last_used < 2 ^ 64
  pub payload_lt : e.payload_bytes < 2 ^ 64
  pub text_lt : e.text_bytes < 2 ^ 32

-- the entry as a header gives it back: the name, the path and the file's size are no part of it
abbrev pub stored : Entry → Entry
stored e = record e { sha = []; path = []; file_size = 0 }

decode-fill_header : (e : Entry) → IsStorable e → decode (fill_header e) e.text_bytes ≡ stored e
unfolding decode fill_header
decode-fill_header e v =
    let reason : (if leb e.reason Reason.agent_session then e.reason else Reason.unknown)
        ≡ e.reason =
      rw (le→leb e.reason Reason.agent_session v.known_reason) in
    rw (
      le_get-le_put_4 e.tokens v.tokens_lt,
      le_get-le_put_4 e.hits v.hits_lt,
      le_get-le_put_4 e.ctx_size v.ctx_lt,
      le_get-le_put_8 e.created_at v.created_lt,
      le_get-le_put_8 e.last_used v.used_lt,
      le_get-le_put_8 e.payload_bytes v.payload_lt,
      reason,
    )

length-fill_header : (e : Entry) → length (fill_header e) ≡ 48
unfolding fill_header
length-fill_header e = refl

-- the header, the length of the text, and what stands behind
abbrev pub file_of : Entry → Bytes → Bytes
file_of e r = fill_header e ++ (le_put32 e.text_bytes ++ r)

file_of-parts :
    (e : Entry) (r : Bytes)
    → (take 48 (file_of e r) ≡ fill_header e)
      × (take 4 (drop 48 (file_of e r)) ≡ le_put 4 e.text_bytes)
      × (drop 52 (file_of e r) ≡ r)
unfolding fill_header
file_of-parts e r = (refl, refl, refl)

header_accepted-fill_header : (e : Entry) → header_accepted (fill_header e) ≡ true
unfolding header_accepted fill_header
header_accepted-fill_header e = refl

read_parts-fill_header :
    (e : Entry) (r : Bytes)
    → IsStorable e
    → read_parts (fill_header e) (le_put 4 e.text_bytes) r ≡ some (stored e, r)
unfolding read_parts
read_parts-fill_header e r v =
    let has_tokens : (e.tokens == 0) ≡ false = ground (arith, v.has_tokens) in
    rw (
      le_get-le_put_4 e.text_bytes v.text_lt,
      decode-fill_header e v,
      length-fill_header e,
      header_accepted-fill_header e,
      has_tokens,
      v.quant,
    )

-- An entry in range is read back from the header and the text's length that are written for it,
-- but for its name, its path and the file's size; and reading stops behind them.
pub read_header-fill_header :
    (e : Entry) (r : Bytes) → IsStorable e → read_header (file_of e r) ≡ some (stored e, r)
read_header-fill_header e r v =
    let (front, word, rest) = file_of-parts e r in
    unfolded (file_of e r) ∙ rw (front, word, rest) (read_parts-fill_header e r v)
  where
    unfolded :
        (file : Bytes)
        → read_header file ≡ read_parts (take 48 file) (take 4 (drop 48 file)) (drop 52 file)
    unfolded file = unfold read_header in refl
