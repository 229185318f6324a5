-- ===== src/KvStore/Write/Served.antt =====
-- The file that a store leaves serves the load.
use preon_star.KvStore.Reason
use preon_star.Base.{
  ==_refl, Bytes, List, Option, ap, arith, drop-length_append, length, none, refl, some, sym, take,
  true, ℕ, ◌%◌, ◌++◌, ◌<◌, ◌^◌, ◌∙◌, ◌≡◌, ◌≢◌, ◌≤◌,
}
use preon_star.KvStore.Write.{
  Calls, Request, existing_file, file_named, store_live_prefix_text, text_of, written_entry,
}
use preon_star.KvStore.Files.{DirEntry}
use preon_star.KvStore.Find.{Query, kept}
use preon_star.KvStore.Header.{Entry, IsStorable, quant_bits_valid, stored}
use preon_star.KvStore.Load.{after_payload, check_file, load_cached, load_file, loaded, serves}
use preon_star.KvStore.Load.Serves.{check_file-file_of}
use preon_star.KvStore.Reason.{reason_code}
use preon_star.KvStore.Sha1.{sha1_bytes_hex}
use preon_star.KvStore.Store.{Store}
use preon_star.KvStore.Write.Written.{name_of, store-StoreHolds, stored_file}

reason_code-known : (reason : Option Bytes) → reason_code reason ≤ Reason.agent_session
unfolding reason_code
reason_code-known none = omega arith
reason_code-known (some r) = ground arith

module _ (score : Entry → ℕ) (c : Calls) where
  -- the ranges of the clock and of the payload's size, both 64 bits
  pub record InRange : Type 0 where
    pub now_lt : c.now < 2 ^ 64
    pub payload_lt : (payload : Bytes) → c.staged ≡ some payload → length payload < 2 ^ 64

  valid_byte : (q : ℕ) → quant_bits_valid q ≡ true → quant_bits_valid (q % 256) ≡ true
  unfolding quant_bits_valid
  valid_byte q h = ground arith

  written_entry-IsStorable :
      (r : Request) (count : ℕ) (text : Bytes) (estimate : ℕ) (payload : Bytes)
      → InRange
      → quant_bits_valid c.quant_bits ≡ true
      → 0 < count
      → count < 2 ^ 32
      → c.staged ≡ some payload
      → IsStorable (written_entry score c r count text estimate payload)
  unfolding written_entry
  written_entry-IsStorable r count text estimate payload v q z l e = record {
    quant = valid_byte c.quant_bits q;
    known_reason = reason_code-known r.reason;
    has_tokens = λ h. omega (arith, h, z, l);
    tokens_lt = omega arith;
    hits_lt = omega arith;
    ctx_lt = omega arith;
    created_lt = v.now_lt;
    used_lt = v.now_lt;
    payload_lt = v.payload_lt payload e;
    text_lt = omega arith;
  }

  after_payload-loaded :
      (tokenize : Bytes → List ℕ) (q : Query) (hdr : Entry) (text suffix : Bytes) (tokens : List ℕ)
      → hdr.tokens ≡ length tokens
      → hdr.hits ≡ 0
      → q.prompt ≡ text ++ suffix
      → after_payload tokenize q hdr text (some tokens)
        ≡ loaded tokens (tokens ++ tokenize suffix) hdr text 1
  unfolding after_payload
  after_payload-loaded tokenize q hdr text suffix tokens t z p =
      rw (t, z, p, drop-length_append text suffix, ==_refl (length tokens)) refl

  -- A store that succeeds, where no compatible file stood already, of at least one token and fewer
  -- than 2^32, leaves under the text's hash a file that a load serves to every prompt of the same model
  -- that goes on from the text: if the engine reads the staged payload back as the stored tokens, the
  -- load gives those tokens, followed by the tokens of the rest of the prompt, and 1 hit.
  pub store_live_prefix_text-load_file :
      (load_payload : Bytes → ℕ → Option (List ℕ)) (tokenize : Bytes → List ℕ) (r : Request)
      (tokens : List ℕ) (kc : Store) (files : List DirEntry) (q : Query) (suffix : Bytes)
      → InRange
      → ((payload rest : Bytes)
          → c.staged ≡ some payload
          → load_payload (payload ++ rest) (length payload) ≡ some (take r.store_len tokens))
      → existing_file score c (text_of c r (take r.store_len tokens)) kc files ≢ kept
      → 0 < length (take r.store_len tokens)
      → length (take r.store_len tokens) < 2 ^ 32
      → q.model_id ≡ c.model_id
      → q.prompt ≡ text_of c r (take r.store_len tokens) ++ suffix
      → let o = store_live_prefix_text score c r (some tokens) kc files in
        let text = text_of c r (take r.store_len tokens) in
        o.ok ≡ true
        → (file : Bytes) × (hdr : Entry) × (file_named (name_of score c text) o.files ≡ some file)
          × (load_file load_payload tokenize q (sha1_bytes_hex text) file
              ≡ loaded
                  (take r.store_len tokens)
                  (take r.store_len tokens ++ tokenize suffix)
                  hdr
                  text
                  1)
  store_live_prefix_text-load_file load_payload tokenize r tokens kc files q suffix v back n z l m p
        h =
      let stored_tokens = take r.store_len tokens in
      let text = text_of c r stored_tokens in
      let (valid, short, (estimate, payload, staged, found)) =
        store-StoreHolds score c r tokens kc files n h in
      let e = written_entry score c r (length stored_tokens) text estimate payload in
      let file = stored_file score c r (length stored_tokens) text estimate payload in
      let rest = payload ++ (c.trailer text).0 in
      let text_size : e.text_bytes ≡ length text = unfold written_entry in omega (arith, short) in
      let model : e.model_id ≡ q.model_id % 256 =
        unfold written_entry in ap (λ (i : ℕ). i % 256) (sym m) in
      let count : e.tokens ≡ length stored_tokens = unfold written_entry in omega (arith, l) in
      let no_hits : e.hits ≡ 0 = unfold written_entry in refl in
      let size : e.payload_bytes ≡ length payload = unfold written_entry in refl in
      let checked : check_file q (sha1_bytes_hex text) file ≡ serves (stored e) text rest =
        check_file-file_of e text rest suffix q
          (written_entry-IsStorable r (length stored_tokens) text estimate payload v valid z l
            staged)
          (sym text_size) model p in
      let read : load_payload rest e.payload_bytes ≡ some stored_tokens =
        ap (load_payload rest) size ∙ back payload (c.trailer text).0 staged in
      let served : load_file load_payload tokenize q (sha1_bytes_hex text) file
          ≡ after_payload tokenize q (stored e) text (load_payload rest e.payload_bytes) =
        unfold load_file load_cached in ap (load_cached load_payload tokenize q) checked in
      (
        file,
        stored e,
        found,
        served
            ∙ ap (after_payload tokenize q (stored e) text) read
            ∙ after_payload-loaded tokenize q (stored e) text suffix stored_tokens count no_hits p,
      )
