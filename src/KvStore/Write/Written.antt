-- ===== src/KvStore/Write/Written.antt =====
-- What a store that succeeds has written.
use preon_star.Base.{
  Bool, Bytes, List, Option, arith, bytes_eq, false, if_cases, if_intro, if◌then◌else◌, length, ltb,
  none, not, refl, some, take, true, ℕ, ◌&&◌, ◌++◌, ◌-◌, ◌<◌, ◌^◌, ◌||◌, ◌≡◌, ◌≢◌,
}
use preon_star.KvStore.Write.{
  Calls, Outcome, Request, after_eviction, existing_file, file_named, live_is, put_file, remaining,
  tmp_name, store_live_prefix_text, store_text, store_tokens, text_of, write_file, write_new,
  write_or_rewrite, written_entry,
}
use preon_star.KvStore.Evict.{evict}
use preon_star.KvStore.Files.{DirEntry}
use preon_star.KvStore.Find.{Existing, absent, kept, unlinked}
use preon_star.KvStore.Header.{Entry, file_of, quant_bits_valid}
use preon_star.KvStore.Names.{file_name, path_join}
use preon_star.KvStore.Open.{tokens_copy_prefix}
use preon_star.KvStore.Sha1.{sha1_bytes_hex}
use preon_star.KvStore.Sizes.{file_size_fits}
use preon_star.KvStore.Store.{Store}
use preon_star.KvStore.Write.Directory.{file_named-put_file}

module _ (score : Entry → ℕ) (c : Calls) where
  abbrev pub name_of : Bytes → Bytes
  name_of text = file_name (sha1_bytes_hex text)

  -- what is stored for the text
  abbrev pub stored_file : Request → ℕ → Bytes → ℕ → Bytes → Bytes
  stored_file r count text estimate payload =
      file_of (written_entry score c r count text estimate payload)
        (text ++ (payload ++ (c.trailer text).0))

  abbrev pub Wrote : Request → ℕ → Bytes → ℕ → Bytes → Outcome → Type 0
  Wrote r count text estimate payload o =
      o.ok ≡ true
      → file_named (name_of text) o.files ≡ some (stored_file r count text estimate payload)

  write_file-Wrote :
      (r : Request) (count : ℕ) (text : Bytes) (estimate : ℕ) (payload : Bytes) (kc : Store)
      (files : List DirEntry)
      → Wrote r count text estimate payload
          (write_file score c r count text estimate payload kc files)
  unfolding write_file
  write_file-Wrote r count text estimate payload kc files =
      let file = stored_file r count text estimate payload in
      let tmp = tmp_name score c text in
      let whole = c.written && (c.trailer text).1 in
      let begun = put_file tmp (if whole then file else take c.part file) files in
      if_intro (Wrote r count text estimate payload) (not c.opened) (λ h. cc h)
        (if_intro (Wrote r count text estimate payload)
          (whole
            && (file_size_fits kc.budget_bytes (length text) (length payload)
                (length (c.trailer text).0)).fits
            && c.renamed)
          (λ h.
            file_named-put_file (name_of text) file
              (remaining (λ (n : Bytes). bytes_eq n tmp) begun))
          (λ h. cc h))

  abbrev pub WroteSome : Request → ℕ → Bytes → ℕ → Option Bytes → Outcome → Type 0
  WroteSome r count text estimate staged o =
      o.ok ≡ true
      → (payload : Bytes) × (staged ≡ some payload)
        × (file_named (name_of text) o.files ≡ some (stored_file r count text estimate payload))

  write_new-WroteSome :
      (r : Request) (count : ℕ) (text : Bytes) (estimate : ℕ) (staged : Option Bytes) (kc : Store)
      (files : List DirEntry)
      → WroteSome r count text estimate staged
          (write_new score c r count text estimate staged kc files)
  unfolding write_new
  write_new-WroteSome r count text estimate none kc files = λ h. cc h
  write_new-WroteSome r count text estimate (some payload) kc files =
      let fit = file_size_fits kc.budget_bytes (length text) (length payload) estimate in
      let (kc', tried) =
        evict score (λ (e : Entry). c.unlink e.path) kc (some files) fit.file_bytes in
      if_intro (WroteSome r count text estimate (some payload)) fit.fits
        (λ h. (
          payload,
          refl,
          write_file-Wrote r count text estimate payload kc'
              (after_eviction kc.dir c.unlink tried files) h,
        ))
        (λ h. cc h)

  write_or_rewrite-WroteSome :
      (r : Request) (count : ℕ) (text : Bytes) (estimate : ℕ) (found : Existing) (kc : Store)
      (files : List DirEntry)
      → found ≢ kept
      → WroteSome r count text estimate c.staged
          (write_or_rewrite score c r count text estimate found kc files)
  unfolding write_or_rewrite
  write_or_rewrite-WroteSome r count text estimate kept kc files n = absurd (n refl)
  write_or_rewrite-WroteSome r count text estimate absent kc files n =
      write_new-WroteSome r count text estimate c.staged kc files
  write_or_rewrite-WroteSome r count text estimate unlinked kc files n =
      write_new-WroteSome r count text estimate c.staged kc (
        remaining (λ (m : Bytes). bytes_eq m (name_of text) && c.unlink (path_join kc.dir m)) files)

  -- a file was written for the text, with some estimate of its trailer
  abbrev pub WroteText : Request → ℕ → Bytes → Option ℕ → Outcome → Type 0
  WroteText r count text size o =
      o.ok ≡ true
      → (estimate : ℕ) × (payload : Bytes) × (c.staged ≡ some payload)
        × (file_named (name_of text) o.files ≡ some (stored_file r count text estimate payload))

  store_text-WroteText :
      (r : Request) (count : ℕ) (text : Bytes) (size : Option ℕ) (kc : Store)
      (files : List DirEntry)
      → existing_file score c text kc files ≢ kept
      → WroteText r count text size (store_text score c r count text size kc files)
  unfolding store_text
  store_text-WroteText r count text none kc files n = λ h. cc h
  store_text-WroteText r count text (some estimate) kc files n = λ h.
      let found = existing_file score c text kc files in
      let (payload, e, w) = write_or_rewrite-WroteSome r count text estimate found kc files n h in
      (estimate, payload, e, w)

  abbrev pub StoreHolds : Request → List ℕ → Outcome → Type 0
  StoreHolds r tokens o =
      let text = text_of c r tokens in
      o.ok ≡ true
      → (quant_bits_valid c.quant_bits ≡ true)
        × (length text < 2 ^ 32)
        × ((estimate : ℕ) × (payload : Bytes) × (c.staged ≡ some payload)
            × (file_named (name_of text) o.files
                ≡ some (stored_file r (length tokens) text estimate payload)))

  passed :
      (a b : Bool) (n : ℕ)
      → (not a || not b || ltb (2 ^ 32 - 1) n) ≡ false
      → (a ≡ true) × (n < 2 ^ 32)
  passed a b n h = ground arith

  store_tokens-StoreHolds :
      (r : Request) (tokens : List ℕ) (kc : Store) (files : List DirEntry)
      → existing_file score c (text_of c r tokens) kc files ≢ kept
      → StoreHolds r tokens (store_tokens score c r tokens kc files)
  unfolding store_tokens
  store_tokens-StoreHolds r tokens kc files n =
      let text = text_of c r tokens in
      if_cases (StoreHolds r tokens)
        (not (quant_bits_valid c.quant_bits)
          || not (live_is c.live tokens)
          || ltb (2 ^ 32 - 1) (length text))
        (λ e h. cc h)
        (λ e h.
          let (v, l) =
            passed (quant_bits_valid c.quant_bits) (live_is c.live tokens) (length text) e in
          (v, l, store_text-WroteText r (length tokens) text (c.trailer_size text) kc files n h))

  pub store-StoreHolds :
      (r : Request) (tokens : List ℕ) (kc : Store) (files : List DirEntry)
      → existing_file score c (text_of c r (take r.store_len tokens)) kc files ≢ kept
      → StoreHolds r
          (take r.store_len tokens)
          (store_live_prefix_text score c r (some tokens) kc files)
  unfolding store_live_prefix_text tokens_copy_prefix
  store-StoreHolds r tokens kc files n =
      if_intro (StoreHolds r (take r.store_len tokens))
        (not kc.enabled || ltb r.store_len kc.opt.min_tokens) (λ h. cc h)
        (store_tokens-StoreHolds r (take r.store_len tokens) kc files n)
