-- ===== src/KvStore/Write/Succeeding.antt =====
-- When a store succeeds.
use preon_star.Base.{
  ==_refl, Bool, Bytes, List, Option, [], ap, append-nil, arith, bytes_eq, if_cases, if_intro,
  length, ltb, none, not, refl, some, starts_with, starts_with-append, subst, sym, take, true, ℕ,
  ◌&&◌, ◌-◌, ◌<◌, ◌^◌, ◌||◌, ◌∙◌, ◌≡◌, ◌≤◌,
}
use preon_star.KvStore.Write.{
  Calls, Outcome, Request, after_eviction, existing_file, file_named, live_is, remaining,
  rewrite_file, store_live_prefix_text, store_text, store_tokens, text_of, write_file, write_new,
  write_or_rewrite,
}
use preon_star.KvStore.Evict.{evict}
use preon_star.KvStore.Evict.Fits.{evict-keeps}
use preon_star.KvStore.Files.{DirEntry}
use preon_star.KvStore.Find.{Existing, absent, kept, unlinked}
use preon_star.KvStore.Header.{Entry, quant_bits_valid}
use preon_star.KvStore.Names.{file_name, path_join}
use preon_star.KvStore.Open.{tokens_copy_prefix}
use preon_star.KvStore.Sha1.{sha1_bytes_hex}
use preon_star.KvStore.Sizes.{file_size_fits}
use preon_star.KvStore.Store.{Store}

starts_with_refl : (s : Bytes) → starts_with s s ≡ true
starts_with_refl s = ap (starts_with s) (sym (append-nil s)) ∙ starts_with-append s []

live_is_refl : (tokens : List ℕ) → live_is (some tokens) tokens ≡ true
unfolding live_is
live_is_refl tokens = rw (==_refl (length tokens), starts_with_refl tokens) refl

module _ (score : Entry → ℕ) (c : Calls) where
  -- a file that is written fits the budget, by the estimate and by the trailer's own size
  pub record Fits (text payload : Bytes) (estimate budget : ℕ) : Type 0 where
    pub by_estimate : (file_size_fits budget (length text) (length payload) estimate).fits ≡ true
    pub by_trailer :
        (file_size_fits budget (length text) (length payload) (length (c.trailer text).0)).fits
        ≡ true

  -- the calls on the temporary file succeed
  pub record Succeeds (text : Bytes) : Type 0 where
    pub opens : c.opened ≡ true
    pub writes : c.written ≡ true
    pub completes : (c.trailer text).1 ≡ true
    pub renames : c.renamed ≡ true

  write_file-IsOk :
      (r : Request) (count : ℕ) (text : Bytes) (estimate : ℕ) (payload : Bytes) (kc : Store)
      (files : List DirEntry)
      → Fits text payload estimate kc.budget_bytes
      → Succeeds text
      → (write_file score c r count text estimate payload kc files).ok ≡ true
  unfolding write_file
  write_file-IsOk r count text estimate payload kc files f s =
      rw (s.opens, s.writes, s.completes, f.by_trailer, s.renames) refl

  abbrev IsOk : Outcome → Type 0
  IsOk o = o.ok ≡ true

  write_new-IsOk :
      (r : Request) (count : ℕ) (text : Bytes) (estimate : ℕ) (payload : Bytes) (kc : Store)
      (files : List DirEntry)
      → Fits text payload estimate kc.budget_bytes
      → Succeeds text
      → IsOk (write_new score c r count text estimate (some payload) kc files)
  unfolding write_new
  write_new-IsOk r count text estimate payload kc files f s =
      let fit = file_size_fits kc.budget_bytes (length text) (length payload) estimate in
      let unlink : Entry → Bool = λ e. c.unlink e.path in
      let (kc', tried) = evict score unlink kc (some files) fit.file_bytes in
      let budget : kc.budget_bytes ≡ kc'.budget_bytes =
        sym
          (ap (λ (s : Store). s.budget_bytes) (evict-keeps score unlink kc files fit.file_bytes)) in
      if_cases IsOk fit.fits
        (λ e.
          write_file-IsOk r count text estimate payload kc'
            (after_eviction kc.dir c.unlink tried files)
            (subst (Fits text payload estimate) budget f) s)
        (λ e. cc (f.by_estimate, e))

  write_new-IsOk_staged :
      (r : Request) (count : ℕ) (text : Bytes) (estimate : ℕ) (payload : Bytes) (kc : Store)
      (files : List DirEntry)
      → c.staged ≡ some payload
      → Fits text payload estimate kc.budget_bytes
      → Succeeds text
      → IsOk (write_new score c r count text estimate c.staged kc files)
  write_new-IsOk_staged r count text estimate payload kc files e f s =
      subst (λ (o : Option Bytes). IsOk (write_new score c r count text estimate o kc files))
        (sym e) (write_new-IsOk r count text estimate payload kc files f s)

  pub rewrite_file-IsOk :
      (text : Bytes) (estimate : ℕ) (file : Option Bytes) (kc : Store) (files : List DirEntry)
      → IsOk (rewrite_file score c text estimate file kc files)
  unfolding rewrite_file
  rewrite_file-IsOk text estimate none kc files = refl
  rewrite_file-IsOk text estimate (some file) kc files =
      if_intro IsOk (not c.writes_trailer) refl refl

  write_or_rewrite-IsOk :
      (r : Request) (count : ℕ) (text : Bytes) (estimate : ℕ) (payload : Bytes) (found : Existing)
      (kc : Store) (files : List DirEntry)
      → c.staged ≡ some payload
      → Fits text payload estimate kc.budget_bytes
      → Succeeds text
      → IsOk (write_or_rewrite score c r count text estimate found kc files)
  unfolding write_or_rewrite
  write_or_rewrite-IsOk r count text estimate payload kept kc files e f s =
      rewrite_file-IsOk text estimate (file_named (file_name (sha1_bytes_hex text)) files) kc files
  write_or_rewrite-IsOk r count text estimate payload absent kc files e f s =
      write_new-IsOk_staged r count text estimate payload kc files e f s
  write_or_rewrite-IsOk r count text estimate payload unlinked kc files e f s =
      write_new-IsOk_staged r count text estimate payload kc
        (remaining
          (λ (n : Bytes).
            bytes_eq n (file_name (sha1_bytes_hex text)) && c.unlink (path_join kc.dir n))
          files)
        e f s

  store_text-IsOk :
      (r : Request) (count : ℕ) (text : Bytes) (estimate : ℕ) (payload : Bytes) (kc : Store)
      (files : List DirEntry)
      → c.trailer_size text ≡ some estimate
      → c.staged ≡ some payload
      → Fits text payload estimate kc.budget_bytes
      → Succeeds text
      → IsOk (store_text score c r count text (c.trailer_size text) kc files)
  unfolding store_text
  store_text-IsOk r count text estimate payload kc files size e f s =
      subst (λ (o : Option ℕ). IsOk (store_text score c r count text o kc files)) (sym size)
        (write_or_rewrite-IsOk r count text estimate payload (existing_file score c text kc files)
          kc files e f s)

  no_guard :
      (a b : Bool) (n : ℕ)
      → a ≡ true
      → b ≡ true
      → n < 2 ^ 32
      → (not a || not b || ltb (2 ^ 32 - 1) n) ≡ true
      → ⊥
  no_guard a b n ha hb h g = ground arith

  enough : (on : Bool) (n m : ℕ) → on ≡ true → m ≤ n → (not on || ltb n m) ≡ true → ⊥
  enough on n m h l g = ground arith

  -- A store succeeds where the store is enabled, at least the least count of tokens is asked for, the
  -- quantisation is known, the session stands at those tokens, their text is shorter than 2^32, the
  -- payload can be staged, the file fits the budget by the estimate and by the trailer's own size,
  -- and every call on the file succeeds; whatever file the directory holds under the text's hash.
  pub store_live_prefix_text-IsOk :
      (r : Request) (tokens : List ℕ) (kc : Store) (files : List DirEntry) (payload : Bytes)
      (estimate : ℕ)
      → kc.enabled ≡ true
      → kc.opt.min_tokens ≤ r.store_len
      → quant_bits_valid c.quant_bits ≡ true
      → c.live ≡ some (take r.store_len tokens)
      → length (text_of c r (take r.store_len tokens)) < 2 ^ 32
      → c.trailer_size (text_of c r (take r.store_len tokens)) ≡ some estimate
      → c.staged ≡ some payload
      → Fits (text_of c r (take r.store_len tokens)) payload estimate kc.budget_bytes
      → Succeeds (text_of c r (take r.store_len tokens))
      → IsOk (store_live_prefix_text score c r (some tokens) kc files)
  unfolding store_live_prefix_text store_tokens tokens_copy_prefix
  store_live_prefix_text-IsOk r tokens kc files payload estimate on least quant live short size
        staged f s =
      let stored_tokens = take r.store_len tokens in
      let text = text_of c r stored_tokens in
      let stands : live_is c.live stored_tokens ≡ true =
        ap (λ (o : Option (List ℕ)). live_is o stored_tokens) live ∙ live_is_refl stored_tokens in
      if_cases IsOk (not kc.enabled || ltb r.store_len kc.opt.min_tokens)
        (λ g. absurd (enough kc.enabled r.store_len kc.opt.min_tokens on least g))
        (λ g.
          if_cases IsOk
            (not (quant_bits_valid c.quant_bits)
              || not (live_is c.live stored_tokens)
              || ltb (2 ^ 32 - 1) (length text))
            (λ g'. absurd (
              no_guard (quant_bits_valid c.quant_bits) (live_is c.live stored_tokens) (length text)
                quant stands short g'))
            (λ g'.
              store_text-IsOk r (length stored_tokens) text estimate payload kc files size staged f
                s))
