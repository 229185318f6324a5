-- ===== src/KvStore/Hit/Loads.antt =====
-- What `p36_kvstore_try_load_text` returns: a hit that is the file's of the longest checkpoint, or
-- a reason to load nothing.
use preon_star.Base.{
  ==_iff, Bool, Bool-cases, Bytes, List, Option, [], arith, drop, false, if_cases, inl, inr, length,
  none, not, refl, some, subst, sym, true, ℕ, ◌%◌, ◌++◌, ◌+◌, ◌==◌, ◌^◌, ◌||◌, ◌∙◌, ◌≡◌, ◌≢◌, ◌⊎◌,
}
use preon_star.KvStore.Header.{Entry, quant_bits_valid}
use preon_star.KvStore.Files.{DirEntry, touch_file}
use preon_star.KvStore.Find.{Query, find_text_prefix}
use preon_star.KvStore.Find.Longest.{IsTop, find_text_prefix-IsTop}
use preon_star.KvStore.Hit.{Hit, load_found, load_opened, settle_hit, touched, try_load_text}
use preon_star.KvStore.Load.{
  Cached, Failure, Loaded, after_payload, check_file, failed, load_cached, load_file, serves,
}
use preon_star.KvStore.Load.Serves.{Serves, check_file-Serves}
use preon_star.KvStore.Store.{Store}

module _ (load_payload : Bytes → ℕ → Option (List ℕ)) (tokenize : Bytes → List ℕ)
    (open_file : Bytes → Option Bytes) where
  -- what a hit promises: the checkpoint is the longest that may be loaded, its file is the one of
  -- its path and serves under its name, and the tokens are those of the file's payload, as many as
  -- its header counts; the prompt is these tokens and the tokens of the text behind the cached text
  pub record IsHit (kc : Store) (listing : Option (List DirEntry)) (q : Query) (now : ℕ) (h : Hit)
      : Type 0 where
    pub entry : Entry
    pub file : Bytes
    pub hdr : Entry
    pub text : Bytes
    pub payload : Bytes
    pub tokens : List ℕ
    pub found : (find_text_prefix kc listing q).1 ≡ some entry
    pub longest : IsTop (find_text_prefix kc listing q).0 q entry
    pub opened : open_file entry.path ≡ some file
    pub file_serves : Serves q entry.sha file hdr text payload
    pub loads : load_payload payload hdr.payload_bytes ≡ some tokens
    pub counted : length tokens ≡ hdr.tokens
    pub tokens_are : h.tokens ≡ hdr.tokens
    pub prompt_is : h.effective_prompt ≡ tokens ++ tokenize (drop (length text) q.prompt)
    pub continues : h.store.continued_last_store_tokens ≡ hdr.tokens
    pub touches : h.file ≡ touched (touch_file now ((hdr.hits + 1) % 2 ^ 32) file)

  -- the part of it that is about the file
  record FromFile (q : Query) (now : ℕ) (sha file : Bytes) (h : Hit) : Type 0 where
    hdr : Entry
    text : Bytes
    payload : Bytes
    tokens : List ℕ
    file_serves : Serves q sha file hdr text payload
    loads : load_payload payload hdr.payload_bytes ≡ some tokens
    counted : length tokens ≡ hdr.tokens
    tokens_are : h.tokens ≡ hdr.tokens
    prompt_is : h.effective_prompt ≡ tokens ++ tokenize (drop (length text) q.prompt)
    continues : h.store.continued_last_store_tokens ≡ hdr.tokens
    touches : h.file ≡ touched (touch_file now ((hdr.hits + 1) % 2 ^ 32) file)

  -- why a file that is open gives no tokens
  pub data FileFails (q : Query) (sha file : Bytes) : Type 0 where
    not_serving : (why : Failure) → check_file q sha file ≡ failed why → FileFails q sha file
    unread :
        (hdr : Entry) (text payload : Bytes)
        → check_file q sha file ≡ serves hdr text payload
        → load_payload payload hdr.payload_bytes ≡ none
        → FileFails q sha file
    miscounted :
        (hdr : Entry) (text payload : Bytes) (tokens : List ℕ)
        → check_file q sha file ≡ serves hdr text payload
        → load_payload payload hdr.payload_bytes ≡ some tokens
        → length tokens ≢ hdr.tokens
        → FileFails q sha file

  -- why a call loads nothing
  pub data Fails (kc : Store) (listing : Option (List DirEntry)) (q : Query) : Type 0 where
    disabled : kc.enabled ≡ false → Fails kc listing q
    unknown_quant : quant_bits_valid q.quant_bits ≡ false → Fails kc listing q
    none_found : (find_text_prefix kc listing q).1 ≡ none → Fails kc listing q
    no_file :
        (e : Entry)
        → (find_text_prefix kc listing q).1 ≡ some e
        → open_file e.path ≡ none
        → Fails kc listing q
    file_fails :
        (e : Entry) (file : Bytes)
        → (find_text_prefix kc listing q).1 ≡ some e
        → open_file e.path ≡ some file
        → FileFails q e.sha file
        → Fails kc listing q

  abbrev Missed : Hit → Type 0
  Missed h = (h.tokens ≡ 0) × (h.effective_prompt ≡ [])

  abbrev Outcome : Query → ℕ → Bytes → Bytes → Hit → Type 0
  Outcome q now sha file h = (Missed h × FileFails q sha file) ⊎ FromFile q now sha file h

  settle_payload :
      (kc : Store) (q : Query) (now : ℕ) (sha file : Bytes) (hdr : Entry) (text payload : Bytes)
      (read : Option (List ℕ))
      → check_file q sha file ≡ serves hdr text payload
      → load_payload payload hdr.payload_bytes ≡ read
      → Outcome q now sha file (settle_hit kc now file (after_payload tokenize q hdr text read))
  unfolding settle_hit after_payload
  settle_payload kc q now sha file hdr text payload none h r =
      inl ((refl, refl), unread hdr text payload h r)
  settle_payload kc q now sha file hdr text payload (some tokens) h r =
      if_cases (λ (l : Loaded). Outcome q now sha file (settle_hit kc now file l))
        (length tokens == hdr.tokens)
        (λ e. inr (record {
          hdr = hdr;
          text = text;
          payload = payload;
          tokens = tokens;
          file_serves = check_file-Serves q sha file hdr text payload h;
          loads = r;
          counted = (==_iff (length tokens) hdr.tokens).0 e;
          tokens_are = refl;
          prompt_is = refl;
          continues = refl;
          touches = refl;
        }))
        (λ e. inl (
          (refl, refl),
          miscounted hdr text payload tokens h r (other (length tokens) hdr.tokens e),
        ))
    where
      other : (a b : ℕ) → (a == b) ≡ false → a ≢ b
      other a b e = ground arith

  settle_hit-Outcome :
      (kc : Store) (q : Query) (now : ℕ) (sha file : Bytes) (c : Cached)
      → check_file q sha file ≡ c
      → Outcome q now sha file (settle_hit kc now file (load_cached load_payload tokenize q c))
  unfolding load_cached
  settle_hit-Outcome kc q now sha file (failed why) h =
      unfold settle_hit in inl ((refl, refl), not_serving why h)
  settle_hit-Outcome kc q now sha file (serves hdr text payload) h =
      settle_payload kc q now sha file hdr text payload (load_payload payload hdr.payload_bytes) h
        refl

  -- the checkpoint that was found is the longest one
  found-IsTop :
      (kc : Store) (listing : Option (List DirEntry)) (q : Query) (e : Entry)
      → (find_text_prefix kc listing q).1 ≡ some e
      → IsTop (find_text_prefix kc listing q).0 q e
  found-IsTop kc listing q e f = elim (find_text_prefix-IsTop kc listing q) [
    | inl (g, none_left) ↦ absurd (clash (sym g ∙ f))
    | inr (d, g, top) ↦ subst (IsTop (find_text_prefix kc listing q).0 q) (same (sym g ∙ f)) top
  ]
    where
      clash : none ≡ some e → ⊥
      clash h = cc h

      same : {d : Entry} → some d ≡ some e → d ≡ e
      same h = cc h

  load_opened-Outcome :
      (kc : Store) (listing : Option (List DirEntry)) (q : Query) (now : ℕ) (e : Entry)
      (read : Option Bytes)
      → (find_text_prefix kc listing q).1 ≡ some e
      → open_file e.path ≡ read
      → let h =
          load_opened load_payload tokenize open_file
            (find_text_prefix kc listing q).0
            q
            now
            e
            read in
        (Missed h × Fails kc listing q) ⊎ IsHit kc listing q now h
  load_opened-Outcome kc listing q now e none f o =
      unfold load_opened in inl ((refl, refl), no_file e f o)
  load_opened-Outcome kc listing q now e (some file) f o =
      unfold load_opened load_file in
      elim (settle_hit-Outcome (find_text_prefix kc listing q).0 q now e.sha file
        (check_file q e.sha file) refl) [
          | inl (m, why) ↦ inl (m, file_fails e file f o why)
          | inr h ↦ inr (record {
            entry = e;
            file = file;
            hdr = h.hdr;
            text = h.text;
            payload = h.payload;
            tokens = h.tokens;
            found = f;
            longest = found-IsTop kc listing q e f;
            opened = o;
            file_serves = h.file_serves;
            loads = h.loads;
            counted = h.counted;
            tokens_are = h.tokens_are;
            prompt_is = h.prompt_is;
            continues = h.continues;
            touches = h.touches;
          })
        ]

  load_found-Outcome :
      (kc : Store) (listing : Option (List DirEntry)) (q : Query) (now : ℕ) (best : Option Entry)
      → (find_text_prefix kc listing q).1 ≡ best
      → let h =
          load_found load_payload tokenize open_file (find_text_prefix kc listing q).0 q now best in
        (Missed h × Fails kc listing q) ⊎ IsHit kc listing q now h
  load_found-Outcome kc listing q now none f = unfold load_found in inl ((refl, refl), none_found f)
  load_found-Outcome kc listing q now (some e) f =
      unfold load_found in load_opened-Outcome kc listing q now e (open_file e.path) f refl

  refused :
      (kc : Store) (listing : Option (List DirEntry)) (q : Query)
      → (not kc.enabled || not (quant_bits_valid q.quant_bits)) ≡ true
      → Fails kc listing q
  refused kc listing q h = elim (Bool-cases kc.enabled) [
    | inr e ↦ disabled e
    | inl e ↦ unknown_quant (second kc.enabled (quant_bits_valid q.quant_bits) e h)
  ]
    where
      second : (a b : Bool) → a ≡ true → (not a || not b) ≡ true → b ≡ false
      second a b e g = ground arith

  -- Whatever the directory and the files hold, the call either loads nothing, because the store is
  -- disabled, the quantisation is unknown, no checkpoint is found, its file cannot be opened or
  -- does not serve, or the engine reads no tokens from its payload or another count than the
  -- header's; or it loads the checkpoint that the search found, the longest that may be loaded: the
  -- file of its path serves under its name, the tokens are those that the engine reads from the
  -- file's payload, as many as its header counts, the effective prompt is these tokens and those of
  -- the rest of the prompt, and the file gets one more hit and the time.
  pub try_load_text-IsHit :
      (kc : Store) (listing : Option (List DirEntry)) (q : Query) (now : ℕ)
      → let h = try_load_text load_payload tokenize open_file kc listing q now in
        ((h.tokens ≡ 0) × (h.effective_prompt ≡ []) × Fails kc listing q) ⊎ IsHit kc listing q now h
  try_load_text-IsHit kc listing q now =
      let r = find_text_prefix kc listing q in
      let P : Hit → Type 0 = λ h. (Missed h × Fails kc listing q) ⊎ IsHit kc listing q now h in
      unfold try_load_text in
      flat (
        if_cases P (not kc.enabled || not (quant_bits_valid q.quant_bits))
          (λ e. inl ((refl, refl), refused kc listing q e))
          (λ e. load_found-Outcome kc listing q now r.1 refl))
    where
      flat :
          {h : Hit}
          → (Missed h × Fails kc listing q) ⊎ IsHit kc listing q now h
          → ((h.tokens ≡ 0) × (h.effective_prompt ≡ []) × Fails kc listing q)
            ⊎ IsHit kc listing q now h
      flat (inl ((a, b), c)) = inl (a, b, c)
      flat (inr x) = inr x
