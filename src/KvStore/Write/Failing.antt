-- ===== src/KvStore/Write/Failing.antt =====
-- What a store that fails leaves in the directory.
use preon_star.Base.{
  Bool, Bool-cases, Bytes, List, Option, ap, bytes_eq, bytes_eq_refl, bytes_eq_sound, false,
  if_intro, if◌then◌else◌, inl, inr, length, ltb, none, not, refl, some, subst, sym, take, true, ℕ,
  ◌&&◌, ◌++◌, ◌-◌, ◌^◌, ◌||◌, ◌∙◌, ◌≡◌, ◌⊎◌,
}
use preon_star.KvStore.Write.{
  Calls, Outcome, Request, after_eviction, existing_file, file_named, is_removed, live_is, put_file,
  remaining, tmp_name, unlink_tmp, written_entry, store_live_prefix_text, store_text, store_tokens,
  text_of, write_file, write_new, write_or_rewrite,
}
use preon_star.KvStore.Evict.{evict}
use preon_star.KvStore.Evict.Fits.{evict-keeps}
use preon_star.KvStore.Files.{DirEntry}
use preon_star.KvStore.Find.{Existing, absent, kept, unlinked}
use preon_star.KvStore.Header.{Entry, file_of, quant_bits_valid}
use preon_star.KvStore.Names.{file_name, path_join}
use preon_star.KvStore.Open.{tokens_copy_prefix}
use preon_star.KvStore.Sha1.{sha1_bytes_hex}
use preon_star.KvStore.Sizes.{file_size_fits}
use preon_star.KvStore.Store.{Store}
use preon_star.KvStore.Write.Directory.{file_named-put_other, file_named-remaining}
use preon_star.KvStore.Write.Succeeding.{rewrite_file-IsOk}

-- nothing new by a name: what it finds was there, or is gone
abbrev pub IsUnchanged : Bytes → List DirEntry → List DirEntry → Type 0
IsUnchanged name files files' =
    (file_named name files' ≡ none) ⊎ (file_named name files' ≡ file_named name files)

remaining-IsUnchanged :
    (name : Bytes) (gone : Bytes → Bool) (files files' : List DirEntry)
    → IsUnchanged name files files'
    → IsUnchanged name files (remaining gone files')
remaining-IsUnchanged name gone files files' u =
    let P : Option Bytes → Type 0 = λ o. (o ≡ none) ⊎ (o ≡ file_named name files) in
    subst P (sym (file_named-remaining gone name files')) (if_intro P (gone name) (inl refl) u)

IsUnchanged-trans :
    (name : Bytes) (a b d : List DirEntry)
    → IsUnchanged name a b
    → IsUnchanged name b d
    → IsUnchanged name a d
IsUnchanged-trans name a b d u v = elim v [
  | inl e ↦ inl e
  | inr e ↦ elim u [ inl e' ↦ inl (e ∙ e') | inr e' ↦ inr (e ∙ e') ]
]

same-IsUnchanged : (name : Bytes) (files : List DirEntry) → IsUnchanged name files files
same-IsUnchanged name files = inr refl

-- a file is put under another name
put_other-IsUnchanged :
    (new name bytes : Bytes) (files : List DirEntry)
    → bytes_eq new name ≡ false
    → IsUnchanged name files (put_file new bytes files)
put_other-IsUnchanged new name bytes files h =
    subst (λ (o : Option Bytes). (o ≡ none) ⊎ (o ≡ file_named name files))
      (sym (file_named-put_other new name bytes files h))
      (remaining-IsUnchanged name (λ (n : Bytes). bytes_eq n new) files files
        (same-IsUnchanged name files))

-- a file that is put and removed again is gone
gone-none :
    (name : Bytes) (files : List DirEntry)
    → file_named name (remaining (λ (n : Bytes). bytes_eq n name) files) ≡ none
gone-none name files =
    file_named-remaining (λ (n : Bytes). bytes_eq n name) name files
    ∙ ap (λ (b : Bool). if b then none else file_named name files) (bytes_eq_refl name)

module _ (score : Entry → ℕ) (c : Calls) (name : Bytes) where
  -- what a failed call leaves
  abbrev pub LeavesNoPart : List DirEntry → Outcome → Type 0
  LeavesNoPart files o = o.ok ≡ false → IsUnchanged name files o.files

  -- the name is no temporary file's, or that can be removed
  abbrev pub Removable : Bytes → Bytes → Type 0
  Removable dir text =
      name ≡ tmp_name score c text → c.unlink (path_join dir (tmp_name score c text)) ≡ true

  unlink_tmp-IsUnchanged :
      (dir text bytes : Bytes) (files : List DirEntry)
      → Removable dir text
      → IsUnchanged name files
          (unlink_tmp score c dir text (put_file (tmp_name score c text) bytes files))
  unfolding unlink_tmp
  unlink_tmp-IsUnchanged dir text bytes files h =
      let tmp = tmp_name score c text in
      let begun = put_file tmp bytes files in
      let left : Bool → List DirEntry =
        λ b. if b then remaining (λ (n : Bytes). bytes_eq n tmp) begun else begun in
      elim (Bool-cases (bytes_eq tmp name)) [
        | inl e ↦
            let same : tmp ≡ name = bytes_eq_sound tmp name e in
            inl (
              ap (λ (b : Bool). file_named name (left b)) (h (sym same))
              ∙ ap (λ (m : Bytes). file_named m (left true)) (sym same)
              ∙ gone-none tmp begun)
        | inr e ↦
            let other : IsUnchanged name files begun =
              put_other-IsUnchanged tmp name bytes files e in
            if_intro (IsUnchanged name files) (c.unlink (path_join dir tmp))
              (remaining-IsUnchanged name (λ (n : Bytes). bytes_eq n tmp) files begun other) other
      ]

  write_file-LeavesNoPart :
      (r : Request) (count : ℕ) (text : Bytes) (estimate : ℕ) (payload : Bytes) (kc : Store)
      (files : List DirEntry)
      → Removable kc.dir text
      → LeavesNoPart files (write_file score c r count text estimate payload kc files)
  unfolding write_file
  write_file-LeavesNoPart r count text estimate payload kc files can =
      let file =
        file_of (written_entry score c r count text estimate payload)
          (text ++ (payload ++ (c.trailer text).0)) in
      let whole = c.written && (c.trailer text).1 in
      if_intro (LeavesNoPart files) (not c.opened) (λ h. same-IsUnchanged name files)
        (if_intro (LeavesNoPart files)
          (whole
            && (file_size_fits kc.budget_bytes (length text) (length payload)
                (length (c.trailer text).0)).fits
            && c.renamed)
          (λ h. cc h)
          (λ h.
            unlink_tmp-IsUnchanged kc.dir text (if whole then file else take c.part file) files
              can))

  write_new-LeavesNoPart :
      (r : Request) (count : ℕ) (text : Bytes) (estimate : ℕ) (staged : Option Bytes) (kc : Store)
      (files : List DirEntry)
      → Removable kc.dir text
      → LeavesNoPart files (write_new score c r count text estimate staged kc files)
  unfolding write_new after_eviction
  write_new-LeavesNoPart r count text estimate none kc files can = λ h. same-IsUnchanged name files
  write_new-LeavesNoPart r count text estimate (some payload) kc files can =
      let fit = file_size_fits kc.budget_bytes (length text) (length payload) estimate in
      let (kc', tried) =
        evict score (λ (e : Entry). c.unlink e.path) kc (some files) fit.file_bytes in
      let same_dir : kc'.dir ≡ kc.dir =
        ap (λ (s : Store). s.dir)
          (evict-keeps score (λ (e : Entry). c.unlink e.path) kc files fit.file_bytes) in
      let can' : Removable kc'.dir text =
        subst (λ (d : Bytes). Removable d text) (sym same_dir) can in
      let gone : Bytes → Bool = λ n. is_removed c.unlink tried (path_join kc.dir n) in
      if_intro (LeavesNoPart files) fit.fits
        (λ h.
          IsUnchanged-trans name files (remaining gone files)
            (write_file score c r count text estimate payload kc' (remaining gone files)).files
            (remaining-IsUnchanged name gone files files (same-IsUnchanged name files))
            (write_file-LeavesNoPart r count text estimate payload kc' (remaining gone files) can'
              h))
        (λ h. same-IsUnchanged name files)

  write_or_rewrite-LeavesNoPart :
      (r : Request) (count : ℕ) (text : Bytes) (estimate : ℕ) (found : Existing) (kc : Store)
      (files : List DirEntry)
      → Removable kc.dir text
      → LeavesNoPart files (write_or_rewrite score c r count text estimate found kc files)
  unfolding write_or_rewrite
  write_or_rewrite-LeavesNoPart r count text estimate kept kc files can h = cc (
    rewrite_file-IsOk score c text estimate (file_named (file_name (sha1_bytes_hex text)) files) kc
        files,
    h,
  )
  write_or_rewrite-LeavesNoPart r count text estimate absent kc files can h =
      write_new-LeavesNoPart r count text estimate c.staged kc files can h
  write_or_rewrite-LeavesNoPart r count text estimate unlinked kc files can h =
      let gone : Bytes → Bool =
        λ n. bytes_eq n (file_name (sha1_bytes_hex text)) && c.unlink (path_join kc.dir n) in
      IsUnchanged-trans name files (remaining gone files)
        (write_new score c r count text estimate c.staged kc (remaining gone files)).files
        (remaining-IsUnchanged name gone files files (same-IsUnchanged name files))
        (write_new-LeavesNoPart r count text estimate c.staged kc (remaining gone files) can h)

  store_text-LeavesNoPart :
      (r : Request) (count : ℕ) (text : Bytes) (size : Option ℕ) (kc : Store)
      (files : List DirEntry)
      → Removable kc.dir text
      → LeavesNoPart files (store_text score c r count text size kc files)
  unfolding store_text
  store_text-LeavesNoPart r count text none kc files can = λ h. same-IsUnchanged name files
  store_text-LeavesNoPart r count text (some estimate) kc files can =
      write_or_rewrite-LeavesNoPart r count text estimate (existing_file score c text kc files) kc
        files can

  -- A store that fails leaves no file in part: what a name finds in the directory afterwards it
  -- found before, byte for byte, unless the file was removed; the temporary file is among them
  -- where it can be removed.
  pub store_live_prefix_text-IsUnchanged :
      (r : Request) (tokens : Option (List ℕ)) (kc : Store) (files : List DirEntry)
      → ((text : Bytes)
          → name ≡ tmp_name score c text
          → c.unlink (path_join kc.dir (tmp_name score c text)) ≡ true)
      → (store_live_prefix_text score c r tokens kc files).ok ≡ false
      → IsUnchanged name files (store_live_prefix_text score c r tokens kc files).files
  unfolding store_live_prefix_text store_tokens tokens_copy_prefix
  store_live_prefix_text-IsUnchanged r none kc files can = λ h. same-IsUnchanged name files
  store_live_prefix_text-IsUnchanged r (some tokens) kc files can =
      let stored_tokens = take r.store_len tokens in
      let text = text_of c r stored_tokens in
      if_intro (LeavesNoPart files) (not kc.enabled || ltb r.store_len kc.opt.min_tokens)
        (λ h. same-IsUnchanged name files)
        (if_intro (LeavesNoPart files)
          (not (quant_bits_valid c.quant_bits)
            || not (live_is c.live stored_tokens)
            || ltb (2 ^ 32 - 1) (length text))
          (λ h. same-IsUnchanged name files)
          (store_text-LeavesNoPart r (length stored_tokens) text (c.trailer_size text) kc files
            (can text)))
