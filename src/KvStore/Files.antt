-- ===== src/KvStore/Files.antt =====
-- The checkpoint files of the directory. A file is its name and its bytes; `stat` gives the number
-- of the bytes.
use mathlib.Core.Bool.{not}
use preon_star.Base.{
  Bool, Bytes, List, Option, [], ap, arith, drop, false, if◌then◌else◌, leb, length, length-append,
  ltb, none, refl, some, true, ℕ, ◌++◌, ◌+◌, ◌-◌, ◌<◌, ◌^◌, ◌||◌, ◌∙◌, ◌∷◌, ◌≡◌,
}
use preon_star.KvStore.Header.{
  Entry, IsStorable, file_of, fill_header, read_header, read_header-fill_header, stored,
}
use preon_star.KvStore.Names.{path_join, sha_hex_name}
use preon_star.KvStore.Sizes.{fixed, uint64_max}
use preon_star.KvStore.Store.{Store}

-- `struct dirent` and the file that it names
pub record DirEntry : Type 0 where
  pub name : Bytes
  pub bytes : Bytes

-- the file holds the text and the payload that its header announces
unfoldable pub is_complete : ℕ → Entry → Bool
is_complete size e =
    if ltb (uint64_max - fixed) e.text_bytes
      || ltb (uint64_max - fixed - e.text_bytes) e.payload_bytes
    then false
    else leb (fixed + e.text_bytes + e.payload_bytes) size

unfoldable pub entry_of : Bytes → Bytes → ℕ → Option (Entry × Bytes) → Option Entry
unfolding is_complete
entry_of path sha size none = none
entry_of path sha size (some (e, rest)) =
    if is_complete size e
    then some (record e { sha = sha; path = path; file_size = size })
    else none

-- `p36_kvstore_read_entry_file`
unfoldable pub read_entry_file : Bytes → Bytes → Bytes → Option Entry
unfolding read_header entry_of
read_entry_file path sha file =
    if ltb (length file) fixed then none else entry_of path sha (length file) (read_header file)

-- one round of the loop of `kv_cache_refresh`: the entry, if the file is a checkpoint
unfoldable pub entry_at : Bytes → DirEntry → Option Bytes → Option Entry
unfolding read_entry_file path_join
entry_at dir f none = none
entry_at dir f (some sha) = read_entry_file (path_join dir f.name) sha f.bytes

abbrev pub push : Option Entry → List Entry → List Entry
push none es = es
push (some e) es = e ∷ es

unfoldable pub entries_of : Bytes → List DirEntry → List Entry
unfolding entry_at sha_hex_name
entries_of dir [] = []
entries_of dir (f ∷ fs) = push (entry_at dir f (sha_hex_name f.name)) (entries_of dir fs)

-- `kv_cache_refresh`; a directory that cannot be opened is `none`
unfoldable pub refresh : Store → Option (List DirEntry) → Store
unfolding entries_of
refresh kc listing = if not kc.enabled then kc else elim listing [
  | none ↦ record kc { entries = [] }
  | some fs ↦ record kc { entries = entries_of kc.dir fs }
]

unfoldable pub rewritten : ℕ → ℕ → Bytes → Option (Entry × Bytes) → Option Bytes
unfolding fill_header
rewritten now hits file none = none
rewritten now hits file (some (e, rest)) =
    some (fill_header (record e { hits = hits; last_used = now }) ++ drop 48 file)

-- `p36_kvstore_touch_file`: the file's bytes afterwards, where its header is written again
unfoldable pub touch_file : ℕ → ℕ → Bytes → Option Bytes
unfolding read_header rewritten
touch_file now hits file = rewritten now hits file (read_header file)

-- A file that is written for an entry in range is, after it was touched, what is written for the entry
-- with the new count and the new time; the text, the payload and the trailer stay.
pub touch_file-file_of :
    (e : Entry) (r : Bytes) (now hits : ℕ)
    → IsStorable e
    → touch_file now hits (file_of e r)
      ≡ some (file_of (record e { hits = hits; last_used = now }) r)
touch_file-file_of e r now hits v =
    opened (file_of e r)
    ∙ ap (rewritten now hits (file_of e r)) (read_header-fill_header e r v)
    ∙ (unfold rewritten fill_header in refl)
  where
    opened : (file : Bytes) → touch_file now hits file ≡ rewritten now hits file (read_header file)
    opened file = unfold touch_file in refl

length-file_of : (e : Entry) (r : Bytes) → length (file_of e r) ≡ fixed + length r
unfolding fill_header
length-file_of e r = omega arith

-- A file that holds what is written for an entry in range, its text and its payload, is listed
-- with the entry's fields, its name and its size.
pub read_entry_file-file_of :
    (e : Entry) (path sha text payload trailer : Bytes)
    → IsStorable e
    → length text ≡ e.text_bytes
    → length payload ≡ e.payload_bytes
    → fixed + length text + length payload < 2 ^ 64
    → read_entry_file path sha (file_of e (text ++ (payload ++ trailer)))
      ≡ some (record e {
        sha = sha;
        path = path;
        file_size = fixed + length text + length payload + length trailer;
      })
read_entry_file-file_of e path sha text payload trailer v ht hp room =
    let r = text ++ (payload ++ trailer) in
    let size : length (file_of e r) ≡ fixed + length text + length payload + length trailer =
      omega (
        arith,
        length-file_of e r,
        length-append text (payload ++ trailer),
        length-append payload trailer,
      ) in
    let complete : is_complete (length (file_of e r)) (stored e) ≡ true =
      unfold is_complete in ground (arith, size, ht, hp, room) in
    let enough : ltb (length (file_of e r)) fixed ≡ false = ground (arith, size) in
    opened (file_of e r)
    ∙ ap
        (λ b.
          if b then none else entry_of path sha (length (file_of e r)) (read_header (file_of e r)))
        enough
    ∙ ap (entry_of path sha (length (file_of e r))) (read_header-fill_header e r v)
    ∙ (unfold entry_of in rw (complete, size) refl)
  where
    opened :
        (file : Bytes)
        → read_entry_file path sha file ≡ (
            if ltb (length file) fixed
            then none
            else entry_of path sha (length file) (read_header file))
    opened file = unfold read_entry_file in refl
