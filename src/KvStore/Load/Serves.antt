-- ===== src/KvStore/Load/Serves.antt =====
-- What a file that serves holds, and that a stored file serves.
use mathlib.Core.Bool.{not}
use preon_star.Base.{
  ==_iff, Bool, Bytes, Option, ap, ap₂, arith, bytes_eq, bytes_eq_refl, bytes_eq_sound, drop,
  drop-length_append, false, if◌then◌else◌, length, length-append, length-take, le→ltb, ltb,
  ltb-false→le, none, refl, some, starts_with, starts_with-append, starts_with-split, sym, take,
  take-append-drop, take-length_append, true, ◌%◌, ◌++◌, ◌==◌, ◌∙◌, ◌≡◌,
}
use preon_star.KvStore.Load.{
  Cached, check_file, check_header, check_text, different_model, failed, hash_mismatch,
  longer_than_prompt, prefix_mismatch, serves, truncated_text,
}
use preon_star.KvStore.Header.{
  Entry, IsStorable, file_of, read_header, read_header-fill_header, stored,
}
use preon_star.KvStore.Sha1.{sha1_bytes_hex}
use preon_star.KvStore.Find.{Query}

abbrev pub Serves : Query → Bytes → Bytes → Entry → Bytes → Bytes → Type 0
Serves q sha file hdr text payload =
    (read_header file ≡ some (hdr, text ++ payload))
    × (length text ≡ hdr.text_bytes)
    × (hdr.model_id ≡ q.model_id % 256)
    × (sha1_bytes_hex text ≡ sha)
    × ((suffix : Bytes) × (q.prompt ≡ text ++ suffix))

text_passes :
    (a b : Bool) (hdr hdr' : Entry) (text text' payload payload' : Bytes)
    → (if not a
        then failed hash_mismatch
        else if not b
        then failed prefix_mismatch
        else serves hdr text payload)
      ≡ serves hdr' text' payload'
    → (hdr ≡ hdr') × (text ≡ text') × (payload ≡ payload') × (a ≡ true) × (b ≡ true)
text_passes true true hdr hdr' text text' payload payload' h = (cc h, cc h, cc h, refl, refl)
text_passes true false hdr hdr' text text' payload payload' h = cc h
text_passes false b hdr hdr' text text' payload payload' h = cc h

header_passes :
    (a b c : Bool) (w : Cached) (hdr : Entry) (text payload : Bytes)
    → (if not a
        then failed different_model
        else if b
        then failed longer_than_prompt
        else if c
        then failed truncated_text
        else w)
      ≡ serves hdr text payload
    → (a ≡ true) × (c ≡ false) × (w ≡ serves hdr text payload)
header_passes true false false w hdr text payload h = (refl, refl, h)
header_passes true false true w hdr text payload h = cc h
header_passes true true c w hdr text payload h = cc h
header_passes false b c w hdr text payload h = cc h

check_header-Serves :
    (q : Query) (sha : Bytes) (read : Option (Entry × Bytes)) (hdr : Entry) (text payload : Bytes)
    → check_header q sha read ≡ serves hdr text payload
    → (read ≡ some (hdr, text ++ payload))
      × (length text ≡ hdr.text_bytes)
      × (hdr.model_id ≡ q.model_id % 256)
      × (sha1_bytes_hex text ≡ sha)
      × ((suffix : Bytes) × (q.prompt ≡ text ++ suffix))
check_header-Serves q sha none hdr text payload h = unfold check_header in cc h
check_header-Serves q sha (some (e, rest)) hdr text payload h =
    let n = e.text_bytes in
    let heads : ((e.model_id == q.model_id % 256) ≡ true)
        × (ltb (length rest) n ≡ false)
        × (check_text q sha e (take n rest) (drop n rest) ≡ serves hdr text payload) =
      unfold check_header in
      header_passes (e.model_id == q.model_id % 256) (ltb (length q.prompt) n) (ltb (length rest) n)
        (check_text q sha e (take n rest) (drop n rest)) hdr text payload h in
    let (a, c, w) = heads in
    let texts : (e ≡ hdr)
        × (take n rest ≡ text)
        × (drop n rest ≡ payload)
        × (bytes_eq (sha1_bytes_hex (take n rest)) sha ≡ true)
        × (starts_with (take n rest) q.prompt ≡ true) =
      unfold check_text in
      text_passes (bytes_eq (sha1_bytes_hex (take n rest)) sha) (starts_with (take n rest) q.prompt)
        e hdr (take n rest) text (drop n rest) payload w in
    let (eh, et, ep, hash, front) = texts in
    let parts : text ++ payload ≡ rest = rw (← et, ← ep) (take-append-drop n rest) in
    let size : length text ≡ e.text_bytes =
      rw (← et) (omega (arith, length-take n rest, ltb-false→le (length rest) n c)) in
    (
      ap₂ (λ (d : Entry) (t : Bytes). some (d, t)) eh (sym parts),
      size ∙ ap (λ (d : Entry). d.text_bytes) eh,
      sym (ap (λ (d : Entry). d.model_id) eh) ∙ (==_iff e.model_id (q.model_id % 256)).0 a,
      rw (← et) (bytes_eq_sound (sha1_bytes_hex (take n rest)) sha hash),
      rw (← et) (starts_with-split (take n rest) q.prompt front),
    )

-- A file serves a query under a name only if the model is the query's, the text that its header
-- announces is there, hashes to the name, and is a prefix of the prompt.
pub check_file-Serves :
    (q : Query) (sha file : Bytes) (hdr : Entry) (text payload : Bytes)
    → check_file q sha file ≡ serves hdr text payload
    → Serves q sha file hdr text payload
check_file-Serves q sha file hdr text payload h =
    check_header-Serves q sha (read_header file) hdr text payload (unfold check_file in h)

check_header-stored :
    (e : Entry) (text payload suffix : Bytes) (q : Query)
    → length text ≡ e.text_bytes
    → e.model_id ≡ q.model_id % 256
    → q.prompt ≡ text ++ suffix
    → check_header q (sha1_bytes_hex text) (some (stored e, text ++ payload))
      ≡ serves (stored e) text payload
check_header-stored e text payload suffix q l m p =
    let same : (e.model_id == q.model_id % 256) ≡ true =
      (==_iff e.model_id (q.model_id % 256)).1 m in
    let shorter : ltb (length q.prompt) e.text_bytes ≡ false =
      le→ltb (length q.prompt) e.text_bytes (rw p (omega (arith, l, length-append text suffix))) in
    let holds : ltb (length (text ++ payload)) e.text_bytes ≡ false =
      le→ltb (length (text ++ payload)) e.text_bytes
        (omega (arith, l, length-append text payload)) in
    let t : take e.text_bytes (text ++ payload) ≡ text =
      rw (← l) (take-length_append text payload) in
    let d : drop e.text_bytes (text ++ payload) ≡ payload =
      rw (← l) (drop-length_append text payload) in
    let front : starts_with text q.prompt ≡ true = rw p (starts_with-append text suffix) in
    unfold check_header check_text in
    rw (same, shorter, holds, t, d, bytes_eq_refl (sha1_bytes_hex text), front) refl

-- A file that was written for an entry in range and a text serves, under the text's hash, every
-- query of the same model whose prompt goes on from the text, and gives the payload back.
pub check_file-file_of :
    (e : Entry) (text payload suffix : Bytes) (q : Query)
    → IsStorable e
    → length text ≡ e.text_bytes
    → e.model_id ≡ q.model_id % 256
    → q.prompt ≡ text ++ suffix
    → check_file q (sha1_bytes_hex text) (file_of e (text ++ payload))
      ≡ serves (stored e) text payload
check_file-file_of e text payload suffix q v l m p =
    opened (file_of e (text ++ payload))
    ∙ ap (check_header q (sha1_bytes_hex text)) (read_header-fill_header e (text ++ payload) v)
    ∙ check_header-stored e text payload suffix q l m p
  where
    opened :
        (file : Bytes)
        → check_file q (sha1_bytes_hex text) file
          ≡ check_header q (sha1_bytes_hex text) (read_header file)
    opened file = unfold check_file in refl
