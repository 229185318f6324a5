-- ===== src/KvStore/Trailer.antt =====
-- `kv_cache_rewrite_trailer`. The hooks are parameters: the estimate of the trailer's size (`none`
-- where there is no hook or it fails), and the bytes that the write leaves with whether it
-- succeeds. Every call on the file succeeds.
use Prim.Native.Nat.{bit_or}
use preon_star.Base.{
  Bool, Bytes, Option, ap, append-nil, arith, drop, false, if◌then◌else◌, leb, length,
  length-append, le→leb, ltb, lt→ltb, none, refl, replicate, some, sym, take, take-length_append,
  true, ℕ, ◌%◌, ◌&&◌, ◌++◌, ◌+◌, ◌-◌, ◌<◌, ◌==◌, ◌^◌, ◌∙◌, ◌≡◌,
}
use preon_star.KvStore.Header.{
  Entry, IsStorable, file_of, fill_header, read_header, read_header-fill_header, stored,
}
use preon_star.KvStore.Sizes.{fixed}
use preon_star.KvStore.Word.{le_put32}

-- `ftruncate`: cut, or filled up with zeros
unfoldable pub truncate : ℕ → Bytes → Bytes
truncate n file = take n file ++ replicate (n - length file) 0

-- the header, written again where the trailer has bytes
unfoldable pub with_flag : ℕ → ℕ → Entry → Bytes → Bool → Bytes → Bytes
unfolding fill_header
with_flag now flag hdr trailer ok file =
    if ok && ltb 0 (length trailer)
    then fill_header (record hdr { ext_flags = bit_or hdr.ext_flags flag % 256; last_used = now })
      ++ drop 48 file
    else file

unfoldable pub rewrite_behind : ℕ → ℕ → Bytes → Bool → Bytes → Option (Entry × Bytes) → Bytes
unfolding truncate with_flag
rewrite_behind now flag trailer ok file none = file
rewrite_behind now flag trailer ok file (some (hdr, rest)) =
    let end = (fixed + hdr.text_bytes + hdr.payload_bytes) % 2 ^ 64 in
    if leb end (2 ^ 63 - 1)
    then with_flag now flag hdr trailer ok (truncate end file ++ trailer)
    else file

-- `kv_cache_rewrite_trailer`: the file's bytes afterwards
unfoldable pub rewrite_trailer : ℕ → ℕ → Option ℕ → Bytes → Bool → Bytes → Bytes
unfolding rewrite_behind read_header
rewrite_trailer now flag none trailer ok file = file
rewrite_trailer now flag (some estimate) trailer ok file =
    if estimate == 0 then file else rewrite_behind now flag trailer ok file (read_header file)

abbrev pub flagged : ℕ → ℕ → Entry → Entry
flagged now flag e = record e { ext_flags = bit_or e.ext_flags flag % 256; last_used = now }

length-file_front : (e : Entry) (r : Bytes) → length (file_of e r) ≡ fixed + length r
unfolding fill_header
length-file_front e r = omega arith

file_of-append : (e : Entry) (r t : Bytes) → file_of e (r ++ t) ≡ file_of e r ++ t
unfolding fill_header le_put32
file_of-append e r t = refl

truncate-append : (n : ℕ) (s t : Bytes) → length s ≡ n → truncate n (s ++ t) ≡ s
unfolding truncate
truncate-append n s t h =
    let z : n - length (s ++ t) ≡ 0 = omega (arith, length-append s t, h) in
    rw (z, append-nil) (rw (← h) (take-length_append s t))

with_flag-file_of :
    (now flag : ℕ) (e : Entry) (r trailer : Bytes)
    → 0 < length trailer
    → with_flag now flag (stored e) trailer true (file_of e r) ≡ file_of (flagged now flag e) r
with_flag-file_of now flag e r trailer h =
    let b : ltb 0 (length trailer) ≡ true = lt→ltb 0 (length trailer) h in
    unfold with_flag fill_header in rw b refl

rewrite_behind-file_of :
    (e : Entry) (body old trailer : Bytes) (now flag : ℕ)
    → length body ≡ e.text_bytes + e.payload_bytes
    → fixed + length body < 2 ^ 63
    → 0 < length trailer
    → rewrite_behind now flag trailer true (file_of e (body ++ old)) (some (stored e, body ++ old))
      ≡ file_of (flagged now flag e) (body ++ trailer)
rewrite_behind-file_of e body old trailer now flag hb room some_trailer =
    let size : length (file_of e body) ≡ fixed + length body = length-file_front e body in
    let end : (fixed + e.text_bytes + e.payload_bytes) % 2 ^ 64 ≡ length (file_of e body) =
      omega (arith, size, hb, room) in
    let small : leb (length (file_of e body)) (2 ^ 63 - 1) ≡ true =
      le→leb (length (file_of e body)) (2 ^ 63 - 1) (omega (arith, size, room)) in
    let cut : truncate (length (file_of e body)) (file_of e (body ++ old)) ≡ file_of e body =
      ap (truncate (length (file_of e body))) (file_of-append e body old)
      ∙ truncate-append (length (file_of e body)) (file_of e body) old refl in
    behind now flag (stored e) trailer (file_of e (body ++ old)) (file_of e body) (body ++ old) end
      small cut
    ∙ ap (with_flag now flag (stored e) trailer true) (sym (file_of-append e body trailer))
    ∙ with_flag-file_of now flag e (body ++ trailer) trailer some_trailer
  where
    behind :
        (now flag : ℕ) (hdr : Entry) (trailer file front rest : Bytes)
        → (fixed + hdr.text_bytes + hdr.payload_bytes) % 2 ^ 64 ≡ length front
        → leb (length front) (2 ^ 63 - 1) ≡ true
        → truncate (length front) file ≡ front
        → rewrite_behind now flag trailer true file (some (hdr, rest))
          ≡ with_flag now flag hdr trailer true (front ++ trailer)
    behind now flag hdr trailer file front rest end small cut =
        unfold rewrite_behind in rw (end, small, cut) refl

-- In a file that was written for an entry in range, a new trailer takes the place of the old one,
-- and the header has the trailer's flag; the text and the payload stay.
pub rewrite_trailer-file_of :
    (e : Entry) (body old trailer : Bytes) (now flag estimate : ℕ)
    → IsStorable e
    → length body ≡ e.text_bytes + e.payload_bytes
    → fixed + length body < 2 ^ 63
    → 0 < length trailer
    → 0 < estimate
    → rewrite_trailer now flag (some estimate) trailer true (file_of e (body ++ old))
      ≡ file_of (flagged now flag e) (body ++ trailer)
rewrite_trailer-file_of e body old trailer now flag estimate v hb room some_trailer some_estimate =
    opened (file_of e (body ++ old))
    ∙ ap (rewrite_behind now flag trailer true (file_of e (body ++ old)))
        (read_header-fill_header e (body ++ old) v)
    ∙ rewrite_behind-file_of e body old trailer now flag hb room some_trailer
  where
    opened :
        (file : Bytes)
        → rewrite_trailer now flag (some estimate) trailer true file
          ≡ rewrite_behind now flag trailer true file (read_header file)
    opened file =
        let z : (estimate == 0) ≡ false = ground (arith, some_estimate) in
        unfold rewrite_trailer in rw z refl
