-- ===== src/Remote/Json/RoundTrip.antt =====
-- A value that is written as JSON text is read back.
use Prim.Native.Nat.{max}
use preon_star.Base.{
  Bool, Bytes, Option, [], ap, arith, codes, false, inl, length, length-append, refl, starts_with,
  suc, sym, true, zero, ℕ, ◌*◌, ◌++◌, ◌+◌, ◌<◌, ◌∙◌, ◌∷◌, ◌≡◌, ◌≤◌,
}
use preon_star.Remote.Quote.{json_quote, parse_string}
use preon_star.Remote.Json.{
  Kids, Parsed, Value, array, bind, boolean, closing, head_of, jv_parse, kid, leaf, nil,
  nothing_left, null, number, object, of_option, ok, on_head, parse_kids, scalar_at, skip_blanks,
  string, whole,
}
use preon_star.Remote.Json.Text.{
  IsKeyed, KeyedKids, ReadsNumbers, Stops, depth, depth_kids, emit, emit_kids, emit_more, need,
  need_kids, quoted_key,
}
use preon_star.Remote.Json.Reads.{
  Reads, at_depth, closing-Stops, emit-Starts, number_head, opened, round, separator-closing,
  separator-comma,
}
use preon_star.Remote.Quote.RoundTrip.{parse_string-json_quote}

module _ {D : Type 0} (strtod : Bytes → Option (D × Bytes)) (show : D → Bytes)
    (laws : ReadsNumbers strtod show) where
  -- the values whose text is fixed
  plain_heads :
      (r : Bytes) (kids : Bool → Bytes → Parsed (Kids D))
      → (on_head strtod (head_of strtod (codes "null" ++ r)) kids ≡ ok null r)
        × (on_head strtod (head_of strtod (codes "true" ++ r)) kids ≡ ok (boolean true) r)
        × (on_head strtod (head_of strtod (codes "false" ++ r)) kids ≡ ok (boolean false) r)
        × (on_head strtod (head_of strtod (b'[' ∷ b']' ∷ r)) kids ≡ ok (array nil) r)
        × (on_head strtod (head_of strtod (b'{' ∷ b'}' ∷ r)) kids ≡ ok (object nil) r)
  unfolding head_of scalar_at starts_with skip_blanks
  plain_heads r kids = (refl, refl, refl, refl, refl)

  need_pos : (v : Value D) → 0 < need v
  unfolding need
  need_pos null = omega arith
  need_pos (boolean b) = omega arith
  need_pos (number x) = omega arith
  need_pos (string s) = omega arith
  need_pos (array ks) = omega arith
  need_pos (object ks) = omega arith

  number_reads :
      (f d : ℕ) (x : D) (r : Bytes)
      → Stops r
      → on_head strtod (head_of strtod (emit show (number x) r)) (parse_kids strtod f d)
        ≡ ok (number x) r
  unfolding emit
  number_reads f d x r st =
      let (c, t, e, h) = laws.starts x in
      ap (λ (u : Bytes). on_head strtod (head_of strtod (u ++ r)) (parse_kids strtod f d)) e
      ∙ ap (λ p. on_head strtod p (parse_kids strtod f d))
          (number_head strtod show laws c (t ++ r) h)
      ∙ ap (λ (u : Bytes). bind (of_option (strtod (u ++ r))) λ d r. ok (number d) r) (sym e)
      ∙ ap (λ o. bind (of_option o) λ d r. ok (number d) r) (laws.reads x r st)

  string_reads :
      (f d : ℕ) (s r : Bytes)
      → on_head strtod (head_of strtod (emit show (string s) r)) (parse_kids strtod f d)
        ≡ ok (string s) r
  string_reads f d s r =
      let head : head_of strtod (json_quote s ++ r)
          ≡ leaf (bind (of_option (parse_string (json_quote s ++ r))) λ t r'. ok (string t) r') =
        unfold head_of json_quote in refl in
      unfold emit in
      ap (λ p. on_head strtod p (parse_kids strtod f d)) head
      ∙ ap (λ o. bind (of_option o) λ t r'. ok (string t) r') (parse_string-json_quote s r)

  mutual
    unfolding emit depth IsKeyed need

    value-Reads :
        (f d : ℕ) (v : Value D) (r : Bytes)
        → need v ≤ f
        → d + depth v ≤ 64
        → IsKeyed v
        → Stops r
        → Reads strtod show laws f d v r
    value-Reads zero d v r n h w st = absurd (omega (arith, n, need_pos v))
    value-Reads (suc f) d null r n h w st =
        at_depth strtod show laws f d (emit show null r) (ok null r) (omega arith)
          (emit-Starts strtod show laws null r).0 (plain_heads r (parse_kids strtod f d)).0
    value-Reads (suc f) d (boolean true) r n h w st =
        at_depth strtod show laws f d (emit show (boolean true) r) (ok (boolean true) r)
          (omega arith) (emit-Starts strtod show laws (boolean true) r).0
          (plain_heads r (parse_kids strtod f d)).1
    value-Reads (suc f) d (boolean false) r n h w st =
        at_depth strtod show laws f d (emit show (boolean false) r) (ok (boolean false) r)
          (omega arith) (emit-Starts strtod show laws (boolean false) r).0
          (plain_heads r (parse_kids strtod f d)).2
    value-Reads (suc f) d (number x) r n h w st =
        at_depth strtod show laws f d (emit show (number x) r) (ok (number x) r) (omega arith)
          (emit-Starts strtod show laws (number x) r).0 (number_reads f d x r st)
    value-Reads (suc f) d (string s) r n h w st =
        at_depth strtod show laws f d (emit show (string s) r) (ok (string s) r) (omega arith)
          (emit-Starts strtod show laws (string s) r).0 (string_reads f d s r)
    value-Reads (suc f) d (array nil) r n h w st =
        at_depth strtod show laws f d (emit show (array nil) r) (ok (array nil) r) (omega arith)
          (emit-Starts strtod show laws (array nil) r).0 (plain_heads r (parse_kids strtod f d)).3
    value-Reads (suc f) d (object nil) r n h w st =
        at_depth strtod show laws f d (emit show (object nil) r) (ok (object nil) r) (omega arith)
          (emit-Starts strtod show laws (object nil) r).0 (plain_heads r (parse_kids strtod f d)).4
    value-Reads (suc f) d (array (kid k v ks)) r n h w st =
        opened strtod show laws f d false k v ks r (omega arith)
          (kids_read f d false k v ks r (omega arith) (omega arith) w)
    value-Reads (suc f) d (object (kid k v ks)) r n h w st =
        opened strtod show laws f d true k v ks r (omega arith)
          (kids_read f d true k v ks r (omega arith) (omega arith) w)

    kids_read :
        (f d : ℕ) (b : Bool) (k : Bytes) (v : Value D) (ks : Kids D) (r : Bytes)
        → suc (need v + need_kids ks) ≤ f
        → d + max (suc (depth v)) (depth_kids ks) ≤ 64
        → KeyedKids b (kid k v ks)
        → parse_kids strtod f d b (emit_kids show b (kid k v ks) r) ≡ ok (kid k v ks) r
    kids_read zero d b k v ks r n h w = absurd (omega arith)
    kids_read (suc f) d b k v nil r n h (wk, wv, wks) =
        round strtod show laws f d b k v r false wk (closing b ∷ r)
          (value-Reads f (d + 1) v (closing b ∷ r) (omega arith) (omega arith) wv
            (closing-Stops strtod show laws b r))
          (separator-closing strtod show laws b r)
    kids_read (suc f) d b k v (kid k' v' ks) r n h (wk, wv, wks) =
        let more = emit_kids show b (kid k' v' ks) r in
        round strtod show laws f d b k v more true wk (b',' ∷ more)
          (value-Reads f (d + 1) v (b',' ∷ more) (omega arith) (omega arith) wv (inl refl))
          (separator-comma strtod show laws b more)
        ∙ ap (λ p. bind p λ ks' r'. ok (kid k v ks') r')
            (kids_read f d b k' v' ks r (omega arith) (omega arith) wks)

  number_pos : (x : D) → 0 < length (show x)
  number_pos x = let (c, t, e, h) = laws.starts x in rw e (omega arith)

  quote_pos : (s : Bytes) → 0 < length (json_quote s)
  quote_pos s = unfold json_quote in omega arith

  key-le : (b : Bool) (k r : Bytes) → length r ≤ length (quoted_key b k r)
  key-le true k r = omega (arith, length-append (json_quote k) (b':' ∷ r))
  key-le false k r = omega arith

  -- the text is long enough for the fuel that its length gives
  mutual
    unfolding emit need

    need-le : (v : Value D) (r : Bytes) → need v + 2 * length r ≤ 2 * length (emit show v r)
    need-le null r = omega arith
    need-le (boolean true) r = omega arith
    need-le (boolean false) r = omega arith
    need-le (number x) r = omega (arith, number_pos x, length-append (show x) r)
    need-le (string s) r = omega (arith, quote_pos s, length-append (json_quote s) r)
    need-le (array nil) r = omega arith
    need-le (object nil) r = omega arith
    need-le (array (kid k v ks)) r = omega (
      arith,
      key-le false k (emit show v (emit_more show false ks r)),
      need-le v (emit_more show false ks r),
      need_kids-le false ks r,
    )
    need-le (object (kid k v ks)) r = omega (
      arith,
      key-le true k (emit show v (emit_more show true ks r)),
      need-le v (emit_more show true ks r),
      need_kids-le true ks r,
    )

    need_kids-le :
        (b : Bool) (ks : Kids D) (r : Bytes)
        → need_kids ks + 2 * length r + 1 ≤ 2 * length (emit_more show b ks r)
    need_kids-le b nil r = omega arith
    need_kids-le b (kid k v ks) r = omega (
      arith,
      key-le b k (emit show v (emit_more show b ks r)),
      need-le v (emit_more show b ks r),
      need_kids-le b ks r,
    )

  -- JSON text of a value whose containers nest at most 64 deep is read back as the value, if numbers
  -- are.
  pub jv_parse-emit :
      (v : Value D) → depth v ≤ 64 → IsKeyed v → jv_parse strtod (emit show v []) ≡ ok v []
  unfolding jv_parse
  jv_parse-emit v h w =
      let f = 2 * length (emit show v []) + 2 in
      let end : nothing_left strtod v (skip_blanks []) ≡ ok v [] = unfold skip_blanks in refl in
      ap (whole strtod) (value-Reads f 0 v [] (omega (arith, need-le v [])) (omega (arith, h)) w tt)
      ∙ end
