-- ===== src/Remote/Chat/Printable.antt =====
-- Text without control characters: what JSON text for a value is made of.
use preon_star.Base.{
  &&-eq-true, Bool, Bytes, [], ap, arith, false, leb, refl, true, ℕ, ◌&&◌, ◌++◌, ◌∙◌, ◌∷◌, ◌≡◌,
}
use preon_star.Remote.Chat.Client.{strip_cr}
use preon_star.Remote.Chat.{c_string}
use preon_star.Remote.Json.{
  Kids, Value, array, boolean, closing, kid, nil, null, number, object, string,
}
use preon_star.Remote.Json.Text.{emit, emit_kids, emit_more, quoted_key}
use preon_star.Remote.Quote.{json_quote, quote_byte, quote_bytes}

-- every byte is 32 or more
unfoldable pub is_printable : Bytes → Bool
is_printable [] = true
is_printable (c ∷ s) = leb 32 c && is_printable s

and_assoc : (a b c : Bool) → (a && (b && c)) ≡ ((a && b) && c)
and_assoc a b c = ground arith

pub is_printable-append : (s t : Bytes) → is_printable (s ++ t) ≡ (is_printable s && is_printable t)
unfolding is_printable
is_printable-append [] t = refl
is_printable-append (c ∷ s) t =
    ap (◌&&◌ (leb 32 c)) (is_printable-append s t)
    ∙ and_assoc (leb 32 c) (is_printable s) (is_printable t)

quote_byte-printable : (c : ℕ) → is_printable (quote_byte c) ≡ true
unfolding is_printable quote_byte
quote_byte-printable c = ground arith

quote_bytes-printable : (s : Bytes) → is_printable (quote_bytes s) ≡ true
unfolding quote_bytes is_printable
quote_bytes-printable [] = refl
quote_bytes-printable (c ∷ s) =
    is_printable-append (quote_byte c) (quote_bytes s)
    ∙ rw (quote_byte-printable c, quote_bytes-printable s) refl

pub c_string-printable : (s : Bytes) → is_printable s ≡ true → c_string s ≡ s
unfolding c_string is_printable
c_string-printable [] h = refl
c_string-printable (c ∷ s) h = ground (arith, c_string-printable s)

pub strip_cr-printable : (s : Bytes) → is_printable s ≡ true → strip_cr s ≡ s
unfolding strip_cr is_printable
strip_cr-printable [] h = refl
strip_cr-printable (c ∷ []) h = ground arith
strip_cr-printable (c ∷ d ∷ s) h =
    ap (◌∷◌ c) (strip_cr-printable (d ∷ s) (&&-eq-true (leb 32 c) (is_printable (d ∷ s)) h).1)

module _ {D : Type 0} (show : D → Bytes) (plain : (d : D) → is_printable (show d) ≡ true) where
  json_quote-printable :
      (s r : Bytes) → is_printable r ≡ true → is_printable (json_quote s ++ r) ≡ true
  unfolding json_quote is_printable
  json_quote-printable s r h =
      is_printable-append (quote_bytes s ++ b'"' ∷ []) r
      ∙ rw (is_printable-append (quote_bytes s) (b'"' ∷ []), quote_bytes-printable s, h) refl

  key-printable :
      (b : Bool) (k r : Bytes) → is_printable r ≡ true → is_printable (quoted_key b k r) ≡ true
  unfolding is_printable
  key-printable true k r h = json_quote-printable k (b':' ∷ r) h
  key-printable false k r h = h

  closing-printable :
      (b : Bool) (r : Bytes) → is_printable r ≡ true → is_printable (closing b ∷ r) ≡ true
  unfolding is_printable
  closing-printable true r h = h
  closing-printable false r h = h

  mutual
    unfolding emit is_printable

    pub emit-printable :
        (v : Value D) (r : Bytes) → is_printable r ≡ true → is_printable (emit show v r) ≡ true
    emit-printable null r h = h
    emit-printable (boolean true) r h = h
    emit-printable (boolean false) r h = h
    emit-printable (number d) r h = is_printable-append (show d) r ∙ rw (plain d, h) refl
    emit-printable (string s) r h = json_quote-printable s r h
    emit-printable (array ks) r h = emit_kids-printable false ks r h
    emit-printable (object ks) r h = emit_kids-printable true ks r h

    emit_kids-printable :
        (b : Bool) (ks : Kids D) (r : Bytes)
        → is_printable r ≡ true
        → is_printable (emit_kids show b ks r) ≡ true
    emit_kids-printable b nil r h = closing-printable b r h
    emit_kids-printable b (kid k v ks) r h =
        key-printable b k (emit show v (emit_more show b ks r))
          (emit-printable v (emit_more show b ks r) (emit_more-printable b ks r h))

    emit_more-printable :
        (b : Bool) (ks : Kids D) (r : Bytes)
        → is_printable r ≡ true
        → is_printable (emit_more show b ks r) ≡ true
    emit_more-printable b nil r h = closing-printable b r h
    emit_more-printable b (kid k v ks) r h =
        key-printable b k (emit show v (emit_more show b ks r))
          (emit-printable v (emit_more show b ks r) (emit_more-printable b ks r h))
