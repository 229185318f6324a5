-- ===== src/Remote/Json/Reads.antt =====
-- The rounds of the parser over the text of a value: heads, keys and separators.
use preon_star.Base.{
  Bool, Bytes, Option, [], ap, ap₂, arith, codes, false, inl, inr, ltb, none, refl, starts_with,
  subst, suc, sym, true, ℕ, ◌++◌, ◌+◌, ◌==◌, ◌∙◌, ◌∷◌, ◌≡◌, ◌≤◌, ◌⊎◌,
}
use preon_star.Remote.Quote.{json_quote}
use preon_star.Remote.Json.{
  Kids, Parsed, Value, array, bind, boolean, closing, container, empty_at, expect_colon, head_of,
  key_at, kid, leaf, nil, null, number, object, of_option, ok, on_head, opens, parse_kids,
  parse_value, scalar_at, separator, skip_blanks, string, then_kids,
}
use preon_star.Remote.Json.Text.{
  ReadsNumbers, Stops, emit, emit_kids, emit_more, opening, quoted_key,
}
use preon_star.Remote.Quote.RoundTrip.{parse_string-json_quote}

module _ {D : Type 0} (strtod : Bytes → Option (D × Bytes)) (show : D → Bytes)
    (laws : ReadsNumbers strtod show) where
  -- a first byte that is neither a blank nor closes an array
  abbrev pub Starts : Bytes → Type 0
  Starts s = (skip_blanks s ≡ s) × (empty_at false s ≡ none)

  number-Starts : (c : ℕ) (t : Bytes) → (c ≡ b'-') ⊎ ((b'0' ≤ c) × (c ≤ b'9')) → Starts (c ∷ t)
  unfolding skip_blanks
  number-Starts c t h = (ground (arith, h), ground (arith, h))

  pub emit-Starts : (v : Value D) (r : Bytes) → Starts (emit show v r)
  unfolding emit skip_blanks json_quote
  emit-Starts null r = (refl, refl)
  emit-Starts (boolean true) r = (refl, refl)
  emit-Starts (boolean false) r = (refl, refl)
  emit-Starts (number d) r =
      let (c, t, e, h) = laws.starts d in
      subst (λ (s : Bytes). Starts (s ++ r)) (sym e) (number-Starts c (t ++ r) h)
  emit-Starts (string s) r = (refl, refl)
  emit-Starts (array ks) r = (refl, refl)
  emit-Starts (object ks) r = (refl, refl)

  pub number_head :
      (c : ℕ) (t : Bytes)
      → (c ≡ b'-') ⊎ ((b'0' ≤ c) × (c ≤ b'9'))
      → head_of strtod (c ∷ t) ≡ leaf (bind (of_option (strtod (c ∷ t))) λ d r. ok (number d) r)
  number_head c t h =
      let q : (c == b'"') ≡ false = ground (arith, h) in
      let o : (c == b'{') ≡ false = ground (arith, h) in
      let a : (c == b'[') ≡ false = ground (arith, h) in
      let w1 : starts_with (codes "true") (c ∷ t) ≡ false =
        other b't' (codes "rue") (ground (arith, h)) in
      let w2 : starts_with (codes "false") (c ∷ t) ≡ false =
        other b'f' (codes "alse") (ground (arith, h)) in
      let w3 : starts_with (codes "null") (c ∷ t) ≡ false =
        other b'n' (codes "ull") (ground (arith, h)) in
      unfold head_of scalar_at in rw (q, o, a, w1, w2, w3) refl
    where
      other : (x : ℕ) (p : Bytes) → (c == x) ≡ false → starts_with (x ∷ p) (c ∷ t) ≡ false
      other x p e = unfold starts_with in rw e refl

  -- the head of a value that is written, in front of `r`
  abbrev pub Reads : ℕ → ℕ → Value D → Bytes → Type 0
  Reads f d v r = parse_value strtod f d (emit show v r) ≡ ok v r

  pub at_depth :
      (f d : ℕ) (s : Bytes) (res : Parsed (Value D))
      → d ≤ 64
      → skip_blanks s ≡ s
      → on_head strtod (head_of strtod s) (parse_kids strtod f d) ≡ res
      → parse_value strtod (suc f) d s ≡ res
  unfolding parse_value
  at_depth f d s res h e k = let b : ltb 64 d ≡ false = ground arith in rw (b, e) k

  pub closing-Stops : (b : Bool) (r : Bytes) → Stops (closing b ∷ r)
  closing-Stops true r = inr (inl refl)
  closing-Stops false r = inr (inr refl)

  emit_more-Stops : (b : Bool) (ks : Kids D) (r : Bytes) → Stops (emit_more show b ks r)
  unfolding emit
  emit_more-Stops b nil r = closing-Stops b r
  emit_more-Stops b (kid k v ks) r = inl refl

  -- the key, if there is one, in front of a text that does not begin with a blank
  key_at-quoted_key :
      (b : Bool) (k r : Bytes)
      → (b ≡ true) ⊎ (k ≡ [])
      → skip_blanks r ≡ r
      → key_at b (skip_blanks (quoted_key b k r)) ≡ ok k r
  key_at-quoted_key true k r h e =
      let front : skip_blanks (json_quote k ++ b':' ∷ r) ≡ json_quote k ++ b':' ∷ r =
        unfold skip_blanks json_quote in refl in
      let colon : expect_colon k (skip_blanks (b':' ∷ r)) ≡ ok k r =
        unfold expect_colon skip_blanks in refl in
      let read : key_at true (json_quote k ++ b':' ∷ r) ≡ expect_colon k (skip_blanks (b':' ∷ r)) =
        unfold key_at in
        ap (λ o. bind (of_option o) λ key s. expect_colon key (skip_blanks s))
          (parse_string-json_quote k (b':' ∷ r)) in
      ap (key_at true) front ∙ read ∙ colon
  key_at-quoted_key false k r h e = unfold key_at in ap₂ ok (keyless h) e
    where
      keyless : (false ≡ true) ⊎ (k ≡ []) → [] ≡ k
      keyless (inl x) = absurd (cc x)
      keyless (inr x) = sym x

  -- the first kid's text does not close the container
  first_kid :
      (b : Bool) (k : Bytes) (v : Value D) (r : Bytes)
      → (skip_blanks (quoted_key b k (emit show v r)) ≡ quoted_key b k (emit show v r))
        × (empty_at b (quoted_key b k (emit show v r)) ≡ none)
  first_kid true k v r = unfold skip_blanks json_quote in (refl, refl)
  first_kid false k v r = emit-Starts v r

  pub separator-closing :
      (b : Bool) (r : Bytes) → separator b (skip_blanks (closing b ∷ r)) ≡ ok false r
  unfolding separator skip_blanks
  separator-closing true r = refl
  separator-closing false r = refl

  pub separator-comma : (b : Bool) (s : Bytes) → separator b (skip_blanks (b',' ∷ s)) ≡ ok true s
  unfolding separator skip_blanks
  separator-comma b s = refl

  -- the parts of a round over the kids, put together
  pub round :
      (f d : ℕ) (b : Bool) (k : Bytes) (v : Value D) (r3 : Bytes) (more : Bool)
      → (b ≡ true) ⊎ (k ≡ [])
      → (r2 : Bytes) → parse_value strtod f (d + 1) (emit show v r2) ≡ ok v r2
      → separator b (skip_blanks r2) ≡ ok more r3
      → parse_kids strtod (suc f) d b (quoted_key b k (emit show v r2))
        ≡ then_kids k v (parse_kids strtod f d b) more r3
  round f d b k v r3 more h r2 pv sep =
      let after_value : Bytes → Value D → Bytes → Parsed (Kids D) =
        λ key w r. bind (separator b (skip_blanks r)) (then_kids key w (parse_kids strtod f d b)) in
      let after_key : Bytes → Bytes → Parsed (Kids D) =
        λ key r. bind (parse_value strtod f (d + 1) r) (after_value key) in
      unfold parse_value in
      ap (λ p. bind p after_key) (key_at-quoted_key b k (emit show v r2) h (emit-Starts v r2).0)
      ∙ ap (λ p. bind p (after_value k)) pv
      ∙ ap (λ p. bind p (then_kids k v (parse_kids strtod f d b))) sep

  -- an opening with kids
  pub opened :
      (f d : ℕ) (b : Bool) (k : Bytes) (v : Value D) (ks : Kids D) (r : Bytes)
      → d ≤ 64
      → parse_kids strtod f d b (emit_kids show b (kid k v ks) r) ≡ ok (kid k v ks) r
      → parse_value strtod (suc f) d (opening b ∷ emit_kids show b (kid k v ks) r)
        ≡ ok (container b (kid k v ks)) r
  opened f d b k v ks r h e =
      let text = emit_kids show b (kid k v ks) r in
      at_depth f d (opening b ∷ text) (ok (container b (kid k v ks)) r) h (front b) (
        ap (λ p. on_head strtod p (parse_kids strtod f d)) (head b k v ks r)
        ∙ ap (λ p. bind p λ ks' r'. ok (container b ks') r') e)
    where
      front : (b : Bool) {s : Bytes} → skip_blanks (opening b ∷ s) ≡ opening b ∷ s
      front true = unfold skip_blanks in refl
      front false = unfold skip_blanks in refl

      head :
          (b : Bool) (k : Bytes) (v : Value D) (ks : Kids D) (r : Bytes)
          → head_of strtod (opening b ∷ emit_kids show b (kid k v ks) r)
            ≡ opens b (emit_kids show b (kid k v ks) r)
      head true k v ks r =
          let (x, y) = first_kid true k v (emit_more show true ks r) in
          unfold head_of emit in rw (x, y) refl
      head false k v ks r =
          let (x, y) = first_kid false k v (emit_more show false ks r) in
          unfold head_of emit in rw (x, y) refl
