-- ===== src/Remote/Json/Ends.antt =====
-- The parser ends: the fuel that `jv_parse` gives is enough.
use preon_star.Base.{
  Bool, Bytes, Option, [], ap, arith, codes, drop, false, if_cases, if_intro, if◌then◌else◌, length,
  length-append, length-drop, ltb, none, refl, some, starts_with, starts_with-split, suc, true,
  zero, ℕ, ◌*◌, ◌+◌, ◌<◌, ◌==◌, ◌∷◌, ◌≡◌, ◌≢◌, ◌≤◌,
}
use preon_star.Remote.Json.{
  Head, Kids, Parsed, Value, bind, closing, container, empty_at, expect_colon, failed, fuel,
  head_of, jv_parse, key_at, kid, leaf, nothing_left, number, of_option, ok, on_head, open_or_empty,
  opens, parse_kids, parse_value, scalar_at, separator, skip_blanks, string, then_kids, whole,
}
use preon_star.Remote.Quote.{
  Unescaped, is_high, low_after, parse_string, prefixed, string_from, string_step, then_read,
  unescape_one, unescape_unicode, unicode,
}
use preon_star.Remote.Utf8.{hex4}
use preon_star.Remote.Json.Text.{depth}

-- the bytes that are left are fewer by `n` at least; and the parser did not run out of fuel
abbrev Takes : {A : Type 0} → ℕ → Bytes → Parsed A → Type 0
Takes n s (ok a r) = length r + n ≤ length s
Takes n s failed = Unit
Takes n s fuel = ⊥

skip_blanks-le : (s : Bytes) → length (skip_blanks s) ≤ length s
unfolding skip_blanks
skip_blanks-le [] = omega arith
skip_blanks-le (c ∷ s) = ground (arith, skip_blanks-le s)

Takes-weaken :
    {A : Type 0} (n m : ℕ) (s r : Bytes) (q : Parsed A)
    → length r + n ≤ length s
    → Takes m r q
    → Takes (n + m) s q
Takes-weaken n m s r (ok a t) h g = omega (arith, h, g)
Takes-weaken n m s r failed h g = tt
Takes-weaken n m s r fuel h g = g

Takes-less : {A : Type 0} (n m : ℕ) (s : Bytes) (q : Parsed A) → n ≤ m → Takes m s q → Takes n s q
Takes-less n m s (ok a t) h g = omega (arith, h, g)
Takes-less n m s failed h g = tt
Takes-less n m s fuel h g = g

bind-Takes :
    {A B : Type 0} (n m : ℕ) (s : Bytes) (p : Parsed A) (k : A → Bytes → Parsed B)
    → Takes n s p
    → ((a : A) (r : Bytes) → length r + n ≤ length s → Takes m r (k a r))
    → Takes (n + m) s (bind p k)
bind-Takes n m s (ok a r) k h g = Takes-weaken n m s r (k a r) h (g a r h)
bind-Takes n m s failed k h g = tt
bind-Takes n m s fuel k h g = h

-- what an option leaves is shorter
abbrev pub Shorter : {A : Type 0} → Bytes → Option (A × Bytes) → Type 0
Shorter s none = Unit
Shorter s (some (a, r)) = length r + 1 ≤ length s

of_option-Takes :
    {A : Type 0} (s : Bytes) (o : Option (A × Bytes)) → Shorter s o → Takes 1 s (of_option o)
of_option-Takes s none h = tt
of_option-Takes s (some (a, r)) h = h

-- a string's escape leaves no more than it was given
abbrev NoLonger : Bytes → Unescaped → Type 0
NoLonger s none = Unit
NoLonger s (some (a, r)) = length r ≤ length s

drop-le : (n : ℕ) (s : Bytes) → length (drop n s) ≤ length s
drop-le n s = omega (arith, length-drop n s)

unescape_unicode-NoLonger : (s : Bytes) (cp : Option ℕ) → NoLonger s (unescape_unicode s cp)
unfolding unescape_unicode
unescape_unicode-NoLonger s none = tt
unescape_unicode-NoLonger s (some cp) = at (low_after (drop 4 s))
  where
    at : (o : Option ℕ) → length (unicode cp (drop 4 s) o).1 ≤ length s
    at none = unfold unicode in drop-le 4 s
    at (some lo) =
        unfold unicode in
        if_intro (λ (u : Bytes × Bytes). length u.1 ≤ length s) (is_high cp)
          (omega (arith, drop-le 4 s, drop-le 6 (drop 4 s))) (drop-le 4 s)

unescape_one-NoLonger : (s : Bytes) → NoLonger s (unescape_one s)
unfolding unescape_one
unescape_one-NoLonger [] = tt
unescape_one-NoLonger (c ∷ s) =
    let P = NoLonger (c ∷ s) in
    let same : length s ≤ length (c ∷ s) = omega arith in
    if_intro P (c == b'n') same (
      if_intro P (c == b'r') same (
        if_intro P (c == b't') same (
          if_intro P (c == b'b') same (
            if_intro P (c == b'f') same (
              if_intro P (c == b'u')
                (weaken (unescape_unicode s (hex4 s)) (unescape_unicode-NoLonger s (hex4 s)))
                same)))))
  where
    weaken : (u : Unescaped) → NoLonger s u → NoLonger (c ∷ s) u
    weaken none h = tt
    weaken (some (a, r)) h = omega (arith, h)

then_read-Shorter :
    (s : Bytes) (u : Unescaped) (rest : Bytes → Option (Bytes × Bytes))
    → NoLonger s u
    → ((r : Bytes) → Shorter r (rest r))
    → Shorter s (then_read u rest)
then_read-Shorter s none rest h g = tt
then_read-Shorter s (some (a, r)) rest h g = at (rest r) (g r)
  where
    at : (o : Option (Bytes × Bytes)) → Shorter r o → Shorter s (prefixed a o)
    at none k = tt
    at (some (b, t)) k = omega (arith, h, k)

string_from-Shorter : (f : ℕ) (s : Bytes) → Shorter s (string_from f s)
unfolding string_from string_step
string_from-Shorter zero s = tt
string_from-Shorter (suc f) [] = tt
string_from-Shorter (suc f) (c ∷ s) = if_intro (Shorter (c ∷ s)) (c == b'"') (omega arith) (
    longer (then_read (string_step c s) (string_from f))
      (then_read-Shorter s (string_step c s) (string_from f) (step c s) (string_from-Shorter f)))
  where
    longer : (o : Option (Bytes × Bytes)) → Shorter s o → Shorter (c ∷ s) o
    longer none h = tt
    longer (some (a, r)) h = omega (arith, h)

    step : (c : ℕ) (s : Bytes) → NoLonger s (string_step c s)
    step c s =
        unfold string_step in
        if_intro (NoLonger s) (c == b'\\') (unescape_one-NoLonger s) (omega arith)

parse_string-Shorter : (s : Bytes) → Shorter s (parse_string s)
unfolding parse_string
parse_string-Shorter [] = tt
parse_string-Shorter (c ∷ s) =
    if_intro (Shorter (c ∷ s)) (c == b'"')
      (longer (string_from (length s) s) (string_from-Shorter (length s) s)) tt
  where
    longer : (o : Option (Bytes × Bytes)) → Shorter s o → Shorter (c ∷ s) o
    longer none h = tt
    longer (some (a, r)) h = omega (arith, h)

key_at-Takes : (b : Bool) (s : Bytes) → Takes 0 s (key_at b (skip_blanks s))
unfolding key_at
key_at-Takes false s = omega (arith, skip_blanks-le s)
key_at-Takes true s =
    Takes-weaken 0 0 s (skip_blanks s) (key_at true (skip_blanks s))
      (omega (arith, skip_blanks-le s))
      (bind-Takes 0 0 (skip_blanks s) (of_option (parse_string (skip_blanks s)))
        (λ key r. expect_colon key (skip_blanks r))
        (weaken (parse_string (skip_blanks s)) (parse_string-Shorter (skip_blanks s)))
        (λ key r l.
          Takes-weaken 0 0 r (skip_blanks r) (expect_colon key (skip_blanks r))
            (omega (arith, skip_blanks-le r)) (colon key (skip_blanks r))))
  where
    weaken :
        (o : Option (Bytes × Bytes))
        → Shorter (skip_blanks s) o
        → Takes 0 (skip_blanks s) (of_option o)
    weaken none h = tt
    weaken (some (a, r)) h = omega (arith, h)

    colon : (key t : Bytes) → Takes 0 t (expect_colon key t)
    colon key [] = unfold expect_colon in tt
    colon key (c ∷ t) =
        unfold expect_colon in if_intro (Takes 0 (c ∷ t)) (c == b':') (omega arith) tt

separator-Takes : (b : Bool) (s : Bytes) → Takes 1 s (separator b (skip_blanks s))
separator-Takes b s =
    Takes-weaken 0 1 s (skip_blanks s) (separator b (skip_blanks s))
      (omega (arith, skip_blanks-le s)) (at (skip_blanks s))
  where
    at : (t : Bytes) → Takes 1 t (separator b t)
    at [] = unfold separator in tt
    at (c ∷ t) =
        unfold separator in
        if_intro (Takes 1 (c ∷ t)) (c == b',') (omega arith)
          (if_intro (Takes 1 (c ∷ t)) (c == closing b) (omega arith) tt)

module _ {D : Type 0} (strtod : Bytes → Option (D × Bytes))
    (advances : (s : Bytes) → Shorter s (strtod s)) where
  scalar_at-Takes : (s : Bytes) → Takes 1 s (scalar_at strtod s)
  unfolding scalar_at
  scalar_at-Takes s =
      if_cases (Takes 1 s) (starts_with (codes "true") s)
        (λ e. literal (codes "true") 4 e (refl, omega arith))
        (λ n1.
          if_cases (Takes 1 s) (starts_with (codes "false") s)
            (λ e. literal (codes "false") 5 e (refl, omega arith))
            (λ n2.
              if_cases (Takes 1 s) (starts_with (codes "null") s)
                (λ e. literal (codes "null") 4 e (refl, omega arith))
                (λ n3.
                  bind-Takes 1 0 s (of_option (strtod s)) (λ d r. ok (number d) r)
                    (of_option-Takes s (strtod s) (advances s)) (λ d r l. omega arith))))
    where
      literal :
          (p : Bytes) (n : ℕ)
          → starts_with p s ≡ true
          → (length p ≡ n) × (0 < n)
          → length (drop n s) + 1 ≤ length s
      literal p n e h =
          let (r, q) = starts_with-split p s e in
          omega
            (arith, h.0, h.1, length-drop n s, ap (λ (t : Bytes). length t) q, length-append p r)

  -- a leaf takes a byte, and so does an opening
  HeadTakes : Bytes → Head D → Type 0
  HeadTakes s (leaf r) = Takes 1 s r
  HeadTakes s (opens b t) = length t + 1 ≤ length s

  head_of-Takes : (s : Bytes) → HeadTakes s (head_of strtod s)
  unfolding head_of HeadTakes
  head_of-Takes [] = scalar_at-Takes []
  head_of-Takes (c ∷ s) =
      let P = HeadTakes (c ∷ s) in
      if_intro P (c == b'"')
        (bind-Takes 1 0 (c ∷ s) (of_option (parse_string (c ∷ s))) (λ t r. ok (string t) r)
          (of_option-Takes (c ∷ s) (parse_string (c ∷ s)) (parse_string-Shorter (c ∷ s)))
          (λ t r l. omega arith))
        (if_intro P (c == b'{') (opened true (skip_blanks s) (skip_blanks-le s)) (
          if_intro P (c == b'[') (opened false (skip_blanks s) (skip_blanks-le s))
            (scalar_at-Takes (c ∷ s))))
    where
      opened :
          (b : Bool) (t : Bytes)
          → length t ≤ length s
          → HeadTakes (c ∷ s) (open_or_empty b t (empty_at b t))
      opened b [] l = omega (arith, l)
      opened b (d ∷ t) l = closed (d == closing b)
        where
          closed :
              (e : Bool) → HeadTakes (c ∷ s) (open_or_empty b (d ∷ t) (if e then some t else none))
          closed true = omega (arith, l)
          closed false = omega (arith, l)

  on_head-Takes :
      (s : Bytes) (h : Head D) (kids : Bool → Bytes → Parsed (Kids D))
      → HeadTakes s h
      → ((b : Bool) (r : Bytes) → length r + 1 ≤ length s → Takes 0 r (kids b r))
      → Takes 1 s (on_head strtod h kids)
  unfolding HeadTakes
  on_head-Takes s (leaf r) kids h g = h
  on_head-Takes s (opens b t) kids h g =
      Takes-weaken 1 0 s t (bind (kids b t) λ ks r. ok (container b ks) r) h (
        bind-Takes 0 0 t (kids b t) (λ ks r. ok (container b ks) r) (g b t h)
          (λ ks r l. omega arith))

  then_kids-Takes :
      (key : Bytes) (v : Value D) (rest : Bytes → Parsed (Kids D)) (more : Bool) (r : Bytes)
      → Takes 0 r (rest r)
      → Takes 0 r (then_kids key v rest more r)
  then_kids-Takes key v rest true r h =
      bind-Takes 0 0 r (rest r) (λ ks r'. ok (kid key v ks) r') h (λ ks r' l. omega arith)
  then_kids-Takes key v rest false r h = omega arith

  -- Each call with two units of fuel for each byte, and one or two more, ends.
  mutual
    unfolding parse_value

    parse_value-Takes :
        (f depth : ℕ) (s : Bytes) → 2 * length s + 1 ≤ f → Takes 1 s (parse_value strtod f depth s)
    parse_value-Takes zero depth s h = absurd (omega arith)
    parse_value-Takes (suc f) depth s h =
        let t = skip_blanks s in
        if_intro (Takes 1 s) (ltb 64 depth) tt (
          Takes-weaken 0 1 s t (on_head strtod (head_of strtod t) (parse_kids strtod f depth))
            (omega (arith, skip_blanks-le s))
            (on_head-Takes t (head_of strtod t) (parse_kids strtod f depth) (head_of-Takes t)
              (λ b r l.
                Takes-less 0 2 r (parse_kids strtod f depth b r) (omega arith)
                  (parse_kids-Takes f depth b r (omega (arith, h, l, skip_blanks-le s))))))

    parse_kids-Takes :
        (f depth : ℕ) (b : Bool) (s : Bytes)
        → 2 * length s + 2 ≤ f
        → Takes 2 s (parse_kids strtod f depth b s)
    parse_kids-Takes zero depth b s h = absurd (omega arith)
    parse_kids-Takes (suc f) depth b s h =
        bind-Takes 0 2 s (key_at b (skip_blanks s)) _ (key_at-Takes b s) λ key r1 l1.
          bind-Takes 1 1 r1 (parse_value strtod f (depth + 1) r1) _
            (parse_value-Takes f (depth + 1) r1 (omega (arith, h, l1)))
            λ v r2 l2.
              bind-Takes 1 0 r2 (separator b (skip_blanks r2)) _ (separator-Takes b r2)
                λ more r3 l3. then_kids-Takes key v (parse_kids strtod f depth b) more r3 (
                  Takes-less 0 2 r3 (parse_kids strtod f depth b r3) (omega arith)
                    (parse_kids-Takes f depth b r3 (omega (arith, h, l1, l2, l3))))

  whole-ne-fuel : (p : Parsed (Value D)) → p ≢ fuel → whole strtod p ≢ fuel
  whole-ne-fuel (ok v s) h e = at (skip_blanks s) e
    where
      at : (t : Bytes) → nothing_left strtod v t ≢ fuel
      at [] e = cc e
      at (c ∷ r) e = cc e
  whole-ne-fuel failed h e = cc e
  whole-ne-fuel fuel h e = h refl

  -- Parsing ends on every text: it never runs out of fuel, if `strtod` leaves fewer bytes than it is
  -- given wherever it reads a number.
  pub jv_parse-ne-fuel : (text : Bytes) → jv_parse strtod text ≢ fuel
  unfolding jv_parse
  jv_parse-ne-fuel text = whole-ne-fuel (parse_value strtod (2 * length text + 2) 0 text) (
      ends (parse_value strtod (2 * length text + 2) 0 text)
        (parse_value-Takes (2 * length text + 2) 0 text (omega arith)))
    where
      ends : (p : Parsed (Value D)) → Takes 1 text p → p ≢ fuel
      ends (ok a r) h e = cc e
      ends failed h e = cc e
      ends fuel h e = h
