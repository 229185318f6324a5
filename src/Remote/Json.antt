-- ===== src/Remote/Json.antt =====
-- `jparse`, `p36_jv_parse` and the readers of values, p36_remote.c. A number is what `strtod` makes of
-- it: its type and `strtod`, with the bytes that it leaves, are parameters.
pub mod Text
pub mod Reads
pub mod RoundTrip
pub mod Ends
use preon_star.Base.{
  Bool, Bytes, Option, [], bytes_eq, codes, drop, false, if◌then◌else◌, length, ltb, none, some,
  starts_with, suc, true, zero, ℕ, ◌*◌, ◌+◌, ◌==◌, ◌||◌, ◌∷◌,
}
use preon_star.Remote.Quote.{parse_string}

-- `struct p36_jv`, by its type; an array's kids have empty keys
mutual
  pub data Value (D : Type 0) : Type 0 where
    null : Value D
    boolean : Bool → Value D
    number : D → Value D
    string : Bytes → Value D
    array : Kids D → Value D
    object : Kids D → Value D

  pub data Kids (D : Type 0) : Type 0 where
    nil : Kids D
    kid : Bytes → Value D → Kids D → Kids D

-- a result with the bytes that are left; `fuel` is the model's own
pub data Parsed (A : Type 0) : Type 0 where
  ok : A → Bytes → Parsed A
  failed : Parsed A
  fuel : Parsed A

abbrev pub bind : {A B : Type 0} → Parsed A → (A → Bytes → Parsed B) → Parsed B
bind (ok a s) k = k a s
bind failed k = failed
bind fuel k = fuel

abbrev pub of_option : {A : Type 0} → Option (A × Bytes) → Parsed A
of_option none = failed
of_option (some (a, s)) = ok a s

-- `jws`
abbrev pub is_blank : ℕ → Bool
is_blank c = c == b' ' || c == b'\n' || c == b'\r' || c == b'\t'

unfoldable pub skip_blanks : Bytes → Bytes
skip_blanks [] = []
skip_blanks (c ∷ s) = let rest = skip_blanks s in if is_blank c then rest else c ∷ s

abbrev pub closing : Bool → ℕ
closing is_object = if is_object then b'}' else b']'

abbrev pub container : {D : Type 0} → Bool → Kids D → Value D
container true ks = object ks
container false ks = array ks

-- the key in front of a kid, and its colon
unfoldable pub expect_colon : Bytes → Bytes → Parsed Bytes
expect_colon key [] = failed
expect_colon key (c ∷ s) = if c == b':' then ok key s else failed

unfoldable pub key_at : Bool → Bytes → Parsed Bytes
unfolding expect_colon
key_at false s = ok [] s
key_at true s = bind (of_option (parse_string s)) λ key r. expect_colon key (skip_blanks r)

-- behind a kid: whether one more follows
unfoldable pub separator : Bool → Bytes → Parsed Bool
separator is_object [] = failed
separator is_object (c ∷ s) =
    if c == b',' then ok true s else if c == closing is_object then ok false s else failed

abbrev pub empty_at : Bool → Bytes → Option Bytes
empty_at is_object [] = none
empty_at is_object (c ∷ s) = if c == closing is_object then some s else none

-- what stands in front: a value without kids, or the opening of a container with kids
pub data Head (D : Type 0) : Type 0 where
  leaf : Parsed (Value D) → Head D
  opens : Bool → Bytes → Head D

abbrev pub open_or_empty : {D : Type 0} → Bool → Bytes → Option Bytes → Head D
open_or_empty is_object s none = opens is_object s
open_or_empty is_object s (some r) = leaf (ok (container is_object nil) r)

-- one more kid, if one follows
abbrev pub then_kids :
    {D : Type 0} → Bytes → Value D → (Bytes → Parsed (Kids D)) → Bool → Bytes → Parsed (Kids D)
then_kids key v rest true r = bind (rest r) λ ks r'. ok (kid key v ks) r'
then_kids key v rest false r = ok (kid key v nil) r

module _ {D : Type 0} (strtod : Bytes → Option (D × Bytes)) where
  -- the literals, then a number
  unfoldable pub scalar_at : Bytes → Parsed (Value D)
  scalar_at s =
      if starts_with (codes "true") s
      then ok (boolean true) (drop 4 s)
      else if starts_with (codes "false") s
      then ok (boolean false) (drop 5 s)
      else if starts_with (codes "null") s
      then ok null (drop 4 s)
      else bind (of_option (strtod s)) λ d r. ok (number d) r

  unfoldable pub head_of : Bytes → Head D
  unfolding scalar_at
  head_of [] = leaf (scalar_at [])
  head_of (c ∷ s) =
      if c == b'"'
      then leaf (bind (of_option (parse_string (c ∷ s))) λ t r. ok (string t) r)
      else if c == b'{'
      then open_or_empty true (skip_blanks s) (empty_at true (skip_blanks s))
      else if c == b'['
      then open_or_empty false (skip_blanks s) (empty_at false (skip_blanks s))
      else leaf (scalar_at (c ∷ s))

  abbrev pub on_head : Head D → (Bool → Bytes → Parsed (Kids D)) → Parsed (Value D)
  on_head (leaf r) kids = r
  on_head (opens is_object s) kids = bind (kids is_object s) λ ks r. ok (container is_object ks) r

  -- `jparse`, and its loop over the kids
  unfoldable mutual
    unfolding head_of

    pub parse_value : ℕ → ℕ → Bytes → Parsed (Value D)
    parse_value zero depth s = fuel
    parse_value (suc f) depth s =
        let r = on_head (head_of (skip_blanks s)) (parse_kids f depth) in
        if ltb 64 depth then failed else r

    pub parse_kids : ℕ → ℕ → Bool → Bytes → Parsed (Kids D)
    parse_kids zero depth is_object s = fuel
    parse_kids (suc f) depth is_object s = bind (key_at is_object (skip_blanks s)) λ key r1.
        bind (parse_value f (depth + 1) r1) λ v r2.
          bind (separator is_object (skip_blanks r2))
            (then_kids key v (parse_kids f depth is_object))

  abbrev pub nothing_left : Value D → Bytes → Parsed (Value D)
  nothing_left v [] = ok v []
  nothing_left v (c ∷ s) = failed

  abbrev pub whole : Parsed (Value D) → Parsed (Value D)
  whole (ok v s) = nothing_left v (skip_blanks s)
  whole failed = failed
  whole fuel = fuel

  -- `p36_jv_parse`; two calls at most take a byte
  unfoldable pub jv_parse : Bytes → Parsed (Value D)
  unfolding parse_value
  jv_parse text = whole (parse_value (2 * length text + 2) 0 text)

-- what `strcmp` reads: the bytes before a NUL
unfoldable pub c_string : Bytes → Bytes
c_string [] = []
c_string (c ∷ s) = let rest = c_string s in if c == 0 then [] else c ∷ rest

-- `p36_jv_get`
unfoldable pub kid_named : {D : Type 0} → Bytes → Kids D → Option (Value D)
unfolding bytes_eq c_string
kid_named key nil = none
kid_named key (kid k v ks) =
    let rest = kid_named key ks in if bytes_eq (c_string k) (c_string key) then some v else rest

unfoldable pub jv_get : {D : Type 0} → Value D → Bytes → Option (Value D)
unfolding kid_named
jv_get (object ks) key = kid_named key ks
jv_get _ key = none

-- `p36_jv_at`
unfoldable pub kid_at : {D : Type 0} → ℕ → Kids D → Option (Value D)
kid_at i nil = none
kid_at zero (kid k v ks) = some v
kid_at (suc i) (kid k v ks) = kid_at i ks

unfoldable pub jv_at : {D : Type 0} → Value D → ℕ → Option (Value D)
unfolding kid_at
jv_at (object ks) i = kid_at i ks
jv_at (array ks) i = kid_at i ks
jv_at _ i = none

-- `p36_jv_count`
unfoldable pub count_kids : {D : Type 0} → Kids D → ℕ
count_kids nil = 0
count_kids (kid k v ks) = suc (count_kids ks)

unfoldable pub jv_count : {D : Type 0} → Value D → ℕ
unfolding count_kids
jv_count (object ks) = count_kids ks
jv_count (array ks) = count_kids ks
jv_count _ = 0
