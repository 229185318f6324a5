-- ===== src/Remote/Quote/RoundTrip.antt =====
-- A string that is quoted is read back.
use preon_star.Base.{
  ==_iff, Bool-cases, Bytes, Option, [], ap, append_assoc, arith, false, inl, inr, length,
  length-append, ltb, ltb→lt, lt→ltb, none, refl, some, subst, suc, sym, true, zero, ℕ, ◌%◌, ◌++◌,
  ◌/◌, ◌<◌, ◌==◌, ◌∙◌, ◌∷◌, ◌≡◌, ◌≢◌, ◌≤◌,
}
use preon_star.Remote.Utf8.{hex4, hex_digits, hex_value, is_hex_digit, utf8_put}
use preon_star.Remote.Quote.{
  digit_of, is_high, json_quote, low_after, parse_string, prefixed, quote_byte, quote_bytes,
  string_from, string_step, then_read, unescape_one, unescape_unicode, unicode,
}

hex4_control :
    (c : ℕ) (r : Bytes)
    → c < 32
    → hex4 (b'0' ∷ b'0' ∷ digit_of (c / 16) ∷ digit_of (c % 16) ∷ r) ≡ some c
unfolding hex4 hex_digits
hex4_control c r h =
    let hi = hex_digit_back (c / 16) (omega arith) in
    let lo = hex_digit_back (c % 16) (omega arith) in
    rw (hi.0, hi.1, lo.0, lo.1) (ap some (omega arith))
  where
    hex_digit_back :
        (d : ℕ) → d < 16 → (is_hex_digit (digit_of d) ≡ true) × (hex_value (digit_of d) ≡ d)
    hex_digit_back d h = (ground arith, ground arith)

unicode_ascii : (c : ℕ) (r : Bytes) (o : Option ℕ) → c < 128 → unicode c r o ≡ (c ∷ [], r)
unfolding unicode utf8_put
unicode_ascii c r none h = rw (lt→ltb c 128 h) refl
unicode_ascii c r (some lo) h =
    let low : is_high c ≡ false = ground arith in rw (low, lt→ltb c 128 h) refl

-- the escape of a control byte
control_read :
    (c : ℕ) (r : Bytes)
    → c < 32
    → unescape_one (b'u' ∷ b'0' ∷ b'0' ∷ digit_of (c / 16) ∷ digit_of (c % 16) ∷ r)
      ≡ some (c ∷ [], r)
unfolding unescape_one unescape_unicode
control_read c r h =
    rw (hex4_control c r h) (ap some (unicode_ascii c r (low_after r) (omega arith)))

abbrev control_escape : ℕ → Bytes
control_escape c = b'\\' ∷ b'u' ∷ b'0' ∷ b'0' ∷ digit_of (c / 16) ∷ digit_of (c % 16) ∷ []

read_control :
    (f c : ℕ) (r : Bytes)
    → c < 32
    → string_from (suc f) (control_escape c ++ r) ≡ prefixed (c ∷ []) (string_from f r)
unfolding string_from string_step
read_control f c r h = ap (λ u. then_read u (string_from f)) (control_read c r h)

-- the two parts of a byte that needs no escape
plain_read :
    (f c : ℕ) (r : Bytes)
    → c ≢ b'"'
    → c ≢ b'\\'
    → string_from (suc f) (c ∷ r) ≡ prefixed (c ∷ []) (string_from f r)
unfolding string_from string_step
plain_read f c r q b =
    let x : (c == b'"') ≡ false = ground arith in
    let y : (c == b'\\') ≡ false = ground arith in rw (x, y) refl

-- what reading one quoted byte is to give
abbrev ReadsBack : ℕ → Bytes → ℕ → Type 0
ReadsBack f r c = string_from (suc f) (quote_byte c ++ r) ≡ prefixed (c ∷ []) (string_from f r)

-- the bytes that have a letter of their own behind the backslash
read_named :
    (f : ℕ) (r : Bytes)
    → ReadsBack f r b'"'
      × ReadsBack f r b'\\'
      × ReadsBack f r b'\n'
      × ReadsBack f r b'\r'
      × ReadsBack f r b'\t'
unfolding string_from string_step quote_byte unescape_one
read_named f r = (refl, refl, refl, refl, refl)

-- one byte that is written is read as itself
read_quoted : (f c : ℕ) (r : Bytes) → ReadsBack f r c
read_quoted f c r =
    let (quote, backslash, newline, carriage_return, tab) = read_named f r in
    elim (Bool-cases (c == b'"')) [
      | inl e ↦ at b'"' e quote
      | inr n1 ↦ elim (Bool-cases (c == b'\\')) [
        | inl e ↦ at b'\\' e backslash
        | inr n2 ↦ elim (Bool-cases (c == b'\n')) [
          | inl e ↦ at b'\n' e newline
          | inr n3 ↦ elim (Bool-cases (c == b'\r')) [
            | inl e ↦ at b'\r' e carriage_return
            | inr n4 ↦ elim (Bool-cases (c == b'\t')) [
              | inl e ↦ at b'\t' e tab
              | inr n5 ↦ elim (Bool-cases (ltb c 0x20)) [
                | inl e ↦
                    let q : quote_byte c ≡ control_escape c =
                      unfold quote_byte in rw (n1, n2, n3, n4, n5, e) refl in
                    rw q (read_control f c r (ltb→lt c 0x20 e))
                | inr n6 ↦
                    let q : quote_byte c ≡ c ∷ [] =
                      unfold quote_byte in rw (n1, n2, n3, n4, n5, n6) refl in
                    rw q (plain_read f c r (ground arith) (ground arith))
              ]
            ]
          ]
        ]
      ]
    ]
  where
    at : (lit : ℕ) → (c == lit) ≡ true → ReadsBack f r lit → ReadsBack f r c
    at lit e h = subst (ReadsBack f r) (sym ((==_iff c lit).0 e)) h

string_from-quote_bytes :
    (s r : Bytes) (f : ℕ) → length s < f → string_from f (quote_bytes s ++ b'"' ∷ r) ≡ some (s, r)
unfolding quote_bytes
string_from-quote_bytes s r zero h = absurd (omega arith)
string_from-quote_bytes [] r (suc f) h = unfold string_from in refl
string_from-quote_bytes (c ∷ s) r (suc f) h =
    ap (string_from (suc f)) (append_assoc (quote_byte c) (quote_bytes s) (b'"' ∷ r))
    ∙ read_quoted f c (quote_bytes s ++ b'"' ∷ r)
    ∙ ap (prefixed (c ∷ [])) (string_from-quote_bytes s r f (omega arith))

length-quote_byte_pos : (c : ℕ) → 0 < length (quote_byte c)
unfolding quote_byte
length-quote_byte_pos c = ground arith

length-quote_bytes : (s : Bytes) → length s ≤ length (quote_bytes s)
unfolding quote_bytes
length-quote_bytes [] = omega arith
length-quote_bytes (c ∷ s) = omega (
  arith,
  length-quote_bytes s,
  length-quote_byte_pos c,
  length-append (quote_byte c) (quote_bytes s),
)

-- Reading a quoted text gives the text back, and stops behind it, whatever bytes it holds and
-- whatever stands behind.
pub parse_string-json_quote : (s r : Bytes) → parse_string (json_quote s ++ r) ≡ some (s, r)
unfolding parse_string json_quote
parse_string-json_quote s r =
    let tail = quote_bytes s ++ b'"' ∷ r in
    let e : (quote_bytes s ++ b'"' ∷ []) ++ r ≡ tail = append_assoc (quote_bytes s) (b'"' ∷ []) r in
    ap (λ t. string_from (length t) t) e
    ∙ string_from-quote_bytes s r (length tail)
        (omega (arith, length-quote_bytes s, length-append (quote_bytes s) (b'"' ∷ r)))
