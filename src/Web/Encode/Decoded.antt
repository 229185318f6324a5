-- ===== src/Web/Encode/Decoded.antt =====
-- The encodings, read by their standards.
use preon_star.Base.{
  All, Bytes, [], ap, ap₂, arith, false, if_cases, if◌then◌else◌, leb, refl, take, true, ℕ, ◌%◌,
  ◌&&◌, ◌*◌, ◌++◌, ◌+◌, ◌-◌, ◌/◌, ◌<◌, ◌==◌, ◌^◌, ◌∙◌, ◌∷◌, ◌≡◌,
}
use preon_star.Web.Encode.{base64, base64_digit, hex_upper, is_unreserved, url_byte, url_encode}
use preon_star.Web.Frame.Masking.{IsByte}

-- the value of a digit of base 64
abbrev pub base64_value : ℕ → ℕ
base64_value d =
    if leb b'A' d && leb d b'Z'
    then d - b'A'
    else if leb b'a' d && leb d b'z'
    then d - b'a' + 26
    else if leb b'0' d && leb d b'9'
    then d - b'0' + 52
    else if d == b'+'
    then 62
    else 63

-- base 64 read by RFC 4648: four digits are three bytes, and `=` stands for digits that are missing
abbrev pub base64_four : ℕ → ℕ → ℕ → ℕ → Bytes
base64_four p q r s =
    let v = base64_value p * 2 ^ 18 + base64_value q * 2 ^ 12 in
    if r == b'='
    then v / 2 ^ 16 ∷ []
    else if s == b'='
    then (v + base64_value r * 2 ^ 6) / 2 ^ 16 ∷ (v + base64_value r * 2 ^ 6) / 2 ^ 8 % 256 ∷ []
    else let w = v + base64_value r * 2 ^ 6 + base64_value s in
      w / 2 ^ 16 ∷ w / 2 ^ 8 % 256 ∷ w % 256 ∷ []

unfoldable pub base64_read : Bytes → Bytes
base64_read (p ∷ q ∷ r ∷ s ∷ t) = base64_four p q r s ++ base64_read t
base64_read _ = []

base64_value-base64_digit : (v : ℕ) → v < 64 → base64_value (base64_digit v) ≡ v
base64_value-base64_digit v h = ground arith

base64_digit-ne : (v : ℕ) → v < 64 → (base64_digit v == b'=') ≡ false
base64_digit-ne v h = ground arith

-- a percent sign and two digits are a byte, other bytes stand for themselves
abbrev pub hex_read : ℕ → ℕ
hex_read d = if leb d b'9' then d - b'0' else d - b'A' + 10

data Escape : Type 0 where
  plain : Escape
  percent : Escape
  high : ℕ → Escape

unfoldable url_from : Escape → Bytes → Bytes
url_from e [] = []
url_from plain (c ∷ s) =
    let one = c ∷ url_from plain s in let two = url_from percent s in if c == b'%' then two else one
url_from percent (d ∷ s) = url_from (high d) s
url_from (high d) (e ∷ s) = (hex_read d * 16 + hex_read e) ∷ url_from plain s

digits_of :
    (v : ℕ)
    → v < 2 ^ 24
    → v / 2 ^ 18 % 64 * 2 ^ 18 + v / 2 ^ 12 % 64 * 2 ^ 12 + v / 2 ^ 6 % 64 * 2 ^ 6 + v % 64 ≡ v
digits_of v h = omega arith

-- the bytes of a number of three
abbrev bytes_of : ℕ → Bytes
bytes_of w = w / 2 ^ 16 ∷ w / 2 ^ 8 % 256 ∷ w % 256 ∷ []

four_digits :
    (p q r s : ℕ)
    → p < 64
    → q < 64
    → r < 64
    → s < 64
    → base64_four (base64_digit p) (base64_digit q) (base64_digit r) (base64_digit s)
      ≡ bytes_of (p * 2 ^ 18 + q * 2 ^ 12 + r * 2 ^ 6 + s)
four_digits p q r s hp hq hr hs =
    rw
      (
        base64_digit-ne r hr,
        base64_digit-ne s hs,
        base64_value-base64_digit p hp,
        base64_value-base64_digit q hq,
        base64_value-base64_digit r hr,
        base64_value-base64_digit s hs,
      )
      refl

three_digits :
    (p q r : ℕ)
    → p < 64
    → q < 64
    → r < 64
    → base64_four (base64_digit p) (base64_digit q) (base64_digit r) b'='
      ≡ take 2 (bytes_of (p * 2 ^ 18 + q * 2 ^ 12 + r * 2 ^ 6))
three_digits p q r hp hq hr =
    rw
      (
        base64_digit-ne r hr,
        base64_value-base64_digit p hp,
        base64_value-base64_digit q hq,
        base64_value-base64_digit r hr,
      )
      refl

two_digits :
    (p q : ℕ)
    → p < 64
    → q < 64
    → base64_four (base64_digit p) (base64_digit q) b'=' b'='
      ≡ take 1 (bytes_of (p * 2 ^ 18 + q * 2 ^ 12))
two_digits p q hp hq = rw (base64_value-base64_digit p hp, base64_value-base64_digit q hq) refl

bytes_of-three :
    (a b c : ℕ)
    → IsByte a
    → IsByte b
    → IsByte c
    → bytes_of (a * 2 ^ 16 + b * 2 ^ 8 + c) ≡ a ∷ b ∷ c ∷ []
bytes_of-three a b c ha hb hc =
    let high : (a * 2 ^ 16 + b * 2 ^ 8 + c) / 2 ^ 16 ≡ a = omega arith in
    let middle : (a * 2 ^ 16 + b * 2 ^ 8 + c) / 2 ^ 8 % 256 ≡ b = omega arith in
    let low : (a * 2 ^ 16 + b * 2 ^ 8 + c) % 256 ≡ c = omega arith in rw (high, middle, low) refl

base64_four-three :
    (a b c : ℕ)
    → IsByte a
    → IsByte b
    → IsByte c
    → let v = a * 2 ^ 16 + b * 2 ^ 8 + c in
      base64_four
        (base64_digit (v / 2 ^ 18 % 64))
        (base64_digit (v / 2 ^ 12 % 64))
        (base64_digit (v / 2 ^ 6 % 64))
        (base64_digit (v % 64))
      ≡ a ∷ b ∷ c ∷ []
base64_four-three a b c ha hb hc =
    let v = a * 2 ^ 16 + b * 2 ^ 8 + c in
    four_digits (v / 2 ^ 18 % 64) (v / 2 ^ 12 % 64) (v / 2 ^ 6 % 64) (v % 64) (omega arith)
      (omega arith) (omega arith) (omega arith)
    ∙ ap bytes_of (digits_of v (omega arith))
    ∙ bytes_of-three a b c ha hb hc

base64_four-two :
    (a b : ℕ)
    → IsByte a
    → IsByte b
    → let v = a * 2 ^ 16 + b * 2 ^ 8 in
      base64_four
        (base64_digit (v / 2 ^ 18 % 64))
        (base64_digit (v / 2 ^ 12 % 64))
        (base64_digit (v / 2 ^ 6 % 64))
        b'='
      ≡ a ∷ b ∷ []
base64_four-two a b ha hb =
    let v = a * 2 ^ 16 + b * 2 ^ 8 in
    let same : v / 2 ^ 18 % 64 * 2 ^ 18 + v / 2 ^ 12 % 64 * 2 ^ 12 + v / 2 ^ 6 % 64 * 2 ^ 6
        ≡ v + 0 =
      omega arith in
    three_digits (v / 2 ^ 18 % 64) (v / 2 ^ 12 % 64) (v / 2 ^ 6 % 64) (omega arith) (omega arith)
      (omega arith)
    ∙ ap (λ (w : ℕ). take 2 (bytes_of w)) same
    ∙ ap (take 2) (bytes_of-three a b 0 ha hb (omega arith))

base64_four-one :
    (a : ℕ)
    → IsByte a
    → let v = a * 2 ^ 16 in
      base64_four (base64_digit (v / 2 ^ 18 % 64)) (base64_digit (v / 2 ^ 12 % 64)) b'=' b'='
      ≡ a ∷ []
base64_four-one a ha =
    let v = a * 2 ^ 16 in
    let same : v / 2 ^ 18 % 64 * 2 ^ 18 + v / 2 ^ 12 % 64 * 2 ^ 12 ≡ v + 0 * 2 ^ 8 + 0 =
      omega arith in
    two_digits (v / 2 ^ 18 % 64) (v / 2 ^ 12 % 64) (omega arith) (omega arith)
    ∙ ap (λ (w : ℕ). take 1 (bytes_of w)) same
    ∙ ap (take 1) (bytes_of-three a 0 0 ha (omega arith) (omega arith))

-- Base 64 is read back, by RFC 4648, as the bytes, whatever their number.
pub base64_read-base64 : (s : Bytes) → All IsByte s → base64_read (base64 s) ≡ s
unfolding base64 base64_read
base64_read-base64 [] h = refl
base64_read-base64 (a ∷ []) (ha, h) = ap (λ (x : Bytes). x ++ []) (base64_four-one a ha)
base64_read-base64 (a ∷ b ∷ []) (ha, (hb, h)) =
    ap (λ (x : Bytes). x ++ []) (base64_four-two a b ha hb)
base64_read-base64 (a ∷ b ∷ c ∷ s) (ha, (hb, (hc, h))) =
    ap₂ ◌++◌ (base64_four-three a b c ha hb hc) (base64_read-base64 s h)

hex_read-hex_upper : (d : ℕ) → d < 16 → hex_read (hex_upper d) ≡ d
hex_read-hex_upper d h = ground arith

hex_pair :
    (c : ℕ) → IsByte c → hex_read (hex_upper (c / 16)) * 16 + hex_read (hex_upper (c % 16)) ≡ c
hex_pair c h =
    rw (hex_read-hex_upper (c / 16) (omega arith), hex_read-hex_upper (c % 16) (omega arith))
      (omega arith)

not_percent : (c : ℕ) → is_unreserved c ≡ true → (c == b'%') ≡ false
not_percent c h = ground arith

url_from-url_byte :
    (c : ℕ) (r : Bytes) → IsByte c → url_from plain (url_byte c ++ r) ≡ c ∷ url_from plain r
unfolding url_from
url_from-url_byte c r h =
    let escaped : hex_read (hex_upper (c / 16)) * 16 + hex_read (hex_upper (c % 16)) ≡ c =
      hex_pair c h in
    if_cases (λ (b : Bytes). url_from plain (b ++ r) ≡ c ∷ url_from plain r) (is_unreserved c)
      (λ e. rw (not_percent c e) refl) (λ e. ap (λ (x : ℕ). x ∷ url_from plain r) escaped)

-- An encoded URL is read back as the bytes, by RFC 3986.
url_from-url_encode : (s : Bytes) → All IsByte s → url_from plain (url_encode s) ≡ s
unfolding url_encode url_from
url_from-url_encode [] h = refl
url_from-url_encode (c ∷ s) (hc, h) =
    url_from-url_byte c (url_encode s) hc ∙ ap (◌∷◌ c) (url_from-url_encode s h)
