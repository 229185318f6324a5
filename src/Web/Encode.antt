-- ===== src/Web/Encode.antt =====
-- `web_base64` and `web_url_encode`.
pub mod Decoded
use preon_star.Base.{
  Bool, Bytes, [], if◌then◌else◌, leb, ltb, ℕ, ◌%◌, ◌&&◌, ◌*◌, ◌++◌, ◌+◌, ◌-◌, ◌/◌, ◌==◌, ◌^◌, ◌||◌,
  ◌∷◌,
}

-- `tab`
abbrev pub base64_digit : ℕ → ℕ
base64_digit v =
    if ltb v 26
    then b'A' + v
    else if ltb v 52
    then b'a' + (v - 26)
    else if ltb v 62
    then b'0' + (v - 52)
    else if v == 62
    then b'+'
    else b'/'

-- `web_base64`: each round takes three bytes, or those that are left
unfoldable pub base64 : Bytes → Bytes
base64 [] = []
base64 (a ∷ []) =
    let v = a * 2 ^ 16 in
    base64_digit (v / 2 ^ 18 % 64) ∷ base64_digit (v / 2 ^ 12 % 64) ∷ b'=' ∷ b'=' ∷ []
base64 (a ∷ b ∷ []) =
    let v = a * 2 ^ 16 + b * 2 ^ 8 in
    base64_digit (v / 2 ^ 18 % 64)
    ∷ base64_digit (v / 2 ^ 12 % 64)
    ∷ base64_digit (v / 2 ^ 6 % 64)
    ∷ b'='
    ∷ []
base64 (a ∷ b ∷ c ∷ s) =
    let v = a * 2 ^ 16 + b * 2 ^ 8 + c in
    base64_digit (v / 2 ^ 18 % 64)
    ∷ base64_digit (v / 2 ^ 12 % 64)
    ∷ base64_digit (v / 2 ^ 6 % 64)
    ∷ base64_digit (v % 64)
    ∷ base64 s

-- `isalnum`, in the C locale
abbrev pub is_alnum : ℕ → Bool
is_alnum c = leb b'0' c && leb c b'9' || leb b'A' c && leb c b'Z' || leb b'a' c && leb c b'z'

abbrev pub is_unreserved : ℕ → Bool
is_unreserved c = is_alnum c || c == b'-' || c == b'_' || c == b'.' || c == b'~'

-- `hex`
abbrev pub hex_upper : ℕ → ℕ
hex_upper d = if ltb d 10 then b'0' + d else b'A' + (d - 10)

abbrev pub url_byte : ℕ → Bytes
url_byte c = if is_unreserved c then c ∷ [] else b'%' ∷ hex_upper (c / 16) ∷ hex_upper (c % 16) ∷ []

-- `web_url_encode`
unfoldable pub url_encode : Bytes → Bytes
url_encode [] = []
url_encode (c ∷ s) = url_byte c ++ url_encode s
