-- ===== src/Remote/Utf8.antt =====
-- `utf8_put` and `hex4` of p36_remote.c. Bits that are set by `|` stand above the bits of the other
-- side, so `|` is a sum, and a mask is a remainder.
use preon_star.Base.{
  Bool, Bytes, Option, [], if◌then◌else◌, leb, ltb, none, some, suc, zero, ℕ, ◌%◌, ◌&&◌, ◌*◌, ◌+◌,
  ◌-◌, ◌/◌, ◌^◌, ◌||◌, ◌∷◌,
}

-- `utf8_put`
unfoldable pub utf8_put : ℕ → Bytes
utf8_put cp =
    if ltb cp 0x80
    then cp ∷ []
    else if ltb cp 0x800
    then (0xC0 + cp / 64) ∷ (0x80 + cp % 64) ∷ []
    else if ltb cp 0x10000
    then (0xE0 + cp / 4096) ∷ (0x80 + cp / 64 % 64) ∷ (0x80 + cp % 64) ∷ []
    else (0xF0 + cp / 2 ^ 18)
      ∷ (0x80 + cp / 4096 % 64)
      ∷ (0x80 + cp / 64 % 64)
      ∷ (0x80 + cp % 64)
      ∷ []

-- `isxdigit`, and the digit's value
abbrev pub is_hex_digit : ℕ → Bool
is_hex_digit c = leb b'0' c && leb c b'9' || leb b'a' c && leb c b'f' || leb b'A' c && leb c b'F'

abbrev pub hex_value : ℕ → ℕ
hex_value c =
    if leb b'0' c && leb c b'9'
    then c - b'0'
    else if leb b'a' c
    then c - b'a' + 10
    else c - b'A' + 10

-- the loop of `hex4` over `n` bytes, with the value so far
unfoldable pub hex_digits : ℕ → ℕ → Bytes → Option ℕ
hex_digits zero v s = some v
hex_digits (suc n) v [] = none
hex_digits (suc n) v (c ∷ s) =
    let rest = hex_digits n (v * 16 + hex_value c) s in if is_hex_digit c then rest else none

-- `hex4`
unfoldable pub hex4 : Bytes → Option ℕ
unfolding hex_digits
hex4 s = hex_digits 4 0 s
