-- ===== src/KvStore/Names.antt =====
-- The names of checkpoint files: forty hexadecimal digits and `.kv`.
use preon_star.Base.{
  All, Bool, Bytes, Option, [], ap₂, arith, bytes_eq, bytes_eq_refl, codes, drop,
  drop-length_append, false, if◌then◌else◌, leb, length, length-append, ltb, none, not, refl, some,
  take, take-length_append, true, ℕ, ◌%◌, ◌&&◌, ◌*◌, ◌++◌, ◌+◌, ◌-◌, ◌/◌, ◌<◌, ◌==◌, ◌||◌, ◌∷◌, ◌≡◌,
}

-- `hex[d]` in `hex20`
abbrev pub hex_digit : ℕ → ℕ
hex_digit d = if ltb d 10 then b'0' + d else b'a' + (d - 10)

-- `hex20`, for as many bytes as there are
unfoldable pub hex : Bytes → Bytes
hex [] = []
hex (b ∷ s) = hex_digit (b / 16) ∷ hex_digit (b % 16) ∷ hex s

abbrev pub is_xdigit : ℕ → Bool
is_xdigit c = leb b'0' c && leb c b'9' || leb b'a' c && leb c b'f' || leb b'A' c && leb c b'F'

abbrev pub to_lower : ℕ → ℕ
to_lower c = if leb b'A' c && leb c b'Z' then c + 32 else c

-- the loop of `p36_kvstore_sha_hex_name`
unfoldable pub lower_hex : Bytes → Option Bytes
lower_hex [] = some []
lower_hex (c ∷ s) =
    let rest : Option Bytes = elim (lower_hex s) [ none ↦ none | some t ↦ some (to_lower c ∷ t) ] in
    if is_xdigit c then rest else none

-- `p36_kvstore_sha_hex_name`
unfoldable pub sha_hex_name : Bytes → Option Bytes
sha_hex_name name =
    if not (length name == 43) || not (bytes_eq (drop 40 name) (codes ".kv"))
    then none
    else lower_hex (take 40 name)

-- the last byte of the directory is a slash
unfoldable pub ends_in_slash : Bytes → Bool
ends_in_slash [] = false
ends_in_slash (c ∷ []) = c == b'/'
ends_in_slash (c ∷ d ∷ s) = ends_in_slash (d ∷ s)

-- `p36_kvstore_path_join`
unfoldable pub path_join : Bytes → Bytes → Bytes
path_join dir name = (if ends_in_slash dir then dir else dir ++ b'/' ∷ []) ++ name

abbrev pub file_name : Bytes → Bytes
file_name sha = sha ++ codes ".kv"

-- `p36_kvstore_path_for_sha`
unfoldable pub path_for_sha : Bytes → Bytes → Bytes
unfolding path_join
path_for_sha dir sha = path_join dir (file_name sha)

-- a hexadecimal digit in lower case
abbrev pub IsHex : ℕ → Type 0
IsHex c = (is_xdigit c ≡ true) × (to_lower c ≡ c)

abbrev pub IsByte : ℕ → Type 0
IsByte b = b < 256

hex_digit-IsHex : (d : ℕ) → d < 16 → IsHex (hex_digit d)
hex_digit-IsHex d h = ground arith

hex-IsHex : (s : Bytes) → All IsByte s → All IsHex (hex s)
unfolding hex
hex-IsHex [] h = tt
hex-IsHex (b ∷ s) h = (
  hex_digit-IsHex (b / 16) (omega arith),
  (hex_digit-IsHex (b % 16) (omega arith), hex-IsHex s h.1),
)

length-hex : (s : Bytes) → length (hex s) ≡ 2 * length s
unfolding hex
length-hex [] = refl
length-hex (b ∷ s) = omega (arith, length-hex s)

lower_hex-IsHex : (s : Bytes) → All IsHex s → lower_hex s ≡ some s
unfolding lower_hex
lower_hex-IsHex [] h = refl
lower_hex-IsHex (c ∷ s) h = rw (lower_hex-IsHex s h.1, h.0.0, h.0.1)

-- The name made of a digest of 20 bytes is a checkpoint's name, and gives the digest's digits back.
pub sha_hex_name-hex :
    (digest : Bytes)
    → length digest ≡ 20
    → All IsByte digest
    → sha_hex_name (file_name (hex digest)) ≡ some (hex digest)
unfolding sha_hex_name
sha_hex_name-hex digest l h =
    let size : length (hex digest) ≡ 40 = omega (arith, length-hex digest) in
    let whole : length (file_name (hex digest)) ≡ 43 =
      omega (arith, length-append (hex digest) (codes ".kv")) in
    let front : take 40 (file_name (hex digest)) ≡ hex digest =
      rw (← size) (take-length_append (hex digest) (codes ".kv")) in
    let back : drop 40 (file_name (hex digest)) ≡ codes ".kv" =
      rw (← size) (drop-length_append (hex digest) (codes ".kv")) in
    rw (whole, back, front, bytes_eq_refl) (lower_hex-IsHex (hex digest) (hex-IsHex digest h))

hex_digit-injective : (a b : ℕ) → a < 16 → b < 16 → hex_digit a ≡ hex_digit b → a ≡ b
hex_digit-injective a b ha hb h = ground arith

-- Digests with the same digits are the same.
pub hex-injective : (a b : Bytes) → All IsByte a → All IsByte b → hex a ≡ hex b → a ≡ b
unfolding hex
hex-injective [] [] ha hb h = refl
hex-injective [] (y ∷ b) ha hb h = cc h
hex-injective (x ∷ a) [] ha hb h = cc h
hex-injective (x ∷ a) (y ∷ b) ha hb h =
    let high = hex_digit-injective (x / 16) (y / 16) (omega arith) (omega arith) (cc h) in
    let low = hex_digit-injective (x % 16) (y % 16) (omega arith) (omega arith) (cc h) in
    ap₂ ◌∷◌ (omega (arith, high, low)) (hex-injective a b ha.1 hb.1 (cc h))
