-- ===== src/Remote/Quote.antt =====
-- `p36_remote_json_quote` and `jparse_string`: a JSON string is written and read.
pub mod RoundTrip
use preon_star.Base.{
  Bool, Bytes, Option, [], drop, if◌then◌else◌, leb, length, ltb, none, some, suc, zero, ℕ, ◌%◌,
  ◌&&◌, ◌*◌, ◌++◌, ◌+◌, ◌-◌, ◌/◌, ◌==◌, ◌∷◌,
}
use preon_star.Remote.Utf8.{hex4, utf8_put}

-- `%04x` of a number below 16 ^ 4, and one lower-case digit
abbrev pub digit_of : ℕ → ℕ
digit_of d = if ltb d 10 then b'0' + d else b'a' + (d - 10)

-- the bytes for one byte
unfoldable pub quote_byte : ℕ → Bytes
quote_byte c =
    if c == b'"'
    then b'\\' ∷ b'"' ∷ []
    else if c == b'\\'
    then b'\\' ∷ b'\\' ∷ []
    else if c == b'\n'
    then b'\\' ∷ b'n' ∷ []
    else if c == b'\r'
    then b'\\' ∷ b'r' ∷ []
    else if c == b'\t'
    then b'\\' ∷ b't' ∷ []
    else if ltb c 0x20
    then b'\\' ∷ b'u' ∷ b'0' ∷ b'0' ∷ digit_of (c / 16) ∷ digit_of (c % 16) ∷ []
    else c ∷ []

unfoldable pub quote_bytes : Bytes → Bytes
unfolding quote_byte
quote_bytes [] = []
quote_bytes (c ∷ s) = quote_byte c ++ quote_bytes s

-- `p36_remote_json_quote`: what is added to the buffer
unfoldable pub json_quote : Bytes → Bytes
unfolding quote_bytes
json_quote s = b'"' ∷ (quote_bytes s ++ b'"' ∷ [])

-- what one escape gives, and the bytes behind it
abbrev pub Unescaped : Type 0
Unescaped = Option (Bytes × Bytes)

abbrev pub is_high : ℕ → Bool
is_high cp = leb 0xD800 cp && ltb cp 0xDC00

abbrev pub is_low : ℕ → Bool
is_low cp = leb 0xDC00 cp && ltb cp 0xE000

-- the low half that follows a high one: `some` only where it is a low half
unfoldable pub low_half : Option ℕ → Option ℕ
low_half none = none
low_half (some lo) = if is_low lo then some lo else none

unfoldable pub low_after : Bytes → Option ℕ
unfolding hex4 low_half
low_after (c ∷ d ∷ s) = if c == b'\\' && d == b'u' then low_half (hex4 s) else none
low_after _ = none

abbrev pub pair_of : ℕ → ℕ → ℕ
pair_of hi lo = 0x10000 + (hi - 0xD800) * 1024 + (lo - 0xDC00)

-- the code point `cp` was read; `s` stands behind its digits
unfoldable pub unicode : ℕ → Bytes → Option ℕ → Bytes × Bytes
unfolding utf8_put
unicode cp s none = (utf8_put cp, s)
unicode cp s (some lo) =
    if is_high cp then (utf8_put (pair_of cp lo), drop 6 s) else (utf8_put cp, s)

unfoldable pub unescape_unicode : Bytes → Option ℕ → Unescaped
unfolding unicode low_after
unescape_unicode s none = none
unescape_unicode s (some cp) = some (unicode cp (drop 4 s) (low_after (drop 4 s)))

-- the `switch` behind a backslash
unfoldable pub unescape_one : Bytes → Unescaped
unfolding unescape_unicode hex4
unescape_one [] = none
unescape_one (c ∷ s) =
    if c == b'n'
    then some (b'\n' ∷ [], s)
    else if c == b'r'
    then some (b'\r' ∷ [], s)
    else if c == b't'
    then some (b'\t' ∷ [], s)
    else if c == b'b'
    then some (8 ∷ [], s)
    else if c == b'f'
    then some (12 ∷ [], s)
    else if c == b'u'
    then unescape_unicode s (hex4 s)
    else some (c ∷ [], s)

-- a string that was read and the bytes behind its end
abbrev pub prefixed : Bytes → Option (Bytes × Bytes) → Option (Bytes × Bytes)
prefixed a none = none
prefixed a (some (b, r)) = some (a ++ b, r)

-- what the rest of the loop makes of a round that took some bytes
abbrev pub then_read : Unescaped → (Bytes → Option (Bytes × Bytes)) → Option (Bytes × Bytes)
then_read none rest = none
then_read (some (out, s)) rest = prefixed out (rest s)

-- one round: a backslash with what belongs to it, or a byte
unfoldable pub string_step : ℕ → Bytes → Unescaped
unfolding unescape_one
string_step c s = if c == b'\\' then unescape_one s else some (c ∷ [], s)

-- The loop of `jparse_string`. Each round takes a byte at least; the fuel is the number of bytes.
unfoldable pub string_from : ℕ → Bytes → Option (Bytes × Bytes)
unfolding string_step
string_from zero s = none
string_from (suc f) [] = none
string_from (suc f) (c ∷ s) =
    if c == b'"' then some ([], s) else then_read (string_step c s) (string_from f)

-- `jparse_string`: the string and the bytes behind it
unfoldable pub parse_string : Bytes → Option (Bytes × Bytes)
unfolding string_from
parse_string [] = none
parse_string (c ∷ s) = if c == b'"' then string_from (length s) s else none
