-- ===== src/ToolText.antt =====
-- p36_tool_text.h: the escape of a closing delimiter inside a tool call's parameter text, and
-- the writer of src/server/server_02_parse_anthropic_image_source.inc that applies it.
-- A text is the bytes before its NUL, so `*s` at the end is the empty list.
mod Close
mod Escaped
pub mod RoundTrip
pub mod Delimiter
pub mod Stream
mod Tests
use preon_star.Base.{
  Bool, Bytes, [], codes, false, if◌then◌else◌, length, ltb, starts_with, suc, true, zero, ℕ, ◌&&◌,
  ◌==◌, ◌||◌, ◌∷◌,
}

-- `end + 1`
abbrev pub tail : Bytes → Bytes
tail [] = []
tail (c ∷ e) = e

-- `while (!strncmp(s, "amp;", 4)) s += 4;`
unfoldable pub skip_amps : Bytes → Bytes
skip_amps (a ∷ b ∷ c ∷ d ∷ s) =
    let rest = skip_amps s in
    if a == b'a' && b == b'm' && c == b'p' && d == b';' then rest else a ∷ b ∷ c ∷ d ∷ s
skip_amps s = s

-- the last line of `p36_tool_text_escaped_close`; the argument is `s` behind the loop
unfoldable pub closes : Bytes → Bytes → Bool
closes end (a ∷ b ∷ c ∷ s) = (a == b'l' && b == b't' && c == b';') && starts_with (tail end) s
closes end _ = false

unfoldable pub escaped_close : Bytes → Bytes → Bool
escaped_close end [] = false
escaped_close end (c ∷ s) = if c == b'&' then closes end (skip_amps s) else false

unfoldable pub needs_escape : Bytes → Bytes → Bool
needs_escape end s = starts_with end s || escaped_close end s

-- the loop of `append_qwen_parameter` over one value
unfoldable pub escape : Bytes → Bytes → Bytes
escape end [] = []
escape end (c ∷ s) =
    let rest = escape end s in
    if needs_escape end (c ∷ s)
    then (if c == b'<'
        then b'&' ∷ b'l' ∷ b't' ∷ b';' ∷ rest
        else b'&' ∷ b'a' ∷ b'm' ∷ b'p' ∷ b';' ∷ rest)
    else c ∷ rest

-- `p36_tool_text_unescape`. The first number counts the bytes that the last `s += 5` or
-- `s += 4` has still to step over. The write pointer never passes the read pointer, so what is
-- read ahead is the text as it was.
unfoldable pub unescape_from : Bytes → ℕ → Bytes → Bytes
unescape_from end n [] = []
unescape_from end (suc n) (c ∷ s) = unescape_from end n s
unescape_from end zero (c ∷ s) =
    let amp = b'&' ∷ unescape_from end 4 s in
    let less = b'<' ∷ unescape_from end 3 s in
    let plain = c ∷ unescape_from end 0 s in
    if escaped_close end (c ∷ s)
    then (if starts_with (codes "&amp;") (c ∷ s) then amp else less)
    else plain

unfoldable pub unescape : Bytes → Bytes → Bytes
unfolding unescape_from
unescape end s = unescape_from end 0 s

-- `n < 4 && !memcmp(s, "amp;", n)`, and so for the other two literals: the text is a proper or
-- improper start of the literal.
unfoldable pub is_start_of : Bytes → Bytes → Bool
unfolding starts_with
is_start_of p s = starts_with s p

-- the last lines of `p36_tool_text_partial_escape`, from `memcmp(s, "lt;", 3)` on
unfoldable pub partial_tail : Bytes → Bytes → Bool
unfolding is_start_of
partial_tail end (a ∷ b ∷ c ∷ t) =
    (a == b'l' && b == b't' && c == b';')
    && (ltb (length t) (length (tail end)) && is_start_of (tail end) t)
partial_tail end _ = false

-- the part of `p36_tool_text_partial_escape` behind the loop
unfoldable pub partial_close : Bytes → Bytes → Bool
partial_close end s =
    if ltb (length s) 4 && is_start_of (codes "amp;") s
    then true
    else if ltb (length s) 3
    then is_start_of (codes "lt;") s
    else partial_tail end s

unfoldable pub partial_escape : Bytes → Bytes → Bool
partial_escape end [] = false
partial_escape end (c ∷ s) = if c == b'&' then partial_close end (skip_amps s) else false
