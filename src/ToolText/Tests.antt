-- ===== src/ToolText/Tests.antt =====
-- Runs of the tool text routines, and the theorems about them at concrete texts.
use preon_star.Base.{
  Bytes, arith, codes, length, refl, some, starts_with, true, ◌++◌, ◌+◌, ◌↔◌, ◌∷◌, ◌≡◌,
}
use preon_star.ToolText.{
  closes, escape, escaped_close, is_start_of, needs_escape, partial_close, partial_escape,
  partial_tail, skip_amps, unescape,
}
use preon_star.ToolText.Delimiter.{first_at, first_at-escape}
use preon_star.ToolText.Escaped.{delimiter}
use preon_star.ToolText.RoundTrip.{unescape-escape}
use preon_star.ToolText.Stream.{partial_escape_iff}

abbrev param_tail : Bytes
param_tail = codes "/parameter>"

-- the delimiter, and its escaped spellings
abbrev value : Bytes
value = codes "a</parameter>&lt;/parameter>&amp;lt;/parameter>&lt;b"

escape-value :
    escape (delimiter param_tail) value
    ≡ codes "a&lt;/parameter>&amp;lt;/parameter>&amp;amp;lt;/parameter>&lt;b"
unfolding escape needs_escape escaped_close closes skip_amps starts_with
escape-value = refl

held : partial_escape (delimiter param_tail) (codes "&amp;lt;/para") ≡ true
unfolding partial_escape partial_close partial_tail skip_amps is_start_of
held = refl

unescape-escape_example :
    unescape (delimiter param_tail) (escape (delimiter param_tail) value) ≡ value
unescape-escape_example = unescape-escape param_tail (omega arith) value

first_at-escape_example :
    first_at
      (delimiter param_tail)
      (escape (delimiter param_tail) value ++ 10 ∷ (delimiter param_tail ++ codes "\n"))
    ≡ some (length (escape (delimiter param_tail) value) + 1)
first_at-escape_example = first_at-escape param_tail (omega arith) (omega arith) value (codes "\n")

partial_escape_iff_example :
    (partial_escape (delimiter param_tail) (codes "&am") ≡ true)
    ↔ ((r : Bytes) × (escaped_close (delimiter param_tail) (codes "&am" ++ r) ≡ true))
unfolding escaped_close closes skip_amps
partial_escape_iff_example =
    partial_escape_iff (delimiter param_tail) (codes "&am") (λ e. cc e) refl
