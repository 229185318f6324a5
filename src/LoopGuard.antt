-- ===== src/LoopGuard.antt =====
-- p36_loopguard.h: the guard that watches what the model writes for a loop.
pub mod Near
pub mod Period
pub mod Window
pub mod Leak
mod Tests
use mathlib.Core.Bool.{not}
use mathlib.Core.List.{reverse}
use preon_star.Base.{
  Bool, Bytes, List, [], bytes_eq, drop, false, get_or, if◌then◌else◌, leb, length, ltb, not, suc,
  take, true, zero, ℕ, ◌%◌, ◌&&◌, ◌*◌, ◌++◌, ◌+◌, ◌-◌, ◌/◌, ◌==◌, ◌||◌, ◌∷◌,
}

abbrev pub newline : ℕ
newline = 10

abbrev pub carriage_return : ℕ
carriage_return = 13

-- `isspace` in the C locale
abbrev pub is_space : ℕ → Bool
is_space c = c == 32 || (leb 9 c && leb c 13)

-- `agent_line_span`
pub record LineSpan : Type 0 where
  pub start : ℕ
  pub content_end : ℕ
  pub end : ℕ

abbrev pub ends_line : ℕ → Bool
ends_line c = c == newline || c == carriage_return

-- the bytes before the line's end
unfoldable pub line_length : Bytes → ℕ
line_length [] = 0
line_length (c ∷ s) = let rest = line_length s in if ends_line c then 0 else suc rest

-- the bytes of the line's end that stands in front of the text
unfoldable pub newline_length : Bytes → ℕ
newline_length [] = 0
newline_length (c ∷ []) = 1
newline_length (c ∷ d ∷ s) = if c == carriage_return && d == newline then 2 else 1

-- the loop of `agent_split_lines` at `pos`; each round takes a byte at least
unfoldable pub split_from : ℕ → ℕ → Bytes → List LineSpan
unfolding line_length newline_length
split_from zero pos s = []
split_from (suc f) pos [] = []
split_from (suc f) pos (c ∷ s) =
    let n = line_length (c ∷ s) in
    let e = newline_length (drop n (c ∷ s)) in
    record { start = pos; content_end = pos + n; end = pos + n + e }
    ∷ split_from f (pos + n + e) (drop (n + e) (c ∷ s))

-- `agent_split_lines`
unfoldable pub split_lines : Bytes → List LineSpan
unfolding split_from
split_lines s = split_from (length s) 0 s

-- `while (a < b && isspace(text[a])) a++;`
unfoldable pub skip_space : Bytes → Bytes
skip_space [] = []
skip_space (c ∷ s) = let rest = skip_space s in if is_space c then rest else c ∷ s

-- `agent_repetition_trim_line`: the bytes that it leaves
unfoldable pub trim_line : Bytes → LineSpan → Bytes
unfolding skip_space
trim_line text sp =
    reverse
      (skip_space (reverse (skip_space (take (sp.content_end - sp.start) (drop sp.start text)))))

-- the loop of `agent_repetition_lines_near`, which stops when the count passes what is allowed
unfoldable pub mismatches : ℕ → ℕ → Bytes → Bytes → ℕ
mismatches allowed m (x ∷ a) (y ∷ b) =
    let rest = mismatches allowed (if x == y then m else suc m) a b in
    if leb m allowed then rest else m
mismatches allowed m _ _ = m

-- the difference of the lengths, where it is small
abbrev pub length_gap : ℕ → ℕ → ℕ
length_gap an bn = if ltb bn an then an - bn else bn - an

abbrev pub allowed_mismatches : ℕ → ℕ → ℕ
allowed_mismatches an bn =
    let allowed = (if ltb an bn then an else bn) / 20 in if ltb allowed 2 then 2 else allowed

-- `agent_repetition_lines_near`
unfoldable pub lines_near : Bytes → Bytes → Bool
unfolding mismatches
lines_near a b =
    let an = length a in
    let bn = length b in
    let allowed = allowed_mismatches an bn in
    if ltb an 24 || ltb bn 24 || ltb (an + 2) bn || ltb (bn + 2) an
    then false
    else leb (mismatches allowed (length_gap an bn) a b) allowed

-- the lines that were alike so far; the reference is empty until a line was seen
pub record LineRun : Type 0 where
  pub reference : Bytes
  pub exact_run : ℕ
  pub near_run : ℕ

pub data Verdict : Type 0 where
  found : Verdict
  broken : Verdict
  next : LineRun → Verdict

abbrev pub judge : LineRun → Verdict
judge r = if leb 12 r.exact_run || leb 32 r.near_run then found else next r

-- one round of the loop over lines in `agent_repetition_text_detected`
unfoldable pub line_step : LineRun → Bytes → Verdict
unfolding lines_near bytes_eq
line_step r line =
    if length line == 0
    then next r
    else if length r.reference == 0
    then next (record { reference = line; exact_run = 1; near_run = 1 })
    else if leb 12 (length line) && bytes_eq line r.reference
    then judge (record r { exact_run = suc r.exact_run; near_run = suc r.near_run })
    else if lines_near line r.reference
    then judge (record r { exact_run = 0; near_run = suc r.near_run })
    else broken

unfoldable pub line_run : Verdict → List Bytes → Bool
unfolding line_step
line_run found lines = true
line_run broken lines = false
line_run (next r) [] = false
line_run (next r) (l ∷ lines) = line_run (line_step r l) lines

unfoldable pub trim_lines : Bytes → List LineSpan → List Bytes
unfolding trim_line
trim_lines text [] = []
trim_lines text (sp ∷ spans) = trim_line text sp ∷ trim_lines text spans

-- the last 48 lines of the text, from the end
unfoldable pub lines_repeat : Bytes → Bool
unfolding split_lines trim_lines line_run
lines_repeat text =
    line_run (next (record { reference = []; exact_run = 0; near_run = 0 }))
      (trim_lines text (take 48 (reverse (split_lines text))))

-- `suffix[i] == suffix[i % period]` for `n` numbers from `i` on
unfoldable pub same_from : ℕ → ℕ → ℕ → Bytes → Bool
same_from zero i period s = true
same_from (suc n) i period s =
    let rest = same_from n (suc i) period s in
    if get_or s i 0 == get_or s (i % period) 0 then rest else false

unfoldable pub seen_in : ℕ → Bytes → Bool
seen_in c [] = false
seen_in c (d ∷ s) = d == c || seen_in c s

-- the different bytes of the text, four at most
unfoldable pub distinct : Bytes → Bytes → Bytes
unfolding seen_in
distinct [] seen = seen
distinct (c ∷ s) seen =
    let rest = distinct s (if seen_in c seen then seen else seen ++ c ∷ []) in
    if ltb (length seen) 4 then rest else seen

abbrev pub repeats : ℕ
repeats = 8

-- the test of one period
unfoldable pub period_repeats : Bytes → ℕ → Bool
unfolding same_from distinct
period_repeats text period =
    let repeated = period * repeats in
    let suffix = drop (length text - repeated) text in
    if ltb repeated 256 || ltb (length text) repeated
    then false
    else if not (same_from (repeated - period) period period suffix)
    then false
    else leb 4 (length (distinct (take period suffix) []))

-- the loop over `n` periods from `period` on
unfoldable pub some_period : ℕ → ℕ → Bytes → Bool
unfolding period_repeats
some_period zero period text = false
some_period (suc n) period text =
    let rest = some_period n (suc period) text in if period_repeats text period then true else rest

-- `agent_repetition_text_detected`
unfoldable pub text_detected : Bytes → Bool
unfolding lines_repeat some_period
text_detected text =
    if ltb (length text) 128
    then false
    else if lines_repeat text
    then true
    else some_period (257 - 16) 16 text
