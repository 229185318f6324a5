-- ===== src/Eval/Letter.antt =====
-- The letter of a choice that an answer names: `find_last_answer_marker`, `mc_letter_is_negated` and
-- `find_answer_letter`. The bytes in front of a place are held from the last to the first.
use preon_star.Base.{
  Bool, Bytes, List, Option, [], bytes_eq, codes, drop, false, if◌then◌else◌, leb, length, ltb,
  none, not, some, starts_with, suc, true, zero, ℕ, ◌&&◌, ◌+◌, ◌-◌, ◌==◌, ◌||◌, ◌∷◌,
}
use preon_star.Eval.Answer.{is_space, to_lower}

abbrev pub is_alpha : ℕ → Bool
is_alpha c = leb b'A' c && leb c b'Z' || leb b'a' c && leb c b'z'

abbrev pub is_letter_boundary : ℕ → ℕ → Bool
is_letter_boundary before after = not (is_alpha before) && not (is_alpha after)

-- a beginning in lower case, compared by `strncasecmp`
unfoldable pub starts_caseless : Bytes → Bytes → Bool
starts_caseless [] s = true
starts_caseless (c ∷ p) [] = false
starts_caseless (c ∷ p) (d ∷ s) = to_lower d == c && starts_caseless p s

abbrev pub head_or : ℕ → Bytes → ℕ
head_or d [] = d
head_or d (c ∷ s) = c

unfoldable pub skip_while : (ℕ → Bool) → Bytes → Bytes
skip_while skipped [] = []
skip_while skipped (c ∷ s) = let rest = skip_while skipped s in if skipped c then rest else c ∷ s

unfoldable pub take_while : (ℕ → Bool) → Bytes → Bytes
take_while taken [] = []
take_while taken (c ∷ s) = let rest = take_while taken s in if taken c then c ∷ rest else []

-- `strcasestr_local`, from the place that is found
unfoldable pub first_caseless : Bytes → Bytes → Option Bytes
unfolding starts_caseless
first_caseless p [] = none
first_caseless p (c ∷ s) =
    let rest = first_caseless p s in if starts_caseless p (c ∷ s) then some (c ∷ s) else rest

abbrev pub is_marker : ℕ → Bytes → Bool
is_marker before s =
    starts_caseless (codes "answer") s
    && is_letter_boundary before (head_or 0 (drop 6 s))
    && head_or 0 (skip_while is_space (drop 6 s)) == b':'

-- the loop of `find_last_answer_marker`
unfoldable pub marker_from : ℕ → Option Bytes → Bytes → Option Bytes
unfolding starts_caseless skip_while
marker_from before last [] = last
marker_from before last (c ∷ s) =
    marker_from c (if is_marker before (c ∷ s) then some (c ∷ s) else last) s

abbrev pub or_first : Bytes → Option Bytes → Option Bytes
or_first visible none = first_caseless (codes "answer") visible
or_first visible (some s) = some s

-- `find_last_answer_marker`
unfoldable pub find_last_answer_marker : Bytes → Option Bytes
unfolding marker_from first_caseless
find_last_answer_marker visible = or_first visible (marker_from b' ' none visible)

-- what stands in front of the gap; `none` behind a newline
unfoldable pub back_gap : Bytes → Option Bytes
back_gap [] = some []
back_gap (c ∷ r) =
    let rest = back_gap r in
    if c == b'\n'
    then none
    else if c == b' ' || c == b'\t' || c == b',' || c == b';'
    then rest
    else some (c ∷ r)

unfoldable pub lower : Bytes → Bytes
lower [] = []
lower (c ∷ s) = to_lower c ∷ lower s

unfoldable pub is_in : Bytes → List Bytes → Bool
unfolding bytes_eq
is_in w [] = false
is_in w (c ∷ cs) = bytes_eq w c || is_in w cs

-- `cues`, backwards as the word is
abbrev pub cues : List Bytes
cues =
    codes "ton"
    ∷ codes "tpecxe"
    ∷ codes "gnidulcxe"
    ∷ codes "edulcxe"
    ∷ codes "sedulcxe"
    ∷ codes "etanimile"
    ∷ codes "setanimile"
    ∷ codes "detanimile"
    ∷ codes "tcejer"
    ∷ codes "stcejer"
    ∷ codes "detcejer"
    ∷ codes "gnitcejer"
    ∷ []

abbrev pub rules : List Bytes
rules = codes "elur" ∷ codes "selur" ∷ codes "delur" ∷ []

abbrev pub is_blank : ℕ → Bool
is_blank c = c == b' ' || c == b'\t'

unfoldable pub is_ruled_out : Bytes → Bool
unfolding skip_while take_while lower is_in
is_ruled_out r =
    let word = take_while is_alpha (skip_while is_blank r) in
    ltb 0 (length word) && ltb (length word) 8 && is_in (lower word) rules

abbrev pub is_word_byte : ℕ → Bool
is_word_byte c = is_alpha c || c == b'\''

unfoldable pub word_negates : Option Bytes → Bool
unfolding is_ruled_out starts_with
word_negates none = false
word_negates (some r) =
    let word = lower (take_while is_word_byte r) in
    if length word == 0 || leb 16 (length word)
    then false
    else starts_with (codes "t'n") word
      || is_in word cues
      || (bytes_eq word (codes "tuo") && is_ruled_out (drop (length word) r))

-- `mc_letter_is_negated`, by the bytes from the marker to the letter
unfoldable pub mc_letter_is_negated : Bytes → Bool
unfolding back_gap word_negates
mc_letter_is_negated front = word_negates (back_gap front)

abbrev pub to_upper : ℕ → ℕ
to_upper c = if leb b'a' c && leb c b'z' then c - 32 else c

abbrev pub is_lower : ℕ → Bool
is_lower c = leb b'a' c && leb c b'z'

-- the letter begins a word of prose
abbrev pub is_prose : Bytes → Bool
is_prose s =
    head_or 0 s == b'\'' || (is_blank (head_or 0 s) && is_lower (head_or 0 (skip_while is_blank s)))

-- a choice of `n`, between the bytes
abbrev pub is_choice : ℕ → ℕ → ℕ → ℕ → Bool
is_choice n before c after =
    leb b'A' (to_upper c) && ltb (to_upper c) (b'A' + n) && is_letter_boundary before after

-- the loop behind the marker, over `k` bytes
unfoldable pub letter_from : ℕ → ℕ → Bytes → Bytes → Option ℕ
unfolding mc_letter_is_negated skip_while
letter_from n zero front s = none
letter_from n (suc k) front [] = none
letter_from n (suc k) front (c ∷ s) =
    let rest = letter_from n k (c ∷ front) s in
    if is_choice n (head_or b' ' front) c (head_or 0 s)
      && not (is_prose s)
      && not (mc_letter_is_negated front)
    then some (to_upper c)
    else rest

-- the loop from the end, as the last letter from the beginning
unfoldable pub last_letter : ℕ → ℕ → ℕ → Bytes → ℕ
last_letter n before last [] = last
last_letter n before last (c ∷ s) =
    last_letter n c (if is_choice n before c (head_or 0 s) then to_upper c else last) s

abbrev pub letter_behind : ℕ → Option Bytes → Option ℕ
letter_behind n none = none
letter_behind n (some a) = letter_from n 96 [] a

abbrev pub letter_or : ℕ → Bytes → Option ℕ → ℕ
letter_or n visible none = last_letter n b' ' b'?' visible
letter_or n visible (some c) = c

-- `strstr`, behind the place
unfoldable pub find_behind : Bytes → Bytes → Option Bytes
unfolding starts_with
find_behind p [] = none
find_behind p (c ∷ s) =
    let rest = find_behind p s in
    if starts_with p (c ∷ s) then some (drop (length p) (c ∷ s)) else rest

abbrev or_else : Bytes → Option Bytes → Bytes
or_else s none = s
or_else s (some t) = t

abbrev pub visible_of : Bytes → Bytes
visible_of generated = or_else generated (find_behind (codes "</think>") generated)

-- `find_answer_letter`
unfoldable pub find_answer_letter : Bytes → ℕ → ℕ
unfolding find_last_answer_marker letter_from last_letter find_behind
find_answer_letter generated n =
    let visible = visible_of generated in
    if n == 0 then b'?' else letter_or n visible (letter_behind n (find_last_answer_marker visible))
