-- ===== src/KvStore/Store.antt =====
-- The store's state and the policy of when to write a checkpoint. Token counts and the options are
-- `int`s that are not negative (the option parser admits no others) and whose sums fit an `int`; a
-- result -1 is `none`.
use preon_star.Base.{
  Bool, Bytes, List, Option, [], if◌then◌else◌, leb, ltb, none, not, some, ℕ, ◌%◌, ◌*◌, ◌+◌, ◌-◌,
  ◌/◌, ◌==◌, ◌||◌, ◌∷◌,
}
use preon_star.KvStore.Header.{Entry}

-- `p36_kvstore_options`
pub record Options : Type 0 where
  pub min_tokens : ℕ
  pub cold_max_tokens : ℕ
  pub continued_interval_tokens : ℕ
  pub boundary_trim_tokens : ℕ
  pub boundary_align_tokens : ℕ

-- `p36_kvstore_default_options`
abbrev pub default_options : Options
default_options = record {
  min_tokens = 512;
  cold_max_tokens = 30000;
  continued_interval_tokens = 10000;
  boundary_trim_tokens = 32;
  boundary_align_tokens = 2048;
}

-- `p36_kvstore`, without the log
pub record Store : Type 0 where
  pub enabled : Bool
  pub dir : Bytes
  pub budget_bytes : ℕ
  pub reject_different_quant : Bool
  pub opt : Options
  pub continued_last_store_tokens : ℕ
  pub entries : List Entry

-- `p36_kvstore_store_len`
unfoldable pub store_len : Options → ℕ → ℕ
store_len o tokens =
    let cut = tokens - o.boundary_trim_tokens in
    let align = o.boundary_align_tokens in
    let stable = if ltb 0 align then cut - cut % align else cut in
    if ltb (o.min_tokens + o.boundary_trim_tokens) tokens
    then (if leb o.min_tokens stable then stable else tokens)
    else tokens

-- the loop of `p36_kvstore_chat_anchor_pos` at index `i`; the last argument is `last_user`
unfoldable pub last_user : ℕ → ℕ → List ℕ → ℕ → Option ℕ → Option ℕ
last_user user assistant [] i last = last
last_user user assistant (t ∷ ts) i last =
    let rest = last_user user assistant ts (i + 1) (if t == user then some i else last) in
    if t == assistant then last else rest

-- `p36_kvstore_chat_anchor_pos`, for markers that the model has
unfoldable pub chat_anchor_pos : Options → List ℕ → ℕ → ℕ → Option ℕ
chat_anchor_pos o prompt user assistant = elim (last_user user assistant prompt 0 none) [
  | none ↦ none
  | some p ↦ if leb o.min_tokens p then some p else none
]

-- `kv_cache_continued_step`
unfoldable pub continued_step : Store → ℕ
continued_step kc =
    let align = kc.opt.boundary_align_tokens in
    let step = kc.opt.continued_interval_tokens in
    let up = (step + align - 1) / align * align in
    if not kc.enabled || step == 0
    then 0
    else if ltb 0 align
    then (if up == 0 then align else up)
    else step

-- `p36_kvstore_continued_store_target`
unfoldable pub continued_store_target : Store → ℕ → ℕ
continued_store_target kc live =
    let step = continued_step kc in
    if step == 0
      || ltb live kc.opt.min_tokens
      || not (live % step == 0)
      || leb live kc.continued_last_store_tokens
    then 0
    else live

-- `p36_kvstore_note_store`
unfoldable pub note_store : Store → ℕ → Store
note_store kc tokens =
    if ltb kc.continued_last_store_tokens tokens
    then record kc { continued_last_store_tokens = tokens }
    else kc

-- `p36_kvstore_suppress_continued_store`
unfoldable pub suppress_continued_store : Store → ℕ → Option ℕ × Store
unfolding continued_store_target note_store
suppress_continued_store kc tokens =
    if not (continued_store_target kc tokens == tokens)
    then (none, kc)
    else (some kc.continued_last_store_tokens, note_store kc tokens)

-- `p36_kvstore_restore_suppressed_continued`
unfoldable pub restore_suppressed_continued : Store → Option ℕ → ℕ → Store
restore_suppressed_continued kc none suppressed = kc
restore_suppressed_continued kc (some old) suppressed =
    if kc.continued_last_store_tokens == suppressed
    then record kc { continued_last_store_tokens = old }
    else kc
