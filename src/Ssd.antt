-- ===== src/Ssd.antt =====
-- p36_ssd.c: sizes on the command line, the plan of the expert cache, and the locked block of
-- `--simulate-used-memory`. The pointers that the functions check are never NULL here; a result
-- that is written through a pointer is returned.
pub mod CachePlan
pub mod Sizes
pub mod Lock
mod Tests
use mathlib.Core.Bool.{cond}
use preon_star.Base.{
  Bool, Bytes, Option, [], false, if◌then◌else◌, leb, length, ltb, none, not, some, take, true, ℕ,
  ◌%◌, ◌&&◌, ◌*◌, ◌+◌, ◌-◌, ◌/◌, ◌==◌, ◌^◌, ◌||◌, ◌∷◌,
}

-- `UINT64_MAX`, `UINT32_MAX` and `P36_GIB`
abbrev pub u64_max : ℕ
u64_max = 2 ^ 64 - 1

abbrev pub u32_max : ℕ
u32_max = 2 ^ 32 - 1

abbrev pub gib : ℕ
gib = 1024 * 1024 * 1024

abbrev pub is_digit : ℕ → Bool
is_digit c = leb b'0' c && leb c b'9'

unfoldable pub all_digits : Bytes → Bool
all_digits [] = true
all_digits (c ∷ s) = is_digit c && all_digits s

-- the number that a string of digits spells behind `acc`
unfoldable pub decimal : ℕ → Bytes → ℕ
decimal acc [] = acc
decimal acc (c ∷ s) = decimal (acc * 10 + (c - b'0')) s

-- `strtoull` and `strtoul` (of 64 bits) on digits: `errno` is set past the largest value
unfoldable pub strtoull : Bytes → Option ℕ
strtoull s = if ltb u64_max (decimal 0 s) then none else some (decimal 0 s)

-- the last two bytes are `gb`, in either case
unfoldable pub ends_gb : Bytes → Bool
ends_gb (a ∷ b ∷ []) = (a == b'g' || a == b'G') && (b == b'b' || b == b'B')
ends_gb (a ∷ b ∷ c ∷ s) = ends_gb (b ∷ c ∷ s)
ends_gb _ = false

-- `len > 2 && …`
abbrev pub has_suffix : Bytes → Bool
has_suffix s = ltb 2 (length s) && ends_gb s

abbrev pub number_part : Bytes → Bytes
number_part s = if has_suffix s then take (length s - 2) s else s

-- `p36_parse_gib_arg` behind the removal of the suffix
unfoldable pub gib_number : Bytes → Option ℕ
unfolding strtoull
gib_number d =
    if length d == 0 || not (all_digits d) || leb 32 (length d) then none else elim (strtoull d) [
      | none ↦ none
      | some v ↦ if v == 0 || ltb (u64_max / gib) v then none else some (v * gib % 2 ^ 64)
    ]

unfoldable pub parse_gib_arg : Bytes → Option ℕ
parse_gib_arg s = if length s == 0 then none else gib_number (number_part s)

-- what `p36_parse_streaming_cache_experts_arg` writes: one of its two results
pub data CacheArg : Type 0 where
  experts : ℕ → CacheArg
  bytes : ℕ → CacheArg

abbrev pub as_bytes : Option ℕ → Option CacheArg
as_bytes none = none
as_bytes (some b) = some (bytes b)

unfoldable pub expert_number : Bytes → Option CacheArg
unfolding strtoull
expert_number s = if not (all_digits s) then none else elim (strtoull s) [
  | none ↦ none
  | some v ↦ if v == 0 || ltb u32_max v then none else some (experts v)
]

unfoldable pub parse_streaming_cache_experts_arg : Bytes → Option CacheArg
parse_streaming_cache_experts_arg s =
    if length s == 0
    then none
    else if has_suffix s
    then as_bytes (parse_gib_arg s)
    else expert_number s

unfoldable pub cache_experts_for_byte_budget : ℕ → ℕ → ℕ
cache_experts_for_byte_budget budget per_expert =
    let n = budget / per_expert in
    if budget == 0 || per_expert == 0 then 0 else if n == 0 || ltb u32_max n then 0 else n

-- `experts + 9u` is a `uint32_t`
unfoldable pub shrink_cache_experts : ℕ → ℕ
shrink_cache_experts n =
    let release = (n + 9) % 2 ^ 32 / 10 in
    if n == 0 then 0 else if ltb release n then n - release else 0

-- `p36_ssd_cache_plan`
pub record Plan : Type 0 where
  pub model_target_bytes : ℕ
  pub cache_bytes : ℕ
  pub effective_cache_bytes : ℕ
  pub cache_experts : ℕ

-- the target before and after the limit
unfoldable pub target_bytes : ℕ → ℕ → ℕ → ℕ
target_bytes recommended percent limit =
    let t =
      (recommended / 100 * percent % 2 ^ 64 + recommended % 100 * percent % 2 ^ 64 / 100)
      % 2 ^ 64 in
    if not (limit == 0) && ltb limit t then limit else t

-- the number of experts: at least one, then at most the model's, then at most `UINT32_MAX`
unfoldable pub planned_experts : ℕ → ℕ → ℕ → ℕ
planned_experts cache per_expert max_model =
    let n = cache / per_expert in
    let some_expert = if n == 0 then 1 else n in
    let in_model =
      if not (max_model == 0) && ltb max_model some_expert then max_model else some_expert in
    if ltb u32_max in_model then u32_max else in_model

-- `p36_ssd_auto_cache_plan`; `none` where it returns false
unfoldable pub auto_cache_plan : ℕ → ℕ → ℕ → ℕ → ℕ → ℕ → Option Plan
auto_cache_plan recommended percent limit non_routed per_expert max_model =
    let target = target_bytes recommended percent limit in
    let cache = if ltb non_routed target then target - non_routed else 0 in
    let n = planned_experts cache per_expert max_model in
    if recommended == 0 || per_expert == 0 || ltb percent 50 || ltb 95 percent
    then none
    else if n == 0
    then none
    else some (record {
      model_target_bytes = target;
      cache_bytes = cache;
      effective_cache_bytes = n * per_expert % 2 ^ 64;
      cache_experts = n;
    })
