-- ===== src/Ssd/Sizes.antt =====
-- Sizes on the command line, budgets, and how the cache shrinks.
use preon_star.Base.{
  Bool, Bytes, Option, [], ap, arith, false, if◌then◌else◌, length, length-append, ltb, lt→ltb,
  none, refl, some, take-length_append, true, ℕ, ◌&&◌, ◌*◌, ◌++◌, ◌+◌, ◌-◌, ◌/◌, ◌<◌, ◌==◌, ◌^◌,
  ◌||◌, ◌∷◌, ◌≡◌, ◌≢◌, ◌≤◌,
}
use preon_star.Ssd.{
  all_digits, as_bytes, cache_experts_for_byte_budget, decimal, ends_gb, expert_number, experts,
  gib_number, has_suffix, number_part, parse_gib_arg, parse_streaming_cache_experts_arg,
  shrink_cache_experts, u32_max,
}

-- Shrinking takes a tenth, rounded up, as long as `experts + 9` does not wrap; so it ends at 0.
pub shrink_cache_experts-lt :
    (n : ℕ)
    → 0 < n
    → n + 9 < 2 ^ 32
    → (shrink_cache_experts n + (n + 9) / 10 ≡ n) × (shrink_cache_experts n < n)
unfolding shrink_cache_experts
shrink_cache_experts-lt n h lt = ground arith

div-mul-le : (c e : ℕ) → e ≢ 0 → c / e * e ≤ c
div-mul-le c e h = grind arith

few : (c e : ℕ) → e ≢ 0 → c < (c / e + 1) * e
few c e h = grind arith

-- The budget's number of experts is the largest that fits, if an expert has a size and that number
-- fits into 32 bits.
pub cache_experts_for_byte_budget_largest :
    (budget e : ℕ)
    → e ≢ 0
    → budget / e ≤ u32_max
    → (cache_experts_for_byte_budget budget e * e ≤ budget)
      × (budget < (cache_experts_for_byte_budget budget e + 1) * e)
unfolding cache_experts_for_byte_budget
cache_experts_for_byte_budget_largest budget e ne le =
    ground (arith, few budget e ne, div-mul-le budget e ne)

abbrev pub is_g : ℕ → Bool
is_g c = c == b'g' || c == b'G'

abbrev pub is_b : ℕ → Bool
is_b c = c == b'b' || c == b'B'

ends_gb-digits : (d : Bytes) → all_digits d ≡ true → ends_gb d ≡ false
unfolding ends_gb all_digits
ends_gb-digits [] h = refl
ends_gb-digits (a ∷ []) h = refl
ends_gb-digits (a ∷ b ∷ []) h = ground arith
ends_gb-digits (a ∷ b ∷ c ∷ d) h = ends_gb-digits (b ∷ c ∷ d) (ground arith)

ends_gb-suffix :
    (d : Bytes) (g b : ℕ) → is_g g ≡ true → is_b b ≡ true → ends_gb (d ++ g ∷ b ∷ []) ≡ true
unfolding ends_gb
ends_gb-suffix [] g b hg hb = ground arith
ends_gb-suffix (x ∷ []) g b hg hb = ground arith
ends_gb-suffix (x ∷ y ∷ []) g b hg hb = ground arith
ends_gb-suffix (x ∷ y ∷ z ∷ d) g b hg hb = ends_gb-suffix (y ∷ z ∷ d) g b hg hb

-- the bytes that a number of gibibytes stands for
abbrev pub gib_bytes : ℕ → ℕ → Option ℕ
gib_bytes digits v = if ltb digits 32 && ltb 0 v && ltb v (2 ^ 34) then some (v * 2 ^ 30) else none

gib_number-digits :
    (d : Bytes) → d ≢ [] → all_digits d ≡ true → gib_number d ≡ gib_bytes (length d) (decimal 0 d)
unfolding gib_number
gib_number-digits [] ne h = absurd (ne refl)
gib_number-digits (c ∷ d) ne h = rw h (ground arith)

length-pos : (d : Bytes) → d ≢ [] → 0 < length d
length-pos [] ne = absurd (ne refl)
length-pos (c ∷ d) ne = omega arith

number_part-digits : (d : Bytes) → all_digits d ≡ true → number_part d ≡ d
number_part-digits d h = ground (arith, ends_gb-digits d h)

number_part-suffix :
    (d : Bytes) (g b : ℕ)
    → d ≢ []
    → is_g g ≡ true
    → is_b b ≡ true
    → (has_suffix (d ++ g ∷ b ∷ []) ≡ true) × (number_part (d ++ g ∷ b ∷ []) ≡ d)
number_part-suffix d g b ne hg hb =
    let ends = ends_gb-suffix d g b hg hb in
    let size : length (d ++ g ∷ b ∷ []) ≡ length d + 2 = length-append d (g ∷ b ∷ []) in
    let long : ltb 2 (length (d ++ g ∷ b ∷ [])) ≡ true =
      lt→ltb _ _ (omega (arith, size, length-pos d ne)) in
    let cut : length (d ++ g ∷ b ∷ []) - 2 ≡ length d = omega (arith, size) in
    (rw (long, ends), rw (long, ends, cut) (take-length_append d (g ∷ b ∷ [])))

-- A size of digits means gibibytes, with `gb` behind it in either case or without: it is refused
-- if it is 0, has 32 digits or more, or does not fit into 64 bits; else the result is exact.
pub parse_gib_arg-digits :
    (d : Bytes) (g b : ℕ)
    → d ≢ []
    → all_digits d ≡ true
    → is_g g ≡ true
    → is_b b ≡ true
    → (parse_gib_arg d ≡ gib_bytes (length d) (decimal 0 d))
      × (parse_gib_arg (d ++ g ∷ b ∷ []) ≡ gib_bytes (length d) (decimal 0 d))
unfolding parse_gib_arg
parse_gib_arg-digits d g b ne h hg hb =
    let value = gib_number-digits d ne h in
    let plain : (length d == 0) ≡ false = ground (arith, length-pos d ne) in
    let longer : (length (d ++ g ∷ b ∷ []) == 0) ≡ false =
      ground (arith, length-append d (g ∷ b ∷ [])) in
    (
      rw (plain, number_part-digits d h) value,
      rw (longer, (number_part-suffix d g b ne hg hb).1) value,
    )

-- Without the suffix the cache argument is a number of experts that fits into 32 bits and is not 0;
-- with it, a size in gibibytes.
pub parse_streaming_cache_experts_arg-digits :
    (d : Bytes) (g b : ℕ)
    → d ≢ []
    → all_digits d ≡ true
    → is_g g ≡ true
    → is_b b ≡ true
    → (parse_streaming_cache_experts_arg d ≡ (
        if ltb 0 (decimal 0 d) && ltb (decimal 0 d) (2 ^ 32)
        then some (experts (decimal 0 d))
        else none))
      × (parse_streaming_cache_experts_arg (d ++ g ∷ b ∷ [])
          ≡ as_bytes (gib_bytes (length d) (decimal 0 d)))
unfolding parse_streaming_cache_experts_arg expert_number
parse_streaming_cache_experts_arg-digits d g b ne h hg hb =
    let plain : (length d == 0) ≡ false = ground (arith, length-pos d ne) in
    let longer : (length (d ++ g ∷ b ∷ []) == 0) ≡ false =
      ground (arith, length-append d (g ∷ b ∷ [])) in
    let no_suffix : has_suffix d ≡ false = ground (arith, ends_gb-digits d h) in
    (
      rw (plain, no_suffix, h) (ground arith),
      rw (longer, (number_part-suffix d g b ne hg hb).0)
          (ap as_bytes (parse_gib_arg-digits d g b ne h hg hb).1),
    )
