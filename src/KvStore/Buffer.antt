-- ===== src/KvStore/Buffer.antt =====
-- `kv_buf`: the buffer of bytes, with the NUL behind them. `realloc` succeeds; `none` is the end of the
-- process by `kv_die`, or a loop whose capacity wrapped to 0, which takes more than 2^63 bytes.
use native.Mathlib.Numerals.{unary_clauses}
use preon_star.Base.{
  Bool-cases, Bytes, Option, [], ap, arith, false, if◌then◌else◌, inl, inr, leb, leb→le, length,
  length-append, ltb, ltb-false→le, ltb→lt, none, refl, some, suc, true, zero, ℕ, ◌%◌, ◌*◌, ◌++◌,
  ◌+◌, ◌-◌, ◌<◌, ◌==◌, ◌^◌, ◌∙◌, ◌∷◌, ◌≡◌, ◌≤◌,
}

-- `kv_buf`; `ptr` holds `bytes`, and `len` is their number
pub record Buf : Type 0 where
  pub bytes : Bytes
  pub cap : ℕ

abbrev pub empty_buf : Buf
empty_buf = record { bytes = []; cap = 0 }

abbrev pub size_max : ℕ
size_max = 2 ^ 64 - 1

-- `while (cap < need) cap *= 2;` in 64 bits
unfoldable pub double_until : ℕ → ℕ → ℕ → Option ℕ
double_until zero need cap = none
double_until (suc f) need cap =
    let rest = double_until f need (cap * 2 % 2 ^ 64) in if ltb cap need then rest else some cap

-- the capacity that the loop starts from
abbrev pub first_cap : Buf → ℕ
first_cap b = if b.cap == 0 then 256 else b.cap * 2 % 2 ^ 64

abbrev pub with_cap : Buf → Option ℕ → Option Buf
with_cap b none = none
with_cap b (some cap) = some (record b { cap = cap })

-- `kv_buf_reserve`; 64 doublings reach every size that the loop can reach
unfoldable pub reserve : Buf → ℕ → Option Buf
unfolding double_until
reserve b add =
    let need = length b.bytes + add + 1 in
    if ltb (size_max - length b.bytes - 1) add
    then none
    else if leb need b.cap
    then some b
    else with_cap b (double_until 64 need (first_cap b))

abbrev pub with_bytes : Bytes → Option Buf → Option Buf
with_bytes s none = none
with_bytes s (some b) = some (record b { bytes = b.bytes ++ s })

-- `kv_buf_append`
unfoldable pub append : Buf → Bytes → Option Buf
unfolding reserve
append b s = with_bytes s (reserve b (length s))

-- `kv_buf_putc`
unfoldable pub putc : Buf → ℕ → Option Buf
unfolding append
putc b c = append b (c ∷ [])

-- `kv_buf_puts`
unfoldable pub puts : Buf → Bytes → Option Buf
unfolding append
puts b s = append b s

-- `kv_buf_take`: the bytes, and the empty buffer
unfoldable pub take_bytes : Buf → Bytes × Buf
take_bytes b = (b.bytes, empty_buf)

shuffle : (a b : ℕ) → a * (b * 2) ≡ a * 2 * b
shuffle a b = grind arith

double_until-some :
    (f need cap : ℕ)
    → 0 < cap
    → need ≤ 2 ^ 62
    → cap ≤ 2 ^ 63
    → need ≤ cap * 2 ^ f
    → (c : ℕ) × (double_until (suc f) need cap ≡ some c) × (need ≤ c) × (c ≤ 2 ^ 63)
unfolding double_until
double_until-some zero need cap pos small bound h =
    let e : ltb cap need ≡ false = ground (arith, h) in (cap, rw e refl, omega arith, bound)
double_until-some (suc f) need cap pos small bound h = elim (Bool-cases (ltb cap need)) [
  | inl e ↦
      let lt = ltb→lt cap need e in
      let no_wrap : cap * 2 % 2 ^ 64 ≡ cap * 2 = omega (arith, lt, small) in
      let power : 2 ^ suc f ≡ 2 ^ f * 2 = simp unary_clauses in
      let twice : cap * 2 ^ suc f ≡ cap * 2 * 2 ^ f = ap (◌*◌ cap) power ∙ shuffle cap (2 ^ f) in
      let (c, r, n, m) =
        double_until-some f need (cap * 2) (omega arith) small (omega (arith, lt, small))
          (rw (← twice) h) in
      (c, opened f need cap e ∙ ap (double_until (suc f) need) no_wrap ∙ r, n, m)
  | inr e ↦ (cap, rw e refl, ltb-false→le cap need e, bound)
]
  where
    opened :
        (f need cap : ℕ)
        → ltb cap need ≡ true
        → double_until (suc (suc f)) need cap ≡ double_until (suc f) need (cap * 2 % 2 ^ 64)
    opened f need cap e =
        ap (λ b. if b then double_until (suc f) need (cap * 2 % 2 ^ 64) else some cap) e

reserve-some :
    (b : Buf) (add : ℕ)
    → length b.bytes ≤ 2 ^ 61 - 1
    → add ≤ 2 ^ 61
    → b.cap ≤ 2 ^ 62
    → (cap : ℕ) × (reserve b add ≡ some (record b { cap = cap })) × (length b.bytes + add < cap)
reserve-some b add hb ha hc = elim (Bool-cases (leb need b.cap)) [
  | inl e ↦
      (b.cap, (unfold reserve in rw (no_overflow, e) refl), omega (arith, leb→le need b.cap e))
  | inr e ↦
      let (c, r, n, m) =
        double_until-some 63 need (first_cap b) (ground (arith, hc)) (omega arith)
          (ground (arith, hc)) (ground (arith, hb, ha, hc)) in
      (c, (unfold reserve in rw (no_overflow, e, r) refl), omega (arith, n))
]
  where
    need : ℕ
    need = length b.bytes + add + 1

    no_overflow : ltb (size_max - length b.bytes - 1) add ≡ false
    no_overflow = ground (arith, hb, ha)

-- A buffer of less than 2^61 bytes and a capacity of at most 2^62 takes at most 2^61 bytes more: they
-- stand behind the others, and with the NUL they are within the capacity.
pub append-some :
    (b : Buf) (s : Bytes)
    → length b.bytes ≤ 2 ^ 61 - 1
    → length s ≤ 2 ^ 61
    → b.cap ≤ 2 ^ 62
    → (d : Buf) × (append b s ≡ some d) × (d.bytes ≡ b.bytes ++ s) × (length d.bytes < d.cap)
append-some b s hb hs hc =
    let (cap, r, n) = reserve-some b (length s) hb hs hc in
    let appended : append b s ≡ some (record b { bytes = b.bytes ++ s; cap = cap }) =
      unfold append in rw r refl in
    (
      record b { bytes = b.bytes ++ s; cap = cap },
      appended,
      refl,
      omega (arith, n, length-append b.bytes s),
    )
