-- ===== src/Eval/Decimal.antt =====
-- Numbers in base 10 for the runs: a `strtol` with its limit, and how a number is written.
use preon_star.Base.{
  Bool, Bool-cases, Bytes, [], ap, append_assoc, arith, false, if◌then◌else◌, inl, inr, ltb, refl,
  suc, true, zero, ℕ, ◌%◌, ◌*◌, ◌++◌, ◌+◌, ◌-◌, ◌/◌, ◌<◌, ◌^◌, ◌∙◌, ◌∷◌, ◌≡◌, ◌≤◌,
}
use preon_star.Eval.{is_digit, pos, ℤ}
use preon_star.Eval.Ranges.{NotDigit, ReadsLongs}

-- `strtol` in base 10 at a digit: the digits' value, or the largest `long` where that is larger
abbrev read_from : ℕ → Bytes → ℕ × Bytes
read_from n [] = (n, [])
read_from n (c ∷ s) =
    let rest = read_from (n * 10 + (c - b'0')) s in if is_digit c then rest else (n, c ∷ s)

abbrev saturated : ℕ × Bytes → ℤ × Bytes
saturated (n, s) = (pos (if ltb n (2 ^ 63) then n else 2 ^ 63 - 1), s)

abbrev pub strtol : Bytes → ℤ × Bytes
strtol s = saturated (read_from 0 s)

-- a number in base 10, of `f` digits more at most
abbrev show_from : ℕ → ℕ → Bytes
show_from zero n = (b'0' + n % 10) ∷ []
show_from (suc f) n =
    let front = show_from f (n / 10) in
    let last = (b'0' + n % 10) ∷ [] in if ltb n 10 then last else front ++ last

abbrev pub show : ℕ → Bytes
show n = show_from n n

is_digit-last : (d : ℕ) → d < 10 → is_digit (b'0' + d) ≡ true
is_digit-last d l = ground arith

read_from-digit :
    (m n : ℕ) (r : Bytes) → m ≡ n / 10 → read_from m ((b'0' + n % 10) ∷ r) ≡ read_from n r
read_from-digit m n r h =
    let digit : is_digit (b'0' + n % 10) ≡ true = is_digit-last (n % 10) (omega arith) in
    let value : m * 10 + (b'0' + n % 10 - b'0') ≡ n = omega (arith, h) in
    rw digit (ap (λ (k : ℕ). read_from k r) value)

read_from-show_from :
    (f n : ℕ) (r : Bytes) → n ≤ f → read_from 0 (show_from f n ++ r) ≡ read_from n r
read_from-show_from zero n r h = read_from-digit 0 n r (omega (arith, h))
read_from-show_from (suc f) n r h = elim (Bool-cases (ltb n 10)) [
  | inl e ↦ rw e (read_from-digit 0 n r (small n e))
  | inr e ↦ rw e (
      ap (read_from 0) (append_assoc (show_from f (n / 10)) ((b'0' + n % 10) ∷ []) r)
      ∙ read_from-show_from f (n / 10) ((b'0' + n % 10) ∷ r) (large n f h e)
      ∙ read_from-digit (n / 10) n r refl)
]
  where
    small : (n : ℕ) → ltb n 10 ≡ true → 0 ≡ n / 10
    small n e = ground arith

    large : (n f : ℕ) → n ≤ suc f → ltb n 10 ≡ false → n / 10 ≤ f
    large n f l e = ground arith

read_from-end : (n : ℕ) (r : Bytes) → NotDigit r → read_from n r ≡ (n, r)
read_from-end n [] h = refl
read_from-end n (c ∷ r) h = rw h refl

show_from-starts : (f n : ℕ) → (c : ℕ) × (t : Bytes) × (show_from f n ≡ c ∷ t) × (is_digit c ≡ true)
show_from-starts zero n = (b'0' + n % 10, [], refl, is_digit-last (n % 10) (omega arith))
show_from-starts (suc f) n = elim (Bool-cases (ltb n 10)) [
  | inl e ↦ (b'0' + n % 10, [], rw e refl, is_digit-last (n % 10) (omega arith))
  | inr e ↦
      let (c, t, q, d) = show_from-starts f (n / 10) in
      (c, t ++ (b'0' + n % 10) ∷ [], rw (e, q) refl, d)
]

pub strtol-ReadsLongs : ReadsLongs strtol show
strtol-ReadsLongs = record {
  reads = λ n r l h.
      ap saturated (read_from-show_from n n r (omega arith) ∙ read_from-end n r h)
      ∙ ap (λ (b : Bool). (pos (if b then n else 2 ^ 63 - 1), r)) (below n l);
  starts = λ n. show_from-starts n n;
}
  where
    below : (n : ℕ) → n < 2 ^ 63 → ltb n (2 ^ 63) ≡ true
    below n l = ground arith
