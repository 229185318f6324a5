-- ===== src/Web/Frame/Masking.antt =====
-- A mask that is applied twice gives the bytes back.
use native.Mathlib.Numerals.{unary_clauses}
use preon_star.Base.{
  All, Bytes, [], ap, ap₂, arith, length, refl, suc, zero, ℕ, ◌%◌, ◌*◌, ◌+◌, ◌/◌, ◌<◌, ◌^◌, ◌∙◌,
  ◌∷◌, ◌≡◌,
}
use preon_star.Web.Frame.{Mask, differ, masked, turned, xor_bits}

abbrev pub IsByte : ℕ → Type 0
IsByte x = x < 256

half : (d r : ℕ) → d < 2 → ((d + 2 * r) % 2 ≡ d) × ((d + 2 * r) / 2 ≡ r)
half d r h = (omega arith, omega arith)

differ-lt : (x y : ℕ) → differ x y < 2
differ-lt x y = ground arith

differ-differ : (x y : ℕ) → x < 2 → y < 2 → differ (differ x y) y ≡ x
differ-differ x y hx hy = ground arith

xor_bits-xor_bits : (n x y : ℕ) → x < 2 ^ n → xor_bits n (xor_bits n x y) y ≡ x
unfolding xor_bits
xor_bits-xor_bits zero x y h = omega arith
xor_bits-xor_bits (suc n) x y h =
    let d = differ (x % 2) (y % 2) in
    let r = xor_bits n (x / 2) (y / 2) in
    let (low, high) = half d r (differ-lt (x % 2) (y % 2)) in
    let power : 2 ^ suc n ≡ 2 ^ n * 2 = simp unary_clauses refl in
    let small : x / 2 < 2 ^ n = omega (arith, h, power) in
    let rest : xor_bits n (xor_bits n (x / 2) (y / 2)) (y / 2) ≡ x / 2 =
      xor_bits-xor_bits n (x / 2) (y / 2) small in
    let first = differ-differ (x % 2) (y % 2) (omega arith) (omega arith) in
    ap₂ (λ (a b : ℕ). differ a (y % 2) + 2 * xor_bits n b (y / 2)) low high
    ∙ ap₂ (λ (a b : ℕ). a + 2 * b) first rest
    ∙ omega arith

pub length-masked : (m : Mask) (s : Bytes) → length (masked m s) ≡ length s
unfolding masked
length-masked m [] = refl
length-masked m (x ∷ s) = ap suc (length-masked (turned m) s)

pub masked-masked : (m : Mask) (s : Bytes) → All IsByte s → masked m (masked m s) ≡ s
unfolding masked
masked-masked m [] h = refl
masked-masked m (x ∷ s) (b, h) =
    ap₂ ◌∷◌ (xor_bits-xor_bits 8 x m.m0 b) (masked-masked (turned m) s h)
