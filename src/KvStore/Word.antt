-- ===== src/KvStore/Word.antt =====
-- Little-endian words: `p36_kvstore_le_put32`, `kv_le_put64` and the readers. A byte that is shifted
-- in lands on zero bits, so `|` is a sum.
use preon_star.Base.{
  Bytes, [], arith, suc, take, zero, ℕ, ◌%◌, ◌*◌, ◌++◌, ◌+◌, ◌/◌, ◌<◌, ◌^◌, ◌∷◌, ◌≡◌,
}

-- the low `n` bytes of `v`
abbrev pub le_put : ℕ → ℕ → Bytes
le_put zero v = []
le_put (suc n) v = v % 256 ∷ le_put n (v / 256)

abbrev pub le_get : Bytes → ℕ
le_get [] = 0
le_get (b ∷ s) = b + 256 * le_get s

unfoldable pub le_put32 : ℕ → Bytes
le_put32 = le_put 4

unfoldable pub le_put64 : ℕ → Bytes
le_put64 = le_put 8

-- the word that begins at `p`
unfoldable pub le_get32 : Bytes → ℕ
le_get32 p = le_get (take 4 p)

unfoldable pub le_get64 : Bytes → ℕ
le_get64 p = le_get (take 8 p)

pub le_get-le_put_4 : (v : ℕ) → v < 2 ^ 32 → le_get (le_put 4 v) ≡ v
le_get-le_put_4 v h = omega arith

pub le_get-le_put_8 : (v : ℕ) → v < 2 ^ 64 → le_get (le_put 8 v) ≡ v
le_get-le_put_8 v h = omega arith

-- A word comes back from the bytes that it is written as, whatever bytes stand behind.
pub le_get-le_put :
    (v w : ℕ) (r : Bytes)
    → v < 2 ^ 32
    → w < 2 ^ 64
    → (le_get32 (le_put32 v ++ r) ≡ v) × (le_get64 (le_put64 w ++ r) ≡ w)
unfolding le_get32 le_put32 le_get64 le_put64
le_get-le_put v w r hv hw = (le_get-le_put_4 v hv, le_get-le_put_8 w hw)
