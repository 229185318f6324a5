-- ===== src/KvStore/Sha1.antt =====
-- The SHA-1 of p36_kvstore.c, over words of 32 bits. An array of words is a list.
pub mod Absorb
pub mod Padding
use mathlib.Core.List.{reverse}
use Prim.Native.Nat.{bit_and, bit_or, bit_xor}
use preon_star.Base.{
  Bytes, List, [], drop, get_or, if◌then◌else◌, length, ltb, suc, take, zero, ℕ, ◌%◌, ◌*◌, ◌++◌,
  ◌+◌, ◌-◌, ◌/◌, ◌==◌, ◌^◌, ◌∷◌,
}
use preon_star.KvStore.Names.{hex}

abbrev pub word : ℕ → ℕ
word v = v % 2 ^ 32

unfoldable pub rol32 : ℕ → ℕ → ℕ
rol32 v n = bit_or (word (v * 2 ^ n)) (v / 2 ^ (32 - n))

abbrev pub not32 : ℕ → ℕ
not32 v = 2 ^ 32 - 1 - v

-- `w[0 .. 16)`: words of four bytes, the high byte first
unfoldable pub be_words : Bytes → List ℕ
be_words (a ∷ b ∷ c ∷ d ∷ s) = (a * 2 ^ 24 + b * 2 ^ 16 + c * 2 ^ 8 + d) ∷ be_words s
be_words _ = []

-- `w[16 .. 80)`: `n` more words in front of those that stand, the last one first
unfoldable pub extend : ℕ → List ℕ → List ℕ
unfolding rol32
extend zero w = w
extend (suc n) w =
    let at = λ (k : ℕ). get_or w k 0 in
    extend n (rol32 (bit_xor (bit_xor (bit_xor (at 2) (at 7)) (at 13)) (at 15)) 1 ∷ w)

-- the chaining value, and the five variables of the rounds
pub record Chain : Type 0 where
  pub h0 : ℕ
  pub h1 : ℕ
  pub h2 : ℕ
  pub h3 : ℕ
  pub h4 : ℕ

-- `f` of round `i`
abbrev pub mix : ℕ → ℕ → ℕ → ℕ → ℕ
mix i b c d =
    if ltb i 20
    then bit_or (bit_and b c) (bit_and (not32 b) d)
    else if ltb i 40
    then bit_xor (bit_xor b c) d
    else if ltb i 60
    then bit_or (bit_or (bit_and b c) (bit_and b d)) (bit_and c d)
    else bit_xor (bit_xor b c) d

-- `k` of round `i`
abbrev pub round_constant : ℕ → ℕ
round_constant i =
    if ltb i 20
    then 0x5a827999
    else if ltb i 40
    then 0x6ed9eba1
    else if ltb i 60
    then 0x8f1bbcdc
    else 0xca62c1d6

unfoldable pub rounds : ℕ → List ℕ → Chain → Chain
unfolding rol32
rounds i [] v = v
rounds i (w ∷ ws) v =
    let t = word (rol32 v.h0 5 + mix i v.h1 v.h2 v.h3 + v.h4 + round_constant i + w) in
    rounds (i + 1) ws (record { h0 = t; h1 = v.h0; h2 = rol32 v.h1 30; h3 = v.h2; h4 = v.h3 })

-- `sha1_transform`
unfoldable pub transform : Chain → Bytes → Chain
unfolding be_words extend rounds
transform h block =
    let v = rounds 0 (reverse (extend 64 (reverse (be_words block)))) h in
    record {
      h0 = word (h.h0 + v.h0);
      h1 = word (h.h1 + v.h1);
      h2 = word (h.h2 + v.h2);
      h3 = word (h.h3 + v.h3);
      h4 = word (h.h4 + v.h4);
    }

-- `sha1_ctx`; `block` is its first `used` bytes
pub record Context : Type 0 where
  pub chain : Chain
  pub bytes : ℕ
  pub block : Bytes

abbrev pub used : Context → ℕ
used c = length c.block

-- `sha1_init`
abbrev pub init : Context
init = record {
  chain = record {
    h0 = 0x67452301;
    h1 = 0xefcdab89;
    h2 = 0x98badcfe;
    h3 = 0x10325476;
    h4 = 0xc3d2e1f0;
  };
  bytes = 0;
  block = [];
}

-- the loop of `sha1_update`: as many bytes as fit are copied, and a full block is transformed
unfoldable pub fill : ℕ → Context → Bytes → Context
unfolding transform
fill zero c p = c
fill (suc f) c [] = c
fill (suc f) c (x ∷ p) =
    let n = 64 - used c in
    let block = c.block ++ take n (x ∷ p) in
    let c' =
      if length block == 64
      then record c { chain = transform c.chain block; block = [] }
      else record c { block = block } in
    fill f c' (drop n (x ∷ p))

-- `sha1_update`; each round takes a byte at least
unfoldable pub update : Context → Bytes → Context
unfolding fill
update c p = fill (length p) (record c { bytes = (c.bytes + length p) % 2 ^ 64 }) p

-- `while (c->used != 56) sha1_update(c, &zero, 1);`
unfoldable pub pad : ℕ → Context → Context
unfolding update
pad zero c = c
pad (suc f) c = let rest = pad f (update c (0 ∷ [])) in if used c == 56 then c else rest

-- the `n` low bytes of `v`, the high byte first
unfoldable pub be_put : ℕ → ℕ → Bytes
be_put zero v = []
be_put (suc n) v = v / 256 ^ n % 256 ∷ be_put n v

-- `sha1_final`
unfoldable pub final : Context → Bytes
unfolding pad be_put
final c =
    let bits = c.bytes * 8 % 2 ^ 64 in
    let padded = pad 64 (update c (0x80 ∷ [])) in
    let h = (update padded (be_put 8 bits)).chain in
    be_put 4 h.h0 ++ (be_put 4 h.h1 ++ (be_put 4 h.h2 ++ (be_put 4 h.h3 ++ be_put 4 h.h4)))

unfoldable pub sha1 : Bytes → Bytes
unfolding final
sha1 s = final (update init s)

-- `p36_kvstore_sha1_bytes_hex`
unfoldable pub sha1_bytes_hex : Bytes → Bytes
unfolding sha1
sha1_bytes_hex s = hex (sha1 s)
