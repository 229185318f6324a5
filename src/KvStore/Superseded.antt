-- ===== src/KvStore/Superseded.antt =====
-- The test of an entry that an incoming checkpoint supersedes, and the store of a continued
-- checkpoint. The write of a checkpoint is a parameter: whether it succeeds, and the store afterwards.
use mathlib.Core.Bool.{not}
use preon_star.KvStore.Reason
use preon_star.Base.{
  ==_iff, Bool, Bytes, Option, arith, bytes_eq, bytes_eq_sound, false, if◌then◌else◌, leb, leb→le,
  length, ltb, ltb→lt, none, some, take, true, ℕ, ◌&&◌, ◌<◌, ◌==◌, ◌||◌, ◌≡◌, ◌≤◌,
}
use preon_star.KvStore.Header.{Entry}
use preon_star.KvStore.Sha1.{sha1_bytes_hex}
use preon_star.KvStore.Store.{Store, continued_store_target, note_store}

-- `p36_kvstore_eviction_context`
pub record EvictionContext : Type 0 where
  pub text : Bytes
  pub model_id : ℕ
  pub quant_bits : ℕ
  pub ctx_size : ℕ
  pub reject_different_quant : Bool

-- `kv_cache_incoming_supersedes_continued`; `none` is a context without a text
unfoldable pub supersedes_continued : Entry → Option EvictionContext → Bool
supersedes_continued e none = false
supersedes_continued e (some incoming) =
    e.reason == Reason.continued
    && not (e.text_bytes == 0)
    && ltb e.text_bytes (length incoming.text)
    && e.model_id == incoming.model_id
    && (not incoming.reject_different_quant || e.quant_bits == incoming.quant_bits)
    && leb incoming.ctx_size e.ctx_size
    && bytes_eq (sha1_bytes_hex (take e.text_bytes incoming.text)) e.sha

-- `p36_kvstore_maybe_store_continued`, for a session with `live` tokens or none
unfoldable pub maybe_store_continued : (ℕ → Store → Bool × Store) → Store → Option ℕ → Bool × Store
unfolding continued_store_target note_store
maybe_store_continued write kc none = (false, kc)
maybe_store_continued write kc (some live) =
    let target = continued_store_target kc live in
    let (ok, kc') = write target kc in
    if target == 0 then (false, kc) else if ok then (true, note_store kc' target) else (false, kc')

all_true :
    (a b c d e f g : Bool)
    → (a && b && c && d && e && f && g) ≡ true
    → (a ≡ true) × (b ≡ true) × (c ≡ true) × (d ≡ true) × (f ≡ true) × (g ≡ true)
all_true a b c d e f g h = ground arith

-- An entry that is superseded is a continued checkpoint of a proper beginning of the incoming text,
-- which is not empty, for the same model and a context no smaller.
supersedes_continued-true :
    (e : Entry) (incoming : EvictionContext)
    → supersedes_continued e (some incoming) ≡ true
    → (e.reason ≡ Reason.continued)
      × (0 < e.text_bytes)
      × (e.text_bytes < length incoming.text)
      × (e.model_id ≡ incoming.model_id)
      × (incoming.ctx_size ≤ e.ctx_size)
      × (sha1_bytes_hex (take e.text_bytes incoming.text) ≡ e.sha)
supersedes_continued-true e incoming h =
    let hash = bytes_eq (sha1_bytes_hex (take e.text_bytes incoming.text)) e.sha in
    let same_quant = not incoming.reject_different_quant || e.quant_bits == incoming.quant_bits in
    let (r, t, l, m, c, g) =
      all_true (e.reason == Reason.continued) (not (e.text_bytes == 0))
        (ltb e.text_bytes (length incoming.text)) (e.model_id == incoming.model_id) same_quant
        (leb incoming.ctx_size e.ctx_size) hash (unfold supersedes_continued in h) in
    (
      (==_iff e.reason Reason.continued).0 r,
      not_zero e.text_bytes t,
      ltb→lt e.text_bytes (length incoming.text) l,
      (==_iff e.model_id incoming.model_id).0 m,
      leb→le incoming.ctx_size e.ctx_size c,
      bytes_eq_sound (sha1_bytes_hex (take e.text_bytes incoming.text)) e.sha g,
    )
  where
    not_zero : (n : ℕ) → not (n == 0) ≡ true → 0 < n
    not_zero n h = ground arith
