-- ===== src/KvStore/Find/Longest.antt =====
-- The search finds the longest prefix that the store has.
use preon_star.Base.{
  All, Bool, List, Option, arith, bytes_eq_refl, bytes_eq_sound, inl, inr, leb, length, ltb, none,
  not, refl, some, take, true, false, ℕ, ◌%◌, ◌&&◌, ◌<◌, ◌==◌, ◌^◌, ◌||◌, ◌≡◌, ◌≤◌, ◌⊎◌,
}
use preon_star.KvStore.Header.{Entry}
use preon_star.KvStore.Find.{Query, beats, eligible, find_from, find_text_prefix, names_prefix}
use preon_star.KvStore.Find.Folding.{IsIn, candidate, find_from-lem, here, result, there}
use preon_star.KvStore.Sha1.{sha1_bytes_hex}
use preon_star.KvStore.Store.{Store}
use preon_star.KvStore.Files.{DirEntry, refresh}

-- the checkpoint may be loaded for the query
pub record MayLoad (kc : Store) (q : Query) (e : Entry) : Type 0 where
  pub not_longer : e.text_bytes ≤ length q.prompt
  pub is_int : e.tokens < 2 ^ 31
  pub enough : kc.opt.min_tokens ≤ e.tokens
  pub same_model : e.model_id ≡ q.model_id % 256
  pub smaller_ctx : e.ctx_size ≤ q.ctx_size
  pub same_quant : kc.reject_different_quant ≡ true → e.quant_bits ≡ q.quant_bits % 256
  pub named : sha1_bytes_hex (take e.text_bytes q.prompt) ≡ e.sha

-- the one stands for fewer bytes, or for as many with no more tokens
abbrev pub AtMost : Entry → Entry → Type 0
AtMost d e = (d.text_bytes < e.text_bytes) ⊎ ((d.text_bytes ≡ e.text_bytes) × (d.tokens ≤ e.tokens))

-- the one that is loaded: it may be, and the others that may be are at most as long
pub record IsTop (kc : Store) (q : Query) (e : Entry) : Type 0 where
  pub may_load : MayLoad kc q e
  pub is_in : IsIn e kc.entries
  pub longest : (d : Entry) → IsIn d kc.entries → MayLoad kc q d → AtMost d e

All-at : (P : Entry → Type 0) {e : Entry} {es : List Entry} → IsIn e es → All P es → P e
All-at P (here es) h = h.0
All-at P (there d es i) h = All-at P i h.1

guards :
    (text prompt tokens least model wanted ctx most quant bits : ℕ) (reject : Bool)
    → (leb text prompt
        && ltb tokens (2 ^ 31)
        && leb least tokens
        && model == wanted
        && leb ctx most
        && (not reject || quant == bits))
      ≡ true
    → (text ≤ prompt)
      × (tokens < 2 ^ 31)
      × (least ≤ tokens)
      × (model ≡ wanted)
      × (ctx ≤ most)
      × (reject ≡ true → quant ≡ bits)
guards text prompt tokens least model wanted ctx most quant bits reject h = ground arith

passes :
    (text prompt tokens least model wanted ctx most quant bits : ℕ) (reject : Bool)
    → text ≤ prompt
    → tokens < 2 ^ 31
    → least ≤ tokens
    → model ≡ wanted
    → ctx ≤ most
    → (reject ≡ true → quant ≡ bits)
    → (leb text prompt
        && ltb tokens (2 ^ 31)
        && leb least tokens
        && model == wanted
        && leb ctx most
        && (not reject || quant == bits))
      ≡ true
passes text prompt tokens least model wanted ctx most quant bits reject a b c d e f = ground arith

both : (a b : Bool) → (a && b) ≡ true → (a ≡ true) × (b ≡ true)
both a b h = ground arith

candidate-MayLoad : (kc : Store) (q : Query) (e : Entry) → candidate kc q e ≡ true → MayLoad kc q e
candidate-MayLoad kc q e h =
    let (fits, hash) = both (eligible kc q e) (names_prefix q e) (unfold candidate in h) in
    let (a, b, c, d, f, g) =
      guards e.text_bytes (length q.prompt) e.tokens kc.opt.min_tokens e.model_id (q.model_id % 256)
        e.ctx_size q.ctx_size e.quant_bits (q.quant_bits % 256) kc.reject_different_quant
        (unfold eligible in fits) in
    record {
      not_longer = a;
      is_int = b;
      enough = c;
      same_model = d;
      smaller_ctx = f;
      same_quant = g;
      named =
          bytes_eq_sound (sha1_bytes_hex (take e.text_bytes q.prompt)) e.sha
            (unfold names_prefix in hash);
    }

MayLoad-candidate : (kc : Store) (q : Query) (e : Entry) → MayLoad kc q e → candidate kc q e ≡ true
MayLoad-candidate kc q e m =
    let fits : eligible kc q e ≡ true =
      unfold eligible in
      passes e.text_bytes (length q.prompt) e.tokens kc.opt.min_tokens e.model_id (q.model_id % 256)
        e.ctx_size q.ctx_size e.quant_bits (q.quant_bits % 256) kc.reject_different_quant
        m.not_longer m.is_int m.enough m.same_model m.smaller_ctx m.same_quant in
    let hash : names_prefix q e ≡ true =
      unfold names_prefix in rw (m.named) (bytes_eq_refl e.sha) in
    unfold candidate in rw (fits, hash) refl

beats-AtMost : (d e : Entry) → beats d (some e) ≡ false → AtMost d e
unfolding beats
beats-AtMost d e h = ground arith

-- The search finds no checkpoint exactly where none of the store's may be loaded for the query: its
-- text is no longer than the prompt and has the hash of the prompt's first bytes as its name, the
-- model is the same, the context fits, the tokens are enough and below 2^31, and the quantisation
-- is the same where that is asked for. Otherwise it finds one of the store's that may be loaded,
-- and no other that may be stands for more of the prompt's bytes, or for as many with more tokens.
pub find_text_prefix-IsTop :
    (kc : Store) (listing : Option (List DirEntry)) (q : Query)
    → let r = find_text_prefix kc listing q in
      ((r.1 ≡ none) × ((e : Entry) → IsIn e r.0.entries → MayLoad r.0 q e → ⊥))
      ⊎ ((e : Entry) × (r.1 ≡ some e) × IsTop r.0 q e)
unfolding find_text_prefix
find_text_prefix-IsTop kc listing q =
    let fresh = refresh kc listing in
    elim (result fresh q (find_from fresh q none fresh.entries)
      (find_from-lem fresh q fresh.entries none)) [
        | inl (f, all) ↦ inl (
          f,
          λ e i m. absurd (
              clash (candidate fresh q e) (MayLoad-candidate fresh q e m)
                (All-at (λ x. candidate fresh q x ≡ false) i all)),
        )
        | inr (e, f, c, i, all) ↦ inr (
          e,
          f,
          record {
            may_load = candidate-MayLoad fresh q e c;
            is_in = i;
            longest = λ d j m.
                at_most fresh d e m
                  (All-at (λ x. (candidate fresh q x ≡ false) ⊎ (beats x (some e) ≡ false)) j all);
          },
        )
      ]
  where
    clash : (b : Bool) → b ≡ true → b ≡ false → ⊥
    clash b h k = cc (h, k)

    at_most :
        (fresh : Store) (d e : Entry)
        → MayLoad fresh q d
        → (candidate fresh q d ≡ false) ⊎ (beats d (some e) ≡ false)
        → AtMost d e
    at_most fresh d e m (inl x) =
        absurd (clash (candidate fresh q d) (MayLoad-candidate fresh q d m) x)
    at_most fresh d e m (inr x) = beats-AtMost d e x
