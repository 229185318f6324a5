-- ===== src/LoopGuard/Window.antt =====
-- `agent_repetition_detector`: the window of the last bytes that were fed.
use mathlib.Core.Bool.{not}
use preon_star.Base.{
  Bool, Bool-cases, Bytes, List, [], ap, append-nil, append_assoc, ap₂, arith, drop, false,
  if◌then◌else◌, inl, inr, leb, length, length-append, length-drop, ltb, refl, suc, sym, true, zero,
  ℕ, ◌&&◌, ◌++◌, ◌+◌, ◌-◌, ◌<◌, ◌||◌, ◌↔◌, ◌∙◌, ◌∷◌, ◌≡◌, ◌≤◌, ◌⊎◌,
}
use preon_star.LoopGuard.{ends_line, text_detected}

-- `sizeof(d->text)`
abbrev pub window_bytes : ℕ
window_bytes = 32768

-- `agent_repetition_detector`; `text` is its first `len` bytes
pub record Detector : Type 0 where
  pub text : Bytes
  pub unchecked : ℕ

abbrev pub empty_detector : Detector
empty_detector = record { text = []; unchecked = 0 }

-- what of the piece goes into the window
abbrev pub piece_of : Bytes → Bytes
piece_of s = if leb window_bytes (length s) then drop (length s - window_bytes) s else s

-- what of the window stays in front of it
abbrev pub kept_text : Bytes → Bytes → Bytes
kept_text t s =
    if leb window_bytes (length s)
    then []
    else if ltb window_bytes (length t + length s)
    then drop (length t + length s - window_bytes) t
    else t

unfoldable pub has_line_end : Bytes → Bool
has_line_end [] = false
has_line_end (c ∷ s) = ends_line c || has_line_end s

-- `agent_repetition_detector_feed`: the detector afterwards, and the verdict
unfoldable pub feed : Detector → Bytes → Detector × Bool
unfolding has_line_end text_detected
feed d [] = (d, false)
feed d (c ∷ s) =
    let piece = piece_of (c ∷ s) in
    let text = kept_text d.text (c ∷ s) ++ piece in
    let unchecked = d.unchecked + length piece in
    if ltb unchecked 32 && not (has_line_end piece)
    then (record { text = text; unchecked = unchecked }, false)
    else (record { text = text; unchecked = 0 }, text_detected text)

unfoldable pub feed_all : Detector → List Bytes → Detector
unfolding feed
feed_all d [] = d
feed_all d (s ∷ ss) = feed_all (feed d s).0 ss

abbrev pub last_bytes : Bytes → Bytes
last_bytes s = drop (length s - window_bytes) s

unfoldable pub concat : List Bytes → Bytes
concat [] = []
concat (s ∷ ss) = s ++ concat ss

drop-append : (n : ℕ) (s t : Bytes) → drop n (s ++ t) ≡ drop n s ++ drop (n - length s) t
drop-append zero s t = let e : 0 - length s ≡ 0 = omega arith in rw e refl
drop-append (suc n) [] t = let e : suc n - 0 ≡ suc n = omega arith in ap (λ k. drop k t) (sym e)
drop-append (suc n) (x ∷ s) t =
    let e : suc n - suc (length s) ≡ n - length s = omega arith in
    drop-append n s t ∙ ap (λ k. drop n s ++ drop k t) (sym e)

drop_nil : (n : ℕ) → drop {A = ℕ} n [] ≡ []
drop_nil zero = refl
drop_nil (suc n) = refl

drop-drop : (n m : ℕ) (s : Bytes) → drop m (drop n s) ≡ drop (n + m) s
drop-drop zero m s = ap (λ k. drop k s) (omega arith)
drop-drop (suc n) m [] = drop_nil m ∙ sym (drop_nil (suc n + m))
drop-drop (suc n) m (x ∷ s) =
    let e : suc n + m ≡ suc (n + m) = omega arith in
    drop-drop n m s ∙ ap (λ k. drop k (x ∷ s)) (sym e)

drop-all : (n : ℕ) (s : Bytes) → length s ≤ n → drop n s ≡ []
drop-all zero [] h = refl
drop-all zero (x ∷ s) h = absurd (omega arith)
drop-all (suc n) [] h = refl
drop-all (suc n) (x ∷ s) h = drop-all n s (omega arith)

-- what each of the two parts gives
kept-drop :
    (t s : Bytes)
    → length t ≤ window_bytes
    → kept_text t s ≡ drop (length t + length s - window_bytes) t
kept-drop t s h = elim (Bool-cases (leb window_bytes (length s))) [
  | inl e ↦ rw e (sym (drop-all (length t + length s - window_bytes) t (ground arith)))
  | inr e ↦ rw e (elim (Bool-cases (ltb window_bytes (length t + length s))) [
    | inl f ↦ rw f refl
    | inr f ↦ let z : length t + length s - window_bytes ≡ 0 = ground arith in rw (f, z) refl
  ])
]

piece-drop : (s : Bytes) → piece_of s ≡ drop (length s - window_bytes) s
piece-drop s = elim (Bool-cases (leb window_bytes (length s))) [
  | inl e ↦ rw e refl
  | inr e ↦ let z : length s - window_bytes ≡ 0 = ground arith in rw (e, z) refl
]

kept-piece :
    (t s : Bytes) → length t ≤ window_bytes → kept_text t s ++ piece_of s ≡ last_bytes (t ++ s)
kept-piece t s h =
    let n = length-append t s in
    let c = length (t ++ s) - window_bytes in
    let d : drop (length t + length s - window_bytes) t ≡ drop c t =
      ap (λ k. drop k t) (omega (arith, n)) in
    let p : drop (length s - window_bytes) s ≡ drop (c - length t) s =
      ap (λ k. drop k s) (omega (arith, n)) in
    ap₂ (λ (u v : Bytes). u ++ v) (kept-drop t s h ∙ d) (piece-drop s ∙ p) ∙ sym (drop-append c t s)

if-text :
    (b : Bool) (x y : Detector × Bool)
    → x.0.text ≡ y.0.text
    → (if b then x else y).0.text ≡ y.0.text
if-text true x y h = h
if-text false x y h = refl

feed-text :
    (d : Detector) (s : Bytes)
    → length d.text ≤ window_bytes
    → (feed d s).0.text ≡ last_bytes (d.text ++ s)
unfolding feed
feed-text d [] h =
    let e : length (d.text ++ []) - window_bytes ≡ 0 = omega (arith, length-append d.text []) in
    rw (e, append-nil d.text) refl
feed-text d (c ∷ s) h =
    let piece = piece_of (c ∷ s) in
    let text = kept_text d.text (c ∷ s) ++ piece in
    let unchecked = d.unchecked + length piece in
    if-text (ltb unchecked 32 && not (has_line_end piece))
      (record { text = text; unchecked = unchecked }, false)
      (record { text = text; unchecked = 0 }, text_detected text) refl
    ∙ kept-piece d.text (c ∷ s) h

last_bytes-append : (s t : Bytes) → last_bytes (last_bytes s ++ t) ≡ last_bytes (s ++ t)
last_bytes-append s t =
    let a = length s - window_bytes in
    let c = length (s ++ t) - window_bytes in
    let b = length (last_bytes s ++ t) - window_bytes in
    let n = length-append s t in
    let k = length-drop a s in
    let m = length-append (last_bytes s) t in
    let e : a + b ≡ c = omega (arith, n, k, m) in
    let f : b - length (last_bytes s) ≡ c - length s = omega (arith, n, k, m) in
    drop-append b (last_bytes s) t
    ∙ ap₂ (λ (u v : Bytes). u ++ v) (drop-drop a b s ∙ ap (λ i. drop i s) e) (ap (λ i. drop i t) f)
    ∙ sym (drop-append c s t)

-- After any pieces, from a window that holds at most 32768 bytes, the window is the last 32768
-- bytes of what it held followed by all the pieces.
pub feed_all-text :
    (ss : List Bytes) (d : Detector)
    → length d.text ≤ window_bytes
    → (feed_all d ss).text ≡ last_bytes (d.text ++ concat ss)
unfolding feed_all concat
feed_all-text [] d h =
    let e : length (d.text ++ []) - window_bytes ≡ 0 = omega (arith, length-append d.text []) in
    rw (e, append-nil d.text) refl
feed_all-text (s ∷ ss) d h =
    let t = feed-text d s h in
    let l : length (feed d s).0.text ≤ window_bytes =
      rw t (omega (arith, length-drop (length (d.text ++ s) - window_bytes) (d.text ++ s))) in
    feed_all-text ss (feed d s).0 l
    ∙ ap (λ u. last_bytes (u ++ concat ss)) t
    ∙ last_bytes-append (d.text ++ s) (concat ss)
    ∙ ap last_bytes (append_assoc d.text s (concat ss))

abbrev report : ℕ → Bool → Bool → Bytes → Detector × Bool
report n e v t =
    if ltb n 32 && not e
    then (record { text = t; unchecked = n }, false)
    else (record { text = t; unchecked = 0 }, v)

checked :
    (n : ℕ) (e v : Bool) (t : Bytes)
    → ((report n e v t).0.unchecked < 32)
      × (((report n e v t).1 ≡ true) ↔ (((32 ≤ n) ⊎ (e ≡ true)) × (v ≡ true)))
checked n true v t = ground arith
checked n false v t = ground arith

-- From a window within its bound and fewer than 32 unchecked bytes: a feed leaves fewer than 32
-- unchecked bytes; and it reports a loop if and only if the piece is not empty, it brings the
-- unchecked bytes to 32 or has the end of a line, and the new window is found to loop.
pub feed-verdict :
    (d : Detector) (s : Bytes)
    → length d.text ≤ window_bytes
    → d.unchecked < 32
    → ((feed d s).0.unchecked < 32)
      × (((feed d s).1 ≡ true) ↔ (
          (0 < length s)
          × ((32 ≤ d.unchecked + length (piece_of s)) ⊎ (has_line_end (piece_of s) ≡ true))
          × (text_detected (last_bytes (d.text ++ s)) ≡ true)))
unfolding feed
feed-verdict d [] room h = (h, (λ e. cc, λ (p, o, v). absurd (omega arith)))
feed-verdict d (c ∷ s) room h =
    let text = kept_text d.text (c ∷ s) ++ piece_of (c ∷ s) in
    let r =
      checked (d.unchecked + length (piece_of (c ∷ s))) (has_line_end (piece_of (c ∷ s)))
        (text_detected text) text in
    let k : text_detected text ≡ text_detected (last_bytes (d.text ++ c ∷ s)) =
      ap text_detected (kept-piece d.text (c ∷ s) room) in
    (r.0, (λ e. (omega arith, (r.1.0 e).0, sym k ∙ (r.1.0 e).1), λ (p, o, v). r.1.1 (o, k ∙ v)))
