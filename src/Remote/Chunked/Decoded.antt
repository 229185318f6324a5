-- ===== src/Remote/Chunked/Decoded.antt =====
-- The decoder, byte by byte: a piece of the body taken at once gives what its bytes give.
pub mod Pieces
use preon_star.Base.{
  Bool, Bytes, [], ap, append_assoc, arith, drop, false, if_cases, if_intro, if◌then◌else◌, length,
  length-drop, ltb, min, not, refl, subst, suc, sym, take, take-append-drop, zero, ℕ, ◌&&◌, ◌++◌,
  ◌-◌, ◌<◌, ◌==◌, ◌∙◌, ◌∷◌, ◌≡◌, ◌≤◌,
}
use preon_star.Remote.Chunked.{
  ChunkState, HttpState, carriage_return, chunk_data, feed_loop, finished, handed, line_end,
  max_size_digits, newline, size_byte, size_line, taken,
}

-- a chunk in progress has bytes left
abbrev pub HasLeft : ChunkState → ℕ → Type 0
HasLeft chunk_data l = 0 < l
HasLeft size_line l = Unit
HasLeft line_end l = Unit
HasLeft finished l = Unit

abbrev pub IsReady : HttpState → Type 0
IsReady st = HasLeft st.cstate st.cleft

module _ (strtoul : Bytes → ℕ) where
  -- byte by byte
  pub byte_step : HttpState → ℕ → HttpState × Bytes
  byte_step st c = elim st.cstate [
    | finished ↦ (st, [])
    | size_line ↦ (size_byte strtoul st c, [])
    | chunk_data ↦ (taken strtoul st 1, c ∷ [])
    | line_end ↦ (if c == newline then record st { cstate = size_line } else st, [])
  ]

  pub bytes_steps : HttpState → Bytes → HttpState × Bytes
  bytes_steps st [] = (st, [])
  bytes_steps st (c ∷ d) = let (st', out) = byte_step st c in handed strtoul out (bytes_steps st' d)

  pub handed-handed :
      (a b : Bytes) (r : HttpState × Bytes)
      → handed strtoul a (handed strtoul b r) ≡ handed strtoul (a ++ b) r
  handed-handed a b r = ap (λ (o : Bytes). (r.0, o)) (sym (append_assoc a b r.1))

  pub bytes_steps-append :
      (a b : Bytes) (st : HttpState)
      → bytes_steps st (a ++ b)
        ≡ (let (st', out) = bytes_steps st a in handed strtoul out (bytes_steps st' b))
  unfolding bytes_steps
  bytes_steps-append [] b st = refl
  bytes_steps-append (c ∷ a) b st =
      let (st', out) = byte_step st c in
      ap (handed strtoul out) (bytes_steps-append a b st')
      ∙ handed-handed out (bytes_steps st' a).1 (bytes_steps (bytes_steps st' a).0 b)

  more : (l n : ℕ) → n < l → (l - n == 0) ≡ false
  more l n h = ground arith

  abbrev pub state : Bool → ChunkState → ℕ → Bytes → HttpState
  state ch cs l z = record { chunked = ch; cstate = cs; cleft = l; csize = z }

  taken_part :
      (ch : Bool) (cs : ChunkState) (l n : ℕ) (z : Bytes)
      → n < l
      → taken strtoul (state ch cs l z) n ≡ state ch chunk_data (l - n) z
  taken_part ch cs l n z h =
      ap (λ (cs' : ChunkState). state ch cs' (l - n) z)
        (ap (λ (b : Bool). if b then line_end else chunk_data) (more l n h))

  less : (l n : ℕ) → l - 1 - suc n ≡ l - suc (suc n)
  less l n = omega arith

  -- some bytes of a chunk at once
  pub steps-taken :
      (n : ℕ) (d : Bytes) (ch : Bool) (l : ℕ) (z : Bytes)
      → suc n ≤ l
      → suc n ≤ length d
      → bytes_steps (state ch chunk_data l z) (take (suc n) d)
        ≡ (taken strtoul (state ch chunk_data l z) (suc n), take (suc n) d)
  unfolding bytes_steps byte_step
  steps-taken n [] ch l z p h = absurd (omega (arith, h))
  steps-taken zero (c ∷ d) ch l z p h = refl
  steps-taken (suc n) (c ∷ d) ch l z p h =
      let one = taken_part ch chunk_data l 1 z (omega (arith, p)) in
      let rest = steps-taken n d ch (l - 1) z (omega (arith, p)) (omega (arith, h)) in
      let first = handed strtoul (c ∷ []) in
      ap (λ (s : HttpState). first (bytes_steps s (take (suc n) d))) one
      ∙ ap first rest
      ∙ ap (λ (k : ℕ). (state ch (if k == 0 then line_end else chunk_data) k z, c ∷ take (suc n) d))
          (less l n)

  -- the rest of the bytes after it
  steps-chunk :
      (n : ℕ) (d : Bytes) (ch : Bool) (l : ℕ) (z : Bytes)
      → suc n ≤ l
      → suc n ≤ length d
      → handed strtoul
          (take (suc n) d)
          (bytes_steps (taken strtoul (state ch chunk_data l z) (suc n)) (drop (suc n) d))
        ≡ bytes_steps (state ch chunk_data l z) d
  steps-chunk n d ch l z p h =
      let st = state ch chunk_data l z in
      ap (λ (r : HttpState × Bytes). handed strtoul r.1 (bytes_steps r.0 (drop (suc n) d)))
        (sym (steps-taken n d ch l z p h))
      ∙ sym (bytes_steps-append (take (suc n) d) (drop (suc n) d) st)
      ∙ ap (bytes_steps st) (take-append-drop (suc n) d)

  left_over : (m : ℕ) → (m == 0) ≡ false → 0 < m
  left_over m h = ground arith

  taken-IsReady : (st : HttpState) (n : ℕ) → IsReady (taken strtoul st n)
  taken-IsReady st n =
      if_cases (λ (cs : ChunkState). HasLeft cs (st.cleft - n)) (st.cleft - n == 0) (λ e. tt)
        (left_over (st.cleft - n))

  size_byte-IsReady :
      (c : ℕ) (ch : Bool) (l : ℕ) (z : Bytes)
      → IsReady (size_byte strtoul (state ch size_line l z) c)
  unfolding size_byte
  size_byte-IsReady c ch l z =
      if_intro IsReady (c == newline)
        (if_cases (λ (cs : ChunkState). HasLeft cs (strtoul z)) (strtoul z == 0) (λ e. tt)
          (left_over (strtoul z)))
        (if_intro IsReady (not (c == carriage_return) && ltb (length z) max_size_digits) tt tt)

  pub no_steps :
      (d : Bytes) (ch : Bool) (l : ℕ) (z : Bytes)
      → bytes_steps (state ch finished l z) d ≡ (state ch finished l z, [])
  unfolding bytes_steps byte_step
  no_steps [] ch l z = refl
  no_steps (c ∷ d) ch l z = ap (handed strtoul []) (no_steps d ch l z)

  -- one round of the loop
  round :
      (f c : ℕ) (d : Bytes)
      → ((st : HttpState) (d' : Bytes)
          → IsReady st
          → length d' ≤ f
          → (feed_loop strtoul f st d' ≡ bytes_steps st d') × IsReady (bytes_steps st d').0)
      → (cs : ChunkState) (ch : Bool) (l : ℕ) (z : Bytes) → IsReady (state ch cs l z)
      → length d ≤ f
      → (feed_loop strtoul (suc f) (state ch cs l z) (c ∷ d)
          ≡ bytes_steps (state ch cs l z) (c ∷ d))
        × IsReady (bytes_steps (state ch cs l z) (c ∷ d)).0
  unfolding feed_loop bytes_steps byte_step
  round f c d ih finished ch l z r h =
      let none_left = sym (no_steps (c ∷ d) ch l z) in
      (none_left, subst (λ (r' : HttpState × Bytes). IsReady r'.0) none_left tt)
  round f c d ih size_line ch l z r h =
      ih (size_byte strtoul (state ch size_line l z) c) d (size_byte-IsReady c ch l z) h
  round f c d ih chunk_data ch l z r h =
      let n = min (suc (length d)) l - 1 in
      let e : suc n ≡ min (suc (length d)) l = omega (arith, r) in
      let st = state ch chunk_data l z in
      let tail = drop (suc n) (c ∷ d) in
      let short : length tail ≤ f = omega (arith, h, length-drop n d) in
      let (fed, ready) = ih (taken strtoul st (suc n)) tail (taken-IsReady st (suc n)) short in
      let same = steps-chunk n (c ∷ d) ch l z (omega arith) (omega arith) in
      let fed_all = ap (handed strtoul (take (suc n) (c ∷ d))) fed ∙ same in
      (
        subst
            (λ (m : ℕ).
              handed strtoul (take m (c ∷ d))
                (feed_loop strtoul f (taken strtoul st m) (drop m (c ∷ d)))
              ≡ bytes_steps st (c ∷ d))
            e fed_all,
        subst (λ (r' : HttpState × Bytes). IsReady r'.0) same ready,
      )
  round f c d ih line_end ch l z r h =
      ih (if c == newline then state ch size_line l z else state ch line_end l z) d
        (if_intro IsReady (c == newline) tt tt) h

  pub feed_loop-steps :
      (f : ℕ) (st : HttpState) (d : Bytes)
      → IsReady st
      → length d ≤ f
      → (feed_loop strtoul f st d ≡ bytes_steps st d) × IsReady (bytes_steps st d).0
  unfolding feed_loop bytes_steps byte_step
  feed_loop-steps zero st [] r h = (refl, r)
  feed_loop-steps zero st (c ∷ d) r h = absurd (omega (arith, h))
  feed_loop-steps (suc f) st [] r h = (refl, r)
  feed_loop-steps (suc f) st (c ∷ d) r h =
      round f c d (feed_loop-steps f) st.cstate st.chunked st.cleft st.csize r (omega (arith, h))
