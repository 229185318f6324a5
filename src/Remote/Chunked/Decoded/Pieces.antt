-- ===== src/Remote/Chunked/Decoded/Pieces.antt =====
-- The pieces that the network delivers, and the body that a server sends in chunks.
use preon_star.Base.{
  All, Bool, Bytes, List, [], ap, append-nil, append_assoc, ap₂, arith, false, if_intro,
  if◌then◌else◌, length, length-append, ltb, lt→ltb, not, refl, suc, sym, take, true, ℕ, ◌&&◌, ◌++◌,
  ◌+◌, ◌-◌, ◌<◌, ◌==◌, ◌∙◌, ◌∷◌, ◌≡◌, ◌≤◌,
}
use preon_star.Remote.Chunked.{
  ChunkState, HttpState, body_feed, carriage_return, chunk_data, end_of_size, feed_loop,
  feed_pieces, finished, handed, line_end, max_size_digits, newline, size_byte, size_line,
}
use preon_star.Remote.Chunked.Decoded.{
  IsReady, byte_step, bytes_steps, bytes_steps-append, feed_loop-steps, no_steps, state,
  steps-taken,
}

-- the pieces in one
abbrev pub joined : List Bytes → Bytes
joined [] = []
joined (d ∷ ds) = d ++ joined ds

-- a chunk of the body: the digits of its size, and its bytes
pub record Chunk : Type 0 where
  pub digits : Bytes
  pub body : Bytes

abbrev pub bodies : List Chunk → Bytes
bodies [] = []
bodies (k ∷ ks) = k.body ++ bodies ks

abbrev pub line_feed : Bytes → Bytes
line_feed r = carriage_return ∷ newline ∷ r

-- the body as a server sends it: the chunks, then one of no bytes, and what follows it
abbrev pub encode : List Chunk → Bytes → Bytes → Bytes
encode [] last trailer = last ++ line_feed trailer
encode (k ∷ ks) last trailer = k.digits ++ line_feed (k.body ++ line_feed (encode ks last trailer))

abbrev pub IsDigit : ℕ → Type 0
IsDigit c = ((c == newline) ≡ false) × ((c == carriage_return) ≡ false)

abbrev pub IsSize : Bytes → Type 0
IsSize z = All IsDigit z × (length z ≤ max_size_digits)

module _ (strtoul : Bytes → ℕ) where
  pub record IsChunk (k : Chunk) : Type 0 where
    pub size : IsSize k.digits
    pub read : strtoul k.digits ≡ length k.body
    pub not_last : 0 < length k.body

  body_feed-steps :
      (st : HttpState) (d : Bytes)
      → st.chunked ≡ true
      → IsReady st
      → (body_feed strtoul st d ≡ bytes_steps strtoul st d) × IsReady (bytes_steps strtoul st d).0
  unfolding body_feed
  body_feed-steps st d h r =
      let (e, ready) = feed_loop-steps strtoul (length d) st d r (omega arith) in
      (ap (λ (b : Bool). if not b then (st, d) else feed_loop strtoul (length d) st d) h ∙ e, ready)

  byte_step-chunked :
      (cs : ChunkState) (c : ℕ) (ch : Bool) (l : ℕ) (z : Bytes)
      → (byte_step strtoul (state strtoul ch cs l z) c).0.chunked ≡ ch
  unfolding byte_step size_byte
  byte_step-chunked finished c ch l z = refl
  byte_step-chunked chunk_data c ch l z = refl
  byte_step-chunked line_end c ch l z =
      if_intro (λ (s : HttpState). s.chunked ≡ ch) (c == newline) refl refl
  byte_step-chunked size_line c ch l z =
      if_intro (λ (s : HttpState). s.chunked ≡ ch) (c == newline) refl
        (if_intro (λ (s : HttpState). s.chunked ≡ ch)
          (not (c == carriage_return) && ltb (length z) max_size_digits) refl refl)

  steps-chunked : (d : Bytes) (st : HttpState) → (bytes_steps strtoul st d).0.chunked ≡ st.chunked
  unfolding bytes_steps
  steps-chunked [] st = refl
  steps-chunked (c ∷ d) st =
      steps-chunked d (byte_step strtoul st c).0
      ∙ byte_step-chunked st.cstate c st.chunked st.cleft st.csize

  pieces-steps :
      (ds : List Bytes) (st : HttpState)
      → st.chunked ≡ true
      → IsReady st
      → feed_pieces strtoul st ds ≡ bytes_steps strtoul st (joined ds)
  unfolding feed_pieces bytes_steps
  pieces-steps [] st h r = refl
  pieces-steps (d ∷ ds) st h r =
      let (e, ready) = body_feed-steps st d h r in
      let (st', out) = bytes_steps strtoul st d in
      ap (λ (x : HttpState × Bytes). handed strtoul x.1 (feed_pieces strtoul x.0 ds)) e
      ∙ ap (handed strtoul out) (pieces-steps ds st' (steps-chunked d st ∙ h) ready)
      ∙ sym (bytes_steps-append strtoul d (joined ds) st)

  digit_step :
      (c : ℕ) (ch : Bool) (l : ℕ) (z : Bytes)
      → IsDigit c
      → length z < max_size_digits
      → size_byte strtoul (state strtoul ch size_line l z) c
        ≡ state strtoul ch size_line l (z ++ c ∷ [])
  unfolding size_byte
  digit_step c ch l z (h, g) k = rw (h, g, lt→ltb (length z) max_size_digits k) refl

  -- the size line
  steps-size :
      (w z r : Bytes) (ch : Bool) (l : ℕ)
      → All IsDigit w
      → length z + length w ≤ max_size_digits
      → bytes_steps strtoul (state strtoul ch size_line l z) (w ++ r)
        ≡ bytes_steps strtoul (state strtoul ch size_line l (z ++ w)) r
  unfolding bytes_steps byte_step
  steps-size [] z r ch l a h =
      ap (λ (z' : Bytes). bytes_steps strtoul (state strtoul ch size_line l z') r)
        (sym (append-nil z))
  steps-size (c ∷ w) z r ch l (d, a) h =
      ap (λ (s : HttpState). bytes_steps strtoul s (w ++ r))
        (digit_step c ch l z d (omega (arith, h)))
      ∙ steps-size w (z ++ c ∷ []) r ch l a (omega (arith, h, length-append z (c ∷ [])))
      ∙ ap (λ (z' : Bytes). bytes_steps strtoul (state strtoul ch size_line l z') r)
          (append_assoc z (c ∷ []) w)

  -- the line's end after a chunk's bytes
  steps-line_end :
      (ch : Bool) (l : ℕ) (r : Bytes)
      → bytes_steps strtoul (state strtoul ch line_end l []) (line_feed r)
        ≡ bytes_steps strtoul (state strtoul ch size_line l []) r
  unfolding bytes_steps byte_step
  steps-line_end ch l r = refl

  -- the end of a size line
  steps-end_of_size :
      (ch : Bool) (l : ℕ) (z r : Bytes)
      → bytes_steps strtoul (state strtoul ch size_line l z) (line_feed r)
        ≡ bytes_steps strtoul (end_of_size strtoul (state strtoul ch size_line l z)) r
  unfolding bytes_steps byte_step size_byte
  steps-end_of_size ch l z r = refl

  take_all : (b : Bytes) → take (length b) b ≡ b
  take_all [] = refl
  take_all (c ∷ b) = ap (◌∷◌ c) (take_all b)

  abbrev pair_of : HttpState → Bytes → HttpState × Bytes
  pair_of s b = (s, b)

  -- all the bytes of a chunk
  steps-body :
      (n : ℕ) (b r : Bytes) (ch : Bool)
      → n ≡ length b
      → 0 < n
      → bytes_steps strtoul (state strtoul ch chunk_data n []) (b ++ r)
        ≡ handed strtoul b (bytes_steps strtoul (state strtoul ch line_end 0 []) r)
  unfolding bytes_steps
  steps-body n [] r ch e h = absurd (omega (arith, e, h))
  steps-body n (c ∷ b) r ch e h =
      let all : take (suc (length b)) (c ∷ b) ≡ c ∷ b = ap (◌∷◌ c) (take_all b) in
      let st = state strtoul ch chunk_data n [] in
      let done : n - suc (length b) ≡ 0 = omega (arith, e) in
      let fed : bytes_steps strtoul st (c ∷ b) ≡ (state strtoul ch line_end 0 [], c ∷ b) =
        ap (bytes_steps strtoul st) (sym all)
        ∙ steps-taken strtoul (length b) (c ∷ b) ch n [] (omega (arith, e)) (omega arith)
        ∙ ap₂ pair_of
            (ap (λ (m : ℕ). state strtoul ch (if m == 0 then line_end else chunk_data) m []) done)
            all in
      bytes_steps-append strtoul (c ∷ b) r st
      ∙ ap (λ (x : HttpState × Bytes). handed strtoul x.1 (bytes_steps strtoul x.0 r)) fed

  not_zero : (n : ℕ) → 0 < n → (n == 0) ≡ false
  not_zero n h = ground arith

  steps-chunk_sent :
      (k : Chunk) (r : Bytes) (ch : Bool) (l : ℕ)
      → IsChunk k
      → bytes_steps strtoul
          (state strtoul ch size_line l [])
          (k.digits ++ line_feed (k.body ++ line_feed r))
        ≡ handed strtoul k.body (bytes_steps strtoul (state strtoul ch size_line 0 []) r)
  steps-chunk_sent k r ch l h =
      let tail = k.body ++ line_feed r in
      steps-size k.digits [] (line_feed tail) ch l h.size.0 (omega (arith, h.size.1))
      ∙ steps-end_of_size ch l k.digits tail
      ∙ ap
          (λ (n : ℕ).
            bytes_steps strtoul (state strtoul ch (if n == 0 then finished else chunk_data) n [])
              tail)
          h.read
      ∙ ap
          (λ (b : Bool).
            bytes_steps strtoul
              (state strtoul ch (if b then finished else chunk_data) (length k.body) []) tail)
          (not_zero (length k.body) h.not_last)
      ∙ steps-body (length k.body) k.body (line_feed r) ch refl h.not_last
      ∙ ap (handed strtoul k.body) (steps-line_end ch 0 r)

  pub steps-encode :
      (ks : List Chunk) (last trailer : Bytes) (ch : Bool) (l : ℕ)
      → All IsChunk ks
      → IsSize last
      → strtoul last ≡ 0
      → bytes_steps strtoul (state strtoul ch size_line l []) (encode ks last trailer)
        ≡ (state strtoul ch finished 0 [], bodies ks)
  steps-encode [] last trailer ch l a s z =
      steps-size last [] (line_feed trailer) ch l s.0 (omega (arith, s.1))
      ∙ steps-end_of_size ch l last trailer
      ∙ ap
          (λ (n : ℕ).
            bytes_steps strtoul (state strtoul ch (if n == 0 then finished else chunk_data) n [])
              trailer)
          z
      ∙ no_steps strtoul trailer ch 0 []
  steps-encode (k ∷ ks) last trailer ch l (h, a) s z =
      steps-chunk_sent k (encode ks last trailer) ch l h
      ∙ ap (handed strtoul k.body) (steps-encode ks last trailer ch 0 a s z)

  -- The pieces of a chunked body, taken one after the other, hand the sink what the whole body
  -- taken at once would, and leave the decoder in the same state.
  pub feed_pieces-joined :
      (ds : List Bytes) (st : HttpState)
      → st.chunked ≡ true
      → IsReady st
      → feed_pieces strtoul st ds ≡ body_feed strtoul st (joined ds)
  feed_pieces-joined ds st h r = pieces-steps ds st h r ∙ sym (body_feed-steps st (joined ds) h r).0

  -- A body sent in chunks, each with its size in at most 23 digits and at least one byte, ended by a
  -- chunk of size 0 and any trailer, and delivered in any pieces: the sink gets the chunks' bytes, in
  -- order, and the decoder has finished.
  pub feed_pieces-encode :
      (ks : List Chunk) (last trailer : Bytes) (ds : List Bytes)
      → All IsChunk ks
      → IsSize last
      → strtoul last ≡ 0
      → joined ds ≡ encode ks last trailer
      → feed_pieces strtoul (state strtoul true size_line 0 []) ds
        ≡ (state strtoul true finished 0 [], bodies ks)
  feed_pieces-encode ks last trailer ds a s z e =
      pieces-steps ds (state strtoul true size_line 0 []) refl tt
      ∙ ap (bytes_steps strtoul (state strtoul true size_line 0 [])) e
      ∙ steps-encode ks last trailer true 0 a s z
