-- ===== src/Remote/Chunked.antt =====
-- `body_feed`: the decoder of the chunked transfer encoding. What it hands to the sink is a list of
-- bytes. `strtoul`, on the digits of a size in base 16, is a parameter.
pub mod Decoded
use preon_star.Base.{
  Bool, Bytes, List, [], drop, if◌then◌else◌, length, ltb, min, not, suc, take, zero, ℕ, ◌&&◌, ◌++◌,
  ◌-◌, ◌==◌, ◌∷◌,
}

-- `cstate`
pub data ChunkState : Type 0 where
  size_line : ChunkState
  chunk_data : ChunkState
  line_end : ChunkState
  finished : ChunkState

-- the decoder's part of `http_state`; `csize` is its first `csz_len` bytes
pub record HttpState : Type 0 where
  pub chunked : Bool
  pub cstate : ChunkState
  pub cleft : ℕ
  pub csize : Bytes

-- `sizeof(st->csize) - 1`
abbrev pub max_size_digits : ℕ
max_size_digits = 23

abbrev pub carriage_return : ℕ
carriage_return = 13

abbrev pub newline : ℕ
newline = 10

module _ (strtoul : Bytes → ℕ) where
  abbrev pub end_of_size : HttpState → HttpState
  end_of_size st =
      let n = strtoul st.csize in
      record st { cleft = n; csize = []; cstate = (if n == 0 then finished else chunk_data) }

  -- one byte of a size line
  unfoldable pub size_byte : HttpState → ℕ → HttpState
  size_byte st c =
      if c == newline
      then end_of_size st
      else if not (c == carriage_return) && ltb (length st.csize) max_size_digits
      then record st { csize = st.csize ++ c ∷ [] }
      else st

  abbrev pub taken : HttpState → ℕ → HttpState
  taken st n = record st {
    cleft = st.cleft - n;
    cstate = (if st.cleft - n == 0 then line_end else chunk_data);
  }

  abbrev pub handed : Bytes → HttpState × Bytes → HttpState × Bytes
  handed out (st, rest) = (st, out ++ rest)

  -- the loop of `body_feed`; each round takes a byte at least, where a chunk in progress has bytes left
  unfoldable pub feed_loop : ℕ → HttpState → Bytes → HttpState × Bytes
  unfolding size_byte
  feed_loop zero st d = (st, [])
  feed_loop (suc f) st [] = (st, [])
  feed_loop (suc f) st (c ∷ d) =
      let n = min (length (c ∷ d)) st.cleft in
      elim st.cstate [
        | finished ↦ (st, [])
        | size_line ↦ feed_loop f (size_byte st c) d
        | chunk_data ↦ handed (take n (c ∷ d)) (feed_loop f (taken st n) (drop n (c ∷ d)))
        | line_end ↦ feed_loop f (if c == newline then record st { cstate = size_line } else st) d
      ]

  -- `body_feed`: the state, and what the sink gets
  unfoldable pub body_feed : HttpState → Bytes → HttpState × Bytes
  unfolding feed_loop
  body_feed st d = if not st.chunked then (st, d) else feed_loop (length d) st d

  -- the pieces that the network delivers, one after the other
  unfoldable pub feed_pieces : HttpState → List Bytes → HttpState × Bytes
  unfolding body_feed
  feed_pieces st [] = (st, [])
  feed_pieces st (d ∷ ds) = let (st', out) = body_feed st d in handed out (feed_pieces st' ds)
