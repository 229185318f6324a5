-- ===== src/Remote/Chat/Client.antt =====
-- The lines of the stream, and the call of the client as a whole.
use preon_star.Base.{
  Bool, Bytes, List, Option, [], bytes_eq, codes, drop, false, if◌then◌else◌, leb, length, ltb,
  none, not, starts_with, take, true, ℕ, ◌&&◌, ◌++◌, ◌==◌, ◌||◌, ◌∷◌,
}
use preon_star.Remote.Json.{Parsed, Value, failed, fuel, jv_parse, ok}
use preon_star.Remote.Chat.{Chat, Result, Sink, c_string, take_chunk}

unfoldable pub skip_spaces : Bytes → Bytes
skip_spaces [] = []
skip_spaces (c ∷ s) = let rest = skip_spaces s in if c == b' ' then rest else c ∷ s

-- a carriage return at the end
unfoldable pub strip_cr : Bytes → Bytes
strip_cr [] = []
strip_cr (c ∷ []) = if c == b'\r' then [] else c ∷ []
strip_cr (c ∷ d ∷ s) = c ∷ strip_cr (d ∷ s)

module _ {D I : Type 0} (to_int : D → I) (to_index : D → Option ℕ) where
  module _ (strtod : Bytes → Option (D × Bytes)) where
    abbrev pub take_parsed : Chat D I → Parsed (Value D) → Chat D I
    take_parsed c (ok j s) = take_chunk to_int to_index c j
    take_parsed c failed = c
    take_parsed c fuel = c

    -- `sse_line`
    unfoldable pub sse_line : Chat D I → Bytes → Chat D I
    unfolding skip_spaces starts_with bytes_eq
    sse_line c line =
        let text = skip_spaces (drop 5 line) in
        if not (starts_with (codes "data:") line)
        then c
        else if bytes_eq text (codes "[DONE]")
        then record c { done = true }
        else take_parsed c (jv_parse strtod text)

    -- one byte of `chat_sink_fn`
    unfoldable pub sink_byte : Sink D I → ℕ → Sink D I
    unfolding sse_line strip_cr c_string
    sink_byte k c =
        if c == b'\n'
        then record k { chat = sse_line k.chat (c_string (strip_cr k.line)); line = [] }
        else record k { line = k.line ++ c ∷ [] }

    unfoldable pub sink_bytes : Sink D I → Bytes → Sink D I
    unfolding sink_byte
    sink_bytes k [] = k
    sink_bytes k (c ∷ d) = sink_bytes (sink_byte k c) d

    -- `chat_sink_fn`
    unfoldable pub chat_sink_fn : Sink D I → Bytes → Sink D I
    unfolding sink_bytes
    chat_sink_fn k d = sink_bytes (record k { whole_body = k.whole_body ++ d }) d

    unfoldable pub sink_pieces : Sink D I → List Bytes → Sink D I
    unfolding chat_sink_fn
    sink_pieces k [] = k
    sink_pieces k (d ∷ ds) = sink_pieces (chat_sink_fn k d) ds

-- what `http_do` returns: no status, with the error; or a status, with the body of an error
pub data Response : Type 0 where
  no_status : Bytes → Response
  status : ℕ → Bytes → Response

module _ {D I : Type 0} (zero_double : D) (zero_int : I) where
  -- `memset` of the result and of the sink
  abbrev pub zero_result : Result D I
  zero_result = record {
    content = none;
    reasoning = none;
    calls = [];
    finish = [];
    incomplete_tool = false;
    prompt_tokens = zero_int;
    completion_tokens = zero_int;
    cached_tokens = zero_int;
    reasoning_tokens = zero_int;
    prefill_ms = zero_double;
    decode_ms = zero_double;
    err = [];
  }

  abbrev pub zero_chat : Chat D I
  zero_chat = record { result = zero_result; deltas = []; done = false }

  abbrev pub zero_sink : Sink D I
  zero_sink = record { chat = zero_chat; line = []; whole_body = [] }

abbrev pub with_error : {D I : Type 0} → Result D I → Bytes → Result D I
with_error r s = record r { err = take 299 s }

module _ {D I : Type 0} (to_int : D → I) (to_index : D → Option ℕ)
    (strtod : Bytes → Option (D × Bytes)) (show_int : ℕ → Bytes) where
  -- the line that no newline ended
  abbrev pub last_line : Sink D I → Chat D I
  last_line k =
      if length k.line == 0
      then k.chat
      else sse_line to_int to_index strtod k.chat (c_string k.line)

  abbrev pub begins_object : Bytes → Bool
  begins_object [] = false
  begins_object (c ∷ s) = c == b'{'

  -- a server that did not stream: its body is one object
  unfoldable pub take_body : Chat D I → Bytes → Chat D I
  unfolding take_chunk c_string jv_parse
  take_body c body =
      if length c.result.finish == 0 && begins_object body
      then take_parsed to_int to_index strtod c (jv_parse strtod (c_string body))
      else c

  -- the result's code, -1 as `false`
  unfoldable pub settle : Chat D I → Bool × Chat D I
  settle c =
      let r = c.result in
      if not (length r.err == 0)
      then (false, c)
      else if length r.finish == 0
      then (
        false,
        record c { result = with_error r (codes "stream ended without a finish_reason") },
      )
      else (true, c)

  unfoldable pub finish_chat : Sink D I → Response → Bool × Chat D I
  unfolding settle take_body sse_line
  finish_chat k (no_status e) =
      let c = k.chat in (false, record c { result = with_error c.result e })
  finish_chat k (status st body) =
      let c = k.chat in
      if ltb st 200 || leb 300 st
      then (
        false,
        record c {
          result =
              with_error c.result
                (codes "server returned HTTP " ++ (show_int st ++ (codes ": " ++ take 200 body)));
        },
      )
      else settle (take_body (last_line k) k.whole_body)

  -- `p36_remote_chat`, by the pieces that the connection delivers and the response
  unfoldable pub remote_chat : D → I → List Bytes → Response → Bool × Chat D I
  unfolding finish_chat sink_pieces
  remote_chat d i pieces response =
      finish_chat (sink_pieces to_int to_index strtod (zero_sink d i) pieces) response
