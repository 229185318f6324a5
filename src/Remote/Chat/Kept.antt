-- ===== src/Remote/Chat/Kept.antt =====
-- What the client keeps at the end of the call.
use preon_star.Base.{
  Bool, Bytes, List, Option, [], arith, bytes_eq, codes, drop, if_intro, leb, length, ltb, not,
  refl, starts_with, ℕ, ◌&&◌, ◌++◌, ◌==◌, ◌||◌, ◌∷◌,
}
use preon_star.Remote.Chat.Client.{
  Response, begins_object, chat_sink_fn, finish_chat, last_line, no_status, remote_chat, settle,
  sink_byte, sink_bytes, sink_pieces, skip_spaces, sse_line, status, strip_cr, take_body,
  take_parsed, zero_sink,
}
use preon_star.Remote.Chat.Told.{IsTold, take_chunk-IsTold}
use preon_star.Remote.Json.{Parsed, Value, failed, fuel, jv_parse, ok}
use preon_star.Remote.Chat.{Chat, Sink, c_string}

module _ {D I : Type 0} (to_int : D → I) (to_index : D → Option ℕ)
    (strtod : Bytes → Option (D × Bytes)) where
  take_parsed-IsTold :
      (c : Chat D I) (p : Parsed (Value D))
      → IsTold c
      → IsTold (take_parsed to_int to_index strtod c p)
  take_parsed-IsTold c (ok j s) h = take_chunk-IsTold to_int to_index c j h
  take_parsed-IsTold c failed h = h
  take_parsed-IsTold c fuel h = h

  sse_line-IsTold :
      (c : Chat D I) (line : Bytes) → IsTold c → IsTold (sse_line to_int to_index strtod c line)
  unfolding sse_line
  sse_line-IsTold c line h =
      let text = skip_spaces (drop 5 line) in
      if_intro IsTold (not (starts_with (codes "data:") line)) h (
        if_intro IsTold (bytes_eq text (codes "[DONE]")) h
          (take_parsed-IsTold c (jv_parse strtod text) h))

  sink_bytes-IsTold :
      (d : Bytes) (k : Sink D I)
      → IsTold k.chat
      → IsTold (sink_bytes to_int to_index strtod k d).chat
  unfolding sink_bytes sink_byte
  sink_bytes-IsTold [] k h = h
  sink_bytes-IsTold (c ∷ d) k h = sink_bytes-IsTold d (sink_byte to_int to_index strtod k c) (
      if_intro (λ (k' : Sink D I). IsTold k'.chat) (c == b'\n')
        (sse_line-IsTold k.chat (c_string (strip_cr k.line)) h) h)

  sink_pieces-IsTold :
      (ds : List Bytes) (k : Sink D I)
      → IsTold k.chat
      → IsTold (sink_pieces to_int to_index strtod k ds).chat
  unfolding sink_pieces chat_sink_fn
  sink_pieces-IsTold [] k h = h
  sink_pieces-IsTold (d ∷ ds) k h =
      sink_pieces-IsTold ds (chat_sink_fn to_int to_index strtod k d)
        (sink_bytes-IsTold d (record k { whole_body = k.whole_body ++ d }) h)

  module _ (show_int : ℕ → Bytes) where
    settle-IsTold : (c : Chat D I) → IsTold c → IsTold (settle to_int to_index strtod show_int c).1
    unfolding settle
    settle-IsTold c h =
        let P : Bool × Chat D I → Type 0 = λ x. IsTold x.1 in
        if_intro P (not (length c.result.err == 0)) h (if_intro P (length c.result.finish == 0) h h)

    finish_chat-IsTold :
        (k : Sink D I) (response : Response)
        → IsTold k.chat
        → IsTold (finish_chat to_int to_index strtod show_int k response).1
    unfolding finish_chat take_body
    finish_chat-IsTold k (no_status e) h = h
    finish_chat-IsTold k (status st body) h =
        let last = last_line to_int to_index strtod show_int k in
        let last_told : IsTold last =
          if_intro IsTold (length k.line == 0) h (sse_line-IsTold k.chat (c_string k.line) h) in
        let whole_told : IsTold (take_body to_int to_index strtod show_int last k.whole_body) =
          if_intro IsTold
            (length last.result.finish == 0
              && begins_object to_int to_index strtod show_int k.whole_body)
            (take_parsed-IsTold last (jv_parse strtod (c_string k.whole_body)) last_told)
            last_told in
        if_intro (λ (x : Bool × Chat D I). IsTold x.1) (ltb st 200 || leb 300 st) h
          (settle-IsTold (take_body to_int to_index strtod show_int last k.whole_body) whole_told)

    -- Whatever the server sends, in any pieces, and however the connection ends: the content and the
    -- reasoning of the result are what the caller was told, put together, and there are at most 64 calls.
    pub remote_chat-IsTold :
        (zero_double : D) (zero_int : I) (pieces : List Bytes) (response : Response)
        → IsTold
            (remote_chat to_int to_index strtod show_int zero_double zero_int pieces response).1
    unfolding remote_chat
    remote_chat-IsTold zero_double zero_int pieces response =
        let k = zero_sink zero_double zero_int in
        finish_chat-IsTold (sink_pieces to_int to_index strtod k pieces) response
          (sink_pieces-IsTold pieces k (refl, refl, omega arith))
