-- ===== src/Remote/Chat/Stream.antt =====
-- A stream of events, in any pieces, is taken event by event.
use preon_star.Base.{
  &&-eq-true, All, Bool, Bytes, List, Option, [], ap, append-nil, append_assoc, ap₂, arith,
  bytes_eq, codes, false, if◌then◌else◌, leb, refl, sym, true, ℕ, ◌++◌, ◌==◌, ◌∙◌, ◌∷◌, ◌≡◌, ◌≤◌,
}
use preon_star.Remote.Chat.Client.{
  chat_sink_fn, sink_byte, sink_bytes, sink_pieces, skip_spaces, sse_line, strip_cr, take_parsed,
}
use preon_star.Remote.Chat.{Chat, Sink, c_string, take_chunk}
use preon_star.Remote.Chat.Printable.{
  c_string-printable, emit-printable, is_printable, strip_cr-printable,
}
use preon_star.Remote.Chunked.Decoded.Pieces.{joined}
use preon_star.Remote.Json.{Kids, jv_parse, object}
use preon_star.Remote.Json.Text.{IsKeyed, ReadsNumbers, depth, emit}
use preon_star.Remote.Json.RoundTrip.{jv_parse-emit}

-- an event of the stream: its line, and the empty line that ends it
abbrev pub event : {D : Type 0} → (D → Bytes) → Kids D → Bytes → Bytes
event show ks r = codes "data: " ++ (emit show (object ks) [] ++ b'\n' ∷ b'\n' ∷ r)

abbrev pub events : {D : Type 0} → (D → Bytes) → List (Kids D) → Bytes
events show [] = codes "data: [DONE]" ++ b'\n' ∷ []
events show (ks ∷ kss) = event show ks (events show kss)

-- an object that the parser reads
abbrev pub IsEvent : {D : Type 0} → Kids D → Type 0
IsEvent ks = (depth (object ks) ≤ 64) × IsKeyed (object ks)

module _ {D I : Type 0} (to_int : D → I) (to_index : D → Option ℕ)
    (strtod : Bytes → Option (D × Bytes)) where
  abbrev feed : Sink D I → Bytes → Sink D I
  feed = sink_bytes to_int to_index strtod

  abbrev sink : Chat D I → Bytes → Bytes → Sink D I
  sink c l b = record { chat = c; line = l; whole_body = b }

  feed-append : (a b : Bytes) (k : Sink D I) → feed k (a ++ b) ≡ feed (feed k a) b
  unfolding sink_bytes
  feed-append [] b k = refl
  feed-append (c ∷ a) b k = feed-append a b (sink_byte to_int to_index strtod k c)

  byte_body :
      (k : Sink D I) (c : ℕ) (b : Bytes)
      → sink_byte to_int to_index strtod (record k { whole_body = b }) c
        ≡ record (sink_byte to_int to_index strtod k c) { whole_body = b }
  unfolding sink_byte
  byte_body k c b =
      push (c == b'\n')
        (record k {
          chat = sse_line to_int to_index strtod k.chat (c_string (strip_cr k.line));
          line = [];
        })
        (record k { line = k.line ++ c ∷ [] })
    where
      push :
          (t : Bool) (x y : Sink D I)
          → (if t then record x { whole_body = b } else record y { whole_body = b })
            ≡ record (if t then x else y) { whole_body = b }
      push true x y = refl
      push false x y = refl

  -- the body that is kept aside plays no part
  feed_body :
      (d : Bytes) (k : Sink D I) (b : Bytes)
      → feed (record k { whole_body = b }) d ≡ record (feed k d) { whole_body = b }
  unfolding sink_bytes
  feed_body [] k b = refl
  feed_body (c ∷ d) k b =
      ap (λ (s : Sink D I). feed s d) (byte_body k c b)
      ∙ feed_body d (sink_byte to_int to_index strtod k c) b

  pieces-feed :
      (ds : List Bytes) (k : Sink D I)
      → sink_pieces to_int to_index strtod k ds
        ≡ record (feed k (joined ds)) { whole_body = k.whole_body ++ joined ds }
  unfolding sink_pieces chat_sink_fn
  pieces-feed [] k = ap (λ (b : Bytes). record k { whole_body = b }) (sym (append-nil k.whole_body))
  pieces-feed (d ∷ ds) k =
      let body = k.whole_body ++ d in
      ap (λ (s : Sink D I). sink_pieces to_int to_index strtod s ds) (feed_body d k body)
      ∙ pieces-feed ds (record (feed k d) { whole_body = body })
      ∙ ap (λ (s : Sink D I). record s { whole_body = body ++ joined ds })
          (feed_body (joined ds) (feed k d) body)
      ∙ ap₂ (λ (s : Sink D I) (b : Bytes). record s { whole_body = b })
          (sym (feed-append d (joined ds) k)) (append_assoc k.whole_body d (joined ds))

  no_newline : (x : ℕ) → leb 32 x ≡ true → (x == b'\n') ≡ false
  no_newline x h = ground arith

  -- a line without its newline
  feed-line :
      (w r : Bytes) (c : Chat D I) (l b : Bytes)
      → is_printable w ≡ true
      → feed (sink c l b) (w ++ r) ≡ feed (sink c (l ++ w) b) r
  unfolding sink_bytes sink_byte is_printable
  feed-line [] r c l b h = ap (λ (l' : Bytes). feed (sink c l' b) r) (sym (append-nil l))
  feed-line (x ∷ w) r c l b h =
      let (p, q) = &&-eq-true (leb 32 x) (is_printable w) h in
      ap
        (λ (t : Bool).
          feed
            (if t
              then sink (sse_line to_int to_index strtod c (c_string (strip_cr l))) [] b
              else sink c (l ++ x ∷ []) b)
            (w ++ r))
        (no_newline x p)
      ∙ feed-line w r c (l ++ x ∷ []) b q
      ∙ ap (λ (l' : Bytes). feed (sink c l' b) r) (append_assoc l (x ∷ []) w)

  feed-newline :
      (w r : Bytes) (c : Chat D I) (b : Bytes)
      → is_printable w ≡ true
      → feed (sink c [] b) (w ++ b'\n' ∷ r)
        ≡ feed (sink (sse_line to_int to_index strtod c w) [] b) r
  unfolding sink_bytes sink_byte
  feed-newline w r c b h =
      feed-line w (b'\n' ∷ r) c [] b h
      ∙ ap (λ (t : Bytes). feed (sink (sse_line to_int to_index strtod c t) [] b) r)
          (ap c_string (strip_cr-printable w h) ∙ c_string-printable w h)

  module _ (show : D → Bytes) (plain : (d : D) → is_printable (show d) ≡ true)
      (laws : ReadsNumbers strtod show) where
    object_text :
        (ks : Kids D)
        → (skip_spaces (emit show (object ks) []) ≡ emit show (object ks) [])
          × (bytes_eq (emit show (object ks) []) (codes "[DONE]") ≡ false)
    unfolding emit skip_spaces bytes_eq
    object_text ks = (refl, refl)

    line-event :
        (ks : Kids D) (c : Chat D I)
        → IsEvent ks
        → sse_line to_int to_index strtod c (codes "data: " ++ emit show (object ks) [])
          ≡ take_chunk to_int to_index c (object ks)
    unfolding sse_line skip_spaces
    line-event ks c (d, w) =
        let text = emit show (object ks) [] in
        let (front, ne) = object_text ks in
        let taken_as : Bytes → Chat D I = λ s.
          if bytes_eq s (codes "[DONE]")
          then record c { done = true }
          else take_parsed to_int to_index strtod c (jv_parse strtod s) in
        let all : taken_as (skip_spaces text)
            ≡ take_parsed to_int to_index strtod c (jv_parse strtod text) =
          ap taken_as front
          ∙ ap
              (λ (b : Bool).
                if b
                then record c { done = true }
                else take_parsed to_int to_index strtod c (jv_parse strtod text))
              ne in
        all
        ∙ ap (take_parsed to_int to_index strtod c) (jv_parse-emit strtod show laws (object ks) d w)

    line_printable :
        (ks : Kids D) → is_printable (codes "data: " ++ emit show (object ks) []) ≡ true
    unfolding is_printable
    line_printable ks = emit-printable show plain (object ks) [] refl

    no_bytes : is_printable [] ≡ true
    unfolding is_printable
    no_bytes = refl

    line-nil : (c : Chat D I) → sse_line to_int to_index strtod c [] ≡ c
    unfolding sse_line
    line-nil c = refl

    line-done :
        (c : Chat D I)
        → sse_line to_int to_index strtod c (codes "data: [DONE]") ≡ record c { done = true }
    unfolding sse_line skip_spaces
    line-done c = refl

    done_printable : is_printable (codes "data: [DONE]") ≡ true
    unfolding is_printable
    done_printable = refl

    feed-event :
        (ks : Kids D) (c : Chat D I) (b r : Bytes)
        → IsEvent ks
        → feed (sink c [] b) (event show ks r)
          ≡ feed (sink (take_chunk to_int to_index c (object ks)) [] b) r
    feed-event ks c b r v =
        let c' = take_chunk to_int to_index c (object ks) in
        let w = codes "data: " ++ emit show (object ks) [] in
        feed-newline w (b'\n' ∷ r) c b (line_printable ks)
        ∙ ap (λ (x : Chat D I). feed (sink x [] b) (b'\n' ∷ r)) (line-event ks c v)
        ∙ feed-newline [] r c' b no_bytes
        ∙ ap (λ (x : Chat D I). feed (sink x [] b) r) (line-nil c')

    abbrev pub take_events : Chat D I → List (Kids D) → Chat D I
    take_events c [] = record c { done = true }
    take_events c (ks ∷ kss) = take_events (take_chunk to_int to_index c (object ks)) kss

    feed-nil : (k : Sink D I) → feed k [] ≡ k
    unfolding sink_bytes
    feed-nil k = refl

    feed-events :
        (kss : List (Kids D)) (c : Chat D I) (b : Bytes)
        → All IsEvent kss
        → feed (sink c [] b) (events show kss) ≡ sink (take_events c kss) [] b
    feed-events [] c b v =
        feed-newline (codes "data: [DONE]") [] c b done_printable
        ∙ ap (λ (x : Chat D I). feed (sink x [] b) []) (line-done c)
        ∙ feed-nil (sink (record c { done = true }) [] b)
    feed-events (ks ∷ kss) c b (v, vs) =
        feed-event ks c b (events show kss) v
        ∙ feed-events kss (take_chunk to_int to_index c (object ks)) b vs

    -- A stream of objects, one an event, each nested at most 64 deep, with the end mark behind them, that
    -- is delivered in any pieces: the client takes each object, in order, then sees the end mark, and its
    -- line is empty.
    pub sink_pieces-events :
        (kss : List (Kids D)) (ds : List Bytes) (c : Chat D I)
        → All IsEvent kss
        → joined ds ≡ events show kss
        → sink_pieces to_int to_index strtod (sink c [] []) ds
          ≡ sink (take_events c kss) [] (events show kss)
    sink_pieces-events kss ds c v e =
        pieces-feed ds (sink c [] [])
        ∙ ap (λ (d : Bytes). record (feed (sink c [] []) d) { whole_body = d }) e
        ∙ ap (λ (s : Sink D I). record s { whole_body = events show kss }) (feed-events kss c [] v)
