-- ===== src/Remote/Tests.antt =====
-- Runs of the remote client, and the theorems at concrete values.
use preon_star.Base.{
  Bytes, Option, [], length, replicate, ap, append-nil, arith, codes, drop, if_intro, if◌then◌else◌,
  inl, inr, none, refl, some, take, take-append-drop, true, ℕ, ◌++◌, ◌+◌, ◌-◌, ◌==◌, ◌∙◌, ◌∷◌, ◌≡◌,
  ◌≢◌, ◌≤◌, ◌⊎◌,
}
use preon_star.Remote.Json.{Kids, array, fuel, jv_parse, kid, nil, object, ok, string}
use preon_star.Remote.Quote.{json_quote, parse_string}
use preon_star.Remote.Chunked.{feed_pieces, finished, size_line}
use preon_star.Remote.Chunked.Decoded.Pieces.{Chunk, IsChunk, feed_pieces-encode}
use preon_star.Remote.Chat.{Chat, take_chunk}
use preon_star.Remote.Chat.Client.{remote_chat, sink_pieces, status, zero_chat}
use preon_star.Remote.Chat.Kept.{remote_chat-IsTold}
use preon_star.Remote.Chat.Printable.{is_printable}
use preon_star.Remote.Chat.Stream.{IsEvent, events, sink_pieces-events}
use preon_star.Remote.Chat.Told.{IsTold}
use preon_star.Remote.Chunked.Decoded.{state}
use preon_star.Remote.Json.Ends.{Shorter, jv_parse-ne-fuel}
use preon_star.Remote.Json.RoundTrip.{jv_parse-emit}
use preon_star.Remote.Json.Text.{IsKeyed, ReadsNumbers, Stops, depth, emit}
use preon_star.Remote.Request.{RemoteUrl, bad_host, not_http, parse_url, request, request_head, url}
use preon_star.Remote.Quote.RoundTrip.{parse_string-json_quote}

-- numbers for the runs: the one number is written 1
data Number : Type 0 where
  one : Number

abbrev show : Number → Bytes
show one = b'1' ∷ []

abbrev strtod : Bytes → Option (Number × Bytes)
strtod [] = none
strtod (c ∷ s) = if c == b'1' then some (one, s) else none

strtod-ReadsNumbers : ReadsNumbers strtod show
strtod-ReadsNumbers = record { reads = reads_one; starts = starts_one }
  where
    reads_one : (d : Number) (r : Bytes) → Stops r → strtod (show d ++ r) ≡ some (d, r)
    reads_one one r h = refl

    starts_one :
        (d : Number)
        → (c : ℕ) × (t : Bytes) × (show d ≡ c ∷ t) × ((c ≡ b'-') ⊎ ((b'0' ≤ c) × (c ≤ b'9')))
    starts_one one = (b'1', [], refl, inr (omega arith, omega arith))

strtod-Shorter : (s : Bytes) → Shorter s (strtod s)
strtod-Shorter [] = tt
strtod-Shorter (c ∷ s) = if_intro (Shorter (c ∷ s)) (c == b'1') (omega arith) tt

show-plain : (d : Number) → is_printable (show d) ≡ true
unfolding is_printable
show-plain one = refl

-- a delta of content with a quote and a newline in it
abbrev hello : Bytes
hello = b'h' ∷ b'"' ∷ b'\n' ∷ b'i' ∷ []

abbrev delta : Kids Number
delta =
    kid (codes "choices")
      (array (
        kid []
          (object (kid (codes "delta") (object (kid (codes "content") (string hello) nil)) nil))
          nil))
      nil

parse_string-json_quote_example :
    parse_string (json_quote hello ++ codes ", 1") ≡ some (hello, codes ", 1")
parse_string-json_quote_example = parse_string-json_quote hello (codes ", 1")

delta-IsEvent : IsEvent delta
unfolding depth IsKeyed
delta-IsEvent = (omega arith, (inl refl, (inr refl, (inl refl, (inl refl, tt, tt), tt), tt), tt))

jv_parse-emit_example : jv_parse strtod (emit show (object delta) []) ≡ ok (object delta) []
jv_parse-emit_example =
    jv_parse-emit strtod show strtod-ReadsNumbers (object delta) delta-IsEvent.0 delta-IsEvent.1

jv_parse-ne-fuel_example : jv_parse strtod (codes "{\"a\": [1, tru") ≢ fuel
jv_parse-ne-fuel_example = jv_parse-ne-fuel strtod strtod-Shorter (codes "{\"a\": [1, tru")

abbrev strtoul : Bytes → ℕ
strtoul [] = 0
strtoul (c ∷ s) = c - b'0'

abbrev chunk : Chunk
chunk = record { digits = b'2' ∷ []; body = codes "hi" }

chunk-IsChunk : IsChunk strtoul chunk
chunk-IsChunk = record {
  size = (((refl, refl), tt), omega arith);
  read = refl;
  not_last = omega arith;
}

feed_pieces-encode_example :
    feed_pieces strtoul
      (state strtoul true size_line 0 [])
      (codes "2\r\nh" ∷ codes "i\r" ∷ codes "\n0\r\n\r\n" ∷ [])
    ≡ (state strtoul true finished 0 [], codes "hi")
feed_pieces-encode_example =
    feed_pieces-encode strtoul (chunk ∷ []) (codes "0") (codes "\r\n")
      (codes "2\r\nh" ∷ codes "i\r" ∷ codes "\n0\r\n\r\n" ∷ []) (chunk-IsChunk, tt)
      (((refl, refl), tt), omega arith) refl refl

abbrev to_int : Number → ℕ
to_int one = 1

abbrev to_index : Number → Option ℕ
to_index one = some 1

abbrev empty_chat : Chat Number ℕ
empty_chat = zero_chat one 0

abbrev stream : Bytes
stream = events show (delta ∷ [])

sink_pieces-events_example :
    sink_pieces to_int to_index strtod
      (record { chat = empty_chat; line = []; whole_body = [] })
      (take 20 stream ∷ drop 20 stream ∷ [])
    ≡ record {
      chat = record (take_chunk to_int to_index empty_chat (object delta)) { done = true };
      line = [];
      whole_body = stream;
    }
sink_pieces-events_example =
    sink_pieces-events to_int to_index strtod show show-plain strtod-ReadsNumbers (delta ∷ [])
      (take 20 stream ∷ drop 20 stream ∷ []) empty_chat (delta-IsEvent, tt)
      (ap (◌++◌ (take 20 stream)) (append-nil (drop 20 stream)) ∙ take-append-drop 20 stream)

remote_chat-IsTold_example :
    IsTold
      (remote_chat to_int to_index strtod
        (λ n. codes "200")
        one
        0
        (take 20 stream ∷ drop 20 stream ∷ [])
        (status 200 [])).1
remote_chat-IsTold_example =
    remote_chat-IsTold to_int to_index strtod (λ n. codes "200") one 0
      (take 20 stream ∷ drop 20 stream ∷ []) (status 200 [])

abbrev local_url : RemoteUrl
local_url = record { host = codes "pi.local"; port = codes "8000"; prefix = codes "/api" }

url_parts : parse_url (codes "http://pi.local:8000/api//") ≡ url local_url
unfolding parse_url
url_parts = refl

url_plain :
    parse_url (codes "http://h") ≡ url (record { host = codes "h"; port = codes "80"; prefix = [] })
unfolding parse_url
url_plain = refl

url_secure : parse_url (codes "https://h") ≡ not_http
unfolding parse_url
url_secure = refl

url_empty : parse_url (codes "http:///v1") ≡ bad_host
unfolding parse_url
url_empty = refl

-- a key of 600 bytes loses the end of its line, and the next header is part of the key
abbrev long_key : Bytes
long_key = replicate 600 b'k'

request-long_key :
    drop
      (length (request_head (codes "GET") local_url (codes "/m")) + 597)
      (request (λ _. []) local_url (some long_key) (codes "GET") (codes "/m") none)
    ≡ b'k' ∷ b'k' ∷ b'\r' ∷ b'\n' ∷ []
unfolding request
request-long_key = refl
