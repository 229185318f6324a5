-- ===== src/Remote/Request.antt =====
-- `parse_url` of p36_remote.c, and the request that `http_do` sends: the server's address, and the
-- bytes before the answer is read. How `%zu` prints a size is a parameter.
use preon_star.Base.{
  Bytes, Option, [], codes, drop, if◌then◌else◌, leb, length, none, not, some, starts_with, take, ℕ,
  ◌++◌, ◌==◌, ◌||◌, ◌∷◌,
}

-- `remote_url`
pub record RemoteUrl : Type 0 where
  pub host : Bytes
  pub port : Bytes
  pub prefix : Bytes

pub data ParsedUrl : Type 0 where
  url : RemoteUrl → ParsedUrl
  not_http : ParsedUrl
  bad_host : ParsedUrl

-- the bytes before the first `c`, and those behind it
unfoldable pub before : ℕ → Bytes → Bytes
before c [] = []
before c (d ∷ s) = let rest = before c s in if d == c then [] else d ∷ rest

unfoldable pub behind : ℕ → Bytes → Option Bytes
behind c [] = none
behind c (d ∷ s) = let rest = behind c s in if d == c then some s else rest

-- the loop that takes the slashes from the end
unfoldable pub trim_slashes : Bytes → Bytes
trim_slashes [] = []
trim_slashes (c ∷ s) =
    let rest = trim_slashes s in
    if c == b'/' then (if length rest == 0 then [] else c ∷ rest) else c ∷ rest

abbrev pub port_of : Option Bytes → Bytes
port_of none = codes "80"
port_of (some p) = take 15 p

abbrev pub prefix_of : Bytes → Bytes
prefix_of path = trim_slashes (take 255 path)

-- `parse_url`
unfoldable pub parse_url : Bytes → ParsedUrl
unfolding before behind trim_slashes starts_with
parse_url text =
    let h = drop 7 text in
    let authority = before b'/' h in
    let name = before b':' authority in
    if not (starts_with (codes "http://") text)
    then not_http
    else if length name == 0 || leb 256 (length name)
    then bad_host
    else url record {
      host = name;
      port = port_of (behind b':' authority);
      prefix = prefix_of (drop (length authority) h);
    }

abbrev pub crlf : Bytes
crlf = b'\r' ∷ b'\n' ∷ []

abbrev pub authorization : Option Bytes → Bytes
authorization none = []
authorization (some []) = []
authorization (some (c ∷ s)) = take 599 (codes "Authorization: Bearer " ++ (c ∷ s) ++ crlf)

abbrev pub content : (ℕ → Bytes) → Option Bytes → Bytes
content print_size none = []
content print_size (some body) = take 599 (
    codes "Content-Type: application/json"
    ++ crlf
    ++ codes "Content-Length: "
    ++ print_size (length body)
    ++ crlf)

abbrev pub body_bytes : Option Bytes → Bytes
body_bytes none = []
body_bytes (some body) = body

-- the first two lines and the two that are the same for every request
abbrev pub request_head : Bytes → RemoteUrl → Bytes → Bytes
request_head method u path = take 599 (
    method
    ++ codes " "
    ++ u.prefix
    ++ path
    ++ codes " HTTP/1.1"
    ++ crlf
    ++ codes "Host: "
    ++ u.host
    ++ codes ":"
    ++ u.port
    ++ crlf
    ++ codes "Connection: close"
    ++ crlf
    ++ codes "Accept: */*"
    ++ crlf)

-- what `http_do` sends
unfoldable pub request :
    (ℕ → Bytes) → RemoteUrl → Option Bytes → Bytes → Bytes → Option Bytes → Bytes
request print_size u api_key method path body =
    request_head method u path
    ++ authorization api_key
    ++ content print_size body
    ++ crlf
    ++ body_bytes body
