-- ===== src/Web/Frame/Messages.antt =====
-- A message is read from its frames, with other frames in between.
use preon_star.Base.{
  All, Bool, Bytes, List, Option, [], ap, append-nil, append_assoc, arith, false, if◌then◌else◌,
  length, length-append, none, refl, some, suc, sym, take, true, zero, ℕ, ◌&&◌, ◌++◌, ◌+◌, ◌<◌,
  ◌==◌, ◌||◌, ◌∙◌, ◌∷◌, ◌≡◌, ◌≤◌,
}
use preon_star.Web.Frame.{
  Frame, Mask, Received, closed, failed, frame, length_bytes, mask_bytes, masked, max_frame,
  message, oversized, read_failed, read_frame, read_message, too_large, ws_read_message,
  ws_send_text,
}
use preon_star.Web.Frame.Masking.{IsByte}
use preon_star.Web.Frame.Reading.{flag_of, frame_bytes, read_frame-frame_bytes}

-- the frames in front of a message's last: a part of its text, a ping, or a pong
pub data Piece : Type 0 where
  part : ℕ → Option Mask → Bytes → Piece
  ping : Option Mask → Bytes → Piece
  pong : Option Mask → Bytes → Piece

abbrev pub piece_bytes : Piece → Bytes → Bytes
piece_bytes (part opcode m p) r = frame_bytes false opcode m p r
piece_bytes (ping m p) r = frame_bytes true 9 m p r
piece_bytes (pong m p) r = frame_bytes true 10 m p r

abbrev pub pieces_bytes : List Piece → Bytes → Bytes
pieces_bytes [] r = r
pieces_bytes (x ∷ xs) r = piece_bytes x (pieces_bytes xs r)

abbrev pub text_of : List Piece → Bytes
text_of [] = []
text_of (part opcode m p ∷ xs) = p ++ text_of xs
text_of (ping m p ∷ xs) = text_of xs
text_of (pong m p ∷ xs) = text_of xs

abbrev pub pongs_of : List Piece → List Bytes
pongs_of [] = []
pongs_of (part opcode m p ∷ xs) = pongs_of xs
pongs_of (ping m p ∷ xs) = take 125 p ∷ pongs_of xs
pongs_of (pong m p ∷ xs) = pongs_of xs

abbrev pub IsPayload : Bytes → Type 0
IsPayload p = All IsByte p × (length p ≤ max_frame)

abbrev pub IsPiece : Piece → Type 0
IsPiece (part opcode m p) = (opcode < 2) × IsPayload p
IsPiece (ping m p) = IsPayload p
IsPiece (pong m p) = IsPayload p

abbrev pub round : ℕ → Bytes → List Bytes → Frame → Received
round f msg pongs too_large = oversized
round f msg pongs read_failed = failed
round f msg pongs (frame fin opcode payload rest) =
    let has_text = opcode == 1 || opcode == 0 in
    let msg' = if has_text then msg ++ payload else msg in
    let pongs' = if opcode == 9 then pongs ++ take 125 payload ∷ [] else pongs in
    let more = read_message f msg' pongs' rest in
    if opcode == 8 then closed else if has_text && fin then message msg' pongs' rest else more

pub read_message-round :
    (f : ℕ) (msg : Bytes) (pongs : List Bytes) (s : Bytes)
    → read_message (suc f) msg pongs s ≡ round f msg pongs (read_frame s)
unfolding read_message
read_message-round f msg pongs s = refl

part_code :
    (opcode : ℕ)
    → opcode < 2
    → ((opcode == 1 || opcode == 0) ≡ true) × ((opcode == 9) ≡ false) × ((opcode == 8) ≡ false)
part_code opcode h = (ground arith, ground arith, ground arith)

round-part :
    (f opcode : ℕ) (fin : Bool) (msg p r : Bytes) (pongs : List Bytes)
    → opcode < 2
    → round f msg pongs (frame fin opcode p r)
      ≡ (if fin then message (msg ++ p) pongs r else read_message f (msg ++ p) pongs r)
round-part f opcode true msg p r pongs h = let (a, b, c) = part_code opcode h in rw (a, b, c) refl
round-part f opcode false msg p r pongs h = let (a, b, c) = part_code opcode h in rw (a, b, c) refl

read_message-pieces :
    (xs : List Piece) (f opcode : ℕ) (m : Option Mask) (msg p r : Bytes) (pongs : List Bytes)
    → length xs < f
    → All IsPiece xs
    → opcode < 2
    → IsPayload p
    → read_message f msg pongs (pieces_bytes xs (frame_bytes true opcode m p r))
      ≡ message (msg ++ (text_of xs ++ p)) (pongs ++ pongs_of xs) r
read_message-pieces xs zero opcode m msg p r pongs l v o h = absurd (omega (arith, l))
read_message-pieces [] (suc f) opcode m msg p r pongs l v o (b, n) =
    read_message-round f msg pongs (frame_bytes true opcode m p r)
    ∙ ap (round f msg pongs) (read_frame-frame_bytes true opcode m p r (omega (arith, o)) b n)
    ∙ round-part f opcode true msg p r pongs o
    ∙ ap (λ (ps : List Bytes). message (msg ++ p) ps r) (sym (append-nil pongs))
read_message-pieces (part c m' q ∷ xs) (suc f) opcode m msg p r pongs l ((c2, (qb, qn)), v) o h =
    let rest = pieces_bytes xs (frame_bytes true opcode m p r) in
    read_message-round f msg pongs (frame_bytes false c m' q rest)
    ∙ ap (round f msg pongs) (read_frame-frame_bytes false c m' q rest (omega (arith, c2)) qb qn)
    ∙ round-part f c false msg q rest pongs c2
    ∙ read_message-pieces xs f opcode m (msg ++ q) p r pongs (omega (arith, l)) v o h
    ∙ ap (λ (t : Bytes). message t (pongs ++ pongs_of xs) r)
        (append_assoc msg q (text_of xs ++ p) ∙ ap (◌++◌ msg) (sym (append_assoc q (text_of xs) p)))
read_message-pieces (ping m' q ∷ xs) (suc f) opcode m msg p r pongs l ((qb, qn), v) o h =
    let rest = pieces_bytes xs (frame_bytes true opcode m p r) in
    read_message-round f msg pongs (frame_bytes true 9 m' q rest)
    ∙ ap (round f msg pongs) (read_frame-frame_bytes true 9 m' q rest (omega arith) qb qn)
    ∙ read_message-pieces xs f opcode m msg p r (pongs ++ take 125 q ∷ []) (omega (arith, l)) v o h
    ∙ ap (λ (ps : List Bytes). message (msg ++ (text_of xs ++ p)) ps r)
        (append_assoc pongs (take 125 q ∷ []) (pongs_of xs))
read_message-pieces (pong m' q ∷ xs) (suc f) opcode m msg p r pongs l ((qb, qn), v) o h =
    let rest = pieces_bytes xs (frame_bytes true opcode m p r) in
    read_message-round f msg pongs (frame_bytes true 10 m' q rest)
    ∙ ap (round f msg pongs) (read_frame-frame_bytes true 10 m' q rest (omega arith) qb qn)
    ∙ read_message-pieces xs f opcode m msg p r pongs (omega (arith, l)) v o h

frame_bytes-lt :
    (fin : Bool) (opcode : ℕ) (m : Option Mask) (p r : Bytes)
    → length r < length (frame_bytes fin opcode m p r)
frame_bytes-lt fin opcode none p r =
    omega
      (arith, length-append (length_bytes (flag_of false) (length p)) (p ++ r), length-append p r)
frame_bytes-lt fin opcode (some m) p r = omega (
  arith,
  length-append (length_bytes (flag_of true) (length p)) (mask_bytes m ++ (masked m p ++ r)),
  length-append (masked m p) r,
)

length-pieces_bytes :
    (xs : List Piece) (r : Bytes) → length xs + length r ≤ length (pieces_bytes xs r)
length-pieces_bytes [] r = omega arith
length-pieces_bytes (part c m q ∷ xs) r =
    omega (arith, length-pieces_bytes xs r, frame_bytes-lt false c m q (pieces_bytes xs r))
length-pieces_bytes (ping m q ∷ xs) r =
    omega (arith, length-pieces_bytes xs r, frame_bytes-lt true 9 m q (pieces_bytes xs r))
length-pieces_bytes (pong m q ∷ xs) r =
    omega (arith, length-pieces_bytes xs r, frame_bytes-lt true 10 m q (pieces_bytes xs r))

-- A message in any number of text frames with pings and pongs in between, each frame at most 4 MiB and
-- with a mask or without: the text is what its frames hold, in order, every ping is answered with at
-- most its first 125 bytes, and reading stops behind the last frame.
pub ws_read_message-pieces :
    (xs : List Piece) (opcode : ℕ) (m : Option Mask) (p r : Bytes)
    → All IsPiece xs
    → opcode < 2
    → IsPayload p
    → ws_read_message (pieces_bytes xs (frame_bytes true opcode m p r))
      ≡ message (text_of xs ++ p) (pongs_of xs) r
unfolding ws_read_message
ws_read_message-pieces xs opcode m p r v o h =
    let s = pieces_bytes xs (frame_bytes true opcode m p r) in
    read_message-pieces xs (suc (length s)) opcode m [] p r []
      (omega (arith, length-pieces_bytes xs (frame_bytes true opcode m p r))) v o h

-- What this client sends as a text of at most 4 MiB is read back by its own reader.
pub ws_read_message-ws_send_text :
    (m : Mask) (text r : Bytes)
    → IsPayload text
    → ws_read_message (ws_send_text m text ++ r) ≡ message text [] r
ws_read_message-ws_send_text m text r h =
    ap ws_read_message (sent m text r)
    ∙ ws_read_message-pieces [] 1 (some m) text r tt (omega arith) h
  where
    sent :
        (m : Mask) (text r : Bytes) → ws_send_text m text ++ r ≡ frame_bytes true 1 (some m) text r
    sent m text r =
        let a = append_assoc (length_bytes 0x80 (length text)) (mask_bytes m ++ masked m text) r in
        unfold ws_send_text in ap (◌∷◌ 0x81) (a ∙ ap (◌++◌ (length_bytes 0x80 (length text))) refl)
