-- ===== src/Web/Frame.antt =====
-- The frames of the websocket: `web_ws_send_text`, `web_ws_send_pong` and `web_ws_read_message`. The
-- connection is the bytes that arrive until it fails or its time is over; the masks are random.
pub mod Masking
pub mod Reading
pub mod Messages
pub mod Ending
use preon_star.Base.{
  Bool, Bytes, List, [], drop, false, get_or, if◌then◌else◌, leb, length, ltb, suc, take, true,
  zero, ℕ, ◌%◌, ◌&&◌, ◌*◌, ◌++◌, ◌+◌, ◌/◌, ◌==◌, ◌^◌, ◌||◌, ◌∷◌,
}

-- `^` of numbers of `n` bits
abbrev pub differ : ℕ → ℕ → ℕ
differ x y = if x == y then 0 else 1

unfoldable pub xor_bits : ℕ → ℕ → ℕ → ℕ
xor_bits zero x y = 0
xor_bits (suc n) x y = differ (x % 2) (y % 2) + 2 * xor_bits n (x / 2) (y / 2)

abbrev pub byte_xor : ℕ → ℕ → ℕ
byte_xor = xor_bits 8

-- `mask`, from the byte on that is next
pub record Mask : Type 0 where
  pub m0 : ℕ
  pub m1 : ℕ
  pub m2 : ℕ
  pub m3 : ℕ

abbrev pub turned : Mask → Mask
turned m = record { m0 = m.m1; m1 = m.m2; m2 = m.m3; m3 = m.m0 }

abbrev pub mask_bytes : Mask → Bytes
mask_bytes m = m.m0 ∷ m.m1 ∷ m.m2 ∷ m.m3 ∷ []

-- the loops that mask the payload
unfoldable pub masked : Mask → Bytes → Bytes
unfolding xor_bits
masked m [] = []
masked m (x ∷ s) = byte_xor x m.m0 ∷ masked (turned m) s

-- `n` bytes of a number, the high ones first
abbrev pub be_put : ℕ → ℕ → Bytes
be_put zero v = []
be_put (suc n) v = v / 256 ^ n % 256 ∷ be_put n v

abbrev pub be_get : ℕ → Bytes → ℕ
be_get v [] = v
be_get v (x ∷ s) = be_get (v * 256 + x) s

-- the length in a frame's header, with the bit 0x80 of the mask or without
unfoldable pub length_bytes : ℕ → ℕ → Bytes
length_bytes flag len =
    if ltb len 126
    then (flag + len) ∷ []
    else if leb len 0xffff
    then (flag + 126) ∷ be_put 2 len
    else (flag + 127) ∷ be_put 8 len

-- `web_ws_send_text`: the bytes that are written
unfoldable pub ws_send_text : Mask → Bytes → Bytes
unfolding length_bytes masked
ws_send_text m text = 0x81 ∷ (length_bytes 0x80 (length text) ++ (mask_bytes m ++ masked m text))

-- `web_ws_send_pong`
unfoldable pub ws_send_pong : Mask → Bytes → Bytes
unfolding masked
ws_send_pong m payload =
    let len = if ltb 125 (length payload) then 125 else length payload in
    0x8a ∷ (0x80 + len) ∷ (mask_bytes m ++ masked m (take len payload))

-- `P36_WEB_MAX_RESULT_BYTES * 4`
abbrev pub max_frame : ℕ
max_frame = 1024 * 1024 * 4

-- one frame, and the bytes behind it; the bytes may end first, or the payload be too large
pub data Frame : Type 0 where
  frame : Bool → ℕ → Bytes → Bytes → Frame
  too_large : Frame
  read_failed : Frame

-- `web_read_exact`
abbrev pub read_exact : {A : Type 0} → ℕ → Bytes → A → (Bytes → Bytes → A) → A
read_exact n s failed k = if ltb (length s) n then failed else k (take n s) (drop n s)

abbrev pub mask_of : Bytes → Mask
mask_of x = record { m0 = get_or x 0 0; m1 = get_or x 1 0; m2 = get_or x 2 0; m3 = get_or x 3 0 }

-- the payload, behind the mask
unfoldable pub read_payload : Bool → ℕ → ℕ → (Bytes → Bytes) → Bytes → Frame
read_payload fin opcode len unmask s =
    if ltb max_frame len
    then too_large
    else read_exact len s read_failed λ payload rest. frame fin opcode (unmask payload) rest

-- the mask, behind the length
unfoldable pub read_mask : Bool → ℕ → Bool → ℕ → Bytes → Frame
unfolding read_payload masked
read_mask fin opcode true len s =
    read_exact 4 s read_failed λ x rest. read_payload fin opcode len (masked (mask_of x)) rest
read_mask fin opcode false len s = read_payload fin opcode len (λ (p : Bytes). p) s

-- the length's own bytes
unfoldable pub read_length : Bool → ℕ → Bool → ℕ → Bytes → Frame
unfolding read_mask
read_length fin opcode has_mask len s =
    if len == 126
    then read_exact 2 s read_failed (λ x rest. read_mask fin opcode has_mask (be_get 0 x) rest)
    else if len == 127
    then read_exact 8 s read_failed (λ x rest. read_mask fin opcode has_mask (be_get 0 x) rest)
    else read_mask fin opcode has_mask len s

-- one round of the loop of `web_ws_read_message`, up to the payload
unfoldable pub read_frame : Bytes → Frame
unfolding read_length
read_frame (h0 ∷ h1 ∷ s) = read_length (leb 0x80 h0) (h0 % 16) (leb 0x80 h1) (h1 % 128) s
read_frame _ = read_failed

-- the message with the bytes behind it; `pongs` are the payloads that were sent back. `fuel` is the
-- model's own.
pub data Received : Type 0 where
  message : Bytes → List Bytes → Bytes → Received
  closed : Received
  oversized : Received
  failed : Received
  fuel : Received

-- `web_ws_read_message`, with what the message and the pongs are so far
unfoldable pub read_message : ℕ → Bytes → List Bytes → Bytes → Received
unfolding read_frame
read_message zero msg pongs s = fuel
read_message (suc f) msg pongs s = elim (read_frame s) [
  | too_large ↦ oversized
  | read_failed ↦ failed
  | frame fin opcode payload rest ↦
      let has_text = opcode == 1 || opcode == 0 in
      let msg' = if has_text then msg ++ payload else msg in
      let pongs' = if opcode == 9 then pongs ++ take 125 payload ∷ [] else pongs in
      let more = read_message f msg' pongs' rest in
      if opcode == 8 then closed else if has_text && fin then message msg' pongs' rest else more
]

-- a round takes two bytes at least
unfoldable pub ws_read_message : Bytes → Received
unfolding read_message
ws_read_message s = read_message (suc (length s)) [] [] s
