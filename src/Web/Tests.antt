-- ===== src/Web/Tests.antt =====
-- Runs of the browser tool, and the theorems at concrete values.
use preon_star.Base.{List, [], arith, codes, none, refl, some, true, ◌++◌, ◌∷◌, ◌≡◌, ◌≢◌}
use preon_star.Web.Frame.{Mask, fuel, message, ws_read_message, ws_send_text}
use preon_star.Web.Encode.{base64}
use preon_star.Web.Encode.Decoded.{base64_read, base64_read-base64}
use preon_star.Web.Frame.Ending.{ws_read_message-ne-fuel}
use preon_star.Web.Frame.Messages.{
  IsPayload, Piece, part, pieces_bytes, ping, ws_read_message-pieces, ws_read_message-ws_send_text,
}
use preon_star.Web.Frame.Reading.{frame_bytes}

abbrev mask : Mask
mask = record { m0 = 1; m1 = 2; m2 = 3; m3 = 255 }

abbrev pieces : List Piece
pieces = part 1 none (codes "he") ∷ ping (some mask) (codes "!") ∷ []

hi-IsPayload : IsPayload (codes "hi")
hi-IsPayload = ((omega arith, (omega arith, tt)), omega arith)

ws_read_message-pieces_example :
    ws_read_message
      (pieces_bytes pieces (frame_bytes true 0 (some mask) (codes "hi") (codes "rest")))
    ≡ message (codes "hehi") (codes "!" ∷ []) (codes "rest")
ws_read_message-pieces_example =
    ws_read_message-pieces pieces 0 (some mask) (codes "hi") (codes "rest")
      (
        (omega arith, ((omega arith, (omega arith, tt)), omega arith)),
        (((omega arith, tt), omega arith), tt),
      )
      (omega arith) hi-IsPayload

ws_read_message-ws_send_text_example :
    ws_read_message (ws_send_text mask (codes "hi") ++ codes "rest")
    ≡ message (codes "hi") [] (codes "rest")
ws_read_message-ws_send_text_example =
    ws_read_message-ws_send_text mask (codes "hi") (codes "rest") hi-IsPayload

ws_read_message-ne-fuel_example : ws_read_message (0x81 ∷ 126 ∷ 0 ∷ []) ≢ fuel
ws_read_message-ne-fuel_example = ws_read_message-ne-fuel (0x81 ∷ 126 ∷ 0 ∷ [])

base64_read-base64_example : base64_read (base64 (codes "abcd")) ≡ codes "abcd"
base64_read-base64_example =
    base64_read-base64 (codes "abcd") (omega arith, (omega arith, (omega arith, (omega arith, tt))))

base64_abcd : base64 (codes "abcd") ≡ codes "YWJjZA=="
unfolding base64
base64_abcd = refl
