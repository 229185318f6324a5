-- ===== src/Web/Frame/Ending.antt =====
-- Reading a message ends.
use preon_star.Base.{
  Bool, Bytes, List, [], arith, drop, false, if_intro, if◌then◌else◌, leb, length, length-drop, ltb,
  subst, suc, sym, take, true, zero, ℕ, ◌%◌, ◌&&◌, ◌++◌, ◌<◌, ◌==◌, ◌||◌, ◌∷◌, ◌≢◌, ◌≤◌,
}
use preon_star.Web.Frame.{
  Frame, Received, be_get, frame, fuel, mask_of, masked, max_frame, read_exact, read_failed,
  read_frame, read_length, read_mask, read_message, read_payload, too_large, ws_read_message,
}
use preon_star.Web.Frame.Messages.{read_message-round, round}

-- a frame leaves fewer bytes than `n`
abbrev Leaves : ℕ → Frame → Type 0
Leaves n too_large = Unit
Leaves n read_failed = Unit
Leaves n (frame fin opcode payload rest) = length rest < n

read_exact-Leaves :
    (n m : ℕ) (s : Bytes) (k : Bytes → Bytes → Frame)
    → ((x rest : Bytes) → length rest ≤ length s → Leaves m (k x rest))
    → Leaves m (read_exact n s read_failed k)
read_exact-Leaves n m s k h =
    if_intro (Leaves m) (ltb (length s) n) tt
      (h (take n s) (drop n s) (omega (arith, length-drop n s)))

read_payload-Leaves :
    (m : ℕ) (fin : Bool) (opcode len : ℕ) (unmask : Bytes → Bytes) (s : Bytes)
    → length s < m
    → Leaves m (read_payload fin opcode len unmask s)
unfolding read_payload
read_payload-Leaves m fin opcode len unmask s h = if_intro (Leaves m) (ltb max_frame len) tt (
    read_exact-Leaves len m s (λ payload rest. frame fin opcode (unmask payload) rest)
      (λ x rest l. omega (arith, l, h)))

read_mask-Leaves :
    (m : ℕ) (fin : Bool) (opcode : ℕ) (has_mask : Bool) (len : ℕ) (s : Bytes)
    → length s < m
    → Leaves m (read_mask fin opcode has_mask len s)
unfolding read_mask
read_mask-Leaves m fin opcode true len s h =
    read_exact-Leaves 4 m s (λ x rest. read_payload fin opcode len (masked (mask_of x)) rest)
      (λ x rest l.
        read_payload-Leaves m fin opcode len (masked (mask_of x)) rest (omega (arith, l, h)))
read_mask-Leaves m fin opcode false len s h =
    read_payload-Leaves m fin opcode len (λ (p : Bytes). p) s h

read_length-Leaves :
    (m : ℕ) (fin : Bool) (opcode : ℕ) (has_mask : Bool) (len : ℕ) (s : Bytes)
    → length s < m
    → Leaves m (read_length fin opcode has_mask len s)
unfolding read_length
read_length-Leaves m fin opcode has_mask len s h =
    let k : Bytes → Bytes → Frame = λ x rest. read_mask fin opcode has_mask (be_get 0 x) rest in
    let more : (x rest : Bytes) → length rest ≤ length s → Leaves m (k x rest) =
      λ x rest l. read_mask-Leaves m fin opcode has_mask (be_get 0 x) rest (omega (arith, l, h)) in
    if_intro (Leaves m) (len == 126) (read_exact-Leaves 2 m s k more) (
      if_intro (Leaves m) (len == 127) (read_exact-Leaves 8 m s k more)
        (read_mask-Leaves m fin opcode has_mask len s h))

read_frame-Leaves : (s : Bytes) → Leaves (length s) (read_frame s)
unfolding read_frame
read_frame-Leaves [] = tt
read_frame-Leaves (h0 ∷ []) = tt
read_frame-Leaves (h0 ∷ h1 ∷ s) =
    read_length-Leaves (suc (suc (length s))) (leb 0x80 h0) (h0 % 16) (leb 0x80 h1) (h1 % 128) s
      (omega arith)

abbrev IsDone : Received → Type 0
IsDone r = r ≢ fuel

round-IsDone :
    (f m : ℕ) (msg : Bytes) (pongs : List Bytes) (x : Frame)
    → Leaves m x
    → m ≤ f
    → ((msg' : Bytes) (pongs' : List Bytes) (s : Bytes)
        → length s < f
        → IsDone (read_message f msg' pongs' s))
    → IsDone (round f msg pongs x)
round-IsDone f m msg pongs too_large h l ih = λ e. cc e
round-IsDone f m msg pongs read_failed h l ih = λ e. cc e
round-IsDone f m msg pongs (frame fin opcode payload rest) h l ih =
    let has_text = opcode == 1 || opcode == 0 in
    let msg' = if has_text then msg ++ payload else msg in
    let pongs' = if opcode == 9 then pongs ++ take 125 payload ∷ [] else pongs in
    if_intro IsDone (opcode == 8) (λ e. cc e)
      (if_intro IsDone (has_text && fin) (λ e. cc e) (ih msg' pongs' rest (omega (arith, h, l))))

read_message-ne-fuel :
    (f : ℕ) (msg : Bytes) (pongs : List Bytes) (s : Bytes)
    → length s < f
    → IsDone (read_message f msg pongs s)
read_message-ne-fuel zero msg pongs s h = absurd (omega (arith, h))
read_message-ne-fuel (suc f) msg pongs s h = subst IsDone (sym (read_message-round f msg pongs s)) (
    round-IsDone f (length s) msg pongs (read_frame s) (read_frame-Leaves s) (omega (arith, h))
      (read_message-ne-fuel f))

-- Reading a message from any bytes ends, with a message or an error.
pub ws_read_message-ne-fuel : (s : Bytes) → ws_read_message s ≢ fuel
unfolding ws_read_message
ws_read_message-ne-fuel s = read_message-ne-fuel (suc (length s)) [] [] s (omega arith)
