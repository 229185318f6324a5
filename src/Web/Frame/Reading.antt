-- ===== src/Web/Frame/Reading.antt =====
-- A frame that is written is read back.
use preon_star.Base.{
  All, Bool, Bytes, Option, ap, ap₂, arith, drop, drop-length_append, false, if_cases,
  if◌then◌else◌, leb, leb→le, length, length-append, le→leb, le→ltb, ltb, ltb→lt, none, refl, some,
  sym, take, take-length_append, true, ℕ, ◌%◌, ◌++◌, ◌+◌, ◌<◌, ◌==◌, ◌^◌, ◌∙◌, ◌∷◌, ◌≡◌, ◌≤◌,
}
use preon_star.Web.Frame.{
  Frame, Mask, be_get, be_put, frame, length_bytes, mask_bytes, mask_of, masked, max_frame,
  read_exact, read_failed, read_frame, read_length, read_mask, read_payload, too_large,
}
use preon_star.Web.Frame.Masking.{IsByte, length-masked, masked-masked}

abbrev pub first_of : Bool → ℕ → ℕ
first_of fin opcode = if fin then 0x80 + opcode else opcode

abbrev pub flag_of : Bool → ℕ
flag_of has_mask = if has_mask then 0x80 else 0

-- a frame of a server or of this client: with a mask or without
abbrev pub frame_bytes : Bool → ℕ → Option Mask → Bytes → Bytes → Bytes
frame_bytes fin opcode none payload r =
    first_of fin opcode ∷ (length_bytes (flag_of false) (length payload) ++ (payload ++ r))
frame_bytes fin opcode (some m) payload r =
    first_of fin opcode
    ∷ (length_bytes (flag_of true) (length payload) ++ (mask_bytes m ++ (masked m payload ++ r)))

be_get-be_put_2 : (v : ℕ) → v < 2 ^ 16 → be_get 0 (be_put 2 v) ≡ v
be_get-be_put_2 v h = omega arith

be_get-be_put_8 : (v : ℕ) → v < 2 ^ 64 → be_get 0 (be_put 8 v) ≡ v
be_get-be_put_8 v h = omega arith

first_byte :
    (fin : Bool) (opcode : ℕ)
    → opcode < 16
    → (leb 0x80 (first_of fin opcode) ≡ fin) × (first_of fin opcode % 16 ≡ opcode)
first_byte true opcode h = (le→leb 0x80 (0x80 + opcode) (omega arith), omega arith)
first_byte false opcode h = (ground arith, omega arith)

second_byte :
    (has_mask : Bool) (n : ℕ)
    → n < 128
    → (leb 0x80 (flag_of has_mask + n) ≡ has_mask) × ((flag_of has_mask + n) % 128 ≡ n)
second_byte true n h = (le→leb 0x80 (0x80 + n) (omega arith), omega arith)
second_byte false n h = (ground arith, omega arith)

read_exact_append :
    {A : Type 0} (n : ℕ) (a r : Bytes) (e : A) (k : Bytes → Bytes → A)
    → length a ≡ n
    → read_exact n (a ++ r) e k ≡ k a r
read_exact_append n a r e k h =
    let long : ltb (length (a ++ r)) n ≡ false =
      le→ltb (length (a ++ r)) n (omega (arith, h, length-append a r)) in
    let front : take n (a ++ r) ≡ a =
      ap (λ (i : ℕ). take i (a ++ r)) (sym h) ∙ take-length_append a r in
    let back : drop n (a ++ r) ≡ r =
      ap (λ (i : ℕ). drop i (a ++ r)) (sym h) ∙ drop-length_append a r in
    ap (λ (b : Bool). if b then e else k (take n (a ++ r)) (drop n (a ++ r))) long
    ∙ ap₂ k front back

-- the two first bytes are read
read_frame_opened :
    (fin : Bool) (opcode : ℕ) (has_mask : Bool) (n : ℕ) (r : Bytes)
    → opcode < 16
    → n < 128
    → read_frame (first_of fin opcode ∷ (flag_of has_mask + n) ∷ r)
      ≡ read_length fin opcode has_mask n r
unfolding read_frame
read_frame_opened fin opcode has_mask n r ho hn =
    let (f, o) = first_byte fin opcode ho in
    let (m, l) = second_byte has_mask n hn in
    ap₂
      (λ (a : Bool) (b : ℕ).
        read_length a b (leb 0x80 (flag_of has_mask + n)) ((flag_of has_mask + n) % 128) r)
      f o
    ∙ ap₂ (λ (a : Bool) (b : ℕ). read_length fin opcode a b r) m l

read_length-short :
    (fin : Bool) (opcode : ℕ) (has_mask : Bool) (n : ℕ) (r : Bytes)
    → n < 126
    → read_length fin opcode has_mask n r ≡ read_mask fin opcode has_mask n r
unfolding read_length
read_length-short fin opcode has_mask n r h = let (a, b) = small n h in rw (a, b) refl
  where
    small : (n : ℕ) → n < 126 → ((n == 126) ≡ false) × ((n == 127) ≡ false)
    small n h = (ground arith, ground arith)

read_length-word :
    (fin : Bool) (opcode : ℕ) (has_mask : Bool) (len : ℕ) (r : Bytes)
    → len < 2 ^ 16
    → read_length fin opcode has_mask 126 (be_put 2 len ++ r) ≡ read_mask fin opcode has_mask len r
unfolding read_length
read_length-word fin opcode has_mask len r h =
    read_exact_append 2 (be_put 2 len) r read_failed
      (λ x rest. read_mask fin opcode has_mask (be_get 0 x) rest) refl
    ∙ ap (λ (n : ℕ). read_mask fin opcode has_mask n r) (be_get-be_put_2 len h)

read_length-long :
    (fin : Bool) (opcode : ℕ) (has_mask : Bool) (len : ℕ) (r : Bytes)
    → len < 2 ^ 64
    → read_length fin opcode has_mask 127 (be_put 8 len ++ r) ≡ read_mask fin opcode has_mask len r
unfolding read_length
read_length-long fin opcode has_mask len r h =
    read_exact_append 8 (be_put 8 len) r read_failed
      (λ x rest. read_mask fin opcode has_mask (be_get 0 x) rest) refl
    ∙ ap (λ (n : ℕ). read_mask fin opcode has_mask n r) (be_get-be_put_8 len h)

-- the length's bytes are read, and the mask or the payload begins behind them
read_frame-length_bytes :
    (fin : Bool) (opcode len : ℕ) (has_mask : Bool) (r : Bytes)
    → opcode < 16
    → len < 2 ^ 64
    → read_frame (first_of fin opcode ∷ (length_bytes (flag_of has_mask) len ++ r))
      ≡ read_mask fin opcode has_mask len r
unfolding length_bytes
read_frame-length_bytes fin opcode len has_mask r ho h =
    let front = first_of fin opcode in
    let flag = flag_of has_mask in
    let P : Bytes → Type 0 =
      λ b. read_frame (front ∷ (b ++ r)) ≡ read_mask fin opcode has_mask len r in
    if_cases P (ltb len 126)
      (λ e.
        let l = ltb→lt len 126 e in
        read_frame_opened fin opcode has_mask len r ho (omega (arith, l))
        ∙ read_length-short fin opcode has_mask len r l)
      (λ e.
        if_cases P (leb len 0xffff)
          (λ e'.
            read_frame_opened fin opcode has_mask 126 (be_put 2 len ++ r) ho (omega arith)
            ∙ read_length-word fin opcode has_mask len r (omega (arith, leb→le len 0xffff e')))
          (λ e'.
            read_frame_opened fin opcode has_mask 127 (be_put 8 len ++ r) ho (omega arith)
            ∙ read_length-long fin opcode has_mask len r h))

read_payload-append :
    (fin : Bool) (opcode : ℕ) (unmask : Bytes → Bytes) (p r : Bytes)
    → length p ≤ max_frame
    → read_payload fin opcode (length p) unmask (p ++ r) ≡ frame fin opcode (unmask p) r
unfolding read_payload
read_payload-append fin opcode unmask p r h =
    let k : Bytes → Bytes → Frame = λ payload rest. frame fin opcode (unmask payload) rest in
    ap (λ (b : Bool). if b then too_large else read_exact (length p) (p ++ r) read_failed k)
      (le→ltb max_frame (length p) h)
    ∙ read_exact_append (length p) p r read_failed k refl

read_mask-masked :
    (fin : Bool) (opcode : ℕ) (m : Mask) (p r : Bytes)
    → All IsByte p
    → length p ≤ max_frame
    → read_mask fin opcode true (length p) (mask_bytes m ++ (masked m p ++ r))
      ≡ frame fin opcode p r
unfolding read_mask
read_mask-masked fin opcode m p r b h =
    let size : length (masked m p) ≡ length p = length-masked m p in
    let front : read_mask fin opcode true (length p) (mask_bytes m ++ (masked m p ++ r))
        ≡ read_payload fin opcode (length p) (masked m) (masked m p ++ r) =
      read_exact_append 4 (mask_bytes m) (masked m p ++ r) read_failed
        (λ x rest. read_payload fin opcode (length p) (masked (mask_of x)) rest) refl in
    front
    ∙ ap (λ (n : ℕ). read_payload fin opcode n (masked m) (masked m p ++ r)) (sym size)
    ∙ read_payload-append fin opcode (masked m) (masked m p) r (omega (arith, size, h))
    ∙ ap (λ (q : Bytes). frame fin opcode q r) (masked-masked m p b)

read_mask-plain :
    (fin : Bool) (opcode : ℕ) (p r : Bytes)
    → length p ≤ max_frame
    → read_mask fin opcode false (length p) (p ++ r) ≡ frame fin opcode p r
unfolding read_mask
read_mask-plain fin opcode p r h = read_payload-append fin opcode (λ (q : Bytes). q) p r h

-- A frame of at most 4 MiB, with a mask or without, is read back with its flag, its code and its
-- payload, and reading stops behind it.
pub read_frame-frame_bytes :
    (fin : Bool) (opcode : ℕ) (mask : Option Mask) (payload r : Bytes)
    → opcode < 16
    → All IsByte payload
    → length payload ≤ max_frame
    → read_frame (frame_bytes fin opcode mask payload r) ≡ frame fin opcode payload r
read_frame-frame_bytes fin opcode none payload r ho b h =
    read_frame-length_bytes fin opcode (length payload) false (payload ++ r) ho (omega (arith, h))
    ∙ read_mask-plain fin opcode payload r h
read_frame-frame_bytes fin opcode (some m) payload r ho b h =
    read_frame-length_bytes fin opcode (length payload) true
      (mask_bytes m ++ (masked m payload ++ r)) ho (omega (arith, h))
    ∙ read_mask-masked fin opcode m payload r b h
