-- ===== src/KvStore/Sha1/Absorb.antt =====
-- `sha1_update` takes a text in pieces as it takes it whole, and the padding ends.
use preon_star.Base.{
  Bool-cases, Bytes, [], ap, append-nil, append_assoc, arith, drop, if◌then◌else◌, inl, inr, length,
  length-append, length-drop, length-take, refl, suc, sym, take, take-append-drop, zero, ℕ, ◌%◌,
  ◌++◌, ◌+◌, ◌-◌, ◌<◌, ◌==◌, ◌^◌, ◌∙◌, ◌∷◌, ◌≡◌, ◌≤◌,
}
use preon_star.KvStore.Sha1.{Context, fill, transform, update, used}

-- a block that has got more bytes: transformed if it is full
abbrev settle : Context → Bytes → Context
settle c block =
    if length block == 64
    then record c { chain = transform c.chain block; block = [] }
    else record c { block = block }

-- byte by byte
absorb : Context → Bytes → Context
absorb c [] = c
absorb c (x ∷ p) = absorb (settle c (c.block ++ x ∷ [])) p

absorb-append : (p q : Bytes) (c : Context) → absorb c (p ++ q) ≡ absorb (absorb c p) q
unfolding absorb
absorb-append [] q c = refl
absorb-append (x ∷ p) q c = absorb-append p q (settle c (c.block ++ x ∷ []))

settle-room : (c : Context) (block : Bytes) → length block ≤ 64 → length (settle c block).block < 64
settle-room c block h = ground arith

settle-short :
    (c : Context) (block : Bytes) → length block < 64 → settle c block ≡ record c { block = block }
settle-short c block h = ground arith

-- bytes that fit the block may be added at once
absorb-settle :
    (p : Bytes) (c : Context)
    → length c.block < 64
    → length c.block + length p ≤ 64
    → absorb c p ≡ settle c (c.block ++ p)
unfolding absorb
absorb-settle [] c room fits =
    sym (ap (settle c) (append-nil c.block) ∙ settle-short c c.block room)
absorb-settle (x ∷ []) c room fits = refl
absorb-settle (x ∷ y ∷ p) c room fits =
    let l : length (c.block ++ x ∷ []) ≡ length c.block + 1 = length-append c.block (x ∷ []) in
    let s : settle c (c.block ++ x ∷ []) ≡ record c { block = c.block ++ x ∷ [] } =
      settle-short c (c.block ++ x ∷ []) (omega arith) in
    ap (λ d. absorb d (y ∷ p)) s
    ∙ absorb-settle (y ∷ p) (record c { block = c.block ++ x ∷ [] }) (omega arith) (omega arith)
    ∙ ap (settle c) (append_assoc c.block (x ∷ []) (y ∷ p))

fill-absorb :
    (f : ℕ) (c : Context) (p : Bytes) → length c.block < 64 → length p ≤ f → fill f c p ≡ absorb c p
unfolding fill absorb
fill-absorb zero c [] room h = refl
fill-absorb zero c (x ∷ p) room h = absurd (omega arith)
fill-absorb (suc f) c [] room h = refl
fill-absorb (suc f) c (x ∷ p) room h =
    let n = 64 - length c.block in
    let t = take n (x ∷ p) in
    let fits : length c.block + length t ≤ 64 = omega (arith, length-take n (x ∷ p)) in
    fill-absorb f (settle c (c.block ++ t)) (drop n (x ∷ p))
      (settle-room c (c.block ++ t) (omega (arith, length-append c.block t, fits)))
      (omega (arith, length-drop n (x ∷ p), room, h))
    ∙ ap (λ d. absorb d (drop n (x ∷ p))) (sym (absorb-settle t c room fits))
    ∙ sym (absorb-append t (drop n (x ∷ p)) c)
    ∙ ap (absorb c) (take-append-drop n (x ∷ p))

settle-bytes :
    (c : Context) (block : Bytes) (n : ℕ)
    → settle (record c { bytes = n }) block ≡ record (settle c block) { bytes = n }
settle-bytes c block n = elim (Bool-cases (length block == 64)) [
  | inl full ↦ rw full refl
  | inr part ↦ rw part refl
]

-- the count of bytes has no part in it
absorb-bytes :
    (p : Bytes) (c : Context) (n : ℕ)
    → absorb (record c { bytes = n }) p ≡ record (absorb c p) { bytes = n }
unfolding absorb
absorb-bytes [] c n = refl
absorb-bytes (x ∷ p) c n =
    ap (λ d. absorb d p) (settle-bytes c (c.block ++ x ∷ []) n)
    ∙ absorb-bytes p (settle c (c.block ++ x ∷ [])) n

absorb-room : (p : Bytes) (c : Context) → length c.block < 64 → length (absorb c p).block < 64
unfolding absorb
absorb-room [] c room = room
absorb-room (x ∷ p) c room =
    absorb-room p (settle c (c.block ++ x ∷ []))
      (settle-room c (c.block ++ x ∷ []) (omega (arith, length-append c.block (x ∷ []), room)))

-- an update takes its bytes one by one
update-absorb :
    (c : Context) (p : Bytes)
    → used c < 64
    → update c p ≡ record (absorb c p) { bytes = (c.bytes + length p) % 2 ^ 64 }
unfolding update
update-absorb c p room =
    fill-absorb (length p) (record c { bytes = (c.bytes + length p) % 2 ^ 64 }) p room (omega arith)
    ∙ absorb-bytes p c ((c.bytes + length p) % 2 ^ 64)

-- A text that is given in two pieces, however they fall on the blocks of 64 bytes, leaves the
-- context as the whole text does, where the context has room in its block; and it has room again.
pub update-append :
    (c : Context) (a b : Bytes)
    → used c < 64
    → (update (update c a) b ≡ update c (a ++ b)) × (used (update c a) < 64)
update-append c a b room =
    let m = (c.bytes + length a) % 2 ^ 64 in
    let ra : used (update c a) < 64 = rw (update-absorb c a room) (absorb-room a c room) in
    let count : (m + length b) % 2 ^ 64 ≡ (c.bytes + length (a ++ b)) % 2 ^ 64 =
      omega (arith, length-append a b) in
    let counted : Context → ℕ → Context = λ d n. record d { bytes = n } in
    let whole : update (update c a) b ≡ update c (a ++ b) =
      update-absorb (update c a) b ra
      ∙ ap (λ (d : Context). counted (absorb d b) ((d.bytes + length b) % 2 ^ 64))
          (update-absorb c a room)
      ∙ ap (λ (d : Context). counted d ((m + length b) % 2 ^ 64)) (absorb-bytes b (absorb c a) m)
      ∙ ap (λ (n : ℕ). counted (absorb (absorb c a) b) n) count
      ∙ ap (λ (d : Context). counted d ((c.bytes + length (a ++ b)) % 2 ^ 64))
          (sym (absorb-append a b c))
      ∙ sym (update-absorb c (a ++ b) room) in
    (whole, ra)
