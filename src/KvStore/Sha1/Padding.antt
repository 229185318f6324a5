-- ===== src/KvStore/Sha1/Padding.antt =====
-- The padding of `sha1_final` ends: 64 rounds are enough.
use preon_star.Base.{
  ==_iff, Bool, Bool-cases, [], ap, arith, false, if◌then◌else◌, inl, inr, leb, length,
  length-append, refl, suc, take, true, zero, ℕ, ◌%◌, ◌++◌, ◌+◌, ◌-◌, ◌<◌, ◌==◌, ◌^◌, ◌∙◌, ◌∷◌, ◌≡◌,
  ◌≤◌,
}
use preon_star.KvStore.Sha1.{Context, fill, pad, transform, update, used}

take_one : (n : ℕ) → 0 < n → length (take {A = ℕ} n (0 ∷ [])) ≡ 1
take_one zero h = absurd (omega arith)
take_one (suc zero) h = refl
take_one (suc (suc n)) h = refl

used_if : (b : Bool) (x y : Context) → used (if b then x else y) ≡ (if b then used x else used y)
used_if true x y = refl
used_if false x y = refl

-- one zero moves the fill of the block by one
used-update :
    (c : Context)
    → used c < 64
    → used (update c (0 ∷ [])) ≡ (if used c == 63 then 0 else used c + 1)
unfolding update fill
used-update c room =
    let block = c.block ++ take (64 - used c) (0 ∷ []) in
    let size : length block ≡ used c + 1 = omega (
      arith,
      length-append c.block (take (64 - used c) (0 ∷ [])),
      take_one (64 - used c) (omega arith),
    ) in
    let n = (c.bytes + 1) % 2 ^ 64 in
    used_if (length block == 64) (record { chain = transform c.chain block; bytes = n; block = [] })
      (record { chain = c.chain; bytes = n; block = block })
    ∙ counted (used c) (length block) size
  where
    counted : (u l : ℕ) → l ≡ u + 1 → (if l == 64 then 0 else l) ≡ (if u == 63 then 0 else u + 1)
    counted u l h = ground arith

-- the rounds that are left
abbrev rounds_left : ℕ → ℕ
rounds_left u = if leb u 56 then 56 - u else 120 - u

next_round :
    (u v : ℕ)
    → v ≡ (if u == 63 then 0 else u + 1)
    → u < 64
    → (u == 56) ≡ false
    → (v < 64) × (rounds_left v + 1 ≤ rounds_left u)
next_round u v h room e = ground arith

opened :
    (f : ℕ) (c : Context)
    → used (pad (suc f) c) ≡ (if used c == 56 then used c else used (pad f (update c (0 ∷ []))))
unfolding pad
opened f c = used_if (used c == 56) c (pad f (update c (0 ∷ [])))

-- With more rounds than there are bytes up to place 56, the padding stops at place 56.
pub used-pad : (f : ℕ) (c : Context) → used c < 64 → rounds_left (used c) < f → used (pad f c) ≡ 56
used-pad zero c room h = absurd (omega arith)
used-pad (suc f) c room h =
    let d = update c (0 ∷ []) in
    opened f c ∙ (elim (Bool-cases (used c == 56)) [
      | inl e ↦ ap (λ b. if b then used c else used (pad f d)) e ∙ (==_iff (used c) 56).0 e
      | inr e ↦
          let (r, l) = next_round (used c) (used d) (used-update c room) room e in
          ap (λ b. if b then used c else used (pad f d)) e ∙ used-pad f d r (omega (arith, h, l))
    ])
