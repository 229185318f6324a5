-- ===== src/Eval/Lines.antt =====
-- The set of lines that a text names: it is marked as not empty exactly if it holds a line.
use preon_star.Base.{
  Bool, Bytes, [], arith, false, if_intro, if◌then◌else◌, inl, inr, leb, length, refl, suc, true,
  zero, ℕ, ◌&&◌, ◌-◌, ◌<◌, ◌||◌, ◌↔◌, ◌∷◌, ◌≡◌, ◌⊎◌,
}
use preon_star.Eval.{
  LineSet, empty, from_zero, leℤ, lines_from, negsuc, parse_line_spec, pos, range_end, set_from,
  set_len, set_lines, skip_to_digit, ℤ,
}

abbrev pub Below : LineSet → Type 0
Below s = (i : ℕ) × (i < set_len) × (s.has i ≡ true)

abbrev pub IsMarked : LineSet → Type 0
IsMarked s = (s.any ≡ true) ↔ Below s

empty-IsMarked : IsMarked empty
empty-IsMarked = (λ e. cc e, λ (i, l, e). cc e)

||-cases : (a b : Bool) → (a || b) ≡ true → (a ≡ true) ⊎ (b ≡ true)
||-cases true b h = inl refl
||-cases false b h = inr h

range-IsMarked :
    (low high : ℕ) (s : LineSet)
    → high < set_len
    → IsMarked s
    → IsMarked
        (record { any = s.any || leb low high; has = λ i. s.has i || (leb low i && leb i high) })
range-IsMarked low high s h m = (forth, back)
  where
    forth :
        (s.any || leb low high) ≡ true
        → (i : ℕ) × (i < set_len) × ((s.has i || (leb low i && leb i high)) ≡ true)
    forth e = elim (||-cases s.any (leb low high) e) [
      | inl a ↦ let (i, l, g) = m.0 a in (i, l, rw g refl)
      | inr b ↦ (high, h, in_range low high (s.has high) b)
    ]
      where
        in_range :
            (low high : ℕ) (x : Bool)
            → leb low high ≡ true
            → (x || (leb low high && leb high high)) ≡ true
        in_range low high x b = ground arith

    back :
        (i : ℕ) × (i < set_len) × ((s.has i || (leb low i && leb i high)) ≡ true)
        → (s.any || leb low high) ≡ true
    back (i, l, e) = elim (||-cases (s.has i) (leb low i && leb i high) e) [
      | inl a ↦ rw (m.1 (i, l, a)) refl
      | inr b ↦ between low high i s.any b
    ]
      where
        between :
            (low high i : ℕ) (x : Bool)
            → (leb low i && leb i high) ≡ true
            → (x || leb low high) ≡ true
        between low high i x b = ground arith

set_from-IsMarked : (low : ℕ) (b : ℤ) (s : LineSet) → IsMarked s → IsMarked (set_from low b s)
set_from-IsMarked low (negsuc b) s m = m
set_from-IsMarked low (pos b) s m =
    range-IsMarked low (if leb set_len b then set_len - 1 else b) s (capped b) m
  where
    capped : (b : ℕ) → (if leb 256 b then 255 else b) < 256
    capped b = ground arith

set_lines-IsMarked : (a b : ℤ) (s : LineSet) → IsMarked s → IsMarked (set_lines a b s)
unfolding set_lines
set_lines-IsMarked a b s m =
    if_intro IsMarked (leℤ a b) (set_from-IsMarked (from_zero a) b s m)
      (set_from-IsMarked (from_zero b) a s m)

module _ (strtol : Bytes → ℤ × Bytes) where
  lines_from-IsMarked :
      (f : ℕ) (set : LineSet) (s : Bytes) → IsMarked set → IsMarked (lines_from strtol f set s)
  unfolding lines_from
  lines_from-IsMarked zero set s m = m
  lines_from-IsMarked (suc f) set [] m = m
  lines_from-IsMarked (suc f) set (c ∷ s) m =
      let (b, behind) = range_end strtol (strtol (c ∷ s)) in
      lines_from-IsMarked f (set_lines (strtol (c ∷ s)).0 b set) (skip_to_digit behind)
        (set_lines-IsMarked (strtol (c ∷ s)).0 b set m)

  pub parse_line_spec-IsMarked : (spec : Bytes) → IsMarked (parse_line_spec strtol spec)
  unfolding parse_line_spec
  parse_line_spec-IsMarked spec =
      lines_from-IsMarked (length spec) empty (skip_to_digit spec) empty-IsMarked
