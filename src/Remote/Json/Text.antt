-- ===== src/Remote/Json/Text.antt =====
-- JSON text for a value, and what is asked of a value and of the numbers for it to be read back.
use Prim.Native.Nat.{max}
use preon_star.Base.{
  Bool, Bytes, Option, [], codes, false, if◌then◌else◌, some, suc, true, ℕ, ◌++◌, ◌+◌, ◌∷◌, ◌≡◌,
  ◌≤◌, ◌⊎◌,
}
use preon_star.Remote.Quote.{json_quote}
use preon_star.Remote.Json.{
  Kids, Value, array, boolean, closing, kid, nil, null, number, object, string,
}

abbrev pub quoted_key : Bool → Bytes → Bytes → Bytes
quoted_key true k r = json_quote k ++ b':' ∷ r
quoted_key false k r = r

-- what may stand behind a number
abbrev pub Stops : Bytes → Type 0
Stops [] = Unit
Stops (c ∷ s) = (c ≡ b',') ⊎ (c ≡ b'}') ⊎ (c ≡ b']')

abbrev pub opening : Bool → ℕ
opening is_object = if is_object then b'{' else b'['

module _ {D : Type 0} (show : D → Bytes) where
  -- JSON text for a value, in front of `r`
  unfoldable mutual
    pub emit : Value D → Bytes → Bytes
    emit null r = codes "null" ++ r
    emit (boolean true) r = codes "true" ++ r
    emit (boolean false) r = codes "false" ++ r
    emit (number d) r = show d ++ r
    emit (string s) r = json_quote s ++ r
    emit (array ks) r = b'[' ∷ emit_kids false ks r
    emit (object ks) r = b'{' ∷ emit_kids true ks r

    pub emit_kids : Bool → Kids D → Bytes → Bytes
    emit_kids b nil r = closing b ∷ r
    emit_kids b (kid k v ks) r = quoted_key b k (emit v (emit_more b ks r))

    pub emit_more : Bool → Kids D → Bytes → Bytes
    emit_more b nil r = closing b ∷ r
    emit_more b (kid k v ks) r = b',' ∷ quoted_key b k (emit v (emit_more b ks r))

-- the nesting, and that an array's kids have no keys
unfoldable mutual
  pub depth : {D : Type 0} → Value D → ℕ
  depth null = 0
  depth (boolean b) = 0
  depth (number d) = 0
  depth (string s) = 0
  depth (array ks) = depth_kids ks
  depth (object ks) = depth_kids ks

  pub depth_kids : {D : Type 0} → Kids D → ℕ
  depth_kids nil = 0
  depth_kids (kid k v ks) = max (suc (depth v)) (depth_kids ks)

unfoldable mutual
  pub IsKeyed : {D : Type 0} → Value D → Type 0
  IsKeyed null = Unit
  IsKeyed (boolean b) = Unit
  IsKeyed (number d) = Unit
  IsKeyed (string s) = Unit
  IsKeyed (array ks) = KeyedKids false ks
  IsKeyed (object ks) = KeyedKids true ks

  pub KeyedKids : {D : Type 0} → Bool → Kids D → Type 0
  KeyedKids b nil = Unit
  KeyedKids b (kid k v ks) = ((b ≡ true) ⊎ (k ≡ [])) × IsKeyed v × KeyedKids b ks

-- the calls that reading it takes
unfoldable mutual
  pub need : {D : Type 0} → Value D → ℕ
  need null = 1
  need (boolean b) = 1
  need (number d) = 1
  need (string s) = 1
  need (array ks) = suc (need_kids ks)
  need (object ks) = suc (need_kids ks)

  pub need_kids : {D : Type 0} → Kids D → ℕ
  need_kids nil = 0
  need_kids (kid k v ks) = suc (need v + need_kids ks)

-- `strtod` reads what `show` writes, and stops at a comma or a closing bracket; what `show` writes
-- begins with a digit or a minus sign.
pub record ReadsNumbers {D : Type 0} (strtod : Bytes → Option (D × Bytes)) (show : D → Bytes)
    : Type 0 where
  pub reads : (d : D) (r : Bytes) → Stops r → strtod (show d ++ r) ≡ some (d, r)
  pub starts :
      (d : D) → (c : ℕ) × (t : Bytes) × (show d ≡ c ∷ t) × ((c ≡ b'-') ⊎ ((b'0' ≤ c) × (c ≤ b'9')))
