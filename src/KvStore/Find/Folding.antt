-- ===== src/KvStore/Find/Folding.antt =====
-- The loop of the search: what it returns by the code's own tests.
use mathlib.Core.Path.{subst}
use preon_star.Base.{
  All, Bool, List, Option, [], arith, false, if◌then◌else◌, inl, inr, none, refl, some, subst, true,
  ◌&&◌, ◌∙◌, ◌∷◌, ◌≡◌, ◌⊎◌,
}
use preon_star.KvStore.Header.{Entry}
use preon_star.KvStore.Find.{Query, beats, eligible, find_from, names_prefix}
use preon_star.KvStore.Store.{Store}

-- the checkpoint may be loaded for the query
unfoldable pub candidate : Store → Query → Entry → Bool
unfolding eligible names_prefix
candidate kc q e = eligible kc q e && names_prefix q e

pub data IsIn (e : Entry) : List Entry → Type 0 where
  here : (es : List Entry) → IsIn e (e ∷ es)
  there : (d : Entry) (es : List Entry) → IsIn e es → IsIn e (d ∷ es)

-- what does not beat the one does not beat the other
abbrev pub Below : Option Entry → Option Entry → Type 0
Below b r = (e : Entry) → beats e b ≡ false → beats e r ≡ false

beats-Below : (e : Entry) (b : Option Entry) → beats e b ≡ true → Below b (some e)
unfolding beats
beats-Below e none h d k = cc k
beats-Below e (some b) h d k = ground arith

beats_self : (e : Entry) → beats e (some e) ≡ false
unfolding beats
beats_self e = ground arith

-- no checkpoint of the list that may be loaded beats the result
abbrev pub Unbeaten : Store → Query → Option Entry → List Entry → Type 0
Unbeaten kc q r = All (λ e. (candidate kc q e ≡ false) ⊎ (beats e r ≡ false))

-- the result is the one at hand, or from the list
abbrev pub IsFrom : Store → Query → Option Entry → List Entry → Option Entry → Type 0
IsFrom kc q best es r =
    (r ≡ best) ⊎ ((e : Entry) × (r ≡ some e) × (candidate kc q e ≡ true) × IsIn e es)

abbrev chosen : Store → Query → Entry → Option Entry → Option Entry
chosen kc q e best = if eligible kc q e && beats e best && names_prefix q e then some e else best

choice :
    (a b c : Bool) (x y : Option Entry)
    → (((if a && b && c then x else y) ≡ x) × ((a && c) ≡ true) × (b ≡ true))
      ⊎ (((if a && b && c then x else y) ≡ y) × (((a && c) ≡ false) ⊎ (b ≡ false)))
choice true true true x y = inl (refl, refl, refl)
choice true true false x y = inr (refl, inl refl)
choice true false c x y = inr (refl, inr refl)
choice false b c x y = inr (refl, inl refl)

chosen-cases :
    (kc : Store) (q : Query) (e : Entry) (best : Option Entry)
    → ((chosen kc q e best ≡ some e) × (candidate kc q e ≡ true) × (beats e best ≡ true))
      ⊎ ((chosen kc q e best ≡ best) × ((candidate kc q e ≡ false) ⊎ (beats e best ≡ false)))
chosen-cases kc q e best =
    unfold candidate in choice (eligible kc q e) (beats e best) (names_prefix q e) (some e) best

abbrev pub Results : Store → Query → Option Entry → List Entry → Option Entry → Type 0
Results kc q best es r = Below best r × Unbeaten kc q r es × IsFrom kc q best es r

-- one more entry in front, which was chosen
with_chosen :
    (kc : Store) (q : Query) (e : Entry) (es : List Entry) (best next r : Option Entry)
    → next ≡ some e
    → candidate kc q e ≡ true
    → beats e best ≡ true
    → Results kc q next es r
    → Results kc q best (e ∷ es) r
with_chosen kc q e es best next r c k b (below, top, from) =
    let at_e : beats e r ≡ false = below e (rw c (beats_self e)) in
    let below' : Below best r = λ d h. below d (rw c (beats-Below e best b d h)) in
    (
      below',
      (inr at_e, top),
      elim from [
        | inl f ↦ inr (e, f ∙ c, k, here es)
        | inr (d, f, m, i) ↦ inr (d, f, m, there e es i)
      ],
    )

-- one more entry in front, which was not
with_other :
    (kc : Store) (q : Query) (e : Entry) (es : List Entry) (best next r : Option Entry)
    → next ≡ best
    → (candidate kc q e ≡ false) ⊎ (beats e best ≡ false)
    → Results kc q next es r
    → Results kc q best (e ∷ es) r
with_other kc q e es best next r c k (below, top, from) =
    let below' : Below best r = λ d h. below d (rw c h) in
    let at_e : (candidate kc q e ≡ false) ⊎ (beats e r ≡ false) = elim k [
      | inl x ↦ inl x
      | inr x ↦ inr (below' e x)
    ] in
    (
      below',
      (at_e, top),
      elim from [ inl f ↦ inl (f ∙ c) | inr (d, f, m, i) ↦ inr (d, f, m, there e es i) ],
    )

pub find_from-lem :
    (kc : Store) (q : Query) (es : List Entry) (best : Option Entry)
    → Results kc q best es (find_from kc q best es)
unfolding find_from
find_from-lem kc q [] best = (λ e h. h, tt, inl refl)
find_from-lem kc q (e ∷ es) best =
    let next = chosen kc q e best in
    let ih = find_from-lem kc q es next in
    let r = find_from kc q next es in
    elim (chosen-cases kc q e best) [
      | inl (c, k, b) ↦ with_chosen kc q e es best next r c k b ih
      | inr (c, k) ↦ with_other kc q e es best next r c k ih
    ]

none_left :
    (kc : Store) (q : Query) (es : List Entry)
    → Unbeaten kc q none es
    → All (λ e. candidate kc q e ≡ false) es
unfolding beats
none_left kc q [] h = tt
none_left kc q (e ∷ es) (h, hs) =
    (elim h [ inl x ↦ x | inr x ↦ absurd (true_false x) ], none_left kc q es hs)
  where
    true_false : true ≡ false → ⊥
    true_false h = cc h

pub result :
    (kc : Store) (q : Query) (r : Option Entry)
    → Results kc q none kc.entries r
    → ((r ≡ none) × All (λ e. candidate kc q e ≡ false) kc.entries)
      ⊎ ((e : Entry) × (r ≡ some e)
          × (candidate kc q e ≡ true)
          × IsIn e kc.entries
          × Unbeaten kc q (some e) kc.entries)
result kc q r (below, top, inl f) =
    inl (f, none_left kc q kc.entries (subst (λ x. Unbeaten kc q x kc.entries) f top))
result kc q r (below, top, inr (e, f, m, i)) =
    inr (e, f, m, i, subst (λ x. Unbeaten kc q x kc.entries) f top)
