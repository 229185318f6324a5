-- ===== src/CliArgs/Expand.antt =====
-- What the expansion of `--name=value` does to a command line.
use preon_star.Base.{
  ==_iff, Bool-cases, Bytes, Lacks, List, Option, [], ap, arith, bytes_eq, bytes_eq_refl, false,
  inl, inr, length, none, refl, some, subst, ℕ, ◌&&◌, ◌*◌, ◌++◌, ◌+◌, ◌==◌, ◌↔◌, ◌∙◌, ◌∷◌, ◌≡◌, ◌≢◌,
  ◌≤◌, ◌⊎◌,
}
use preon_star.CliArgs.{
  Diagnosis, Expanded, append_args, argv, dashed, exits, expand_arg, expand_args,
  expand_long_equals, expand_parts, is_flag, long_equals, split_equals,
}

-- `out` is what the arguments become.
pub data Spells : List Bytes → List Bytes → Type 0 where
  done : Spells [] []
  keep :
      {arg : Bytes} {args out : List Bytes}
      → long_equals arg ≡ none
      → Spells args out
      → Spells (arg ∷ args) (arg ∷ out)
  pair :
      {name value : Bytes} {args out : List Bytes}
      → Lacks b'=' name
      → name ≢ []
      → value ≢ []
      → is_flag (dashed name) ≡ false
      → Spells args out
      → Spells ((dashed name ++ b'=' ∷ value) ∷ args) (dashed name ∷ value ∷ out)

abbrev SplitsAt : Bytes → Option (Bytes × Bytes) → Type 0
SplitsAt s none = Unit
SplitsAt s (some (name, value)) = (s ≡ name ++ b'=' ∷ value) × Lacks b'=' name

SplitsAt-cons :
    (c : ℕ) (s : Bytes) (o : Option (Bytes × Bytes))
    → c ≢ b'='
    → SplitsAt s o
    → SplitsAt (c ∷ s) (elim o [ none ↦ none | some (name, value) ↦ some (c ∷ name, value) ])
SplitsAt-cons c s none ne h = tt
SplitsAt-cons c s (some (name, value)) ne h = (ap (◌∷◌ c) h.0, (ne, h.1))

split_equals-SplitsAt : (s : Bytes) → SplitsAt s (split_equals s)
unfolding split_equals
split_equals-SplitsAt [] = tt
split_equals-SplitsAt (c ∷ s) = elim (Bool-cases (c == b'=')) [
  | inl e ↦ rw e (ap (λ x. x ∷ s) ((==_iff c b'=').0 e), tt)
  | inr e ↦ rw e (SplitsAt-cons c s (split_equals s) (ground (arith, e)) (split_equals-SplitsAt s))
]

long_equals-split :
    (arg : Bytes) {name value : Bytes}
    → long_equals arg ≡ some (name, value)
    → (arg ≡ dashed name ++ b'=' ∷ value) × Lacks b'=' name
unfolding long_equals
long_equals-split (a ∷ b ∷ s) {name} {value} h = elim (Bool-cases (a == b'-' && b == b'-')) [
  | inr e ↦ cc (rw e at h)
  | inl e ↦
      let found : split_equals s ≡ some (name, value) = rw e at h in
      let (q, lacks) = rw found at (split_equals-SplitsAt s) in (ground (arith, e, q), lacks)
]
long_equals-split _ h = cc h

split_equals_complete :
    (name value : Bytes)
    → Lacks b'=' name
    → split_equals (name ++ b'=' ∷ value) ≡ some (name, value)
unfolding split_equals
split_equals_complete [] value h = refl
split_equals_complete (c ∷ name) value h = ground (arith, h.0, split_equals_complete name value h.1)

long_equals-join :
    (name value : Bytes)
    → Lacks b'=' name
    → long_equals (dashed name ++ b'=' ∷ value) ≡ some (name, value)
unfolding long_equals
long_equals-join name value h = split_equals_complete name value h

bytes_eq-false : (a b : Bytes) → bytes_eq a b ≡ false → a ≢ b
bytes_eq-false a b h e = ground (arith, h, ap (λ x. bytes_eq x b) e, bytes_eq_refl b)

bytes_eq-nil : (a : Bytes) → a ≢ [] → bytes_eq a [] ≡ false
unfolding bytes_eq
bytes_eq-nil [] h = absurd (h refl)
bytes_eq-nil (c ∷ a) h = refl

-- what one argument becomes, if the call does not exit
expand_parts-cases :
    (arg : Bytes) (o : Option (Bytes × Bytes)) {out : List Bytes}
    → expand_parts arg o ≡ argv out
    → ((o ≡ none) × (out ≡ arg ∷ []))
      ⊎ ((name : Bytes) × (value : Bytes) × (o ≡ some (name, value))
          × (name ≢ [])
          × (value ≢ [])
          × (is_flag (dashed name) ≡ false)
          × (out ≡ dashed name ∷ value ∷ []))
expand_parts-cases arg none h = inl (refl, cc h)
expand_parts-cases arg (some (name, value)) h = elim (Bool-cases (bytes_eq name [])) [
  | inl k ↦ cc (rw k at h)
  | inr k ↦ elim (Bool-cases (bytes_eq value [])) [
    | inl v ↦ cc (rw (k, v) at h)
    | inr v ↦ elim (Bool-cases (is_flag (dashed name))) [
      | inl f ↦ cc (rw (k, v, f) at h)
      | inr f ↦ inr (
        name,
        value,
        refl,
        bytes_eq-false name [] k,
        bytes_eq-false value [] v,
        f,
        cc (rw (k, v, f) at h),
      )
    ]
  ]
]

Expanded-cases :
    (r : Expanded) → ((a : List Bytes) × (r ≡ argv a)) ⊎ ((d : Diagnosis) × (r ≡ exits d))
Expanded-cases (argv a) = inl (a, refl)
Expanded-cases (exits d) = inr (d, refl)

expand_args-Spells :
    (args : List Bytes) {out : List Bytes} → expand_args args ≡ argv out → Spells args out
unfolding expand_args
expand_args-Spells [] h = subst (Spells []) (cc h) done
expand_args-Spells (a ∷ args) {out} h = elim (Expanded-cases (expand_arg a)) [
  | inr (d, e) ↦ cc (rw e at h)
  | inl (first, e) ↦ elim (Expanded-cases (expand_args args)) [
    | inr (d, r) ↦ cc (rw (e, r) at h)
    | inl (rest, r) ↦
        let whole : argv (first ++ rest) ≡ argv out = rw (e, r) at h in
        let tail = expand_args-Spells args r in
        subst (Spells (a ∷ args)) (cc whole) (joined first rest e tail)
  ]
]
  where
    joined :
        (first rest : List Bytes)
        → expand_arg a ≡ argv first
        → Spells args rest
        → Spells (a ∷ args) (first ++ rest)
    joined first rest e tail =
        elim (expand_parts-cases a (long_equals a) {out = first} (unfold expand_arg in e)) [
          | inl (none_found, q) ↦ rw q (keep none_found tail)
          | inr (name, value, found, nn, nv, f, q) ↦
              let (spelt, lacks) = long_equals-split a found in
              rw (q, spelt) (pair lacks nn nv f tail)
        ]

parts-argv :
    (arg name value : Bytes)
    → name ≢ []
    → value ≢ []
    → is_flag (dashed name) ≡ false
    → expand_parts arg (some (name, value)) ≡ argv (dashed name ∷ value ∷ [])
parts-argv arg name value nn nv f = rw (bytes_eq-nil name nn, bytes_eq-nil value nv, f)

Spells-expand_args : {args out : List Bytes} → Spells args out → expand_args args ≡ argv out
unfolding expand_args
Spells-expand_args done = refl
Spells-expand_args (keep {arg} e t) =
    let one : expand_arg arg ≡ argv (arg ∷ []) = unfold expand_arg in ap (expand_parts arg) e in
    rw (Spells-expand_args t, one)
Spells-expand_args (pair {name} {value} lacks nn nv f t) =
    let joined = dashed name ++ b'=' ∷ value in
    let one : expand_arg joined ≡ argv (dashed name ∷ value ∷ []) =
      unfold expand_arg in
      ap (expand_parts joined) (long_equals-join name value lacks)
      ∙ parts-argv joined name value nn nv f in
    rw (Spells-expand_args t, one)

length-Spells : {args out : List Bytes} → Spells args out → length out ≤ 2 * length args
length-Spells done = omega arith
length-Spells (keep e t) = omega (arith, length-Spells t)
length-Spells (pair lacks nn nv f t) = omega (arith, length-Spells t)

-- The call returns `out` exactly if `out` is the program's name and, in order, what the other
-- arguments spell: an argument without `--…=` itself, and `--name=value`, cut at its first `=`, the
-- two parts of it, both not empty, for a name other than `help` and `list`.
pub expand_long_equals_iff :
    (program : Bytes) (args out : List Bytes)
    → (expand_long_equals (program ∷ args) ≡ argv out)
      ↔ ((rest : List Bytes) × (out ≡ program ∷ rest) × Spells args rest)
unfolding expand_long_equals
expand_long_equals_iff program args out = (forth, λ r. rw (r.1, Spells-expand_args r.2))
  where
    forth :
        append_args (argv (program ∷ [])) (expand_args args) ≡ argv out
        → (rest : List Bytes) × (out ≡ program ∷ rest) × Spells args rest
    forth h = elim (Expanded-cases (expand_args args)) [
      | inr (d, e) ↦ cc (rw e at h)
      | inl (rest, e) ↦ (rest, cc (rw e at h), expand_args-Spells args e)
    ]

-- The allocated array of twice the old count and one more has room for the new arguments and the
-- NULL behind them.
pub length-expand_long_equals :
    (program : Bytes) (args : List Bytes) {out : List Bytes}
    → expand_long_equals (program ∷ args) ≡ argv out
    → length out + 1 ≤ 2 * length (program ∷ args) + 1
length-expand_long_equals program args {out} h =
    let (rest, q, t) = (expand_long_equals_iff program args out).0 h in
    omega (arith, ap length q, length-Spells t)
