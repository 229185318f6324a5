-- ===== src/Ssd/CachePlan.antt =====
-- The plan of the expert cache.
use preon_star.Base.{
  ap, arith, if◌then◌else◌, inl, inr, ltb, not, refl, some, ℕ, ◌%◌, ◌&&◌, ◌*◌, ◌+◌, ◌-◌, ◌/◌, ◌==◌,
  ◌^◌, ◌↔◌, ◌∙◌, ◌≡◌, ◌≢◌, ◌≤◌, ◌⊎◌,
}
use preon_star.Ssd.{Plan, auto_cache_plan, planned_experts, target_bytes, u32_max, u64_max}
use preon_star.Ssd.Lock.{whole}

product-split : (r p : ℕ) → r * p ≡ 100 * (r / 100 * p) + r % 100 * p
product-split r p =
    let whole : r ≡ 100 * (r / 100) + r % 100 = omega arith in ap (λ x. x * p) whole ∙ omega arith

product-le : (r p : ℕ) → p ≤ 100 → r * p ≤ r * 100
product-le r p h = grind arith

-- The target is the percentage of the recommended size, rounded down, with no wrap in 64 bits.
target-exact :
    (r p : ℕ)
    → r ≤ u64_max
    → p ≤ 95
    → (r / 100 * p % 2 ^ 64 + r % 100 * p % 2 ^ 64 / 100) % 2 ^ 64 ≡ r * p / 100
target-exact r p hr hp = omega (
  arith,
  product-split r p,
  product-le (r / 100) p (omega arith),
  product-le (r % 100) p (omega arith),
)

pub record IsSound (recommended percent limit non_routed per_expert max_model : ℕ) (plan : Plan)
    : Type 0 where
  -- the percentage, or the limit where there is one and it is smaller
  pub target_is : plan.model_target_bytes ≡ (
      if not (limit == 0) && ltb limit (recommended * percent / 100)
      then limit
      else recommended * percent / 100)
  -- the cache is what the routed part of the target leaves
  pub cache_is : plan.cache_bytes ≡ plan.model_target_bytes - non_routed
  pub some_expert : 1 ≤ plan.cache_experts
  pub in_u32 : plan.cache_experts ≤ u32_max
  pub in_model : (max_model ≡ 0) ⊎ (plan.cache_experts ≤ max_model)
  -- the bytes of that many experts, which fit the cache unless it is one expert all the same
  pub effective_is : plan.effective_cache_bytes ≡ plan.cache_experts * per_expert
  pub fits : (plan.cache_experts ≡ 1) ⊎ (plan.effective_cache_bytes ≤ plan.cache_bytes)

div-mul-le : (c e : ℕ) → e ≢ 0 → c / e * e ≤ c
div-mul-le c e h = grind arith

mul-le-mul : (a b e : ℕ) → a ≤ b → a * e ≤ b * e
mul-le-mul a b e h = grind arith

record ExpertsSound (cache per_expert max_model n : ℕ) : Type 0 where
  one_at_least : 1 ≤ n
  word : n ≤ u32_max
  model : (max_model ≡ 0) ⊎ (n ≤ max_model)
  room : (n ≡ 1) ⊎ (n ≤ cache / per_expert)

planned_experts-ExpertsSound :
    (cache e max_model : ℕ) → ExpertsSound cache e max_model (planned_experts cache e max_model)
unfolding planned_experts
planned_experts-ExpertsSound cache e max_model = ground arith

target_bytes-exact :
    (r p limit : ℕ)
    → r ≤ u64_max
    → p ≤ 95
    → target_bytes r p limit
      ≡ (if not (limit == 0) && ltb limit (r * p / 100) then limit else r * p / 100)
unfolding target_bytes
target_bytes-exact r p limit hr hp =
    ap (λ t. if not (limit == 0) && ltb limit t then limit else t) (target-exact r p hr hp)

-- the bytes of the experts do not wrap
effective-exact :
    (cache e n : ℕ)
    → cache ≤ u64_max
    → e ≤ u64_max
    → e ≢ 0
    → (n ≡ 1) ⊎ (n ≤ cache / e)
    → (n * e % 2 ^ 64 ≡ n * e) × ((n ≡ 1) ⊎ (n * e ≤ cache))
effective-exact cache e n hc he ne (inl h) = (rw h (omega arith), inl h)
effective-exact cache e n hc he ne (inr h) =
    let small : n * e ≤ cache =
      omega (arith, mul-le-mul n (cache / e) e h, div-mul-le cache e ne) in
    (omega arith, inr small)

module _ (r p limit non_routed e max_model : ℕ) where
  abbrev pub Accepts : Type 0
  Accepts = (r ≢ 0) × (e ≢ 0) × (50 ≤ p) × (p ≤ 95)

  abbrev cache_of : ℕ
  cache_of = target_bytes r p limit - non_routed

  planned : ℕ → Plan
  planned n = record {
    model_target_bytes = target_bytes r p limit;
    cache_bytes = cache_of;
    effective_cache_bytes = n * e % 2 ^ 64;
    cache_experts = n;
  }

  abbrev experts_of : ℕ
  experts_of = planned_experts cache_of e max_model

  cut-sub : (t n : ℕ) → (if ltb n t then t - n else 0) ≡ t - n
  cut-sub t n = ground arith

  plan-accepted :
      Accepts → auto_cache_plan r p limit non_routed e max_model ≡ some (planned experts_of)
  unfolding auto_cache_plan planned
  plan-accepted a =
      let sound = planned_experts-ExpertsSound cache_of e max_model in
      rw (cut-sub (target_bytes r p limit) non_routed) (ground (arith, sound.one_at_least))

  plan-refused :
      (plan : Plan) → auto_cache_plan r p limit non_routed e max_model ≡ some plan → Accepts
  unfolding auto_cache_plan
  plan-refused plan h = ground arith

  planned-IsSound :
      r ≤ u64_max
      → limit ≤ u64_max
      → e ≤ u64_max
      → Accepts
      → IsSound r p limit non_routed e max_model (planned experts_of)
  unfolding planned
  planned-IsSound hr hl he a =
      let sound = planned_experts-ExpertsSound cache_of e max_model in
      let exact = target_bytes-exact r p limit hr a.3 in
      let small = product-le r p (omega arith) in
      let (whole, fits) =
        effective-exact cache_of e experts_of (ground (arith, exact, small)) he a.1 sound.room in
      record {
        target_is = exact;
        cache_is = refl;
        some_expert = sound.one_at_least;
        in_u32 = sound.word;
        in_model = sound.model;
        effective_is = whole;
        fits = rw whole fits;
      }

-- A plan is made exactly if sizes are given and the percentage lies from 50 to 95. Then its target
-- is that percentage of the recommended size, rounded down, or the limit where one is given and is
-- smaller; the cache is what the target leaves beside the weights that are not routed; it has at
-- least one expert, and no more than the model has and than fit into 32 bits; and the effective
-- size is the size of those experts with no wrap, and within the cache unless it is a single one.
pub auto_cache_plan-IsSound :
    (r p limit non_routed e max_model : ℕ)
    → r ≤ u64_max
    → limit ≤ u64_max
    → e ≤ u64_max
    → Accepts r p limit non_routed e max_model ↔ (
        (plan : Plan) × (auto_cache_plan r p limit non_routed e max_model ≡ some plan)
        × IsSound r p limit non_routed e max_model plan)
auto_cache_plan-IsSound r p limit non_routed e max_model hr hl he = (
  λ a. (
    planned r p limit non_routed e max_model (experts_of r p limit non_routed e max_model),
    plan-accepted r p limit non_routed e max_model a,
    planned-IsSound r p limit non_routed e max_model hr hl he a,
  ),
  λ (plan, made, _). plan-refused r p limit non_routed e max_model plan made,
)
