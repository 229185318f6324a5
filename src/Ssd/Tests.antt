-- ===== src/Ssd/Tests.antt =====
-- Runs of the size parsers and the plan, and the theorems at concrete values.
use preon_star.Base.{arith, codes, none, refl, some, ◌*◌, ◌-◌, ◌^◌, ◌↔◌, ◌≡◌}
use preon_star.Ssd.{
  Plan, all_digits, auto_cache_plan, decimal, ends_gb, expert_number, experts, gib_number,
  parse_gib_arg, parse_streaming_cache_experts_arg, shrink_cache_experts,
}
use preon_star.Ssd.CachePlan.{Accepts, IsSound, auto_cache_plan-IsSound}

sizes :
    (parse_gib_arg (codes "8GB") ≡ some (8 * 2 ^ 30))
    × (parse_gib_arg (codes "gb") ≡ none)
    × (parse_streaming_cache_experts_arg (codes "512") ≡ some (experts 512))
    × (parse_streaming_cache_experts_arg (codes "4294967296") ≡ none)
unfolding parse_gib_arg parse_streaming_cache_experts_arg gib_number expert_number all_digits
    decimal ends_gb
sizes = (refl, refl, refl, refl)

-- At the top of the range `experts + 9` wraps, and nothing is released.
shrink_stuck : shrink_cache_experts (2 ^ 32 - 1) ≡ 2 ^ 32 - 1
unfolding shrink_cache_experts
shrink_stuck = refl

auto_cache_plan-IsSound_example : Accepts 1000 80 0 100 7 0 ↔ (
    (plan : Plan) × (auto_cache_plan 1000 80 0 100 7 0 ≡ some plan)
    × IsSound 1000 80 0 100 7 0 plan)
auto_cache_plan-IsSound_example =
    auto_cache_plan-IsSound 1000 80 0 100 7 0 (omega arith) (omega arith) (omega arith)
