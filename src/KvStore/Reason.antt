-- ===== src/KvStore/Reason.antt =====
-- `P36_KVSTORE_REASON_…` of p36_kvstore.h, and `p36_kvstore_reason_code`.
use preon_star.Base.{Bool, Bytes, Option, bytes_eq, codes, if◌then◌else◌, none, some, ℕ, ◌==◌, ◌||◌}

abbrev pub unknown : ℕ
unknown = 0

abbrev pub cold : ℕ
cold = 1

abbrev pub continued : ℕ
continued = 2

abbrev pub evict : ℕ
evict = 3

abbrev pub shutdown : ℕ
shutdown = 4

abbrev pub agent_system : ℕ
agent_system = 5

abbrev pub agent_session : ℕ
agent_session = 6

-- `p36_kvstore_reason_code`; `none` is the NULL text
unfoldable pub reason_code : Option Bytes → ℕ
reason_code none = unknown
reason_code (some r) =
    if bytes_eq r (codes "cold")
    then cold
    else if bytes_eq r (codes "continued")
    then continued
    else if bytes_eq r (codes "evict")
    then evict
    else if bytes_eq r (codes "shutdown")
    then shutdown
    else if bytes_eq r (codes "agent-system")
    then agent_system
    else if bytes_eq r (codes "agent-session")
    then agent_session
    else unknown

-- `kv_cache_reason_is_anchor`
unfoldable pub is_anchor : ℕ → Bool
is_anchor r = r == cold || r == evict || r == shutdown
