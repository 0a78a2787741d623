-- ===== src/RateLimit/Tests.antt =====
-- The theorems about the rate limiter at concrete inputs, and a run of it.
use tinycloud_agents.Base.{ℕ, ◌≡◌, ◌≤◌, refl, true, false, some, List, [], ◌∷◌, arith}
use tinycloud_agents.Base.Map
use tinycloud_agents.RateLimit.{
  Units, units_eq, RateLimiter, Check, bucket_key, check, check_all, create_rate_limiter,
}
use tinycloud_agents.RateLimit.Quota.{allowed, rolling_quota}

abbrev at : ℕ → ℕ → Check
at entity now = record { app_id = 7 ∷ []; entity_id = entity ∷ []; now = now }

abbrev key_of_3 : Units
key_of_3 = bucket_key (7 ∷ []) (3 ∷ [])

-- Two requests in a window of 10.
abbrev requests : List Check
requests = at 3 100 ∷ at 3 101 ∷ at 4 102 ∷ at 3 103 ∷ at 3 110 ∷ []

answers : (check_all (create_rate_limiter 2 10) requests).1 ≡ true ∷ true ∷ true ∷ false ∷ true ∷ []
unfolding check_all check create_rate_limiter units_eq Map.get Map.set
answers = refl

abbrev once : RateLimiter
once = record {
  max_requests = 2;
  window_ms = 10;
  buckets = (key_of_3, record { count = 1; window_start = 100 }) ∷ [];
}

once_at_3 : Map.get once.buckets key_of_3 ≡ some (record { count = 1; window_start = 100 })
unfolding units_eq Map.get
once_at_3 = refl

rolling_quota_example :
    allowed key_of_3 (at 3 109 ∷ at 3 110 ∷ []) (check_all once (at 3 109 ∷ at 3 110 ∷ [])).1 ≤ 4
unfolding units_eq
rolling_quota_example = rolling_quota key_of_3 105 (at 3 109 ∷ at 3 110 ∷ []) once (omega arith)
