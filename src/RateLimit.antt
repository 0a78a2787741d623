-- ===== src/RateLimit.antt =====
-- packages/eliza-service/src/rate-limit.ts: the fixed-window limiter for each app and entity.
--
-- A text is the list of its code units, and a check takes the time that the clock reads.
pub mod Quota
mod Tests
use tinycloud_agents.Base.{
  ℕ, suc, ◌+◌, ◌≡◌, refl, ◌↔◌, Bool, true, false, ◌&&◌, Option, none, some, List, [], ◌∷◌, ◌++◌,
  leb, if◌then◌else◌, StrictEq, nat_beq, arith,
}
use tinycloud_agents.Base.Map
use tinycloud_agents.Base.Map.{Map}

abbrev pub Units : Type 0
Units = List ℕ

abbrev same_units : Units → Units → Bool
same_units [] [] = true
same_units (x ∷ xs) (y ∷ ys) = nat_beq x y && same_units xs ys
same_units _ _ = false

pub same_units-eq : (xs ys : Units) → (same_units xs ys ≡ true) ↔ (xs ≡ ys)
same_units-eq [] [] = (λ e. refl, λ e. refl)
same_units-eq [] (y ∷ ys) = (λ e. cc, λ e. cc)
same_units-eq (x ∷ xs) [] = (λ e. cc, λ e. cc)
same_units-eq (x ∷ xs) (y ∷ ys) = ground (arith, same_units-eq xs ys)

instance unfoldable pub units_eq : StrictEq Units
units_eq = record { same = same_units; same-eq = same_units-eq }

pub record Bucket : Type 0 where
  pub count : ℕ
  pub window_start : ℕ

pub record RateLimiter : Type 0 where
  pub max_requests : ℕ
  pub window_ms : ℕ
  pub buckets : Map Units Bucket

pub record Check : Type 0 where
  pub app_id : Units
  pub entity_id : Units
  pub now : ℕ

pub create_rate_limiter : ℕ → ℕ → RateLimiter
create_rate_limiter max_requests window_ms = record {
  max_requests = max_requests;
  window_ms = window_ms;
  buckets = [];
}

-- `${appId}\0${entityId}`.
abbrev pub bucket_key : Units → Units → Units
bucket_key app_id entity_id = app_id ++ 0 ∷ entity_id

-- `now - windowStart >= windowMs`, on numbers that may lie either way.
abbrev elapsed : RateLimiter → Bucket → ℕ → Bool
elapsed r b now = leb (b.window_start + r.window_ms) now

-- The bucket that counts this request, a fresh one if there is none or its window is over.
abbrev pub current_bucket : RateLimiter → Units → ℕ → Bucket
current_bucket r key now = elim (Map.get r.buckets key) [
  | none ↦ record { count = 0; window_start = now }
  | some b ↦ if elapsed r b now then record { count = 0; window_start = now } else b
]

pub check : RateLimiter → Check → RateLimiter × Bool
check r c =
    let key = bucket_key c.app_id c.entity_id in
    let b = current_bucket r key c.now in
    if leb r.max_requests b.count
    then (record r { buckets = Map.set r.buckets key b }, false)
    else (record r { buckets = Map.set r.buckets key (record b { count = b.count + 1 }) }, true)

-- A sequence of checks, with the answers.
pub check_all : RateLimiter → List Check → RateLimiter × List Bool
check_all r [] = (r, [])
check_all r (c ∷ cs) =
    let (r', allowed) = check r c in let (r'', more) = check_all r' cs in (r'', allowed ∷ more)
