-- ===== src/RateLimit/Quota.antt =====
-- How many requests of one key pass.
use native.Mathlib.Nat.{le_trans}
use tinycloud_agents.Base.{
  ℕ, ◌+◌, ◌-◌, ◌*◌, ◌≤◌, ◌<◌, ◌≡◌, ◌≢◌, Bool, true, false, Option, none, some, List, [], ◌∷◌, not,
  ◌⊎◌, inl, inr, leb, min, if◌then◌else◌, ◌===◌, from_bool, All, Bool-cases, Option-cases, arith,
}
use tinycloud_agents.Base.Map
use tinycloud_agents.RateLimit.{
  Units, units_eq, Bucket, RateLimiter, Check, bucket_key, current_bucket, check, check_all,
}

abbrev is_for : Units → Check → Bool
is_for key c = bucket_key c.app_id c.entity_id === key

-- The requests of the key, and those of them that were allowed.
abbrev pub requested : Units → List Check → ℕ
requested key [] = 0
requested key (c ∷ cs) = from_bool (is_for key c) + requested key cs

abbrev pub allowed : Units → List Check → List Bool → ℕ
allowed key (c ∷ cs) (true ∷ bs) = from_bool (is_for key c) + allowed key cs bs
allowed key (c ∷ cs) (false ∷ bs) = allowed key cs bs
allowed key _ _ = 0

abbrev pub bucket_at : RateLimiter → Units → Option Bucket
bucket_at r key = Map.get r.buckets key

-- What a check leaves in the bucket of each key.
check_bucket :
    (r : RateLimiter) (c : Check) (key : Units)
    → let b = current_bucket r (bucket_key c.app_id c.entity_id) c.now in
      ((check r c).1 ≡ not (leb r.max_requests b.count))
      × (bucket_at (check r c).0 key ≡ (
          if bucket_key c.app_id c.entity_id === key
          then some (if leb r.max_requests b.count then b else record b { count = b.count + 1 })
          else bucket_at r key))
      × ((check r c).0.max_requests ≡ r.max_requests)
      × ((check r c).0.window_ms ≡ r.window_ms)
unfolding check
check_bucket r c key = ground (
  arith,
  Map.get-set r.buckets (bucket_key c.app_id c.entity_id) key
      (current_bucket r (bucket_key c.app_id c.entity_id) c.now),
  Map.get-set r.buckets (bucket_key c.app_id c.entity_id) key
      (record (current_bucket r (bucket_key c.app_id c.entity_id) c.now) {
        count = (current_bucket r (bucket_key c.app_id c.entity_id) c.now).count + 1;
      }),
)

-- A check of another key leaves the bucket; a check of the key within the window counts in it.
data Live (r : RateLimiter) (c : Check) (key : Units) (b : Bucket)
    : RateLimiter × Bool → Type 0 where
  other :
      {t : RateLimiter × Bool}
      → is_for key c ≡ false
      → bucket_at t.0 key ≡ some b
      → Live r c key b t
  passed :
      {t : RateLimiter × Bool}
      → is_for key c ≡ true
      → t.1 ≡ true
      → b.count < r.max_requests
      → bucket_at t.0 key ≡ some (record b { count = b.count + 1 })
      → Live r c key b t
  refused :
      {t : RateLimiter × Bool}
      → is_for key c ≡ true
      → t.1 ≡ false
      → r.max_requests ≤ b.count
      → bucket_at t.0 key ≡ some b
      → Live r c key b t

current_live :
    (r : RateLimiter) (key : Units) (now : ℕ) (b : Bucket)
    → bucket_at r key ≡ some b
    → now < b.window_start + r.window_ms
    → current_bucket r key now ≡ b
current_live r key now b e early = ground arith

check-Live :
    (r : RateLimiter) (c : Check) (key : Units) (b : Bucket)
    → bucket_at r key ≡ some b
    → c.now < b.window_start + r.window_ms
    → Live r c key b (check r c)
check-Live r c key b e early =
    let k = bucket_key c.app_id c.entity_id in
    let (answer, left, m, w) = check_bucket r c key in
    elim (Bool-cases (is_for key c)) [
      | inr away ↦ other away (rw (left, away, e))
      | inl mine ↦
          let same : k ≡ key = (units_eq.same-eq k key).0 mine in
          let current : current_bucket r k c.now ≡ b = current_live r k c.now b (rw same e) early in
          elim (Bool-cases (leb r.max_requests b.count)) [
            | inl full ↦
                refused mine (rw (answer, current, full)) (ground arith)
                  (rw (left, mine, current, full))
            | inr room ↦
                passed mine (rw (answer, current, room)) (ground arith)
                  (rw (left, mine, current, room))
          ]
    ]

check_keeps :
    (r : RateLimiter) (c : Check)
    → ((check r c).0.max_requests ≡ r.max_requests) × ((check r c).0.window_ms ≡ r.window_ms)
check_keeps r c = let (a, l, m, w) = check_bucket r c [] in (m, w)

abbrev Before : RateLimiter → Bucket → List Check → Type 0
Before r b = All λ c. c.now < b.window_start + r.window_ms

-- While the bucket of a key is within its window, the requests of the key that are allowed are as
-- many as there are, up to what is left of the quota; requests of other keys do not count.
live_quota :
    (key : Units) (cs : List Check) (r : RateLimiter) (b : Bucket)
    → bucket_at r key ≡ some b
    → b.count ≤ r.max_requests
    → All (λ c. c.now < b.window_start + r.window_ms) cs
    → allowed key cs (check_all r cs).1 ≡ min (requested key cs) (r.max_requests - b.count)
unfolding check_all
live_quota key [] r b e h early = omega arith
live_quota key (c ∷ cs) r b e h (first, later) =
    let r' = (check r c).0 in
    let (m, w) = check_keeps r c in
    let after : All (λ c. c.now < b.window_start + r'.window_ms) cs = rw w later in
    elim (check-Live r c key b e first) [
      | other away p ↦
          let rest = live_quota key cs r' b p (omega arith) after in ground (arith, rest)
      | passed mine answer room p ↦
          let rest =
            live_quota key cs r' (record b { count = b.count + 1 }) p (omega arith) after in
          ground (arith, rest)
      | refused mine answer full p ↦
          let rest = live_quota key cs r' b p (omega arith) after in ground (arith, rest)
    ]

-- What is left of a key's quota, with that of one more window.
abbrev headroom : RateLimiter → Units → ℕ
headroom r key = elim (bucket_at r key) [
  | none ↦ r.max_requests
  | some b ↦ (r.max_requests - b.count) + r.max_requests
]

fresh : ℕ → Bucket
fresh now = record { count = 0; window_start = now }

-- From the check that opens a window, at most the quota passes within it.
fresh_quota :
    (key : Units) (c : Check) (cs : List Check) (r : RateLimiter)
    → is_for key c ≡ true
    → current_bucket r (bucket_key c.app_id c.entity_id) c.now ≡ fresh c.now
    → All (λ d. d.now < c.now + r.window_ms) cs
    → allowed key (c ∷ cs) (check_all r (c ∷ cs)).1 ≤ r.max_requests
unfolding check_all fresh
fresh_quota key c cs r mine opened later =
    let r' = (check r c).0 in
    let (answer, left, m, w) = check_bucket r c key in
    let after : All (λ (d : Check). d.now < c.now + r'.window_ms) cs = rw w later in
    elim (Bool-cases (leb r.max_requests 0)) [
      | inl full ↦
          let b : bucket_at r' key ≡ some (fresh c.now) = rw (left, mine, opened, full) in
          let rest = live_quota key cs r' (fresh c.now) b (omega arith) after in
          ground (arith, rest, answer, opened)
      | inr room ↦
          let b : bucket_at r' key ≡ some (record (fresh c.now) { count = 1 }) =
            rw (left, mine, opened, room) in
          let rest =
            live_quota key cs r' (record (fresh c.now) { count = 1 }) b (ground arith) after in
          ground (arith, rest, answer, opened)
    ]

current_cases :
    (r : RateLimiter) (key : Units) (now : ℕ)
    → (current_bucket r key now ≡ fresh now)
      ⊎ ((b : Bucket) × (bucket_at r key ≡ some b) × (now < b.window_start + r.window_ms))
unfolding fresh
current_cases r key now = elim (Option-cases (bucket_at r key)) [
  | inl e ↦ inl (ground arith)
  | inr (b, e) ↦ elim (Bool-cases (leb (b.window_start + r.window_ms) now)) [
    | inl over ↦ inl (ground arith)
    | inr within ↦ inr (b, e, ground arith)
  ]
]

-- All the checks lie in the `window` milliseconds from `t` on.
abbrev pub Within : ℕ → ℕ → List Check → Type 0
Within t window = All λ c. (t ≤ c.now) × (c.now < t + window)

Within-later :
    (t now window : ℕ) (cs : List Check)
    → t ≤ now
    → Within t window cs
    → All (λ c. c.now < now + window) cs
Within-later t now window [] h a = tt
Within-later t now window (c ∷ cs) h (p, a) = (omega arith, Within-later t now window cs h a)

quota-le-headroom : (r : RateLimiter) (key : Units) → r.max_requests ≤ headroom r key
quota-le-headroom r key = ground arith

rolling-headroom :
    (key : Units) (t : ℕ) (cs : List Check) (r : RateLimiter)
    → Within t r.window_ms cs
    → allowed key cs (check_all r cs).1 ≤ headroom r key
unfolding check_all
rolling-headroom key t [] r h = omega arith
rolling-headroom key t (c ∷ cs) r ((from, to), later) =
    let r' = (check r c).0 in
    let (answer, left, m, w) = check_bucket r c key in
    let ih = rolling-headroom key t cs r' (rw w later) in
    elim (Bool-cases (is_for key c)) [
      | inr away ↦
          let kept : bucket_at r' key ≡ bucket_at r key = rw (left, away) in
          ground (arith, ih, kept)
      | inl mine ↦
          let same = (units_eq.same-eq (bucket_key c.app_id c.entity_id) key).0 mine in
          elim (current_cases r key c.now) [
            | inl opened ↦
                let quota =
                  fresh_quota key c cs r mine (rw same opened)
                    (Within-later t c.now r.window_ms cs from later) in
                le_trans quota (quota-le-headroom r key)
            | inr (b, e, early) ↦ elim (check-Live r c key b e early) [
              | other away p ↦ cc
              | passed _ a room p ↦ ground (arith, ih)
              | refused _ a full p ↦ ground (arith, ih)
            ]
          ]
    ]

-- Whatever happened before, at most twice the quota of a key passes in the requests of any period of
-- `windowMs` milliseconds.
pub rolling_quota :
    (key : Units) (t : ℕ) (cs : List Check) (r : RateLimiter)
    → Within t r.window_ms cs
    → allowed key cs (check_all r cs).1 ≤ 2 * r.max_requests
rolling_quota key t cs r h = ground (arith, rolling-headroom key t cs r h)

-- Two apps whose ids hold no NUL never share a bucket, whatever the entity ids are.
bucket_key_injective :
    (a b e f : Units)
    → All (λ u. u ≢ 0) a
    → All (λ u. u ≢ 0) b
    → bucket_key a e ≡ bucket_key b f
    → (a ≡ b) × (e ≡ f)
bucket_key_injective [] [] e f p q h = ground arith
bucket_key_injective [] (y ∷ b) e f p (y_ok, q) h = absurd (y_ok (ground arith))
bucket_key_injective (x ∷ a) [] e f (x_ok, p) q h = absurd (x_ok (ground arith))
bucket_key_injective (x ∷ a) (y ∷ b) e f (x_ok, p) (y_ok, q) h =
    let (same, rest) = bucket_key_injective a b e f p q (ground arith) in ground arith
