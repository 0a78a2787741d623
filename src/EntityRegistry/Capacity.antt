-- ===== src/EntityRegistry/Capacity.antt =====
-- What makes room for a new client: the entry that was used longest ago.
use tinycloud_agents.Base.{
  ℕ, ◌+◌, ◌≤◌, ◌<◌, ◌≡◌, refl, ◌⊎◌, inl, inr, false, none, some, [], ◌∷◌, String, length, ltb, leb,
  ◌===◌, text_eq, arith, All, Bool-cases,
}
use tinycloud_agents.Base.Map
use tinycloud_agents.Base.Map.{Map}
use tinycloud_agents.Delegation.{Sdk}
use tinycloud_agents.EntityRegistry.{
  Surroundings, RegistryEntry, EntityRegistry, evict, evict_lru, least_used,
}
use tinycloud_agents.EntityRegistry.Registering.{
  Registration, waits, evicting, installed, install, make_room,
}

-- No entry was used before `time`.
abbrev pub NoneBefore : ℕ → Map String RegistryEntry → Type 0
NoneBefore time entries = All (λ (b : String × RegistryEntry). time ≤ b.1.last_used) entries

-- The entity has an entry in the list that was last used then.
abbrev pub WasUsedAt : String → ℕ → Map String RegistryEntry → Type 0
WasUsedAt key time [] = ⊥
WasUsedAt key time ((k, entry) ∷ rest) =
    ((k ≡ key) × (entry.last_used ≡ time)) ⊎ WasUsedAt key time rest

NoneBefore-le :
    (a b : ℕ) (es : Map String RegistryEntry) → a ≤ b → NoneBefore b es → NoneBefore a es
NoneBefore-le a b [] le h = tt
NoneBefore-le a b (e ∷ es) le (h, hs) = (omega arith, NoneBefore-le a b es le hs)

-- The candidate is the best so far; what is found is not later, and is it or one of the list.
module _ (key : String) (time : ℕ) where
  abbrev Improves : String → ℕ → Map String RegistryEntry → Type 0
  Improves k0 t0 es =
      (time ≤ t0) × NoneBefore time es × (((k0 ≡ key) × (t0 ≡ time)) ⊎ WasUsedAt key time es)

  least_used-Improves :
      (k0 : String) (t0 : ℕ) (es : Map String RegistryEntry)
      → least_used (some (k0, t0)) es ≡ some (key, time)
      → Improves k0 t0 es
  unfolding least_used
  least_used-Improves k0 t0 [] = λ e. ground (arith, e)
  least_used-Improves k0 t0 ((k, entry) ∷ es) = elim (Bool-cases (ltb entry.last_used t0)) [
    | inl before ↦ rw before (λ e.
        let (le, none_before, from) = least_used-Improves k entry.last_used es e in
        (ground (arith, le, before), (le, none_before), inr from))
    | inr not_before ↦ rw not_before (λ e.
        let (le, none_before, from) = least_used-Improves k0 t0 es e in
        (le, (ground (arith, le, not_before), none_before), later from))
  ]
    where
      later :
          ((k0 ≡ key) × (t0 ≡ time)) ⊎ WasUsedAt key time es
          → ((k0 ≡ key) × (t0 ≡ time))
            ⊎ (((k ≡ key) × (entry.last_used ≡ time)) ⊎ WasUsedAt key time es)
      later (inl h) = inl h
      later (inr h) = inr (inr h)

least_used-some :
    (k : String) (t : ℕ) (es : Map String RegistryEntry)
    → (key : String) × (time : ℕ) × (least_used (some (k, t)) es ≡ some (key, time))
unfolding least_used
least_used-some k t [] = (k, t, refl)
least_used-some k t ((k', entry) ∷ es) = elim (Bool-cases (ltb entry.last_used t)) [
  | inl before ↦ rw before (least_used-some k' entry.last_used es)
  | inr not_before ↦ rw not_before (least_used-some k t es)
]

WasUsedAt-get :
    (key : String) (time : ℕ) (es : Map String RegistryEntry)
    → WasUsedAt key time es
    → (entry : RegistryEntry) × (Map.get es key ≡ some entry)
unfolding Map.get
WasUsedAt-get key time [] h = absurd h
WasUsedAt-get key time ((k, entry) ∷ es) h = elim (Bool-cases (k === key)) [
  | inl same ↦ (entry, rw same)
  | inr other ↦ rw other (WasUsedAt-get key time es (go other h))
]
  where
    go :
        (k === key) ≡ false
        → ((k ≡ key) × (entry.last_used ≡ time)) ⊎ WasUsedAt key time es
        → WasUsedAt key time es
    go other (inl (same, at)) = absurd (ground (arith, other, (text_eq.same-eq k key).1 same))
    go other (inr later) = later

length-delete_le :
    (es : Map String RegistryEntry) (key : String) → length (Map.delete es key) ≤ length es
unfolding Map.delete
length-delete_le [] key = omega arith
length-delete_le ((k, entry) ∷ es) key = ground (arith, length-delete_le es key)

length-delete :
    (es : Map String RegistryEntry) (key : String) (entry : RegistryEntry)
    → Map.get es key ≡ some entry
    → length (Map.delete es key) < length es
unfolding Map.delete Map.get
length-delete [] key entry = λ e. absurd (cc e)
length-delete ((k, old) ∷ es) key entry = elim (Bool-cases (k === key)) [
  | inl same ↦ rw same (λ e. ground (arith, length-delete_le es key))
  | inr other ↦ rw other (λ e. ground (arith, length-delete es key entry e))
]

length-set :
    (es : Map String RegistryEntry) (key : String) (entry : RegistryEntry)
    → length (Map.set es key entry) ≤ length es + 1
unfolding Map.set
length-set [] key entry = omega arith
length-set ((k, old) ∷ es) key entry = ground (arith, length-set es key entry)

-- What `_evictLru` takes away.
pub record EvictsLeastUsed (r t : EntityRegistry) : Type 0 where
  pub key : String
  pub time : ℕ
  pub none_before : NoneBefore time r.entries
  pub used_then : WasUsedAt key time r.entries
  pub evicts : t ≡ evict r key
  pub fewer : length t.entries < length r.entries

least_used-chosen :
    (es : Map String RegistryEntry) (key : String) (time : ℕ)
    → least_used none es ≡ some (key, time)
    → NoneBefore time es × WasUsedAt key time es
unfolding least_used
least_used-chosen [] key time e = absurd (cc e)
least_used-chosen ((k, entry) ∷ es) key time e =
    let (le, none_before, from) = least_used-Improves key time k entry.last_used es e in
    ((le, none_before), from)

evict-fewer :
    (r : EntityRegistry) (key : String) (entry : RegistryEntry)
    → Map.get r.entries key ≡ some entry
    → length (evict r key).entries < length r.entries
unfolding evict
evict-fewer r key entry e = rw (e, evict) (length-delete r.entries key entry e)

evict_lru-chosen :
    (r : EntityRegistry) (key : String) (time : ℕ)
    → least_used none r.entries ≡ some (key, time)
    → evict_lru r ≡ evict r key
unfolding evict_lru
evict_lru-chosen r key time e = rw (e, evict_lru) refl

least_used-found :
    (es : Map String RegistryEntry)
    → 0 < length es
    → (key : String) × (time : ℕ) × (least_used none es ≡ some (key, time))
unfolding least_used
least_used-found [] more = absurd (omega (arith, more))
least_used-found ((k, entry) ∷ es) more = least_used-some k entry.last_used es

-- Where there are entries, one of those that were used longest ago is evicted, and there are fewer
-- entries then.
pub evict_lru-EvictsLeastUsed :
    (r : EntityRegistry) → 0 < length r.entries → EvictsLeastUsed r (evict_lru r)
evict_lru-EvictsLeastUsed r more =
    let (key, time, chosen) = least_used-found r.entries more in
    let (none_before, used_then) = least_used-chosen r.entries key time chosen in
    let (entry, held) = WasUsedAt-get key time r.entries used_then in
    let evicts = evict_lru-chosen r key time chosen in
    record {
      key = key;
      time = time;
      none_before = none_before;
      used_then = used_then;
      evicts = evicts;
      fewer = rw evicts (evict-fewer r key entry held);
    }

install-length :
    (sdk : Sdk) (s : Surroundings) (r : EntityRegistry) (g : Registration) (client : ℕ)
    → length (install sdk s r g client).0.entries ≤ length r.entries + 1
unfolding install
install-length sdk s r g client = length-set r.entries g.entity_id _

install-installed :
    (sdk : Sdk) (s : Surroundings) (r : EntityRegistry) (g : Registration) (client : ℕ)
    → (install sdk s r g client).1 ≡ waits installed
unfolding install
install-installed sdk s r g client = refl

-- A registration that nothing interferes with while it makes room for its client keeps the entries
-- within the capacity, whether it evicts an entry first or not.
pub make_room-install :
    (sdk : Sdk) (s later : Surroundings) (r : EntityRegistry) (g : Registration) (client : ℕ)
    → 0 < r.max_clients
    → length r.entries ≤ r.max_clients
    → (((make_room sdk s r g client).1 ≡ waits installed)
        × (length (make_room sdk s r g client).0.entries ≤ r.max_clients))
      ⊎ (((make_room sdk s r g client).1 ≡ waits (evicting client))
          × (length (install sdk later (make_room sdk s r g client).0 g client).0.entries
              ≤ r.max_clients))
unfolding make_room
make_room-install sdk s later r g client some_room within =
    elim (Bool-cases (leb r.max_clients (length r.entries))) [
      | inr free ↦ rw free (
          inl (
            install-installed sdk s r g client,
            ground (arith, free, install-length sdk s r g client),
          ))
      | inl full ↦
          let fewer = (evict_lru-EvictsLeastUsed r (ground (arith, full, some_room))).fewer in
          rw full
            (inr (refl, omega (arith, fewer, install-length sdk later (evict_lru r) g client)))
    ]
