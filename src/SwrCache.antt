-- ===== src/SwrCache.antt =====
-- packages/eliza-plugin-memory/src/caches.ts: the stale-while-revalidate cache.
--
-- Objects that the source compares by identity, the promise of a load and the revision that an
-- invalidation makes, are numbers taken from `fresh`. `loads` and `cold_reads` hold the suspended
-- activations of `revalidate` and of `read`; the event loop settles the first and resumes the
-- second. Time is an argument.
pub mod Fences
mod Issued
mod Tests
use text.Mathlib.Text.{starts_with}
use tinycloud_agents.Base.{
  first, without, distinct, ℕ, ◌+◌, Bool, true, false, not, ◌||◌, Option, none, some, List, [], ◌∷◌,
  ◌++◌, String, ltb, map, if◌then◌else◌, ◌===◌, nat_beq, number_eq, text_eq,
}
use tinycloud_agents.Base.Map.{Map}
use tinycloud_agents.Base.Map

pub record SwrEntry (V : Type 0) : Type 0 where
  pub value : V
  pub stored_at : ℕ

-- The activation of `revalidate` that waits for its loader.
pub record Load : Type 0 where
  pub run : ℕ
  pub key : String
  pub revision : Option ℕ

-- What a load, raced with its deadline, has come to; an error is `failed`.
pub data Outcome (V : Type 0) : Type 0 where
  loaded : V → Outcome V
  failed : Outcome V

-- The activation of `read` that waits for the load `run` or its deadline.
pub record ColdRead (V : Type 0) : Type 0 where
  pub caller : ℕ
  pub key : String
  pub run : ℕ
  pub revision : Option ℕ
  pub fallback : V
  pub outcome : Option (Outcome V)

pub record SwrCache (V : Type 0) : Type 0 where
  pub store : Map String (SwrEntry V)
  pub inflight : Map String ℕ
  pub revisions : Map String ℕ
  pub loads : List Load
  pub cold_reads : List (ColdRead V)
  pub fresh : ℕ
  pub ttl_ms : ℕ

pub data Effect (V : Type 0) : Type 0 where
  starts_load : ℕ → String → Effect V
  returns : ℕ → V → Effect V
  revalidate_failed : String → Effect V

-- `===` on the revision of a key, which may be missing.
pub same_revision : Option ℕ → Option ℕ → Bool
same_revision none none = true
same_revision none (some b) = false
same_revision (some a) none = false
same_revision (some a) (some b) = a === b

abbrev pub keys : {A : Type 0} → Map String A → List String
keys entries = map (λ e. e.0) entries

abbrev pub Turn : Type 0 → Type 0
Turn V = SwrCache V × List (Effect V)

module _ {V : Type 0} where
  pub new : ℕ → SwrCache V
  new ttl_ms = record {
    store = [];
    inflight = [];
    revisions = [];
    loads = [];
    cold_reads = [];
    fresh = 0;
    ttl_ms = ttl_ms;
  }

  pub peek : String → SwrCache V → Option (SwrEntry V)
  peek key c = Map.get c.store key

  pub set : ℕ → String → V → SwrCache V → SwrCache V
  set now key value c = record c {
    store = Map.set c.store key (record { value = value; stored_at = now });
  }

  pub invalidate : String → SwrCache V → SwrCache V
  invalidate key c = record c {
    store = Map.delete c.store key;
    inflight = Map.delete c.inflight key;
    revisions = Map.set c.revisions key c.fresh;
    fresh = c.fresh + 1;
  }

  -- The loop of `invalidateWhere`, over keys.
  pub invalidate_keys : (String → Bool) → List String → SwrCache V → SwrCache V
  invalidate_keys matches [] c = c
  invalidate_keys matches (key ∷ rest) c =
      invalidate_keys matches rest (if matches key then invalidate key c else c)

  pub invalidate_where : (String → Bool) → SwrCache V → SwrCache V
  invalidate_where matches c =
      invalidate_keys matches (distinct (keys c.store ++ keys c.inflight)) c

  pub invalidate_prefix : String → SwrCache V → SwrCache V
  invalidate_prefix prefix c = invalidate_where (λ key. starts_with key prefix) c

  -- `now - storedAt < ttl`, on times in any order.
  pub is_fresh : ℕ → SwrEntry V → SwrCache V → Bool
  is_fresh now entry c = ltb now (entry.stored_at + c.ttl_ms)

  -- `revalidate` up to its first `await`, with the promise that it returns.
  pub revalidate : String → SwrCache V → SwrCache V × ℕ × List (Effect V)
  revalidate key c = elim (Map.get c.inflight key) [
    | some existing ↦ (c, existing, [])
    | none ↦ (
      record c {
        inflight = Map.set c.inflight key c.fresh;
        loads = record { run = c.fresh; key = key; revision = Map.get c.revisions key } ∷ c.loads;
        fresh = c.fresh + 1;
      },
      c.fresh,
      starts_load c.fresh key ∷ [],
    )
  ]

  -- `read` up to its first `await`.
  pub read : ℕ → ℕ → String → V → SwrCache V → Turn V
  read now caller key fallback c = elim (Map.get c.store key) [
    | some entry ↦
        if is_fresh now entry c
        then (c, returns caller entry.value ∷ [])
        else (let (c', run, effects) = revalidate key c in
            (c', effects ++ returns caller entry.value ∷ []))
    | none ↦
        let (c', run, effects) = revalidate key c in
        (
          record c' {
            cold_reads =
                record {
                  caller = caller;
                  key = key;
                  run = run;
                  revision = Map.get c.revisions key;
                  fallback = fallback;
                  outcome = none;
                }
                ∷ c'.cold_reads;
          },
          effects,
        )
  ]

  -- The `try` of a load whose loader has returned a value, or thrown.
  pub store_result : ℕ → Load → Option V → SwrCache V → SwrCache V × Outcome V
  store_result now l none c = (c, failed)
  store_result now l (some value) c =
      if same_revision (Map.get c.revisions l.key) l.revision
      then (set now l.key value c, loaded value)
      else (c, failed)

  abbrev pub reports : Load → Outcome V → List (Effect V)
  reports l (loaded value) = []
  reports l failed = revalidate_failed l.key ∷ []

  -- The `finally` of a load.
  pub release : Load → SwrCache V → SwrCache V
  release l c = elim (Map.get c.inflight l.key) [
    | some run ↦ if run === l.run then record c { inflight = Map.delete c.inflight l.key } else c
    | none ↦ c
  ]

  -- The first outcome of a cold read counts.
  abbrev pub race : Outcome V → ColdRead V → ColdRead V
  race o r = elim r.outcome [ none ↦ record r { outcome = some o } | some _ ↦ r ]

  abbrev pub deliver : (ColdRead V → Bool) → Outcome V → SwrCache V → SwrCache V
  deliver waits o c = record c {
    cold_reads = map (λ r. if waits r then race o r else r) c.cold_reads;
  }

  pub load_of : ℕ → SwrCache V → Option Load
  load_of run c = first (λ l. l.run === run) c.loads

  pub read_of : ℕ → SwrCache V → Option (ColdRead V)
  read_of caller c = first (λ r. r.caller === caller) c.cold_reads

  pub conclude : ℕ → Load → Option V → SwrCache V → Turn V
  conclude now l result c =
      let (c', o) = store_result now l result c in
      (release l (deliver (λ r. r.run === l.run) o c'), reports l o)

  -- The loader of the load `run` has settled.
  pub settle : ℕ → ℕ → Option V → SwrCache V → Turn V
  settle now run result c = elim (load_of run c) [
    | none ↦ (c, [])
    | some l ↦ conclude now l result (record c { loads = without (λ l. l.run === run) c.loads })
  ]

  -- The timer of `withDeadline` runs out.
  pub expire : ℕ → SwrCache V → SwrCache V
  expire caller c = deliver (λ r. r.caller === caller) failed c

  -- What `read` returns after its `await`.
  pub answer : ColdRead V → Outcome V → SwrCache V → V
  answer r (loaded value) c =
      if same_revision (Map.get c.revisions r.key) r.revision then value else r.fallback
  answer r failed c =
      if not (same_revision (Map.get c.revisions r.key) r.revision)
      then r.fallback
      else elim (Map.get c.store r.key) [ some latest ↦ latest.value | none ↦ r.fallback ]

  pub resume : ℕ → SwrCache V → Turn V
  resume caller c = elim (read_of caller c) [
    | none ↦ (c, [])
    | some r ↦ elim r.outcome [
      | none ↦ (c, [])
      | some o ↦ (
        record c { cold_reads = without (λ r. r.caller === caller) c.cold_reads },
        returns caller (answer r o c) ∷ [],
      )
    ]
  ]

-- What the event loop can do next.
pub data Event (V : Type 0) : Type 0 where
  reads : ℕ → String → V → Event V
  sets : String → V → Event V
  invalidates : String → Event V
  invalidates_where : (String → Bool) → Event V
  settles : ℕ → Option V → Event V
  expires : ℕ → Event V
  resumes : ℕ → Event V

pub step : {V : Type 0} → ℕ → Event V → SwrCache V → Turn V
step now (reads caller key fallback) c = read now caller key fallback c
step now (sets key value) c = (set now key value c, [])
step now (invalidates key) c = (invalidate key c, [])
step now (invalidates_where matches) c = (invalidate_where matches c, [])
step now (settles run result) c = settle now run result c
step now (expires caller) c = (expire caller c, [])
step now (resumes caller) c = resume caller c

pub play : {V : Type 0} → List (ℕ × Event V) → SwrCache V → Turn V
play [] c = (c, [])
play ((now, e) ∷ es) c =
    let (c', effects) = step now e c in let (c'', more) = play es c' in (c'', effects ++ more)
