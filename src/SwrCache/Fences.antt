-- ===== src/SwrCache/Fences.antt =====
-- An invalidation fences off the loads and the reads that began before it.
use tinycloud_agents.Base.{
  first, without, ℕ, ◌+◌, ◌≤◌, ◌<◌, ◌≡◌, ◌⊎◌, inl, inr, refl, ap, ◌∙◌, Bool, false, Option, none,
  some, List, [], ◌∷◌, String, arith, Bool-cases, ===-refl, ◌===◌, text_eq, number_eq,
  if◌then◌else◌, map,
}
use tinycloud_agents.Base.Map
use tinycloud_agents.SwrCache.{
  SwrCache, Load, ColdRead, Outcome, loaded, failed, Event, reads, sets, invalidates,
  invalidates_where, settles, expires, resumes, returns, revalidate_failed, same_revision, set,
  invalidate, invalidate_keys, invalidate_where, revalidate, read, store_result, release, conclude,
  settle, expire, answer, resume, step, play, load_of, read_of, race,
}

-- The revision was made before `n`, or is missing.
abbrev pub IsBefore : ℕ → Option ℕ → Type 0
IsBefore n none = Unit
IsBefore n (some r) = r < n

same_revision-IsBefore :
    (n r : ℕ) (o : Option ℕ) → IsBefore n o → n ≤ r → same_revision (some r) o ≡ false
unfolding same_revision
same_revision-IsBefore n r none h g = refl
same_revision-IsBefore n r (some a) h g = ground arith

module _ {V : Type 0} where
  abbrev pub revision_at : SwrCache V → String → Option ℕ
  revision_at c key = Map.get c.revisions key

  -- From `c` to `d` the revision of a key is kept, or new.
  pub record Grows (c d : SwrCache V) (key : String) : Type 0 where
    pub fresh : c.fresh ≤ d.fresh
    pub moves :
        (revision_at d key ≡ revision_at c key)
        ⊎ ((r : ℕ) × (revision_at d key ≡ some r) × (c.fresh ≤ r) × (r < d.fresh))

  Grows-refl : (c : SwrCache V) (key : String) → Grows c c key
  Grows-refl c key = record { fresh = omega arith; moves = inl refl }

  Grows-trans : (c d e : SwrCache V) (key : String) → Grows c d key → Grows d e key → Grows c e key
  Grows-trans c d e key g h = ground arith

  invalidate-Grows : (c : SwrCache V) (k key : String) → Grows c (invalidate k c) key
  unfolding invalidate
  invalidate-Grows c k key = elim (Bool-cases (k === key)) [
    | inl here ↦ record {
      fresh = omega arith;
      moves =
          inr (c.fresh, rw (Map.get-set c.revisions k key c.fresh, here), omega arith, omega arith);
    }
    | inr away ↦ record {
      fresh = omega arith;
      moves = inl (rw (Map.get-set c.revisions k key c.fresh, away));
    }
  ]

  invalidate_keys-Grows :
      (matches : String → Bool) (ks : List String) (c : SwrCache V) (key : String)
      → Grows c (invalidate_keys matches ks c) key
  unfolding invalidate_keys
  invalidate_keys-Grows matches [] c key = Grows-refl c key
  invalidate_keys-Grows matches (k ∷ ks) c key = elim (Bool-cases (matches k)) [
    | inl hit ↦ rw (hit) (
        Grows-trans c (invalidate k c) (invalidate_keys matches ks (invalidate k c)) key
          (invalidate-Grows c k key) (invalidate_keys-Grows matches ks (invalidate k c) key))
    | inr miss ↦ rw (miss) (invalidate_keys-Grows matches ks c key)
  ]

  revalidate-Grows : (c : SwrCache V) (k key : String) → Grows c (revalidate k c).0 key
  unfolding revalidate
  revalidate-Grows c k key = ground arith

  read-Grows :
      (now caller : ℕ) (k : String) (fallback : V) (c : SwrCache V) (key : String)
      → Grows c (read now caller k fallback c).0 key
  unfolding read
  read-Grows now caller k fallback c key = ground (arith, revalidate-Grows c k key)

  release-Grows : (l : Load) (c : SwrCache V) (key : String) → Grows c (release l c) key
  unfolding release
  release-Grows l c key = ground arith

  settle-Grows :
      (now run : ℕ) (result : Option V) (c : SwrCache V) (key : String)
      → Grows c (settle now run result c).0 key
  unfolding settle conclude release store_result set
  settle-Grows now run result c key = ground arith

  step-Grows :
      (now : ℕ) (e : Event V) (c : SwrCache V) (key : String) → Grows c (step now e c).0 key
  unfolding step set expire resume invalidate_where
  step-Grows now (reads caller k fallback) c key = read-Grows now caller k fallback c key
  step-Grows now (sets k value) c key = record { fresh = omega arith; moves = inl refl }
  step-Grows now (invalidates k) c key = invalidate-Grows c k key
  step-Grows now (invalidates_where matches) c key = invalidate_keys-Grows matches _ c key
  step-Grows now (settles run result) c key = settle-Grows now run result c key
  step-Grows now (expires caller) c key = record { fresh = omega arith; moves = inl refl }
  step-Grows now (resumes caller) c key = ground arith

  play-Grows : (es : List (ℕ × Event V)) (c : SwrCache V) (key : String) → Grows c (play es c).0 key
  unfolding play
  play-Grows [] c key = Grows-refl c key
  play-Grows ((now, e) ∷ es) c key =
      Grows-trans c (step now e c).0 (play es (step now e c).0).0 key (step-Grows now e c key)
        (play-Grows es (step now e c).0 key)

  invalidate-revision :
      (c : SwrCache V) (key : String) → revision_at (invalidate key c) key ≡ some c.fresh
  unfolding invalidate
  invalidate-revision c key = rw (Map.get-set c.revisions key key c.fresh, ===-refl key)

  invalidate-fresh : (c : SwrCache V) (key : String) → (invalidate key c).fresh ≡ c.fresh + 1
  unfolding invalidate
  invalidate-fresh c key = refl

  fenced :
      (c : SwrCache V) (key : String) (es : List (ℕ × Event V)) (o : Option ℕ)
      → IsBefore c.fresh o
      → same_revision (revision_at (play es (invalidate key c)).0 key) o ≡ false
  fenced c key es o h =
      let g = play-Grows es (invalidate key c) key in
      elim g.moves [
        | inl kept ↦
            rw (kept, invalidate-revision c key)
              (same_revision-IsBefore c.fresh c.fresh o h (omega arith))
        | inr (r, e, low, high) ↦
            rw (e)
              (same_revision-IsBefore c.fresh r o h (omega (arith, low, invalidate-fresh c key)))
      ]

  stale_load :
      (now : ℕ) (l : Load) (result : Option V) (c : SwrCache V)
      → same_revision (revision_at c l.key) l.revision ≡ false
      → store_result now l result c ≡ (c, failed)
  unfolding store_result
  stale_load now l none c h = refl
  stale_load now l (some value) c h = rw (h) refl

  release-store : (l : Load) (c : SwrCache V) → (release l c).store ≡ c.store
  unfolding release
  release-store l c = ground arith

  stale_conclude :
      (now : ℕ) (l : Load) (result : Option V) (c : SwrCache V)
      → same_revision (revision_at c l.key) l.revision ≡ false
      → ((conclude now l result c).0.store ≡ c.store)
        × ((conclude now l result c).1 ≡ revalidate_failed l.key ∷ [])
  unfolding conclude
  stale_conclude now l result c h = rw (stale_load now l result c h) (release-store l _, refl)

  settle-conclude :
      (now run : ℕ) (result : Option V) (l : Load) (c : SwrCache V)
      → load_of run c ≡ some l
      → settle now run result c
        ≡ conclude now l result (record c { loads = without (λ l. l.run === run) c.loads })
  unfolding settle
  settle-conclude now run result l c there = ground (arith, there)

  resume-answer :
      (caller : ℕ) (r : ColdRead V) (o : Outcome V) (c : SwrCache V)
      → read_of caller c ≡ some r
      → r.outcome ≡ some o
      → (resume caller c).1 ≡ returns caller (answer r o c) ∷ []
  unfolding resume
  resume-answer caller r o c there settled = ground (arith, there, settled)

  -- When a load of a key that began before the key was invalidated settles after it, whatever
  -- happened in between and whatever the loader returned, the cache stores nothing and reports
  -- that the load failed.
  pub invalidate-settle :
      (c : SwrCache V) (es : List (ℕ × Event V)) (now run : ℕ) (result : Option V) (l : Load)
      → IsBefore c.fresh l.revision
      → load_of run (play es (invalidate l.key c)).0 ≡ some l
      → let d = (play es (invalidate l.key c)).0 in
        ((settle now run result d).0.store ≡ d.store)
        × ((settle now run result d).1 ≡ revalidate_failed l.key ∷ [])
  invalidate-settle c es now run result l before there =
      rw (settle-conclude now run result l (play es (invalidate l.key c)).0 there)
        (stale_conclude now l result _ (fenced c l.key es l.revision before))

  stale_answer :
      (r : ColdRead V) (o : Outcome V) (c : SwrCache V)
      → same_revision (revision_at c r.key) r.revision ≡ false
      → answer r o c ≡ r.fallback
  unfolding answer
  stale_answer r (loaded value) c h = rw (h) refl
  stale_answer r failed c h = rw (h) refl

  -- A read that began before its key was invalidated and resumes after it, whatever happened in
  -- between and whatever its load came to, returns its fallback.
  pub invalidate-resume :
      (c : SwrCache V) (es : List (ℕ × Event V)) (caller : ℕ) (r : ColdRead V) (o : Outcome V)
      → IsBefore c.fresh r.revision
      → read_of caller (play es (invalidate r.key c)).0 ≡ some r
      → r.outcome ≡ some o
      → (resume caller (play es (invalidate r.key c)).0).1 ≡ returns caller r.fallback ∷ []
  invalidate-resume c es caller r o before there settled =
      let d = (play es (invalidate r.key c)).0 in
      resume-answer caller r o d there settled
      ∙ ap (λ (v : V). returns caller v ∷ [])
          (stale_answer r o d (fenced c r.key es r.revision before))

  -- A read that still waits is given the failure.
  first-race :
      (caller : ℕ) (o : Outcome V) (r : ColdRead V) (rs : List (ColdRead V))
      → first (λ x. x.caller === caller) rs ≡ some r
      → r.outcome ≡ none
      → first (λ x. x.caller === caller) (map (λ x. if x.caller === caller then race o x else x) rs)
        ≡ some (record r { outcome = some o })
  first-race caller o r [] there open_yet = cc
  first-race caller o r (x ∷ rs) there open_yet = ground (arith, first-race caller o r rs)

  expire-first :
      (caller : ℕ) (r : ColdRead V) (c : SwrCache V)
      → read_of caller c ≡ some r
      → r.outcome ≡ none
      → read_of caller (expire caller c) ≡ some (record r { outcome = some failed })
  unfolding expire read_of
  expire-first caller r c there open_yet = first-race caller failed r c.cold_reads there open_yet

  answer-failed :
      (caller : ℕ) (r : ColdRead V) (c : SwrCache V)
      → answer (record r { outcome = some failed }) failed (expire caller c) ≡ (
          if same_revision (revision_at c r.key) r.revision
          then elim (Map.get c.store r.key) [ some latest ↦ latest.value | none ↦ r.fallback ]
          else r.fallback)
  unfolding answer expire
  answer-failed caller r c = ground arith

  -- A read that still waits when its deadline passes returns: the value that the cache holds by
  -- then, unless the key was invalidated meanwhile, and otherwise its fallback.
  expire-returns :
      (caller : ℕ) (r : ColdRead V) (c : SwrCache V)
      → read_of caller c ≡ some r
      → r.outcome ≡ none
      → (resume caller (expire caller c)).1
        ≡ returns caller (
            if same_revision (revision_at c r.key) r.revision
            then elim (Map.get c.store r.key) [ some latest ↦ latest.value | none ↦ r.fallback ]
            else r.fallback)
          ∷ []
  expire-returns caller r c there open_yet =
      resume-answer caller (record r { outcome = some failed }) failed (expire caller c)
        (expire-first caller r c there open_yet) refl
      ∙ ap (λ (v : V). returns caller v ∷ []) (answer-failed caller r c)
