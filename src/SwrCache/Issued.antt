-- ===== src/SwrCache/Issued.antt =====
-- The revisions that a cache holds, and those of its loads and reads, were made before.
use tinycloud_agents.Base.{
  first, without, ℕ, ◌+◌, ◌≤◌, ◌≡◌, ◌⊎◌, Bool, Option, none, some, List, [], ◌∷◌, String, All,
  arith, Bool-cases, Option-cases, inl, inr, ◌∙◌, subst, refl, ◌===◌, text_eq, number_eq,
}
use tinycloud_agents.Base.Map
use tinycloud_agents.SwrCache.{
  SwrCache, Load, Event, reads, sets, invalidates, invalidates_where, settles, expires, resumes,
  revalidate_failed, new, set, invalidate, invalidate_keys, invalidate_where, revalidate, read,
  store_result, release, conclude, settle, expire, resume, step, play, load_of, deliver,
}
use tinycloud_agents.SwrCache.Fences.{revision_at, IsBefore, invalidate-settle}

IsBefore-mono : (m n : ℕ) (o : Option ℕ) → m ≤ n → IsBefore m o → IsBefore n o
IsBefore-mono m n none h b = tt
IsBefore-mono m n (some r) h b = omega (arith, h, b)

abbrev LoadsBefore : ℕ → List Load → Type 0
LoadsBefore n ls = All (λ l. IsBefore n l.revision) ls

LoadsBefore-mono : (m n : ℕ) (ls : List Load) → m ≤ n → LoadsBefore m ls → LoadsBefore n ls
LoadsBefore-mono m n [] h b = tt
LoadsBefore-mono m n (l ∷ ls) h (b, bs) =
    (IsBefore-mono m n l.revision h b, LoadsBefore-mono m n ls h bs)

without-LoadsBefore :
    (p : Load → Bool) (n : ℕ) (ls : List Load) → LoadsBefore n ls → LoadsBefore n (without p ls)
without-LoadsBefore p n [] b = tt
without-LoadsBefore p n (l ∷ ls) (b, bs) = elim (Bool-cases (p l)) [
  | inl y ↦ rw (y) (without-LoadsBefore p n ls bs)
  | inr y ↦ rw (y) (b, without-LoadsBefore p n ls bs)
]

load_inv : (x l : Load) → some x ≡ some l → x ≡ l
load_inv x l e = cc e

first-LoadsBefore :
    (p : Load → Bool) (n : ℕ) (ls : List Load) (l : Load)
    → LoadsBefore n ls
    → first p ls ≡ some l
    → IsBefore n l.revision
first-LoadsBefore p n [] l b e = absurd (cc e)
first-LoadsBefore p n (x ∷ xs) l (b, bs) e = elim (Bool-cases (p x)) [
  | inl y ↦ subst (λ z. IsBefore n z.revision) (load_inv x l (ground (arith, y, e))) b
  | inr y ↦ first-LoadsBefore p n xs l bs (ground (arith, y, e))
]

module _ {V : Type 0} where
  record Issued (c : SwrCache V) : Type 0 where
    revisions : (key : String) → IsBefore c.fresh (revision_at c key)
    loads : LoadsBefore c.fresh c.loads

  invalidate-Issued : (k : String) (c : SwrCache V) → Issued c → Issued (invalidate k c)
  unfolding invalidate
  invalidate-Issued k c i = record {
    revisions = λ key. elim (Bool-cases (k === key)) [
      | inl y ↦ rw (Map.get-set c.revisions k key c.fresh, y) (omega arith)
      | inr y ↦
          rw (Map.get-set c.revisions k key c.fresh, y)
            (IsBefore-mono c.fresh (c.fresh + 1) (revision_at c key) (omega arith)
              (i.revisions key))
    ];
    loads = LoadsBefore-mono c.fresh (c.fresh + 1) c.loads (omega arith) i.loads;
  }

  invalidate_keys-Issued :
      (matches : String → Bool) (ks : List String) (c : SwrCache V)
      → Issued c
      → Issued (invalidate_keys matches ks c)
  unfolding invalidate_keys
  invalidate_keys-Issued matches [] c i = i
  invalidate_keys-Issued matches (k ∷ ks) c i = elim (Bool-cases (matches k)) [
    | inl y ↦ rw (y) (invalidate_keys-Issued matches ks (invalidate k c) (invalidate-Issued k c i))
    | inr y ↦ rw (y) (invalidate_keys-Issued matches ks c i)
  ]

  -- Only the counter, which may grow, the revisions and the loads matter.
  same-Issued :
      (c d : SwrCache V)
      → d.fresh ≡ c.fresh
      → d.revisions ≡ c.revisions
      → d.loads ≡ c.loads
      → Issued c
      → Issued d
  same-Issued c d f r l i = record {
    revisions = λ key. rw (f, r) (i.revisions key);
    loads = rw (f, l) i.loads;
  }

  revalidate-Issued : (k : String) (c : SwrCache V) → Issued c → Issued (revalidate k c).0
  unfolding revalidate
  revalidate-Issued k c i = elim (Option-cases (Map.get c.inflight k)) [
    | inr (r, e) ↦ rw (e, revalidate) i
    | inl e ↦
        rw (e, revalidate)
          (record {
            revisions = λ key.
                IsBefore-mono c.fresh (c.fresh + 1) (revision_at c key) (omega arith)
                  (i.revisions key);
            loads = (
              IsBefore-mono c.fresh (c.fresh + 1) (revision_at c k) (omega arith) (i.revisions k),
              LoadsBefore-mono c.fresh (c.fresh + 1) c.loads (omega arith) i.loads,
            );
          })
  ]

  release_same :
      (l : Load) (c : SwrCache V)
      → ((release l c).fresh ≡ c.fresh)
        × ((release l c).revisions ≡ c.revisions)
        × ((release l c).loads ≡ c.loads)
  unfolding release
  release_same l c = ground arith

  store_result_same :
      (now : ℕ) (l : Load) (result : Option V) (c : SwrCache V)
      → ((store_result now l result c).0.fresh ≡ c.fresh)
        × ((store_result now l result c).0.revisions ≡ c.revisions)
        × ((store_result now l result c).0.loads ≡ c.loads)
  unfolding store_result set
  store_result_same now l result c = ground arith

  conclude-Issued :
      (now : ℕ) (l : Load) (result : Option V) (c : SwrCache V)
      → Issued c
      → Issued (conclude now l result c).0
  unfolding conclude
  conclude-Issued now l result c i =
      let (f, r, m) = store_result_same now l result c in
      let t = store_result now l result c in
      let (g, s, n) = release_same l (deliver (λ r. r.run === l.run) t.1 t.0) in
      same-Issued c (conclude now l result c).0 (g ∙ f) (s ∙ r) (n ∙ m) i

  settle-Issued :
      (now run : ℕ) (result : Option V) (c : SwrCache V)
      → Issued c
      → Issued (settle now run result c).0
  unfolding settle
  settle-Issued now run result c i = elim (Option-cases (load_of run c)) [
    | inl e ↦ rw (e, settle) i
    | inr (l, e) ↦
        rw (e, settle)
          (conclude-Issued now l result (record c { loads = without (λ l. l.run === run) c.loads })
            (record {
              revisions = i.revisions;
              loads = without-LoadsBefore (λ l. l.run === run) c.fresh c.loads i.loads;
            }))
  ]

  read_same :
      (now caller : ℕ) (key : String) (fallback : V) (c : SwrCache V)
      → let d = (read now caller key fallback c).0 in
        ((d.fresh ≡ c.fresh) × (d.revisions ≡ c.revisions) × (d.loads ≡ c.loads))
        ⊎ ((d.fresh ≡ (revalidate key c).0.fresh)
            × (d.revisions ≡ (revalidate key c).0.revisions)
            × (d.loads ≡ (revalidate key c).0.loads))
  unfolding read
  read_same now caller key fallback c = ground arith

  read-Issued :
      (now caller : ℕ) (key : String) (fallback : V) (c : SwrCache V)
      → Issued c
      → Issued (read now caller key fallback c).0
  read-Issued now caller key fallback c i = elim (read_same now caller key fallback c) [
    | inl (f, r, l) ↦ same-Issued c _ f r l i
    | inr (f, r, l) ↦ same-Issued (revalidate key c).0 _ f r l (revalidate-Issued key c i)
  ]

  resume_same :
      (caller : ℕ) (c : SwrCache V)
      → let d = (resume caller c).0 in
        (d.fresh ≡ c.fresh) × (d.revisions ≡ c.revisions) × (d.loads ≡ c.loads)
  unfolding resume
  resume_same caller c = ground arith

  step-Issued : (now : ℕ) (e : Event V) (c : SwrCache V) → Issued c → Issued (step now e c).0
  unfolding step set expire invalidate_where
  step-Issued now (reads caller key fallback) c i = read-Issued now caller key fallback c i
  step-Issued now (sets key value) c i = same-Issued c _ refl refl refl i
  step-Issued now (invalidates key) c i = invalidate-Issued key c i
  step-Issued now (invalidates_where matches) c i = invalidate_keys-Issued matches _ c i
  step-Issued now (settles run result) c i = settle-Issued now run result c i
  step-Issued now (expires caller) c i = same-Issued c _ refl refl refl i
  step-Issued now (resumes caller) c i =
      let (f, r, l) = resume_same caller c in same-Issued c _ f r l i

  play-Issued : (es : List (ℕ × Event V)) (c : SwrCache V) → Issued c → Issued (play es c).0
  unfolding play
  play-Issued [] c i = i
  play-Issued ((now, e) ∷ es) c i = play-Issued es (step now e c).0 (step-Issued now e c i)

  new-Issued : (ttl_ms : ℕ) → Issued (new {V = V} ttl_ms)
  unfolding new Map.get
  new-Issued ttl_ms = record { revisions = λ key. tt; loads = tt }

  issued_load :
      (ttl_ms : ℕ) (es : List (ℕ × Event V)) (run : ℕ) (l : Load)
      → load_of run (play es (new ttl_ms)).0 ≡ some l
      → IsBefore (play es (new ttl_ms)).0.fresh l.revision
  unfolding load_of
  issued_load ttl_ms es run l there =
      let c = (play es (new ttl_ms)).0 in
      first-LoadsBefore (λ l. l.run === run) c.fresh c.loads l
        (play-Issued es (new ttl_ms) (new-Issued ttl_ms)).loads there

  -- After any history of a new cache, a load of a key that waits when the key is invalidated, and
  -- that settles after any further history, stores nothing, whatever its loader returned, and is
  -- reported as failed.
  pub invalidated_load_fails :
      (ttl_ms : ℕ) (before after : List (ℕ × Event V)) (now run : ℕ) (result : Option V) (l : Load)
      → load_of run (play before (new ttl_ms)).0 ≡ some l
      → load_of run (play after (invalidate l.key (play before (new ttl_ms)).0)).0 ≡ some l
      → let d = (play after (invalidate l.key (play before (new ttl_ms)).0)).0 in
        ((settle now run result d).0.store ≡ d.store)
        × ((settle now run result d).1 ≡ revalidate_failed l.key ∷ [])
  invalidated_load_fails ttl_ms before after now run result l was still =
      invalidate-settle (play before (new ttl_ms)).0 after now run result l
        (issued_load ttl_ms before run l was) still
