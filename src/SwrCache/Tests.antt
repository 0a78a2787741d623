-- ===== src/SwrCache/Tests.antt =====
-- The theorems about the cache at concrete inputs, and runs of it.
use tinycloud_agents.Base.{ℕ, ◌≡◌, refl, Option, none, some, List, [], ◌∷◌}
use tinycloud_agents.Base.Map
use tinycloud_agents.SwrCache.{
  SwrCache, Load, ColdRead, Outcome, Event, reads, settles, resumes, loaded, starts_load, returns,
  revalidate_failed, new, set, invalidate, revalidate, read, store_result, release, conclude,
  settle, answer, resume, step, play, load_of, read_of, same_revision, is_fresh,
}
use tinycloud_agents.SwrCache.Issued.{invalidated_load_fails}
use tinycloud_agents.SwrCache.Fences.{invalidate-resume}

abbrev history : List (ℕ × Event ℕ)
history =
    (0, reads 1 "a" 0)
    ∷ (1, reads 2 "a" 0)
    ∷ (5, settles 0 (some 9))
    ∷ (5, resumes 1)
    ∷ (5, resumes 2)
    ∷ (14, reads 3 "a" 0)
    ∷ (15, reads 4 "a" 0)
    ∷ []

abbrev empty : SwrCache ℕ
empty = new 10

-- A cold read, a second one for the same load, and the value for both, which is then fresh and
-- later stale.
shared_load :
    (play history empty).1
    ≡ starts_load 0 "a"
      ∷ returns 1 9
      ∷ returns 2 9
      ∷ returns 3 9
      ∷ starts_load 1 "a"
      ∷ returns 4 9
      ∷ []
unfolding play step read revalidate settle conclude release store_result same_revision set resume
    answer new load_of read_of is_fresh Map.get Map.set Map.delete
shared_load = refl

abbrev load : Load
load = record { run = 0; key = "a"; revision = none }

abbrev cold : Option (Outcome ℕ) → ColdRead ℕ
cold o = record { caller = 1; key = "a"; run = 0; revision = none; fallback = 3; outcome = o }

-- The cache with one read of a key, whose load has come to `o`.
abbrev waiting : Option (Outcome ℕ) → SwrCache ℕ
waiting o = record {
  store = [];
  inflight = ("a", 0) ∷ [];
  revisions = [];
  loads = load ∷ [];
  cold_reads = cold o ∷ [];
  fresh = 1;
  ttl_ms = 10;
}

abbrev again : List (ℕ × Event ℕ)
again = (2, reads 2 "a" 4) ∷ []

abbrev before : List (ℕ × Event ℕ)
before = (0, reads 1 "a" 3) ∷ []

abbrev loading : SwrCache ℕ
loading = (play before empty).0

load_waits : load_of 0 loading ≡ some load
unfolding play step read revalidate new load_of Map.get Map.set
load_waits = refl

load_stands : load_of 0 (play again (invalidate "a" loading)).0 ≡ some load
unfolding play step read revalidate invalidate new load_of Map.get Map.set Map.delete
load_stands = refl

invalidated_load_fails_example :
    let d = (play again (invalidate "a" loading)).0 in
    ((settle 7 0 (some 9) d).0.store ≡ d.store)
    × ((settle 7 0 (some 9) d).1 ≡ revalidate_failed "a" ∷ [])
invalidated_load_fails_example =
    invalidated_load_fails 10 before again 7 0 (some 9) load load_waits load_stands

read_stands :
    read_of 1 (play again (invalidate "a" (waiting (some (loaded 9))))).0
    ≡ some (cold (some (loaded 9)))
unfolding play step read revalidate invalidate read_of Map.get Map.set Map.delete
read_stands = refl

invalidate-resume_example :
    (resume 1 (play again (invalidate "a" (waiting (some (loaded 9))))).0).1 ≡ returns 1 3 ∷ []
invalidate-resume_example =
    invalidate-resume (waiting (some (loaded 9))) again 1 (cold (some (loaded 9))) (loaded 9) tt
      read_stands refl

read_waits : read_of 1 (waiting none) ≡ some (cold none)
unfolding read_of
read_waits = refl
