-- ===== src/Microbatcher/Tests.antt =====
-- The batcher at a concrete history.
use tinycloud_agents.Base.{ℕ, ◌≡◌, refl, none, some, List, [], ◌∷◌, true, String}
use tinycloud_agents.Base.Map
use tinycloud_agents.Base.Map.{Map}
use tinycloud_agents.Microbatcher.{
  Batch, new, enlist, request, flush_group, resolutions, settle, resolves,
}
use tinycloud_agents.Microbatcher.Requests.{Event, asks, flushes, waiting}
use tinycloud_agents.Microbatcher.Coalescing.{play, Delivers, play-Delivers}

-- The first batch of "g" has gone when three more requests come.
abbrev history : List Event
history =
    asks (record { group = "g"; member = "a"; id = 1 })
    ∷ flushes "g"
    ∷ asks (record { group = "g"; member = "a"; id = 2 })
    ∷ asks (record { group = "h"; member = "a"; id = 3 })
    ∷ asks (record { group = "g"; member = "b"; id = 4 })
    ∷ asks (record { group = "g"; member = "a"; id = 5 })
    ∷ []

abbrev slices : Map String ℕ
slices = ("a", 7) ∷ []

abbrev batch : Batch
batch = record {
  group = "g";
  members = "a" ∷ "b" ∷ [];
  waiting = record {
    members = ("a", 2 ∷ 5 ∷ []) ∷ ("b", 4 ∷ []) ∷ [];
    rejecters = 2 ∷ 4 ∷ 5 ∷ [];
    armed = true;
  };
}

flushed : (flush_group (play new history) "g").1 ≡ some batch
unfolding play request enlist flush_group Map.get Map.set Map.delete
flushed = refl

settled :
    settle batch (some slices) ≡ resolves (("a", (2 ∷ 5 ∷ [], some 7)) ∷ ("b", (4 ∷ [], none)) ∷ [])
unfolding settle resolutions Map.get
settled = refl

play-Delivers_example :
    Delivers "g" (waiting [] history) slices (flush_group (play new history) "g").1
play-Delivers_example = play-Delivers history "g" slices
