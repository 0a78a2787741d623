-- ===== src/WriteLane/Tests.antt =====
-- The theorems about the write lane at concrete inputs, and a run of it.
use tinycloud_agents.Base.{◌≡◌, refl, List, [], ◌∷◌, ◌++◌}
use tinycloud_agents.WriteLane.{
  starts, settles, overflows, Event, runs, finishes, new, play, step, run_write, finish, pump,
  pump_from, begin,
}
use tinycloud_agents.WriteLane.Laws.{play-order, started, accepted}

-- One slot, one place in the queue: the third write is rejected.
abbrev history : List Event
history = runs 1 ∷ runs 2 ∷ runs 3 ∷ finishes 1 ∷ runs 4 ∷ []

history_test : (play history (new 1 1)).1 ≡ starts 1 ∷ overflows 3 1 ∷ settles 1 ∷ starts 2 ∷ []
unfolding play step new run_write finish pump pump_from begin
history_test = refl

play-order_example :
    started (play history (new 1 1)).1 ++ (play history (new 1 1)).0.queue
    ≡ accepted history (new 1 1)
play-order_example = play-order 1 1 history
