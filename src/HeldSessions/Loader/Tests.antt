-- ===== src/HeldSessions/Loader/Tests.antt =====
-- The loader at three stored sessions and one slot.
use tinycloud_agents.Base.{ℕ, ◌≡◌, refl, none, some, List, [], ◌∷◌, true}
use tinycloud_agents.HeldSessions.Reload.{returned, unreachable, start_reload}
use tinycloud_agents.HeldSessions.Reload.Restore
use tinycloud_agents.SessionStore
use tinycloud_agents.SessionStore.{known, key}
use tinycloud_agents.Base.Map
use tinycloud_agents.HeldSessions.Reload.Tests.{surroundings, booted}
use tinycloud_agents.HeldSessions.Loader.{
  HeldSessions, new, pump, pump_from, includes, is_ready, take, run, conclude, release, retry_later,
  is_retried, settle, delay,
}
use tinycloud_agents.HeldSessions.Loader.Events.{
  Event, starts, indexes, advances, fires, play, step, index, start, loaded, first_of, add_pending,
  timer_fires,
}
use tinycloud_agents.HeldSessions.Loader.Slots.{Fits, loader-Fits}

abbrev loader : HeldSessions
loader = new booted (some 1) 2 none none

-- Two of the three are eager, and one of them is read.
abbrev indexed : List (ℕ × Event)
indexed = (1, starts) ∷ (2, indexes (some ("a" ∷ "b" ∷ "c" ∷ []))) ∷ []

second_waits : (play surroundings loader indexed).queue ≡ "b" ∷ []
unfolding play step index start new loaded pump pump_from first_of add_pending known key Map.get
    SessionStore.new includes is_ready take run Map.set
second_waits = refl

-- The store cannot be read: the second gets the slot, and the first comes back with its timer.
abbrev failing : List (ℕ × Event)
failing =
    (1, starts)
    ∷ (2, indexes (some ("a" ∷ "b" ∷ [])))
    ∷ (3, advances "a" unreachable)
    ∷ (4, advances "a" (returned true))
    ∷ (2000, fires "a")
    ∷ []

first_waits : (play surroundings loader failing).queue ≡ "a" ∷ []
unfolding play step index start new loaded pump pump_from first_of add_pending known key Map.get
    SessionStore.new includes is_ready take run Map.set start_reload Restore.resume timer_fires
    conclude release retry_later is_retried settle delay Map.delete
first_waits = refl

loader-Fits_example : Fits (play surroundings (new booted (some 1) 2 none none) failing)
loader-Fits_example = loader-Fits surroundings booted (some 1) 2 none none failing
