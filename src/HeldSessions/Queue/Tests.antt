-- ===== src/HeldSessions/Queue/Tests.antt =====
-- The write queue at a concrete history: a put that fails after it landed, then a removal.
use tinycloud_agents.Base.{◌≡◌, refl, true, false, none, some, List, [], ◌∷◌}
use tinycloud_agents.HeldSessions.{put, delete}
use tinycloud_agents.HeldSessions.Tests.{published}
use tinycloud_agents.HeldSessions.Queue.{
  new, sync, play, step, retry_fires, start, finish, stop, Event, syncs, retries, stops, starts,
  ends, succeeded, failed,
}
use tinycloud_agents.HeldSessions.Queue.Order.{InOrder, queue-InOrder}
use tinycloud_agents.HeldSessions.Queue.Removal.{afterwards, sync-removes, sync-retries}

-- A put is queued and starts.
abbrev publishing : List Event
publishing = syncs ∷ starts (put published) ∷ []

-- The put fails after it landed, the delete fails, its retry deletes.
abbrev removing : List Event
removing =
    ends (failed true)
    ∷ starts delete
    ∷ ends (failed false)
    ∷ retries
    ∷ starts delete
    ∷ ends succeeded
    ∷ syncs
    ∷ starts delete
    ∷ ends succeeded
    ∷ []

sync-removes_example :
    (afterwards 1000 60000 none publishing
      (ends (failed true) ∷ starts delete ∷ ends succeeded ∷ [])).stored
    ≡ none
unfolding new sync step play retry_fires start finish stop
sync-removes_example =
    sync-removes 1000 60000 none publishing
      (ends (failed true) ∷ starts delete ∷ ends succeeded ∷ []) (tt, (refl, (tt, tt))) refl

sync-retries_example : (afterwards 1000 60000 none publishing removing).stored ≡ none
unfolding new sync step play retry_fires start finish stop
sync-retries_example =
    sync-retries 1000 60000 none publishing removing
      (tt, (refl, (tt, (tt, (refl, (tt, (tt, (refl, (tt, tt))))))))) refl refl

queue-InOrder_example :
    InOrder (play (new 1000 60000 none) (syncs ∷ starts (put published) ∷ syncs ∷ []))
queue-InOrder_example = queue-InOrder 1000 60000 none (syncs ∷ starts (put published) ∷ syncs ∷ [])

-- The delay before the next try of a delete.
second_delay :
    (play (new 1000 60000 none) (
      syncs
      ∷ starts delete
      ∷ ends (failed false)
      ∷ retries
      ∷ starts delete
      ∷ ends (failed true)
      ∷ [])).retry
    ≡ some 2000
unfolding new sync step play retry_fires start finish
second_delay = refl

-- A stopped store does not try again.
stopped_once :
    (play (new 1000 60000 none) (syncs ∷ starts delete ∷ stops ∷ ends (failed false) ∷ [])).retry
    ≡ none
unfolding new sync step play stop start finish
stopped_once = refl
