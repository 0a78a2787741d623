-- ===== src/HeldSessions/Kv/Listing.antt =====
-- The loop over the pages of a listing.
use tinycloud_agents.Base.{
  ℕ, suc, ◌+◌, ◌≤◌, ◌≡◌, Bool, true, Option, none, some, List, ◌++◌, String,
}
use tinycloud_agents.HeldSessions.Kv.{
  KvError, succeeded, failed, Call, call, Page, next_of, matching, is_missing_key, list_from,
}

module _ (says_not_found : String → Bool) (prefix : String)
    (node : ℕ → Option String → Call Page) where
  -- The node, asked for page `i` with this cursor, comes to an end after some pages: the last one is
  -- not followed by another, or says that there is no such key. The keys so far are extended by those
  -- of each page that have the prefix.
  pub data Listing : ℕ → ℕ → Bool → Option String → List String → List String → Type 0 where
    last :
        {i : ℕ} {signed_in : Bool} {cursor : Option String} {keys : List String} (p : Page)
        → (call signed_in (node i cursor)).1 ≡ some (succeeded p)
        → next_of p ≡ none
        → Listing 1 i signed_in cursor keys (keys ++ matching prefix p.keys)
    missing :
        {i : ℕ} {signed_in : Bool} {cursor : Option String} {keys : List String} (e : KvError)
        → (call signed_in (node i cursor)).1 ≡ some (failed e)
        → is_missing_key says_not_found e ≡ true
        → Listing 1 i signed_in cursor keys keys
    more :
        {n i : ℕ} {signed_in : Bool} {cursor : Option String} {keys out : List String} (p : Page)
        (c : String)
        → (call signed_in (node i cursor)).1 ≡ some (succeeded p)
        → next_of p ≡ some c
        → Listing n
            (i + 1)
            (call signed_in (node i cursor)).0
            (some c)
            (keys ++ matching prefix p.keys)
            out
        → Listing (suc n) i signed_in cursor keys out

  -- What the loop gives is a listing of at most so many pages.
  abbrev pub ListsWithin : ℕ → ℕ → Bool → Option String → List String → List String → Type 0
  ListsWithin limit i signed_in cursor keys out =
      (n : ℕ) × (n ≤ limit) × Listing n i signed_in cursor keys out

  -- One page more, where the pages that follow are within the limit.
  module _ (limit i : ℕ) (signed_in : Bool) (cursor : Option String) (keys out : List String) where
    abbrev rest : Bool → String → List String → Option (List String)
    rest s c ks = list_from says_not_found prefix node limit (i + 1) s (some c) ks

    abbrev Follows : Type 0
    Follows =
        (s : Bool) (c : String) (ks : List String)
        → rest s c ks ≡ some out
        → ListsWithin limit (i + 1) s (some c) ks out
