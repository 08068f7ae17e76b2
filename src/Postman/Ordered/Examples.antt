-- ===== src/Postman/Ordered/Examples.antt =====
-- A call whose second event was parked, and whose first the feed missed.
use rekuest.Prelude.{◌≡◌, refl, some, List, [], ◌∷◌, String, string_eq, ℕ}
use rekuest.Prelude.Dict.{lookup, insert}
use rekuest.Postman.{
  TaskEventChange, other_kind, GraphqlPostman, new_postman, events, bind, catch_up, catch_up_safely,
  flush, queue_of, untaken, still_waiting, taken_ids,
}
use rekuest.Postman.Ordered.Runs.{Following}

abbrev E : Type 0
E = TaskEventChange ℕ

abbrev numbered : String → ℕ → E
numbered id n = record { id = id; task = "t"; kind = other_kind; payload = n }

abbrev both : List E
both = numbered "e1" 1 ∷ numbered "e2" 2 ∷ []

-- The call has opened its queue, and the feed has shown its task's second event only.
abbrev opened : GraphqlPostman ℕ
opened = record new_postman {
  update_queues = ("r", []) ∷ [];
  orphan_events = ("t", numbered "e2" 2 ∷ []) ∷ [];
  routed_event_ids = ("t", "e2" ∷ []) ∷ [];
}

abbrev caught : Following ℕ
caught = record {
  postman = catch_up_safely "t" (some both) (bind "t" "r" opened);
  taken = [];
  log = both;
}

-- What the feed missed stands in front.
missed_in_front : lookup "r" caught.postman.update_queues ≡ some (events both)
unfolding lookup catch_up_safely catch_up bind flush queue_of untaken still_waiting taken_ids insert
missed_in_front = refl
