-- ===== src/Postman/Examples.antt =====
-- A call whose events come from the feed and from a read, and one that loses its feed.
use rekuest.Prelude.{
  ◌++◌, List, true, false, ◌↔◌, ◌⊎◌, true, Option, ℕ, ◌≤◌, ◌≡◌, refl, none, some, List, [], ◌∷◌,
  String, not, ◌&&◌, ◌||◌, contains, string_eq,
}
use rekuest.Prelude.Dict.{lookup}
use rekuest.Postman.{
  queue_of, other_kind, TaskEventChange, Item, event, GraphqlPostman, new_postman, ids, event_ids,
  catch_up, events, follow, fail_pending,
}
use rekuest.Postman.CatchUp.{Distinct, Part, losses, catch_up_lem}
use rekuest.Postman.Ends.{fail_pending_wakes}
use rekuest.Postman.Cancel.{cancel_in_flight, cancel_in_flight_lem, confirm_cancellation}

abbrev ev : String → TaskEventChange ℕ
ev id = record { id = id; task = "t"; kind = other_kind; payload = 0 }

-- The call took e1, and e2 waits.
abbrev one_call : GraphqlPostman ℕ
one_call = record new_postman {
  update_queues = ("ref", event (ev "e2") ∷ []) ∷ ("other", []) ∷ [];
  task_to_reference = ("t", "ref") ∷ [];
  reference_to_task = ("ref", "t") ∷ [];
  routed_event_ids = ("t", "e2" ∷ "e1" ∷ []) ∷ [];
}

catch_up_lem_example :
    let history = ev "e1" ∷ ev "e2" ∷ ev "e3" ∷ [] in
    let waiting = event (ev "e2") ∷ [] in
    (front : List (TaskEventChange ℕ)) × (back : List (Item ℕ)) × (lookup "ref"
        (catch_up "t" history one_call).update_queues
      ≡ some (events front ++ back))
    × Part front history
    × Part back waiting
    × (losses back ≡ losses waiting)
    × ((i : String) → contains i (ids back) ≡ true → contains i (event_ids history) ≡ false)
    × Distinct (ids (events front ++ back))
    × ((i : String)
        → contains i (ids (events front ++ back)) ≡ (
            contains i (ids waiting)
            || (contains i (event_ids history) && not (contains i ("e2" ∷ "e1" ∷ [])))))
unfolding lookup
catch_up_lem_example =
    catch_up_lem "t" "ref" (event (ev "e2") ∷ []) (ev "e1" ∷ ev "e2" ∷ ev "e3" ∷ []) one_call
      (unfold queue_of in refl) (refl, (refl, (refl, tt))) (refl, tt)

abbrev opened : GraphqlPostman ℕ
opened = record new_postman { update_queues = ("ref", []) ∷ [] }

fail_pending_wakes_example :
    (queue : List (Item ℕ)) × (lookup "ref" (fail_pending "the feed died" one_call).update_queues
      ≡ some queue)
    × ((why : String) × ((follow queue).1 ≡ some why))
    × ((es : List (TaskEventChange ℕ))
        → event (ev "e2") ∷ [] ≡ events es
        → follow queue ≡ (es, some "the feed died"))
unfolding lookup
fail_pending_wakes_example =
    fail_pending_wakes "the feed died" "ref" (event (ev "e2") ∷ []) one_call refl

abbrev answered : Option String
answered = some "t2"

-- The answer takes 3, and the server says nothing more.
cancel_in_flight_lem_example :
    let (requests, ends_at, p') = cancel_in_flight true 5 (3, answered) 9 9 10 [] "ref" one_call in
    (ends_at ≤ 35)
    × (lookup "ref" p'.update_queues ≡ none)
    × ((requests ≡ []) ↔ ((answered ≡ none) ⊎ (5 ≤ 3)))
cancel_in_flight_lem_example = cancel_in_flight_lem true 5 3 answered 9 9 10 [] "ref" one_call

-- A server that neither answers nor reports costs a cancellation four timeouts.
silent_server : (confirm_cancellation {P = ℕ} true 5 9 9 10 []).returned_at ≡ 30
unfolding confirm_cancellation
silent_server = refl
