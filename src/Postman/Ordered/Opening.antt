-- ===== src/Postman/Ordered/Opening.antt =====
-- A call from the binding of its task up to its first read, when the feed may have missed the task's
-- first events: it brings the others in order.
use rekuest.Prelude.{
  ◌≡◌, ◌≢◌, String, Option, some, false, List, [], ◌∷◌, ◌++◌, contains, string_eq,
}
use rekuest.Prelude.Dict.{lookup, get_or}
use rekuest.Postman.{
  TaskEventChange, GraphqlPostman, event_ids, bind, route, catch_up_safely, open_call,
  cleanup_reference,
}
use rekuest.Postman.CatchUp.{Distinct}

-- By the events that the feed missed, those that it brought, and those that it has not brought yet
pub data Opening {P : Type 0} (task reference : String)
    : List (TaskEventChange P)
      → List (TaskEventChange P)
      → List (TaskEventChange P)
      → GraphqlPostman P
      → Type 0 where
  is_bound :
      (missed parked later : List (TaskEventChange P)) (p : GraphqlPostman P)
      → Distinct (event_ids (missed ++ (parked ++ later)))
      → get_or task p.orphan_events [] ≡ parked
      → ((i : String)
          → contains i (get_or task p.routed_event_ids []) ≡ contains i (event_ids parked))
      → lookup reference p.update_queues ≡ some []
      → Opening task reference missed parked later (bind task reference p)
  server_adds :
      {missed brought later : List (TaskEventChange P)} {p : GraphqlPostman P}
      (e : TaskEventChange P)
      → contains e.id (event_ids (missed ++ (brought ++ later))) ≡ false
      → Opening task reference missed brought later p
      → Opening task reference missed brought (later ++ e ∷ []) p
  feed_brings :
      {missed brought after : List (TaskEventChange P)} {p : GraphqlPostman P}
      (e : TaskEventChange P)
      → e.task ≡ task
      → Opening task reference missed brought (e ∷ after) p
      → Opening task reference missed (brought ++ e ∷ []) after (route e p)
  other_is_routed :
      {missed brought later : List (TaskEventChange P)} {p : GraphqlPostman P}
      (e : TaskEventChange P)
      → e.task ≢ task
      → lookup e.task p.task_to_reference ≢ some reference
      → Opening task reference missed brought later p
      → Opening task reference missed brought later (route e p)
  other_is_caught_up :
      {missed brought later : List (TaskEventChange P)} {p : GraphqlPostman P} (t : String)
      (history : Option (List (TaskEventChange P)))
      → t ≢ task
      → lookup t p.task_to_reference ≢ some reference
      → Opening task reference missed brought later p
      → Opening task reference missed brought later (catch_up_safely t history p)
  other_begins :
      {missed brought later : List (TaskEventChange P)} {p : GraphqlPostman P} (r t : String)
      → r ≢ reference
      → t ≢ task
      → Opening task reference missed brought later p
      → Opening task reference missed brought later (bind t r (open_call r p))
  other_ends :
      {missed brought later : List (TaskEventChange P)} {p : GraphqlPostman P} (r : String)
      → r ≢ reference
      → lookup r p.reference_to_task ≢ some task
      → Opening task reference missed brought later p
      → Opening task reference missed brought later (cleanup_reference r p)
