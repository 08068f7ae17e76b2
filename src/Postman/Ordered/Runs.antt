-- ===== src/Postman/Ordered/Runs.antt =====
-- A call from the answer that named its task: reads of the task's history, changes of the feed and the
-- caller's takes in any order, among the calls of other tasks.
use rekuest.Prelude.{
  ◌≡◌, ◌≢◌, refl, ap, ◌∙◌, String, true, false, Option, none, some, List, [], ◌∷◌, ◌++◌, arith,
  contains, string_eq,
}
use rekuest.Prelude.Dict.{lookup, insert, get_or, lookup-insert}
use rekuest.Postman.{
  TaskEventChange, Item, event, GraphqlPostman, events, event_ids, route, bind, flush,
  catch_up_safely, come_alive, open_call, cleanup_reference,
}
use rekuest.Postman.CatchUp.{Distinct}
use rekuest.Postman.Ordered.Opening.{Opening}
use rekuest.Postman.Routing.{bind_lem}

-- `log` are the events of the call's task that the server has, in its order; `taken` what the call has
-- handed on.
pub record Following (P : Type 0) : Type 0 where
  pub postman : GraphqlPostman P
  pub taken : List (TaskEventChange P)
  pub log : List (TaskEventChange P)

module _ {P : Type 0} (task reference : String) where
  pub data Step : Following P → Following P → Type 0 where
    server_adds :
        (e : TaskEventChange P) (w : Following P)
        → contains e.id (event_ids w.log) ≡ false
        → Step w (record w { log = w.log ++ e ∷ [] })
    -- The feed brings a task's events in the server's order, from where the call was last caught up.
    feed_brings :
        (e : TaskEventChange P) (before after : List (TaskEventChange P)) (w : Following P)
        → e.task ≡ task
        → w.log ≡ before ++ e ∷ after
        → ((i : String)
            → contains i (event_ids before) ≡ true
            → contains i (get_or task w.postman.routed_event_ids []) ≡ true)
        → Step w (record w { postman = route e w.postman })
    -- A read brings what the server had at some time; one that failed brings nothing.
    is_caught_up :
        (history later : List (TaskEventChange P)) (w : Following P)
        → w.log ≡ history ++ later
        → Step w (record w { postman = catch_up_safely task (some history) w.postman })
    read_fails :
        (w : Following P) → Step w (record w { postman = catch_up_safely task none w.postman })
    takes :
        (e : TaskEventChange P) (rest : List (Item P)) (w : Following P)
        → lookup reference w.postman.update_queues ≡ some (event e ∷ rest)
        → Step w (record w {
          postman = record w.postman {
            update_queues = insert reference rest w.postman.update_queues;
          };
          taken = w.taken ++ e ∷ [];
        })
    other_is_routed :
        (e : TaskEventChange P) (w : Following P)
        → e.task ≢ task
        → lookup e.task w.postman.task_to_reference ≢ some reference
        → Step w (record w { postman = route e w.postman })
    -- The feed shows its first change: every call is caught up.
    comes_alive :
        (histories : String → Option (List (TaskEventChange P))) (w : Following P)
        → ((t : String) → t ≢ task → lookup t w.postman.task_to_reference ≢ some reference)
        → ((history : List (TaskEventChange P))
            → histories task ≡ some history
            → (later : List (TaskEventChange P)) × (w.log ≡ history ++ later))
        → Step w (record w { postman = come_alive histories w.postman })
    other_is_caught_up :
        (t : String) (history : Option (List (TaskEventChange P))) (w : Following P)
        → t ≢ task
        → lookup t w.postman.task_to_reference ≢ some reference
        → Step w (record w { postman = catch_up_safely t history w.postman })
    other_begins :
        (r t : String) (w : Following P)
        → r ≢ reference
        → t ≢ task
        → Step w (record w { postman = bind t r (open_call r w.postman) })
    other_ends :
        (r : String) (w : Following P)
        → r ≢ reference
        → lookup r w.postman.reference_to_task ≢ some task
        → Step w (record w { postman = cleanup_reference r w.postman })

  -- From the binding of the task, whose events so far were parked, or, where the feed missed some of
  -- them, from the return of the first read, which has those.
  pub data Reach : Following P → Type 0 where
    binds :
        (parked later : List (TaskEventChange P)) (p : GraphqlPostman P)
        → Distinct (event_ids (parked ++ later))
        → get_or task p.orphan_events [] ≡ parked
        → ((i : String)
            → contains i (get_or task p.routed_event_ids []) ≡ contains i (event_ids parked))
        → lookup reference p.update_queues ≡ some []
        → Reach (record { postman = bind task reference p; taken = []; log = parked ++ later })
    is_first_read :
        {missed brought later : List (TaskEventChange P)} {p : GraphqlPostman P}
        (seen beyond : List (TaskEventChange P))
        → Opening task reference missed brought later p
        → brought ++ later ≡ seen ++ beyond
        → Reach (record {
          postman = catch_up_safely task (some (missed ++ seen)) p;
          taken = [];
          log = missed ++ (brought ++ later);
        })
    then_ : {w w' : Following P} → Reach w → Step w w' → Reach w'

  pub record InLog (w : Following P) : Type 0 where
    pub waiting : List (TaskEventChange P)
    pub future : List (TaskEventChange P)
    pub in_order : w.log ≡ w.taken ++ (waiting ++ future)
    pub distinct : Distinct (event_ids w.log)
    pub bound : lookup task w.postman.task_to_reference ≡ some reference
    pub queue : lookup reference w.postman.update_queues ≡ some (events waiting)
    pub routed :
        (i : String)
        → contains i (get_or task w.postman.routed_event_ids [])
          ≡ contains i (event_ids (w.taken ++ waiting))

  pub binds-InLog :
      (parked later : List (TaskEventChange P)) (p : GraphqlPostman P)
      → Distinct (event_ids (parked ++ later))
      → get_or task p.orphan_events [] ≡ parked
      → ((i : String)
          → contains i (get_or task p.routed_event_ids []) ≡ contains i (event_ids parked))
      → lookup reference p.update_queues ≡ some []
      → InLog (record { postman = bind task reference p; taken = []; log = parked ++ later })
  unfolding bind flush
  binds-InLog parked later p d o r q = record {
    waiting = parked;
    future = later;
    in_order = refl;
    distinct = d;
    bound =
        ground (
          arith,
          lookup-insert task task reference p.task_to_reference,
          string_eq.beq_iff task task,
        );
    queue = (bind_lem task reference [] p q).0 ∙ ap (λ xs. some (events xs)) o;
    routed = r;
  }
