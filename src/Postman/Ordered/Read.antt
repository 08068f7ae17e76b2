-- ===== src/Postman/Ordered/Read.antt =====
-- A catch-up of a call that follows its task.
use rekuest.Prelude.{
  ◌≡◌, sym, ap, subst, ◌∙◌, String, not, ◌||◌, some, List, [], ◌++◌, arith, contains,
  contains-append, contains-keep, string_eq,
}
use rekuest.Prelude.Dict.{lookup, get_or, lookup-insert}
use rekuest.Postman.{
  TaskEventChange, Item, GraphqlPostman, events, ids, event_ids, still_waiting, untaken, taken_ids,
  queue_of, catch_up,
}
use rekuest.Postman.CatchUp.{Distinct}
use rekuest.Postman.Ordered.{Distinct-apart, event_ids-append, contains-ids, ids-events}
use rekuest.Postman.Ordered.Merge.{merge}
use rekuest.Postman.Ordered.Runs.{Following, InLog}

module _ {P : Type 0} (task reference : String) where
  pub caught_up_lem :
      (history : List (TaskEventChange P)) (waiting : List (Item P)) (p : GraphqlPostman P)
      → lookup task p.task_to_reference ≡ some reference
      → lookup reference p.update_queues ≡ some waiting
      → let seen = get_or task p.routed_event_ids [] in
        let fresh = untaken (taken_ids seen waiting) history in
        let p' = catch_up task history p in
        (p'.task_to_reference ≡ p.task_to_reference)
        × (lookup reference p'.update_queues
            ≡ some (events fresh ++ still_waiting (event_ids history) waiting))
        × (get_or task p'.routed_event_ids [] ≡ event_ids fresh ++ seen)
  unfolding catch_up queue_of
  caught_up_lem history waiting p b q =
      let seen = get_or task p.routed_event_ids [] in
      let fresh = untaken (taken_ids seen waiting) history in
      let queue = events fresh ++ still_waiting (event_ids history) waiting in
      ground (
        arith,
        b,
        q,
        lookup-insert reference reference queue p.update_queues,
        lookup-insert task task (event_ids fresh ++ seen) p.routed_event_ids,
        string_eq.beq_iff reference reference,
        string_eq.beq_iff task task,
      )

  pub catch_up-InLog :
      (history later : List (TaskEventChange P)) (w : Following P)
      → w.log ≡ history ++ later
      → (h : InLog task reference w)
      → (after : InLog task reference (record w { postman = catch_up task history w.postman }))
        × (m : List (TaskEventChange P)) × (w.taken ++ after.waiting ≡ history ++ m)
  catch_up-InLog history later w log h =
      let p = w.postman in
      let seen = get_or task p.routed_event_ids [] in
      let skip = taken_ids seen (events h.waiting) in
      let fresh = untaken skip history in
      let caught = caught_up_lem history (events h.waiting) p h.bound h.queue in
      let merged =
        merge w.taken h.waiting h.future history skip
          (subst (λ xs. Distinct (event_ids xs)) h.in_order h.distinct) skips later
          (sym h.in_order ∙ log) in
      (
        record {
          waiting = merged.waiting';
          future = merged.future';
          in_order = h.in_order ∙ ap (λ xs. w.taken ++ xs) (sym merged.same_log);
          distinct = h.distinct;
          bound = ap (lookup task) caught.0 ∙ h.bound;
          queue = caught.1 ∙ ap some merged.queued;
          routed = λ i.
              ap (contains i) caught.2
              ∙ contains-append i (event_ids fresh) seen
              ∙ ap (λ b. contains i (event_ids fresh) || b) (h.routed i)
              ∙ sym (merged.known i);
        },
        merged.beyond,
        merged.reaches,
      )
    where
      skips :
          (i : String)
          → contains i (taken_ids (get_or task w.postman.routed_event_ids []) (events h.waiting))
            ≡ contains i (event_ids w.taken)
      skips i =
          let seen = get_or task w.postman.routed_event_ids [] in
          let apart =
            Distinct-apart (event_ids w.taken) (event_ids (h.waiting ++ h.future))
              (subst Distinct
                (ap event_ids h.in_order ∙ event_ids-append w.taken (h.waiting ++ h.future))
                h.distinct)
              i in
          unfold taken_ids in
          ground (
            arith,
            contains-keep (λ j. not (contains j (ids (events h.waiting)))) i seen,
            ap (contains i) (ids-events h.waiting),
            h.routed i,
            contains-ids i w.taken h.waiting,
            contains-ids i h.waiting h.future,
            apart,
          )
