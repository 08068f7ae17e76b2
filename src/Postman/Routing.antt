-- ===== src/Postman/Routing.antt =====
-- Events are routed once, and may come before the task is known.
use rekuest.Prelude.{
  ◌≡◌, ◌≢◌, refl, ap, ◌∙◌, String, true, false, none, some, List, [], ◌∷◌, ◌++◌, append_assoc,
  arith, contains, string_eq, Bool-cases, inl, inr,
}
use rekuest.Prelude.Dict.{lookup, insert, get_or, lookup-insert, lookup-remove, lookup-set_default}
use rekuest.Postman.{
  TaskEventChange, Item, event, GraphqlPostman, events, flush, bind, queue_of, deliver, route,
  cleanup_reference,
}

module _ {P : Type 0} where
  pub deliver_keeps :
      (e : TaskEventChange P) (p : GraphqlPostman P)
      → (deliver e p).routed_event_ids ≡ p.routed_event_ids
  unfolding deliver
  deliver_keeps e p = ground arith

  pub route_known :
      (e : TaskEventChange P) (p : GraphqlPostman P) (ids : List String)
      → lookup e.task p.routed_event_ids ≡ some ids
      → contains e.id ids ≡ true
      → route e p ≡ p
  unfolding route
  route_known e p ids h k = ground arith

  route_marks :
      (e : TaskEventChange P) (p : GraphqlPostman P)
      → (ids : List String) × (lookup e.task (route e p).routed_event_ids ≡ some ids)
        × (contains e.id ids ≡ true)
  unfolding route
  route_marks e p = elim (Bool-cases (contains e.id (get_or e.task p.routed_event_ids []))) [
    | inl old ↦ (
      get_or e.task p.routed_event_ids [],
      ground (
        arith,
        lookup-set_default e.task e.task [] p.routed_event_ids,
        string_eq.beq_iff e.task e.task,
      ),
      old,
    )
    | inr new ↦
        let routed = get_or e.task p.routed_event_ids [] in
        let marked : GraphqlPostman P = record p {
          routed_event_ids = insert e.task (e.id ∷ routed) p.routed_event_ids;
        } in
        (
          e.id ∷ routed,
          ground (
            arith,
            deliver_keeps e marked,
            lookup-insert e.task e.task (e.id ∷ routed) p.routed_event_ids,
            string_eq.beq_iff e.task e.task,
          ),
          ground (arith, string_eq.beq_iff e.id e.id),
        )
  ]

  -- An event that comes both from the feed and from a read is handed on once: routing it a second
  -- time changes nothing at all.
  pub route_twice : (e : TaskEventChange P) (p : GraphqlPostman P) → route e (route e p) ≡ route e p
  route_twice e p =
      let (ids, listed, here) = route_marks e p in route_known e (route e p) ids listed here

  pub events-append :
      (xs ys : List (TaskEventChange P)) → events (xs ++ ys) ≡ events xs ++ events ys
  events-append [] ys = refl
  events-append (x ∷ xs) ys = ap (◌∷◌ (event x)) (events-append xs ys)

  route_unbound :
      (e : TaskEventChange P) (p : GraphqlPostman P)
      → lookup e.task p.task_to_reference ≡ none
      → contains e.id (get_or e.task p.routed_event_ids []) ≡ false
      → ((route e p).update_queues ≡ p.update_queues)
        × (get_or e.task (route e p).orphan_events [] ≡ get_or e.task p.orphan_events [] ++ e ∷ [])
  unfolding route deliver queue_of
  route_unbound e p unbound new =
      let parked = get_or e.task p.orphan_events [] ++ e ∷ [] in
      ground
        (arith, lookup-insert e.task e.task parked p.orphan_events, string_eq.beq_iff e.task e.task)

  pub route_bound :
      (e : TaskEventChange P) (reference : String) (queue : List (Item P)) (p : GraphqlPostman P)
      → lookup e.task p.task_to_reference ≡ some reference
      → lookup reference p.update_queues ≡ some queue
      → contains e.id (get_or e.task p.routed_event_ids []) ≡ false
      → lookup reference (route e p).update_queues ≡ some (queue ++ event e ∷ [])
  unfolding route deliver queue_of
  route_bound e reference queue p bound waits new = ground (
    arith,
    lookup-insert reference reference (queue ++ event e ∷ []) p.update_queues,
    string_eq.beq_iff reference reference,
  )

  pub bind_lem :
      (task reference : String) (queue : List (Item P)) (p : GraphqlPostman P)
      → lookup reference p.update_queues ≡ some queue
      → (lookup reference (bind task reference p).update_queues
          ≡ some (queue ++ events (get_or task p.orphan_events [])))
        × (lookup task (bind task reference p).task_to_reference ≡ some reference)
        × ((bind task reference p).routed_event_ids ≡ p.routed_event_ids)
  unfolding bind flush
  bind_lem task reference queue p waits =
      let whole = queue ++ events (get_or task p.orphan_events []) in
      ground (
        arith,
        lookup-insert reference reference whole p.update_queues,
        lookup-insert task task reference p.task_to_reference,
        string_eq.beq_iff reference reference,
        string_eq.beq_iff task task,
      )

  -- Whether an event comes just before its task is bound or just after, the call's queue is the
  -- same: what the queue held, what was parked for the task, then the event.
  pub bind_race :
      (e : TaskEventChange P) (reference : String) (queue : List (Item P)) (p : GraphqlPostman P)
      → lookup e.task p.task_to_reference ≡ none
      → lookup reference p.update_queues ≡ some queue
      → contains e.id (get_or e.task p.routed_event_ids []) ≡ false
      → let whole = queue ++ (events (get_or e.task p.orphan_events []) ++ event e ∷ []) in
        (lookup reference (bind e.task reference (route e p)).update_queues ≡ some whole)
        × (lookup reference (route e (bind e.task reference p)).update_queues ≡ some whole)
  bind_race e reference queue p unbound waits new =
      let parked = get_or e.task p.orphan_events [] in
      let early = route_unbound e p unbound new in
      let late = bind_lem e.task reference queue p waits in
      (
        (bind_lem e.task reference queue (route e p) (ap (lookup reference) early.0 ∙ waits)).0
            ∙ ap (λ xs. some (queue ++ events xs)) early.1
            ∙ ap (λ xs. some (queue ++ xs)) (events-append parked (e ∷ [])),
        route_bound e reference (queue ++ events parked) (bind e.task reference p) late.1 late.0
              (rw late.2 new)
            ∙ ap some (append_assoc queue (events parked) (event e ∷ [])),
      )

  -- When a call ends nothing is kept for it: not its queue or its binding, and not what was parked
  -- or noted for its task. The queues of other calls stay as they are.
  pub cleanup_reference_lem :
      (reference task : String) (p : GraphqlPostman P)
      → lookup reference p.reference_to_task ≡ some task
      → let p' = cleanup_reference reference p in
        (lookup reference p'.update_queues ≡ none)
        × (lookup reference p'.reference_to_task ≡ none)
        × (lookup task p'.task_to_reference ≡ none)
        × (lookup task p'.orphan_events ≡ none)
        × (lookup task p'.routed_event_ids ≡ none)
        × ((other : String)
            → other ≢ reference
            → lookup other p'.update_queues ≡ lookup other p.update_queues)
  unfolding cleanup_reference
  cleanup_reference_lem reference task p h =
      let r = string_eq.beq_iff reference reference in
      let t = string_eq.beq_iff task task in
      (
        ground (arith, lookup-remove reference reference p.update_queues, r),
        ground (arith, lookup-remove reference reference p.reference_to_task, r),
        ground (arith, lookup-remove task task p.task_to_reference, t),
        ground (arith, lookup-remove task task p.orphan_events, t),
        ground (arith, lookup-remove task task p.routed_event_ids, t),
        λ other ne. ground (
          arith,
          lookup-remove reference other p.update_queues,
          string_eq.beq_iff other reference,
        ),
      )
