-- ===== src/Postman/Ordered/Others.antt =====
-- What other calls, and events of other tasks, leave of a call.
use rekuest.Prelude.{
  ◌≡◌, ◌≢◌, refl, ap, ◌∙◌, inl, inr, String, Option, none, some, List, [], ◌∷◌, ◌++◌, arith,
  contains, Bool-cases, Option-cases, string_eq,
}
use rekuest.Prelude.Dict.{
  lookup, insert, get_or, lookup-insert, lookup-insert_ne, lookup-remove, lookup-set_default,
}
use rekuest.Postman.{
  TaskEventChange, event, GraphqlPostman, events, queue_of, deliver, route, bind, flush, catch_up,
  catch_up_safely, open_call, cleanup_reference,
}
use rekuest.Postman.Ordered.Runs.{Following, InLog}

module _ {P : Type 0} (task reference : String) where
  -- Another operation leaves what the call has at the postman.
  abbrev pub Same : GraphqlPostman P → GraphqlPostman P → Type 0
  Same p p' =
      (lookup task p'.task_to_reference ≡ lookup task p.task_to_reference)
      × (lookup reference p'.update_queues ≡ lookup reference p.update_queues)
      × (get_or task p'.routed_event_ids [] ≡ get_or task p.routed_event_ids [])

  pub Same-InLog :
      (w : Following P) (p' : GraphqlPostman P)
      → Same w.postman p'
      → InLog task reference w
      → InLog task reference (record w { postman = p' })
  Same-InLog w p' s h = record {
    waiting = h.waiting;
    future = h.future;
    in_order = h.in_order;
    distinct = h.distinct;
    bound = s.0 ∙ h.bound;
    queue = s.1 ∙ h.queue;
    routed = λ i. ap (contains i) s.2 ∙ h.routed i;
  }

  deliver-Same :
      (e : TaskEventChange P) (p : GraphqlPostman P)
      → lookup e.task p.task_to_reference ≢ some reference
      → Same p (deliver e p)
  unfolding deliver queue_of
  deliver-Same e p r = elim (Option-cases (lookup e.task p.task_to_reference)) [
    | inl unbound ↦ rw (unbound, deliver, queue_of) (refl, refl, refl)
    | inr (r', bound) ↦ elim (Option-cases (lookup r' p.update_queues)) [
      | inl gone ↦ rw (bound, gone, deliver, queue_of) (refl, refl, refl)
      | inr (q, there) ↦
          rw (bound, there, deliver, queue_of)
            (
              refl,
              ground (
                arith,
                r,
                bound,
                lookup-insert r' reference (q ++ event e ∷ []) p.update_queues,
                string_eq.beq_iff r' reference,
              ),
              refl,
            )
    ]
  ]

  pub catch_up_safely-Same :
      (t : String) (history : Option (List (TaskEventChange P))) (p : GraphqlPostman P)
      → t ≢ task
      → lookup t p.task_to_reference ≢ some reference
      → Same p (catch_up_safely t history p)
  unfolding catch_up_safely
  catch_up_safely-Same t none p differs r = (refl, refl, refl)
  catch_up_safely-Same t (some history) p differs r =
      elim (Option-cases (lookup t p.task_to_reference)) [
        | inl unbound ↦ rw (unbound, catch_up, queue_of) (refl, refl, refl)
        | inr (r', bound) ↦ elim (Option-cases (lookup r' p.update_queues)) [
          | inl gone ↦ rw (bound, gone, catch_up, queue_of) (refl, refl, refl)
          | inr (q, there) ↦
              rw (bound, there, catch_up, queue_of)
                (
                  refl,
                  lookup-insert_ne r' reference _ p.update_queues (λ e. r (bound ∙ ap some e)),
                  ap (λ (o : Option (List String)). elim o [ none ↦ [] | some w ↦ w ])
                      (lookup-insert_ne t task _ p.routed_event_ids differs),
                )
        ]
      ]

  pub route-Same :
      (e : TaskEventChange P) (p : GraphqlPostman P)
      → e.task ≢ task
      → lookup e.task p.task_to_reference ≢ some reference
      → Same p (route e p)
  unfolding route
  route-Same e p t r =
      let seen = get_or e.task p.routed_event_ids [] in
      let marked : GraphqlPostman P = record p {
        routed_event_ids = insert e.task (e.id ∷ seen) p.routed_event_ids;
      } in
      let d = deliver-Same e marked r in
      elim (Bool-cases (contains e.id seen)) [
        | inl old ↦ rw old (
          refl,
          refl,
          ground (
            arith,
            t,
            lookup-set_default e.task task [] p.routed_event_ids,
            string_eq.beq_iff e.task task,
          ),
        )
        | inr new ↦ rw new (
          d.0,
          d.1,
          d.2
              ∙ ground (
                arith,
                t,
                lookup-insert e.task task (e.id ∷ seen) p.routed_event_ids,
                string_eq.beq_iff e.task task,
              ),
        )
      ]

  pub begin-Same :
      (r t : String) (p : GraphqlPostman P)
      → r ≢ reference
      → t ≢ task
      → Same p (bind t r (open_call r p))
  unfolding bind flush open_call
  begin-Same r t p r_other t_other = (
    ground (arith, t_other, lookup-insert t task r p.task_to_reference, string_eq.beq_iff t task),
    ground (
      arith,
      r_other,
      lookup-insert r r [] p.update_queues,
      lookup-insert r reference [] p.update_queues,
      lookup-insert r reference ([] ++ events (get_or t p.orphan_events []))
          (insert r [] p.update_queues),
      string_eq.beq_iff r r,
      string_eq.beq_iff r reference,
    ),
    refl,
  )

  pub end-Same :
      (r : String) (p : GraphqlPostman P)
      → r ≢ reference
      → lookup r p.reference_to_task ≢ some task
      → Same p (cleanup_reference r p)
  unfolding cleanup_reference
  end-Same r p r_other t_other = elim (Option-cases (lookup r p.reference_to_task)) [
    | inl none_ ↦
        rw (none_, cleanup_reference)
          (
            refl,
            ground (
              arith,
              r_other,
              lookup-remove r reference p.update_queues,
              string_eq.beq_iff reference r,
            ),
            refl,
          )
    | inr (tid, some_) ↦
        rw (some_, cleanup_reference)
          (
            ground (
              arith,
              t_other,
              some_,
              lookup-remove tid task p.task_to_reference,
              string_eq.beq_iff task tid,
            ),
            ground (
              arith,
              r_other,
              lookup-remove r reference p.update_queues,
              string_eq.beq_iff reference r,
            ),
            ground (
              arith,
              t_other,
              some_,
              lookup-remove tid task p.routed_event_ids,
              string_eq.beq_iff task tid,
            ),
          )
  ]
