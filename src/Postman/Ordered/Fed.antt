-- ===== src/Postman/Ordered/Fed.antt =====
-- An event that the feed brings.
use rekuest.Prelude.{
  ◌≡◌, sym, ap, subst, ◌∙◌, inl, inr, String, true, false, some, List, [], ◌∷◌, ◌++◌, append_assoc,
  arith, contains, Bool-cases, Option-cases, string_eq,
}
use rekuest.Prelude.Dict.{lookup, insert, get_or, lookup-insert}
use rekuest.Postman.{TaskEventChange, GraphqlPostman, events, event_ids, deliver, route}
use rekuest.Postman.CatchUp.{Distinct}
use rekuest.Postman.Routing.{events-append, route_bound, route_known, deliver_keeps}
use rekuest.Postman.Ordered.{cuts, Distinct-apart, event_ids-append, contains-ids}
use rekuest.Postman.Ordered.Runs.{Following, InLog}

module _ {P : Type 0} (task reference : String) where
  pub route_new :
      (e : TaskEventChange P) (p : GraphqlPostman P)
      → contains e.id (get_or e.task p.routed_event_ids []) ≡ false
      → ((route e p).task_to_reference ≡ p.task_to_reference)
        × (get_or e.task (route e p).routed_event_ids []
            ≡ e.id ∷ get_or e.task p.routed_event_ids [])
  unfolding route
  route_new e p new =
      let seen = get_or e.task p.routed_event_ids [] in
      let marked : GraphqlPostman P = record p {
        routed_event_ids = insert e.task (e.id ∷ seen) p.routed_event_ids;
      } in
      (
        unfold deliver in ground (arith, new),
        ground (
          arith,
          new,
          deliver_keeps e marked,
          lookup-insert e.task e.task (e.id ∷ seen) p.routed_event_ids,
          string_eq.beq_iff e.task e.task,
        ),
      )

  -- The event after those that the call knows is put behind what waits.
  appended :
      (e : TaskEventChange P) (w : Following P) (h : InLog task reference w)
      (after : List (TaskEventChange P))
      → e.task ≡ task
      → h.future ≡ e ∷ after
      → contains e.id (get_or task w.postman.routed_event_ids []) ≡ false
      → InLog task reference (record w { postman = route e w.postman })
  appended e w h after t next new =
      let p = w.postman in
      let new' : contains e.id (get_or e.task p.routed_event_ids []) ≡ false =
        ap (λ k. contains e.id (get_or k p.routed_event_ids [])) t ∙ new in
      let noted = route_new e p new' in
      let bound' : lookup e.task p.task_to_reference ≡ some reference =
        ap (λ k. lookup k p.task_to_reference) t ∙ h.bound in
      let here : get_or task (route e p).routed_event_ids []
          ≡ e.id ∷ get_or task p.routed_event_ids [] =
        subst
          (λ k. get_or k (route e p).routed_event_ids [] ≡ e.id ∷ get_or k p.routed_event_ids []) t
          noted.1 in
      record {
        waiting = h.waiting ++ e ∷ [];
        future = after;
        in_order =
            h.in_order
            ∙ ap (λ xs. w.taken ++ xs)
                (ap (λ xs. h.waiting ++ xs) next ∙ sym (append_assoc h.waiting (e ∷ []) after));
        distinct = h.distinct;
        bound = ap (lookup task) noted.0 ∙ h.bound;
        queue =
            route_bound e reference (events h.waiting) p bound' h.queue new'
            ∙ ap some (sym (events-append h.waiting (e ∷ [])));
        routed = λ i. ground (
          arith,
          ap (contains i) here,
          h.routed i,
          contains-ids i w.taken (h.waiting ++ e ∷ []),
          contains-ids i w.taken h.waiting,
          contains-ids i h.waiting (e ∷ []),
        );
      }

  -- An event that the call knows changes nothing.
  known_again :
      (e : TaskEventChange P) (w : Following P)
      → InLog task reference w
      → e.task ≡ task
      → contains e.id (get_or task w.postman.routed_event_ids []) ≡ true
      → InLog task reference (record w { postman = route e w.postman })
  known_again e w h t old =
      let p = w.postman in
      let old' : contains e.id (get_or e.task p.routed_event_ids []) ≡ true =
        ap (λ k. contains e.id (get_or k p.routed_event_ids [])) t ∙ old in
      elim (Option-cases (lookup e.task p.routed_event_ids)) [
        | inl none_ ↦ absurd (ground (arith, none_, old'))
        | inr (listed, some_) ↦
            subst (λ p'. InLog task reference (record w { postman = p' }))
              (sym (route_known e p listed some_ (ground (arith, some_, old')))) h
      ]

  pub feed_brings-InLog :
      (e : TaskEventChange P) (before after : List (TaskEventChange P)) (w : Following P)
      → e.task ≡ task
      → w.log ≡ before ++ e ∷ after
      → ((i : String)
          → contains i (event_ids before) ≡ true
          → contains i (get_or task w.postman.routed_event_ids []) ≡ true)
      → InLog task reference w
      → InLog task reference (record w { postman = route e w.postman })
  feed_brings-InLog e before after w t log shown h =
      elim (Bool-cases (contains e.id (get_or task w.postman.routed_event_ids []))) [
        | inl old ↦ known_again e w h t old
        | inr new ↦ elim (cuts (w.taken ++ h.waiting) h.future before (e ∷ after) whole) [
          | inl ([], first, rest) ↦ appended e w h after t rest new
          | inl (x ∷ m, first, rest) ↦ absurd (gap x m first rest)
          | inr ([], first, rest) ↦ appended e w h after t (sym rest) new
          | inr (x ∷ m, first, rest) ↦ absurd (again new x m first rest)
        ]
      ]
    where
      whole : (w.taken ++ h.waiting) ++ h.future ≡ before ++ e ∷ after
      whole = append_assoc w.taken h.waiting h.future ∙ sym h.in_order ∙ log

      gap :
          (x : TaskEventChange P) (m : List (TaskEventChange P))
          → before ≡ (w.taken ++ h.waiting) ++ x ∷ m
          → h.future ≡ (x ∷ m) ++ e ∷ after
          → ⊥
      gap x m first rest =
          let parts : w.log ≡ (w.taken ++ h.waiting) ++ (x ∷ (m ++ e ∷ after)) =
            h.in_order
            ∙ sym (append_assoc w.taken h.waiting h.future)
            ∙ ap (λ xs. (w.taken ++ h.waiting) ++ xs) rest in
          let unseen : contains x.id (event_ids (w.taken ++ h.waiting)) ≡ false =
            Distinct-apart (event_ids (w.taken ++ h.waiting)) (event_ids (x ∷ (m ++ e ∷ after)))
              (subst Distinct
                (ap event_ids parts
                  ∙ event_ids-append (w.taken ++ h.waiting) (x ∷ (m ++ e ∷ after)))
                h.distinct)
              x.id (ground (arith, string_eq.beq_iff x.id x.id)) in
          let in_before : contains x.id (event_ids before) ≡ true =
            ap (λ xs. contains x.id (event_ids xs)) first
            ∙ contains-ids x.id (w.taken ++ h.waiting) (x ∷ m)
            ∙ ground (arith, string_eq.beq_iff x.id x.id) in
          ground (arith, unseen, shown x.id in_before, h.routed x.id)

      again :
          contains e.id (get_or task w.postman.routed_event_ids []) ≡ false
          → (x : TaskEventChange P) (m : List (TaskEventChange P))
          → w.taken ++ h.waiting ≡ before ++ x ∷ m
          → e ∷ after ≡ (x ∷ m) ++ h.future
          → ⊥
      again new x m first rest =
          let same : e ≡ x = cc rest in
          let known : contains x.id (event_ids (w.taken ++ h.waiting)) ≡ true =
            ap (λ xs. contains x.id (event_ids xs)) first
            ∙ contains-ids x.id before (x ∷ m)
            ∙ ground (arith, string_eq.beq_iff x.id x.id) in
          let known' : contains e.id (event_ids (w.taken ++ h.waiting)) ≡ true =
            ap (λ y. contains y.id (event_ids (w.taken ++ h.waiting))) same ∙ known in
          ground (arith, new, known', h.routed e.id)
