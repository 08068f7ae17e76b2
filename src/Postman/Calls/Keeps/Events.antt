-- ===== src/Postman/Calls/Keeps/Events.antt =====
-- Handing events on, reading histories and the feed's first change, for every call at once.
use rekuest.Prelude.{
  ◌≡◌, ◌⊎◌, refl, inl, inr, String, Bool, true, false, Option, none, some, List, [], ◌∷◌, ◌++◌,
  arith, contains, ◌∙◌, if◌then◌else◌, Bool-cases, Option-cases, string_eq,
}
use rekuest.Prelude.Dict.{Dict, lookup, insert, get_or, keys}
use rekuest.Postman.{
  TaskEventChange, Item, event, GraphqlPostman, events, event_ids, untaken, taken_ids, queue_of,
  deliver, route, still_waiting, catch_up, catch_up_safely, catch_up_all, come_alive,
}
use rekuest.Postman.Calls.Keeps.{
  has_lost, has_lost-append, has_lost-still_waiting, KeepsQueue-refl, insert-KeepsQueue, Keeps,
  Keeps-refl, Keeps-trans,
}

module _ {P : Type 0} (reference : String) where
  queue_of_lem :
      (task : String) (p : GraphqlPostman P)
      → (queue_of task p ≡ none)
        ⊎ ((r : String) × (queue : List (Item P)) × (queue_of task p ≡ some (r, queue))
            × (lookup r p.update_queues ≡ some queue))
  unfolding queue_of
  queue_of_lem task p = elim (Option-cases (lookup task p.task_to_reference)) [
    | inl unbound ↦ inl (ground (arith, unbound))
    | inr (r, bound) ↦ elim (Option-cases (lookup r p.update_queues)) [
      | inl gone ↦ inl (ground (arith, bound, gone))
      | inr (queue, there) ↦ inr (r, queue, ground (arith, bound, there), there)
    ]
  ]

  -- What an operation on events leaves: all of `Keeps`, and every binding
  pub record KeepsAll (p p' : GraphqlPostman P) : Type 0 where
    pub keeps : Keeps reference p p'
    pub tasks : p'.task_to_reference ≡ p.task_to_reference
    pub references : p'.reference_to_task ≡ p.reference_to_task

  pub KeepsAll-refl : (p : GraphqlPostman P) → KeepsAll p p
  KeepsAll-refl p = record { keeps = Keeps-refl reference p; tasks = refl; references = refl }

  pub KeepsAll-trans : {p q r : GraphqlPostman P} → KeepsAll p q → KeepsAll q r → KeepsAll p r
  KeepsAll-trans f g = record {
    keeps = Keeps-trans reference f.keeps g.keeps;
    tasks = g.tasks ∙ f.tasks;
    references = g.references ∙ f.references;
  }

  -- One queue that is there gets another content, which keeps the news.
  requeue-KeepsAll :
      (r : String) (old new : List (Item P)) (routed : Dict String (List String))
      (p : GraphqlPostman P)
      → lookup r p.update_queues ≡ some old
      → (has_lost old ≡ true → has_lost new ≡ true)
      → KeepsAll p
          (record p { update_queues = insert r new p.update_queues; routed_event_ids = routed })
  requeue-KeepsAll r old new routed p there keeps = record {
    keeps = record {
      queue = insert-KeepsQueue reference r old new p.update_queues there keeps;
      watched = λ h. h;
      alive = λ h. h;
    };
    tasks = refl;
    references = refl;
  }

  same-KeepsAll :
      (orphans : Dict String (List (TaskEventChange P))) (routed : Dict String (List String))
      (p : GraphqlPostman P)
      → KeepsAll p (record p { orphan_events = orphans; routed_event_ids = routed })
  same-KeepsAll orphans routed p = record {
    keeps = record {
      queue = KeepsQueue-refl reference p.update_queues;
      watched = λ h. h;
      alive = λ h. h;
    };
    tasks = refl;
    references = refl;
  }

  deliver-KeepsAll : (e : TaskEventChange P) (p : GraphqlPostman P) → KeepsAll p (deliver e p)
  unfolding deliver
  deliver-KeepsAll e p = elim (queue_of_lem e.task p) [
    | inl unbound ↦ rw (unbound, deliver) (same-KeepsAll _ p.routed_event_ids p)
    | inr (r, queue, found, there) ↦
        rw (found, deliver)
          (requeue-KeepsAll r queue (queue ++ event e ∷ []) p.routed_event_ids p there
            (λ h. ground (arith, h, has_lost-append queue (event e ∷ []))))
  ]

  pub route-KeepsAll : (e : TaskEventChange P) (p : GraphqlPostman P) → KeepsAll p (route e p)
  unfolding route
  route-KeepsAll e p =
      let routed = get_or e.task p.routed_event_ids [] in
      let marked : GraphqlPostman P = record p {
        routed_event_ids = insert e.task (e.id ∷ routed) p.routed_event_ids;
      } in
      elim (Bool-cases (contains e.id routed)) [
        | inl old ↦ rw old (same-KeepsAll p.orphan_events _ p)
        | inr new ↦ rw new (
            KeepsAll-trans (same-KeepsAll p.orphan_events marked.routed_event_ids p)
              (deliver-KeepsAll e marked))
      ]

  pub catch_up-KeepsAll :
      (t : String) (history : List (TaskEventChange P)) (p : GraphqlPostman P)
      → KeepsAll p (catch_up t history p)
  unfolding catch_up
  catch_up-KeepsAll t history p = elim (queue_of_lem t p) [
    | inl unbound ↦ rw (unbound, catch_up) (KeepsAll-refl p)
    | inr (r, queue, found, there) ↦
        let read = event_ids history in
        let routed = get_or t p.routed_event_ids [] in
        let fresh = untaken (taken_ids routed queue) history in
        rw (found, catch_up)
          (requeue-KeepsAll r queue (events fresh ++ still_waiting read queue)
            (insert t (event_ids fresh ++ routed) p.routed_event_ids) p there
            (λ h. ground (
              arith,
              h,
              has_lost-append (events fresh) (still_waiting read queue),
              has_lost-still_waiting read queue,
            )))
  ]

  pub catch_up_safely-KeepsAll :
      (t : String) (history : Option (List (TaskEventChange P))) (p : GraphqlPostman P)
      → KeepsAll p (catch_up_safely t history p)
  unfolding catch_up_safely
  catch_up_safely-KeepsAll t none p = KeepsAll-refl p
  catch_up_safely-KeepsAll t (some history) p = catch_up-KeepsAll t history p

  module _ (histories : String → Option (List (TaskEventChange P))) where
    catch_up_all-KeepsAll :
        (tasks : List String) (p : GraphqlPostman P) → KeepsAll p (catch_up_all histories tasks p)
    unfolding catch_up_all
    catch_up_all-KeepsAll [] p = KeepsAll-refl p
    catch_up_all-KeepsAll (t ∷ tasks) p =
        KeepsAll-trans (catch_up_safely-KeepsAll t (histories t) p)
          (catch_up_all-KeepsAll tasks (catch_up_safely t (histories t) p))

    -- The feed comes alive, if it was not.
    pub come_alive-KeepsAll :
        (p : GraphqlPostman P)
        → KeepsAll p (come_alive histories p) × ((come_alive histories p).feed_live ≡ true)
    unfolding come_alive
    come_alive-KeepsAll p = by_flag p.feed_live refl
      where
        woken : GraphqlPostman P
        woken = record p { feed_live = true }

        caught : KeepsAll woken (catch_up_all histories (keys p.task_to_reference) woken)
        caught = catch_up_all-KeepsAll (keys p.task_to_reference) woken

        first : KeepsAll p woken
        first = record {
          keeps = record {
            queue = KeepsQueue-refl reference p.update_queues;
            watched = λ h. h;
            alive = λ h. refl;
          };
          tasks = refl;
          references = refl;
        }

        by_flag :
            (live : Bool)
            → p.feed_live ≡ live
            → let p' : GraphqlPostman P =
                if live then p else catch_up_all histories (keys p.task_to_reference) woken in
              KeepsAll p p' × (p'.feed_live ≡ true)
        by_flag true e = (KeepsAll-refl p, e)
        by_flag false e = (KeepsAll-trans first caught, caught.keeps.alive refl)
