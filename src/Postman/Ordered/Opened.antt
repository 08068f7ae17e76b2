-- ===== src/Postman/Ordered/Opened.antt =====
-- The first read puts what the feed missed in front of what it brought.
use rekuest.Prelude.{
  ◌≡◌, refl, sym, ap, subst, ◌∙◌, inl, inr, String, not, ◌||◌, false, some, List, [], ◌∷◌, ◌++◌,
  append-nil, append_assoc, arith, contains, contains-append, contains-keep, string_eq,
}
use rekuest.Prelude.Dict.{lookup, get_or, lookup-insert}
use rekuest.Postman.{
  TaskEventChange, GraphqlPostman, events, ids, event_ids, untaken, still_waiting, taken_ids, route,
  bind, flush, catch_up,
}
use rekuest.Postman.CatchUp.{Distinct, Distinct-append}
use rekuest.Postman.Routing.{events-append, route_bound, bind_lem}
use rekuest.Postman.Ordered.{
  cuts, Distinct-apart, event_ids-append, untaken-Apart, untaken-Inside, untaken-append, ids-events,
  still_waiting-events, later-Apart, contains-ids,
}
use rekuest.Postman.Ordered.Runs.{InLog}
use rekuest.Postman.Ordered.Others.{Same, route-Same, catch_up_safely-Same, begin-Same, end-Same}
use rekuest.Postman.Ordered.Fed.{route_new}
use rekuest.Postman.Ordered.Read.{caught_up_lem}
use rekuest.Postman.Ordered.Opening.{
  Opening, is_bound, server_adds, feed_brings, other_is_routed, other_is_caught_up, other_begins,
  other_ends,
}

module _ {P : Type 0} (task reference : String) where
  record HasBrought (missed brought later : List (TaskEventChange P)) (p : GraphqlPostman P)
      : Type 0 where
    distinct : Distinct (event_ids (missed ++ (brought ++ later)))
    bound : lookup task p.task_to_reference ≡ some reference
    queue : lookup reference p.update_queues ≡ some (events brought)
    routed :
        (i : String)
        → contains i (get_or task p.routed_event_ids []) ≡ contains i (event_ids brought)

  module _ {missed brought later : List (TaskEventChange P)} {p : GraphqlPostman P} where
    Same-HasBrought :
        (p' : GraphqlPostman P)
        → Same task reference p p'
        → HasBrought missed brought later p
        → HasBrought missed brought later p'
    Same-HasBrought p' s h = record {
      distinct = h.distinct;
      bound = s.0 ∙ h.bound;
      queue = s.1 ∙ h.queue;
      routed = λ i. ap (contains i) s.2 ∙ h.routed i;
    }

    server_adds-HasBrought :
        (e : TaskEventChange P)
        → contains e.id (event_ids (missed ++ (brought ++ later))) ≡ false
        → HasBrought missed brought later p
        → HasBrought missed brought (later ++ e ∷ []) p
    server_adds-HasBrought e new h =
        let log = missed ++ (brought ++ later) in
        let longer : log ++ e ∷ [] ≡ missed ++ (brought ++ (later ++ e ∷ [])) =
          append_assoc missed (brought ++ later) (e ∷ [])
          ∙ ap (λ xs. missed ++ xs) (append_assoc brought later (e ∷ [])) in
        record {
          distinct =
              subst (λ xs. Distinct (event_ids xs)) longer
                (subst Distinct (sym (event_ids-append log (e ∷ []))) (
                  Distinct-append (event_ids log) (e.id ∷ []) h.distinct (refl, tt)
                    (λ i k. ground (arith, k, new, string_eq.beq_iff e.id i))));
          bound = h.bound;
          queue = h.queue;
          routed = h.routed;
        }

  feed_brings-HasBrought :
      {missed brought after : List (TaskEventChange P)} {p : GraphqlPostman P}
      (e : TaskEventChange P)
      → e.task ≡ task
      → HasBrought missed brought (e ∷ after) p
      → HasBrought missed (brought ++ e ∷ []) after (route e p)
  feed_brings-HasBrought {missed} {brought} {after} {p} e t h =
      let whole : (missed ++ brought) ++ e ∷ after ≡ missed ++ (brought ++ e ∷ after) =
        append_assoc missed brought (e ∷ after) in
      let apart : contains e.id (event_ids (missed ++ brought)) ≡ false =
        Distinct-apart (event_ids (missed ++ brought)) (event_ids (e ∷ after))
          (subst Distinct
            (ap event_ids (sym whole) ∙ event_ids-append (missed ++ brought) (e ∷ after))
            h.distinct)
          e.id (ground (arith, string_eq.beq_iff e.id e.id)) in
      let new : contains e.id (get_or task p.routed_event_ids []) ≡ false =
        ground (arith, h.routed e.id, apart, contains-ids e.id missed brought) in
      let new' : contains e.id (get_or e.task p.routed_event_ids []) ≡ false =
        ap (λ k. contains e.id (get_or k p.routed_event_ids [])) t ∙ new in
      let noted = route_new task reference e p new' in
      let bound' : lookup e.task p.task_to_reference ≡ some reference =
        ap (λ k. lookup k p.task_to_reference) t ∙ h.bound in
      let here : get_or task (route e p).routed_event_ids []
          ≡ e.id ∷ get_or task p.routed_event_ids [] =
        subst
          (λ k. get_or k (route e p).routed_event_ids [] ≡ e.id ∷ get_or k p.routed_event_ids []) t
          noted.1 in
      record {
        distinct =
            subst (λ xs. Distinct (event_ids (missed ++ xs)))
              (sym (append_assoc brought (e ∷ []) after)) h.distinct;
        bound = ap (lookup task) noted.0 ∙ h.bound;
        queue =
            route_bound e reference (events brought) p bound' h.queue new'
            ∙ ap some (sym (events-append brought (e ∷ [])));
        routed =
            λ i. ground (arith, ap (contains i) here, h.routed i, contains-ids i brought (e ∷ []));
      }

  is_bound-HasBrought :
      (missed parked later : List (TaskEventChange P)) (p : GraphqlPostman P)
      → Distinct (event_ids (missed ++ (parked ++ later)))
      → get_or task p.orphan_events [] ≡ parked
      → ((i : String)
          → contains i (get_or task p.routed_event_ids []) ≡ contains i (event_ids parked))
      → lookup reference p.update_queues ≡ some []
      → HasBrought missed parked later (bind task reference p)
  unfolding bind flush
  is_bound-HasBrought missed parked later p d o r q = record {
    distinct = d;
    bound =
        ground (
          arith,
          lookup-insert task task reference p.task_to_reference,
          string_eq.beq_iff task task,
        );
    queue = (bind_lem task reference [] p q).0 ∙ ap (λ xs. some (events xs)) o;
    routed = r;
  }

  Opening-HasBrought :
      {missed brought later : List (TaskEventChange P)} {p : GraphqlPostman P}
      → Opening task reference missed brought later p
      → HasBrought missed brought later p
  Opening-HasBrought (is_bound missed parked later p d o r q) =
      is_bound-HasBrought missed parked later p d o r q
  Opening-HasBrought (server_adds e new h) = server_adds-HasBrought e new (Opening-HasBrought h)
  Opening-HasBrought (feed_brings e t h) = feed_brings-HasBrought e t (Opening-HasBrought h)
  Opening-HasBrought (other_is_routed e t r h) =
      Same-HasBrought _ (route-Same task reference e _ t r) (Opening-HasBrought h)
  Opening-HasBrought (other_is_caught_up t history t_other r h) =
      Same-HasBrought _ (catch_up_safely-Same task reference t history _ t_other r)
        (Opening-HasBrought h)
  Opening-HasBrought (other_begins r t r_other t_other h) =
      Same-HasBrought _ (begin-Same task reference r t _ r_other t_other) (Opening-HasBrought h)
  Opening-HasBrought (other_ends r r_other t_other h) =
      Same-HasBrought _ (end-Same task reference r _ r_other t_other) (Opening-HasBrought h)

  -- What a read up to some event leaves of those that were brought: the ones behind it.
  record IsLeft (missed brought later seen : List (TaskEventChange P)) : Type 0 where
    left : List (TaskEventChange P)
    future : List (TaskEventChange P)
    is_untaken : untaken (event_ids (missed ++ seen)) brought ≡ left
    same_log : brought ++ later ≡ (seen ++ left) ++ future
    known :
        (i : String)
        → (contains i (event_ids seen) || contains i (event_ids brought))
          ≡ contains i (event_ids (seen ++ left))

  IsLeft-by :
      (missed brought later seen beyond : List (TaskEventChange P))
      → Distinct (event_ids (missed ++ (brought ++ later)))
      → brought ++ later ≡ seen ++ beyond
      → IsLeft missed brought later seen
  IsLeft-by missed brought later seen beyond d cut = elim (cuts brought later seen beyond cut) [
    | inl (x, longer, rest) ↦ record {
      left = [];
      future = beyond;
      is_untaken = untaken-Inside (event_ids (missed ++ seen)) brought (λ i k.
          contains-ids i missed seen
          ∙ ground
              (arith, k, ap (λ xs. contains i (event_ids xs)) longer, contains-ids i brought x));
      same_log = cut ∙ ap (λ xs. xs ++ beyond) (sym (append-nil seen));
      known = λ i. ground (
        arith,
        ap (λ xs. contains i (event_ids xs)) longer,
        contains-ids i brought x,
        ap (λ xs. contains i (event_ids xs)) (append-nil seen),
      );
    }
    | inr (x, longer, rest) ↦
        let seen_ids = event_ids (missed ++ seen) in
        let whole : missed ++ (brought ++ later) ≡ (missed ++ seen) ++ (x ++ later) =
          ap (λ xs. missed ++ xs) (ap (λ xs. xs ++ later) longer ∙ append_assoc seen x later)
          ∙ sym (append_assoc missed seen (x ++ later)) in
        record {
          left = x;
          future = later;
          is_untaken =
              ap (untaken seen_ids) longer
              ∙ untaken-append seen_ids seen x
              ∙ ap (λ xs. xs ++ untaken seen_ids x)
                  (untaken-Inside seen_ids seen
                    (λ i k. contains-ids i missed seen ∙ ground (arith, k)))
              ∙ untaken-Apart seen_ids x (
                  later-Apart (missed ++ seen) x later
                    (subst (λ xs. Distinct (event_ids xs)) whole d));
          same_log = ap (λ xs. xs ++ later) longer;
          known = λ i.
              ground (arith, ap (λ xs. contains i (event_ids xs)) longer, contains-ids i seen x);
        }
  ]

  pub first_read-InLog :
      {missed brought later : List (TaskEventChange P)} {p : GraphqlPostman P}
      (seen beyond : List (TaskEventChange P))
      → Opening task reference missed brought later p
      → brought ++ later ≡ seen ++ beyond
      → InLog task reference (record {
        postman = catch_up task (missed ++ seen) p;
        taken = [];
        log = missed ++ (brought ++ later);
      })
  first_read-InLog {missed} {brought} {later} {p} seen beyond opening cut =
      let h = Opening-HasBrought opening in
      let history = missed ++ seen in
      let routed = get_or task p.routed_event_ids [] in
      let caught = caught_up_lem task reference history (events brought) p h.bound h.queue in
      let l = IsLeft-by missed brought later seen beyond h.distinct cut in
      let fresh : untaken (taken_ids routed (events brought)) history ≡ history =
        untaken-Apart (taken_ids routed (events brought)) history (λ i k. none_taken h i) in
      record {
        waiting = history ++ l.left;
        future = l.future;
        in_order =
            ap (λ xs. missed ++ xs) l.same_log
            ∙ sym (append_assoc missed (seen ++ l.left) l.future)
            ∙ ap (λ xs. xs ++ l.future) (sym (append_assoc missed seen l.left));
        distinct = h.distinct;
        bound = ap (lookup task) caught.0 ∙ h.bound;
        queue =
            caught.1
            ∙ ap some (
                ap (λ xs. events xs ++ still_waiting (event_ids history) (events brought)) fresh
                ∙ ap (λ xs. events history ++ xs)
                    (still_waiting-events (event_ids history) brought ∙ ap events l.is_untaken)
                ∙ sym (events-append history l.left));
        routed = λ i.
            ap (contains i) caught.2
            ∙ contains-append i (event_ids (untaken (taken_ids routed (events brought)) history))
                routed
            ∙ ap (λ xs. contains i (event_ids xs) || contains i routed) fresh
            ∙ ground (
              arith,
              h.routed i,
              contains-ids i missed seen,
              l.known i,
              ap (λ xs. contains i (event_ids xs)) (append_assoc missed seen l.left),
              contains-ids i missed (seen ++ l.left),
            );
      }
    where
      none_taken :
          HasBrought missed brought later p
          → (i : String)
          → contains i (taken_ids (get_or task p.routed_event_ids []) (events brought)) ≡ false
      none_taken h i =
          unfold taken_ids in
          ground (
            arith,
            contains-keep (λ j. not (contains j (ids (events brought)))) i
                (get_or task p.routed_event_ids []),
            ap (contains i) (ids-events brought),
            h.routed i,
          )
