-- ===== src/Postman/CatchUp.antt =====
-- What a call's queue holds once its task's history was read.
use rekuest.Prelude.{
  ◌≡◌, refl, ap, inl, inr, Bool-cases, String, true, false, not, ◌&&◌, ◌||◌, some, List, [], ◌∷◌,
  ◌++◌, arith, contains, contains-append, contains-keep, string_eq,
}
use rekuest.Prelude.Dict.{lookup, get_or, lookup-insert}
use rekuest.Postman.{
  TaskEventChange, Item, event, feed_lost, GraphqlPostman, events, queue_of, ids, event_ids,
  still_waiting, untaken, taken_ids, catch_up,
}

-- No text stands twice in the list.
abbrev pub Distinct : List String → Type 0
Distinct [] = Unit
Distinct (x ∷ xs) = (contains x xs ≡ false) × Distinct xs

pub Distinct-append :
    (xs ys : List String)
    → Distinct xs
    → Distinct ys
    → ((i : String) → contains i xs ≡ true → contains i ys ≡ false)
    → Distinct (xs ++ ys)
Distinct-append [] ys dx dy apart = dy
Distinct-append (x ∷ xs) ys dx dy apart = (
  ground (arith, contains-append x xs ys, dx.0, apart x, string_eq.beq_iff x x),
  Distinct-append xs ys dx.1 dy (λ i h. apart i (ground (arith, h))),
)

-- Some of a list's elements, in its order
pub data Part {ℓ} {A : Type ℓ} : List A → List A → Type ℓ where
  nothing : Part [] []
  leaves : {x : A} {xs ys : List A} → Part xs ys → Part xs (x ∷ ys)
  keeps : {x : A} {xs ys : List A} → Part xs ys → Part (x ∷ xs) (x ∷ ys)

module _ {P : Type 0} where
  -- The news of a lost feed among the items
  abbrev pub losses : List (Item P) → List String
  losses [] = []
  losses (event e ∷ items) = losses items
  losses (feed_lost reason ∷ items) = reason ∷ losses items

  losses-still_waiting :
      (read : List String) (items : List (Item P))
      → losses (still_waiting read items) ≡ losses items
  unfolding still_waiting
  losses-still_waiting read [] = refl
  losses-still_waiting read (feed_lost reason ∷ items) =
      ap (◌∷◌ reason) (losses-still_waiting read items)
  losses-still_waiting read (event e ∷ items) = elim (Bool-cases (contains e.id read)) [
    | inl old ↦ rw old (losses-still_waiting read items)
    | inr new ↦ rw new (losses-still_waiting read items)
  ]

  still_waiting-Part :
      (read : List String) (items : List (Item P)) → Part (still_waiting read items) items
  unfolding still_waiting
  still_waiting-Part read [] = nothing
  still_waiting-Part read (feed_lost reason ∷ items) = keeps (still_waiting-Part read items)
  still_waiting-Part read (event e ∷ items) = elim (Bool-cases (contains e.id read)) [
    | inl old ↦ rw old (leaves (still_waiting-Part read items))
    | inr new ↦ rw new (keeps (still_waiting-Part read items))
  ]

  untaken-Part : (taken : List String) (es : List (TaskEventChange P)) → Part (untaken taken es) es
  unfolding untaken
  untaken-Part taken [] = nothing
  untaken-Part taken (e ∷ es) = elim (Bool-cases (contains e.id taken)) [
    | inl old ↦ rw old (leaves (untaken-Part taken es))
    | inr new ↦ rw new (keeps (untaken-Part taken es))
  ]

  ids-events :
      (es : List (TaskEventChange P)) (items : List (Item P))
      → ids (events es ++ items) ≡ event_ids es ++ ids items
  ids-events [] items = refl
  ids-events (e ∷ es) items = ap (◌∷◌ e.id) (ids-events es items)

  contains-untaken :
      (taken : List String) (i : String) (es : List (TaskEventChange P))
      → contains i (event_ids (untaken taken es))
        ≡ (contains i (event_ids es) && not (contains i taken))
  unfolding untaken
  contains-untaken taken i [] = refl
  contains-untaken taken i (e ∷ es) =
      ground (arith, contains-untaken taken i es, string_eq.beq_iff e.id i)

  contains-still_waiting :
      (read : List String) (i : String) (items : List (Item P))
      → contains i (ids (still_waiting read items))
        ≡ (contains i (ids items) && not (contains i read))
  unfolding still_waiting
  contains-still_waiting read i [] = refl
  contains-still_waiting read i (feed_lost r ∷ items) = contains-still_waiting read i items
  contains-still_waiting read i (event e ∷ items) =
      ground (arith, contains-still_waiting read i items, string_eq.beq_iff e.id i)

  Distinct-untaken :
      (taken : List String) (es : List (TaskEventChange P))
      → Distinct (event_ids es)
      → Distinct (event_ids (untaken taken es))
  unfolding untaken
  Distinct-untaken taken [] d = tt
  Distinct-untaken taken (e ∷ es) d =
      ground (arith, Distinct-untaken taken es d.1, contains-untaken taken e.id es)

  Distinct-still_waiting :
      (read : List String) (items : List (Item P))
      → Distinct (ids items)
      → Distinct (ids (still_waiting read items))
  unfolding still_waiting
  Distinct-still_waiting read [] d = tt
  Distinct-still_waiting read (feed_lost r ∷ items) d = Distinct-still_waiting read items d
  Distinct-still_waiting read (event e ∷ items) d =
      ground (arith, Distinct-still_waiting read items d.1, contains-still_waiting read e.id items)

  module _ (task reference : String) (waiting : List (Item P)) (history : List (TaskEventChange P))
      (p : GraphqlPostman P) (found : queue_of task p ≡ some (reference, waiting)) where
    -- The queue that a catch-up leaves.
    pub caught : List (Item P)
    caught =
        events (untaken (taken_ids (get_or task p.routed_event_ids []) waiting) history)
        ++ still_waiting (event_ids history) waiting

    lookup-catch_up : lookup reference (catch_up task history p).update_queues ≡ some caught
    unfolding catch_up caught
    lookup-catch_up = ground (
      arith,
      found,
      lookup-insert reference reference caught p.update_queues,
      string_eq.beq_iff reference reference,
    )

    contains-caught :
        (i : String)
        → contains i (ids caught) ≡ (
            contains i (ids waiting)
            || (contains i (event_ids history)
                && not (contains i (get_or task p.routed_event_ids []))))
    unfolding caught taken_ids
    contains-caught i =
        let routed = get_or task p.routed_event_ids [] in
        let fresh = untaken (taken_ids routed waiting) history in
        let kept = still_waiting (event_ids history) waiting in
        ground (
          arith,
          ap (contains i) (ids-events fresh kept),
          contains-append i (event_ids fresh) (ids kept),
          contains-untaken (taken_ids routed waiting) i history,
          contains-still_waiting (event_ids history) i waiting,
          contains-keep (λ j. not (contains j (ids waiting))) i routed,
        )

    Distinct-caught : Distinct (event_ids history) → Distinct (ids waiting) → Distinct (ids caught)
    unfolding caught
    Distinct-caught dh dw =
        let routed = get_or task p.routed_event_ids [] in
        let fresh = untaken (taken_ids routed waiting) history in
        let kept = still_waiting (event_ids history) waiting in
        rw (ids-events fresh kept) (
          Distinct-append (event_ids fresh) (ids kept)
            (Distinct-untaken (taken_ids routed waiting) history dh)
            (Distinct-still_waiting (event_ids history) waiting dw)
            (λ i h. ground (
              arith,
              h,
              contains-untaken (taken_ids routed waiting) i history,
              contains-still_waiting (event_ids history) i waiting,
            )))

    -- After a catch-up the call's queue holds exactly the events that were waiting and those of the
    -- history that were never routed to it: no event that waited is lost, none that the call took comes
    -- again, and none stands in it twice. The events of the history are in front, in its order, and
    -- behind them is what else waited, in the order in which it waited: events that the history has
    -- not, and all the news of a lost feed.
    pub catch_up_lem :
        Distinct (event_ids history)
        → Distinct (ids waiting)
        → (front : List (TaskEventChange P)) × (back : List (Item P)) × (lookup reference
              (catch_up task history p).update_queues
            ≡ some (events front ++ back))
          × Part front history
          × Part back waiting
          × (losses back ≡ losses waiting)
          × ((i : String) → contains i (ids back) ≡ true → contains i (event_ids history) ≡ false)
          × Distinct (ids (events front ++ back))
          × ((i : String)
              → contains i (ids (events front ++ back)) ≡ (
                  contains i (ids waiting)
                  || (contains i (event_ids history)
                      && not (contains i (get_or task p.routed_event_ids [])))))
    catch_up_lem dh dw =
        let skip = taken_ids (get_or task p.routed_event_ids []) waiting in
        let read = event_ids history in
        unfold caught in
        (
          untaken skip history,
          still_waiting read waiting,
          lookup-catch_up,
          untaken-Part skip history,
          still_waiting-Part read waiting,
          losses-still_waiting read waiting,
          λ i h. ground (arith, h, contains-still_waiting read i waiting),
          Distinct-caught dh dw,
          contains-caught,
        )
