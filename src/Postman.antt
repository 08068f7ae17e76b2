-- ===== src/Postman.antt =====
-- rekuest/client/postman.py: the postman that assigns root tasks over GraphQL and follows their
-- events on the client's change feed. `P` is what an event carries besides its ids and its kind.
pub mod Routing
pub mod CatchUp
pub mod Ordered
pub mod Ends
pub mod Cancel
pub mod Calls
mod Examples
use rekuest.Prelude.{
  ℕ, ◌+◌, ◌*◌, min, String, Bool, true, false, not, ◌&&◌, ◌||◌, Option, none, some, List, [], ◌∷◌,
  ◌++◌, ◌==◌, if◌then◌else◌, keep, contains, string_eq, ltb, leb, nat_beq,
}
use rekuest.Prelude.Dict.{Dict, lookup, insert, get_or, set_default, has, keys, remove}

-- The kinds that this file names, and any other.
pub data EventKind : Type 0 where
  cancelled interrupted other_kind : EventKind

pub record TaskEventChange (P : Type 0) : Type 0 where
  pub id : String
  pub task : String
  pub kind : EventKind
  pub payload : P

-- What waits on a call's queue: an event, or the news that the feed died.
pub data Item (P : Type 0) : Type 0 where
  event : TaskEventChange P → Item P
  feed_lost : String → Item P

-- `catching_up` are the references with a catch-up task.
pub record GraphqlPostman (P : Type 0) : Type 0 where
  pub update_queues : Dict String (List (Item P))
  pub task_to_reference : Dict String String
  pub reference_to_task : Dict String String
  pub orphan_events : Dict String (List (TaskEventChange P))
  pub routed_event_ids : Dict String (List String)
  pub catching_up : List String
  pub watching : Bool
  pub feed_live : Bool

module _ {P : Type 0} where
  abbrev pub new_postman : GraphqlPostman P
  new_postman = record {
    update_queues = [];
    task_to_reference = [];
    reference_to_task = [];
    orphan_events = [];
    routed_event_ids = [];
    catching_up = [];
    watching = false;
    feed_live = false;
  }

  abbrev pub events : List (TaskEventChange P) → List (Item P)
  events [] = []
  events (e ∷ es) = event e ∷ events es

  -- `for event in orphans: queue.put_nowait(event)`, if the queue is there
  unfoldable pub flush :
      String → List (TaskEventChange P) → Dict String (List (Item P)) → Dict String (List (Item P))
  flush reference orphans queues = elim (lookup reference queues) [
    | none ↦ queues
    | some queue ↦ insert reference (queue ++ events orphans) queues
  ]

  unfoldable pub bind : String → String → GraphqlPostman P → GraphqlPostman P
  unfolding flush
  bind task_id reference p = record p {
    task_to_reference = insert task_id reference p.task_to_reference;
    reference_to_task = insert reference task_id p.reference_to_task;
    orphan_events = remove task_id p.orphan_events;
    update_queues = flush reference (get_or task_id p.orphan_events []) p.update_queues;
  }

  -- `self._ass_update_queues.get(reference) if reference is not None else None`
  unfoldable pub queue_of : String → GraphqlPostman P → Option (String × List (Item P))
  queue_of task_id p = elim (lookup task_id p.task_to_reference) [
    | none ↦ none
    | some reference ↦ elim (lookup reference p.update_queues) [
      | none ↦ none
      | some queue ↦ some (reference, queue)
    ]
  ]

  unfoldable pub deliver : TaskEventChange P → GraphqlPostman P → GraphqlPostman P
  unfolding queue_of
  deliver e p = elim (queue_of e.task p) [
    | some (reference, queue) ↦ record p {
      update_queues = insert reference (queue ++ event e ∷ []) p.update_queues;
    }
    | none ↦ record p {
      orphan_events = insert e.task (get_or e.task p.orphan_events [] ++ e ∷ []) p.orphan_events;
    }
  ]

  unfoldable pub route : TaskEventChange P → GraphqlPostman P → GraphqlPostman P
  unfolding deliver
  route e p =
      let routed = get_or e.task p.routed_event_ids [] in
      let known = record p { routed_event_ids = set_default e.task [] p.routed_event_ids } in
      if contains e.id routed
      then known
      else (deliver e
          (record p { routed_event_ids = insert e.task (e.id ∷ routed) p.routed_event_ids }))

  abbrev pub ids : List (Item P) → List String
  ids [] = []
  ids (event e ∷ items) = e.id ∷ ids items
  ids (feed_lost reason ∷ items) = ids items

  abbrev pub event_ids : List (TaskEventChange P) → List String
  event_ids [] = []
  event_ids (e ∷ es) = e.id ∷ event_ids es

  -- `for item in waiting: if isinstance(item, _FeedLost) or item.id not in read: …`
  unfoldable pub still_waiting : List String → List (Item P) → List (Item P)
  still_waiting read [] = []
  still_waiting read (feed_lost reason ∷ items) = feed_lost reason ∷ still_waiting read items
  still_waiting read (event e ∷ items) =
      let rest = still_waiting read items in if contains e.id read then rest else event e ∷ rest

  -- `for event in history: if event.id not in taken: …`
  unfoldable pub untaken : List String → List (TaskEventChange P) → List (TaskEventChange P)
  untaken taken history = keep (λ e. not (contains e.id taken)) history

  -- `routed - waiting_ids`
  unfoldable pub taken_ids : List String → List (Item P) → List String
  taken_ids routed waiting = keep (λ i. not (contains i (ids waiting))) routed

  -- `_acatch_up` once the history was read
  unfoldable pub catch_up : String → List (TaskEventChange P) → GraphqlPostman P → GraphqlPostman P
  unfolding queue_of still_waiting untaken taken_ids
  catch_up task_id history p = elim (queue_of task_id p) [
    | none ↦ p
    | some (reference, waiting) ↦
        let routed = get_or task_id p.routed_event_ids [] in
        let fresh = untaken (taken_ids routed waiting) history in
        record p {
          update_queues =
              insert reference (events fresh ++ still_waiting (event_ids history) waiting)
                p.update_queues;
          routed_event_ids = insert task_id (event_ids fresh ++ routed) p.routed_event_ids;
        }
  ]

  -- `history` is `none` where reading it raised, which is logged.
  unfoldable pub catch_up_safely :
      String → Option (List (TaskEventChange P)) → GraphqlPostman P → GraphqlPostman P
  unfolding catch_up
  catch_up_safely task_id none p = p
  catch_up_safely task_id (some history) p = catch_up task_id history p

  unfoldable pub cleanup_reference : String → GraphqlPostman P → GraphqlPostman P
  cleanup_reference reference p =
      let ended = record p {
        reference_to_task = remove reference p.reference_to_task;
        update_queues = remove reference p.update_queues;
        catching_up = keep (λ r. not (r == reference)) p.catching_up;
      } in
      elim (lookup reference p.reference_to_task) [
        | none ↦ ended
        | some tid ↦ record ended {
          task_to_reference = remove tid p.task_to_reference;
          orphan_events = remove tid p.orphan_events;
          routed_event_ids = remove tid p.routed_event_ids;
        }
      ]

-- A change of the feed: a created task with its reference, and an event.
pub record TaskChangeEvent (P : Type 0) : Type 0 where
  pub create : Option (String × Option String)
  pub change : Option (TaskEventChange P)

module _ {P : Type 0} where
  -- `if change.create and change.create.reference: …`; an empty reference is not bound.
  unfoldable pub bind_created :
      Option (String × Option String) → GraphqlPostman P → GraphqlPostman P
  unfolding bind
  bind_created none p = p
  bind_created (some (task_id, none)) p = p
  bind_created (some (task_id, some reference)) p =
      if reference == "" then p else bind task_id reference p

  -- `if change.event: …`
  unfoldable pub route_change : Option (TaskEventChange P) → GraphqlPostman P → GraphqlPostman P
  unfolding route
  route_change none p = p
  route_change (some e) p = route e p

module _ {P : Type 0} (histories : String → Option (List (TaskEventChange P))) where
  unfoldable pub catch_up_all : List String → GraphqlPostman P → GraphqlPostman P
  unfolding catch_up_safely
  catch_up_all [] p = p
  catch_up_all (task_id ∷ rest) p =
      catch_up_all rest (catch_up_safely task_id (histories task_id) p)

  -- The first change: every call that waits is caught up.
  unfoldable pub come_alive : GraphqlPostman P → GraphqlPostman P
  unfolding catch_up_all
  come_alive p =
      if p.feed_live
      then p
      else (catch_up_all (keys p.task_to_reference) (record p { feed_live = true }))

  -- The body of the loop of `watch_tasks`
  unfoldable pub take_change : TaskChangeEvent P → GraphqlPostman P → GraphqlPostman P
  unfolding come_alive bind_created route_change
  take_change c p = route_change c.change (bind_created c.create (come_alive p))

module _ {P : Type 0} where
  unfoldable pub put_lost : String → Dict String (List (Item P)) → Dict String (List (Item P))
  put_lost reason [] = []
  put_lost reason ((reference, queue) ∷ rest) =
      (reference, queue ++ feed_lost reason ∷ []) ∷ put_lost reason rest

  unfoldable pub fail_pending : String → GraphqlPostman P → GraphqlPostman P
  unfolding put_lost
  fail_pending reason p = record p {
    watching = false;
    feed_live = false;
    update_queues = put_lost reason p.update_queues;
  }

  -- `stop_watching`, once the feed's task has ended
  unfoldable pub stop_watching : GraphqlPostman P → GraphqlPostman P
  stop_watching p = record p { watching = false; feed_live = false }

  -- The loop of `aassign` over what its queue delivers: the events that are handed on, and the
  -- reason for which it raises, if it does.
  unfoldable pub follow : List (Item P) → List (TaskEventChange P) × Option String
  follow [] = ([], none)
  follow (feed_lost reason ∷ items) = ([], some reason)
  follow (event e ∷ items) = let (later, lost) = follow items in (e ∷ later, lost)

  -- `aassign` before the assign is sent: the feed is started if it is not watched, and the call has
  -- a queue of its own.
  unfoldable pub open_call : String → GraphqlPostman P → GraphqlPostman P
  open_call reference p = record p {
    watching = true;
    update_queues = insert reference [] p.update_queues;
  }

-- `_reject_non_root`: true for what is accepted
unfoldable pub is_root_call : Option String → Option String → Option String → Bool
is_root_call none none none = true
is_root_call parent dependency method = false

-- The delay of `_acatch_up_until_live` after `n` reads
unfoldable pub catch_up_delay : ℕ → ℕ → ℕ
catch_up_delay interval ℕ.zero = interval
catch_up_delay interval (ℕ.suc n) = min (catch_up_delay interval n * 2) (interval * 10)
