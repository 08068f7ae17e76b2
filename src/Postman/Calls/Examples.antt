-- ===== src/Postman/Calls/Examples.antt =====
-- A call that is answered and reads its task's events.
use rekuest.Prelude.{
  arith, ℕ, ◌+◌, ◌*◌, ◌≤◌, ◌≡◌, ◌⊎◌, refl, String, Bool, true, false, Option, none, some, contains,
  List, [], ◌∷◌, if◌then◌else◌, string_eq,
}
use rekuest.Prelude.Dict.{lookup, insert, get_or}
use rekuest.Postman.{
  other_kind, TaskEventChange, Item, event, feed_lost, GraphqlPostman, new_postman, route,
  stop_watching, catch_up_safely,
}
use rekuest.Postman.Cancel.{Request, cancel, assigned_despite_cancel}
use rekuest.Postman.Calls.{
  AssignCall, cannot_assign, broke_off, cancelled, closed, lost_feed, assigning, reading, waiting,
  handed_on, Call, task_made, assign_failed, assign_broke_off, begin_call, take_answer,
  take_history, get_item, ask_next, close_call, cancel_following, cancel_assigning,
}
use rekuest.Postman.Calls.Served.{Serving, after, Reach, begins}
use rekuest.Postman.Calls.Over.{EndsClean, ended_assign-IsGone}

abbrev asked : AssignCall ℕ
asked = record {
  args = 7;
  capture = false;
  reference = some "ref";
  hooks = none;
  action = some "a";
  implementation = none;
  parent = none;
  dependency = none;
  method = none;
  action_hash = none;
  agent = none;
  interface = none;
  resolution = none;
  dependencies = none;
  step = none;
  escalate_to_interrupt = false;
  cancel_timeout = none;
  policy = none;
  state_requires = some [];
}

abbrev same : ℕ → ℕ
same j = j

abbrev begun : Serving ℕ
begun = after false (
  (begin_call same 5 true "fresh" asked new_postman).1,
  (begin_call same 5 true "fresh" asked new_postman).2,
)

abbrev made : Serving ℕ
made = after false (take_answer false (task_made "t") begun.call begun.postman)

abbrev history : Option (List (TaskEventChange ℕ))
history = some (record { id = "e1"; task = "t"; kind = other_kind; payload = 0 } ∷ [])

abbrev read : Call ℕ × GraphqlPostman ℕ
read = take_history "t" history made.call made.postman

abbrev follows : Serving ℕ
follows = after (contains made.call.reference read.1.catching_up) read

begun_reached : Reach same 5 begun
begun_reached = begins true "fresh" asked new_postman

-- The first event waits, and the feed has shown nothing yet.
queued :
    lookup "ref" follows.postman.update_queues
    ≡ some (event (record { id = "e1"; task = "t"; kind = other_kind; payload = 0 }) ∷ [])
unfolding begin_call take_answer take_history lookup insert
queued = refl

ended_assign-IsGone_example :
    ((live : Bool)
      → begun.call.stage ≡ assigning live
      → EndsClean none cannot_assign (take_answer live assign_failed begun.call begun.postman)
        × EndsClean none broke_off (take_answer live assign_broke_off begun.call begun.postman))
    × ((task reason : String) (rest : List (Item ℕ))
        → begun.call.stage ≡ waiting task
        → lookup begun.call.reference begun.postman.update_queues ≡ some (feed_lost reason ∷ rest)
        → EndsClean (some task) (lost_feed reason) (get_item task begun.call begun.postman))
    × ((task : String)
        → begun.call.stage ≡ handed_on task
        → EndsClean (some task) closed (close_call task begun.call begun.postman))
    × ((task : String) (cancel_takes interrupt_takes now : ℕ) (queue : List (ℕ × Item ℕ))
        → (begun.call.stage ≡ reading task) ⊎ (begun.call.stage ≡ waiting task)
        → let (requests, ends_at, c, p) =
            cancel_following cancel_takes interrupt_takes now queue task begun.call begun.postman in
          EndsClean (some task) cancelled (c, p)
          × ((more : List Request) × (requests ≡ cancel ∷ more))
          × (ends_at
              ≤ now
                + (if begun.call.escalate_to_interrupt
                    then 4 * begun.call.timeout
                    else 2 * begun.call.timeout)))
    × ((live : Bool) (answer : ℕ × Option String) (cancel_takes interrupt_takes now : ℕ)
          (queue : List (ℕ × Item ℕ))
        → begun.call.stage ≡ assigning live
        → let (requests, ends_at, c, p) =
            cancel_assigning answer cancel_takes interrupt_takes now queue begun.call
              begun.postman in
          EndsClean (assigned_despite_cancel begun.call.timeout answer now).0 cancelled (c, p))
ended_assign-IsGone_example = ended_assign-IsGone begun_reached

-- A call from inside a task is refused, and nothing is sent.
child_is_refused :
    (begin_call {P = ℕ} same 5 true "fresh" (record asked { parent = some "p" }) new_postman).0
    ≡ none
unfolding begin_call
child_is_refused = refl

abbrev late : TaskEventChange ℕ
late = record { id = "e9"; task = "t"; kind = other_kind; payload = 0 }

-- An event of a task whose call has been closed is parked, and its id noted, for good.
late_event_stays :
    get_or "t" (route late (close_call "t" follows.call follows.postman).1).orphan_events []
    ≡ late ∷ []
unfolding begin_call take_answer take_history close_call route lookup insert
late_event_stays = refl

-- Stopping the feed tells a call that waits nothing.
stopped_call_waits :
    get_item "t"
      (ask_next "t" follows.call)
      (stop_watching (record follows.postman { update_queues = ("ref", []) ∷ [] }))
    ≡ (
      ask_next "t" follows.call,
      stop_watching (record follows.postman { update_queues = ("ref", []) ∷ [] }),
    )
unfolding begin_call take_answer take_history get_item ask_next stop_watching lookup insert
stopped_call_waits = refl

-- A first read that fails while the feed is live already leaves the call waiting on an empty queue, with
-- no task that reads again.
failed_read_is_left :
    (c : Call ℕ) (p : GraphqlPostman ℕ)
    → p.feed_live ≡ true
    → take_history "t" none c p ≡ (record c { stage = waiting "t" }, p)
unfolding take_history catch_up_safely
failed_read_is_left c p live = ground (arith, live)
