-- ===== src/Postman/Calls/Served.antt =====
-- What can still wake a call that waits.
pub mod Kept
pub mod Own
pub mod Awake
use rekuest.Prelude.{
  ℕ, ◌≡◌, ◌≢◌, ◌⊎◌, String, Bool, true, false, Option, none, some, contains, List, [], ◌∷◌,
  if◌then◌else◌, string_eq,
}
use rekuest.Prelude.Dict.{lookup, insert}
use rekuest.Postman.{
  TaskEventChange, Item, GraphqlPostman, TaskChangeEvent, bind, route, catch_up_safely, take_change,
  open_call, cleanup_reference, fail_pending,
}
use rekuest.Postman.Calls.{
  AssignCall, Stage, assigning, reading, waiting, handed_on, over, Call, Answer, begin_call,
  take_answer, take_history, get_item, ask_next, catch_up_round, close_call, cancel_following,
  cancel_assigning,
}
use rekuest.Postman.Calls.Keeps.{has_lost, IsBound, Matches}

-- A postman with one call looked at. `reads_on` is whether the call's catch-up task runs.
pub record Serving (P : Type 0) : Type 0 where
  pub postman : GraphqlPostman P
  pub call : Call P
  pub reads_on : Bool

-- The call's task, once it was answered
abbrev pub task_at : Stage → Option String
task_at (assigning live) = none
task_at (reading task) = some task
task_at (waiting task) = some task
task_at (handed_on task) = some task
task_at (over task why) = task

abbrev pub is_over : Stage → Bool
is_over (over task why) = true
is_over _ = false

module _ {P : Type 0} where
  abbrev pub after : Bool → Call P × GraphqlPostman P → Serving P
  after reads_on (c, p) = record { postman = p; call = c; reads_on = reads_on }

  -- Of another call's, or the feed's, task and reference: they are both the call's, or neither.
  abbrev pub Apart : String → String → Serving P → Type 0
  Apart t r w =
      (task : String) → task_at w.call.stage ≡ some task → Matches task w.call.reference t r

  -- What happens to the call and its postman, in any order
  pub data Step (w : Serving P) : Serving P → Type 0 where
    -- The call itself
    answered :
        (live : Bool) (a : Answer)
        → w.call.stage ≡ assigning live
        → Step w (after w.reads_on (take_answer live a w.call w.postman))
    -- The catch-up task runs if it was made.
    read_returns :
        (task : String) (history : Option (List (TaskEventChange P)))
        → w.call.stage ≡ reading task
        → Step w (
            after
              (contains w.call.reference (take_history task history w.call w.postman).1.catching_up)
              (take_history task history w.call w.postman))
    gets :
        (task : String)
        → w.call.stage ≡ waiting task
        → Step w (after w.reads_on (get_item task w.call w.postman))
    asks_next :
        (task : String)
        → w.call.stage ≡ handed_on task
        → Step w (record w { call = ask_next task w.call })
    closes :
        (task : String)
        → w.call.stage ≡ handed_on task
        → Step w (after w.reads_on (close_call task w.call w.postman))
    -- Its catch-up task
    reads_again :
        (task : String) (history : Option (List (TaskEventChange P)))
        → w.reads_on ≡ true
        → Step w (record w {
          postman = (catch_up_round task history w.postman).1;
          reads_on = (catch_up_round task history w.postman).0;
        })
    -- The feed
    feed_changes :
        (histories : String → Option (List (TaskEventChange P))) (c : TaskChangeEvent P)
        → ((t r : String) → c.create ≡ some (t, some r) → Apart t r w)
        → Step w (record w { postman = take_change histories c w.postman })
    feed_dies : (reason : String) → Step w (record w { postman = fail_pending reason w.postman })
    -- Other calls, with references of their own
    other_opens :
        (r : String) → r ≢ w.call.reference → Step w (record w { postman = open_call r w.postman })
    other_is_bound :
        (t r : String)
        → r ≢ w.call.reference
        → task_at w.call.stage ≢ some t
        → Step w (record w { postman = bind t r w.postman })
    other_reads :
        (t : String) (history : Option (List (TaskEventChange P)))
        → Step w (record w { postman = catch_up_safely t history w.postman })
    other_reads_on :
        (r : String)
        → Step w
            (record w { postman = record w.postman { catching_up = r ∷ w.postman.catching_up } })
    other_takes :
        (r : String) (rest : List (Item P))
        → r ≢ w.call.reference
        → Step w (record w {
          postman = record w.postman { update_queues = insert r rest w.postman.update_queues };
        })
    other_ends :
        (r : String)
        → r ≢ w.call.reference
        → ((task : String)
            → task_at w.call.stage ≡ some task
            → lookup r w.postman.reference_to_task ≢ some task)
        → Step w (record w { postman = cleanup_reference r w.postman })

  -- From the call's start on any postman
  pub data Reach {J : Type 0} (to_input : J → J) (cancel_timeout : ℕ) : Serving P → Type 0 where
    begins :
        (connected : Bool) (fresh : String) (a : AssignCall J) (p : GraphqlPostman P)
        → Reach to_input cancel_timeout (
            after false (
              (begin_call to_input cancel_timeout connected fresh a p).1,
              (begin_call to_input cancel_timeout connected fresh a p).2,
            ))
    then_ :
        {w w' : Serving P}
        → Reach to_input cancel_timeout w
        → Step w w'
        → Reach to_input cancel_timeout w'

  -- What will wake a call at this stage, if the feed is not dead: `queue` is its queue.
  abbrev pub WillWake : Stage → Serving P → Type 0
  WillWake (assigning live) w =
      (w.postman.watching ≡ true) × (live ≡ true → w.postman.feed_live ≡ true)
  WillWake (reading task) w = w.postman.watching ≡ true
  WillWake (over task why) w = Unit
  WillWake _ w = (w.postman.watching ≡ true) × ((w.postman.feed_live ≡ true) ⊎ (w.reads_on ≡ true))

  pub record IsServed (w : Serving P) : Type 0 where
    pub has_queue :
        is_over w.call.stage ≡ false
        → (queue : List (Item P)) × (lookup w.call.reference w.postman.update_queues ≡ some queue)
          × ((has_lost queue ≡ true) ⊎ WillWake w.call.stage w)
    pub bound :
        (task : String)
        → is_over w.call.stage ≡ false
        → task_at w.call.stage ≡ some task
        → IsBound w.call.reference task w.postman
