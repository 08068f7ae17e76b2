-- ===== src/Postman/Calls.antt =====
-- `aassign` of the GraphQL postman as a whole, one resumption of the coroutine at a time: from its
-- arguments to each of its ends. `J` is what it passes on as it is given. A call's queue is the one
-- under its reference, so the calls of one time have different references.
pub mod Keeps
pub mod Served
pub mod Over
mod Examples
use rekuest.Prelude.{
  ℕ, String, Bool, true, false, not, Option, none, some, List, [], ◌∷◌, ◌++◌, map, if◌then◌else◌,
  string_eq,
}
use rekuest.Prelude.Dict.{lookup, insert}
use rekuest.Postman.{
  TaskEventChange, Item, event, feed_lost, GraphqlPostman, bind, catch_up_safely, open_call,
  cleanup_reference, is_root_call,
}
use rekuest.Postman.Cancel.{
  Request, Confirmation, confirm_cancellation, cancel_in_flight, assigned_despite_cancel,
}

-- The arguments, but for `call_key` and `prompt`, which are not used.
pub record AssignCall (J : Type 0) : Type 0 where
  pub args : J
  pub capture : Bool
  pub reference : Option String
  pub hooks : Option (List J)
  pub action : Option String
  pub implementation : Option String
  pub parent : Option String
  pub dependency : Option String
  pub method : Option String
  pub action_hash : Option String
  pub agent : Option String
  pub interface : Option String
  pub resolution : Option String
  pub dependencies : Option (List J)
  pub step : Option Bool
  pub escalate_to_interrupt : Bool
  pub cancel_timeout : Option ℕ
  pub policy : Option J
  pub state_requires : Option (List J)

pub record AssignInput (J : Type 0) : Type 0 where
  pub action : Option String
  pub resolution : Option String
  pub implementation : Option String
  pub agent : Option String
  pub action_hash : Option String
  pub interface : Option String
  pub hooks : Option (List J)
  pub args : J
  pub reference : String
  pub capture : Bool
  pub dependencies : Option (List J)
  pub step : Option Bool
  pub policy : Option J
  pub state_requires : Option (List J)

-- `reference or str(uuid.uuid4())`
abbrev pub reference_or : Option String → String → String
reference_or none fresh = fresh
reference_or (some String.[]) fresh = fresh
reference_or (some (String.◌∷◌ c s)) fresh = String.◌∷◌ c s

module _ {J : Type 0} (to_input : J → J) where
  -- `… if state_requires else None`: an empty list is not sent either.
  abbrev pub requirement_inputs : Option (List J) → Option (List J)
  requirement_inputs none = none
  requirement_inputs (some []) = none
  requirement_inputs (some (r ∷ rs)) = some (map to_input (r ∷ rs))

  unfoldable pub assign_input : String → AssignCall J → AssignInput J
  assign_input fresh c = record {
    action = c.action;
    resolution = c.resolution;
    implementation = c.implementation;
    agent = c.agent;
    action_hash = c.action_hash;
    interface = c.interface;
    hooks = c.hooks;
    args = c.args;
    reference = reference_or c.reference fresh;
    capture = c.capture;
    dependencies = c.dependencies;
    step = c.step;
    policy = c.policy;
    state_requires = requirement_inputs c.state_requires;
  }

-- How a call ends: what it raises, or that its caller closed it. `broke_off` is an assign that raised
-- what is no `Exception`.
pub data Ending : Type 0 where
  root_only never_connected cannot_assign broke_off cancelled closed : Ending
  lost_feed : String → Ending

-- Where a call is suspended. `assigning` remembers whether the feed was live when the assign was sent;
-- `reading` waits for the first read of its task's events, `waiting` for its queue, and `handed_on`
-- for its caller to ask for the next event. A call that is over has its task, if it learned of one.
pub data Stage : Type 0 where
  assigning : Bool → Stage
  reading : String → Stage
  waiting : String → Stage
  handed_on : String → Stage
  over : Option String → Ending → Stage

pub record Call (P : Type 0) : Type 0 where
  pub reference : String
  pub escalate_to_interrupt : Bool
  pub timeout : ℕ
  pub stage : Stage
  pub handed : List (TaskEventChange P)

pub data Answer : Type 0 where
  task_made : String → Answer
  assign_failed assign_broke_off : Answer

module _ {P : Type 0} where
  abbrev pub end_call :
      Option String → Ending → Call P → GraphqlPostman P → Call P × GraphqlPostman P
  end_call task why c p = (record c { stage = over task why }, cleanup_reference c.reference p)

  module _ {J : Type 0} (to_input : J → J) (cancel_timeout : ℕ) where
    -- Up to the assign: what is sent, if anything is. `connected` is whether the postman was entered.
    unfoldable pub begin_call :
        Bool
        → String
        → AssignCall J
        → GraphqlPostman P
        → Option (AssignInput J) × Call P × GraphqlPostman P
    unfolding assign_input open_call is_root_call
    begin_call connected fresh a p =
        let input = assign_input to_input fresh a in
        let call : Stage → Call P = λ stage. record {
          reference = input.reference;
          escalate_to_interrupt = a.escalate_to_interrupt;
          timeout = elim a.cancel_timeout [ none ↦ cancel_timeout | some t ↦ t ];
          stage = stage;
          handed = [];
        } in
        if not (is_root_call a.parent a.dependency a.method)
        then (none, call (over none root_only), p)
        else if not connected
        then (none, call (over none never_connected), p)
        else (some input, call (assigning p.feed_live), open_call input.reference p)

  -- The answer to the assign is there.
  unfoldable pub take_answer : Bool → Answer → Call P → GraphqlPostman P → Call P × GraphqlPostman P
  unfolding bind cleanup_reference
  take_answer feed_was_live (task_made task) c p = (
    record c { stage = if feed_was_live then waiting task else reading task },
    bind task c.reference p,
  )
  take_answer feed_was_live assign_failed c p = end_call none cannot_assign c p
  take_answer feed_was_live assign_broke_off c p = end_call none broke_off c p

  -- The first read is done; a catch-up task is made while the feed has shown nothing.
  unfoldable pub take_history :
      String
      → Option (List (TaskEventChange P))
      → Call P
      → GraphqlPostman P
      → Call P × GraphqlPostman P
  unfolding catch_up_safely
  take_history task history c p =
      let caught = catch_up_safely task history p in
      (
        record c { stage = waiting task },
        if caught.feed_live
            then caught
            else (record caught { catching_up = c.reference ∷ caught.catching_up }),
      )

  -- The queue had an item, and `rest` behind it.
  unfoldable pub take_item :
      String → Item P → List (Item P) → Call P → GraphqlPostman P → Call P × GraphqlPostman P
  unfolding cleanup_reference
  take_item task (event e) rest c p = (
    record c { stage = handed_on task; handed = c.handed ++ e ∷ [] },
    record p { update_queues = insert c.reference rest p.update_queues },
  )
  take_item task (feed_lost reason) rest c p =
      end_call (some task) (lost_feed reason) c
        (record p { update_queues = insert c.reference rest p.update_queues })

  -- `await queue.get()`: on an empty queue, and with no queue, it goes on waiting.
  unfoldable pub get_item : String → Call P → GraphqlPostman P → Call P × GraphqlPostman P
  unfolding take_item
  get_item task c p = elim (lookup c.reference p.update_queues) [
    | none ↦ (c, p)
    | some [] ↦ (c, p)
    | some (item ∷ rest) ↦ take_item task item rest c p
  ]

  -- The caller asks for the next event.
  unfoldable pub ask_next : String → Call P → Call P
  ask_next task c = record c { stage = waiting task }

  -- One round of `_acatch_up_until_live` after its sleep: whether it goes on, and the postman.
  unfoldable pub catch_up_round :
      String → Option (List (TaskEventChange P)) → GraphqlPostman P → Bool × GraphqlPostman P
  unfolding catch_up_safely
  catch_up_round task history p =
      if p.feed_live
      then (false, p)
      else (let caught = catch_up_safely task history p in (not caught.feed_live, caught))

  -- The caller closes the generator, which is suspended where it handed an event on.
  unfoldable pub close_call : String → Call P → GraphqlPostman P → Call P × GraphqlPostman P
  unfolding cleanup_reference
  close_call task c p = end_call (some task) closed c p

  -- The call is cancelled while it reads or waits: the requests, when it raises, and what is left.
  -- `queue` is what its queue delivers from then on, and the postman the one that it leaves in the end.
  unfoldable pub cancel_following :
      ℕ
      → ℕ
      → ℕ
      → List (ℕ × Item P)
      → String
      → Call P
      → GraphqlPostman P
      → List Request × ℕ × Call P × GraphqlPostman P
  unfolding confirm_cancellation cleanup_reference
  cancel_following cancel_takes interrupt_takes now queue task c p =
      let confirmed =
        confirm_cancellation c.escalate_to_interrupt c.timeout cancel_takes interrupt_takes now
          queue in
      let (c', p') = end_call (some task) cancelled c p in
      (confirmed.requests, confirmed.returned_at, c', p')

  -- The call is cancelled while the assign is in flight.
  unfoldable pub cancel_assigning :
      ℕ × Option String
      → ℕ
      → ℕ
      → ℕ
      → List (ℕ × Item P)
      → Call P
      → GraphqlPostman P
      → List Request × ℕ × Call P × GraphqlPostman P
  unfolding cancel_in_flight
  cancel_assigning answer cancel_takes interrupt_takes now queue c p =
      let (requests, ends_at, p') =
        cancel_in_flight c.escalate_to_interrupt c.timeout answer cancel_takes interrupt_takes now
          queue c.reference p in
      let known = (assigned_despite_cancel c.timeout answer now).0 in
      (requests, ends_at, record c { stage = over known cancelled }, p')
