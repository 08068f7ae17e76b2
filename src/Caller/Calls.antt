-- ===== src/Caller/Calls.antt =====
-- `_astream` from its first wait to its end, one resumption of the coroutine at a time.
pub mod Handed
pub mod Runs
pub mod Over
mod Examples
use rekuest.Prelude.{
  ℕ, String, Bool, Option, none, some, List, [], ◌∷◌, ◌++◌, map, if◌then◌else◌, ◌==◌, contains,
  option_list, nat_eq, string_eq, pair_eq, true, false,
}
use rekuest.Prelude.Dict.{lookup, insert, get_or}
use rekuest.Caller.{
  Mirror, CallerTaskEvent, ExecutionEvent, AgentPostman, Response, Refusal, Accepted, task_of,
  refused, adapt, register_task, drop_call, accept_response, await_response,
}
use rekuest.Caller.Cancel.{Control, cancel_request, Confirmation, confirm_cancellation}

-- Where a call waits, or how it ended: `following` its task's queue with the `seq` it has seen, `ending`
-- at the `yield` of a terminal event.
pub data Stage : Type 0 where
  asking : Stage
  following : String → List ℕ → Stage
  ending : String → Stage
  returned : String → Stage
  raised : Refusal → Stage
  send_failed given_up : Stage

pub record Call (V F : Type 0) : Type 0 where
  pub request : String
  pub reference : String
  pub stage : Stage
  pub handed : List (CallerTaskEvent V F)

module _ {V F : Type 0} where
  -- Up to the wait for the answer. `sent` is whether the sink takes the request; what it raises goes
  -- through the `finally` block.
  unfoldable pub begin_call :
      Bool → String → String → AgentPostman V F → Call V F × AgentPostman V F
  unfolding await_response drop_call
  begin_call sent request reference p =
      let waiting = await_response request p in
      if sent
      then (
        record { request = request; reference = reference; stage = asking; handed = [] },
        waiting,
      )
      else (
        record { request = request; reference = reference; stage = send_failed; handed = [] },
        drop_call request reference none waiting,
      )

  -- The answer is there.
  unfoldable pub take_response :
      Accepted → Call V F → AgentPostman V F → Call V F × AgentPostman V F
  unfolding register_task drop_call
  take_response (refused why) c p =
      (record c { stage = raised why }, drop_call c.request c.reference none p)
  take_response (task_of task) c p =
      (record c { stage = following task [] }, register_task c.reference task p)

  -- A terminal event was taken: the call stops at its `yield`, or returns if there is nothing to yield.
  unfoldable pub take_last :
      Option (CallerTaskEvent V F)
      → String
      → Call V F
      → AgentPostman V F
      → Call V F × AgentPostman V F
  unfolding drop_call
  take_last (some adapted) task c p = (record c { stage = ending task }, p)
  take_last none task c p =
      (record c { stage = returned task }, drop_call c.request c.reference (some task) p)

  -- The queue had an event, and `rest` behind it.
  unfoldable pub take_event :
      (Mirror V F → Bool)
      → String
      → List ℕ
      → ExecutionEvent V F
      → List (ExecutionEvent V F)
      → Call V F
      → AgentPostman V F
      → Call V F × AgentPostman V F
  unfolding adapt take_last
  take_event terminal task seen e rest c p =
      let taken = record p { task_queues = insert task rest p.task_queues } in
      let handed = c.handed ++ option_list (adapt e) in
      if contains e.seq seen
      then (c, taken)
      else if terminal e.mirror
      then take_last (adapt e) task (record c { handed = handed }) taken
      else (record c { stage = following task (e.seq ∷ seen); handed = handed }, taken)

  -- What the future of a call's request was resolved with
  abbrev pub answer_of : Call V F → AgentPostman V F → Option Response
  answer_of c p = elim (lookup c.request p.pending_responses) [ none ↦ none | some answer ↦ answer ]

  unfoldable pub on_answer :
      Option Response → Call V F → AgentPostman V F → Call V F × AgentPostman V F
  unfolding accept_response take_response
  on_answer none c p = (c, p)
  on_answer (some r) c p = take_response (accept_response r) c p

  unfoldable pub on_queue :
      (Mirror V F → Bool)
      → String
      → List ℕ
      → List (ExecutionEvent V F)
      → Call V F
      → AgentPostman V F
      → Call V F × AgentPostman V F
  unfolding take_event
  on_queue terminal task seen [] c p = (c, p)
  on_queue terminal task seen (e ∷ rest) c p = take_event terminal task seen e rest c p

  -- One resumption: nothing happens while what the call waits for is not there.
  unfoldable pub advance_at :
      (Mirror V F → Bool) → Stage → Call V F → AgentPostman V F → Call V F × AgentPostman V F
  unfolding on_answer on_queue drop_call
  advance_at terminal asking c p = on_answer (answer_of c p) c p
  advance_at terminal (following task seen) c p =
      on_queue terminal task seen (get_or task p.task_queues []) c p
  advance_at terminal (ending task) c p =
      (record c { stage = returned task }, drop_call c.request c.reference (some task) p)
  advance_at terminal _ c p = (c, p)

  unfoldable pub advance :
      (Mirror V F → Bool) → Call V F → AgentPostman V F → Call V F × AgentPostman V F
  unfolding advance_at
  advance terminal c p = advance_at terminal c.stage c p

  -- The mirrors in the queue of a task, there from the start
  abbrev pub queued_at : ℕ → List (ExecutionEvent V F) → List (ℕ × Mirror V F)
  queued_at now [] = []
  queued_at now (e ∷ es) = (now, e.mirror) ∷ queued_at now es

  -- `CancelledError` at a wait, or thrown in at the last `yield`: the control requests, and when the call is over. `later` are the
  -- mirrors that come to the queue while it is drained.
  unfoldable pub cancel_at :
      Bool
      → ℕ
      → ℕ
      → List (ℕ × Mirror V F)
      → Stage
      → Call V F
      → AgentPostman V F
      → Call V F × AgentPostman V F × List Control × ℕ
  unfolding confirm_cancellation drop_call
  cancel_at escalate timeout now later asking c p =
      (record c { stage = given_up }, drop_call c.request c.reference none p, [], now)
  cancel_at escalate timeout now later (following task seen) c p =
      let queue = queued_at now (get_or task p.task_queues []) in
      let c' = confirm_cancellation escalate timeout now (queue ++ later) in
      (
        record c { stage = given_up },
        drop_call c.request c.reference (some task) p,
        c'.requests,
        c'.returned_at,
      )
  cancel_at escalate timeout now later (ending task) c p =
      let queue = queued_at now (get_or task p.task_queues []) in
      let c' = confirm_cancellation escalate timeout now (queue ++ later) in
      (
        record c { stage = given_up },
        drop_call c.request c.reference (some task) p,
        c'.requests,
        c'.returned_at,
      )
  cancel_at escalate timeout now later _ c p = (c, p, [], now)

  unfoldable pub cancel :
      Bool
      → ℕ
      → ℕ
      → List (ℕ × Mirror V F)
      → Call V F
      → AgentPostman V F
      → Call V F × AgentPostman V F × List Control × ℕ
  unfolding cancel_at
  cancel escalate timeout now later c p = cancel_at escalate timeout now later c.stage c p

  -- `GeneratorExit`, which comes at a `yield`
  unfoldable pub close_at :
      Stage → Call V F → AgentPostman V F → Call V F × AgentPostman V F × List Control
  unfolding drop_call
  close_at (following task seen) c p = (
    record c { stage = given_up },
    drop_call c.request c.reference (some task) p,
    cancel_request ∷ [],
  )
  close_at (ending task) c p = (
    record c { stage = given_up },
    drop_call c.request c.reference (some task) p,
    cancel_request ∷ [],
  )
  close_at _ c p = (c, p, [])

  unfoldable pub close : Call V F → AgentPostman V F → Call V F × AgentPostman V F × List Control
  unfolding close_at
  close c p = close_at c.stage c p
