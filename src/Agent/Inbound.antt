-- ===== src/Agent/Inbound.antt =====
-- What the agent does with the messages of its socket: `_aprocess_runtime_message`, and the rest of
-- `_aafter_init`, the reply to inquiries and the follow-up of the registration.
pub mod Alive
pub mod FollowUp
mod Examples
use rekuest.Prelude.{
  ℕ, String, Bool, true, false, Option, none, some, List, [], ◌∷◌, ◌++◌, if◌then◌else◌, string_eq,
  nat_eq,
}
use rekuest.Prelude.Dict.{Dict, lookup, has}
use rekuest.Caller.{AgentPostman, Response, ExecutionEvent, handle_response, handle_execution_event}
use rekuest.Agent.{Frame, Delivery, Written, journal_ack}
use rekuest.Agent.Init.{retained_terminal_reports}

-- The types that `_aprocess_runtime_message` tells apart. `O` are the other messages, the base agent's.
pub data ToAgentMessage (V F O : Type 0) : Type 0 where
  journal_ack_of : String → ℕ → ToAgentMessage V F O
  caller_response : Response → ToAgentMessage V F O
  caller_event : ExecutionEvent V F → ToAgentMessage V F O
  control_response : ToAgentMessage V F O
  other_message : O → ToAgentMessage V F O

-- What this class and the base agent's share; `B` is what only the base agent has.
pub record Runtime (V F B : Type 0) : Type 0 where
  pub delivery : Delivery Frame
  pub caller_postman : AgentPostman V F
  pub base : B

-- `super_process` is the base agent's handler, which may emit frames and make calls.
module _ {V F B O : Type 0} (super_process : O → Runtime V F B → Runtime V F B)
    (read : String → Option Frame) (agent : String) (current_session : String) where
  -- `written` and `opens` are of the store, when the message is an ack.
  unfoldable pub process_runtime_message :
      Written → Bool → ToAgentMessage V F O → Runtime V F B → Runtime V F B
  unfolding journal_ack handle_response handle_execution_event
  process_runtime_message written opens (journal_ack_of session pos) r = record r {
    delivery = journal_ack read agent written opens current_session session pos r.delivery;
  }
  process_runtime_message written opens (caller_response answer) r = record r {
    caller_postman = handle_response answer r.caller_postman;
  }
  process_runtime_message written opens (caller_event e) r = record r {
    caller_postman = handle_execution_event e r.caller_postman;
  }
  process_runtime_message written opens control_response r = r
  process_runtime_message written opens (other_message m) r = super_process m r

-- The reports on an inquired task
pub data Report : Type 0 where
  no_longer_managed still_running not_running_anymore : String → Report

-- An assignment's `interface` and `task`
pub record Assignment : Type 0 where
  pub interface : String
  pub task : String

-- The base agent's actors; an actor is its `acheck_task`.
pub record Managed : Type 0 where
  pub assignments : Dict String Assignment
  pub actors : Dict String (String → Bool)

-- The answer to an inquiry; `no_actor` is the KeyError on an assignment whose interface has no actor.
pub data Liveness : Type 0 where
  already_reported : Liveness
  answers : Report → Liveness
  no_actor : Liveness

unfoldable pub has_retained_terminal_report : String → Delivery Frame → Bool
unfolding retained_terminal_reports
has_retained_terminal_report task d = elim (retained_terminal_reports task d) [
  | [] ↦ false
  | _ ↦ true
]

unfoldable pub liveness_of : String → Assignment → Option (String → Bool) → Liveness
liveness_of task assignment none = no_actor
liveness_of task assignment (some check) =
    if check assignment.task
    then answers (still_running task)
    else answers (not_running_anymore task)

unfoldable pub liveness : Managed → String → Delivery Frame → Liveness
unfolding has_retained_terminal_report liveness_of
liveness managed task d =
    if has_retained_terminal_report task d
    then already_reported
    else elim (lookup task managed.assignments) [
      | none ↦ answers (no_longer_managed task)
      | some assignment ↦ liveness_of task assignment (lookup assignment.interface managed.actors)
    ]

-- Reports are dispatched by the base agent, which hands what is numbered to `_retain_emitted`.
module _ (dispatch : Report → Delivery Frame → Delivery Frame) where
  -- One inquiry, before what `next` does for the others
  unfoldable pub report_task_liveness :
      Liveness
      → (Delivery Frame → List Report × Delivery Frame × Bool)
      → Delivery Frame
      → List Report × Delivery Frame × Bool
  report_task_liveness already_reported next d = next d
  report_task_liveness no_actor next d = ([], d, false)
  report_task_liveness (answers report) next d =
      let (reports, d', through) = next (dispatch report d) in (report ∷ reports, d', through)

  -- `_areply_to_inquiries`: what it dispatched, the frames retained after it, and whether it got
  -- through the inquiries.
  unfoldable pub reply_to_inquiries :
      Managed → List String → Delivery Frame → List Report × Delivery Frame × Bool
  unfolding liveness report_task_liveness
  reply_to_inquiries managed [] d = ([], d, true)
  reply_to_inquiries managed (task ∷ rest) d =
      report_task_liveness (liveness managed task d) (reply_to_inquiries managed rest) d
