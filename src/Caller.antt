-- ===== src/Caller.antt =====
-- rekuest/agents/caller.py: the postman that sends a running task's calls over the agent's socket.
-- `V` are the JSON objects of the messages, `F` what a LOST report knows. The messages are another
-- package's: an event has the fields that this file reads.
pub mod Keys
pub mod Arrivals
pub mod Stream
pub mod Cancel
pub mod Calls
pub mod Requests
mod Examples
use rekuest.Prelude.{
  ℕ, ◌+◌, String, Bool, true, false, not, ◌&&◌, ◌||◌, Option, none, some, List, [], ◌∷◌, ◌++◌, ◌==◌,
  leb, if◌then◌else◌, contains, option_list, truthy, nat_eq, string_eq, pair_eq,
}
use rekuest.Prelude.Dict.{Dict, lookup, insert, get_or, set_default, remove, keep_keys}
use text.Mathlib.Text.{starts_with}

pub data TaskEventKind : Type 0 where
  yielded completed failed critical lost held denied : TaskEventKind

pub data Value (F : Type 0) : Type 0 where
  code : String → Value F
  facts : F → Option String → Value F

pub record CallerTaskEvent (V F : Type 0) : Type 0 where
  pub kind : TaskEventKind
  pub returns : Option V
  pub message : Option String
  pub value : Option (Value F)
  pub task : Option String

-- The mirrors that `_adapt` tells apart, with the fields it reads; `bookkeeping` is any other.
pub data Mirror (V F : Type 0) : Type 0 where
  yield_event : Option V → Mirror V F
  completed_event : Mirror V F
  failed_event : Option String → Option String → Mirror V F
  critical_event : Option String → Mirror V F
  lost_event : F → Option String → Mirror V F
  held_event : Option String → Mirror V F
  denied_event : Option String → Mirror V F
  cancelled_event interrupted_event bookkeeping : Mirror V F

pub record ExecutionEvent (V F : Type 0) : Type 0 where
  pub task : String
  pub seq : ℕ
  pub mirror : Mirror V F

-- `a or b`
abbrev pub or_else {ℓ} : {A : Type ℓ} → Option A → Option A → Option A
or_else none b = b
or_else (some a) b = some a

module _ {V F : Type 0} where
  abbrev plain : TaskEventKind → CallerTaskEvent V F
  plain kind = record { kind = kind; returns = none; message = none; value = none; task = none }

  unfoldable pub adapt_mirror : String → Mirror V F → Option (CallerTaskEvent V F)
  adapt_mirror task (yield_event returns) = some (record (plain yielded) { returns = returns })
  adapt_mirror task completed_event = some (plain completed)
  adapt_mirror task (failed_event error report_code) = some (record (plain failed) {
    message = error;
    value = elim (truthy report_code) [ none ↦ none | some c ↦ some (code c) ];
    task = some task;
  })
  adapt_mirror task (critical_event error) = some (record (plain critical) { message = error })
  adapt_mirror task (lost_event known reason) =
      some (record (plain lost) { message = reason; value = some (facts known reason) })
  adapt_mirror task (held_event title) =
      some (record (plain held) { message = title; task = some task })
  adapt_mirror task (denied_event answer) =
      some (record (plain denied) { message = answer; task = some task })
  adapt_mirror task bookkeeping = none
  adapt_mirror task _ = some (record (plain critical) {
    message = some "The delegated task was cancelled or interrupted before completion.";
  })

  unfoldable pub adapt : ExecutionEvent V F → Option (CallerTaskEvent V F)
  unfolding adapt_mirror
  adapt event = adapt_mirror event.task event.mirror

-- `AssignResponse`, `ProbeResponse` and `StateRevisionResponse`
pub data Answer : Type 0 where
  assigned probed : Option String → Answer
  revision : Answer

pub record Response : Type 0 where
  pub request : String
  pub answer : Answer
  pub error : Option String

-- `_response_id`; a revision has none
unfoldable pub response_id : Response → Option String
response_id r = elim r.answer [ assigned task ↦ task | probed probe ↦ probe | revision ↦ none ]

-- A future is `none` until it is resolved.
pub record AgentPostman (V F : Type 0) : Type 0 where
  pub pending_responses : Dict String (Option Response)
  pub task_queues : Dict String (List (ExecutionEvent V F))
  pub orphan_by_task : Dict String (List (ExecutionEvent V F))
  pub occurrences : Dict (String × String) ℕ
  pub reference_to_task : Dict String String
  pub last_seq : Dict String ℕ

module _ {V F : Type 0} where
  abbrev pub new_postman : AgentPostman V F
  new_postman = record {
    pending_responses = [];
    task_queues = [];
    orphan_by_task = [];
    occurrences = [];
    reference_to_task = [];
    last_seq = [];
  }

  unfoldable pub forget_parent : String → AgentPostman V F → AgentPostman V F
  forget_parent parent p = record p {
    occurrences = keep_keys (λ (k, _). not (k == parent)) p.occurrences;
  }

  -- The key of a child call, `f"{base}:{occurrence}"`, as its two parts. `base` is the target and
  -- the digest of the arguments.
  unfoldable pub derive_call_key :
      String → String → AgentPostman V F → AgentPostman V F × (String × ℕ)
  derive_call_key parent base p =
      let occurrence : ℕ = get_or (parent, base) p.occurrences 0 + 1 in
      (
        record p { occurrences = insert (parent, base) occurrence p.occurrences },
        (base, occurrence),
      )

  -- The queue of a task, made if it is missing, with the parked mirrors moved to its end.
  unfoldable pub ensure_queue : String → AgentPostman V F → AgentPostman V F
  ensure_queue task p = record p {
    task_queues =
        insert task (get_or task p.task_queues [] ++ get_or task p.orphan_by_task []) p.task_queues;
    orphan_by_task = remove task p.orphan_by_task;
  }

  unfoldable pub register_task : String → String → AgentPostman V F → AgentPostman V F
  unfolding ensure_queue
  register_task reference task p =
      ensure_queue task (record p { reference_to_task = insert reference task p.reference_to_task })

  -- `if future is not None and not future.done(): future.set_result(message)`
  unfoldable pub resolve : Response → AgentPostman V F → AgentPostman V F
  resolve r p = elim (lookup r.request p.pending_responses) [
    | some none ↦ record p { pending_responses = insert r.request (some r) p.pending_responses }
    | _ ↦ p
  ]

  -- `handle_assign_response` and `handle_probe_response` too
  unfoldable pub handle_response : Response → AgentPostman V F → AgentPostman V F
  unfolding response_id resolve ensure_queue
  handle_response r p = resolve r (elim (truthy (response_id r)) [
    | none ↦ p
    | some task ↦ elim (truthy r.error) [ none ↦ ensure_queue task p | some e ↦ p ]
  ])

  -- The warning about a `seq` out of order is only logged.
  unfoldable pub handle_execution_event : ExecutionEvent V F → AgentPostman V F → AgentPostman V F
  handle_execution_event e p =
      let seen = record p { last_seq = insert e.task e.seq p.last_seq } in
      elim (lookup e.task p.task_queues) [
        | some queue ↦ record seen { task_queues = insert e.task (queue ++ e ∷ []) p.task_queues }
        | none ↦ record seen {
          orphan_by_task =
              insert e.task (get_or e.task p.orphan_by_task [] ++ e ∷ []) p.orphan_by_task;
        }
      ]

  -- `_astream` before its first wait
  unfoldable pub await_response : String → AgentPostman V F → AgentPostman V F
  await_response request p = record p {
    pending_responses = insert request none p.pending_responses;
  }

  -- The `finally` block of `_astream`
  unfoldable pub drop_call : String → String → Option String → AgentPostman V F → AgentPostman V F
  drop_call request reference task p =
      let dropped = record p {
        pending_responses = remove request p.pending_responses;
        reference_to_task = remove reference p.reference_to_task;
      } in
      elim task [
        | none ↦ dropped
        | some t ↦ record dropped {
          task_queues = remove t p.task_queues;
          orphan_by_task = remove t p.orphan_by_task;
          last_seq = remove t p.last_seq;
        }
      ]

-- What `_astream` makes of the answer: the task's id, or what it raises.
pub data Refusal : Type 0 where
  non_deterministic assign_failed : String → Refusal
  no_id : Refusal

pub data Accepted : Type 0 where
  task_of : String → Accepted
  refused : Refusal → Accepted

unfoldable pub accept_response : Response → Accepted
unfolding response_id
accept_response r = elim (truthy r.error) [
  | some error ↦
      if starts_with error "Nondeterministic workflow"
      then refused (non_deterministic error)
      else refused (assign_failed error)
  | none ↦ elim (truthy (response_id r)) [ none ↦ refused no_id | some task ↦ task_of task ]
]

-- The loop of `_astream` over what its queue delivers: the events that are handed on, and whether a
-- terminal one ended the stream. `terminal` is the membership in `TERMINAL_EVENT_MIRRORS`.
module _ {V F : Type 0} (terminal : Mirror V F → Bool) where
  unfoldable pub stream : List ℕ → List (ExecutionEvent V F) → List (CallerTaskEvent V F) × Bool
  unfolding adapt
  stream seen [] = ([], false)
  stream seen (e ∷ es) =
      let skipped = stream seen es in
      let (later, ended) = stream (e.seq ∷ seen) es in
      if contains e.seq seen
      then skipped
      else if terminal e.mirror
      then (option_list (adapt e), true)
      else (option_list (adapt e) ++ later, ended)
