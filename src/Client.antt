-- ===== src/Client.antt =====
-- rekuest/client/client.py: the client whose calls make root tasks. A call is run to its end, and says
-- what it did before: its lookups, queries and invocations, in order. `J` are arguments and values that
-- are passed on, and a blocking form runs the other in the caller's context.
pub mod Action
pub mod Roots
pub mod Refused
mod Examples
use rekuest.Prelude.{String, Option, none, some, List, [], ◌∷◌, ◌++◌}

-- What an app may name as the target of a call. `unsupported` is a value of any other type.
pub data Target : Type 0 where
  action implementation wrapped_function id unsupported : String → Target

-- What is called, by its id
pub data Resolved : Type 0 where
  an_action an_implementation : String → Resolved

-- The options that every call passes on
pub record Options (J : Type 0) : Type 0 where
  pub reference : Option String
  pub hooks : Option (List J)
  pub capture : J
  pub escalate_to_interrupt : J
  pub cancel_timeout : Option J
  pub policy : Option J
  pub state_requires : Option (List J)

-- A call of the runtime, over the client's own postman
pub data Invocation (J : Type 0) : Type 0 where
  acall aiterate : Resolved → J → Options J → Invocation J
  acall_raw aiterate_raw : Option J → Option String → Option String → Options J → Invocation J

pub data Operation : Type 0 where
  assign_mutation : Operation
  other_operation : String → Operation

pub data Effect (J : Type 0) : Type 0 where
  my_implementation_at find : String → Effect J
  invokes : Invocation J → Effect J
  queries : Operation → J → Effect J
  warns : Effect J

pub data Error : Type 0 where
  root_only_call : String → Error
  no_call_target : String → Error
  no_client : String → Error
  -- `AttributeError`
  no_attribute : String → Error
  assertion_failed : Error
  -- What the server, or the call itself, raises
  failed : String → Error

pub data Result (A : Type 0) : Type 0 where
  ok : A → Result A
  err : Error → Result A

abbrev pub Run : Type 0 → Type 0 → Type 0
Run J A = List (Effect J) × Result A

module _ {J : Type 0} where
  abbrev pub next : {A B : Type 0} → List (Effect J) → Result A → (A → Run J B) → Run J B
  next done (err e) f = (done, err e)
  next done (ok a) f = let (more, r) = f a in (done ++ more, r)

  infixl 5 ◌>>=◌ ◌>>◌
  abbrev pub ◌>>=◌ : {A B : Type 0} → Run J A → (A → Run J B) → Run J B
  ◌>>=◌ (done, r) f = next done r f

  abbrev pub ◌>>◌ : {B : Type 0} → Run J (Unit {0}) → Run J B → Run J B
  m >> k = m >>= λ _. k

-- A task that runs; a local one has no agent.
pub record Task : Type 0 where
  pub id : String
  pub agent : Option String

-- What the server and the runtime answer
pub record Services (J : Type 0) : Type 0 where
  pub implementation_at : String → Result Resolved
  pub found : String → Result Resolved
  -- What an invocation returns, or yields
  pub runs : Invocation J → Result (List J)
  pub answers : Operation → J → Result (List J)

module _ {J : Type 0} (s : Services J) where
  unfoldable pub aresolve : Target → Run J Resolved
  aresolve (action i) = ([], ok (an_action i))
  aresolve (implementation i) = ([], ok (an_implementation i))
  aresolve (wrapped_function interface) =
      (my_implementation_at interface ∷ [], s.implementation_at interface)
  aresolve (id i) = (find i ∷ [], s.found i)
  aresolve (unsupported type_name) = ([], err (no_call_target type_name))

  unfoldable pub invoke : Invocation J → Run J (List J)
  invoke i = (invokes i ∷ [], s.runs i)

module _ {J : Type 0} (s : Services J) (current_task : Option Task) where
  unfoldable pub refuse_in_task : String → Run J (Unit {0})
  refuse_in_task method = elim current_task [
    | none ↦ ([], ok tt)
    | some task ↦ elim task.agent [
      | none ↦ ([], ok tt)
      | some agent ↦ ([], err (root_only_call method))
    ]
  ]

  -- `Rekuest.aexecute`, and `RekuestCaller.aexecute` before it
  unfoldable pub aexecute : Operation → J → Run J (List J)
  unfolding refuse_in_task
  aexecute assign_mutation variables = do
    refuse_in_task "aassign"
    (queries assign_mutation variables ∷ [], s.answers assign_mutation variables)
  aexecute (other_operation o) variables =
      (queries (other_operation o) variables ∷ [], s.answers (other_operation o) variables)

  unfoldable pub call_async : Target → J → Options J → Run J (List J)
  unfolding refuse_in_task aresolve invoke
  call_async target args options = do
    refuse_in_task "acall"
    resolved ← aresolve s target
    invoke s (acall resolved args options)

  unfoldable pub call : Target → J → Options J → Run J (List J)
  unfolding call_async
  call target args options = do refuse_in_task "call"; call_async target args options

  unfoldable pub call_raw : Option J → Option String → Option String → Options J → Run J (List J)
  unfolding refuse_in_task invoke
  call_raw kwargs action_id implementation_id options = do
    refuse_in_task "acall_raw"
    invoke s (acall_raw kwargs action_id implementation_id options)

  unfoldable pub iterate_raw : Option J → Option String → Option String → Options J → Run J (List J)
  unfolding refuse_in_task invoke
  iterate_raw kwargs action_id implementation_id options = do
    refuse_in_task "aiterate_raw"
    invoke s (aiterate_raw kwargs action_id implementation_id options)

  unfoldable pub iterate_async : Target → J → Options J → Run J (List J)
  unfolding refuse_in_task aresolve invoke
  iterate_async target args options = do
    refuse_in_task "aiterate"
    resolved ← aresolve s target
    invoke s (aiterate resolved args options)

  unfoldable pub iterate : Target → J → Options J → Run J (List J)
  unfolding iterate_async
  iterate target args options = do refuse_in_task "iterate"; iterate_async target args options
