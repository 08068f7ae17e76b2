-- ===== src/Client/Roots.antt =====
-- The ways to make a root task, and what each comes to where no task runs.
use rekuest.Prelude.{
  ◌≡◌, String, Bool, true, false, ◌&&◌, Option, none, some, List, [], ◌∷◌, ◌++◌, keep,
  if◌then◌else◌,
}
use rekuest.Client.{
  Target, Resolved, action, Options, Invocation, acall, aiterate, acall_raw, aiterate_raw,
  assign_mutation, Effect, invokes, queries, warns, Result, ok, err, Run, Task, Services, aresolve,
  aexecute, call_async, call, call_raw, iterate_raw, iterate_async, iterate,
}
use rekuest.Client.Action.{
  Action, caller_client, is_generator, is_function, iterate_action, call_action, aiterate_action,
  acall_action, apply_action,
}

-- The ways to make a root task, with their arguments
pub data RootCall (J : Type 0) : Type 0 where
  by_assign : J → RootCall J
  by_acall by_call by_aiterate by_iterate : Target → J → Options J → RootCall J
  by_acall_raw by_aiterate_raw : Option J → Option String → Option String → Options J → RootCall J
  by_action_acall by_action_call by_action_aiterate by_action_iterate by_action :
      Action → J → Options J → RootCall J

-- What a call comes to, whatever its form: the mutation itself, one result of a target, many, or what
-- is given raw.
pub data Way (J : Type 0) : Type 0 where
  assigns : J → Way J
  once many : Target → J → Options J → Way J
  raw : Invocation J → Way J

-- No task runs, or a local one
abbrev pub IsUnattended : Option Task → Type 0
IsUnattended none = Unit
IsUnattended (some task) = task.agent ≡ none

-- The client that the action was fetched through has call methods.
abbrev pub can_call : Action → Bool
can_call a = elim a.bound_client [ caller_client ↦ true | _ ↦ false ]

module _ {J : Type 0} where
  abbrev pub run_root : Services J → Option Task → RootCall J → Run J (List J)
  run_root s t (by_assign variables) = aexecute s t assign_mutation variables
  run_root s t (by_acall target args o) = call_async s t target args o
  run_root s t (by_call target args o) = call s t target args o
  run_root s t (by_aiterate target args o) = iterate_async s t target args o
  run_root s t (by_iterate target args o) = iterate s t target args o
  run_root s t (by_acall_raw kwargs a i o) = call_raw s t kwargs a i o
  run_root s t (by_aiterate_raw kwargs a i o) = iterate_raw s t kwargs a i o
  run_root s t (by_action_acall a args o) = acall_action s t a args o
  run_root s t (by_action_call a args o) = call_action s t a args o
  run_root s t (by_action_aiterate a args o) = aiterate_action s t a args o
  run_root s t (by_action_iterate a args o) = iterate_action s t a args o
  run_root s t (by_action a args o) = apply_action s t a args o

  -- What a call does at the server or in the runtime
  abbrev pub is_sent : Effect J → Bool
  is_sent warns = false
  is_sent _ = true

  -- An action was fetched through a caller, and its kind fits the form.
  abbrev pub is_fit : RootCall J → Bool
  is_fit (by_action_acall a args o) = is_function a.kind && can_call a
  is_fit (by_action_call a args o) = can_call a
  is_fit (by_action_aiterate a args o) = is_generator a.kind && can_call a
  is_fit (by_action_iterate a args o) = is_generator a.kind && can_call a
  is_fit (by_action a args o) = can_call a
  is_fit _ = true

  -- The form that a refusal names
  abbrev pub form_of : RootCall J → String
  form_of (by_assign variables) = "aassign"
  form_of (by_acall target args o) = "acall"
  form_of (by_call target args o) = "call"
  form_of (by_aiterate target args o) = "aiterate"
  form_of (by_iterate target args o) = "iterate"
  form_of (by_acall_raw kwargs a i o) = "acall_raw"
  form_of (by_aiterate_raw kwargs a i o) = "aiterate_raw"
  form_of (by_action_acall a args o) = "acall"
  form_of (by_action_call a args o) = "call"
  form_of (by_action_aiterate a args o) = "aiterate"
  form_of (by_action_iterate a args o) = "iterate"
  form_of (by_action a args o) = if is_generator a.kind then "iterate" else "call"

  abbrev pub way_of : RootCall J → Way J
  way_of (by_assign variables) = assigns variables
  way_of (by_acall target args o) = once target args o
  way_of (by_call target args o) = once target args o
  way_of (by_aiterate target args o) = many target args o
  way_of (by_iterate target args o) = many target args o
  way_of (by_acall_raw kwargs a i o) = raw (acall_raw kwargs a i o)
  way_of (by_aiterate_raw kwargs a i o) = raw (aiterate_raw kwargs a i o)
  way_of (by_action_acall a args o) = once (action a.id) args o
  way_of (by_action_call a args o) = once (action a.id) args o
  way_of (by_action_aiterate a args o) = many (action a.id) args o
  way_of (by_action_iterate a args o) = many (action a.id) args o
  way_of (by_action a args o) =
      if is_generator a.kind then many (action a.id) args o else once (action a.id) args o

  -- The target is looked up first; if that fails, nothing is invoked.
  abbrev pub resolved_then :
      Services J → List (Effect J) × Result Resolved → (Resolved → Invocation J) → Run J (List J)
  resolved_then s (looked, err e) invocation = (looked, err e)
  resolved_then s (looked, ok r) invocation =
      (looked ++ invokes (invocation r) ∷ [], s.runs (invocation r))

  abbrev pub goes_out : Services J → Option Task → Way J → Run J (List J)
  goes_out s t (assigns variables) =
      (queries assign_mutation variables ∷ [], s.answers assign_mutation variables)
  goes_out s t (once target args o) = resolved_then s (aresolve s target) (λ r. acall r args o)
  goes_out s t (many target args o) = resolved_then s (aresolve s target) (λ r. aiterate r args o)
  goes_out s t (raw i) = (invokes i ∷ [], s.runs i)

  -- What was done at the server and in the runtime, and the result
  abbrev pub sent : Run J (List J) → Run J (List J)
  sent (done, r) = (keep is_sent done, r)
