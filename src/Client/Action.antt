-- ===== src/Client/Action.antt =====
-- rekuest/traits/action.py: an action that is called itself goes through the client it was fetched with.
use rekuest.Prelude.{String, Bool, true, false, Option, List, [], ◌∷◌, if◌then◌else◌}
use rekuest.Client.{
  action, Options, warns, no_client, no_attribute, assertion_failed, ok, err, Run, ◌>>◌, Task,
  Services, call, call_async, iterate, iterate_async,
}

pub data ActionKind : Type 0 where
  function_kind generator_kind other_kind : ActionKind

abbrev pub is_generator : ActionKind → Bool
is_generator generator_kind = true
is_generator _ = false

abbrev pub is_function : ActionKind → Bool
is_function function_kind = true
is_function _ = false

-- `bound_client()`: none, a `Rekuest`, which has no call methods, or a `RekuestCaller`
pub data BoundClient : Type 0 where
  unbound plain_client caller_client : BoundClient

pub record Action : Type 0 where
  pub id : String
  pub kind : ActionKind
  pub bound_client : BoundClient

module _ {J : Type 0} where
  abbrev pub assert_that : Bool → Run J (Unit {0})
  assert_that true = ([], ok tt)
  assert_that false = ([], err assertion_failed)

  -- `self._client(method).method`
  abbrev pub client_of : String → Action → Run J (Unit {0})
  client_of method a = elim a.bound_client [
    | unbound ↦ ([], err (no_client method))
    | plain_client ↦ ([], err (no_attribute method))
    | caller_client ↦ ([], ok tt)
  ]

  abbrev pub warn_if : Bool → Run J (Unit {0})
  warn_if true = (warns ∷ [], ok tt)
  warn_if false = ([], ok tt)

module _ {J : Type 0} (s : Services J) (current_task : Option Task) where
  unfoldable pub iterate_action : Action → J → Options J → Run J (List J)
  unfolding iterate
  iterate_action a args options = do
    assert_that (is_generator a.kind)
    client_of "iterate" a
    iterate s current_task (action a.id) args options

  unfoldable pub call_action : Action → J → Options J → Run J (List J)
  unfolding call
  call_action a args options = do
    warn_if (is_generator a.kind)
    client_of "call" a
    call s current_task (action a.id) args options

  unfoldable pub aiterate_action : Action → J → Options J → Run J (List J)
  unfolding iterate_async
  aiterate_action a args options = do
    assert_that (is_generator a.kind)
    client_of "aiterate" a
    iterate_async s current_task (action a.id) args options

  unfoldable pub acall_action : Action → J → Options J → Run J (List J)
  unfolding call_async
  acall_action a args options = do
    assert_that (is_function a.kind)
    client_of "acall" a
    call_async s current_task (action a.id) args options

  -- `__call__`
  unfoldable pub apply_action : Action → J → Options J → Run J (List J)
  unfolding iterate_action call_action
  apply_action a args options =
      if is_generator a.kind then iterate_action a args options else call_action a args options
