-- ===== src/Client/Examples.antt =====
-- A generator that is called inside a task and outside.
use rekuest.Prelude.{◌≡◌, refl, String, true, false, Option, none, some, [], ◌∷◌, ℕ}
use rekuest.Client.{
  an_action, an_implementation, Options, aiterate, find, invokes, Error, root_only_call, ok, err,
  Task, Services, aresolve, invoke, refuse_in_task, iterate_async, iterate, id, invokes,
}
use rekuest.Client.Action.{generator_kind, Action, caller_client}
use rekuest.Client.Roots.{
  by_action, by_iterate, run_root, is_fit, way_of, goes_out, IsUnattended, sent,
}
use rekuest.Client.Refused.{root_calls_refuse}

abbrev services : Services ℕ
services = record {
  implementation_at = λ i. ok (an_implementation i);
  found = λ i. ok (an_action i);
  runs = λ i. ok (1 ∷ 2 ∷ []);
  answers = λ o v. ok [];
}

abbrev options : Options ℕ
options = record {
  reference = none;
  hooks = none;
  capture = 0;
  escalate_to_interrupt = 0;
  cancel_timeout = none;
  policy = none;
  state_requires = none;
}

abbrev stream : Action
stream = record { id = "a"; kind = generator_kind; bound_client = caller_client }

abbrev run_by_agent : Option Task
run_by_agent = some (record { id = "t"; agent = some "agent" })

root_calls_refuse_example :
    ((task : Task) (agent : String)
      → run_by_agent ≡ some task
      → task.agent ≡ some agent
      → is_fit (by_action stream 7 options) ≡ true
      → sent (run_root services run_by_agent (by_action stream 7 options))
        ≡ ([], err (root_only_call "iterate")))
    × (IsUnattended run_by_agent
        → is_fit (by_action stream 7 options) ≡ true
        → sent (run_root services run_by_agent (by_action stream 7 options))
          ≡ goes_out services run_by_agent (way_of (by_action stream 7 options)))
    × (is_fit (by_action stream 7 options) ≡ false
        → (why : Error) × (sent (run_root services run_by_agent (by_action stream 7 options))
            ≡ ([], err why)))
root_calls_refuse_example = root_calls_refuse services run_by_agent (by_action stream 7 options)

-- With no task running, an id is looked up and its action invoked once.
goes_out_by_id :
    run_root services none (by_iterate (id "a") 7 options)
    ≡ (find "a" ∷ invokes (aiterate (an_action "a") 7 options) ∷ [], ok (1 ∷ 2 ∷ []))
unfolding iterate refuse_in_task iterate_async aresolve invoke
goes_out_by_id = refl
