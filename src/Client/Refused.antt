-- ===== src/Client/Refused.antt =====
-- Inside a task that an agent runs no root call goes out; anywhere else every one does.
use rekuest.Prelude.{
  ◌≡◌, refl, ap, String, Bool, true, false, Option, none, some, List, [], ◌∷◌, ◌++◌, arith, keep,
  keep-append, ◌∙◌,
}
use rekuest.Client.{
  Target, Resolved, action, implementation, wrapped_function, id, unsupported, my_implementation_at,
  find, Options, Invocation, acall, aiterate, Effect, invokes, Error, root_only_call, no_client,
  no_attribute, assertion_failed, Result, ok, err, Run, next, Task, Services, refuse_in_task,
  aresolve, invoke, aexecute, call_async, call, call_raw, iterate_raw, iterate_async, iterate,
}
use rekuest.Client.Action.{
  BoundClient, unbound, is_generator, is_function, iterate_action, call_action, aiterate_action,
  acall_action, apply_action,
}
use rekuest.Client.Roots.{
  RootCall, by_assign, by_acall, by_call, by_aiterate, by_iterate, by_acall_raw, by_aiterate_raw,
  by_action_acall, by_action_call, by_action_aiterate, by_action_iterate, by_action, Way, assigns,
  once, many, raw, IsUnattended, run_root, is_sent, is_fit, form_of, way_of, resolved_then,
  goes_out, sent,
}

without_caller : BoundClient → String → Error
without_caller unbound form = no_client form
without_caller _ form = no_attribute form

misused : Bool → BoundClient → String → Error
misused true bound form = without_caller bound form
misused false bound form = assertion_failed

module _ {J : Type 0} where
  refuse_inside :
      (s : Services J) (task : Task) (agent method : String)
      → task.agent ≡ some agent
      → refuse_in_task s (some task) method ≡ ([], err (root_only_call method))
  unfolding refuse_in_task
  refuse_inside s task agent method e = ground (arith, e)

  refuse_outside :
      (s : Services J) (t : Option Task) (method : String)
      → IsUnattended t
      → refuse_in_task s t method ≡ ([], ok tt)
  unfolding refuse_in_task
  refuse_outside s none method h = refl
  refuse_outside s (some task) method h = ground (arith, h)

  -- Every client form inside a task
  inside_client :
      (s : Services J) (task : Task) (agent : String)
      → task.agent ≡ some agent
      → ((target : Target) (args : J) (o : Options J)
          → (call_async s (some task) target args o ≡ ([], err (root_only_call "acall")))
            × (call s (some task) target args o ≡ ([], err (root_only_call "call")))
            × (iterate_async s (some task) target args o ≡ ([], err (root_only_call "aiterate")))
            × (iterate s (some task) target args o ≡ ([], err (root_only_call "iterate"))))
  unfolding call_async call iterate_async iterate
  inside_client s task agent e target args o = (
    rw (refuse_inside s task agent "acall" e) refl,
    rw (refuse_inside s task agent "call" e) refl,
    rw (refuse_inside s task agent "aiterate" e) refl,
    rw (refuse_inside s task agent "iterate" e) refl,
  )

  -- Every client form elsewhere
  resolved_lem :
      (s : Services J) (looked : Run J Resolved) (invocation : Resolved → Invocation J)
      → next looked.0 looked.1 (λ r. invoke s (invocation r)) ≡ resolved_then s looked invocation
  unfolding invoke
  resolved_lem s (looked, ok r) invocation = refl
  resolved_lem s (looked, err e) invocation = refl

  from_start : (r : Run J (List J)) → ([] ++ r.0, r.1) ≡ r
  from_start (looked, r) = refl

  outside_client :
      (s : Services J) (t : Option Task) (target : Target) (args : J) (o : Options J)
      → IsUnattended t
      → (call_async s t target args o ≡ goes_out s t (once target args o))
        × (call s t target args o ≡ goes_out s t (once target args o))
        × (iterate_async s t target args o ≡ goes_out s t (many target args o))
        × (iterate s t target args o ≡ goes_out s t (many target args o))
  unfolding call_async call iterate_async iterate
  outside_client s t target args o h = (once_, blocking_, many_, blocking_many)
    where
      once_ : call_async s t target args o ≡ goes_out s t (once target args o)
      once_ =
          rw (refuse_outside s t "acall" h)
            (resolved_lem s (aresolve s target) (λ r. acall r args o))

      blocking_ : call s t target args o ≡ goes_out s t (once target args o)
      blocking_ = rw (refuse_outside s t "call" h) once_

      many_ : iterate_async s t target args o ≡ goes_out s t (many target args o)
      many_ =
          rw (refuse_outside s t "aiterate" h)
            (resolved_lem s (aresolve s target) (λ r. aiterate r args o))

      blocking_many : iterate s t target args o ≡ goes_out s t (many target args o)
      blocking_many = rw (refuse_outside s t "iterate" h) many_

  sent-resolved :
      (s : Services J) (looked : List (Effect J)) (r : Result Resolved)
      (invocation : Resolved → Invocation J)
      → keep is_sent looked ≡ looked
      → sent (resolved_then s (looked, r) invocation) ≡ resolved_then s (looked, r) invocation
  sent-resolved s looked (err e) invocation h = ap (λ done. (done, err e)) h
  sent-resolved s looked (ok r) invocation h =
      ap (λ done. (done, s.runs (invocation r)))
        (keep-append is_sent looked (invokes (invocation r) ∷ [])
          ∙ ap (λ done. done ++ invokes (invocation r) ∷ []) h)

  sent-resolved_then :
      (s : Services J) (target : Target) (invocation : Resolved → Invocation J)
      → sent (resolved_then s (aresolve s target) invocation)
        ≡ resolved_then s (aresolve s target) invocation
  unfolding aresolve
  sent-resolved_then s (action i) invocation = refl
  sent-resolved_then s (implementation i) invocation = refl
  sent-resolved_then s (wrapped_function interface) invocation =
      sent-resolved s (my_implementation_at interface ∷ []) (s.implementation_at interface)
        invocation refl
  sent-resolved_then s (id i) invocation = sent-resolved s (find i ∷ []) (s.found i) invocation refl
  sent-resolved_then s (unsupported type_name) invocation = refl

  goes_out-sent :
      (s : Services J) (t : Option Task) (way : Way J) → sent (goes_out s t way) ≡ goes_out s t way
  goes_out-sent s t (assigns variables) = refl
  goes_out-sent s t (once target args o) = sent-resolved_then s target (λ r. acall r args o)
  goes_out-sent s t (many target args o) = sent-resolved_then s target (λ r. aiterate r args o)
  goes_out-sent s t (raw i) = refl

  refused_inside :
      (s : Services J) (task : Task) (agent : String) (c : RootCall J)
      → task.agent ≡ some agent
      → is_fit c ≡ true
      → sent (run_root s (some task) c) ≡ ([], err (root_only_call (form_of c)))
  unfolding aexecute call_raw iterate_raw
  refused_inside s task agent (by_assign variables) e fit =
      rw (refuse_inside s task agent "aassign" e) refl
  refused_inside s task agent (by_acall target args o) e fit =
      ap sent (inside_client s task agent e target args o).0
  refused_inside s task agent (by_call target args o) e fit =
      ap sent (inside_client s task agent e target args o).1
  refused_inside s task agent (by_aiterate target args o) e fit =
      ap sent (inside_client s task agent e target args o).2
  refused_inside s task agent (by_iterate target args o) e fit =
      ap sent (inside_client s task agent e target args o).3
  refused_inside s task agent (by_acall_raw kwargs a i o) e fit =
      rw (refuse_inside s task agent "acall_raw" e) refl
  refused_inside s task agent (by_aiterate_raw kwargs a i o) e fit =
      rw (refuse_inside s task agent "aiterate_raw" e) refl
  refused_inside s task agent (by_action_acall a args o) e fit =
      unfold acall_action in
      ground (arith, (inside_client s task agent e (action a.id) args o).0, fit)
  refused_inside s task agent (by_action_call a args o) e fit =
      unfold call_action in
      ground (arith, (inside_client s task agent e (action a.id) args o).1, fit)
  refused_inside s task agent (by_action_aiterate a args o) e fit =
      unfold aiterate_action in
      ground (arith, (inside_client s task agent e (action a.id) args o).2, fit)
  refused_inside s task agent (by_action_iterate a args o) e fit =
      unfold iterate_action in
      ground (arith, (inside_client s task agent e (action a.id) args o).3, fit)
  refused_inside s task agent (by_action a args o) e fit =
      unfold apply_action in ground (arith, inside_client s task agent e (action a.id) args o, fit)

  goes_outside :
      (s : Services J) (t : Option Task) (c : RootCall J)
      → IsUnattended t
      → is_fit c ≡ true
      → sent (run_root s t c) ≡ goes_out s t (way_of c)
  unfolding aexecute call_raw iterate_raw invoke
  goes_outside s t (by_assign variables) h fit = rw (refuse_outside s t "aassign" h) refl
  goes_outside s t (by_acall target args o) h fit =
      ap sent (outside_client s t target args o h).0 ∙ goes_out-sent s t (once target args o)
  goes_outside s t (by_call target args o) h fit =
      ap sent (outside_client s t target args o h).1 ∙ goes_out-sent s t (once target args o)
  goes_outside s t (by_aiterate target args o) h fit =
      ap sent (outside_client s t target args o h).2 ∙ goes_out-sent s t (many target args o)
  goes_outside s t (by_iterate target args o) h fit =
      ap sent (outside_client s t target args o h).3 ∙ goes_out-sent s t (many target args o)
  goes_outside s t (by_acall_raw kwargs a i o) h fit = rw (refuse_outside s t "acall_raw" h) refl
  goes_outside s t (by_aiterate_raw kwargs a i o) h fit =
      rw (refuse_outside s t "aiterate_raw" h) refl
  goes_outside s t (by_action_acall a args o) h fit =
      unfold acall_action aresolve in
      ground (arith, (outside_client s t (action a.id) args o h).0, fit)
  goes_outside s t (by_action_call a args o) h fit =
      unfold call_action aresolve in
      ground (arith, (outside_client s t (action a.id) args o h).1, fit)
  goes_outside s t (by_action_aiterate a args o) h fit =
      unfold aiterate_action aresolve in
      ground (arith, (outside_client s t (action a.id) args o h).2, fit)
  goes_outside s t (by_action_iterate a args o) h fit =
      unfold iterate_action aresolve in
      ground (arith, (outside_client s t (action a.id) args o h).3, fit)
  goes_outside s t (by_action a args o) h fit =
      unfold apply_action aresolve in ground (arith, outside_client s t (action a.id) args o h, fit)

  unfit_fails :
      (s : Services J) (t : Option Task) (c : RootCall J)
      → is_fit c ≡ false
      → (why : Error) × (sent (run_root s t c) ≡ ([], err why))
  unfolding misused without_caller acall_action aiterate_action iterate_action call_action
      apply_action
  unfit_fails s t (by_action_acall a args o) fit =
      (misused (is_function a.kind) a.bound_client "acall", ground (arith, fit))
  unfit_fails s t (by_action_call a args o) fit =
      (without_caller a.bound_client "call", ground (arith, fit))
  unfit_fails s t (by_action_aiterate a args o) fit =
      (misused (is_generator a.kind) a.bound_client "aiterate", ground (arith, fit))
  unfit_fails s t (by_action_iterate a args o) fit =
      (misused (is_generator a.kind) a.bound_client "iterate", ground (arith, fit))
  unfit_fails s t (by_action a args o) fit =
      (without_caller a.bound_client (form_of (by_action a args o)), ground (arith, fit))
  unfit_fails s t (by_assign variables) fit = absurd (cc fit)
  unfit_fails s t (by_acall target args o) fit = absurd (cc fit)
  unfit_fails s t (by_call target args o) fit = absurd (cc fit)
  unfit_fails s t (by_aiterate target args o) fit = absurd (cc fit)
  unfit_fails s t (by_iterate target args o) fit = absurd (cc fit)
  unfit_fails s t (by_acall_raw kwargs a i o) fit = absurd (cc fit)
  unfit_fails s t (by_aiterate_raw kwargs a i o) fit = absurd (cc fit)

  -- Root calls are refused inside a task that an agent runs, and only there, in every form: as an
  -- assign, as a call or an iteration of the client, blocking or not or raw, and by an action that was
  -- fetched through a caller client and fits the form. Inside such a task nothing is looked up, invoked or
  -- sent, and the call raises with the form's name. With no task running, or a local one, the target is
  -- looked up and, if it is found, invoked once over the client's postman with the arguments and
  -- options as given, whichever form was used. An action that does not fit the form, or was
  -- fetched through no client or one without call methods, raises in either case and sends nothing.
  pub root_calls_refuse :
      (s : Services J) (t : Option Task) (c : RootCall J)
      → ((task : Task) (agent : String)
          → t ≡ some task
          → task.agent ≡ some agent
          → is_fit c ≡ true
          → sent (run_root s t c) ≡ ([], err (root_only_call (form_of c))))
        × (IsUnattended t → is_fit c ≡ true → sent (run_root s t c) ≡ goes_out s t (way_of c))
        × (is_fit c ≡ false → (why : Error) × (sent (run_root s t c) ≡ ([], err why)))
  root_calls_refuse s t c = (
    λ task agent running e fit.
        ap (λ x. sent (run_root s x c)) running ∙ refused_inside s task agent c e fit,
    λ outside fit. goes_outside s t c outside fit,
    λ unfit. unfit_fails s t c unfit,
  )
