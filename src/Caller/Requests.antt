-- ===== src/Caller/Requests.antt =====
-- The requests that a call sends: `aassign` and `aprobe` up to `_astream`, and `astate_revision`.
-- `V` are the arguments as JSON, `X` the arguments of `aassign` that are passed on as they are: the
-- hooks, the prompt, the required states and the flags.
pub mod ChildKeys
mod Examples
use rekuest.Prelude.{
  truthy, ℕ, ◌+◌, ◌≡◌, ◌≢◌, refl, sym, ap, ◌∙◌, inl, inr, String, Bool, true, false, Option, none,
  some, List, [], ◌∷◌, ◌==◌, arith, if◌then◌else◌, string_eq, nat_eq, pair_eq, Option-cases,
}
use rekuest.Prelude.Dict.{get_or, insert, remove}
use rekuest.Caller.{AgentPostman, Response, or_else, derive_call_key, forget_parent, await_response}
use Prim.Native.String.{◌++◌}

-- `f"{base}:{occurrence}"` in its two parts, or the caller's own
pub data CallKey : Type 0 where
  given : String → CallKey
  derived : String → ℕ → CallKey

pub record AssignCall (V X : Type 0) : Type 0 where
  pub args : Option V
  pub reference : Option String
  pub action : Option String
  pub action_hash : Option String
  pub implementation : Option String
  pub agent : Option String
  pub interface : Option String
  pub parent : Option String
  pub dependency : Option String
  pub method : Option String
  pub resolution : Option String
  pub call_key : Option String
  pub passed_on : X

pub record AssignRequest (V X : Type 0) : Type 0 where
  pub reference : String
  pub parent_step : Option ℕ
  pub call_key : Option CallKey
  pub args : V
  pub action : Option String
  pub action_hash : Option String
  pub implementation : Option String
  pub agent : Option String
  pub interface : Option String
  pub parent : Option String
  pub dependency : Option String
  pub method : Option String
  pub resolution : Option String
  pub passed_on : X

-- `a or b` on texts, and `a or default`
abbrev pub text_or : Option String → Option String → Option String
text_or a b = or_else (truthy a) b

abbrev pub text_or_default : Option String → String → String
text_or_default a b = elim (truthy a) [ none ↦ b | some s ↦ s ]

-- `f"{method}"`
abbrev pub shown : Option String → String
shown none = "None"
shown (some s) = s

-- `digest` is the start of the SHA-256 of the arguments' JSON, `child_step` the base agent's counter of
-- a task's steps, and `fresh` a new `uuid4`.
module _ {V X : Type 0} (digest : V → String) (no_args : V) where
  unfoldable pub call_target : AssignCall V X → String
  call_target c =
      let by_dependency : Option String = elim (truthy c.dependency) [
        | none ↦ c.interface
        | some dependency ↦ some (dependency ++ "." ++ shown c.method)
      ] in
      text_or_default
        (text_or c.action (text_or c.action_hash (text_or c.implementation by_dependency))) "call"

  abbrev pub args_of : AssignCall V X → V
  args_of c = elim c.args [ none ↦ no_args | some args ↦ args ]

  -- `f"{target}:{digest}"`
  unfoldable pub call_base : AssignCall V X → String
  unfolding call_target
  call_base c = call_target c ++ ":" ++ digest (args_of c)

  module _ {U F : Type 0} where
    -- `if parent is not None and call_key is None`
    unfoldable pub key_for :
        Option String
        → Option String
        → AssignCall V X
        → AgentPostman U F
        → AgentPostman U F × Option CallKey
    unfolding derive_call_key call_base
    key_for parent (some key) c p = (p, some (given key))
    key_for none none c p = (p, none)
    key_for (some parent) none c p =
        let (p', (base, occurrence)) = derive_call_key parent (call_base c) p in
        (p', some (derived base occurrence))

    -- `aassign` up to `_astream`, which then sends the request
    unfoldable pub assign :
        Option (String → Option ℕ)
        → String
        → AssignCall V X
        → AgentPostman U F
        → AgentPostman U F × AssignRequest V X
    unfolding key_for
    assign child_step fresh c p =
        let parent_step : Option ℕ = elim c.parent [
          | none ↦ none
          | some parent ↦ elim child_step [ none ↦ none | some next ↦ next parent ]
        ] in
        let (p', key) = key_for c.parent c.call_key c p in
        (
          p',
          record {
            reference = text_or_default c.reference fresh;
            parent_step = parent_step;
            call_key = key;
            args = args_of c;
            action = c.action;
            action_hash = c.action_hash;
            implementation = c.implementation;
            agent = c.agent;
            interface = c.interface;
            parent = c.parent;
            dependency = c.dependency;
            method = c.method;
            resolution = c.resolution;
            passed_on = c.passed_on;
          },
        )

    -- Calls one after the other
    abbrev pub assign_all :
        Option (String → Option ℕ)
        → List (String × AssignCall V X)
        → AgentPostman U F
        → AgentPostman U F
    assign_all child_step [] p = p
    assign_all child_step ((fresh, c) ∷ cs) p =
        assign_all child_step cs (assign child_step fresh c p).0

-- `aprobe` up to `_astream`
pub record ProbeRequest (V : Type 0) : Type 0 where
  pub reference : String
  pub args : V
  pub action : Option String
  pub action_hash : Option String
  pub implementation : Option String

unfoldable pub probe :
    {V : Type 0}
    → V
    → String
    → Option V
    → Option String
    → Option String
    → Option String
    → Option String
    → ProbeRequest V
probe no_args fresh args reference action action_hash implementation = record {
  reference = text_or_default reference fresh;
  args = elim args [ none ↦ no_args | some given_ ↦ given_ ];
  action = action;
  action_hash = action_hash;
  implementation = implementation;
}

-- How `astate_revision` ends: `interrupted` is any exception at its wait or from its sink.
pub data Revision : Type 0 where
  answered : Response → Revision
  revision_failed : String → Revision
  interrupted : Revision

unfoldable pub state_revision_ends :
    {U F : Type 0} → String → Option Response → AgentPostman U F → AgentPostman U F × Revision
state_revision_ends request answer p =
    let dropped = record p { pending_responses = remove request p.pending_responses } in
    elim answer [
      | none ↦ (dropped, interrupted)
      | some r ↦ elim (truthy r.error) [
        | none ↦ (dropped, answered r)
        | some error ↦ (dropped, revision_failed error)
      ]
    ]
