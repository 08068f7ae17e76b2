-- ===== src/Agent/Inbound/FollowUp.antt =====
-- `after_registration`: the follow-up of the registration, which every `Init` may start.
use rekuest.Prelude.{
  ℕ, ◌-◌, ◌+◌, ◌≤◌, ◌≡◌, ◌⊎◌, inl, inr, refl, Bool, Option, none, some, arith, if◌then◌else◌,
}

pub data TaskState : Type 0 where
  running finished : TaskState

-- `configured` is whether there is a follow-up, `task` the `_after_registration_task`. `live` counts the
-- runs that have started and not ended, `successes` those that ended well since the agent was started.
pub record Registration : Type 0 where
  pub configured : Bool
  pub task : Option TaskState
  pub live : ℕ
  pub successes : ℕ

abbrev pub registered : Bool → Registration
registered configured = record { configured = configured; task = none; live = 0; successes = 0 }

-- The last statement of `_aafter_init`
unfoldable pub start_follow_up : Registration → Registration
start_follow_up r = elim r.task [
  | some state ↦ r
  | none ↦ if r.configured then record r { task = some running; live = r.live + 1 } else r
]

-- `_arun_after_registration`: how `follow_up()` ends
unfoldable pub run_ends : Bool → Registration → Registration
run_ends succeeds r =
    if succeeds
    then record r { task = some finished; live = r.live - 1; successes = r.successes + 1 }
    else record r { task = none; live = r.live - 1 }

-- The start of `atear_down`: a run is cancelled and awaited.
unfoldable pub tear_down : Registration → Registration
tear_down r = elim r.task [
  | some running ↦ record r { task = none; live = r.live - 1; successes = 0 }
  | _ ↦ record r { task = none; successes = 0 }
]

pub data Step : Registration → Registration → Type 0 where
  init : (r : Registration) → Step r (start_follow_up r)
  ends : (succeeds : Bool) (r : Registration) → 1 ≤ r.live → Step r (run_ends succeeds r)
  tears_down : (r : Registration) → Step r (tear_down r)

pub data Reach : Registration → Type 0 where
  starts : (configured : Bool) → Reach (registered configured)
  then_ : {r r' : Registration} → Reach r → Step r r' → Reach r'

-- A run is live just while the task is that run, and one has succeeded just if it stayed.
record InStep (r : Registration) : Type 0 where
  idle : r.task ≡ none → (r.live ≡ 0) × (r.successes ≡ 0)
  runs : r.task ≡ some running → (r.live ≡ 1) × (r.successes ≡ 0)
  ended : r.task ≡ some finished → (r.live ≡ 0) × (r.successes ≡ 1)

task_cases : (t : Option TaskState) → (t ≡ none) ⊎ ((t ≡ some running) ⊎ (t ≡ some finished))
task_cases none = inl refl
task_cases (some running) = inr (inl refl)
task_cases (some finished) = inr (inr refl)

Step-InStep : {r r' : Registration} → Step r r' → InStep r → InStep r'
unfolding start_follow_up run_ends tear_down
Step-InStep (init r) h = record {
  idle = ground (arith, h.idle, h.runs, h.ended);
  runs = ground (arith, h.idle, h.runs, h.ended);
  ended = ground (arith, h.idle, h.runs, h.ended);
}
Step-InStep (ends succeeds r live) h =
    let was = task_cases r.task in
    record {
      idle = ground (arith, was, h.idle, h.runs, h.ended, live);
      runs = ground (arith, was, h.idle, h.runs, h.ended, live);
      ended = ground (arith, was, h.idle, h.runs, h.ended, live);
    }
Step-InStep (tears_down r) h =
    let was = task_cases r.task in
    record {
      idle = ground (arith, was, h.idle, h.runs, h.ended);
      runs = ground (arith, was, h.idle, h.runs, h.ended);
      ended = ground (arith, was, h.idle, h.runs, h.ended);
    }

Reach-InStep : {r : Registration} → Reach r → InStep r
Reach-InStep (starts configured) = record {
  idle = λ e. (refl, refl);
  runs = λ e. absurd (cc e);
  ended = λ e. absurd (cc e);
}
Reach-InStep (then_ r s) = Step-InStep s (Reach-InStep r)

-- However the `Init`s of reconnects, the ends of runs and tear-downs follow each other: no two runs of
-- the follow-up are live at once; since the agent was started it has succeeded at most once; and once
-- it has, no run is live and a further `Init` changes nothing.
pub follow_up_runs_once :
    {r : Registration}
    → Reach r
    → (r.live ≤ 1) × (r.successes ≤ 1) × (r.successes ≡ 1 → (r.live ≡ 0) × (start_follow_up r ≡ r))
unfolding start_follow_up
follow_up_runs_once {r} reached =
    let h = Reach-InStep reached in
    let was = task_cases r.task in
    (
      ground (arith, was, h.idle, h.runs, h.ended),
      ground (arith, was, h.idle, h.runs, h.ended),
      λ once. ground (arith, was, h.idle, h.runs, h.ended, once),
    )
