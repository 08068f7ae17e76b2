-- ===== src/Agent/Inbound/Alive.antt =====
-- Which inquiries are answered.
use rekuest.Prelude.{
  ◌≡◌, ◌≢◌, ◌⊎◌, refl, inl, inr, String, Bool, true, false, not, ◌&&◌, none, some, List, [], ◌∷◌,
  arith, contains, All, Bool-cases, Option-cases, string_eq,
}
use rekuest.Prelude.Dict.{lookup}
use rekuest.Agent.{Frame, Delivery}
use rekuest.Agent.Inbound.{
  Report, no_longer_managed, still_running, not_running_anymore, Assignment, Managed,
  already_reported, answers, has_retained_terminal_report, liveness_of, liveness,
  report_task_liveness, reply_to_inquiries,
}

abbrev pub reported : Report → String
reported (no_longer_managed task) = task
reported (still_running task) = task
reported (not_running_anymore task) = task

-- The tasks that are reported on
abbrev pub reported_in : List Report → List String
reported_in [] = []
reported_in (r ∷ rs) = reported r ∷ reported_in rs

-- What a report says fits what is managed.
pub IsTrue : Managed → Report → Type 0
IsTrue managed (no_longer_managed task) = lookup task managed.assignments ≡ none
IsTrue managed (still_running task) =
    (a : Assignment) × (check : String → Bool) × (lookup task managed.assignments ≡ some a)
    × (lookup a.interface managed.actors ≡ some check)
    × (check a.task ≡ true)
IsTrue managed (not_running_anymore task) =
    (a : Assignment) × (check : String → Bool) × (lookup task managed.assignments ≡ some a)
    × (lookup a.interface managed.actors ≡ some check)
    × (check a.task ≡ false)

-- Every assignment has its actor.
abbrev pub AllHaveActors : Managed → Type 0
AllHaveActors managed =
    (task : String) (a : Assignment)
    → lookup task managed.assignments ≡ some a
    → lookup a.interface managed.actors ≢ none

record Answered (managed : Managed) (task : String) (d : Delivery Frame) : Type 0 where
  report : Report
  given : liveness managed task d ≡ answers report
  of_task : reported report ≡ task
  true_ : IsTrue managed report

-- The answer to an inquiry, told from what is retained and managed
liveness_lem :
    (managed : Managed) (task : String) (d : Delivery Frame)
    → AllHaveActors managed
    → ((has_retained_terminal_report task d ≡ true) × (liveness managed task d ≡ already_reported))
      ⊎ ((has_retained_terminal_report task d ≡ false) × Answered managed task d)
unfolding liveness liveness_of IsTrue
liveness_lem managed task d actors = elim (Bool-cases (has_retained_terminal_report task d)) [
  | inl there ↦ inl (there, rw there refl)
  | inr not_there ↦ elim (Option-cases (lookup task managed.assignments)) [
    | inl unmanaged ↦ inr (
      not_there,
      record {
        report = no_longer_managed task;
        given = rw (not_there, unmanaged) refl;
        of_task = refl;
        true_ = unmanaged;
      },
    )
    | inr (a, assigned) ↦ elim (Option-cases (lookup a.interface managed.actors)) [
      | inl no_check ↦ absurd (actors task a assigned no_check)
      | inr (check, actor) ↦ elim (Bool-cases (check a.task)) [
        | inl runs ↦ inr (
          not_there,
          record {
            report = still_running task;
            given = rw (not_there, assigned, actor, runs) refl;
            of_task = refl;
            true_ = (a, check, assigned, actor, runs);
          },
        )
        | inr stopped ↦ inr (
          not_there,
          record {
            report = not_running_anymore task;
            given = rw (not_there, assigned, actor, stopped) refl;
            of_task = refl;
            true_ = (a, check, assigned, actor, stopped);
          },
        )
      ]
    ]
  ]
]

module _ (dispatch : Report → Delivery Frame → Delivery Frame) (managed : Managed)
    (actors : AllHaveActors managed)
    (leaves_others : (r : Report) (d : Delivery Frame) (task : String)
      → reported r ≢ task
      → has_retained_terminal_report task (dispatch r d)
        ≡ has_retained_terminal_report task d) where
  -- When every assignment has its actor and dispatching a report on one task leaves the retained reports
  -- of the others, `_areply_to_inquiries` gets through all inquiries; it reports on exactly the inquired
  -- tasks of which no terminal report was retained; and each report is true of what is managed: that the
  -- task has no assignment, or what its actor answers.
  pub inquiries_are_answered :
      (inquiries : List String) (d : Delivery Frame)
      → let (reports, d', through) = reply_to_inquiries dispatch managed inquiries d in
        (through ≡ true)
        × ((task : String)
            → contains task (reported_in reports)
              ≡ (contains task inquiries && not (has_retained_terminal_report task d)))
        × All (IsTrue managed) reports
  unfolding reply_to_inquiries report_task_liveness
  inquiries_are_answered [] d = (refl, λ task. refl, tt)
  inquiries_are_answered (x ∷ rest) d = elim (liveness_lem managed x d actors) [
    | inl (there, silent) ↦
        let ih = inquiries_are_answered rest d in
        rw silent (ih.0, λ task. ground (arith, ih.1 task, there, string_eq.beq_iff x task), ih.2)
    | inr (not_there, a) ↦
        let ih = inquiries_are_answered rest (dispatch a.report d) in
        rw a.given (
          ih.0,
          λ task. ground (
            arith,
            ih.1 task,
            not_there,
            a.of_task,
            leaves_others a.report d task,
            string_eq.beq_iff x task,
          ),
          (a.true_, ih.2),
        )
  ]
