-- ===== src/Agent/Inbound/Examples.antt =====
-- Inquiries about three tasks, and a follow-up that fails once.
use rekuest.Prelude.{
  ◌≤◌, ◌≡◌, refl, ap, Bool-cases, inl, inr, none, some, [], ◌∷◌, String, true, false, not, ◌&&◌,
  arith, ◌==◌, contains, All, string_eq, nat_eq, pair_eq,
}
use rekuest.Prelude.Dict.{lookup}
use rekuest.Retention.{no_tables}
use rekuest.Agent.{Frame, terminal_report, Delivery, on_disk}
use rekuest.Agent.Inbound.{Assignment, Managed, has_retained_terminal_report, reply_to_inquiries}
use rekuest.Agent.Inbound.Alive.{AllHaveActors, IsTrue, reported_in, inquiries_are_answered}
use rekuest.Agent.Inbound.FollowUp.{
  Registration, registered, start_follow_up, run_ends, Reach, starts, then_, init, ends,
  follow_up_runs_once,
}

-- The report of a task that failed
abbrev report : Frame
report = record { kind = terminal_report; task = some "t3"; task_step = none; body = "{}" }

abbrev one_report : Delivery Frame
one_report = record {
  retained = (("s1", 1), report) ∷ [];
  session_created = ("s1", 5) ∷ [];
  file = no_tables;
  store = some on_disk;
}

-- One assignment of an actor that runs it; no assignment of "t2".
abbrev one_actor : Managed
one_actor = record {
  assignments = ("t1", record { interface = "i"; task = "t1" }) ∷ [];
  actors = ("i", λ task. true) ∷ [];
}

only_assignment :
    (task : String) (a : Assignment)
    → lookup task one_actor.assignments ≡ some a
    → record { interface = "i"; task = "t1" } ≡ a
unfolding lookup
only_assignment task a e = elim (Bool-cases ("t1" == task)) [
  | inl this ↦ cc (e, this)
  | inr another ↦ absurd (cc (e, another))
]

one_actor_each : AllHaveActors one_actor
unfolding lookup
one_actor_each task a e none_ =
    absurd (cc (ap (λ a. lookup a.interface one_actor.actors) (only_assignment task a e), none_))

inquiries_are_answered_example :
    let (reports, d', through) =
      reply_to_inquiries (λ r d. d) one_actor ("t1" ∷ "t2" ∷ "t3" ∷ []) one_report in
    (through ≡ true)
    × ((task : String)
        → contains task (reported_in reports) ≡ (
            contains task ("t1" ∷ "t2" ∷ "t3" ∷ [])
            && not (has_retained_terminal_report task one_report)))
    × All (IsTrue one_actor) reports
inquiries_are_answered_example =
    inquiries_are_answered (λ r d. d) one_actor one_actor_each (λ r d task other. refl)
      ("t1" ∷ "t2" ∷ "t3" ∷ []) one_report

abbrev retried : Registration
retried = start_follow_up (run_ends false (start_follow_up (registered true)))

retried_reached : Reach (run_ends true retried)
unfolding start_follow_up run_ends
retried_reached =
    then_
      (then_
        (then_ (then_ (starts true) (init (registered true)))
          (ends false (start_follow_up (registered true)) (omega arith)))
        (init (run_ends false (start_follow_up (registered true)))))
      (ends true retried (omega arith))

follow_up_runs_once_example :
    let r = run_ends true retried in
    (r.live ≤ 1) × (r.successes ≤ 1) × (r.successes ≡ 1 → (r.live ≡ 0) × (start_follow_up r ≡ r))
follow_up_runs_once_example = follow_up_runs_once retried_reached
