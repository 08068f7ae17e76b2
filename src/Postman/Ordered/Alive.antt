-- ===== src/Postman/Ordered/Alive.antt =====
-- The feed's first change catches every call up, and each call gets what it missed in order.
use rekuest.Prelude.{
  ◌≡◌, ◌≢◌, refl, sym, ap, subst, ◌∙◌, inl, inr, String, Bool, true, false, Option, none, some,
  List, [], ◌∷◌, ◌++◌, ◌==◌, if◌then◌else◌, Bool-cases, string_eq,
}
use rekuest.Prelude.Dict.{lookup, keys}
use rekuest.Postman.{TaskEventChange, GraphqlPostman, catch_up_safely, catch_up_all, come_alive}
use rekuest.Postman.Calls.Keeps.Events.{catch_up_safely-KeepsAll}
use rekuest.Postman.Ordered.Runs.{Following, InLog}
use rekuest.Postman.Ordered.Others.{Same-InLog, catch_up_safely-Same}
use rekuest.Postman.Ordered.Read.{catch_up-InLog}

module _ {P : Type 0} (task reference : String)
    (histories : String → Option (List (TaskEventChange P))) where
  -- Another task is never bound to the call's reference.
  abbrev Apart : GraphqlPostman P → Type 0
  Apart p = (t : String) → t ≢ task → lookup t p.task_to_reference ≢ some reference

  -- A read brings the task's events up to some time.
  abbrev Read : Following P → Type 0
  Read w =
      (history : List (TaskEventChange P))
      → histories task ≡ some history
      → (later : List (TaskEventChange P)) × (w.log ≡ history ++ later)

  own-InLog :
      (o : Option (List (TaskEventChange P))) (w : Following P)
      → ((history : List (TaskEventChange P))
          → o ≡ some history
          → (later : List (TaskEventChange P)) × (w.log ≡ history ++ later))
      → InLog task reference w
      → InLog task reference (record w { postman = catch_up_safely task o w.postman })
  unfolding catch_up_safely
  own-InLog none w read h = h
  own-InLog (some history) w read h =
      let (later, log) = read history refl in
      (catch_up-InLog task reference history later w log h).0

  one-InLog :
      (t : String) (w : Following P)
      → Apart w.postman
      → Read w
      → InLog task reference w
      → InLog task reference (record w { postman = catch_up_safely t (histories t) w.postman })
  one-InLog t w apart read h = elim (Bool-cases (t == task)) [
    | inl same ↦
        subst
          (λ s.
            InLog task reference (record w { postman = catch_up_safely s (histories s) w.postman }))
          (sym ((string_eq.beq_iff t task).0 same)) (own-InLog (histories task) w read h)
    | inr other ↦
        let differs : t ≢ task = λ e. cc ((string_eq.beq_iff t task).1 e, other) in
        Same-InLog task reference w _
          (catch_up_safely-Same task reference t (histories t) w.postman differs (apart t differs))
          h
  ]

  all-InLog :
      (tasks : List String) (w : Following P)
      → Apart w.postman
      → Read w
      → InLog task reference w
      → InLog task reference (record w { postman = catch_up_all histories tasks w.postman })
  unfolding catch_up_all
  all-InLog [] w apart read h = h
  all-InLog (t ∷ tasks) w apart read h =
      let p' = catch_up_safely t (histories t) w.postman in
      let kept = (catch_up_safely-KeepsAll reference t (histories t) w.postman).tasks in
      all-InLog tasks (record w { postman = p' })
        (λ s differs e. apart s differs (sym (ap (lookup s) kept) ∙ e)) read
        (one-InLog t w apart read h)

  pub come_alive-InLog :
      (w : Following P)
      → Apart w.postman
      → Read w
      → InLog task reference w
      → InLog task reference (record w { postman = come_alive histories w.postman })
  unfolding come_alive
  come_alive-InLog w apart read h = by_flag w.postman.feed_live
    where
      woken : Following P
      woken = record w { postman = record w.postman { feed_live = true } }

      by_flag :
          (live : Bool)
          → let p' : GraphqlPostman P =
              if live
              then w.postman
              else (catch_up_all histories (keys w.postman.task_to_reference) woken.postman) in
            InLog task reference (record w { postman = p' })
      by_flag true = h
      by_flag false =
          all-InLog (keys w.postman.task_to_reference) woken apart read
            (Same-InLog task reference w woken.postman (refl, refl, refl) h)
