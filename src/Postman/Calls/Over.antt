-- ===== src/Postman/Calls/Over.antt =====
-- Nothing of a call stays with the postman when it is over, and what the server is asked then.
use rekuest.Prelude.{
  ℕ, ◌+◌, ◌*◌, ◌≤◌, ◌≡◌, ◌⊎◌, refl, ◌∙◌, inl, inr, String, Bool, false, not, Option, none, some,
  List, ◌∷◌, arith, if◌then◌else◌, contains, contains-keep, Option-cases, string_eq, ◌==◌,
}
use rekuest.Prelude.Dict.{lookup, insert, lookup-remove}
use rekuest.Postman.{Item, feed_lost, GraphqlPostman, bind, cleanup_reference}
use rekuest.Postman.Cancel.{
  Request, cancel, assigned_despite_cancel, confirm_cancellation-ends, confirm_cancellation-asks,
  cancel_in_flight,
}
use rekuest.Postman.Calls.{
  Ending, cannot_assign, broke_off, cancelled, closed, lost_feed, end_call, assigning, reading,
  waiting, handed_on, over, Call, assign_failed, assign_broke_off, take_answer, take_item, get_item,
  close_call, cancel_following, cancel_assigning,
}
use rekuest.Postman.Calls.Served.{Serving, Reach, IsServed}
use rekuest.Postman.Calls.Served.Kept.{IsBound-at}
use rekuest.Postman.Calls.Served.Own.{bind_own-IsBound}
use rekuest.Postman.Calls.Served.Awake.{Reach-IsServed}

module _ {P : Type 0} where
  -- Nothing under the call's reference, and under its task, if it learned of one
  pub record IsGone (reference : String) (task : Option String) (p : GraphqlPostman P)
      : Type 0 where
    pub no_queue : lookup reference p.update_queues ≡ none
    pub no_reference : lookup reference p.reference_to_task ≡ none
    pub no_reading : contains reference p.catching_up ≡ false
    pub no_task :
        (t : String)
        → task ≡ some t
        → (lookup t p.task_to_reference ≡ none)
          × (lookup t p.orphan_events ≡ none)
          × (lookup t p.routed_event_ids ≡ none)

  cleanup_reference-IsGone :
      (reference : String) (task : Option String) (p : GraphqlPostman P)
      → ((t : String) → task ≡ some t → lookup reference p.reference_to_task ≡ some t)
      → IsGone reference task (cleanup_reference reference p)
  unfolding cleanup_reference
  cleanup_reference-IsGone reference task p named = record {
    no_queue = ground (
      arith,
      lookup-remove reference reference p.update_queues,
      string_eq.beq_iff reference reference,
    );
    no_reference = ground (
      arith,
      lookup-remove reference reference p.reference_to_task,
      string_eq.beq_iff reference reference,
    );
    no_reading = ground (
      arith,
      contains-keep (λ (r : String). not (r == reference)) reference p.catching_up,
      string_eq.beq_iff reference reference,
    );
    no_task = λ t e. ground (
      arith,
      named t e,
      lookup-remove t t p.task_to_reference,
      lookup-remove t t p.orphan_events,
      lookup-remove t t p.routed_event_ids,
      string_eq.beq_iff t t,
    );
  }

  -- The call is over for this reason, with the task that it learned of, and left nothing.
  abbrev pub EndsClean : Option String → Ending → Call P × GraphqlPostman P → Type 0
  EndsClean task why (c, p) = (c.stage ≡ over task why) × IsGone c.reference task p

  bound-EndsClean :
      (task : String) (why : Ending) (c : Call P) (p : GraphqlPostman P)
      → lookup c.reference p.reference_to_task ≡ some task
      → EndsClean (some task) why (end_call (some task) why c p)
  bound-EndsClean task why c p named =
      (refl, cleanup_reference-IsGone c.reference (some task) p (λ t e. named ∙ e))

  unbound-EndsClean :
      (why : Ending) (c : Call P) (p : GraphqlPostman P)
      → EndsClean none why (end_call none why c p)
  unbound-EndsClean why c p =
      (refl, cleanup_reference-IsGone c.reference none p (λ t e. absurd (cc e)))

  cancel_in_flight-IsGone :
      (escalate : Bool) (timeout : ℕ) (answer : ℕ × Option String)
      (cancel_takes interrupt_takes now : ℕ) (queue : List (ℕ × Item P)) (reference : String)
      (p : GraphqlPostman P)
      → IsGone reference
          (assigned_despite_cancel timeout answer now).0
          (cancel_in_flight escalate timeout answer cancel_takes interrupt_takes now queue reference
            p).2
  unfolding cancel_in_flight
  cancel_in_flight-IsGone escalate timeout answer cancel_takes interrupt_takes now queue reference
        p =
      elim (Option-cases (assigned_despite_cancel timeout answer now).0) [
        | inl unknown ↦
            rw (unknown, cancel_in_flight)
              (cleanup_reference-IsGone reference none p (λ t e. absurd (cc e)))
        | inr (task, known) ↦
            rw (known, cancel_in_flight)
              (cleanup_reference-IsGone reference (some task) (bind task reference p)
                (λ t e. (bind_own-IsBound task reference p).1 ∙ e))
      ]

  -- However a call ends, nothing of it stays under its reference and under its task, if it learned of
  -- one: when the assign fails or breaks off; when the news that the feed died reaches it, with the
  -- reason; when its caller closes it; when it is cancelled while it reads or waits; and when it is
  -- cancelled while it assigns. A call that is cancelled while it reads or waits asks to cancel its
  -- task, and is over within two timeouts, or four if it may escalate.
  pub ended_assign-IsGone :
      {J : Type 0} {to_input : J → J} {default_timeout : ℕ} {w : Serving P}
      → Reach to_input default_timeout w
      → ((live : Bool)
          → w.call.stage ≡ assigning live
          → EndsClean none cannot_assign (take_answer live assign_failed w.call w.postman)
            × EndsClean none broke_off (take_answer live assign_broke_off w.call w.postman))
        × ((task reason : String) (rest : List (Item P))
            → w.call.stage ≡ waiting task
            → lookup w.call.reference w.postman.update_queues ≡ some (feed_lost reason ∷ rest)
            → EndsClean (some task) (lost_feed reason) (get_item task w.call w.postman))
        × ((task : String)
            → w.call.stage ≡ handed_on task
            → EndsClean (some task) closed (close_call task w.call w.postman))
        × ((task : String) (cancel_takes interrupt_takes now : ℕ) (queue : List (ℕ × Item P))
            → (w.call.stage ≡ reading task) ⊎ (w.call.stage ≡ waiting task)
            → let (requests, ends_at, c, p) =
                cancel_following cancel_takes interrupt_takes now queue task w.call w.postman in
              EndsClean (some task) cancelled (c, p)
              × ((more : List Request) × (requests ≡ cancel ∷ more))
              × (ends_at
                  ≤ now
                    + (if w.call.escalate_to_interrupt
                        then 4 * w.call.timeout
                        else 2 * w.call.timeout)))
        × ((live : Bool) (answer : ℕ × Option String) (cancel_takes interrupt_takes now : ℕ)
              (queue : List (ℕ × Item P))
            → w.call.stage ≡ assigning live
            → let (requests, ends_at, c, p) =
                cancel_assigning answer cancel_takes interrupt_takes now queue w.call w.postman in
              EndsClean (assigned_despite_cancel w.call.timeout answer now).0 cancelled (c, p))
  unfolding get_item take_answer close_call cancel_following cancel_assigning
  ended_assign-IsGone {w} r = (
    λ live at_. (
      unbound-EndsClean cannot_assign w.call w.postman,
      unbound-EndsClean broke_off w.call w.postman,
    ),
    λ task reason rest at_ news.
        rw (news, get_item)
          (unfold take_item in
            bound-EndsClean task (lost_feed reason) w.call
              (record w.postman {
                update_queues = insert w.call.reference rest w.postman.update_queues;
              })
              (IsBound-at (waiting task) task w at_ refl refl served).1),
    λ task at_.
        bound-EndsClean task closed w.call w.postman
          (IsBound-at (handed_on task) task w at_ refl refl served).1,
    λ task cancel_takes interrupt_takes now queue at_. (
      bound-EndsClean task cancelled w.call w.postman (named task at_),
      confirm_cancellation-asks w.call.escalate_to_interrupt w.call.timeout cancel_takes
          interrupt_takes now queue,
      confirm_cancellation-ends w.call.escalate_to_interrupt w.call.timeout cancel_takes
          interrupt_takes now queue,
    ),
    λ live answer cancel_takes interrupt_takes now queue at_. (
      refl,
      cancel_in_flight-IsGone w.call.escalate_to_interrupt w.call.timeout answer cancel_takes
          interrupt_takes now queue w.call.reference w.postman,
    ),
  )
    where
      served : IsServed w
      served = Reach-IsServed r

      named :
          (task : String)
          → (w.call.stage ≡ reading task) ⊎ (w.call.stage ≡ waiting task)
          → lookup w.call.reference w.postman.reference_to_task ≡ some task
      named task (inl at_) = (IsBound-at (reading task) task w at_ refl refl served).1
      named task (inr at_) = (IsBound-at (waiting task) task w at_ refl refl served).1
