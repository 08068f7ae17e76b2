-- ===== src/Postman/Ends.antt =====
-- A call never waits for a feed that is gone, and reads no more often than its interval says.
use rekuest.Prelude.{
  ℕ, zero, suc, ◌*◌, ◌≤◌, ◌≡◌, refl, ap, ◌∙◌, String, none, some, List, [], ◌∷◌, ◌++◌, arith,
  string_eq,
}
use rekuest.Prelude.Dict.{Dict, lookup}
use rekuest.Postman.{
  TaskEventChange, Item, event, feed_lost, GraphqlPostman, events, put_lost, fail_pending, follow,
  catch_up_delay,
}

module _ {P : Type 0} where
  pub lookup-put_lost :
      (reason reference : String) (queues : Dict String (List (Item P)))
      → lookup reference (put_lost reason queues) ≡ (elim (lookup reference queues) [
        | none ↦ none
        | some queue ↦ some (queue ++ feed_lost reason ∷ [])
      ])
  unfolding lookup put_lost
  lookup-put_lost reason reference [] = refl
  lookup-put_lost reason reference ((r, queue) ∷ queues) =
      ground (arith, lookup-put_lost reason reference queues)

  follow-lost :
      (reason : String) (queue : List (Item P))
      → (why : String) × ((follow (queue ++ feed_lost reason ∷ [])).1 ≡ some why)
  unfolding follow
  follow-lost reason [] = (reason, refl)
  follow-lost reason (feed_lost earlier ∷ queue) = (earlier, refl)
  follow-lost reason (event e ∷ queue) = follow-lost reason queue

  follow-events :
      (reason : String) (es : List (TaskEventChange P))
      → follow (events es ++ feed_lost reason ∷ []) ≡ (es, some reason)
  unfolding follow
  follow-events reason [] = refl
  follow-events reason (e ∷ es) = rw (follow-events reason es) refl

  -- When the feed dies, every call that waits on a queue ends by raising, once it has handed on what
  -- was still queued: if that is only events, all of them, and with the reason of this death.
  pub fail_pending_wakes :
      (reason reference : String) (queue : List (Item P)) (p : GraphqlPostman P)
      → lookup reference p.update_queues ≡ some queue
      → (queue' : List (Item P)) × (lookup reference (fail_pending reason p).update_queues
          ≡ some queue')
        × ((why : String) × ((follow queue').1 ≡ some why))
        × ((es : List (TaskEventChange P)) → queue ≡ events es → follow queue' ≡ (es, some reason))
  unfolding fail_pending
  fail_pending_wakes reason reference queue p waits = (
    queue ++ feed_lost reason ∷ [],
    ground (arith, lookup-put_lost reason reference p.update_queues),
    follow-lost reason queue,
    λ es e. ap (λ q. follow (q ++ feed_lost reason ∷ [])) e ∙ follow-events reason es,
  )

-- The delay between two reads is never shorter than the interval, never longer than ten times it,
-- and never falls from one read to the next.
pub catch_up_delay_bounds :
    (interval n : ℕ)
    → (interval ≤ catch_up_delay interval n)
      × (catch_up_delay interval n ≤ interval * 10)
      × (catch_up_delay interval n ≤ catch_up_delay interval (suc n))
unfolding catch_up_delay
catch_up_delay_bounds interval zero = omega arith
catch_up_delay_bounds interval (suc n) = omega (arith, catch_up_delay_bounds interval n)
