-- ===== src/Postman/Calls/Served/Own.antt =====
-- What the call itself does keeps it served, until it is over.
use rekuest.Prelude.{
  ◌≡◌, ◌⊎◌, refl, ap, subst, ◌∙◌, inl, inr, String, Bool, true, false, not, Option, some, contains,
  List, [], ◌∷◌, ◌++◌, arith, if◌then◌else◌, Bool-cases, string_eq,
}
use rekuest.Prelude.Dict.{lookup, insert, lookup_refl}
use rekuest.Postman.{TaskEventChange, Item, event, feed_lost, GraphqlPostman, bind, catch_up_safely}
use rekuest.Postman.Calls.{
  Stage, assigning, reading, waiting, handed_on, over, Call, Answer, task_made, assign_failed,
  assign_broke_off, take_answer, take_history, take_item, get_item, ask_next, catch_up_round,
}
use rekuest.Postman.Calls.Keeps.{has_lost, IsBound, bind-Keeps}
use rekuest.Postman.Calls.Keeps.Events.{KeepsAll, catch_up_safely-KeepsAll}
use rekuest.Postman.Calls.Served.{Serving, after, WillWake, IsServed}
use rekuest.Postman.Calls.Served.Kept.{over-IsServed, served_at, IsBound-at, KeepsAll-IsServed}

module _ {P : Type 0} where
  -- The task is bound under the call's reference by its answer.
  pub bind_own-IsBound :
      (task reference : String) (p : GraphqlPostman P)
      → IsBound reference task (bind task reference p)
  unfolding bind
  bind_own-IsBound task reference p = (
    lookup_refl task reference p.task_to_reference,
    lookup_refl reference task p.reference_to_task,
  )

  pub answered-IsServed :
      (live : Bool) (a : Answer) (w : Serving P)
      → w.call.stage ≡ assigning live
      → IsServed w
      → IsServed (after w.reads_on (take_answer live a w.call w.postman))
  unfolding take_answer
  answered-IsServed live assign_failed w at_ h = over-IsServed _ refl
  answered-IsServed live assign_broke_off w at_ h = over-IsServed _ refl
  answered-IsServed live (task_made task) w at_ h =
      by_feed live (served_at (assigning live) w at_ refl h)
    where
      reference : String
      reference = w.call.reference

      p' : GraphqlPostman P
      p' = bind task reference w.postman

      by_feed :
          (live : Bool)
          → (queue : List (Item P)) × (lookup reference w.postman.update_queues ≡ some queue)
            × ((has_lost queue ≡ true) ⊎ WillWake (assigning live) w)
          → IsServed (
              after w.reads_on (
                record w.call { stage = if live then waiting task else reading task },
                bind task w.call.reference w.postman,
              ))
      by_feed true (queue, there, why) = record {
        has_queue = λ o.
            let k = bind-Keeps reference task reference w.postman in
            let (queue', there', news) = k.queue.stays queue there in
            (
              queue',
              there',
              elim why [
                | inl lost ↦ inl (news lost)
                | inr (watched, alive) ↦ inr (k.watched watched, inl (k.alive (alive refl)))
              ],
            );
        bound = λ t o e.
            subst (λ s. IsBound reference s p') (cc e) (bind_own-IsBound task reference w.postman);
      }
      by_feed false (queue, there, why) = record {
        has_queue = λ o.
            let k = bind-Keeps reference task reference w.postman in
            let (queue', there', news) = k.queue.stays queue there in
            (
              queue',
              there',
              elim why [
                | inl lost ↦ inl (news lost)
                | inr (watched, alive) ↦ inr (k.watched watched)
              ],
            );
        bound = λ t o e.
            subst (λ s. IsBound reference s p') (cc e) (bind_own-IsBound task reference w.postman);
      }

  -- A call that follows its task, in a postman that has its queue and its binding
  following-IsServed :
      (stage : Stage) (task : String) (c : Call P) (p : GraphqlPostman P) (reads_on : Bool)
      (queue : List (Item P))
      → (stage ≡ waiting task) ⊎ (stage ≡ handed_on task)
      → lookup c.reference p.update_queues ≡ some queue
      → (has_lost queue ≡ true) ⊎ ((p.watching ≡ true) × ((p.feed_live ≡ true) ⊎ (reads_on ≡ true)))
      → IsBound c.reference task p
      → IsServed (record { postman = p; call = record c { stage = stage }; reads_on = reads_on })
  following-IsServed stage task c p reads_on queue (inl at_) there why b = rw at_ (record {
    has_queue = λ o. (queue, there, why);
    bound = λ t o e. subst (λ s. IsBound c.reference s p) (cc e) b;
  })
  following-IsServed stage task c p reads_on queue (inr at_) there why b = rw at_ (record {
    has_queue = λ o. (queue, there, why);
    bound = λ t o e. subst (λ s. IsBound c.reference s p) (cc e) b;
  })

  pub read_returns-IsServed :
      (task : String) (history : Option (List (TaskEventChange P))) (w : Serving P)
      → w.call.stage ≡ reading task
      → IsServed w
      → IsServed (
          after
            (contains w.call.reference (take_history task history w.call w.postman).1.catching_up)
            (take_history task history w.call w.postman))
  unfolding take_history
  read_returns-IsServed task history w at_ h =
      let (queue, there, why) = served_at (reading task) w at_ refl h in
      let (queue', there', news) = k.keeps.queue.stays queue there in
      by_feed queue' there'
        (elim why [ inl lost ↦ inl (news lost) | inr watched ↦ inr (k.keeps.watched watched) ])
        caught.feed_live refl
    where
      caught : GraphqlPostman P
      caught = catch_up_safely task history w.postman

      k : KeepsAll w.call.reference w.postman caught
      k = catch_up_safely-KeepsAll w.call.reference task history w.postman

      bound' : IsBound w.call.reference task caught
      bound' =
          let b = IsBound-at (reading task) task w at_ refl refl h in
          (ap (lookup task) k.tasks ∙ b.0, ap (lookup w.call.reference) k.references ∙ b.1)

      read_on : GraphqlPostman P
      read_on = record caught { catching_up = w.call.reference ∷ caught.catching_up }

      by_feed :
          (queue : List (Item P))
          → lookup w.call.reference caught.update_queues ≡ some queue
          → (has_lost queue ≡ true) ⊎ (caught.watching ≡ true)
          → (live : Bool) → caught.feed_live ≡ live
          → let p' : GraphqlPostman P = if live then caught else read_on in
            IsServed (
              after
                (contains w.call.reference p'.catching_up)
                (record w.call { stage = waiting task }, p'))
      by_feed queue there why true e =
          following-IsServed (waiting task) task w.call caught _ queue (inl refl) there
            (elim why [ inl lost ↦ inl lost | inr watched ↦ inr (watched, inl e) ]) bound'
      by_feed queue there why false e =
          following-IsServed (waiting task) task w.call read_on _ queue (inl refl) there
            (elim why [
              | inl lost ↦ inl lost
              | inr watched ↦ inr (
                watched,
                inr (ground (arith, string_eq.beq_iff w.call.reference w.call.reference)),
              )
            ])
            bound'

  pub gets-IsServed :
      (task : String) (w : Serving P)
      → w.call.stage ≡ waiting task
      → IsServed w
      → IsServed (after w.reads_on (get_item task w.call w.postman))
  unfolding get_item take_item
  gets-IsServed task w at_ h =
      let (queue, there, why) = served_at (waiting task) w at_ refl h in
      rw (there, get_item) (by_queue queue why)
    where
      by_queue :
          (queue : List (Item P))
          → (has_lost queue ≡ true) ⊎ WillWake (waiting task) w
          → let got : Call P × GraphqlPostman P = elim queue [
            | [] ↦ (w.call, w.postman)
            | item ∷ rest ↦ take_item task item rest w.call w.postman
          ] in
            IsServed (after w.reads_on got)
      by_queue [] why = h
      by_queue (feed_lost reason ∷ rest) why = over-IsServed _ refl
      by_queue (event e ∷ rest) why =
          following-IsServed (handed_on task) task
            (record w.call { handed = w.call.handed ++ e ∷ [] })
            (record w.postman {
              update_queues = insert w.call.reference rest w.postman.update_queues;
            })
            w.reads_on rest (inr refl) (lookup_refl w.call.reference rest w.postman.update_queues)
            why (IsBound-at (waiting task) task w at_ refl refl h)

  pub asks_next-IsServed :
      (task : String) (w : Serving P)
      → w.call.stage ≡ handed_on task
      → IsServed w
      → IsServed (record w { call = ask_next task w.call })
  unfolding ask_next
  asks_next-IsServed task w at_ h =
      let (queue, there, why) = served_at (handed_on task) w at_ refl h in
      following-IsServed (waiting task) task w.call w.postman w.reads_on queue (inl refl) there why
        (IsBound-at (handed_on task) task w at_ refl refl h)

  -- What ends the catch-up task is that the feed is live.
  stops-IsServed :
      (goes_on : Bool) (w : Serving P)
      → (goes_on ≡ true) ⊎ (w.postman.feed_live ≡ true)
      → IsServed w
      → IsServed (record w { reads_on = goes_on })
  stops-IsServed goes_on w fine h = record {
    has_queue = λ o.
        let (queue, there, why) = h.has_queue o in
        (
          queue,
          there,
          elim why [ inl lost ↦ inl lost | inr awake ↦ inr (by_stage w.call.stage awake) ],
        );
    bound = h.bound;
  }
    where
      by_stage :
          (stage : Stage) → WillWake stage w → WillWake stage (record w { reads_on = goes_on })
      by_stage (assigning live) a = a
      by_stage (reading task) a = a
      by_stage (waiting task) a = (a.0, elim fine [ inl e ↦ inr e | inr e ↦ inl e ])
      by_stage (handed_on task) a = (a.0, elim fine [ inl e ↦ inr e | inr e ↦ inl e ])
      by_stage (over task why) a = a

  pub reads_again-IsServed :
      (task : String) (history : Option (List (TaskEventChange P))) (w : Serving P)
      → IsServed w
      → IsServed (record w {
        postman = (catch_up_round task history w.postman).1;
        reads_on = (catch_up_round task history w.postman).0;
      })
  unfolding catch_up_round
  reads_again-IsServed task history w h = by_feed w.postman.feed_live refl
    where
      caught : GraphqlPostman P
      caught = catch_up_safely task history w.postman

      read : Serving P
      read = record w { postman = caught }

      by_feed :
          (live : Bool)
          → w.postman.feed_live ≡ live
          → let round : Bool × GraphqlPostman P =
              if live then (false, w.postman) else (not caught.feed_live, caught) in
            IsServed (record w { postman = round.1; reads_on = round.0 })
      by_feed true e = stops-IsServed false w (inr e) h
      by_feed false e =
          stops-IsServed (not caught.feed_live) read
            (elim (Bool-cases caught.feed_live) [
              | inl live ↦ inr live
              | inr silent ↦ inl (ap not silent)
            ])
            (KeepsAll-IsServed w caught
              (catch_up_safely-KeepsAll w.call.reference task history w.postman) h)
