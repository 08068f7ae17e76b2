-- ===== src/Postman/Calls/Served/Kept.antt =====
-- What the feed and other calls do keeps a call served.
use rekuest.Prelude.{
  ◌≡◌, ◌≢◌, ◌⊎◌, refl, sym, ap, subst, ◌∙◌, inl, inr, String, Bool, true, false, Option, none, some,
  List, [], ◌∷◌, ◌++◌, arith, Bool-cases, string_eq, ◌==◌,
}
use rekuest.Prelude.Dict.{Dict, lookup, insert, remove, lookup-insert, lookup-remove}
use rekuest.Postman.{
  TaskEventChange, Item, feed_lost, GraphqlPostman, TaskChangeEvent, bind, route, come_alive,
  take_change, bind_created, route_change, open_call, cleanup_reference, fail_pending,
}
use rekuest.Postman.Ends.{lookup-put_lost}
use rekuest.Postman.Calls.{Stage, assigning, reading, waiting, handed_on, over}
use rekuest.Postman.Calls.Keeps.{
  has_lost, has_lost-append, IsBound, KeepsQueue, KeepsQueue-refl, Keeps, bind-Keeps, bind-IsBound,
}
use rekuest.Postman.Calls.Keeps.Events.{KeepsAll, route-KeepsAll, come_alive-KeepsAll}
use rekuest.Postman.Calls.Served.{Serving, task_at, is_over, Apart, WillWake, IsServed}

module _ {P : Type 0} where
  -- A call that is over needs nothing.
  pub over-IsServed : (w : Serving P) → is_over w.call.stage ≡ true → IsServed w
  over-IsServed w o = record {
    has_queue = λ h. absurd (cc (o, h));
    bound = λ task h e. absurd (cc (o, h));
  }

  pub served_at :
      (stage : Stage) (w : Serving P)
      → w.call.stage ≡ stage
      → is_over stage ≡ false
      → IsServed w
      → (queue : List (Item P)) × (lookup w.call.reference w.postman.update_queues ≡ some queue)
        × ((has_lost queue ≡ true) ⊎ WillWake stage w)
  served_at stage w at_ o h =
      let (queue, there, why) = h.has_queue (ap is_over at_ ∙ o) in
      (queue, there, subst (λ s. (has_lost queue ≡ true) ⊎ WillWake s w) at_ why)

  pub IsBound-at :
      (stage : Stage) (task : String) (w : Serving P)
      → w.call.stage ≡ stage
      → is_over stage ≡ false
      → task_at stage ≡ some task
      → IsServed w
      → IsBound w.call.reference task w.postman
  IsBound-at stage task w at_ o t h = h.bound task (ap is_over at_ ∙ o) (ap task_at at_ ∙ t)

  -- What keeps the feed and does not stop the reads keeps a call awake.
  WillWake-Keeps :
      (stage : Stage) (w : Serving P) (p' : GraphqlPostman P)
      → Keeps w.call.reference w.postman p'
      → WillWake stage w
      → WillWake stage (record w { postman = p' })
  WillWake-Keeps (assigning live) w p' k (watched, alive) =
      (k.watched watched, λ h. k.alive (alive h))
  WillWake-Keeps (reading task) w p' k watched = k.watched watched
  WillWake-Keeps (waiting task) w p' k (watched, inl live) = (k.watched watched, inl (k.alive live))
  WillWake-Keeps (waiting task) w p' k (watched, inr reads) = (k.watched watched, inr reads)
  WillWake-Keeps (handed_on task) w p' k (watched, inl live) =
      (k.watched watched, inl (k.alive live))
  WillWake-Keeps (handed_on task) w p' k (watched, inr reads) = (k.watched watched, inr reads)
  WillWake-Keeps (over task why) w p' k h = tt

  -- An operation that is not the call's
  other-IsServed :
      (w : Serving P) (p' : GraphqlPostman P)
      → Keeps w.call.reference w.postman p'
      → ((task : String)
          → task_at w.call.stage ≡ some task
          → IsBound w.call.reference task w.postman
          → IsBound w.call.reference task p')
      → IsServed w
      → IsServed (record w { postman = p' })
  other-IsServed w p' k b h = record {
    has_queue = λ o.
        let (queue, there, why) = h.has_queue o in
        let (queue', there', news) = k.queue.stays queue there in
        (queue', there', still queue queue' news why);
    bound = λ task o t. b task t (h.bound task o t);
  }
    where
      still :
          (queue queue' : List (Item P))
          → (has_lost queue ≡ true → has_lost queue' ≡ true)
          → (has_lost queue ≡ true) ⊎ WillWake w.call.stage w
          → (has_lost queue' ≡ true) ⊎ WillWake w.call.stage (record w { postman = p' })
      still queue queue' news (inl lost) = inl (news lost)
      still queue queue' news (inr awake) = inr (WillWake-Keeps w.call.stage w p' k awake)

  pub KeepsAll-IsServed :
      (w : Serving P) (p' : GraphqlPostman P)
      → KeepsAll w.call.reference w.postman p'
      → IsServed w
      → IsServed (record w { postman = p' })
  KeepsAll-IsServed w p' k = other-IsServed w p' k.keeps (λ task t b.
      (ap (lookup task) k.tasks ∙ b.0, ap (lookup w.call.reference) k.references ∙ b.1))

  -- The feed's changes
  bind_created-IsServed :
      (w : Serving P) (create : Option (String × Option String))
      → ((t r : String) → create ≡ some (t, some r) → Apart t r w)
      → IsServed w
      → IsServed (record w { postman = bind_created create w.postman })
  unfolding bind_created
  bind_created-IsServed w none apart h = h
  bind_created-IsServed w (some (t, none)) apart h = h
  bind_created-IsServed w (some (t, some r)) apart h = elim (Bool-cases (r == "")) [
    | inl empty ↦ rw (empty, bind_created) h
    | inr named ↦
        rw (named, bind_created)
          (other-IsServed w (bind t r w.postman) (bind-Keeps w.call.reference t r w.postman)
            (λ task at_. bind-IsBound w.call.reference task t r w.postman (apart t r refl task at_))
            h)
  ]

  route_change-IsServed :
      (w : Serving P) (change : Option (TaskEventChange P))
      → IsServed w
      → IsServed (record w { postman = route_change change w.postman })
  unfolding route_change
  route_change-IsServed w none h = h
  route_change-IsServed w (some e) h =
      KeepsAll-IsServed w (route e w.postman) (route-KeepsAll w.call.reference e w.postman) h

  pub feed_changes-IsServed :
      (histories : String → Option (List (TaskEventChange P))) (c : TaskChangeEvent P)
      (w : Serving P)
      → ((t r : String) → c.create ≡ some (t, some r) → Apart t r w)
      → IsServed w
      → IsServed (record w { postman = take_change histories c w.postman })
  unfolding take_change
  feed_changes-IsServed histories c w apart h =
      let alive : Serving P = record w { postman = come_alive histories w.postman } in
      let bound : Serving P = record w { postman = bind_created c.create alive.postman } in
      route_change-IsServed bound c.change (
        bind_created-IsServed alive c.create apart (
          KeepsAll-IsServed w alive.postman
            (come_alive-KeepsAll w.call.reference histories w.postman).0 h))

  pub feed_dies-IsServed :
      (reason : String) (w : Serving P)
      → IsServed w
      → IsServed (record w { postman = fail_pending reason w.postman })
  unfolding fail_pending
  feed_dies-IsServed reason w h = record {
    has_queue = λ o.
        let (queue, there, why) = h.has_queue o in
        (
          queue ++ feed_lost reason ∷ [],
          ground (arith, there, lookup-put_lost reason w.call.reference w.postman.update_queues),
          inl (ground (arith, has_lost-append queue (feed_lost reason ∷ []))),
        );
    bound = h.bound;
  }

  -- Other calls
  pub other_takes-IsServed :
      (r : String) (rest : List (Item P)) (watching : Bool) (w : Serving P)
      → r ≢ w.call.reference
      → (w.postman.watching ≡ true → watching ≡ true)
      → IsServed w
      → IsServed (record w {
        postman = record w.postman {
          watching = watching;
          update_queues = insert r rest w.postman.update_queues;
        };
      })
  other_takes-IsServed r rest watching w differs watched =
      other-IsServed w _
        (record {
          queue = record {
            stays = λ q e. (
              q,
              ground (
                arith,
                e,
                differs,
                lookup-insert r w.call.reference rest w.postman.update_queues,
                string_eq.beq_iff r w.call.reference,
              ),
              λ h. h,
            );
          };
          watched = watched;
          alive = λ h. h;
        })
        (λ task at_ b. b)

  pub other_opens-IsServed :
      (r : String) (w : Serving P)
      → r ≢ w.call.reference
      → IsServed w
      → IsServed (record w { postman = open_call r w.postman })
  unfolding open_call
  other_opens-IsServed r w differs = other_takes-IsServed r [] true w differs (λ h. refl)

  pub other_is_bound-IsServed :
      (t r : String) (w : Serving P)
      → r ≢ w.call.reference
      → task_at w.call.stage ≢ some t
      → IsServed w
      → IsServed (record w { postman = bind t r w.postman })
  other_is_bound-IsServed t r w r_other t_other =
      other-IsServed w (bind t r w.postman) (bind-Keeps w.call.reference t r w.postman) (λ task at_.
        bind-IsBound w.call.reference task t r w.postman
          (λ e. absurd (t_other (at_ ∙ ap some (sym e))), λ e. absurd (r_other e)))

  pub other_reads_on-IsServed :
      (readers : List String) (w : Serving P)
      → IsServed w
      → IsServed (record w { postman = record w.postman { catching_up = readers } })
  other_reads_on-IsServed readers w =
      other-IsServed w _
        (record {
          queue = KeepsQueue-refl w.call.reference w.postman.update_queues;
          watched = λ h. h;
          alive = λ h. h;
        })
        (λ task at_ b. b)

  remove-KeepsQueue :
      (reference r : String) (queues : Dict String (List (Item P)))
      → r ≢ reference
      → KeepsQueue reference queues (remove r queues)
  remove-KeepsQueue reference r queues differs = record {
    stays = λ q e. (
      q,
      ground (arith, e, differs, lookup-remove r reference queues, string_eq.beq_iff reference r),
      λ h. h,
    );
  }

  pub other_ends-IsServed :
      (r : String) (w : Serving P)
      → r ≢ w.call.reference
      → ((task : String)
          → task_at w.call.stage ≡ some task
          → lookup r w.postman.reference_to_task ≢ some task)
      → IsServed w
      → IsServed (record w { postman = cleanup_reference r w.postman })
  unfolding cleanup_reference
  other_ends-IsServed r w differs apart = by_task (lookup r w.postman.reference_to_task) refl
    where
      p : GraphqlPostman P
      p = w.postman

      named :
          (task : String)
          → lookup w.call.reference p.reference_to_task ≡ some task
          → lookup w.call.reference (remove r p.reference_to_task) ≡ some task
      named task e = ground (
        arith,
        e,
        differs,
        lookup-remove r w.call.reference p.reference_to_task,
        string_eq.beq_iff w.call.reference r,
      )

      by_task :
          (o : Option String)
          → lookup r p.reference_to_task ≡ o
          → IsServed w
          → IsServed (record w { postman = cleanup_reference r p })
      by_task none e =
          rw (e, cleanup_reference)
            (other-IsServed w _
              (record {
                queue = remove-KeepsQueue w.call.reference r p.update_queues differs;
                watched = λ h. h;
                alive = λ h. h;
              })
              (λ task at_ b. (b.0, named task b.1)))
      by_task (some t) e =
          rw (e, cleanup_reference)
            (other-IsServed w _
              (record {
                queue = remove-KeepsQueue w.call.reference r p.update_queues differs;
                watched = λ h. h;
                alive = λ h. h;
              })
              (λ task at_ b. (
                ground (
                  arith,
                  b.0,
                  apart task at_,
                  e,
                  lookup-remove t task p.task_to_reference,
                  string_eq.beq_iff task t,
                ),
                named task b.1,
              )))
