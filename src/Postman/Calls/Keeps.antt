-- ===== src/Postman/Calls/Keeps.antt =====
-- What each operation of the postman leaves of a call that it is not about: its queue, the news in it,
-- the binding of its task, and the feed.
pub mod Events
use rekuest.Prelude.{
  ◌≡◌, ◌≢◌, ◌⊎◌, refl, inl, inr, String, Bool, true, false, not, ◌||◌, Option, none, some, List, [],
  ◌∷◌, ◌++◌, arith, contains, ◌==◌, ap, ◌∙◌, if◌then◌else◌, Bool-cases, Option-cases, string_eq,
}
use rekuest.Prelude.Dict.{
  Dict, lookup, insert, remove, get_or, keys, lookup-insert, lookup-remove, lookup-set_default,
}
use rekuest.Postman.{
  TaskEventChange, Item, event, feed_lost, GraphqlPostman, TaskChangeEvent, events, flush, bind,
  event_ids, untaken, taken_ids, queue_of, deliver, route, still_waiting, catch_up, catch_up_safely,
  catch_up_all, come_alive, take_change, open_call, cleanup_reference, put_lost, fail_pending,
}
use rekuest.Postman.Ends.{lookup-put_lost}

-- A task and a reference that belong together as those of the call do, or two others
abbrev pub Matches : String → String → String → String → Type 0
Matches task reference t r = (t ≡ task → r ≡ reference) × (r ≡ reference → t ≡ task)

module _ {P : Type 0} where
  -- The news that the feed died stands in the queue.
  abbrev pub has_lost : List (Item P) → Bool
  has_lost [] = false
  has_lost (event e ∷ items) = has_lost items
  has_lost (feed_lost reason ∷ items) = true

  pub has_lost-append : (xs ys : List (Item P)) → has_lost (xs ++ ys) ≡ (has_lost xs || has_lost ys)
  has_lost-append [] ys = refl
  has_lost-append (event e ∷ xs) ys = has_lost-append xs ys
  has_lost-append (feed_lost r ∷ xs) ys = refl

  pub has_lost-still_waiting :
      (read : List String) (items : List (Item P))
      → has_lost (still_waiting read items) ≡ has_lost items
  unfolding still_waiting
  has_lost-still_waiting read [] = refl
  has_lost-still_waiting read (feed_lost r ∷ items) = refl
  has_lost-still_waiting read (event e ∷ items) = ground (arith, has_lost-still_waiting read items)

module _ {P : Type 0} (reference : String) where
  -- What an operation does to a queue: it stays, and so does the news in it.
  pub record KeepsQueue (before after : Dict String (List (Item P))) : Type 0 where
    pub stays :
        (queue : List (Item P))
        → lookup reference before ≡ some queue
        → (queue' : List (Item P)) × (lookup reference after ≡ some queue')
          × (has_lost queue ≡ true → has_lost queue' ≡ true)

  pub KeepsQueue-refl : (d : Dict String (List (Item P))) → KeepsQueue d d
  KeepsQueue-refl d = record { stays = λ queue e. (queue, e, λ h. h) }

  KeepsQueue-trans :
      {a b c : Dict String (List (Item P))} → KeepsQueue a b → KeepsQueue b c → KeepsQueue a c
  KeepsQueue-trans f g = record {
    stays = λ queue e.
        let (queue', e', h') = f.stays queue e in
        let (queue'', e'', h'') = g.stays queue' e' in (queue'', e'', λ h. h'' (h' h));
  }

  pub insert-KeepsQueue :
      (r : String) (old new : List (Item P)) (d : Dict String (List (Item P)))
      → lookup r d ≡ some old
      → (has_lost old ≡ true → has_lost new ≡ true)
      → KeepsQueue d (insert r new d)
  insert-KeepsQueue r old new d there keeps = record {
    stays = λ queue e. elim (Bool-cases (r == reference)) [
      | inl same ↦ (
        new,
        ground (arith, same, lookup-insert r reference new d),
        λ h. keeps (ground (arith, h, e, there, same, string_eq.beq_iff r reference)),
      )
      | inr differs ↦ (queue, ground (arith, e, differs, lookup-insert r reference new d), λ h. h)
    ];
  }

  -- What the postman's other operations leave of it, for any call
  -- `task` is bound to the reference, both ways.
  abbrev pub IsBound : String → GraphqlPostman P → Type 0
  IsBound task p =
      (lookup task p.task_to_reference ≡ some reference)
      × (lookup reference p.reference_to_task ≡ some task)

  pub record Keeps (p p' : GraphqlPostman P) : Type 0 where
    pub queue : KeepsQueue p.update_queues p'.update_queues
    pub watched : p.watching ≡ true → p'.watching ≡ true
    pub alive : p.feed_live ≡ true → p'.feed_live ≡ true

  pub Keeps-refl : (p : GraphqlPostman P) → Keeps p p
  Keeps-refl p = record {
    queue = KeepsQueue-refl p.update_queues;
    watched = λ h. h;
    alive = λ h. h;
  }

  pub Keeps-trans : {p q r : GraphqlPostman P} → Keeps p q → Keeps q r → Keeps p r
  Keeps-trans f g = record {
    queue = KeepsQueue-trans f.queue g.queue;
    watched = λ h. g.watched (f.watched h);
    alive = λ h. g.alive (f.alive h);
  }

  flush-KeepsQueue :
      (r : String) (orphans : List (TaskEventChange P)) (d : Dict String (List (Item P)))
      → KeepsQueue d (flush r orphans d)
  unfolding flush
  flush-KeepsQueue r orphans d = elim (Option-cases (lookup r d)) [
    | inl gone ↦ rw (gone, flush) (KeepsQueue-refl d)
    | inr (queue, there) ↦
        rw (there, flush)
          (insert-KeepsQueue r queue (queue ++ events orphans) d there
            (λ h. ground (arith, h, has_lost-append queue (events orphans))))
  ]

  pub bind-IsBound :
      (task t r : String) (p : GraphqlPostman P)
      → Matches task reference t r
      → IsBound task p
      → IsBound task (bind t r p)
  unfolding bind
  bind-IsBound task t r p m b = (
    ground (arith, m.0, b.0, lookup-insert t task r p.task_to_reference, string_eq.beq_iff t task),
    ground (
      arith,
      m.1,
      b.1,
      lookup-insert r reference t p.reference_to_task,
      string_eq.beq_iff r reference,
    ),
  )

  -- `bind` on any task and reference
  pub bind-Keeps : (t r : String) (p : GraphqlPostman P) → Keeps p (bind t r p)
  unfolding bind
  bind-Keeps t r p = record {
    queue = flush-KeepsQueue r (get_or t p.orphan_events []) p.update_queues;
    watched = λ h. h;
    alive = λ h. h;
  }
