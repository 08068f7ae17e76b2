-- ===== src/Agent/Durable/Examples.antt =====
-- Frames that are their own text: one is written, then a later write fails, an ack of another session
-- is half recorded and the process dies.
use rekuest.Prelude.{
  ℕ, ◌<◌, ◌≡◌, refl, ap, String, true, some, arith, ◌==◌, string_eq, nat_eq, pair_eq,
}
use rekuest.Prelude.Dict.{lookup}
use rekuest.Retention
use rekuest.Prelude.Order
use rekuest.Retention.{no_tables, acked_pos_of}
use rekuest.Agent.{
  Delivery, both_written, second_raised, first_raised, process_on, open_store, retain, journal_ack,
}
use rekuest.Agent.Durable.{emits, acks, restarts, first_run, Spares, Later, now_, then_later}
use rekuest.Agent.Durable.Lasts.{written_frame_lasts}

abbrev started : Delivery String
started = open_store some "a" true (process_on no_tables)

abbrev written : Delivery String
written = retain some (λ f. f) "a" both_written true 1 "s1" 1 "f1" started

abbrev unwritten : Delivery String
unwritten = retain some (λ f. f) "a" first_raised true 2 "s1" 2 "f2" written

abbrev half_acked : Delivery String
half_acked = journal_ack some "a" second_raised true "s1" "s2" 9 unwritten

abbrev reopened : Delivery String
reopened = open_store some "a" true (process_on half_acked.file)

later : Later some (λ f. f) (λ f. refl) "a" "s1" 1 written reopened
unfolding Spares
later =
    then_later
      (then_later
        (then_later now_ (emits first_raised 2 "s1" 2 "f2" written) (λ e. absurd (cc (ap_pos e))))
        (acks second_raised "s1" "s2" 9 unwritten) (λ e. absurd (cc (ap (λ s. s == "s1") e))))
      (restarts half_acked) tt
  where
    ap_pos : {k l : String × ℕ} → k ≡ l → k.1 ≡ l.1
    ap_pos e i = (e i).1

written_frame_lasts_example :
    (lookup ("s1", 1) reopened.retained ≡ some "f1")
    × (lookup ("s1", 1) (open_store some "a" true (process_on reopened.file)).retained ≡ some "f1")
unfolding Retention.load Order.sort
written_frame_lasts_example =
    written_frame_lasts some (λ f. f) (λ f. refl) "a" first_run 1 "s1" 1 "f1" fresh later
  where
    fresh : acked_pos_of (lookup ("a", "s1") started.file.journal_sync) < 1
    fresh = unfold open_store process_on lookup in omega arith
