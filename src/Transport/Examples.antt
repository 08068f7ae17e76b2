-- ===== src/Transport/Examples.antt =====
-- A session over two connections, and policies that give a link up.
use rekuest.Prelude.{
  ◌==◌, string_eq, inl, ◌+◌, ◌≤◌, ◌≡◌, refl, Bool, none, some, List, [], ◌∷◌, String, ℕ, true,
  false, arith, keep,
}
use rekuest.Transport.Policy.{
  ConnectionPolicy, Failure, definite, agent_was_kicked, retries_exceeded,
}
use rekuest.Transport.Channel.{
  Channel, Event, asked, connected, taken, sent, stopped, discarded, entered, run,
}
use rekuest.Transport.Channel.Sound.{history, IsSound, entered-IsSound}
use rekuest.Transport.Channel.Discard.{fresh}
use rekuest.Transport.Channel.Order.{history-run, fresh-run, silent-run}
use rekuest.Transport.Loop.{
  classify, recovered, closed, Attempt, failed, connect_and_receive, fresh_loop,
}
use rekuest.Transport.Loop.Budget.{retries_are_bounded, flaps_are_bounded, IsDrop, IsFlap}
use rekuest.Transport.Inbound.{
  Inbox, received, closed_item, Inbound, message, heartbeat, bounce, raised, areceive, aconnect,
  receive_session, connection_loop_ends,
}
use rekuest.Transport.Inbound.Session.{session_lem}
use rekuest.Transport.Closing.{Link, aexit, flushed, flushed_before_close}

-- The text "n" is a frame with a position.
abbrev is_n : String → Bool
is_n frame = frame == "n"

-- A send that fails, and a second connection on which both frames go out.
abbrev drops_once : List Event
drops_once =
    asked "n"
    ∷ connected false
    ∷ taken
    ∷ asked "u"
    ∷ stopped
    ∷ connected false
    ∷ taken
    ∷ sent
    ∷ taken
    ∷ sent
    ∷ []

history-run_example : history (run is_n drops_once entered) ≡ "n" ∷ "u" ∷ []
history-run_example =
    history-run is_n drops_once entered
      (
        λ e. cc,
        (
          λ e. cc,
          (
            λ e. cc,
            (λ e. cc, (λ e. cc, (λ e. cc, (λ e. cc, (λ e. cc, (λ e. cc, (λ e. cc, tt))))))),
          ),
        ),
      )
      entered-IsSound

fresh-run_example :
    keep
      (fresh is_n)
      (history (run is_n (asked "n" ∷ asked "u" ∷ discarded ∷ asked "v" ∷ []) entered))
    ≡ "u" ∷ "v" ∷ []
fresh-run_example =
    fresh-run is_n (asked "n" ∷ asked "u" ∷ discarded ∷ asked "v" ∷ []) entered entered-IsSound

abbrev registered : Channel
registered = record entered { released = some false; sending = true }

registered-IsSound : IsSound registered
registered-IsSound = record { one_out = inl refl; counted = refl; gated = λ e. refl }

silent-run_example : (run is_n (asked "n" ∷ taken ∷ sent ∷ discarded ∷ []) registered).wire ≡ []
silent-run_example =
    silent-run is_n (asked "n" ∷ taken ∷ sent ∷ discarded ∷ []) registered
      ((λ e. cc, λ e. cc), ((λ e. cc, λ e. cc), ((λ e. cc, λ e. cc), ((λ e. cc, λ e. cc), tt))))
      registered-IsSound refl

abbrev two_retries : ConnectionPolicy
two_retries = record {
  max_retries = 2;
  delay_for = λ n. n + 1;
  reset_after = 60;
  flap_limit = none;
  flap_window = 100;
}

abbrev dropped_at : ℕ → Attempt
dropped_at t = record {
  closing_before = false;
  connected_at = some t;
  healthy = true;
  ending = closed none;
  ended_at = t + 5;
  closing_after = false;
  decided_at = t + 5;
}

dropped_at-IsDrop : (t : ℕ) → IsDrop (dropped_at t)
unfolding classify
dropped_at-IsDrop t = record { open_before = refl; open_after = refl; correctable_end = refl }

retries_are_bounded_example :
    let (verdict, st) =
      connect_and_receive two_retries
        (dropped_at 1 ∷ dropped_at 10 ∷ dropped_at 20 ∷ [])
        (fresh_loop []) in
    (verdict ≡ failed (definite retries_exceeded)) × (st.waits ≡ 1 ∷ 2 ∷ [])
unfolding recovered
retries_are_bounded_example =
    retries_are_bounded two_retries 2 (dropped_at 1 ∷ dropped_at 10 ∷ dropped_at 20 ∷ [])
      (fresh_loop []) refl
      (
        record { drop = dropped_at-IsDrop 1; short = refl },
        (
          record { drop = dropped_at-IsDrop 10; short = refl },
          (record { drop = dropped_at-IsDrop 20; short = refl }, tt),
        ),
      )
      refl (omega arith)

abbrev flapping_policy : ConnectionPolicy
flapping_policy = record two_retries { reset_after = 1; flap_limit = some 2 }

dropped_at-IsFlap : (t : ℕ) → 1 ≤ t → t ≤ 90 → IsFlap flapping_policy 1 (dropped_at t)
dropped_at-IsFlap t h k = record {
  drop = dropped_at-IsDrop t;
  was_live = refl;
  after = omega arith;
  within = omega arith;
}

flaps_are_bounded_example :
    (f : Failure) × ((connect_and_receive flapping_policy
        (dropped_at 1 ∷ dropped_at 40 ∷ [])
        (fresh_loop [])).0
      ≡ failed f)
flaps_are_bounded_example =
    flaps_are_bounded flapping_policy 1 2 (dropped_at 1 ∷ dropped_at 40 ∷ []) (fresh_loop []) refl
      tt
      (
        dropped_at-IsFlap 1 (omega arith) (omega arith),
        (dropped_at-IsFlap 40 (omega arith) (omega arith), tt),
      )
      (omega arith) (omega arith)

-- What a session that was kicked left behind.
abbrev leftovers : Inbox ℕ
leftovers = record {
  in_queue = received 7 ∷ closed_item ∷ [];
  replies = [];
  connection_task = some true;
  closing = true;
}

abbrev two_connections : List (List (Inbound ℕ))
two_connections = (message 1 ∷ heartbeat ∷ bounce ∷ message 9 ∷ []) ∷ (message 2 ∷ []) ∷ []

session_lem_example :
    areceive
      (connection_loop_ends
        (failed agent_was_kicked)
        (receive_session "ASSIGN" two_connections (aconnect leftovers))).in_queue
    ≡ (1 ∷ 2 ∷ [], raised agent_was_kicked)
session_lem_example =
    session_lem "ASSIGN" two_connections (failed agent_was_kicked) leftovers (λ e. cc e)

-- A numbered frame and one without a position, of which the numbered one is discarded.
abbrev leaving : Link
leaving = record {
  channel = record entered { send_queue = "n" ∷ []; unfinished = 1; sending = true };
  client = true;
  connection_task = true;
  closing = false;
}

flushed_before_close_example :
    keep (fresh is_n) (aexit is_n (discarded ∷ asked "u" ∷ taken ∷ sent ∷ []) leaving).channel.wire
    ≡ "u" ∷ []
unfolding flushed run
flushed_before_close_example =
    flushed_before_close is_n (discarded ∷ asked "u" ∷ taken ∷ sent ∷ []) leaving
      (record { one_out = inl refl; counted = refl; gated = λ e. refl }) refl refl
