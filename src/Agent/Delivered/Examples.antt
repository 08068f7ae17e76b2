-- ===== src/Agent/Delivered/Examples.antt =====
-- A process that starts on an empty file, connects, emits a frame and handles its `Init`.
use rekuest.Prelude.{
  ◌≡◌, ◌++◌, refl, String, true, false, none, some, List, [], contains, string_eq, nat_eq, pair_eq,
}
use rekuest.Prelude.Dict.{lookup}
use rekuest.Retention.{no_tables}
use rekuest.Transport.Channel.{entered, asend, start_sending, stop_sending}
use rekuest.Transport.Channel.Sound.{pending}
use rekuest.Agent.{Frame, other_frame, both_written, process_on, open_store, retain}
use rekuest.Agent.Init.{after_init, after_init_lem}
use rekuest.Agent.Delivered.{
  Host, Reach, starts, then_, emits, connects, handles_init, lookup-retain, open_store-opened,
}
use rekuest.Agent.Delivered.Covered.{IsCovered, Reach-IsCovered, retained_is_sent}

abbrev yielded : Frame
yielded = record { kind = other_frame; task = some "t"; task_step = none; body = "{}" }

abbrev idle : Host
idle = record {
  delivery = open_store (λ text. none) "a" true (process_on no_tables);
  channel = entered;
  before = [];
}

abbrev connected : Host
connected = record idle { channel = start_sending true (stop_sending idle.channel); before = [] }

abbrev emitted : Host
emitted = record connected {
  delivery =
      retain (λ text. none) (λ f. f.body) "a" both_written true 1 "s1" 1 yielded idle.delivery;
  channel = asend "{}" connected.channel;
}

abbrev initialised : Host
initialised = record emitted {
  channel = after_init (λ text. true) (λ f. f.body) emitted.delivery emitted.channel;
}

emitted_reached : Reach (λ text. none) (λ f. f.body) (λ text. true) "a" emitted
emitted_reached =
    then_ (then_ (starts true no_tables) (connects idle))
      (emits both_written true 1 "s1" 1 yielded connected)

held_back : emitted.channel.released ≡ some false
unfolding asend start_sending
held_back = refl

retained_is_sent_example :
    (since : List String) × (initialised.channel.wire ≡ [] ++ since)
    × (contains "{}" (since ++ pending initialised.channel) ≡ true)
retained_is_sent_example =
    retained_is_sent (λ text. none) (λ f. f.body) (λ text. true) "a"
      (then_ emitted_reached (handles_init emitted held_back)) released "s1" 1 yielded held
  where
    covered : IsCovered (λ text. none) (λ f. f.body) (λ text. true) "a" emitted
    covered = Reach-IsCovered (λ text. none) (λ f. f.body) (λ text. true) "a" emitted_reached

    released : initialised.channel.released ≡ some true
    released =
        (after_init_lem (λ text. true) (λ f. f.body) emitted.delivery emitted.channel covered.sound
          held_back).2

    held : lookup ("s1", 1) initialised.delivery.retained ≡ some yielded
    held =
        (lookup-retain (λ text. none) (λ f. f.body) "a" both_written true 1 "s1" 1 yielded
          idle.delivery "s1" 1
          (open_store-opened (λ text. none) (λ f. f.body) "a" true (process_on no_tables))).0
