-- ===== src/Caller/Examples.antt =====
-- A stream whose first events come again.
use rekuest.Prelude.{
  ℕ, ◌≡◌, refl, Bool, some, List, [], ◌∷◌, ◌++◌, String, true, false, string_eq, nat_eq, pair_eq,
}
use rekuest.Caller.{Mirror, yield_event, completed_event, ExecutionEvent, stream}
use rekuest.Caller.Stream.{stream-replay}

-- `ℕ` stands for the JSON objects of the messages.
abbrev M : Type 0
M = Mirror ℕ ℕ

abbrev came : String → ℕ → M → ExecutionEvent ℕ ℕ
came task seq mirror = record { task = task; seq = seq; mirror = mirror }

abbrev is_terminal : M → Bool
is_terminal completed_event = true
is_terminal _ = false

abbrev some_events : List (ExecutionEvent ℕ ℕ)
some_events = came "t" 1 (yield_event (some 5)) ∷ came "t" 2 (yield_event (some 6)) ∷ []

stream-replay_example :
    stream is_terminal [] (some_events ++ (some_events ++ came "t" 3 completed_event ∷ []))
    ≡ stream is_terminal [] (some_events ++ came "t" 3 completed_event ∷ [])
stream-replay_example =
    stream-replay is_terminal some_events some_events (came "t" 3 completed_event ∷ [])
      (refl, (refl, tt))
