-- ===== src/Caller/Calls/Examples.antt =====
-- A call whose task sent a mirror before the answer, and one that is over or cancelled.
use rekuest.Prelude.{
  ℕ, ◌≡◌, ◌≤◌, refl, Bool, none, some, List, [], ◌∷◌, ◌++◌, String, true, false, not, ◌&&◌, arith,
  if◌then◌else◌, string_eq, nat_eq, pair_eq,
}
use rekuest.Prelude.Dict.{get_or}
use rekuest.Caller.{
  Mirror, yield_event, completed_event, ExecutionEvent, AgentPostman, new_postman, Response,
  assigned, stream,
}
use rekuest.Caller.Arrivals.{mirror_came, answer_came, receive, arrived}
use rekuest.Caller.Cancel.{cancel_request, interrupt_request, comes_before, is_cancelled}
use rekuest.Caller.Calls.{
  following, ending, returned, asking, Call, begin_call, advance, cancel, close, queued_at,
}
use rekuest.Caller.Calls.Runs.{World, Reach, new, then_, receives, begins, advances, call_hands_on}
use rekuest.Caller.Calls.Over.{is_over, task_at, IsGone, ended_call-IsGone, cancelled_call_asks}

-- `ℕ` stands for the JSON objects of the messages.
abbrev M : Type 0
M = Mirror ℕ ℕ

abbrev came : ℕ → M → ExecutionEvent ℕ ℕ
came seq mirror = record { task = "t"; seq = seq; mirror = mirror }

abbrev is_last : M → Bool
is_last completed_event = true
is_last _ = false

abbrev answer : Response
answer = record { request = "r"; answer = assigned (some "t"); error = none }

abbrev W : Type 0
W = World ℕ ℕ

abbrev early : W
early = record {
  postman = receive (mirror_came (came 1 (yield_event (some 5)))) new_postman;
  call = none;
  came = came 1 (yield_event (some 5)) ∷ [];
}

abbrev asked : W
asked = record early {
  postman = (begin_call true "r" "ref" early.postman).1;
  call = some (begin_call true "r" "ref" early.postman).0;
}

abbrev answered : W
answered = record asked { postman = receive (answer_came answer) asked.postman }

abbrev follower : Call ℕ ℕ
follower = (advance is_last (begin_call true "r" "ref" early.postman).0 answered.postman).0

abbrev followed : W
followed = record answered {
  postman = (advance is_last (begin_call true "r" "ref" early.postman).0 answered.postman).1;
  call = some follower;
}

followed_reached : Reach is_last "t" followed
followed_reached =
    then_
      (then_
        (then_ (then_ new (receives (mirror_came (came 1 (yield_event (some 5)))) _))
          (begins "r" "ref" early refl))
        (receives (answer_came answer) asked))
      (advances (begin_call true "r" "ref" early.postman).0 answered refl)

call_hands_on_example :
    ((seen : List ℕ)
      → follower.stage ≡ following "t" seen
      → let waiting = stream is_last seen (arrived "t" followed.postman) in
        stream is_last [] followed.came ≡ (follower.handed ++ waiting.0, waiting.1))
    × (follower.stage ≡ ending "t" → stream is_last [] followed.came ≡ (follower.handed, true))
    × (follower.stage ≡ returned "t" → stream is_last [] followed.came ≡ (follower.handed, true))
call_hands_on_example = call_hands_on is_last "t" follower followed_reached refl

-- A call that follows its task, whose queue holds one mirror.
abbrev running : Call ℕ ℕ
running = record { request = "r"; reference = "ref"; stage = following "t" []; handed = [] }

abbrev busy : AgentPostman ℕ ℕ
busy = record new_postman { task_queues = ("t", came 1 completed_event ∷ []) ∷ [] }

ended_call-IsGone_example :
    let (after, p') = advance is_last running busy in
    ((request reference : String)
      → IsGone request reference none (begin_call false request reference busy).1)
    × (is_over after.stage ≡ true → IsGone after.request after.reference (task_at after.stage) p')
    × ((escalate : Bool) (timeout now : ℕ) (later : List (ℕ × M))
        → IsGone "r" "ref" (some "t") (cancel escalate timeout now later running busy).1)
    × ((task : String)
        → task_at running.stage ≡ some task
        → IsGone "r" "ref" (some task) (close running busy).1
          × ((close running busy).2 ≡ cancel_request ∷ []))
ended_call-IsGone_example = ended_call-IsGone is_last running busy refl

cancelled_call_asks_example :
    let (after, p', requests, over_at) = cancel true 5 10 [] running busy in
    (running.stage ≡ asking → (requests ≡ []) × (over_at ≡ 10))
    × ((task : String) (seen : List ℕ)
        → running.stage ≡ following task seen
        → let queued = queued_at 10 (get_or task busy.task_queues []) in
          let in_time = comes_before is_cancelled 15 (queued ++ []) in
          (requests ≡ cancel_request ∷ (if true && not in_time then interrupt_request ∷ [] else []))
          × (over_at ≤ 20))
cancelled_call_asks_example = cancelled_call_asks true 5 10 [] running busy (omega arith) tt
