-- ===== src/Transport/Channel.antt =====
-- The outbound side of rekuest/agents/transport/websocket.py: the send queue, the frame that is held
-- for the next connection, and the sender task of the live connection.
pub mod Sound
pub mod Discard
pub mod Order
use rekuest.Prelude.{
  ℕ, ◌+◌, ◌-◌, String, Bool, true, false, not, ◌&&◌, Option, none, some, List, [], ◌∷◌, ◌++◌,
  if◌then◌else◌, length,
}

-- `unfinished` is the queue's count behind `join()`, `in_flight` the frame that the sender task has
-- taken and not yet sent, and `wire` the frames whose `client.send` has returned.
pub record Channel : Type 0 where
  pub send_queue : List String
  pub held : Option String
  pub in_flight : Option String
  pub unfinished : ℕ
  pub released : Option Bool
  pub sending : Bool
  pub wire : List String

-- A transport that was entered
abbrev pub entered : Channel
entered = record {
  send_queue = [];
  held = none;
  in_flight = none;
  unfinished = 0;
  released = none;
  sending = false;
  wire = [];
}

-- `delayaction`, on the frame's text
unfoldable pub asend : String → Channel → Channel
asend frame ch = record ch {
  send_queue = ch.send_queue ++ frame ∷ [];
  unfinished = ch.unfinished + 1;
}

-- A connection that has registered gets its own event and its own sender task.
unfoldable pub start_sending : Bool → Channel → Channel
start_sending holds_sends_until_init ch = record ch {
  released = some (not holds_sends_until_init);
  sending = true;
}

unfoldable pub release_sends : Channel → Channel
release_sends ch = elim ch.released [ none ↦ ch | some set ↦ record ch { released = some true } ]

-- `if self._released is not None: await self._released.wait()`
abbrev pub may_send : Option Bool → Bool
may_send none = true
may_send (some set) = set

-- `self._send_queue.get()`: with an empty queue the sender waits.
unfoldable pub get_next : List String → Channel → Channel
get_next [] ch = ch
get_next (frame ∷ rest) ch = record ch { send_queue = rest; in_flight = some frame }

-- The head of the sender's loop: the held frame first, then the queue.
unfoldable pub take_frame : Channel → Channel
unfolding get_next
take_frame ch =
    if ch.sending && may_send ch.released
    then (elim ch.in_flight [
      | some frame ↦ ch
      | none ↦ elim ch.held [
        | some frame ↦ record ch { held = none; in_flight = some frame }
        | none ↦ get_next ch.send_queue ch
      ]
    ])
    else ch

-- `client.send` returned.
unfoldable pub frame_sent : Channel → Channel
frame_sent ch = elim ch.in_flight [
  | none ↦ ch
  | some frame ↦ record ch {
    wire = ch.wire ++ frame ∷ [];
    unfinished = ch.unfinished - 1;
    in_flight = none;
  }
]

unfoldable pub requeue : Channel → Channel
requeue ch = elim ch.in_flight [
  | none ↦ ch
  | some frame ↦ record ch { held = some frame; in_flight = none }
]

-- `client.send` raised, or the task was cancelled: both requeue, and the task ends.
unfoldable pub stop_sending : Channel → Channel
unfolding requeue
stop_sending ch = record (requeue ch) { sending = false }

-- The loop of `discard_journaled` that empties the queue: the frames that are kept, and how many
-- were taken off and dropped.
unfoldable pub drain : (String → Bool) → List String → List String × ℕ
drain journaled [] = ([], 0)
drain journaled (frame ∷ rest) =
    let (kept, dropped) = drain journaled rest in
    if journaled frame then (kept, dropped + 1) else (frame ∷ kept, dropped)

-- The held frame, if it carries a position: dropped, and done.
unfoldable pub drop_held : (String → Bool) → Channel → Channel × ℕ
drop_held journaled ch = elim ch.held [
  | none ↦ (ch, 0)
  | some frame ↦
      if journaled frame
      then (record ch { held = none; unfinished = ch.unfinished - 1 }, 1)
      else (ch, 0)
]

-- `get_nowait` and `task_done` for each frame, then `put_nowait` for each kept one.
unfoldable pub discard_journaled : (String → Bool) → Channel → Channel × ℕ
unfolding drain drop_held
discard_journaled journaled ch =
    let (ch', dropped) = drop_held journaled ch in
    let (kept, fell) = drain journaled ch'.send_queue in
    (
      record ch' {
        send_queue = kept;
        unfinished = ch'.unfinished - (length kept + fell) + length kept;
      },
      dropped + fell,
    )

-- What happens to a channel.
pub data Event : Type 0 where
  asked : String → Event
  connected : Bool → Event
  init_handled taken sent stopped discarded : Event

unfoldable pub step : (String → Bool) → Event → Channel → Channel
unfolding asend start_sending release_sends take_frame frame_sent stop_sending discard_journaled
step journaled (asked frame) ch = asend frame ch
step journaled (connected holds) ch = start_sending holds (stop_sending ch)
step journaled init_handled ch = release_sends ch
step journaled taken ch = take_frame ch
step journaled sent ch = frame_sent ch
step journaled stopped ch = stop_sending ch
step journaled discarded ch = (discard_journaled journaled ch).0

unfoldable pub run : (String → Bool) → List Event → Channel → Channel
unfolding step
run journaled [] ch = ch
run journaled (e ∷ es) ch = run journaled es (step journaled e ch)

-- The frames that the host asked to send, in order.
abbrev pub asked_frames : List Event → List String
asked_frames [] = []
asked_frames (asked frame ∷ es) = frame ∷ asked_frames es
asked_frames (_ ∷ es) = asked_frames es
