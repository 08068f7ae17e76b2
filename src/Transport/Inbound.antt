-- ===== src/Transport/Inbound.antt =====
-- The inbound side of rekuest/agents/transport/websocket.py: a session's queue of what was received,
-- from `aconnect` to the end of `areceive`. `M` are the backend's messages for the agent.
pub mod Session
use rekuest.Prelude.{
  ℕ, ◌≡◌, refl, sym, ap, ◌∙◌, String, Bool, true, false, not, ◌&&◌, Option, none, some, List, [],
  ◌∷◌, ◌++◌, append-nil, append_assoc, arith, ◌==◌, if◌then◌else◌, All, Option-cases, option_list,
  string_eq, contains, contains-append,
}
use rekuest.Transport.Policy.{Failure, definite, cancelled, Cause, retries_exceeded}
use rekuest.Transport.Loop.{Verdict, connecting, stopped, failed}

-- What JSON that fits no message has in `type` and `task`, if they are there as texts.
pub record Raw : Type 0 where
  pub type_name : Option String
  pub task : Option String

-- A frame from the socket as `json.loads` and `InMessagePayload` see it; the number is
-- `error_count()`.
pub data Inbound (M : Type 0) : Type 0 where
  not_json not_an_object heartbeat bounce : Inbound M
  unreadable : Raw → ℕ → Inbound M
  kick : Option String → Inbound M
  message : M → Inbound M

-- `HeartbeatEvent`, and the `Critical` for a task whose `Assign` could not be read
pub data Reply : Type 0 where
  heartbeat_event : Reply
  critical : String → ℕ → Reply

pub data Raised : Type 0 where
  bounce_error : Raised
  kick_error : String → Raised

-- An item of `_in_queue`
pub data Item (M : Type 0) : Type 0 where
  received : M → Item M
  failure : Failure → Item M
  closed_item : Item M

-- `connection_task` is whether the task is done; `replies` are what `asend` was called with.
pub record Inbox (M : Type 0) : Type 0 where
  pub in_queue : List (Item M)
  pub replies : List Reply
  pub connection_task : Option Bool
  pub closing : Bool

-- How `areceive` ends: it returns, it raises, or it still waits.
pub data Outcome : Type 0 where
  returned waits : Outcome
  raised : Failure → Outcome

-- How a session ends for whoever receives.
abbrev pub outcome_of : Verdict → Outcome
outcome_of connecting = waits
outcome_of stopped = returned
outcome_of (failed cancelled) = returned
outcome_of (failed f) = raised f

-- `reason or 'No reason provided'`
abbrev kick_reason : Option String → String
kick_reason none = "No reason provided"
kick_reason (some reason) = if reason == "" then "No reason provided" else reason

-- `assign` is the value of `ToAgentMessageType.ASSIGN`.
module _ (assign : String) where
  unfoldable pub refuse_unreadable_assign : Raw → ℕ → List Reply
  refuse_unreadable_assign raw errors = elim raw.type_name [
    | none ↦ []
    | some t ↦
        if t == assign
        then (elim raw.task [ none ↦ [] | some task ↦ critical task errors ∷ [] ])
        else []
  ]

  module _ {M : Type 0} where
    unfoldable pub handle_inbound : Inbound M → Inbox M → Inbox M × Option Raised
    unfolding refuse_unreadable_assign
    handle_inbound not_json box = (box, none)
    handle_inbound not_an_object box = (box, none)
    handle_inbound (unreadable raw errors) box =
        (record box { replies = box.replies ++ refuse_unreadable_assign raw errors }, none)
    handle_inbound heartbeat box =
        (record box { replies = box.replies ++ heartbeat_event ∷ [] }, none)
    handle_inbound bounce box = (box, some bounce_error)
    handle_inbound (kick reason) box = (box, some (kick_error (kick_reason reason)))
    handle_inbound (message m) box =
        (record box { in_queue = box.in_queue ++ received m ∷ [] }, none)

    -- The `async for` of one connection, up to the frame that raises.
    unfoldable pub receive_frames : List (Inbound M) → Inbox M → Inbox M × Option Raised
    unfolding handle_inbound
    receive_frames [] box = (box, none)
    receive_frames (frame ∷ rest) box =
        let (box', raises) = handle_inbound frame box in
        let later = receive_frames rest box' in
        elim raises [ none ↦ later | some r ↦ (box', some r) ]

    -- The frames of each connection of a session in turn.
    unfoldable pub receive_session : List (List (Inbound M)) → Inbox M → Inbox M
    unfolding receive_frames
    receive_session [] box = box
    receive_session (frames ∷ rest) box = receive_session rest (receive_frames frames box).0

module _ {M : Type 0} where
  unfoldable pub aconnect : Inbox M → Inbox M
  aconnect box = elim box.connection_task [
    | some false ↦ record box { closing = false }
    | _ ↦ record box { closing = false; connection_task = some false; in_queue = [] }
  ]

  -- What `_aconnection_loop` puts behind the messages as the loop ends.
  abbrev pub farewell : Verdict → List (Item M)
  farewell connecting = []
  farewell stopped = closed_item ∷ []
  farewell (failed cancelled) = closed_item ∷ []
  farewell (failed f) = failure f ∷ closed_item ∷ []

  unfoldable pub connection_loop_ends : Verdict → Inbox M → Inbox M
  connection_loop_ends connecting box = box
  connection_loop_ends verdict box = record box {
    in_queue = box.in_queue ++ farewell verdict;
    connection_task = some true;
  }

  unfoldable pub areceive : List (Item M) → List M × Outcome
  areceive [] = ([], waits)
  areceive (received m ∷ rest) = let (later, outcome) = areceive rest in (m ∷ later, outcome)
  areceive (failure f ∷ rest) = ([], raised f)
  areceive (closed_item ∷ rest) = ([], returned)

  -- The messages among a connection's frames, up to one that raises.
  abbrev pub delivered : List (Inbound M) → List M
  delivered [] = []
  delivered (message m ∷ rest) = m ∷ delivered rest
  delivered (bounce ∷ rest) = []
  delivered (kick reason ∷ rest) = []
  delivered (_ ∷ rest) = delivered rest

  abbrev pub all_delivered : List (List (Inbound M)) → List M
  all_delivered [] = []
  all_delivered (frames ∷ rest) = delivered frames ++ all_delivered rest
