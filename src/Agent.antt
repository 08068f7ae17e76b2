-- ===== src/Agent.antt =====
-- rekuest/agents/agent.py: the delivery side of the agent. Every numbered frame is retained, in
-- memory and in the store, until an ack covers it, and is sent again after each `Init`.
pub mod Retained
pub mod Kept
pub mod Restart
pub mod Resume
pub mod Init
pub mod Delivered
pub mod Durable
pub mod Inbound
mod Examples
use rekuest.Prelude.{
  ℕ, ◌+◌, max, String, Bool, true, false, not, ◌&&◌, ◌||◌, Option, none, some, List, [], ◌∷◌, ◌++◌,
  map, leb, ◌==◌, if◌then◌else◌, contains, string_eq, nat_eq, pair_eq,
}
use rekuest.Prelude.Dict.{Dict, lookup, insert, set_default, get_or, has, keys, keep_keys}
use rekuest.Prelude.Order.{FrameKey, sort_by}
use rekuest.Retention
use rekuest.Retention.{Tables, StoredFrame, no_tables}
use rekuest.PersistedState.{StateSaver, StateNews, Current, note_state_change}

-- The messages are another package's: a frame has the fields that this file reads. `effect` has the
-- key, the name and the value of an `Effect`.
pub data FrameKind : Type 0 where
  effect : String → String → String → FrameKind
  terminal_report : FrameKind
  state_news : StateNews → FrameKind
  other_frame : FrameKind

pub record Frame : Type 0 where
  pub kind : FrameKind
  pub task : Option String
  pub task_step : Option ℕ
  pub body : String

-- `(session, pos)`
abbrev pub RetainedKey : Type 0
RetainedKey = String × ℕ

-- `RetainedFrames` on the journal's file, or on a database in memory
pub data Store : Type 0 where
  on_disk : Store
  in_memory : Tables → Store

-- `F` are the frames: what keeps them does not look into them.
-- `file` is what the journal's file holds; `store` is `none` until it is opened.
pub record Delivery (F : Type 0) : Type 0 where
  pub retained : Dict RetainedKey F
  pub session_created : Dict String ℕ
  pub file : Tables
  pub store : Option Store

-- Which of the two writes of a handler's `try` block are done: `_know_session` and `add`, or `ack`
-- and `prune`. What raises is logged.
pub data Written : Type 0 where
  both_written second_raised first_raised : Written

-- A new process over a file
unfoldable pub process_on : {F : Type 0} → Tables → Delivery F
process_on file = record { retained = []; session_created = []; file = file; store = none }

unfoldable pub tables_of : {F : Type 0} → Delivery F → Tables
tables_of d = elim d.store [ some (in_memory t) ↦ t | _ ↦ d.file ]

-- A write of the opened store
unfoldable pub write_tables : {F : Type 0} → Tables → Delivery F → Delivery F
write_tables t d = elim d.store [
  | some (in_memory _) ↦ record d { store = some (in_memory t) }
  | _ ↦ record d { file = t }
]

-- The keys `k[0] == session and k[1] <= pos`
unfoldable pub acked : String → ℕ → RetainedKey → Bool
acked session pos (s, p) = (s == session) && leb p pos

-- `any(key[0] == session for key in self._retained)`
unfoldable pub any_of_session : {F : Type 0} → String → Dict RetainedKey F → Bool
any_of_session session [] = false
any_of_session session (((s, p), frame) ∷ rest) = (s == session) || any_of_session session rest

-- `validate_json` and `model_dump_json`; `agent` is `self.name or ""`.
module _ {F : Type 0} (read : String → Option F) (agent : String) where
  -- The loop of `_open_store` over what is loaded. A frame that cannot be read is logged.
  unfoldable pub restore : List StoredFrame → Delivery F → Delivery F
  restore [] d = d
  restore (stored ∷ rest) d = restore rest (elim (read stored.frame) [
    | none ↦ d
    | some frame ↦ record d {
      session_created = set_default stored.session_id stored.created_at d.session_created;
      retained = set_default (stored.session_id, stored.pos) frame d.retained;
    }
  ])

  -- `opens` is false where the file cannot be opened, which is logged.
  unfoldable pub open_store : Bool → Delivery F → Delivery F
  unfolding restore tables_of
  open_store opens d = elim d.store [
    | some s ↦ d
    | none ↦
        let opened = record d { store = some (if opens then on_disk else in_memory no_tables) } in
        restore (Retention.load agent (tables_of opened)) opened
  ]

  unfoldable pub know_session : Bool → ℕ → String → Delivery F → Delivery F
  unfolding open_store write_tables
  know_session opens now session d =
      if has session d.session_created
      then d
      else let opened = open_store opens d in
        let (t, created) = Retention.open_session agent session now (tables_of opened) in
        write_tables t
          (record opened { session_created = insert session created opened.session_created })

  unfoldable pub journal_ack : Written → Bool → String → String → ℕ → Delivery F → Delivery F
  unfolding acked any_of_session open_store write_tables
  journal_ack written opens current_session session pos d =
      let freed = record d { retained = keep_keys (λ k. not (acked session pos k)) d.retained } in
      let opened = open_store opens freed in
      let t = Retention.ack agent session pos (tables_of opened) in
      elim written [
        | first_raised ↦ opened
        | second_raised ↦ write_tables t opened
        | both_written ↦
            write_tables
              (if any_of_session session opened.retained
                then t
                else Retention.prune agent (some current_session) t)
              opened
      ]

module _ {F : Type 0} (read : String → Option F) (dump : F → String) (agent : String) where
  unfoldable pub retain : Written → Bool → ℕ → String → ℕ → F → Delivery F → Delivery F
  unfolding know_session
  retain written opens now session pos frame d =
      let kept = record d { retained = insert (session, pos) frame d.retained } in
      let known = open_store read agent opens (know_session read agent opens now session kept) in
      elim written [
        | first_raised ↦ kept
        | second_raised ↦ known
        | both_written ↦
            write_tables (Retention.add agent session pos (dump frame) (tables_of known)) known
      ]

unfoldable pub resend_key : {F : Type 0} → Delivery F → RetainedKey → FrameKey
resend_key d (s, p) = (get_or s d.session_created 0, s, p)

unfoldable pub resend_order : {F : Type 0} → Delivery F → List RetainedKey
unfolding resend_key
resend_order d = sort_by (resend_key d) (keys d.retained)

-- The frames under the keys of `_resend_order`. Each is there: the keys are the dictionary's.
unfoldable pub frames_at : {F : Type 0} → Dict RetainedKey F → List RetainedKey → List F
frames_at retained [] = []
frames_at retained (k ∷ ks) = elim (lookup k retained) [
  | none ↦ frames_at retained ks
  | some frame ↦ frame ∷ frames_at retained ks
]

-- What `_aresend_retained` sends, and the property `retained`
unfoldable pub retained_frames : {F : Type 0} → Delivery F → List F
unfolding resend_order frames_at
retained_frames d = frames_at d.retained (resend_order d)

-- A frame's news of states, for `_note_state_change`
abbrev pub news_of : FrameKind → StateNews
news_of (state_news n) = n
news_of _ = StateNews.other_news

pub record Agent (J : Type 0) : Type 0 where
  pub delivery : Delivery Frame
  pub saver : StateSaver J

-- The whole of `_retain_emitted`; `entry` is the frame's session and position, `saves` whether a
-- write of the state store succeeds.
module _ {J : Type 0} (read : String → Option Frame) (dump : Frame → String) (dumps : J → String)
    (agent : String) where
  unfoldable pub retain_emitted :
      Written → Bool → Bool → ℕ → Current J → Option RetainedKey → Frame → Agent J → Agent J
  unfolding retain
  retain_emitted written opens saves now current none frame a = a
  retain_emitted written opens saves now current (some (session, pos)) frame a = record {
    delivery = retain read dump agent written opens now session pos frame a.delivery;
    saver = note_state_change dumps agent current saves (news_of frame.kind) a.saver;
  }
