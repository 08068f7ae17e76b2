-- ===== src/PersistedState.antt =====
-- rekuest/agents/persisted_state.py, and the part of rekuest/agents/agent.py that keeps the last
-- value of each state that opted in. The table's primary key is `(agent, state_name)`.
pub mod Saved
pub mod Closed
pub mod Reopened
mod Examples
use rekuest.Prelude.{
  ℕ, String, Bool, true, false, not, ◌&&◌, Option, none, some, List, [], ◌∷◌, ◌==◌, if◌then◌else◌,
  keep, contains, length, nat_eq, string_eq, pair_eq,
}
use rekuest.Prelude.Dict.{Dict, lookup, insert, has, keys}

pub record StoredState : Type 0 where
  pub state_name : String
  pub schema_hash : String
  pub session_id : String
  pub global_rev : ℕ
  pub value : String

abbrev pub StateTable : Type 0
StateTable = Dict (String × String) StoredState

-- INSERT OR REPLACE
unfoldable pub put : String → StoredState → StateTable → StateTable
put agent state table = insert (agent, state.state_name) state table

-- SELECT … WHERE agent = ?, as a dictionary by state
unfoldable pub load : String → StateTable → Dict String StoredState
load agent [] = []
load agent (((a, name), state) ∷ rest) =
    if a == agent then (name, state) ∷ load agent rest else load agent rest

-- `persist="synchronous"`, or a period
pub data Policy : Type 0 where
  synchronous : Policy
  every : ℕ → Policy

-- What the agent keeps about its persisted states. `file` is the SQLite file, and `opened` says
-- whether `_state_store` is set.
pub record StateSaver (J : Type 0) : Type 0 where
  pub file : StateTable
  pub opened : Bool
  pub policies : Dict String Policy
  pub hashes : Dict String String
  pub previous : Dict String J
  pub dirty : List String

-- What a numbered frame says of states: `StatePatch`, `SessionInit`, or any other message.
pub data StateNews : Type 0 where
  state_patch : String → StateNews
  session_init : StateNews
  other_news : StateNews

-- What the base agent holds when a value is taken: `_current_shrunk_states`, the session and the
-- revision.
pub record Current (J : Type 0) : Type 0 where
  pub shrunk_states : Dict String J
  pub session : String
  pub global_revision : ℕ

-- `_dirty_states.add`
unfoldable pub mark_dirty : {J : Type 0} → String → StateSaver J → StateSaver J
mark_dirty interface st =
    if contains interface st.dirty then st else record st { dirty = interface ∷ st.dirty }

module _ {J : Type 0} (dumps : J → String) (agent : String) where
  -- A dirty state has a policy, and each policy's state has a hash: the text "" is never used.
  unfoldable pub stored_state : Current J → StateSaver J → String → J → StoredState
  stored_state now st interface shrunk = record {
    state_name = interface;
    schema_hash = elim (lookup interface st.hashes) [ none ↦ "" | some h ↦ h ];
    session_id = now.session;
    global_rev = now.global_revision;
    value = dumps shrunk;
  }

  -- A state's value to write, if it changed.
  unfoldable pub take_dirty_state :
      Current J → String → StateSaver J → StateSaver J × Option StoredState
  unfolding stored_state
  take_dirty_state now interface st =
      if contains interface st.dirty
      then (
        record st { dirty = keep (λ i. not (i == interface)) st.dirty },
        elim (lookup interface now.shrunk_states) [
          | none ↦ none
          | some shrunk ↦ some (stored_state now st interface shrunk)
        ],
      )
      else (st, none)

  -- `ok` is false where the write raises, which is logged.
  unfoldable pub write_state : Bool → StoredState → StateSaver J → StateSaver J
  unfolding put
  write_state ok state st =
      if st.opened then (if ok then record st { file = put agent state st.file } else st) else st

  unfoldable pub write_taken : Bool → StateSaver J × Option StoredState → StateSaver J
  unfolding write_state
  write_taken ok (st, none) = st
  write_taken ok (st, some state) = write_state ok state st

  -- One round of `_aflush_state_loop`.
  unfoldable pub flush_state : Current J → Bool → String → StateSaver J → StateSaver J
  unfolding take_dirty_state write_taken
  flush_state now ok interface st = write_taken ok (take_dirty_state now interface st)

  -- The body of the loop of `_note_state_change`.
  unfoldable pub note_changed : Current J → Bool → String → StateSaver J → StateSaver J
  unfolding mark_dirty flush_state
  note_changed now ok interface st = elim (lookup interface st.policies) [
    | none ↦ st
    | some synchronous ↦ flush_state now ok interface (mark_dirty interface st)
    | some (every period) ↦ mark_dirty interface st
  ]

  unfoldable pub note_all : Current J → Bool → List String → StateSaver J → StateSaver J
  unfolding note_changed
  note_all now ok [] st = st
  note_all now ok (interface ∷ rest) st = note_all now ok rest (note_changed now ok interface st)

  unfoldable pub note_state_change : Current J → Bool → StateNews → StateSaver J → StateSaver J
  unfolding note_all
  note_state_change now ok (state_patch name) st =
      if st.opened then note_all now ok (name ∷ []) st else st
  note_state_change now ok session_init st =
      if st.opened then note_all now ok (keys st.policies) st else st
  note_state_change now ok other_news st = st

  -- The end of `_open_state_store`: each stored value whose state still opts in, with the same ports.
  -- `hashes` has one for each policy; `loads` reads what `dumps` wrote.
  unfoldable pub previous_states :
      (String → J)
      → Dict String Policy
      → Dict String String
      → Dict String StoredState
      → Dict String J
      → Dict String J
  previous_states loads policies hashes [] found = found
  previous_states loads policies hashes ((interface, state) ∷ rest) found =
      previous_states loads policies hashes rest (
        if has interface policies
        then (elim (lookup interface hashes) [
          | none ↦ found
          | some h ↦
              if state.schema_hash == h then insert interface (loads state.value) found else found
        ])
        else found)

  -- `policies` are the registry's states that opt in, `hashes` those of their ports; `has_file` says
  -- that the journal is kept in a file, and `opens` that the store could be opened and read.
  unfoldable pub open_state_store :
      (String → J)
      → Dict String Policy
      → Dict String String
      → Bool
      → Bool
      → StateSaver J
      → StateSaver J
  unfolding load previous_states
  open_state_store loads policies hashes has_file opens st =
      if st.opened
      then st
      else if nat_eq.beq (length policies) 0
      then st
      else if has_file && opens
      then record st {
        opened = true;
        policies = policies;
        hashes = hashes;
        previous = previous_states loads policies hashes (load agent st.file) [];
      }
      else st

  -- What a flusher does once it is told to stop. One that waits for its period runs a last round. One
  -- whose write is under way, of a value that it took earlier, finds the flag set when the write has
  -- landed, and ends.
  unfoldable pub stop_flusher :
      Current J → Bool → Option (Current J × J) → String → StateSaver J → StateSaver J
  unfolding flush_state write_state stored_state
  stop_flusher now ok none interface st = flush_state now ok interface st
  stop_flusher now ok (some (earlier, shrunk)) interface st =
      write_state ok (stored_state earlier st interface shrunk) st

  -- The flushers, of the states with a period
  unfoldable pub flush_all :
      Current J
      → Bool
      → Dict String (Current J × J)
      → Dict String Policy
      → StateSaver J
      → StateSaver J
  unfolding stop_flusher
  flush_all now ok writing [] st = st
  flush_all now ok writing ((interface, synchronous) ∷ rest) st = flush_all now ok writing rest st
  flush_all now ok writing ((interface, every period) ∷ rest) st =
      flush_all now ok writing rest (stop_flusher now ok (lookup interface writing) interface st)

  -- `_aclose_state_store`; `writing` are the values whose writes are under way as it begins.
  unfoldable pub close_state_store :
      Current J → Bool → Dict String (Current J × J) → StateSaver J → StateSaver J
  unfolding flush_all
  close_state_store now ok writing st =
      let flushed = flush_all now ok writing st.policies st in record flushed { opened = false }
