-- ===== src/Retention.antt =====
-- rekuest/agents/retention.py: the numbered frames that the server has not acknowledged, in SQLite.
-- A table is a dictionary from its primary key to the other columns. A creation time is a number;
-- the code only compares and copies it.
pub mod Load
pub mod Acks
pub mod Contents
mod Examples
use rekuest.Prelude.{
  ℕ, ◌+◌, max, String, Bool, true, false, not, ◌&&◌, ◌||◌, Option, none, some, List, [], ◌∷◌, map,
  leb, ltb, ◌==◌, if◌then◌else◌, string_eq, nat_eq, pair_eq,
}
use rekuest.Prelude.Dict.{Dict, lookup, insert, set_default, keep_keys}
use rekuest.Prelude.Order.{FrameKey, sort_by}

-- `(agent, session_id, pos)`
abbrev pub FrameId : Type 0
FrameId = String × (String × ℕ)

-- `(agent, session_id)`
abbrev pub SessionId : Type 0
SessionId = String × String

pub record SyncRow : Type 0 where
  pub created_at : ℕ
  pub acked_pos : ℕ

pub record Tables : Type 0 where
  pub journal : Dict FrameId String
  pub journal_sync : Dict SessionId SyncRow

pub record StoredFrame : Type 0 where
  pub session_id : String
  pub created_at : ℕ
  pub pos : ℕ
  pub frame : String

-- CREATE TABLE on a fresh file
abbrev pub no_tables : Tables
no_tables = record { journal = []; journal_sync = [] }

-- `COALESCE(s.created_at, 0)` of the joined row
abbrev pub created_at_of : Option SyncRow → ℕ
created_at_of none = 0
created_at_of (some row) = row.created_at

-- `COALESCE(s.acked_pos, 0)` of the joined row
abbrev pub acked_pos_of : Option SyncRow → ℕ
acked_pos_of none = 0
acked_pos_of (some row) = row.acked_pos

module _ (agent : String) where
  -- INSERT OR IGNORE, with `acked_pos` by its default, then SELECT created_at
  unfoldable pub open_session : String → ℕ → Tables → Tables × ℕ
  open_session session_id created_at db =
      let sync =
        set_default (agent, session_id) (record { created_at = created_at; acked_pos = 0 })
          db.journal_sync in
      (record db { journal_sync = sync }, created_at_of (lookup (agent, session_id) sync))

  -- INSERT OR REPLACE
  unfoldable pub add : String → ℕ → String → Tables → Tables
  add session_id pos frame db = record db {
    journal = insert (agent, (session_id, pos)) frame db.journal;
  }

  -- `agent = ? AND session_id = ? AND pos <= ?`
  unfoldable pub covers : String → ℕ → FrameId → Bool
  covers session_id pos (a, (s, p)) = (a == agent) && ((s == session_id) && leb p pos)

  -- UPDATE of the rows with this key, which is the primary key
  unfoldable pub raise_acked : String → ℕ → Dict SessionId SyncRow → Dict SessionId SyncRow
  raise_acked session_id pos [] = []
  raise_acked session_id pos ((k, row) ∷ rows) =
      (if k == (agent, session_id)
        then (k, record row { acked_pos = max row.acked_pos pos })
        else (k, row))
      ∷ raise_acked session_id pos rows

  -- DELETE, then UPDATE, in one transaction
  unfoldable pub ack : String → ℕ → Tables → Tables
  unfolding covers raise_acked
  ack session_id pos db = record {
    journal = keep_keys (λ k. not (covers session_id pos k)) db.journal;
    journal_sync = raise_acked session_id pos db.journal_sync;
  }

-- EXISTS (SELECT 1 FROM journal WHERE agent = … AND session_id = …)
unfoldable pub has_frames : SessionId → Dict FrameId String → Bool
has_frames key [] = false
has_frames key (((a, (s, p)), frame) ∷ rows) = ((a, s) == key) || has_frames key rows

module _ (agent : String) where
  -- `WHERE agent = ? AND session_id != ? AND NOT EXISTS …`; the second is `keep or ""`
  unfoldable pub prunable : Option String → Dict FrameId String → SessionId → Bool
  unfolding has_frames
  prunable keep journal (a, s) =
      let kept : String = elim keep [ none ↦ "" | some session_id ↦ session_id ] in
      (a == agent) && (not (s == kept) && not (has_frames (a, s) journal))

  -- DELETE FROM journal_sync
  unfoldable pub prune : Option String → Tables → Tables
  unfolding prunable
  prune keep db = record db {
    journal_sync = keep_keys (λ k. not (prunable keep db.journal k)) db.journal_sync;
  }

  -- The WHERE of `load`: this agent's frames past the acknowledged position, by session and
  -- position.
  unfoldable pub waiting : Dict SessionId SyncRow → Dict FrameId String → Dict (String × ℕ) String
  waiting sync [] = []
  waiting sync (((a, (s, p)), frame) ∷ rows) =
      if (a == agent) && ltb (acked_pos_of (lookup (a, s) sync)) p
      then ((s, p), frame) ∷ waiting sync rows
      else waiting sync rows

  -- `(COALESCE(s.created_at, 0), j.session_id, j.pos)`
  unfoldable pub order_key : Dict SessionId SyncRow → String × ℕ → FrameKey
  order_key sync (s, p) = (created_at_of (lookup (agent, s) sync), s, p)

  -- The rows of the SELECT, in its order.
  unfoldable pub rows : Tables → Dict (String × ℕ) String
  unfolding waiting order_key
  rows db = sort_by (λ (k, _). order_key db.journal_sync k) (waiting db.journal_sync db.journal)

  -- The row as it is handed out.
  abbrev pub stored : Dict SessionId SyncRow → (String × ℕ) × String → StoredFrame
  stored sync ((s, p), frame) = record {
    session_id = s;
    created_at = created_at_of (lookup (agent, s) sync);
    pos = p;
    frame = frame;
  }

  unfoldable pub load : Tables → List StoredFrame
  unfolding rows
  load db = map (stored db.journal_sync) (rows db)
