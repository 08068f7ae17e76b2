-- ===== src/Retention/Contents.antt =====
-- What the store hands out is decided by what its tables hold: SQLite may keep their rows in any order.
pub mod Decides
pub mod Abstract
use rekuest.Prelude.{
  ℕ, String, ◌≡◌, refl, sym, ap, ◌∙◌, inl, inr, Bool, true, false, not, ◌&&◌, ◌||◌, Option, none,
  some, [], ◌∷◌, List, arith, ◌==◌, if◌then◌else◌, Bool-cases, string_eq, nat_eq, pair_eq, max,
}
use rekuest.Prelude.Dict.{
  Dict, lookup, keep_keys, lookup-insert, lookup-keep_keys, lookup-set_default,
}
use rekuest.Prelude.Sorted.{
  UniqueKeys, UniqueKeys-insert, UniqueKeys-set_default, UniqueKeys-keep_keys,
}
use rekuest.Retention.Acks.{raised, lookup-raise_acked}
use rekuest.Retention.{
  FrameId, SessionId, SyncRow, Tables, open_session, add, covers, raise_acked, ack, has_frames,
  prunable, prune,
}

pub record HasPrimaryKeys (db : Tables) : Type 0 where
  pub of_journal : UniqueKeys db.journal
  pub of_sync : UniqueKeys db.journal_sync

-- The same rows, in whatever order
pub record SameContents (db db' : Tables) : Type 0 where
  pub journal : (k : FrameId) → lookup k db.journal ≡ lookup k db'.journal
  pub sync : (k : SessionId) → lookup k db.journal_sync ≡ lookup k db'.journal_sync

-- The statements that write
pub data Statement : Type 0 where
  opens : String → ℕ → Statement
  adds : String → ℕ → String → Statement
  acks : String → ℕ → Statement
  prunes : Option String → Statement

module _ (agent : String) where
  unfoldable pub execute : Statement → Tables → Tables
  unfolding open_session add ack prune
  execute (opens session_id created_at) db = (open_session agent session_id created_at db).0
  execute (adds session_id pos frame) db = add agent session_id pos frame db
  execute (acks session_id pos) db = ack agent session_id pos db
  execute (prunes keep) db = prune agent keep db

  unfoldable pub execute_all : List Statement → Tables → Tables
  unfolding execute
  execute_all [] db = db
  execute_all (statement ∷ rest) db = execute_all rest (execute statement db)

  UniqueKeys-raise_acked :
      (session_id : String) (pos : ℕ) (d : Dict SessionId SyncRow)
      → UniqueKeys d
      → UniqueKeys (raise_acked agent session_id pos d)
  unfolding raise_acked raised
  UniqueKeys-raise_acked session_id pos [] u = tt
  UniqueKeys-raise_acked session_id pos ((j, row) ∷ d) u =
      elim (Bool-cases (j == (agent, session_id))) [
        | inl hit ↦ rw hit (gone j d u.0, UniqueKeys-raise_acked session_id pos d u.1)
        | inr miss ↦ rw miss (gone j d u.0, UniqueKeys-raise_acked session_id pos d u.1)
      ]
    where
      gone :
          (k : SessionId) (d : Dict SessionId SyncRow)
          → lookup k d ≡ none
          → lookup k (raise_acked agent session_id pos d) ≡ none
      gone k d h = ground (arith, h, lookup-raise_acked agent session_id pos k d)

  pub execute-HasPrimaryKeys :
      (statement : Statement) (db : Tables)
      → HasPrimaryKeys db
      → HasPrimaryKeys (execute statement db)
  unfolding execute open_session add ack prune
  execute-HasPrimaryKeys (opens session_id created_at) db u = record {
    of_journal = u.of_journal;
    of_sync = UniqueKeys-set_default (agent, session_id) _ db.journal_sync u.of_sync;
  }
  execute-HasPrimaryKeys (adds session_id pos frame) db u = record {
    of_journal = UniqueKeys-insert (agent, (session_id, pos)) frame db.journal u.of_journal;
    of_sync = u.of_sync;
  }
  execute-HasPrimaryKeys (acks session_id pos) db u = record {
    of_journal = UniqueKeys-keep_keys _ db.journal u.of_journal;
    of_sync = UniqueKeys-raise_acked session_id pos db.journal_sync u.of_sync;
  }
  execute-HasPrimaryKeys (prunes keep) db u = record {
    of_journal = u.of_journal;
    of_sync = UniqueKeys-keep_keys _ db.journal_sync u.of_sync;
  }

  -- A session has frames if the journal finds one of them.
  has_frames-found :
      (a s f : String) (p : ℕ) (d : Dict FrameId String)
      → lookup (a, (s, p)) d ≡ some f
      → has_frames (a, s) d ≡ true
  unfolding lookup has_frames
  has_frames-found a s f p [] h = absurd (cc h)
  has_frames-found a s f p (((b, (t, q)), frame) ∷ d) h =
      ground (arith, h, has_frames-found a s f p d)

  found-has_frames :
      (a s : String) (d : Dict FrameId String)
      → has_frames (a, s) d ≡ true
      → (p : ℕ) × (f : String) × (lookup (a, (s, p)) d ≡ some f)
  unfolding lookup has_frames
  found-has_frames a s [] h = absurd (cc h)
  found-has_frames a s (((b, (t, q)), frame) ∷ d) h = elim (Bool-cases ((b == a) && (t == s))) [
    | inl hit ↦ (q, frame, ground (arith, hit, nat_eq.beq_iff q q))
    | inr miss ↦
        let (p, f, e) = found-has_frames a s d (ground (arith, h, miss)) in
        (p, f, ground (arith, e, miss))
  ]

  has_frames-same :
      (a s : String) (d d' : Dict FrameId String)
      → ((k : FrameId) → lookup k d ≡ lookup k d')
      → has_frames (a, s) d ≡ has_frames (a, s) d'
  has_frames-same a s d d' same = elim (Bool-cases (has_frames (a, s) d)) [
    | inl there ↦
        let (p, f, e) = found-has_frames a s d there in
        there ∙ sym (has_frames-found a s f p d' (sym (same (a, (s, p))) ∙ e))
    | inr gone ↦ elim (Bool-cases (has_frames (a, s) d')) [
      | inl there ↦
          let (p, f, e) = found-has_frames a s d' there in
          absurd (ground (arith, gone, has_frames-found a s f p d (same (a, (s, p)) ∙ e)))
      | inr gone' ↦ gone ∙ sym gone'
    ]
  ]

  prunable-same :
      (keep : Option String) (a s : String) (d d' : Dict FrameId String)
      → ((k : FrameId) → lookup k d ≡ lookup k d')
      → prunable agent keep d (a, s) ≡ prunable agent keep d' (a, s)
  unfolding prunable
  prunable-same keep a s d d' same = ground (arith, has_frames-same a s d d' same)

  pub execute-SameContents :
      (statement : Statement) (db db' : Tables)
      → SameContents db db'
      → SameContents (execute statement db) (execute statement db')
  unfolding execute open_session add ack prune
  execute-SameContents (opens session_id created_at) db db' same = record {
    journal = same.journal;
    sync = λ k.
        lookup-set_default (agent, session_id) k _ db.journal_sync
        ∙ ground (arith, same.sync (agent, session_id), same.sync k)
        ∙ sym (lookup-set_default (agent, session_id) k _ db'.journal_sync);
  }
  execute-SameContents (adds session_id pos frame) db db' same = record {
    journal = λ k.
        lookup-insert (agent, (session_id, pos)) k frame db.journal
        ∙ ap (λ o. if (agent, (session_id, pos)) == k then some frame else o) (same.journal k)
        ∙ sym (lookup-insert (agent, (session_id, pos)) k frame db'.journal);
    sync = same.sync;
  }
  execute-SameContents (acks session_id pos) db db' same = record {
    journal = λ k.
        let kept : FrameId → Bool = λ j. not (covers agent session_id pos j) in
        lookup-keep_keys kept k db.journal
        ∙ ap (λ o. if kept k then o else none) (same.journal k)
        ∙ sym (lookup-keep_keys kept k db'.journal);
    sync = λ k.
        lookup-raise_acked agent session_id pos k db.journal_sync
        ∙ ap (λ o. if k == (agent, session_id) then raised o pos else o) (same.sync k)
        ∙ sym (lookup-raise_acked agent session_id pos k db'.journal_sync);
  }
  execute-SameContents (prunes keep) db db' same = record {
    journal = same.journal;
    sync = λ k.
        let kept = λ (d : Dict FrameId String) (j : SessionId). not (prunable agent keep d j) in
        lookup-keep_keys (kept db.journal) k db.journal_sync
        ∙ ground
            (arith, same.sync k, prunable-same keep k.0 k.1 db.journal db'.journal same.journal)
        ∙ sym (lookup-keep_keys (kept db'.journal) k db'.journal_sync);
  }
