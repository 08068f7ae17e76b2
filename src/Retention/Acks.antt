-- ===== src/Retention/Acks.antt =====
-- What `add`, `ack` and `open_session` do to what is loaded later.
use rekuest.Prelude.{
  ℕ, max, ◌≤◌, String, ◌≡◌, ◌≢◌, not, ◌&&◌, Option, none, some, [], ◌∷◌, arith, ltb, leb, ◌==◌,
  if◌then◌else◌, string_eq, nat_eq, pair_eq,
}
use rekuest.Prelude.Dict.{Dict, lookup, get_or, lookup-insert, lookup-keep_keys, lookup-set_default}
use rekuest.Retention.{
  SessionId, SyncRow, Tables, acked_pos_of, created_at_of, open_session, add, covers, raise_acked,
  ack, rows,
}
use rekuest.Retention.Load.{lookup-rows}

unfoldable pub raised : Option SyncRow → ℕ → Option SyncRow
raised none pos = none
raised (some row) pos = some (record row { acked_pos = max row.acked_pos pos })

module _ (agent session_id : String) (pos : ℕ) where
  pub lookup-raise_acked :
      (k : SessionId) (sync : Dict SessionId SyncRow)
      → lookup k (raise_acked agent session_id pos sync)
        ≡ (if k == (agent, session_id) then raised (lookup k sync) pos else lookup k sync)
  unfolding lookup raise_acked raised
  lookup-raise_acked (a, s) [] = ground arith
  lookup-raise_acked (a, s) (((b, t), row) ∷ sync) = ground (
    arith,
    lookup-raise_acked (a, s) sync,
    string_eq.beq_iff b agent,
    string_eq.beq_iff t session_id,
    string_eq.beq_iff a agent,
    string_eq.beq_iff s session_id,
    string_eq.beq_iff b a,
    string_eq.beq_iff t s,
  )

  -- An `ack` never lowers the acknowledged position of a session, whatever the order in which acks
  -- arrive, and changes no creation time.
  pub ack-acked_pos-le :
      (db : Tables) (k : SessionId)
      → (acked_pos_of (lookup k db.journal_sync)
          ≤ acked_pos_of (lookup k (ack agent session_id pos db).journal_sync))
        × (created_at_of (lookup k (ack agent session_id pos db).journal_sync)
            ≡ created_at_of (lookup k db.journal_sync))
  unfolding ack raised
  ack-acked_pos-le db k = ground (arith, lookup-raise_acked k db.journal_sync)

  -- An `ack` of a position drops exactly the session's frames up to it from what is loaded: every
  -- other frame, of this session or another, is loaded as before.
  pub lookup-rows-ack :
      (db : Tables) (s : String) (p : ℕ)
      → lookup (s, p) (rows agent (ack agent session_id pos db))
        ≡ (if (s == session_id) && leb p pos then none else lookup (s, p) (rows agent db))
  unfolding ack covers raised
  lookup-rows-ack db s p = ground (
    arith,
    lookup-rows agent db s p,
    lookup-rows agent (ack agent session_id pos db) s p,
    lookup-raise_acked (agent, s) db.journal_sync,
    lookup-keep_keys (λ k. not (covers agent session_id pos k)) (agent, (s, p)) db.journal,
    string_eq.beq_iff agent agent,
  )

  -- An `ack` leaves what other agents load from the same file as it was.
  pub lookup-rows-ack_other :
      (other : String) (db : Tables) (s : String) (p : ℕ)
      → other ≢ agent
      → lookup (s, p) (rows other (ack agent session_id pos db)) ≡ lookup (s, p) (rows other db)
  unfolding ack covers raised
  lookup-rows-ack_other other db s p h = ground (
    arith,
    lookup-rows other db s p,
    lookup-rows other (ack agent session_id pos db) s p,
    lookup-raise_acked (other, s) db.journal_sync,
    lookup-keep_keys (λ k. not (covers agent session_id pos k)) (other, (s, p)) db.journal,
    string_eq.beq_iff other agent,
  )

  -- A frame that is added is loaded, unless its position is acknowledged already; it takes the place
  -- of the frame of its session and position, and all other frames are loaded as before.
  pub lookup-rows-add :
      (frame : String) (db : Tables) (s : String) (p : ℕ)
      → lookup (s, p) (rows agent (add agent session_id pos frame db)) ≡ (
          if (session_id == s) && nat_eq.beq pos p
          then (if ltb (acked_pos_of (lookup (agent, s) db.journal_sync)) p
              then some frame
              else none)
          else lookup (s, p) (rows agent db))
  unfolding add
  lookup-rows-add frame db s p = ground (
    arith,
    lookup-rows agent db s p,
    lookup-rows agent (add agent session_id pos frame db) s p,
    lookup-insert (agent, (session_id, pos)) (agent, (s, p)) frame db.journal,
    string_eq.beq_iff agent agent,
  )

module _ (agent session_id : String) where
  -- The first `open_session` of a session fixes its creation time and acknowledges nothing; a later
  -- one returns that time. The rows of other sessions and the journal stay as they are.
  pub open_session_lem :
      (created_at : ℕ) (db : Tables) (k : SessionId)
      → let fresh : SyncRow = record { created_at = created_at; acked_pos = 0 } in
        let row : SyncRow = get_or (agent, session_id) db.journal_sync fresh in
        let (db', created) = open_session agent session_id created_at db in
        (lookup k db'.journal_sync
          ≡ (if (agent, session_id) == k then some row else lookup k db.journal_sync))
        × (created ≡ row.created_at)
        × (db'.journal ≡ db.journal)
  unfolding open_session
  open_session_lem created_at db k =
      let fresh : SyncRow = record { created_at = created_at; acked_pos = 0 } in
      ground (
        arith,
        lookup-set_default (agent, session_id) k fresh db.journal_sync,
        lookup-set_default (agent, session_id) (agent, session_id) fresh db.journal_sync,
        string_eq.beq_iff agent agent,
        string_eq.beq_iff session_id session_id,
      )
