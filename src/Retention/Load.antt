-- ===== src/Retention/Load.antt =====
-- What `load` hands out, and that `prune` does not change it.
use rekuest.Prelude.{
  ℕ, String, ◌≡◌, refl, sym, ap, ◌∙◌, inl, inr, true, false, not, ◌&&◌, Option, none, [], ◌∷◌, map,
  arith, ltb, ◌==◌, if◌then◌else◌, Bool-cases, All, All-map, map_congr, string_eq, nat_eq, pair_eq,
}
use rekuest.Prelude.Dict.{Dict, lookup, lookup-keep_keys}
use rekuest.Prelude.Order.{
  key_le, key_le_refl, key_le_total, key_le_trans, sort_by, sort_by_congr, All-sort, IsOrdered,
  lookup-sort, sort-IsOrdered,
}
use rekuest.Retention.{
  FrameId, SessionId, SyncRow, Tables, acked_pos_of, created_at_of, has_frames, prune, prunable,
  waiting, order_key, rows, stored, load,
}

module _ (agent : String) where
  pub lookup-waiting :
      (sync : Dict SessionId SyncRow) (journal : Dict FrameId String) (s : String) (p : ℕ)
      → lookup (s, p) (waiting agent sync journal) ≡ (
          if ltb (acked_pos_of (lookup (agent, s) sync)) p
          then lookup (agent, (s, p)) journal
          else none)
  unfolding waiting lookup
  lookup-waiting sync [] s p = ground arith
  lookup-waiting sync (((a, (t, q)), frame) ∷ rest) s p = ground (
    arith,
    lookup-waiting sync rest s p,
    string_eq.beq_iff a agent,
    string_eq.beq_iff t s,
    nat_eq.beq_iff q p,
  )

  -- `load` holds exactly this agent's frames past the position that is acknowledged for their
  -- session: of each session and position it has the frame of the table, or none.
  pub lookup-rows :
      (db : Tables) (s : String) (p : ℕ)
      → lookup (s, p) (rows agent db) ≡ (
          if ltb (acked_pos_of (lookup (agent, s) db.journal_sync)) p
          then lookup (agent, (s, p)) db.journal
          else none)
  unfolding rows
  lookup-rows db s p =
      lookup-sort _ (λ k v w. key_le_refl (order_key agent db.journal_sync k)) (s, p)
        (waiting agent db.journal_sync db.journal)
      ∙ lookup-waiting db.journal_sync db.journal s p

  -- `load` hands its frames out by the creation time of their session, then by session, then by position.
  pub rows-IsOrdered :
      (db : Tables)
      → IsOrdered
          (λ (k, _) (j, _).
            key_le (order_key agent db.journal_sync k) (order_key agent db.journal_sync j))
          (rows agent db)
  unfolding rows
  rows-IsOrdered db =
      sort-IsOrdered _ (λ (k, _) (j, _). key_le_total (key k) (key j))
        (λ (k, _) (j, _) (i, _). key_le_trans (key k) (key j) (key i))
        (waiting agent db.journal_sync db.journal)
    where
      key : String × ℕ → ℕ × String × ℕ
      key = order_key agent db.journal_sync

-- Tables of sessions that agree on every session with a frame.
abbrev Agree : Dict FrameId String → Dict SessionId SyncRow → Dict SessionId SyncRow → Type 0
Agree journal sync sync' =
    (k : SessionId) → has_frames k journal ≡ true → lookup k sync ≡ lookup k sync'

module _ (row : FrameId × String) (journal : Dict FrameId String)
    (sync sync' : Dict SessionId SyncRow) (agree : Agree (row ∷ journal) sync sync') where
  Agree-tail : Agree journal sync sync'
  unfolding has_frames
  Agree-tail k e = agree k (ground arith)

  Agree-head : lookup (row.0.0, row.0.1.0) sync ≡ lookup (row.0.0, row.0.1.0) sync'
  unfolding has_frames
  Agree-head =
      agree (row.0.0, row.0.1.0)
        (ground (arith, string_eq.beq_iff row.0.0 row.0.0, string_eq.beq_iff row.0.1.0 row.0.1.0))

module _ (agent : String) where
  waiting_congr :
      (journal : Dict FrameId String) (sync sync' : Dict SessionId SyncRow)
      → Agree journal sync sync'
      → waiting agent sync journal ≡ waiting agent sync' journal
  unfolding waiting
  waiting_congr [] sync sync' h = refl
  waiting_congr (((a, (t, q)), frame) ∷ rest) sync sync' h =
      let row : FrameId × String = ((a, (t, q)), frame) in
      rw (
        Agree-head row rest sync sync' h,
        waiting_congr rest sync sync' (Agree-tail row rest sync sync' h),
      )

  -- Each waiting frame is listed with a session on which the tables agree.
  abbrev AgreeAt : Dict SessionId SyncRow → Dict SessionId SyncRow → (String × ℕ) × String → Type 0
  AgreeAt sync sync' e = lookup (agent, e.0.0) sync ≡ lookup (agent, e.0.0) sync'

  waiting-AgreeAt :
      (journal : Dict FrameId String) (sync sync' : Dict SessionId SyncRow)
      → Agree journal sync sync'
      → All (AgreeAt sync sync') (waiting agent sync journal)
  unfolding waiting
  waiting-AgreeAt [] sync sync' h = tt
  waiting-AgreeAt (((a, (t, q)), frame) ∷ rest) sync sync' h =
      let row : FrameId × String = ((a, (t, q)), frame) in
      let ih = waiting-AgreeAt rest sync sync' (Agree-tail row rest sync sync' h) in
      let here = Agree-head row rest sync sync' h in
      ground (arith, ih, here, string_eq.beq_iff a agent)

  All-waiting {κ} :
      (P : String → Type κ) (sync : Dict SessionId SyncRow) (journal : Dict FrameId String)
      → All (λ row. row.0.0 ≡ agent → P row.1) journal
      → All (λ e. P e.1) (waiting agent sync journal)
  unfolding waiting
  All-waiting P sync [] h = tt
  All-waiting P sync (((a, (t, q)), frame) ∷ rest) h =
      elim (Bool-cases ((a == agent) && ltb (acked_pos_of (lookup (a, t) sync)) q)) [
        | inl e ↦
            rw e (h.0 ((string_eq.beq_iff a agent).0 (ground arith)), All-waiting P sync rest h.1)
        | inr e ↦ rw e (All-waiting P sync rest h.1)
      ]

  -- The rows are selected alike.
  rows_congr :
      (journal : Dict FrameId String) (sync sync' : Dict SessionId SyncRow)
      → Agree journal sync sync'
      → rows agent (record { journal = journal; journal_sync = sync })
        ≡ rows agent (record { journal = journal; journal_sync = sync' })
  unfolding rows
  rows_congr journal sync sync' h =
      sort_by_congr (λ e. order_key agent sync e.0) (λ e. order_key agent sync' e.0)
        (waiting agent sync journal)
        (All-map (λ e p. ap (λ o. (created_at_of o, e.0.0, e.0.1)) p) (waiting agent sync journal)
          (waiting-AgreeAt journal sync sync' h))
      ∙ ap (sort_by (λ e. order_key agent sync' e.0)) (waiting_congr journal sync sync' h)

  -- And they are handed out alike.
  load_congr :
      (journal : Dict FrameId String) (sync sync' : Dict SessionId SyncRow)
      → Agree journal sync sync'
      → load agent (record { journal = journal; journal_sync = sync })
        ≡ load agent (record { journal = journal; journal_sync = sync' })
  unfolding load
  load_congr journal sync sync' h =
      map_congr (stored agent sync) (stored agent sync') _ (
        unfold rows in
        All-sort _ (λ e. stored agent sync e ≡ stored agent sync' e) (waiting agent sync journal)
          (All-map
            (λ e p.
              ap
                (λ o. record {
                  session_id = e.0.0;
                  created_at = created_at_of o;
                  pos = e.0.1;
                  frame = e.1;
                })
                p)
            (waiting agent sync journal) (waiting-AgreeAt journal sync sync' h)))
      ∙ ap (map (stored agent sync')) (rows_congr journal sync sync' h)

  prune-Agree :
      (keep : Option String) (db : Tables)
      → Agree db.journal db.journal_sync (prune agent keep db).journal_sync
  unfolding prune
  prune-Agree keep db k e = sym (
      lookup-keep_keys (λ k. not (prunable agent keep db.journal k)) k db.journal_sync
      ∙ rw (not_prunable k e) refl)
    where
      not_prunable :
          (k : SessionId)
          → has_frames k db.journal ≡ true
          → prunable agent keep db.journal k ≡ false
      not_prunable (a, s) e = unfold prunable in ground arith

  -- `prune` forgets no frame: `load` hands out the same frames after it, in the same order and with
  -- the same creation times.
  pub load-prune :
      (keep : Option String) (db : Tables) → load agent (prune agent keep db) ≡ load agent db
  unfolding prune
  load-prune keep db = sym (load_congr db.journal _ _ (prune-Agree keep db))

  pub rows-prune :
      (keep : Option String) (db : Tables) → rows agent (prune agent keep db) ≡ rows agent db
  unfolding prune
  rows-prune keep db = sym (rows_congr db.journal _ _ (prune-Agree keep db))

  -- What holds of this agent's frames in the table holds of the rows that are selected.
  pub All-rows {κ} :
      (P : String → Type κ) (db : Tables)
      → All (λ row. row.0.0 ≡ agent → P row.1) db.journal
      → All (λ e. P e.1) (rows agent db)
  unfolding rows
  All-rows P db h =
      All-sort _ (λ e. P e.1) (waiting agent db.journal_sync db.journal)
        (All-waiting P db.journal_sync db.journal h)
