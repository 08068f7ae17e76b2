-- ===== src/Agent/Kept.antt =====
-- What it means that memory and the journal's file hold the same frames, and that a process which
-- opens the file starts out that way.
use rekuest.Prelude.{
  ℕ, ◌≡◌, refl, sym, ap, subst, ◌∙◌, String, true, Option, none, some, [], ◌∷◌, map, arith, All,
  string_eq, nat_eq, pair_eq,
}
use rekuest.Prelude.Dict.{Dict, lookup, set_default, lookup-set_default}
use rekuest.Retention
use rekuest.Retention.{Tables, SyncRow, StoredFrame, FrameId, stored, no_tables, acked_pos_of, rows}
use rekuest.Retention.Load.{lookup-rows, All-rows}
use rekuest.Retention.Acks.{open_session_lem}
use rekuest.Agent.{
  RetainedKey, on_disk, Delivery, process_on, tables_of, write_tables, restore, open_store,
  know_session,
}

module _ {F : Type 0} (read : String → Option F) where
  -- The frame that a stored text reads as.
  abbrev pub read_row : Option String → Option F
  read_row none = none
  read_row (some text) = read text

  abbrev pub or_read : Option F → Option String → Option F
  or_read (some frame) text = some frame
  or_read none text = read_row text

  abbrev pub IsReadable : String → Type 0
  IsReadable text = (frame : F) × (read text ≡ some frame)

module _ {F : Type 0} (read : String → Option F) (agent : String) where
  lookup-restore :
      (sync : Dict (String × String) SyncRow) (es : Dict RetainedKey String) (s : String) (p : ℕ)
      (d : Delivery F)
      → All (λ e. IsReadable read e.1) es
      → (lookup (s, p) (restore read agent (map (stored agent sync) es) d).retained
          ≡ or_read read (lookup (s, p) d.retained) (lookup (s, p) es))
        × ((restore read agent (map (stored agent sync) es) d).store ≡ d.store)
        × ((restore read agent (map (stored agent sync) es) d).file ≡ d.file)
  unfolding restore lookup
  lookup-restore sync [] s p d h = (ground arith, refl, refl)
  lookup-restore sync (((t, q), text) ∷ es) s p d h =
      let (frame, r) = h.0 in
      let d' = taken t q frame in
      ground (
        arith,
        r,
        lookup-restore sync es s p d' h.1,
        lookup-set_default (t, q) (s, p) frame d.retained,
        string_eq.beq_iff t s,
        nat_eq.beq_iff q p,
      )
    where
      taken : String → ℕ → F → Delivery F
      taken t q frame = record d {
        session_created =
            set_default t (stored agent sync ((t, q), text)).created_at d.session_created;
        retained = set_default (t, q) frame d.retained;
      }

  -- The store is the file, memory holds exactly what the file's rows read as, and all of them can be
  -- read.
  pub record IsKept (d : Delivery F) : Type 0 where
    pub opened : d.store ≡ some on_disk
    pub held :
        (s : String) (p : ℕ)
        → lookup (s, p) d.retained ≡ read_row read (lookup (s, p) (rows agent d.file))
    pub readable : All (λ row. row.0.0 ≡ agent → IsReadable read row.1) d.file.journal

  pub reopen_lem :
      (d : Delivery F) (s : String) (p : ℕ)
      → All (λ row. row.0.0 ≡ agent → IsReadable read row.1) d.file.journal
      → let d' = open_store read agent true (process_on d.file) in
        (lookup (s, p) d'.retained ≡ read_row read (lookup (s, p) (rows agent d.file)))
        × (d'.store ≡ some on_disk)
        × (d'.file ≡ d.file)
  unfolding open_store process_on tables_of lookup Retention.load
  reopen_lem d s p h =
      lookup-restore d.file.journal_sync (rows agent d.file) s p
        (record { retained = []; session_created = []; file = d.file; store = some on_disk })
        (All-rows agent (IsReadable read) d.file h)

  -- A process that opens the file of another one starts out with exactly what it holds.
  pub reopen-IsKept :
      (d : Delivery F)
      → All (λ row. row.0.0 ≡ agent → IsReadable read row.1) d.file.journal
      → IsKept (open_store read agent true (process_on d.file))
  reopen-IsKept d h =
      let at_any = reopen_lem d "" 0 h in
      record {
        opened = at_any.1;
        held = λ s p.
            let r = reopen_lem d s p h in
            r.0 ∙ ap (λ f. read_row read (lookup (s, p) (rows agent f))) (sym r.2);
        readable =
            subst (λ f. All (λ row. row.0.0 ≡ agent → IsReadable read row.1) f.journal)
              (sym at_any.2) h;
      }

  -- On an opened store `_know_session` touches neither the frames nor what is loaded.
  pub know_session_lem :
      (now : ℕ) (session : String) (d : Delivery F)
      → d.store ≡ some on_disk
      → let d' = know_session read agent true now session d in
        (d'.retained ≡ d.retained)
        × (d'.store ≡ some on_disk)
        × (d'.file.journal ≡ d.file.journal)
        × ((s : String)
            → acked_pos_of (lookup (agent, s) d'.file.journal_sync)
              ≡ acked_pos_of (lookup (agent, s) d.file.journal_sync))
  unfolding know_session open_store tables_of write_tables
  know_session_lem now session d o =
      let row = λ (s : String). open_session_lem agent session now d.file (agent, s) in
      (
        ground (arith, row session),
        ground (arith, row session),
        ground (arith, row session),
        λ s. ground (arith, row s, string_eq.beq_iff session s),
      )

  -- What is loaded depends on the table of sessions by the acknowledged positions only.
  pub rows_by_acked :
      (db db' : Tables) (s : String) (p : ℕ)
      → db.journal ≡ db'.journal
      → acked_pos_of (lookup (agent, s) db.journal_sync)
        ≡ acked_pos_of (lookup (agent, s) db'.journal_sync)
      → lookup (s, p) (rows agent db) ≡ lookup (s, p) (rows agent db')
  rows_by_acked db db' s p j a =
      lookup-rows agent db s p ∙ rw (j, a) (sym (lookup-rows agent db' s p))
