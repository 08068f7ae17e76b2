-- ===== src/Agent/Restart.antt =====
-- The store holds what memory holds: a process that takes over the journal's file retains what the
-- one before it retained.
use rekuest.Prelude.{
  ℕ, ◌<◌, ◌≡◌, sym, ap, subst, ◌∙◌, String, true, not, ◌&&◌, Option, none, some, arith, leb, ◌==◌,
  if◌then◌else◌, All, string_eq, nat_eq, pair_eq,
}
use rekuest.Prelude.Dict.{
  lookup, insert, keep_keys, lookup-insert, lookup-keep_keys, All-insert, All-keep_keys,
}
use rekuest.Retention
use rekuest.Retention.{Tables, SyncRow, StoredFrame, FrameId, stored, no_tables, acked_pos_of, rows}
use rekuest.Retention.Load.{rows-prune}
use rekuest.Retention.Acks.{lookup-rows-ack, lookup-rows-add}
use rekuest.Agent.{
  on_disk, Delivery, both_written, process_on, tables_of, write_tables, open_store, know_session,
  retain, acked, any_of_session, journal_ack,
}
use rekuest.Agent.Kept.{
  IsReadable, IsKept, reopen_lem, reopen-IsKept, know_session_lem, rows_by_acked,
}

module _ {F : Type 0} (read : String → Option F) (dump : F → String)
    (reads_back : (frame : F) → read (dump frame) ≡ some frame) (agent : String) where
  pub retain-opened :
      (now : ℕ) (session : String) (pos : ℕ) (frame : F) (d : Delivery F)
      → d.store ≡ some on_disk
      → let kept : Delivery F = record d { retained = insert (session, pos) frame d.retained } in
        let d' = know_session read agent true now session kept in
        retain read dump agent both_written true now session pos frame d
        ≡ record d' { file = Retention.add agent session pos (dump frame) d'.file }
  unfolding retain open_store tables_of write_tables
  retain-opened now session pos frame d o =
      let kept : Delivery F = record d { retained = insert (session, pos) frame d.retained } in
      ground (arith, know_session_lem read agent now session kept o)

  -- Retaining a frame keeps memory and file in step, if its position was not acknowledged before.
  retain-IsKept :
      (now : ℕ) (session : String) (pos : ℕ) (frame : F) (d : Delivery F)
      → acked_pos_of (lookup (agent, session) d.file.journal_sync) < pos
      → IsKept read agent d
      → IsKept read agent (retain read dump agent both_written true now session pos frame d)
  retain-IsKept now session pos frame d fresh k =
      let kept : Delivery F = record d { retained = insert (session, pos) frame d.retained } in
      let known = know_session_lem read agent now session kept k.opened in
      let d' : Delivery F = know_session read agent true now session kept in
      rw (retain-opened now session pos frame d k.opened) (record {
        opened = known.1;
        held = λ s p. ground (
          arith,
          known.0,
          k.held s p,
          lookup-insert (session, pos) (s, p) frame d.retained,
          lookup-rows-add agent session pos (dump frame) d'.file s p,
          rows_by_acked read agent d'.file d.file s p known.2 (known.3 s),
          known.3 s,
          reads_back frame,
          fresh,
          string_eq.beq_iff session s,
          nat_eq.beq_iff pos p,
        );
        readable =
            unfold Retention.add in
            All-insert (λ row. row.0.0 ≡ agent → IsReadable read row.1) (agent, (session, pos))
              (dump frame) d'.file.journal (λ _. (frame, reads_back frame))
              (subst (All (λ row. row.0.0 ≡ agent → IsReadable read row.1)) (sym known.2)
                k.readable);
      })

  -- The tables after an ack: what is forgotten of a session, if anything, is not a frame.
  pub acked_tables : String → String → ℕ → Delivery F → Tables
  acked_tables current session pos d =
      let t = Retention.ack agent session pos d.file in
      let kept = keep_keys (λ k. not (acked session pos k)) d.retained in
      if any_of_session session kept then t else Retention.prune agent (some current) t

  pub journal_ack-opened :
      (current session : String) (pos : ℕ) (d : Delivery F)
      → d.store ≡ some on_disk
      → journal_ack read agent both_written true current session pos d ≡ record d {
        retained = keep_keys (λ k. not (acked session pos k)) d.retained;
        file = acked_tables current session pos d;
      }
  unfolding journal_ack open_store tables_of write_tables acked_tables
  journal_ack-opened current session pos d o = ground arith

  pub rows-acked_tables :
      (current session : String) (pos : ℕ) (d : Delivery F)
      → rows agent (acked_tables current session pos d)
        ≡ rows agent (Retention.ack agent session pos d.file)
  unfolding acked_tables
  rows-acked_tables current session pos d =
      ground (arith, rows-prune agent (some current) (Retention.ack agent session pos d.file))

  pub journal-acked_tables :
      (current session : String) (pos : ℕ) (d : Delivery F)
      → (acked_tables current session pos d).journal
        ≡ keep_keys (λ k. not (Retention.covers agent session pos k)) d.file.journal
  unfolding acked_tables Retention.ack Retention.prune
  journal-acked_tables current session pos d = ground arith

  -- An ack drops the same frames from memory and from the file.
  journal_ack-IsKept :
      (current session : String) (pos : ℕ) (d : Delivery F)
      → IsKept read agent d
      → IsKept read agent (journal_ack read agent both_written true current session pos d)
  unfolding acked
  journal_ack-IsKept current session pos d k =
      rw (journal_ack-opened current session pos d k.opened) (record {
        opened = k.opened;
        held = λ s p. rw (rows-acked_tables current session pos d) (
            ground (
              arith,
              k.held s p,
              lookup-keep_keys (λ j. not (acked session pos j)) (s, p) d.retained,
              lookup-rows-ack agent session pos d.file s p,
            ));
        readable = rw (journal-acked_tables current session pos d) (
            All-keep_keys (λ row. row.0.0 ≡ agent → IsReadable read row.1)
              (λ j. not (Retention.covers agent session pos j)) d.file.journal k.readable);
      })

  -- What befalls an agent's frames: one is emitted past the position that was acknowledged for its
  -- session, an ack comes, or the process dies and another one takes over the file.
  pub data Step : Delivery F → Delivery F → Type 0 where
    emits :
        (now : ℕ) (session : String) (pos : ℕ) (frame : F) (d : Delivery F)
        → acked_pos_of (lookup (agent, session) d.file.journal_sync) < pos
        → Step d (retain read dump agent both_written true now session pos frame d)
    acks :
        (current session : String) (pos : ℕ) (d : Delivery F)
        → Step d (journal_ack read agent both_written true current session pos d)
    restarts : (d : Delivery F) → Step d (open_store read agent true (process_on d.file))

  -- From the first process on an empty file
  pub data Reach : Delivery F → Type 0 where
    first_run : Reach (open_store read agent true (process_on no_tables))
    then_ : {d d' : Delivery F} → Reach d → Step d d' → Reach d'

  Step-IsKept : {d d' : Delivery F} → Step d d' → IsKept read agent d → IsKept read agent d'
  Step-IsKept (emits now session pos frame d fresh) k =
      retain-IsKept now session pos frame d fresh k
  Step-IsKept (acks current session pos d) k = journal_ack-IsKept current session pos d k
  Step-IsKept (restarts d) k = reopen-IsKept read agent d k.readable

  -- In every reachable state memory holds exactly the frames that the file would load.
  pub Reach-IsKept : {d : Delivery F} → Reach d → IsKept read agent d
  unfolding process_on
  Reach-IsKept first_run = reopen-IsKept read agent (process_on no_tables) tt
  Reach-IsKept (then_ r s) = Step-IsKept s (Reach-IsKept r)

  -- After any history of acks, restarts and frames emitted past the acknowledged position, in which
  -- every write succeeds and frames read back as they were written, a process that takes over the
  -- journal's file retains for every session and position exactly what the one before it retained: no
  -- frame that is not acknowledged is lost, and none that is comes back.
  pub restart_keeps_all :
      {d : Delivery F}
      → Reach d
      → (s : String) (p : ℕ)
      → lookup (s, p) (open_store read agent true (process_on d.file)).retained
        ≡ lookup (s, p) d.retained
  restart_keeps_all {d} r s p =
      let k = Reach-IsKept r in (reopen_lem read agent d s p k.readable).0 ∙ sym (k.held s p)

  -- After any such history an ack whose writes succeed frees exactly the session's frames up to its
  -- position, for this process and for the one that takes over the file.
  pub ack_frees_exactly :
      {d : Delivery F}
      → Reach d
      → (current session : String) (pos : ℕ) (s : String) (p : ℕ)
      → let d' = journal_ack read agent both_written true current session pos d in
        let left = if (s == session) && leb p pos then none else lookup (s, p) d.retained in
        (lookup (s, p) d'.retained ≡ left)
        × (lookup (s, p) (open_store read agent true (process_on d'.file)).retained ≡ left)
  unfolding acked
  ack_frees_exactly {d} r current session pos s p =
      let here = journal_ack-opened current session pos d (Reach-IsKept r).opened in
      let now =
        ap (λ d. lookup (s, p) d.retained) here
        ∙ lookup-keep_keys (λ j. not (acked session pos j)) (s, p) d.retained
        ∙ ground arith in
      (now, restart_keeps_all (then_ r (acks current session pos d)) s p ∙ now)
