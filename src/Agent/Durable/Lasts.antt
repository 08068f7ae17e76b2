-- ===== src/Agent/Durable/Lasts.antt =====
-- Acks and restarts keep what is in the file, and the theorem on frames that were written.
use rekuest.Prelude.{
  ℕ, ◌<◌, ◌≡◌, ap, ◌∙◌, String, true, not, Option, some, arith, All, string_eq, nat_eq, pair_eq,
}
use rekuest.Prelude.Dict.{lookup, keep_keys, lookup-keep_keys, All-keep_keys}
use rekuest.Retention
use rekuest.Retention.{Tables, no_tables, acked_pos_of, rows}
use rekuest.Retention.Acks.{lookup-rows-ack}
use rekuest.Agent.{
  on_disk, Delivery, Written, both_written, second_raised, first_raised, process_on, tables_of,
  write_tables, open_store, retain, acked, journal_ack,
}
use rekuest.Agent.Kept.{IsReadable, read_row, reopen_lem, reopen-IsKept}
use rekuest.Agent.Restart.{journal_ack-opened, rows-acked_tables, journal-acked_tables}
use rekuest.Agent.Durable.{
  Step, emits, acks, restarts, Reach, first_run, then_, Spares, Later, now_, then_later, IsOpen,
  Holds, retain-IsOpen, retained_at, retain-Holds,
}

module _ {F : Type 0} (read : String → Option F) (dump : F → String)
    (reads_back : (frame : F) → read (dump frame) ≡ some frame) (agent : String) where
  journal_ack-second :
      (current session : String) (pos : ℕ) (d : Delivery F)
      → d.store ≡ some on_disk
      → journal_ack read agent second_raised true current session pos d ≡ record d {
        retained = keep_keys (λ k. not (acked session pos k)) d.retained;
        file = Retention.ack agent session pos d.file;
      }
  unfolding journal_ack open_store tables_of write_tables
  journal_ack-second current session pos d o = ground arith

  journal_ack-first :
      (current session : String) (pos : ℕ) (d : Delivery F)
      → d.store ≡ some on_disk
      → journal_ack read agent first_raised true current session pos d
        ≡ record d { retained = keep_keys (λ k. not (acked session pos k)) d.retained }
  unfolding journal_ack open_store tables_of
  journal_ack-first current session pos d o = ground arith

  held-acked :
      (session : String) (pos : ℕ) (d : Delivery F) (s : String) (p : ℕ) (frame : F)
      → (session ≡ s → pos < p)
      → lookup (s, p) d.retained ≡ some frame
      → lookup (s, p) (keep_keys (λ k. not (acked session pos k)) d.retained) ≡ some frame
  unfolding acked
  held-acked session pos d s p frame past h = ground (
    arith,
    h,
    past,
    lookup-keep_keys (λ k. not (acked session pos k)) (s, p) d.retained,
    string_eq.beq_iff s session,
  )

  loads-acked :
      (session : String) (pos : ℕ) (d : Delivery F) (s : String) (p : ℕ) (frame : F)
      → (session ≡ s → pos < p)
      → lookup (s, p) (rows agent d.file) ≡ some (dump frame)
      → lookup (s, p) (rows agent (Retention.ack agent session pos d.file)) ≡ some (dump frame)
  loads-acked session pos d s p frame past h =
      ground
        (arith, h, past, lookup-rows-ack agent session pos d.file s p, string_eq.beq_iff s session)

  IsReadable-acked :
      (session : String) (pos : ℕ) (d : Delivery F)
      → All (λ row. row.0.0 ≡ agent → IsReadable read row.1) d.file.journal
      → All
          (λ row. row.0.0 ≡ agent → IsReadable read row.1)
          (Retention.ack agent session pos d.file).journal
  unfolding Retention.ack
  IsReadable-acked session pos d h =
      All-keep_keys (λ row. row.0.0 ≡ agent → IsReadable read row.1)
        (λ j. not (Retention.covers agent session pos j)) d.file.journal h

  journal_ack-IsOpen :
      (written : Written) (current session : String) (pos : ℕ) (d : Delivery F)
      → IsOpen read dump reads_back agent d
      → IsOpen read dump reads_back agent
          (journal_ack read agent written true current session pos d)
  journal_ack-IsOpen first_raised current session pos d h =
      rw (journal_ack-first current session pos d h.opened)
        (record { opened = h.opened; readable = h.readable })
  journal_ack-IsOpen second_raised current session pos d h =
      rw (journal_ack-second current session pos d h.opened)
        (record { opened = h.opened; readable = IsReadable-acked session pos d h.readable })
  journal_ack-IsOpen both_written current session pos d h =
      rw (journal_ack-opened read dump reads_back agent current session pos d h.opened) (record {
        opened = h.opened;
        readable =
            rw (journal-acked_tables read dump reads_back agent current session pos d)
              (unfold Retention.ack in IsReadable-acked session pos d h.readable);
      })

  -- Whichever writes are done, an ack that stays below the position keeps the frame.
  journal_ack-Holds :
      (written : Written) (current session : String) (pos : ℕ) (d : Delivery F) (s : String) (p : ℕ)
      (frame : F)
      → (session ≡ s → pos < p)
      → Holds read dump reads_back agent s p frame d
      → Holds read dump reads_back agent s p frame
          (journal_ack read agent written true current session pos d)
  journal_ack-Holds first_raised current session pos d s p frame past h =
      let left = journal_ack-first current session pos d h.open_file.opened in
      record {
        open_file = journal_ack-IsOpen first_raised current session pos d h.open_file;
        held =
            ap (λ d. lookup (s, p) d.retained) left
            ∙ held-acked session pos d s p frame past h.held;
        loads = ap (λ d. lookup (s, p) (rows agent d.file)) left ∙ h.loads;
      }
  journal_ack-Holds second_raised current session pos d s p frame past h =
      let left = journal_ack-second current session pos d h.open_file.opened in
      record {
        open_file = journal_ack-IsOpen second_raised current session pos d h.open_file;
        held =
            ap (λ d. lookup (s, p) d.retained) left
            ∙ held-acked session pos d s p frame past h.held;
        loads =
            ap (λ d. lookup (s, p) (rows agent d.file)) left
            ∙ loads-acked session pos d s p frame past h.loads;
      }
  journal_ack-Holds both_written current session pos d s p frame past h =
      let left =
        journal_ack-opened read dump reads_back agent current session pos d h.open_file.opened in
      record {
        open_file = journal_ack-IsOpen both_written current session pos d h.open_file;
        held =
            ap (λ d. lookup (s, p) d.retained) left
            ∙ held-acked session pos d s p frame past h.held;
        loads =
            ap (λ d. lookup (s, p) (rows agent d.file)) left
            ∙ ap (lookup (s, p))
                (rows-acked_tables read dump reads_back agent current session pos d)
            ∙ loads-acked session pos d s p frame past h.loads;
      }

  reopen-IsOpen :
      (d : Delivery F)
      → IsOpen read dump reads_back agent d
      → IsOpen read dump reads_back agent (open_store read agent true (process_on d.file))
  reopen-IsOpen d h =
      let k = reopen-IsKept read agent d h.readable in
      record { opened = k.opened; readable = k.readable }

  -- A process that takes over the file holds what it holds.
  reopen-Holds :
      (d : Delivery F) (s : String) (p : ℕ) (frame : F)
      → Holds read dump reads_back agent s p frame d
      → Holds read dump reads_back agent s p frame (open_store read agent true (process_on d.file))
  reopen-Holds d s p frame h =
      let r = reopen_lem read agent d s p h.open_file.readable in
      record {
        open_file = reopen-IsOpen d h.open_file;
        held = r.0 ∙ ap (read_row read) h.loads ∙ reads_back frame;
        loads = ap (λ f. lookup (s, p) (rows agent f)) r.2 ∙ h.loads;
      }

  Step-IsOpen :
      {d d' : Delivery F}
      → Step read dump reads_back agent d d'
      → IsOpen read dump reads_back agent d
      → IsOpen read dump reads_back agent d'
  Step-IsOpen (emits written now session pos frame d) h =
      retain-IsOpen read dump reads_back agent written now session pos frame d h
  Step-IsOpen (acks written current session pos d) h =
      journal_ack-IsOpen written current session pos d h
  Step-IsOpen (restarts d) h = reopen-IsOpen d h

  Reach-IsOpen :
      {d : Delivery F} → Reach read dump reads_back agent d → IsOpen read dump reads_back agent d
  unfolding process_on
  Reach-IsOpen first_run =
      let k = reopen-IsKept read agent (process_on no_tables) tt in
      record { opened = k.opened; readable = k.readable }
  Reach-IsOpen (then_ r s) = Step-IsOpen s (Reach-IsOpen r)

  Step-Holds :
      {d d' : Delivery F} (s : String) (p : ℕ) (frame : F)
      (step : Step read dump reads_back agent d d')
      → Spares read dump reads_back agent s p step
      → Holds read dump reads_back agent s p frame d
      → Holds read dump reads_back agent s p frame d'
  unfolding Spares
  Step-Holds s p frame (emits written now session pos new d) other h =
      retain-Holds read dump reads_back agent written now session pos new d s p frame other h
  Step-Holds s p frame (acks written current session pos d) past h =
      journal_ack-Holds written current session pos d s p frame past h
  Step-Holds s p frame (restarts d) _ h = reopen-Holds d s p frame h

  Later-Holds :
      (s : String) (p : ℕ) (frame : F) {d d' : Delivery F}
      → Later read dump reads_back agent s p d d'
      → Holds read dump reads_back agent s p frame d
      → Holds read dump reads_back agent s p frame d'
  Later-Holds s p frame now_ h = h
  Later-Holds s p frame (then_later later step spared) h =
      Step-Holds s p frame step spared (Later-Holds s p frame later h)

  -- From any state that emits, acks and restarts with failing writes lead to, on a file that opens: a
  -- frame that is emitted past the acknowledged position of its session, and both of whose writes
  -- succeed, is retained after any further emits, acks and restarts, whichever of their writes fail, as
  -- long as none of them emits at its position or acknowledges it; and a process that takes over the
  -- file retains it too. Frames are taken to read back as they were written.
  pub written_frame_lasts :
      {d d' : Delivery F}
      → Reach read dump reads_back agent d
      → (now : ℕ) (s : String) (p : ℕ) (frame : F)
      → acked_pos_of (lookup (agent, s) d.file.journal_sync) < p
      → Later read dump reads_back agent s p
          (retain read dump agent both_written true now s p frame d)
          d'
      → (lookup (s, p) d'.retained ≡ some frame)
        × (lookup (s, p) (open_store read agent true (process_on d'.file)).retained ≡ some frame)
  written_frame_lasts {d} {d'} r now s p frame past later =
      let o = Reach-IsOpen r in
      let at_it = retained_at read dump reads_back agent now s p frame d s p o.opened in
      let first : Holds read dump reads_back agent s p frame
          (retain read dump agent both_written true now s p frame d) =
        record {
          open_file = retain-IsOpen read dump reads_back agent both_written now s p frame d o;
          held = ground (arith, at_it.0, string_eq.beq_iff s s, nat_eq.beq_iff p p);
          loads = ground (arith, at_it.1, past, string_eq.beq_iff s s, nat_eq.beq_iff p p);
        } in
      let last = Later-Holds s p frame later first in
      (last.held, (reopen-Holds d' s p frame last).held)
