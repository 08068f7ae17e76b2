-- ===== src/Agent/Durable.antt =====
-- A frame whose writes succeeded outlives the failures of any later ones.
pub mod Lasts
mod Examples
use rekuest.Prelude.{
  ℕ, ◌<◌, ◌≡◌, ◌≢◌, refl, sym, ap, subst, ◌∙◌, inl, inr, String, Bool, true, false, not, ◌&&◌,
  Option, none, some, List, [], ◌∷◌, map, arith, ltb, leb, ◌==◌, if◌then◌else◌, All, Bool-cases,
  Option-cases, string_eq, nat_eq, pair_eq,
}
use rekuest.Prelude.Dict.{
  Dict, lookup, insert, keep_keys, lookup-insert, lookup-keep_keys, All-insert, All-keep_keys,
}
use rekuest.Retention
use rekuest.Retention.{Tables, no_tables, acked_pos_of, rows}
use rekuest.Retention.Load.{lookup-rows}
use rekuest.Retention.Acks.{lookup-rows-ack, lookup-rows-add}
use rekuest.Agent.{
  RetainedKey, Store, on_disk, in_memory, Delivery, Written, both_written, second_raised,
  first_raised, process_on, tables_of, write_tables, open_store, know_session, retain, acked,
  journal_ack,
}
use rekuest.Agent.Kept.{
  IsReadable, read_row, reopen_lem, reopen-IsKept, know_session_lem, rows_by_acked,
}
use rekuest.Agent.Restart.{
  retain-opened, journal_ack-opened, rows-acked_tables, journal-acked_tables, acked_tables,
}

module _ {F : Type 0} (read : String → Option F) (dump : F → String)
    (reads_back : (frame : F) → read (dump frame) ≡ some frame) (agent : String) where
  -- What befalls an agent's frames, with writes that may fail.
  pub data Step : Delivery F → Delivery F → Type 0 where
    emits :
        (written : Written) (now : ℕ) (session : String) (pos : ℕ) (frame : F) (d : Delivery F)
        → Step d (retain read dump agent written true now session pos frame d)
    acks :
        (written : Written) (current session : String) (pos : ℕ) (d : Delivery F)
        → Step d (journal_ack read agent written true current session pos d)
    restarts : (d : Delivery F) → Step d (open_store read agent true (process_on d.file))

  pub data Reach : Delivery F → Type 0 where
    first_run : Reach (open_store read agent true (process_on no_tables))
    then_ : {d d' : Delivery F} → Reach d → Step d d' → Reach d'

  -- The step neither emits a frame at the position nor acknowledges it.
  unfoldable pub Spares : String → ℕ → {d d' : Delivery F} → Step d d' → Type 0
  Spares s p (emits written now session pos frame d) = ◌≢◌ {A = RetainedKey} (session, pos) (s, p)
  Spares s p (acks written current session pos d) = session ≡ s → pos < p
  Spares s p (restarts d) = Unit {0}

  -- Any number of steps that spare the position
  pub data Later (s : String) (p : ℕ) (d : Delivery F) : Delivery F → Type 0 where
    now_ : Later s p d d
    then_later :
        {d₁ d₂ : Delivery F}
        → Later s p d d₁
        → (step : Step d₁ d₂) → Spares s p step
        → Later s p d d₂

  pub record IsOpen (d : Delivery F) : Type 0 where
    pub opened : d.store ≡ some on_disk
    pub readable : All (λ row. row.0.0 ≡ agent → IsReadable read row.1) d.file.journal

  -- The frame is in memory and loads from the file, all of whose frames can be read.
  pub record Holds (s : String) (p : ℕ) (frame : F) (d : Delivery F) : Type 0 where
    pub open_file : IsOpen d
    pub held : lookup (s, p) d.retained ≡ some frame
    pub loads : lookup (s, p) (rows agent d.file) ≡ some (dump frame)

  retain-second :
      (now : ℕ) (session : String) (pos : ℕ) (frame : F) (d : Delivery F)
      → d.store ≡ some on_disk
      → let kept : Delivery F = record d { retained = insert (session, pos) frame d.retained } in
        retain read dump agent second_raised true now session pos frame d
        ≡ know_session read agent true now session kept
  unfolding retain open_store
  retain-second now session pos frame d o =
      let kept : Delivery F = record d { retained = insert (session, pos) frame d.retained } in
      ground (arith, know_session_lem read agent now session kept o)

  retain-first :
      (now : ℕ) (session : String) (pos : ℕ) (frame : F) (d : Delivery F)
      → retain read dump agent first_raised true now session pos frame d
        ≡ record d { retained = insert (session, pos) frame d.retained }
  unfolding retain
  retain-first now session pos frame d = refl

  held-insert :
      (session : String) (pos : ℕ) (new : F) (d : Delivery F) (s : String) (p : ℕ) (frame : F)
      → ◌≢◌ {A = RetainedKey} (session, pos) (s, p)
      → lookup (s, p) d.retained ≡ some frame
      → lookup (s, p) (insert (session, pos) new d.retained) ≡ some frame
  held-insert session pos new d s p frame other h = ground (
    arith,
    h,
    other,
    lookup-insert (session, pos) (s, p) new d.retained,
    string_eq.beq_iff session s,
    nat_eq.beq_iff pos p,
  )

  pub retain-IsOpen :
      (written : Written) (now : ℕ) (session : String) (pos : ℕ) (new : F) (d : Delivery F)
      → IsOpen d
      → IsOpen (retain read dump agent written true now session pos new d)
  retain-IsOpen first_raised now session pos new d h =
      rw (retain-first now session pos new d) (record { opened = h.opened; readable = h.readable })
  retain-IsOpen second_raised now session pos new d h =
      let kept : Delivery F = record d { retained = insert (session, pos) new d.retained } in
      let known = know_session_lem read agent now session kept h.opened in
      rw (retain-second now session pos new d h.opened) (record {
        opened = known.1;
        readable =
            subst (All (λ row. row.0.0 ≡ agent → IsReadable read row.1)) (sym known.2) h.readable;
      })
  retain-IsOpen both_written now session pos new d h =
      let kept : Delivery F = record d { retained = insert (session, pos) new d.retained } in
      let known = know_session_lem read agent now session kept h.opened in
      let d' : Delivery F = know_session read agent true now session kept in
      rw (retain-opened read dump reads_back agent now session pos new d h.opened) (record {
        opened = known.1;
        readable =
            unfold Retention.add in
            All-insert (λ row. row.0.0 ≡ agent → IsReadable read row.1) (agent, (session, pos))
              (dump new) d'.file.journal (λ _. (new, reads_back new))
              (subst (All (λ row. row.0.0 ≡ agent → IsReadable read row.1)) (sym known.2)
                h.readable);
      })

  -- Memory and file at a position after a frame was retained there or elsewhere
  pub retained_at :
      (now : ℕ) (session : String) (pos : ℕ) (new : F) (d : Delivery F) (s : String) (p : ℕ)
      → d.store ≡ some on_disk
      → let here = (session == s) && nat_eq.beq pos p in
        let d' = retain read dump agent both_written true now session pos new d in
        (lookup (s, p) d'.retained ≡ (if here then some new else lookup (s, p) d.retained))
        × (lookup (s, p) (rows agent d'.file) ≡ (
            if here
            then (if ltb (acked_pos_of (lookup (agent, s) d.file.journal_sync)) p
                then some (dump new)
                else none)
            else lookup (s, p) (rows agent d.file)))
  retained_at now session pos new d s p o =
      let kept : Delivery F = record d { retained = insert (session, pos) new d.retained } in
      let known = know_session_lem read agent now session kept o in
      let d' : Delivery F = know_session read agent true now session kept in
      rw (retain-opened read dump reads_back agent now session pos new d o) (
        ap (lookup (s, p)) known.0
            ∙ lookup-insert (session, pos) (s, p) new d.retained
            ∙ ground arith,
        ground (
          arith,
          known.3 s,
          lookup-rows-add agent session pos (dump new) d'.file s p,
          rows_by_acked read agent d'.file d.file s p known.2 (known.3 s),
        ),
      )

  -- Whichever writes are done, retaining a frame elsewhere keeps one that is held.
  pub retain-Holds :
      (written : Written) (now : ℕ) (session : String) (pos : ℕ) (new : F) (d : Delivery F)
      (s : String) (p : ℕ) (frame : F)
      → ◌≢◌ {A = RetainedKey} (session, pos) (s, p)
      → Holds s p frame d
      → Holds s p frame (retain read dump agent written true now session pos new d)
  retain-Holds first_raised now session pos new d s p frame other h = record {
    open_file = retain-IsOpen first_raised now session pos new d h.open_file;
    held =
        ap (λ d. lookup (s, p) d.retained) (retain-first now session pos new d)
        ∙ held-insert session pos new d s p frame other h.held;
    loads =
        ap (λ d. lookup (s, p) (rows agent d.file)) (retain-first now session pos new d) ∙ h.loads;
  }
  retain-Holds second_raised now session pos new d s p frame other h =
      let kept : Delivery F = record d { retained = insert (session, pos) new d.retained } in
      let known = know_session_lem read agent now session kept h.open_file.opened in
      let d' : Delivery F = know_session read agent true now session kept in
      let left = retain-second now session pos new d h.open_file.opened in
      record {
        open_file = retain-IsOpen second_raised now session pos new d h.open_file;
        held =
            ap (λ d. lookup (s, p) d.retained) left
            ∙ ap (lookup (s, p)) known.0
            ∙ held-insert session pos new d s p frame other h.held;
        loads =
            ap (λ d. lookup (s, p) (rows agent d.file)) left
            ∙ rows_by_acked read agent d'.file d.file s p known.2 (known.3 s)
            ∙ h.loads;
      }
  retain-Holds both_written now session pos new d s p frame other h =
      let at_it = retained_at now session pos new d s p h.open_file.opened in
      record {
        open_file = retain-IsOpen both_written now session pos new d h.open_file;
        held =
            ground
              (arith, at_it.0, h.held, other, string_eq.beq_iff session s, nat_eq.beq_iff pos p);
        loads =
            ground
              (arith, at_it.1, h.loads, other, string_eq.beq_iff session s, nat_eq.beq_iff pos p);
      }
