-- ===== src/Retention/Contents/Abstract.antt =====
-- rekuest/agents/retention.py as it looks from outside: tables that hold the same rows are one state.
use rekuest.Prelude.{
  ℕ, String, ◌≡◌, ◌≢◌, refl, ap, false, not, none, some, arith, string_eq, nat_eq, pair_eq, max,
}
use mathlib.Core.Quot
use mathlib.Core.Quot.{Quot, Quot-set}
use rekuest.Prelude.Dict.{
  Dict, lookup, lookup-insert_comm, lookup-keep_keys_comm, lookup-insert-keep_keys,
}
use rekuest.Retention.{
  FrameId, SessionId, SyncRow, Tables, open_session, add, covers, raise_acked, ack,
}
use rekuest.Retention.Acks.{raised, lookup-raise_acked}
use rekuest.Retention.Contents.{
  HasPrimaryKeys, SameContents, Statement, opens, adds, acks, execute, execute-HasPrimaryKeys,
  execute-SameContents,
}

max_swap : (a p q : ℕ) → max (max a q) p ≡ max (max a p) q
max_swap a p q = omega arith

abbrev pub Keyed : Type 0
Keyed = (db : Tables) × HasPrimaryKeys db

abbrev pub SameRows : Keyed → Keyed → Type 0
SameRows x y = SameContents x.0 y.0

abbrev pub Contents : Type 0
Contents = Quot SameRows

module _ (agent : String) where
  unfoldable pub execute_contents : Statement → Contents → Contents
  execute_contents statement =
      Quot.lift Quot-set
        (λ x. Quot.mk (execute agent statement x.0, execute-HasPrimaryKeys agent statement x.0 x.1))
        (λ x y h. Quot.sound (execute-SameContents agent statement x.0 y.0 h))

  twice : Statement → Statement → Keyed → Keyed
  twice first second x = (
    execute agent second (execute agent first x.0),
    execute-HasPrimaryKeys agent second (execute agent first x.0)
        (execute-HasPrimaryKeys agent first x.0 x.1),
  )

  adds_comm :
      (s t : String) (p q : ℕ) (f g : String) (db : Tables)
      → ◌≢◌ {A = String × ℕ} (s, p) (t, q)
      → SameContents
          (execute agent (adds s p f) (execute agent (adds t q g) db))
          (execute agent (adds t q g) (execute agent (adds s p f) db))
  unfolding execute add
  adds_comm s t p q f g db differs = record {
    journal = λ k.
        lookup-insert_comm (agent, (s, p)) (agent, (t, q)) k f g db.journal
          (λ same. differs (ap (λ (i : FrameId). i.1) same));
    sync = λ k. refl;
  }

  raise_acked_comm :
      (s t : String) (p q : ℕ) (sync : Dict SessionId SyncRow) (k : SessionId)
      → lookup k (raise_acked agent s p (raise_acked agent t q sync))
        ≡ lookup k (raise_acked agent t q (raise_acked agent s p sync))
  unfolding raised
  raise_acked_comm s t p q sync k =
      rw
        (
          lookup-raise_acked agent s p k (raise_acked agent t q sync),
          lookup-raise_acked agent t q k (raise_acked agent s p sync),
          lookup-raise_acked agent s p k sync,
          lookup-raise_acked agent t q k sync,
        )
        elim (lookup k sync) [
          | none ↦ ground arith
          | some row ↦ ground (arith, max_swap row.acked_pos p q)
        ]

  acks_comm :
      (s t : String) (p q : ℕ) (db : Tables)
      → SameContents
          (execute agent (acks s p) (execute agent (acks t q) db))
          (execute agent (acks t q) (execute agent (acks s p) db))
  unfolding execute ack
  acks_comm s t p q db = record {
    journal = λ k. lookup-keep_keys_comm _ _ k db.journal;
    sync = raise_acked_comm s t p q db.journal_sync;
  }

  adds-acks_comm :
      (s t : String) (p q : ℕ) (f : String) (db : Tables)
      → covers agent t q (agent, (s, p)) ≡ false
      → SameContents
          (execute agent (adds s p f) (execute agent (acks t q) db))
          (execute agent (acks t q) (execute agent (adds s p f) db))
  unfolding execute add ack
  adds-acks_comm s t p q f db kept = record {
    journal = λ k. lookup-insert-keep_keys _ (agent, (s, p)) k f db.journal (ap not kept);
    sync = λ k. refl;
  }

  opens-adds_comm :
      (s t : String) (created_at p : ℕ) (f : String) (db : Tables)
      → SameContents
          (execute agent (opens s created_at) (execute agent (adds t p f) db))
          (execute agent (adds t p f) (execute agent (opens s created_at) db))
  unfolding execute open_session add
  opens-adds_comm s t created_at p f db = record { journal = λ k. refl; sync = λ k. refl }

  -- Pairs of statements that touch different rows, and the acknowledgements
  pub data Independent : Statement → Statement → Type 0 where
    two_adds :
        {s t : String} {p q : ℕ} {f g : String}
        → ◌≢◌ {A = String × ℕ} (s, p) (t, q)
        → Independent (adds s p f) (adds t q g)
    two_acks : {s t : String} {p q : ℕ} → Independent (acks s p) (acks t q)
    add_ack :
        {s t : String} {p q : ℕ} {f : String}
        → covers agent t q (agent, (s, p)) ≡ false
        → Independent (adds s p f) (acks t q)
    open_add :
        {s t : String} {created_at p : ℕ} {f : String}
        → Independent (opens s created_at) (adds t p f)

  comm :
      (a b : Statement) (db : Tables)
      → Independent a b
      → SameContents (execute agent a (execute agent b db)) (execute agent b (execute agent a db))
  comm _ _ db (two_adds differs) = adds_comm _ _ _ _ _ _ db differs
  comm _ _ db two_acks = acks_comm _ _ _ _ db
  comm _ _ db (add_ack kept) = adds-acks_comm _ _ _ _ _ db kept
  comm _ _ db open_add = opens-adds_comm _ _ _ _ _ db

  -- Which of two independent statements is executed first leaves no trace in what the store holds:
  -- frames of two positions may be added in either order, acknowledgements may come in any order,
  -- and a frame may be added before or after an acknowledgement that does not cover it.
  pub writes_commute :
      (a b : Statement) (contents : Contents)
      → Independent a b
      → execute_contents a (execute_contents b contents)
        ≡ execute_contents b (execute_contents a contents)
  unfolding execute_contents twice execute
  writes_commute a b contents independent =
      Quot.ind
        {β = λ c.
          execute_contents a (execute_contents b c) ≡ execute_contents b (execute_contents a c)}
        (λ c.
          Quot-set (execute_contents a (execute_contents b c))
            (execute_contents b (execute_contents a c)))
        (λ x.
          Quot.sound {r = SameRows} {a = twice b a x} {b = twice a b x} (comm a b x.0 independent))
        contents
