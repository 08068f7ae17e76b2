-- ===== src/Retention/Contents/Decides.antt =====
-- Two files that hold the same rows are loaded alike, now and after any further statements.
use rekuest.Prelude.{
  ℕ, String, ◌≡◌, sym, ap, subst, ◌∙◌, true, List, [], ◌∷◌, map, arith, ltb, ◌==◌, Bool, ◌&&◌,
  Bool-cases, inl, inr, All, map_congr, string_eq, nat_eq, pair_eq,
}
use rekuest.Prelude.Dict.{Dict, lookup}
use rekuest.Prelude.Order.{
  FrameKey, key_le, key_le_refl, key_le_antisymm, key_le_total, key_le_trans, sort_by,
  sort_by_congr, IsOrdered, sort-IsOrdered,
}
use rekuest.Prelude.Sorted.{UniqueKeys, UniqueKeys-sort, same_sorted}
use rekuest.Retention.{
  FrameId, SessionId, SyncRow, Tables, acked_pos_of, created_at_of, waiting, order_key, rows,
  stored, load,
}
use rekuest.Retention.Load.{lookup-waiting, lookup-rows, rows-IsOrdered}
use rekuest.Retention.Contents.{
  HasPrimaryKeys, SameContents, Statement, execute, execute_all, execute-HasPrimaryKeys,
  execute-SameContents,
}

All-each {ℓ κ} : {A : Type ℓ} (P : A → Type κ) → ((a : A) → P a) → (xs : List A) → All P xs
All-each P f [] = tt
All-each P f (x ∷ xs) = (f x, All-each P f xs)

module _ (agent : String) where
  UniqueKeys-waiting :
      (sync : Dict SessionId SyncRow) (journal : Dict FrameId String)
      → UniqueKeys journal
      → UniqueKeys (waiting agent sync journal)
  unfolding waiting
  UniqueKeys-waiting sync [] u = tt
  UniqueKeys-waiting sync (((a, (s, p)), frame) ∷ rest) u =
      elim (Bool-cases ((a == agent) && ltb (acked_pos_of (lookup (a, s) sync)) p)) [
        | inl selected ↦ rw selected (
          ground
              (arith, u.0, selected, lookup-waiting agent sync rest s p, string_eq.beq_iff a agent),
          UniqueKeys-waiting sync rest u.1,
        )
        | inr left_out ↦ rw left_out (UniqueKeys-waiting sync rest u.1)
      ]

  module _ (db db' : Tables) (u : HasPrimaryKeys db) (u' : HasPrimaryKeys db')
      (same : SameContents db db') where
    key : (String × ℕ) × String → FrameKey
    key (k, frame) = order_key agent db.journal_sync k

    key' : (String × ℕ) × String → FrameKey
    key' (k, frame) = order_key agent db'.journal_sync k

    key-same : (x : (String × ℕ) × String) → key' x ≡ key x
    unfolding key key' order_key
    key-same ((s, p), frame) = ap (λ o. (created_at_of o, s, p)) (sym (same.sync (agent, s)))

    le : (String × ℕ) × String → (String × ℕ) × String → Bool
    le x y = key_le (key x) (key y)

    le_same : (k : String × ℕ) (v w : String) → le (k, v) (k, w) ≡ true
    unfolding le key
    le_same k v w = key_le_refl (order_key agent db.journal_sync k)

    le_antisymm :
        (k j : String × ℕ) (v w : String)
        → le (k, v) (j, w) ≡ true
        → le (j, w) (k, v) ≡ true
        → k ≡ j
    unfolding le key order_key
    le_antisymm (s, p) (t, q) v w h g =
        let e = key_le_antisymm (key ((s, p), v)) (key ((t, q), w)) h g in
        ap (λ (x : FrameKey). (x.1, x.2)) e

    rows' : rows agent db' ≡ sort_by key (waiting agent db'.journal_sync db'.journal)
    unfolding rows key'
    rows' = sort_by_congr key' key _ (All-each _ key-same _)

    ordered : (d : Dict (String × ℕ) String) → IsOrdered le (sort_by key d)
    unfolding le
    ordered =
        sort-IsOrdered le (λ x y. key_le_total (key x) (key y))
          (λ x y z. key_le_trans (key x) (key y) (key z))

    rows-same : rows agent db ≡ rows agent db'
    unfolding rows le key
    rows-same =
        same_sorted le le_same le_antisymm (rows agent db) (rows agent db')
          (rows-IsOrdered agent db)
          (subst (IsOrdered le) (sym rows') (ordered (waiting agent db'.journal_sync db'.journal)))
          (UniqueKeys-sort le le_same le_antisymm _
            (UniqueKeys-waiting db.journal_sync db.journal u.of_journal))
          (subst UniqueKeys (sym rows') (
            UniqueKeys-sort le le_same le_antisymm _
              (UniqueKeys-waiting db'.journal_sync db'.journal u'.of_journal)))
          (λ (s, p).
            lookup-rows agent db s p
            ∙ ground (arith, same.sync (agent, s), same.journal (agent, (s, p)))
            ∙ sym (lookup-rows agent db' s p))

    pub load-same : load agent db ≡ load agent db'
    unfolding load
    load-same =
        map_congr (stored agent db.journal_sync) (stored agent db'.journal_sync) (rows agent db) (
          All-each _
            (λ x.
              ap
                (λ o. record {
                  session_id = x.0.0;
                  created_at = created_at_of o;
                  pos = x.0.1;
                  frame = x.1;
                })
                (same.sync (agent, x.0.0)))
            _)
        ∙ ap (map (stored agent db'.journal_sync)) rows-same

  -- What a store hands out is decided by what its tables hold, with their primary keys, and not by the
  -- order in which SQLite keeps the rows: two files with the same rows hand out the same frames with the
  -- same creation times in the same order, and still do after any further statements on both.
  pub contents_decide :
      (statements : List Statement) (db db' : Tables)
      → HasPrimaryKeys db
      → HasPrimaryKeys db'
      → SameContents db db'
      → load agent (execute_all agent statements db) ≡ load agent (execute_all agent statements db')
  unfolding execute_all
  contents_decide [] db db' u u' same = load-same db db' u u' same
  contents_decide (statement ∷ rest) db db' u u' same =
      contents_decide rest (execute agent statement db) (execute agent statement db')
        (execute-HasPrimaryKeys agent statement db u)
        (execute-HasPrimaryKeys agent statement db' u')
        (execute-SameContents agent statement db db' same)
