-- ===== src/PersistedState/Reopened.antt =====
-- What the next process finds of the states that this one kept.
use rekuest.Prelude.{
  Eq, String, ◌≡◌, refl, sym, ap, subst, ◌∙◌, inl, inr, Bool, true, false, Option, none, some, [],
  ◌∷◌, arith, ◌==◌, contains, if◌then◌else◌, Bool-cases, string_eq, pair_eq, nat_eq,
}
use rekuest.Prelude.Dict.{Dict, lookup, insert, has, lookup-insert}
use rekuest.PersistedState.{
  StoredState, StateTable, put, load, Policy, synchronous, every, StateSaver, Current, write_state,
  write_taken, stored_state, stop_flusher, take_dirty_state, flush_state, flush_all,
  previous_states, open_state_store, close_state_store,
}
use rekuest.PersistedState.Saved.{content, hash_of, IsSaved}
use rekuest.PersistedState.Closed.{close_keeps_last}

module _ {K V : Type 0} ⦃e : Eq K⦄ where
  -- No key twice: a table has a primary key.
  abbrev pub Unique : Dict K V → Type 0
  Unique [] = Unit {0}
  Unique ((k, v) ∷ d) = (lookup k d ≡ none) × Unique d

  insert-Unique : (k : K) (v : V) (d : Dict K V) → Unique d → Unique (insert k v d)
  unfolding insert
  insert-Unique k v [] u = (unfold lookup in refl, tt)
  insert-Unique k v ((j, w) ∷ d) u = elim (Bool-cases (j == k)) [
    | inl same ↦ rw same u
    | inr other ↦ rw other (
      ground (arith, lookup-insert k j v d, u.0, e.beq_iff k j, e.beq_iff j k, other),
      insert-Unique k v d u.1,
    )
  ]

-- A state's row, as an agent loads it
lookup-load :
    (agent name : String) (table : StateTable)
    → lookup name (load agent table) ≡ lookup (agent, name) table
unfolding load lookup
lookup-load agent name [] = refl
lookup-load agent name (((a, n), state) ∷ rest) =
    ground (arith, lookup-load agent name rest, string_eq.beq_iff a agent)

load-Unique : (agent : String) (table : StateTable) → Unique table → Unique (load agent table)
unfolding load
load-Unique agent [] u = tt
load-Unique agent (((a, n), state) ∷ rest) u = elim (Bool-cases (a == agent)) [
  | inl same ↦ rw same (
    ground (arith, lookup-load agent n rest, u.0, same, string_eq.beq_iff a agent),
    load-Unique agent rest u.1,
  )
  | inr other ↦ rw other (load-Unique agent rest u.1)
]

module _ {J : Type 0} (dumps : J → String) (agent : String) where
  write_taken-Unique :
      (ok : Bool) (st : StateSaver J) (taken : Option StoredState)
      → Unique st.file
      → Unique (write_taken dumps agent ok (st, taken)).file
  unfolding write_taken write_state put
  write_taken-Unique ok st none u = u
  write_taken-Unique ok st (some state) u = elim (Bool-cases st.opened) [
    | inl opened ↦ elim (Bool-cases ok) [
      | inl fine ↦ rw (opened, fine) (insert-Unique (agent, state.state_name) state st.file u)
      | inr fails ↦ rw (opened, fails) u
    ]
    | inr closed ↦ rw closed u
  ]

  take_dirty_state_lem :
      (now : Current J) (i : String) (st : StateSaver J)
      → (take_dirty_state dumps agent now i st).0.file ≡ st.file
  unfolding take_dirty_state
  take_dirty_state_lem now i st = ground arith

  flush_state-Unique :
      (now : Current J) (ok : Bool) (i : String) (st : StateSaver J)
      → Unique st.file
      → Unique (flush_state dumps agent now ok i st).file
  unfolding flush_state
  flush_state-Unique now ok i st u =
      let taken = take_dirty_state dumps agent now i st in
      write_taken-Unique ok taken.0 taken.1 (subst Unique (sym (take_dirty_state_lem now i st)) u)

  stop_flusher-Unique :
      (now : Current J) (ok : Bool) (o : Option (Current J × J)) (i : String) (st : StateSaver J)
      → Unique st.file
      → Unique (stop_flusher dumps agent now ok o i st).file
  unfolding stop_flusher
  stop_flusher-Unique now ok none i st u = flush_state-Unique now ok i st u
  stop_flusher-Unique now ok (some (earlier, w)) i st u =
      unfold write_taken in
      write_taken-Unique ok st (some (stored_state dumps agent earlier st i w)) u

  flush_all-Unique :
      (now : Current J) (ok : Bool) (writing : Dict String (Current J × J))
      (policies : Dict String Policy) (st : StateSaver J)
      → Unique st.file
      → Unique (flush_all dumps agent now ok writing policies st).file
  unfolding flush_all
  flush_all-Unique now ok writing [] st u = u
  flush_all-Unique now ok writing ((i, synchronous) ∷ rest) st u =
      flush_all-Unique now ok writing rest st u
  flush_all-Unique now ok writing ((i, every period) ∷ rest) st u =
      flush_all-Unique now ok writing rest (stop_flusher dumps agent now ok (lookup i writing) i st)
        (stop_flusher-Unique now ok (lookup i writing) i st u)

  module _ (loads : String → J) (policies : Dict String Policy) (hashes : Dict String String) where
    -- What becomes of a stored row in the next process
    abbrev taken_back : String → Option StoredState → Option J → Option J
    taken_back i none found = found
    taken_back i (some state) found =
        if has i policies
        then (elim (lookup i hashes) [
          | none ↦ found
          | some h ↦ if state.schema_hash == h then some (loads state.value) else found
        ])
        else found

    -- What the dictionary is after one row
    abbrev with_row : String → StoredState → Dict String J → Dict String J
    with_row j state found =
        if has j policies
        then (elim (lookup j hashes) [
          | none ↦ found
          | some h ↦ if state.schema_hash == h then insert j (loads state.value) found else found
        ])
        else found

    lookup-with_row :
        (j : String) (state : StoredState) (i : String) (found : Dict String J)
        → lookup i (with_row j state found)
          ≡ (if j == i then taken_back i (some state) (lookup i found) else lookup i found)
    lookup-with_row j state i found =
        ground (arith, lookup-insert j i (loads state.value) found, string_eq.beq_iff j i)

    lookup-previous_states :
        (rows : Dict String StoredState) (i : String) (found : Dict String J)
        → Unique rows
        → lookup i (previous_states dumps agent loads policies hashes rows found)
          ≡ taken_back i (lookup i rows) (lookup i found)
    unfolding previous_states
    lookup-previous_states [] i found u = unfold lookup in refl
    lookup-previous_states ((j, state) ∷ rest) i found u =
        let found' = with_row j state found in
        let ih = lookup-previous_states rest i found' u.1 in
        ih ∙ elim (Bool-cases (j == i)) [
          | inl same ↦
              let absent : lookup i rest ≡ none =
                ap (λ k. lookup k rest) (sym ((string_eq.beq_iff j i).0 same)) ∙ u.0 in
              ap (λ o. taken_back i o (lookup i found')) absent
              ∙ lookup-with_row j state i found
              ∙ unfold lookup in rw same refl
          | inr other ↦
              let untouched : lookup i found' ≡ lookup i found =
                lookup-with_row j state i found ∙ rw other refl in
              ap (taken_back i (lookup i rest)) untouched ∙ unfold lookup in rw other refl
        ]

-- A new process beside the file
abbrev pub saver_on : {J : Type 0} → StateTable → StateSaver J
saver_on file = record {
  file = file;
  opened = false;
  policies = [];
  hashes = [];
  previous = [];
  dirty = [];
}

module _ {J : Type 0} (dumps : J → String) (loads : String → J)
    (reads_back : (v : J) → loads (dumps v) ≡ v) (agent : String) where
  open_lem :
      (policies : Dict String Policy) (hashes : Dict String String) (file : StateTable) (i : String)
      → has i policies ≡ true
      → (open_state_store dumps agent loads policies hashes true true (saver_on file)).previous
        ≡ previous_states dumps agent loads policies hashes (load agent file) []
  unfolding open_state_store lookup
  open_lem [] hashes file i h = absurd (cc h)
  open_lem (one ∷ policies) hashes file i h = ground arith

  -- The row that a process finds, and what it takes from it
  took_back :
      (policies : Dict String Policy) (hashes : Dict String String) (i h h' : String) (v : J)
      (row : Option StoredState)
      → content row ≡ some (h, dumps v)
      → has i policies ≡ true
      → lookup i hashes ≡ some h'
      → taken_back dumps agent loads policies hashes i row none ≡ (if h == h' then some v else none)
  unfolding content
  took_back policies hashes i h h' v none c p q = absurd (cc c)
  took_back policies hashes i h h' v (some state) c p q =
      let same : state.schema_hash ≡ h = cc c in
      let text : state.value ≡ dumps v = cc c in
      let value : loads state.value ≡ v = ap loads text ∙ reads_back v in
      ground (arith, same, value, p, q)

  -- The last value makes the round trip through the file. From an opened store whose rows of states that
  -- are not dirty are current, a clean exit whose writes succeed, followed by the start of a process for
  -- the same agent whose registry still persists the state: it finds the state's last value, exactly,
  -- if the state's ports have the hash that they had, and nothing otherwise. At the exit, a state that is written
  -- with a period must have no write under way, and one that is written synchronously must not be dirty.
  -- JSON is taken to read back as it was written.
  pub reopened_finds_last :
      (now : Current J) (i : String) (p : Policy) (v : J) (h h' : String) (st : StateSaver J)
      (writing : Dict String (Current J × J)) (policies : Dict String Policy)
      (hashes : Dict String String)
      → lookup i writing ≡ none
      → st.opened ≡ true
      → Unique st.file
      → IsSaved dumps agent now st i
      → lookup i st.policies ≡ some p
      → (p ≡ synchronous → contains i st.dirty ≡ false)
      → lookup i now.shrunk_states ≡ some v
      → lookup i st.hashes ≡ some h
      → has i policies ≡ true
      → lookup i hashes ≡ some h'
      → let left = close_state_store dumps agent now true writing st in
        lookup i
          (open_state_store dumps agent loads policies hashes true true
            (saver_on left.file)).previous
        ≡ (if h == h' then some v else none)
  unfolding hash_of lookup
  reopened_finds_last now i p v h h' st writing policies hashes idle o u saved hp hd hv old kept
        new =
      let left = close_state_store dumps agent now true writing st in
      let last = (close_keeps_last dumps agent now writing i p v st idle o saved hp hd hv).0 in
      ap (lookup i) (open_lem policies hashes left.file i kept)
      ∙ lookup-previous_states dumps agent loads policies hashes (load agent left.file) i [] (
          load-Unique agent left.file (
            unfold close_state_store in
            flush_all-Unique dumps agent now true writing st.policies st u))
      ∙ ap (λ row. taken_back dumps agent loads policies hashes i row none)
          (lookup-load agent i left.file)
      ∙ took_back policies hashes i h h' v (lookup (agent, i) left.file)
          (last ∙ ap (λ o. some (hash_of o, dumps v)) old) kept new
