-- ===== src/PersistedState/Saved.antt =====
-- Which values the file holds: after a change, after a flush, and at the next start.
use rekuest.Prelude.{
  String, ◌≡◌, ◌≢◌, refl, sym, ap, ◌∙◌, inl, inr, true, false, not, ◌&&◌, ◌||◌, Option, none, some,
  arith, ◌==◌, if◌then◌else◌, contains, contains-keep, Option-cases, string_eq, pair_eq,
}
use rekuest.Prelude.Dict.{lookup, has, lookup-insert}
use rekuest.PersistedState.{
  StoredState, put, Policy, synchronous, every, StateSaver, Current, state_patch, stored_state,
  take_dirty_state, write_state, write_taken, flush_state, mark_dirty, note_changed, note_all,
  note_state_change,
}

-- The ports' hash and the value of a row.
unfoldable pub content : Option StoredState → Option (String × String)
content none = none
content (some r) = some (r.schema_hash, r.value)

unfoldable pub hash_of : Option String → String
hash_of none = ""
hash_of (some h) = h

-- What the file should say of a state.
pub expected {ℓ} : {J : Type ℓ} → (J → String) → Option String → Option J → Option (String × String)
expected dumps h none = none
expected dumps h (some v) = some (hash_of h, dumps v)

contains-mark_dirty :
    {J : Type 0} (i j : String) (st : StateSaver J)
    → contains j (mark_dirty i st).dirty ≡ (contains j st.dirty || (i == j))
unfolding mark_dirty
contains-mark_dirty i j st = ground (arith, string_eq.beq_iff i j)

mark_dirty_keeps :
    {J : Type 0} (i : String) (st : StateSaver J)
    → ((mark_dirty i st).file ≡ st.file)
      × ((mark_dirty i st).policies ≡ st.policies)
      × ((mark_dirty i st).hashes ≡ st.hashes)
      × ((mark_dirty i st).opened ≡ st.opened)
unfolding mark_dirty
mark_dirty_keeps i st = ground arith

module _ {J : Type 0} (dumps : J → String) (agent : String) (now : Current J) where
  -- The row of a state that is not dirty has its current value.
  unfoldable pub IsSaved : StateSaver J → String → Type 0
  IsSaved st i =
      (p : Policy) (v : J)
      → lookup i st.policies ≡ some p
      → contains i st.dirty ≡ false
      → lookup i now.shrunk_states ≡ some v
      → content (lookup (agent, i) st.file) ≡ some (hash_of (lookup i st.hashes), dumps v)

  -- A flush of one state: what changes, and what does not.
  pub flush_state_lem :
      (i j : String) (st : StateSaver J)
      → st.opened ≡ true
      → let st' = flush_state dumps agent now true i st in
        (contains j st'.dirty ≡ (contains j st.dirty && not (j == i)))
        × (content (lookup (agent, j) st'.file) ≡ (
            if (i == j) && (contains i st.dirty && has i now.shrunk_states)
            then expected dumps (lookup i st.hashes) (lookup i now.shrunk_states)
            else content (lookup (agent, j) st.file)))
        × (st'.policies ≡ st.policies)
        × (st'.hashes ≡ st.hashes)
        × (st'.opened ≡ true)
  unfolding flush_state take_dirty_state write_taken write_state put stored_state content expected
      hash_of
  flush_state_lem i j st h = elim (Option-cases (lookup i now.shrunk_states)) [
    | inl e ↦ ground (
      arith,
      contains-keep (λ k. not (k == i)) j st.dirty,
      string_eq.beq_iff i j,
      string_eq.beq_iff j i,
    )
    | inr (v, e) ↦ ground (
      arith,
      contains-keep (λ k. not (k == i)) j st.dirty,
      lookup-insert (agent, i) (agent, j) (stored_state dumps agent now st i v) st.file,
      string_eq.beq_iff i j,
      string_eq.beq_iff j i,
      string_eq.beq_iff agent agent,
    )
  ]

  note_by_policy :
      (i : String) (st : StateSaver J)
      → st.opened ≡ true
      → note_state_change dumps agent now true (state_patch i) st
        ≡ note_changed dumps agent now true i st
  unfolding note_state_change note_all
  note_by_policy i st o = ground arith

  note_changed-synchronous :
      (i : String) (st : StateSaver J)
      → lookup i st.policies ≡ some synchronous
      → note_changed dumps agent now true i st
        ≡ flush_state dumps agent now true i (mark_dirty i st)
  unfolding note_changed
  note_changed-synchronous i st p = ground arith

  -- A change of a state that opted in "synchronous" is in the file at once, with the ports' hash of
  -- this run, and no other state's row changes.
  pub note_synchronous :
      (i : String) (v : J) (st : StateSaver J)
      → st.opened ≡ true
      → lookup i st.policies ≡ some synchronous
      → lookup i now.shrunk_states ≡ some v
      → let st' = note_state_change dumps agent now true (state_patch i) st in
        (content (lookup (agent, i) st'.file) ≡ some (hash_of (lookup i st.hashes), dumps v))
        × (contains i st'.dirty ≡ false)
        × ((j : String)
            → j ≢ i
            → content (lookup (agent, j) st'.file) ≡ content (lookup (agent, j) st.file))
  unfolding expected
  note_synchronous i v st o p e =
      let marked = mark_dirty i st in
      let keeps = mark_dirty_keeps i st in
      let in_ = contains-mark_dirty i i st in
      let self = flush_state_lem i i marked (keeps.3 ∙ o) in
      rw (note_by_policy i st o, note_changed-synchronous i st p)
        (
          ground (arith, self, keeps, in_, string_eq.beq_iff i i),
          ground (arith, self, string_eq.beq_iff i i),
          λ j ne.
              ground
                (arith, flush_state_lem i j marked (keeps.3 ∙ o), keeps, string_eq.beq_iff i j),
        )

  pub flush_state-IsSaved :
      (i j : String) (st : StateSaver J)
      → st.opened ≡ true
      → IsSaved st j
      → IsSaved (flush_state dumps agent now true i st) j
  unfolding IsSaved expected
  flush_state-IsSaved i j st o saved p v hp hd hv =
      ground
        (arith, flush_state_lem i j st o, saved p v, string_eq.beq_iff i j, string_eq.beq_iff j i)

  mark_dirty-IsSaved :
      (i j : String) (st : StateSaver J) → IsSaved st j → IsSaved (mark_dirty i st) j
  unfolding IsSaved
  mark_dirty-IsSaved i j st saved p v hp hd hv =
      ground (arith, contains-mark_dirty i j st, mark_dirty_keeps i st, saved p v)

module _ {J : Type 0} (dumps : J → String) (agent : String) (now now' : Current J) (i j : String)
    (st : StateSaver J)
    (same : (k : String) → k ≢ i → lookup k now'.shrunk_states ≡ lookup k now.shrunk_states)
    (saved : IsSaved dumps agent now st j) where
  moved-IsSaved : IsSaved dumps agent now' (mark_dirty i st) j
  unfolding IsSaved
  moved-IsSaved p v hp hd hv = ground (
    arith,
    contains-mark_dirty i j st,
    mark_dirty_keeps i st,
    saved p v,
    same j (λ e. absurd (clash e)),
    string_eq.beq_iff i j,
  )
    where
      clash : j ≡ i → ⊥
      clash e = ground (arith, contains-mark_dirty i j st, string_eq.beq_iff i j)

  unlisted-IsSaved : lookup i st.policies ≡ none → IsSaved dumps agent now' st j
  unfolding IsSaved
  unlisted-IsSaved none_ p v hp hd hv =
      saved p v hp hd (sym (same j (λ e. cc (ap (λ k. lookup k st.policies) e))) ∙ hv)

  -- When the value of one state changes and is noted in a store that is open, and the write succeeds if
  -- there is one, the row of every state that is not dirty still has that state's current value: of the
  -- others, if it had it before, and of the one that changed.
  pub note_change-IsSaved :
      st.opened ≡ true
      → IsSaved dumps agent now' (note_state_change dumps agent now' true (state_patch i) st) j
  unfolding note_changed
  note_change-IsSaved o =
      rw (note_by_policy dumps agent now' i st o) (by_policy (lookup i st.policies) refl)
    where
      by_policy :
          (p : Option Policy)
          → lookup i st.policies ≡ p
          → IsSaved dumps agent now' (note_changed dumps agent now' true i st) j
      by_policy none e = rw (e, note_changed) (unlisted-IsSaved e)
      by_policy (some synchronous) e = rw (note_changed-synchronous dumps agent now' i st e) (
          flush_state-IsSaved dumps agent now' i j (mark_dirty i st) ((mark_dirty_keeps i st).3 ∙ o)
            moved-IsSaved)
      by_policy (some (every n)) e = rw (e, note_changed) moved-IsSaved
