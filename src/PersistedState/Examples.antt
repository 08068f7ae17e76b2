-- ===== src/PersistedState/Examples.antt =====
-- Two states of one agent, one written at once and one by a flusher.
use rekuest.Prelude.{
  ◌≡◌, ◌≢◌, refl, ap, none, some, [], ◌∷◌, String, true, string_eq, pair_eq, arith,
}
use rekuest.Prelude.Dict.{Dict, lookup, insert}
use rekuest.PersistedState.{
  synchronous, every, StateSaver, Current, state_patch, note_state_change, close_state_store,
  flush_all, stop_flusher, write_state, stored_state, put, open_state_store,
}
use rekuest.PersistedState.Saved.{IsSaved, content, hash_of, note_change-IsSaved}
use rekuest.PersistedState.Reopened.{saver_on, reopened_finds_last}

abbrev saver : StateSaver String
saver = record {
  file =
      (
        ("a", "pos"),
        record {
          state_name = "pos";
          schema_hash = "h1";
          session_id = "s";
          global_rev = 3;
          value = "3";
        },
      )
      ∷ [];
  opened = true;
  policies = ("pos", synchronous) ∷ ("log", every 5) ∷ [];
  hashes = ("pos", "h1") ∷ ("log", "h2") ∷ [];
  previous = [];
  dirty = "log" ∷ [];
}

abbrev current : Current String
current = record {
  shrunk_states = ("pos", "3") ∷ ("log", "x") ∷ [];
  session = "s";
  global_revision = 4;
}

-- `log` is dirty, and no other state is in question.
log-IsSaved : IsSaved (λ v. v) "a" current saver "log"
unfolding IsSaved
log-IsSaved p v hp hd hv = absurd (cc hd)

-- Another state's write is under way.
abbrev writing_pos : Dict String (Current String × String)
writing_pos = ("pos", (current, "2")) ∷ []

reopened_finds_last_example :
    let left = close_state_store (λ v. v) "a" current true writing_pos saver in
    let next =
      open_state_store
        (λ v. v)
        "a"
        (λ v. v)
        (("log", every 9) ∷ [])
        (("log", "h2") ∷ [])
        true
        true
        (saver_on left.file) in
    lookup "log" next.previous ≡ some "x"
unfolding lookup
reopened_finds_last_example =
    reopened_finds_last (λ v. v) (λ v. v) (λ v. refl) "a" current "log" (every 5) "x" "h2" "h2"
      saver writing_pos (("log", every 9) ∷ []) (("log", "h2") ∷ []) refl refl (refl, tt)
      log-IsSaved refl (λ e. absurd (cc e)) refl refl refl refl

pos-IsSaved : IsSaved (λ v. v) "a" current saver "pos"
unfolding IsSaved lookup content hash_of
pos-IsSaved p v hp hd hv = ap (λ w. some ("h1", elim w [ none ↦ "" | some x ↦ x ])) hv

abbrev moved : Current String
moved = record current { shrunk_states = ("pos", "4") ∷ ("log", "x") ∷ [] }

others_stay :
    (k : String) → k ≢ "pos" → lookup k moved.shrunk_states ≡ lookup k current.shrunk_states
unfolding lookup
others_stay k h = ground (arith, string_eq.beq_iff "pos" k)

note_change-IsSaved_example :
    IsSaved
      (λ v. v)
      "a"
      moved
      (note_state_change (λ v. v) "a" moved true (state_patch "pos") saver)
      "pos"
note_change-IsSaved_example =
    note_change-IsSaved (λ v. v) "a" current moved "pos" "pos" saver others_stay pos-IsSaved refl

abbrev both_timed : StateSaver String
both_timed = record saver { policies = ("log", every 5) ∷ [] }

-- A change made while the state's write is under way is not saved at the exit: `log` is left dirty, and
-- its row has the earlier value.
change_in_write_is_lost :
    let left =
      close_state_store (λ v. v) "a" current true (("log", (current, "w")) ∷ []) both_timed in
    (content (lookup ("a", "log") left.file) ≡ some ("h2", "w")) × (left.dirty ≡ "log" ∷ [])
unfolding close_state_store flush_all stop_flusher write_state stored_state put lookup insert
    content
change_in_write_is_lost = (refl, refl)
