-- ===== src/PersistedState/Closed.antt =====
-- What a clean exit leaves in the file.
use rekuest.Prelude.{
  ℕ, String, ◌≢◌, Option, none, ◌≡◌, refl, ap, ◌∙◌, inl, inr, true, false, some, [], ◌∷◌, arith,
  ◌==◌, contains, Bool-cases, string_eq, pair_eq,
}
use rekuest.Prelude.Dict.{Dict, lookup, lookup-insert_ne}
use rekuest.PersistedState.{
  Policy, synchronous, every, StateSaver, Current, put, stored_state, write_state, stop_flusher,
  flush_all, close_state_store,
}
use rekuest.PersistedState.Saved.{content, hash_of, IsSaved, flush_state_lem, flush_state-IsSaved}

module _ {J : Type 0} (dumps : J → String) (agent : String) (now : Current J) where
  -- A write that was under way touches the row of its own state only.
  landed-IsSaved :
      (earlier : Current J) (w : J) (j i : String) (st : StateSaver J)
      → j ≢ i
      → IsSaved dumps agent now st i
      → IsSaved dumps agent now
          (write_state dumps agent true (stored_state dumps agent earlier st j w) st)
          i
  unfolding IsSaved write_state stored_state put
  landed-IsSaved earlier w j i st apart saved p v hp hd hv =
      let state = stored_state dumps agent earlier st j w in
      elim (Bool-cases st.opened) [
        | inl o ↦ rw o (
            ap content (lookup-insert_ne (agent, j) (agent, i) state st.file (λ e. apart (cc e)))
            ∙ saved p v (ground (arith, o, hp)) (ground (arith, o, hd)) hv)
        | inr c ↦ rw c (saved p v (ground (arith, c, hp)) (ground (arith, c, hd)) hv)
      ]

  -- How a flusher ends, of the own state or another
  stop_flusher_lem :
      (o : Option (Current J × J)) (j i : String) (st : StateSaver J)
      → (j ≡ i → o ≡ none)
      → st.opened ≡ true
      → IsSaved dumps agent now st i
      → let st' = stop_flusher dumps agent now true o j st in
        IsSaved dumps agent now st' i
        × (st'.opened ≡ true)
        × (st'.policies ≡ st.policies)
        × (st'.hashes ≡ st.hashes)
        × (contains i st.dirty ≡ false → contains i st'.dirty ≡ false)
        × (j ≡ i → contains i st'.dirty ≡ false)
  unfolding stop_flusher
  stop_flusher_lem none j i st idle o saved =
      let flushed = flush_state_lem dumps agent now j i st o in
      (
        flush_state-IsSaved dumps agent now j i st o saved,
        flushed.4,
        flushed.2,
        flushed.3,
        λ h. ground (arith, flushed, h),
        λ e. ground (arith, flushed, string_eq.beq_iff j i, string_eq.beq_iff i j, e),
      )
  stop_flusher_lem (some (earlier, w)) j i st idle o saved = (
    landed-IsSaved earlier w j i st (λ e. cc (idle e)) saved,
    unfold write_state in ground (arith, o),
    unfold write_state in ground (arith, o),
    unfold write_state in ground (arith, o),
    λ h. unfold write_state in ground (arith, o, h),
    λ e. absurd (cc (idle e)),
  )

  module _ (writing : Dict String (Current J × J)) where
    -- The flushers that are told to stop leave no periodic state dirty whose write was not under way.
    flush_all_lem :
        (policies : Dict String Policy) (i : String) (st : StateSaver J)
        → lookup i writing ≡ none
        → st.opened ≡ true
        → IsSaved dumps agent now st i
        → let st' = flush_all dumps agent now true writing policies st in
          IsSaved dumps agent now st' i
          × (st'.policies ≡ st.policies)
          × (st'.hashes ≡ st.hashes)
          × (contains i st.dirty ≡ false → contains i st'.dirty ≡ false)
          × ((period : ℕ) → lookup i policies ≡ some (every period) → contains i st'.dirty ≡ false)
    unfolding flush_all lookup
    flush_all_lem [] i st idle o saved = (saved, refl, refl, λ h. h, λ period h. cc)
    flush_all_lem ((j, synchronous) ∷ rest) i st idle o saved =
        let ih = flush_all_lem rest i st idle o saved in
        (ih.0, ih.1, ih.2, ih.3, λ period h. ih.4 period (ground arith))
    flush_all_lem ((j, every n) ∷ rest) i st idle o saved =
        let round =
          stop_flusher_lem (lookup j writing) j i st (λ e. ap (λ k. lookup k writing) e ∙ idle) o
            saved in
        let ih =
          flush_all_lem rest i (stop_flusher dumps agent now true (lookup j writing) j st) idle
            round.1 round.0 in
        (
          ih.0,
          ih.1 ∙ round.2,
          ih.2 ∙ round.3,
          λ h. ih.3 (round.4 h),
          λ period h. elim (Bool-cases (j == i)) [
            | inl e ↦ ih.3 (round.5 ((string_eq.beq_iff j i).0 e))
            | inr e ↦ ih.4 period (ground arith)
          ],
        )

    -- A clean exit keeps the last value of a periodic state whose write was not under way as it began,
    -- and of a synchronous one that is not dirty: the file has its value and the hash of its ports.
    pub close_keeps_last :
        (i : String) (p : Policy) (v : J) (st : StateSaver J)
        → lookup i writing ≡ none
        → st.opened ≡ true
        → IsSaved dumps agent now st i
        → lookup i st.policies ≡ some p
        → (p ≡ synchronous → contains i st.dirty ≡ false)
        → lookup i now.shrunk_states ≡ some v
        → let st' = close_state_store dumps agent now true writing st in
          (content (lookup (agent, i) st'.file) ≡ some (hash_of (lookup i st.hashes), dumps v))
          × (st'.opened ≡ false)
    unfolding close_state_store
    close_keeps_last i synchronous v st idle o saved hp hd hv =
        let all = flush_all_lem st.policies i st idle o saved in
        (
          unfold IsSaved in
              (all.0 synchronous v (ap (lookup i) all.1 ∙ hp) (all.3 (hd refl)) hv)
              ∙ ap (λ h. some (hash_of (lookup i h), dumps v)) all.2,
          refl,
        )
    close_keeps_last i (every n) v st idle o saved hp hd hv =
        let all = flush_all_lem st.policies i st idle o saved in
        (
          unfold IsSaved in
              (all.0 (every n) v (ap (lookup i) all.1 ∙ hp) (all.4 n hp) hv)
              ∙ ap (λ h. some (hash_of (lookup i h), dumps v)) all.2,
          refl,
        )
