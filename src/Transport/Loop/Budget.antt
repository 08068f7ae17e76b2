-- ===== src/Transport/Loop/Budget.antt =====
-- Both budgets of the loop end it: the retries of a link that never recovers, and the drops within
-- the flap window of a link that always does.
use rekuest.Prelude.{
  ℕ, zero, suc, ◌+◌, ◌≤◌, ◌<◌, ◌≡◌, refl, sym, ap, ◌∙◌, ◌⊎◌, inl, inr, true, false, none, some,
  List, [], ◌∷◌, ◌++◌, append-nil, append_assoc, arith, length, length-append, All, All-append,
}
use rekuest.Transport.Policy.{
  ConnectionPolicy, recent_drops, is_flapping, retries_exceeded, Failure, definite, correctable,
}
use rekuest.Transport.Loop.{
  Attempt, LoopState, connecting, failed, classify, recovered, finish, recover, conclude, attempt,
  connect_and_receive,
}

-- An attempt that fails correctably while nobody disconnects.
pub record IsDrop (a : Attempt) : Type 0 where
  pub open_before : a.closing_before ≡ false
  pub open_after : a.closing_after ≡ false
  pub correctable_end : classify a.ending ≡ some correctable

-- One that did not stand up for `reset_after` either.
pub record IsShort (policy : ConnectionPolicy) (a : Attempt) : Type 0 where
  pub drop : IsDrop a
  pub short : recovered policy a ≡ false

-- The delays for `n` retries in a row.
abbrev pub delays : (ℕ → ℕ) → ℕ → ℕ → List ℕ
delays delay_for retry zero = []
delays delay_for retry (suc n) = delay_for retry ∷ delays delay_for (suc retry) n

module _ (policy : ConnectionPolicy) (a : Attempt) (st : LoopState) where
  attempt-drop : IsDrop a → attempt policy a st ≡ recover policy a (finish policy a st)
  unfolding attempt conclude
  attempt-drop d = ground (arith, d)

  short_spent :
      IsShort policy a
      → policy.max_retries ≤ st.retry
      → ((attempt policy a st).0 ≡ failed (definite retries_exceeded))
        × ((attempt policy a st).1.waits ≡ st.waits)
  unfolding recover finish
  short_spent s h = rw (attempt-drop s.drop) (ground (arith, s.short, s.drop))

  short_left :
      IsShort policy a
      → policy.flap_limit ≡ none
      → st.retry < policy.max_retries
      → ((attempt policy a st).0 ≡ connecting)
        × ((attempt policy a st).1.retry ≡ st.retry + 1)
        × ((attempt policy a st).1.waits ≡ st.waits ++ policy.delay_for st.retry ∷ [])
  unfolding recover finish is_flapping
  short_left s n h = rw (attempt-drop s.drop) (ground (arith, s.short, s.drop))

pub connect_and_receive-stop :
    (policy : ConnectionPolicy) (a : Attempt) (as_ : List Attempt) (st : LoopState) (f : Failure)
    → (attempt policy a st).0 ≡ failed f
    → connect_and_receive policy (a ∷ as_) st ≡ (failed f, (attempt policy a st).1)
unfolding connect_and_receive
connect_and_receive-stop policy a as_ st f h = ground arith

pub connect_and_receive-next :
    (policy : ConnectionPolicy) (a : Attempt) (as_ : List Attempt) (st : LoopState)
    → (attempt policy a st).0 ≡ connecting
    → connect_and_receive policy (a ∷ as_) st
      ≡ connect_and_receive policy as_ (attempt policy a st).1
unfolding connect_and_receive
connect_and_receive-next policy a as_ st h = ground arith

-- With no flap limit, a link that keeps dropping before `reset_after` is given up as soon as
-- `max_retries` retries are spent, after waiting exactly the policy's delays for them, in order.
pub retries_are_bounded :
    (policy : ConnectionPolicy) (n : ℕ) (as_ : List Attempt) (st : LoopState)
    → policy.flap_limit ≡ none
    → All (IsShort policy) as_
    → st.retry + n ≡ policy.max_retries
    → n < length as_
    → let (verdict, st') = connect_and_receive policy as_ st in
      (verdict ≡ failed (definite retries_exceeded))
      × (st'.waits ≡ st.waits ++ delays policy.delay_for st.retry n)
retries_are_bounded policy n [] st none_ s e h = absurd (omega arith)
retries_are_bounded policy zero (a ∷ as_) st none_ s e h =
    let spent = short_spent policy a st s.0 (omega arith) in
    rw (connect_and_receive-stop policy a as_ st _ spent.0)
      (refl, spent.1 ∙ sym (append-nil st.waits))
retries_are_bounded policy (suc n) (a ∷ as_) st none_ s e h =
    let left = short_left policy a st s.0 none_ (omega arith) in
    let st' = (attempt policy a st).1 in
    let ih = retries_are_bounded policy n as_ st' none_ s.1 (omega (arith, left.1)) (omega arith) in
    rw (connect_and_receive-next policy a as_ st left.0) (
      ih.0,
      ih.1
          ∙ ap (λ w. w ++ delays policy.delay_for st'.retry n) left.2
          ∙ append_assoc st.waits (policy.delay_for st.retry ∷ [])
              (delays policy.delay_for st'.retry n)
          ∙ ap (λ r. st.waits ++ policy.delay_for st.retry ∷ delays policy.delay_for r n)
              (left.1 ∙ omega arith),
    )

-- A drop of a live connection within the window that starts at `t`.
pub record IsFlap (policy : ConnectionPolicy) (t : ℕ) (a : Attempt) : Type 0 where
  pub drop : IsDrop a
  pub was_live : a.healthy ≡ true
  pub after : t ≤ a.ended_at
  pub within : a.decided_at ≤ t + policy.flap_window

recent_drops_kept :
    (policy : ConnectionPolicy) (t now : ℕ) (drops : List ℕ)
    → now ≤ t + policy.flap_window
    → All (λ d. t ≤ d) drops
    → recent_drops policy now drops ≡ drops
unfolding recent_drops
recent_drops_kept policy t now [] h a = refl
recent_drops_kept policy t now (d ∷ drops) h a =
    ground (arith, recent_drops_kept policy t now drops h a.1)

module _ (policy : ConnectionPolicy) (t limit : ℕ) (limited : policy.flap_limit ≡ some limit)
    (a : Attempt) (st : LoopState) (old : All (λ d. t ≤ d) st.drop_times)
    (flap : IsFlap policy t a) where
  flap_round :
      ((f : Failure) × ((attempt policy a st).0 ≡ failed f))
      ⊎ (((attempt policy a st).0 ≡ connecting)
          × ((attempt policy a st).1.drop_times ≡ st.drop_times ++ a.ended_at ∷ [])
          × (length st.drop_times + 1 < limit))
  unfolding recover finish is_flapping
  flap_round = rw (attempt-drop policy a st flap.drop) (
      ground (
        arith,
        limited,
        flap,
        length-append st.drop_times (a.ended_at ∷ []),
        recent_drops_kept policy t a.decided_at (st.drop_times ++ a.ended_at ∷ []) flap.within
            (All-append (λ d. t ≤ d) st.drop_times (a.ended_at ∷ []) old (flap.after, tt)),
      ))

-- With a flap limit, a link that drops that often within one window is given up, also when every
-- connection stood up long enough to refund the retries.
pub flaps_are_bounded :
    (policy : ConnectionPolicy) (t limit : ℕ) (as_ : List Attempt) (st : LoopState)
    → policy.flap_limit ≡ some limit
    → All (λ d. t ≤ d) st.drop_times
    → All (IsFlap policy t) as_
    → 0 < length as_
    → limit ≤ length st.drop_times + length as_
    → (f : Failure) × ((connect_and_receive policy as_ st).0 ≡ failed f)
flaps_are_bounded policy t limit [] st e old s pos h = absurd (omega arith)
flaps_are_bounded policy t limit (a ∷ as_) st e old s pos h =
    elim (flap_round policy t limit e a st old s.0) [
      | inl (f, stop) ↦ (f, ap (λ r. r.0) (connect_and_receive-stop policy a as_ st f stop))
      | inr (go, drops, room) ↦
          let more : All (λ d. t ≤ d) (attempt policy a st).1.drop_times =
            rw drops
              (All-append (λ d. t ≤ d) st.drop_times (a.ended_at ∷ []) old (s.0.after, tt)) in
          let ih =
            flaps_are_bounded policy t limit as_ (attempt policy a st).1 e more s.1 (omega arith)
              (omega (arith, ap length drops, length-append st.drop_times (a.ended_at ∷ []))) in
          (ih.0, ap (λ r. r.0) (connect_and_receive-next policy a as_ st go) ∙ ih.1)
    ]
