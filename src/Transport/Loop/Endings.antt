-- ===== src/Transport/Loop/Endings.antt =====
-- The other ways out of the loop: definite failures and disconnects.
use rekuest.Prelude.{
  ℕ, ◌≡◌, ◌≢◌, ◌⊎◌, ◌↔◌, refl, true, false, some, List, [], ◌∷◌, ◌++◌, arith, if◌then◌else◌,
}
use rekuest.Transport.Policy.{ConnectionPolicy, Failure, correctable, fatal, classify_close}
use rekuest.Transport.Loop.{
  Attempt, LoopState, stopped, failed, classify, finish, recover, conclude, attempt,
  connect_and_receive,
}
use rekuest.Transport.Loop.Budget.{connect_and_receive-stop}

-- A close is final exactly for the five codes of the table; a bounce, an abnormal closure and every
-- other code are correctable.
pub classify_close_lem :
    (code : ℕ)
    → (classify_close (some code) ≡ correctable)
      ↔ ((code ≢ 4005) × (code ≢ 4004) × (code ≢ 4003) × (code ≢ 3002) × (code ≢ 3003))
unfolding classify_close
classify_close_lem code = (
  λ h. (
    λ e. ground arith,
    λ e. ground arith,
    λ e. ground arith,
    λ e. ground arith,
    λ e. ground arith,
  ),
  λ h. ground arith,
)

-- A definite failure ends the loop at once, whatever retries are left and whatever the script holds
-- next: nothing is slept, the host is not told of a drop, and the failure is the class's own.
pub fatal_ends :
    (policy : ConnectionPolicy) (a : Attempt) (as_ : List Attempt) (st : LoopState) (f : Failure)
    → a.closing_before ≡ false
    → classify a.ending ≡ some (fatal f)
    → let (verdict, st') = connect_and_receive policy (a ∷ as_) st in
      (verdict ≡ failed f)
      × (st'.waits ≡ st.waits)
      × (st'.notes ≡ (if a.healthy then st.notes ++ true ∷ [] else st.notes))
unfolding attempt conclude finish
fatal_ends policy a as_ st f h e =
    rw (connect_and_receive-stop policy a as_ st f (ground arith))
      (refl, ground arith, ground arith)

-- Once a disconnect was asked for, the loop makes no further attempt: not at its head, and not after
-- a correctable failure, of which the host is not told either.
pub closing_ends :
    (policy : ConnectionPolicy) (a : Attempt) (as_ : List Attempt) (st : LoopState)
    → (a.closing_before ≡ true)
      ⊎ ((a.closing_before ≡ false)
          × (a.closing_after ≡ true)
          × (classify a.ending ≡ some correctable))
    → let (verdict, st') = connect_and_receive policy (a ∷ as_) st in
      (verdict ≡ stopped) × (st'.waits ≡ st.waits)
unfolding connect_and_receive attempt conclude finish recover
closing_ends policy a as_ st h = ground arith
