-- ===== src/Transport/Loop.antt =====
-- `_aconnect_and_receive` of rekuest/agents/transport/websocket.py: connect, receive, retry. The
-- environment is a script of attempts, each with what the socket did and what the clock said.
pub mod Budget
pub mod Endings
use rekuest.Prelude.{
  ℕ, ◌+◌, ◌-◌, Bool, true, false, Option, none, some, List, [], ◌∷◌, ◌++◌, leb, if◌then◌else◌,
}
use rekuest.Transport.Policy.{
  ConnectionPolicy, is_flapping, Cause, kick_message, retries_exceeded, flapping, unhandled,
  Failure, definite, cancelled, Class, correctable, fatal, classify_close,
}

-- How the body of an attempt ends. `clean_close` is an `async for` that ends by itself, as it does
-- on a normal close; `closed` is a `ConnectionClosedError` with the code received, if any;
-- `other_error` any other exception, such as a refused connection or a failing token loader.
pub data Ending : Type 0 where
  clean_close invalid_handshake bounced kicked other_error cancelled_task : Ending
  closed : Option ℕ → Ending

-- `closing_before` and `closing_after` are `_closing` where the loop reads it; `connected_at` is set
-- once the socket is open, `healthy` once the sender task runs. `ended_at` and `decided_at` are the
-- clock in the `finally` block and in `_is_flapping`.
pub record Attempt : Type 0 where
  pub closing_before : Bool
  pub connected_at : Option ℕ
  pub healthy : Bool
  pub ending : Ending
  pub ended_at : ℕ
  pub closing_after : Bool
  pub decided_at : ℕ

-- `notes` are the calls of `anotify_connection_change`, `waits` the delays slept.
pub record LoopState : Type 0 where
  pub retry : ℕ
  pub drop_times : List ℕ
  pub notes : List Bool
  pub waits : List ℕ

-- `connecting` means that the script ends while the loop goes on.
pub data Verdict : Type 0 where
  connecting stopped : Verdict
  failed : Failure → Verdict

-- The `except` arms of the inner `try`; `none` is an attempt that raised nothing.
unfoldable pub classify : Ending → Option Class
unfolding classify_close
classify clean_close = none
classify invalid_handshake = some correctable
classify bounced = some correctable
classify kicked = some (fatal (definite kick_message))
classify (closed rcvd) = some (classify_close rcvd)
classify other_error = some (fatal (definite unhandled))
classify cancelled_task = some (fatal cancelled)

-- Whether the connection stood up long enough to count as a recovery.
unfoldable pub recovered : ConnectionPolicy → Attempt → Bool
recovered policy a = elim a.connected_at [
  | none ↦ false
  | some t ↦ leb policy.reset_after (a.ended_at - t)
]

-- What the attempt itself and the `finally` block change.
unfoldable pub finish : ConnectionPolicy → Attempt → LoopState → LoopState
unfolding recovered
finish policy a st = record st {
  retry = if recovered policy a then 0 else st.retry;
  drop_times = if a.healthy then st.drop_times ++ a.ended_at ∷ [] else st.drop_times;
  notes = if a.healthy then st.notes ++ true ∷ [] else st.notes;
}

-- The `except CorrectableConnectionFail` arm: a verdict, or the state to try again with.
unfoldable pub recover : ConnectionPolicy → Attempt → LoopState → Verdict × LoopState
recover policy a st =
    if a.closing_after
    then (stopped, st)
    else let told = record st { notes = st.notes ++ false ∷ [] } in
      if leb policy.max_retries st.retry
      then (failed (definite retries_exceeded), told)
      else let (flaps, drops) = is_flapping policy a.decided_at st.drop_times in
        let counted = record told { drop_times = drops } in
        if flaps then (failed (definite flapping), counted) else (
          connecting,
          record counted {
            retry = st.retry + 1;
            waits = st.waits ++ policy.delay_for st.retry ∷ [];
          },
        )

unfoldable pub conclude :
    ConnectionPolicy → Attempt → Option Class → LoopState → Verdict × LoopState
unfolding recover
conclude policy a none st = (connecting, st)
conclude policy a (some correctable) st = recover policy a st
conclude policy a (some (fatal failure)) st = (failed failure, st)

-- One round of the loop.
unfoldable pub attempt : ConnectionPolicy → Attempt → LoopState → Verdict × LoopState
unfolding classify finish conclude
attempt policy a st =
    if a.closing_before
    then (stopped, st)
    else conclude policy a (classify a.ending) (finish policy a st)

unfoldable pub connect_and_receive :
    ConnectionPolicy → List Attempt → LoopState → Verdict × LoopState
unfolding attempt
connect_and_receive policy [] st = (connecting, st)
connect_and_receive policy (a ∷ as_) st =
    let (verdict, st') = attempt policy a st in
    let rest = connect_and_receive policy as_ st' in
    elim verdict [ connecting ↦ rest | other ↦ (other, st') ]

-- The start of `_aconnect_and_receive`, on the drops of this session.
abbrev pub fresh_loop : List ℕ → LoopState
fresh_loop drops = record { retry = 0; drop_times = drops; notes = []; waits = [] }
