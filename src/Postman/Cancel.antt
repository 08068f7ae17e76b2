-- ===== src/Postman/Cancel.antt =====
-- The end of a call that is cancelled, before or after the server's answer names its task. The queue
-- is a script of items, each with the time at which it arrives, and a request is given by the time
-- that its answer takes.
use rekuest.Prelude.{
  ℕ, ◌+◌, ◌*◌, ◌≤◌, min, max, ◌≡◌, ◌↔◌, ◌⊎◌, refl, inl, inr, String, Bool, true, false, not, Option,
  none, some, List, [], ◌∷◌, arith, leb, if◌then◌else◌, Bool-cases, string_eq,
}
use rekuest.Prelude.Dict.{lookup, lookup-remove}
use rekuest.Postman.{
  EventKind, cancelled, interrupted, Item, event, feed_lost, GraphqlPostman, bind,
  cleanup_reference,
}

abbrev pub is_cancelled : EventKind → Bool
is_cancelled cancelled = true
is_cancelled _ = false

-- `{TaskEventKind.INTERRUPTED, TaskEventKind.CANCELLED}`
abbrev pub is_ended : EventKind → Bool
is_ended cancelled = true
is_ended interrupted = true
is_ended _ = false

pub data Request : Type 0 where
  cancel interrupt : Request

-- The requests sent, whether the end was confirmed, and when it returns.
pub record Confirmation : Type 0 where
  pub requests : List Request
  pub confirmed : Bool
  pub returned_at : ℕ

-- `_send_cancel` and `_send_interrupt`: when the request is done with, at the latest by its timeout.
abbrev pub send_request : ℕ → ℕ → ℕ → ℕ
send_request timeout takes now = now + min takes timeout

-- The assign in flight: the time that its answer takes, and the task, if it did not fail. What is
-- known of the task, and when.
unfoldable pub assigned_despite_cancel : ℕ → ℕ × Option String → ℕ → Option String × ℕ
assigned_despite_cancel timeout (takes, task) now =
    if leb timeout takes then (none, now + timeout) else (task, now + takes)

module _ {P : Type 0} where
  -- Whether an event of one of the kinds came in time, when the wait ended, and what is left. An item
  -- that comes at the deadline itself is too late.
  unfoldable pub await_kind :
      (EventKind → Bool) → ℕ → ℕ → List (ℕ × Item P) → Bool × ℕ × List (ℕ × Item P)
  await_kind kinds deadline now [] = (false, max now deadline, [])
  await_kind kinds deadline now ((arrives, feed_lost reason) ∷ rest) =
      if leb deadline (max now arrives)
      then (false, max now deadline, (arrives, feed_lost reason) ∷ rest)
      else (false, max now arrives, rest)
  await_kind kinds deadline now ((arrives, event e) ∷ rest) =
      let later = await_kind kinds deadline (max now arrives) rest in
      if leb deadline (max now arrives)
      then (false, max now deadline, (arrives, event e) ∷ rest)
      else if kinds e.kind
      then (true, max now arrives, rest)
      else later

  unfoldable pub confirm_cancellation : Bool → ℕ → ℕ → ℕ → ℕ → List (ℕ × Item P) → Confirmation
  unfolding await_kind
  confirm_cancellation escalate_to_interrupt timeout cancel_takes interrupt_takes now queue =
      let sent = send_request timeout cancel_takes now in
      let (ended, t, left) = await_kind is_cancelled (sent + timeout) sent queue in
      let sent' = send_request timeout interrupt_takes t in
      let (ended', t', left') = await_kind is_ended (sent' + timeout) sent' left in
      if ended
      then record { requests = cancel ∷ []; confirmed = true; returned_at = t }
      else if not escalate_to_interrupt
      then record { requests = cancel ∷ []; confirmed = false; returned_at = t }
      else record { requests = cancel ∷ interrupt ∷ []; confirmed = ended'; returned_at = t' }

  -- The arm of `aassign` for a call that is cancelled before the answer: the requests, if any, when it
  -- raises, and the postman.
  unfoldable pub cancel_in_flight :
      Bool
      → ℕ
      → ℕ × Option String
      → ℕ
      → ℕ
      → ℕ
      → List (ℕ × Item P)
      → String
      → GraphqlPostman P
      → List Request × ℕ × GraphqlPostman P
  unfolding assigned_despite_cancel confirm_cancellation
  cancel_in_flight escalate timeout answer cancel_takes interrupt_takes now queue reference p =
      let (task, t) = assigned_despite_cancel timeout answer now in
      elim task [
        | none ↦ ([], t, cleanup_reference reference p)
        | some task_id ↦
            let c = confirm_cancellation escalate timeout cancel_takes interrupt_takes t queue in
            (c.requests, c.returned_at, cleanup_reference reference (bind task_id reference p))
      ]

  await_kind-ends :
      (kinds : EventKind → Bool) (deadline now : ℕ) (queue : List (ℕ × Item P))
      → (await_kind kinds deadline now queue).1 ≤ max now deadline
  unfolding await_kind
  await_kind-ends kinds deadline now [] = omega arith
  await_kind-ends kinds deadline now ((a, feed_lost reason) ∷ rest) = ground arith
  await_kind-ends kinds deadline now ((a, event e) ∷ rest) =
      ground (arith, await_kind-ends kinds deadline (max now a) rest)

  pub confirm_cancellation-ends :
      (escalate : Bool) (timeout cancel_takes interrupt_takes now : ℕ) (queue : List (ℕ × Item P))
      → (confirm_cancellation escalate timeout cancel_takes interrupt_takes now queue).returned_at
        ≤ now + (if escalate then 4 * timeout else 2 * timeout)
  unfolding confirm_cancellation
  confirm_cancellation-ends escalate timeout cancel_takes interrupt_takes now queue =
      let sent = send_request timeout cancel_takes now in
      let first = await_kind is_cancelled (sent + timeout) sent queue in
      let sent' = send_request timeout interrupt_takes first.1 in
      ground (
        arith,
        await_kind-ends is_cancelled (sent + timeout) sent queue,
        await_kind-ends is_ended (sent' + timeout) sent' first.2,
      )

  lookup-cleanup_reference :
      (reference : String) (p : GraphqlPostman P)
      → lookup reference (cleanup_reference reference p).update_queues ≡ none
  unfolding cleanup_reference
  lookup-cleanup_reference reference p = ground (
    arith,
    lookup-remove reference reference p.update_queues,
    string_eq.beq_iff reference reference,
  )

  pub confirm_cancellation-asks :
      (escalate : Bool) (timeout cancel_takes interrupt_takes now : ℕ) (queue : List (ℕ × Item P))
      → (more : List Request) × ((confirm_cancellation escalate timeout cancel_takes interrupt_takes
            now queue).requests
          ≡ cancel ∷ more)
  unfolding confirm_cancellation
  confirm_cancellation-asks escalate timeout cancel_takes interrupt_takes now queue =
      let sent = send_request timeout cancel_takes now in
      elim (Bool-cases (await_kind is_cancelled (sent + timeout) sent queue).0) [
        | inl e ↦ ([], ground arith)
        | inr e ↦ elim (Bool-cases escalate) [
          | inl f ↦ (interrupt ∷ [], ground arith)
          | inr f ↦ ([], ground arith)
        ]
      ]

  -- A call that is cancelled before its answer ends within three timeouts, or five if it may escalate,
  -- and leaves no queue behind. It asks for nothing just when the assign fails or its answer does not
  -- come within one timeout.
  pub cancel_in_flight_lem :
      (escalate : Bool) (timeout takes : ℕ) (task : Option String)
      (cancel_takes interrupt_takes now : ℕ) (queue : List (ℕ × Item P)) (reference : String)
      (p : GraphqlPostman P)
      → let (requests, ends_at, p') =
          cancel_in_flight escalate timeout
            (takes, task)
            cancel_takes
            interrupt_takes
            now
            queue
            reference
            p in
        (ends_at ≤ now + (if escalate then 5 * timeout else 3 * timeout))
        × (lookup reference p'.update_queues ≡ none)
        × ((requests ≡ []) ↔ ((task ≡ none) ⊎ (timeout ≤ takes)))
  unfolding cancel_in_flight assigned_despite_cancel
  cancel_in_flight_lem escalate timeout takes none cancel_takes interrupt_takes now queue reference
        p =
      (
        ground arith,
        ground (arith, lookup-cleanup_reference reference p),
        (λ h. inl refl, λ h. ground arith),
      )
  cancel_in_flight_lem escalate timeout takes (some task) cancel_takes interrupt_takes now queue
        reference p =
      elim (Bool-cases (leb timeout takes)) [
        | inl late ↦ (
          ground arith,
          ground (arith, lookup-cleanup_reference reference p),
          (λ h. inr (ground arith), λ h. ground arith),
        )
        | inr early ↦
            let asks =
              confirm_cancellation-asks escalate timeout cancel_takes interrupt_takes (now + takes)
                queue in
            (
              ground (
                arith,
                confirm_cancellation-ends escalate timeout cancel_takes interrupt_takes
                    (now + takes) queue,
              ),
              ground (arith, lookup-cleanup_reference reference (bind task reference p)),
              (λ h. ground (arith, asks.1), λ h. ground (arith, asks.1)),
            )
      ]
