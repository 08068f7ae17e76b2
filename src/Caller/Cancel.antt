-- ===== src/Caller/Cancel.antt =====
-- The end of a call that its task gives up: `_confirm_cancellation` and `_await_terminal`. The queue
-- is a script of mirrors, each with the time at which it arrives. Sending only queues a frame and
-- takes no time here; whether it fails is only logged.
use rekuest.Prelude.{
  ℕ, ◌+◌, ◌*◌, ◌≤◌, ◌<◌, max, ◌≡◌, refl, inl, inr, Bool, true, false, not, ◌&&◌, ◌||◌, List, [],
  ◌∷◌, arith, leb, if◌then◌else◌, Bool-cases,
}
use rekuest.Caller.{Mirror, cancelled_event, interrupted_event}

pub data Control : Type 0 where
  cancel_request interrupt_request : Control

-- The requests sent, whether the end was confirmed, and when it returns.
pub record Confirmation : Type 0 where
  pub requests : List Control
  pub confirmed : Bool
  pub returned_at : ℕ

module _ {V F : Type 0} where
  -- `CancelledEvent`, and either of the two types
  abbrev pub is_cancelled : Mirror V F → Bool
  is_cancelled cancelled_event = true
  is_cancelled _ = false

  abbrev pub is_wound_down : Mirror V F → Bool
  is_wound_down cancelled_event = true
  is_wound_down interrupted_event = true
  is_wound_down _ = false

  -- Whether a wanted mirror came in time, when the wait ended, and what is left in the queue. A mirror
  -- that comes at the deadline itself is too late.
  unfoldable pub await_terminal :
      (Mirror V F → Bool) → ℕ → ℕ → List (ℕ × Mirror V F) → Bool × ℕ × List (ℕ × Mirror V F)
  await_terminal wanted deadline now [] = (false, max now deadline, [])
  await_terminal wanted deadline now ((arrives, mirror) ∷ rest) =
      let later = await_terminal wanted deadline (max now arrives) rest in
      if leb deadline (max now arrives)
      then (false, max now deadline, (arrives, mirror) ∷ rest)
      else if wanted mirror
      then (true, max now arrives, rest)
      else later

  unfoldable pub confirm_cancellation : Bool → ℕ → ℕ → List (ℕ × Mirror V F) → Confirmation
  unfolding await_terminal
  confirm_cancellation escalate_to_interrupt timeout now queue =
      let (ended, t, left) = await_terminal is_cancelled (now + timeout) now queue in
      let (ended', t', left') = await_terminal is_wound_down (t + timeout) t left in
      if ended
      then record { requests = cancel_request ∷ []; confirmed = true; returned_at = t }
      else if not escalate_to_interrupt
      then record { requests = cancel_request ∷ []; confirmed = false; returned_at = t }
      else record {
        requests = cancel_request ∷ interrupt_request ∷ [];
        confirmed = ended';
        returned_at = t';
      }

  -- Whether a wanted mirror arrives before the deadline.
  abbrev pub comes_before : (Mirror V F → Bool) → ℕ → List (ℕ × Mirror V F) → Bool
  comes_before wanted deadline [] = false
  comes_before wanted deadline ((arrives, mirror) ∷ rest) =
      (not (leb deadline arrives) && wanted mirror) || comes_before wanted deadline rest

  -- Mirrors arrive in the queue's order, none before the time given.
  abbrev pub InOrder : ℕ → List (ℕ × Mirror V F) → Type 0
  InOrder since [] = Unit
  InOrder since ((arrives, mirror) ∷ rest) = (since ≤ arrives) × InOrder arrives rest

  comes_late :
      (wanted : Mirror V F → Bool) (deadline since : ℕ) (queue : List (ℕ × Mirror V F))
      → deadline ≤ since
      → InOrder since queue
      → comes_before wanted deadline queue ≡ false
  comes_late wanted deadline since [] h o = refl
  comes_late wanted deadline since ((a, m) ∷ rest) h o =
      ground (arith, comes_late wanted deadline a rest)

  -- A wait ends by its deadline, and it finds what it waits for just when that arrives in time,
  -- whatever else comes before it.
  pub await_terminal_lem :
      (wanted : Mirror V F → Bool) (deadline now since : ℕ) (queue : List (ℕ × Mirror V F))
      → now < deadline
      → InOrder since queue
      → let (found, ended_at, left) = await_terminal wanted deadline now queue in
        (found ≡ comes_before wanted deadline queue) × (ended_at ≤ deadline)
  unfolding await_terminal
  await_terminal_lem wanted deadline now since [] h o = (refl, omega (arith, h))
  await_terminal_lem wanted deadline now since ((a, m) ∷ rest) h o =
      elim (Bool-cases (leb deadline a)) [
        | inl e ↦ ground (arith, comes_late wanted deadline a rest)
        | inr e ↦ ground (arith, await_terminal_lem wanted deadline (max now a) a rest)
      ]

  await_terminal-ends :
      (wanted : Mirror V F → Bool) (deadline now : ℕ) (queue : List (ℕ × Mirror V F))
      → (await_terminal wanted deadline now queue).1 ≤ max now deadline
  unfolding await_terminal
  await_terminal-ends wanted deadline now [] = omega arith
  await_terminal-ends wanted deadline now ((a, m) ∷ rest) =
      ground (arith, await_terminal-ends wanted deadline (max now a) rest)

  -- With a positive timeout and mirrors that arrive in the queue's order, confirming a cancellation
  -- asks to cancel and returns within one timeout, or two if it may escalate. It asks to interrupt
  -- just when it may escalate and no cancelled mirror arrives within the first timeout; one that does
  -- confirms the end.
  pub confirm_cancellation_lem :
      (escalate : Bool) (timeout now since : ℕ) (queue : List (ℕ × Mirror V F))
      → 0 < timeout
      → InOrder since queue
      → let c = confirm_cancellation escalate timeout now queue in
        let in_time = comes_before is_cancelled (now + timeout) queue in
        (c.requests
          ≡ cancel_request ∷ (if escalate && not in_time then interrupt_request ∷ [] else []))
        × (in_time ≡ true → c.confirmed ≡ true)
        × (c.returned_at ≤ now + (if escalate then 2 * timeout else timeout))
  unfolding confirm_cancellation
  confirm_cancellation_lem escalate timeout now since queue h o =
      let first = await_terminal is_cancelled (now + timeout) now queue in
      ground (
        arith,
        await_terminal_lem is_cancelled (now + timeout) now since queue (omega (arith, h)) o,
        await_terminal-ends is_wound_down (first.1 + timeout) first.1 first.2,
      )
