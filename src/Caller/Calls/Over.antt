-- ===== src/Caller/Calls/Over.antt =====
-- Nothing of a call stays with the postman when it is over, and what the server is asked then.
use rekuest.Prelude.{
  option_list, ℕ, ◌≡◌, ◌≤◌, ◌<◌, ◌+◌, ◌*◌, refl, String, Bool, true, false, not, ◌&&◌, Option, none,
  some, List, [], ◌∷◌, ◌++◌, arith, if◌then◌else◌, contains, Bool-cases, string_eq, nat_eq, inl,
  inr, subst,
}
use rekuest.Prelude.Dict.{lookup, insert, get_or, lookup-remove}
use rekuest.Caller.{
  adapt, CallerTaskEvent, Mirror, ExecutionEvent, AgentPostman, Response, Accepted, task_of,
  refused, drop_call, accept_response, await_response,
}
use rekuest.Caller.Cancel.{
  cancel_request, interrupt_request, comes_before, is_cancelled, InOrder, confirm_cancellation_lem,
}
use rekuest.Caller.Calls.{
  Stage, asking, following, ending, returned, Call, begin_call, take_response, take_last,
  take_event, queued_at, answer_of, on_answer, on_queue, advance_at, advance, cancel_at, cancel,
  close_at, close,
}

-- The call's `finally` block has run.
abbrev pub is_over : Stage → Bool
is_over asking = false
is_over (following task seen) = false
is_over (ending task) = false
is_over _ = true

-- The task that a call at this stage was answered with
abbrev pub task_at : Stage → Option String
task_at (following task seen) = some task
task_at (ending task) = some task
task_at (returned task) = some task
task_at _ = none

module _ {V F : Type 0} where
  -- Nothing under the call's request, its reference and its task
  pub record IsGone (request reference : String) (task : Option String) (p : AgentPostman V F)
      : Type 0 where
    pub no_future : lookup request p.pending_responses ≡ none
    pub no_reference : lookup reference p.reference_to_task ≡ none
    pub no_task :
        (t : String)
        → task ≡ some t
        → (lookup t p.task_queues ≡ none)
          × (lookup t p.orphan_by_task ≡ none)
          × (lookup t p.last_seq ≡ none)

  drop_call-IsGone :
      (request reference : String) (task : Option String) (p : AgentPostman V F)
      → IsGone request reference task (drop_call request reference task p)
  unfolding drop_call
  drop_call-IsGone request reference none p = record {
    no_future = ground (
      arith,
      lookup-remove request request p.pending_responses,
      string_eq.beq_iff request request,
    );
    no_reference = ground (
      arith,
      lookup-remove reference reference p.reference_to_task,
      string_eq.beq_iff reference reference,
    );
    no_task = λ t e. absurd (cc e);
  }
  drop_call-IsGone request reference (some task) p = record {
    no_future = ground (
      arith,
      lookup-remove request request p.pending_responses,
      string_eq.beq_iff request request,
    );
    no_reference = ground (
      arith,
      lookup-remove reference reference p.reference_to_task,
      string_eq.beq_iff reference reference,
    );
    no_task = λ t e. ground (
      arith,
      e,
      lookup-remove task t p.task_queues,
      lookup-remove task t p.orphan_by_task,
      lookup-remove task t p.last_seq,
      string_eq.beq_iff t task,
    );
  }

  -- A call that is over left nothing; one that is not may have.
  abbrev LeftNothing : Call V F × AgentPostman V F → Type 0
  LeftNothing (c, p) = is_over c.stage ≡ true → IsGone c.request c.reference (task_at c.stage) p

  take_response-LeftNothing :
      (a : Accepted) (c : Call V F) (p : AgentPostman V F) → LeftNothing (take_response a c p)
  unfolding take_response
  take_response-LeftNothing (refused why) c p h = drop_call-IsGone c.request c.reference none p
  take_response-LeftNothing (task_of task) c p h = absurd (cc h)

  take_last-LeftNothing :
      (o : Option (CallerTaskEvent V F)) (task : String) (c : Call V F) (p : AgentPostman V F)
      → LeftNothing (take_last o task c p)
  unfolding take_last
  take_last-LeftNothing (some adapted) task c p h = absurd (cc h)
  take_last-LeftNothing none task c p h = drop_call-IsGone c.request c.reference (some task) p

  module _ (terminal : Mirror V F → Bool) where
    take_event-LeftNothing :
        (task : String) (seen : List ℕ) (e : ExecutionEvent V F) (rest : List (ExecutionEvent V F))
        (c : Call V F) (p : AgentPostman V F)
        → is_over c.stage ≡ false
        → LeftNothing (take_event terminal task seen e rest c p)
    unfolding take_event
    take_event-LeftNothing task seen e rest c p running =
        let taken : AgentPostman V F = record p { task_queues = insert task rest p.task_queues } in
        elim (Bool-cases (contains e.seq seen)) [
          | inl old ↦ rw old (λ h. absurd (cc (running, h)))
          | inr new ↦ elim (Bool-cases (terminal e.mirror)) [
            | inl last ↦
                rw (new, last)
                  (take_last-LeftNothing (adapt e) task
                    (record c { handed = c.handed ++ option_list (adapt e) }) taken)
            | inr more ↦ rw (new, more) (λ h. absurd (cc h))
          ]
        ]

    advance_at-LeftNothing :
        (stage : Stage) (c : Call V F) (p : AgentPostman V F)
        → c.stage ≡ stage
        → is_over c.stage ≡ false
        → LeftNothing (advance_at terminal stage c p)
    unfolding advance_at on_answer on_queue
    advance_at-LeftNothing asking c p at_ running = answered (answer_of c p)
      where
        answered : (o : Option Response) → LeftNothing (on_answer o c p)
        answered none = λ h. absurd (cc (running, h))
        answered (some r) = take_response-LeftNothing (accept_response r) c p
    advance_at-LeftNothing (following task seen) c p at_ running =
        queued (get_or task p.task_queues [])
      where
        queued : (es : List (ExecutionEvent V F)) → LeftNothing (on_queue terminal task seen es c p)
        queued [] = λ h. absurd (cc (running, h))
        queued (e ∷ rest) = take_event-LeftNothing task seen e rest c p running
    advance_at-LeftNothing (ending task) c p at_ running =
        λ h. drop_call-IsGone c.request c.reference (some task) p
    advance_at-LeftNothing _ c p at_ running = λ h. absurd (cc (running, h))

    cancel_at-IsGone :
        (escalate : Bool) (timeout now : ℕ) (later : List (ℕ × Mirror V F)) (stage : Stage)
        (c : Call V F) (p : AgentPostman V F)
        → is_over stage ≡ false
        → IsGone c.request c.reference
            (task_at stage)
            (cancel_at escalate timeout now later stage c p).1
    unfolding cancel_at
    cancel_at-IsGone escalate timeout now later asking c p h =
        drop_call-IsGone c.request c.reference none p
    cancel_at-IsGone escalate timeout now later (following task seen) c p h =
        drop_call-IsGone c.request c.reference (some task) p
    cancel_at-IsGone escalate timeout now later (ending task) c p h =
        drop_call-IsGone c.request c.reference (some task) p
    cancel_at-IsGone escalate timeout now later _ c p h = absurd (cc h)

    close_at-IsGone :
        (stage : Stage) (c : Call V F) (p : AgentPostman V F) (task : String)
        → task_at stage ≡ some task
        → is_over stage ≡ false
        → IsGone c.request c.reference (some task) (close_at stage c p).1
          × ((close_at stage c p).2 ≡ cancel_request ∷ [])
    unfolding close_at
    close_at-IsGone (following u seen) c p task e h = (
      subst (λ o. IsGone c.request c.reference o (drop_call c.request c.reference (some u) p)) e
          (drop_call-IsGone c.request c.reference (some u) p),
      refl,
    )
    close_at-IsGone (ending u) c p task e h = (
      subst (λ o. IsGone c.request c.reference o (drop_call c.request c.reference (some u) p)) e
          (drop_call-IsGone c.request c.reference (some u) p),
      refl,
    )
    close_at-IsGone _ c p task e h = absurd (cc (e, h))

    -- A call leaves nothing under its request, its reference and its task, however it ends: when the
    -- request could not be sent; when its own resumption ends it, be it that the answer refused it or
    -- that a terminal mirror came; when it is cancelled; and when it is closed once it has a task, be it
    -- that it follows the task or stands at the yield of a terminal event: then the server is asked to
    -- cancel the task, in the second case too, although it is over. What is said of a task is said of the one it was answered with, if it took the
    -- answer.
    pub ended_call-IsGone :
        (c : Call V F) (p : AgentPostman V F)
        → is_over c.stage ≡ false
        → let (after, p') = advance terminal c p in
          ((request reference : String)
            → IsGone request reference none (begin_call false request reference p).1)
          × (is_over after.stage ≡ true
              → IsGone after.request after.reference (task_at after.stage) p')
          × ((escalate : Bool) (timeout now : ℕ) (later : List (ℕ × Mirror V F))
              → IsGone c.request c.reference
                  (task_at c.stage)
                  (cancel escalate timeout now later c p).1)
          × ((task : String)
              → task_at c.stage ≡ some task
              → IsGone c.request c.reference (some task) (close c p).1
                × ((close c p).2 ≡ cancel_request ∷ []))
    unfolding advance cancel close begin_call
    ended_call-IsGone c p running = (
      λ request reference. drop_call-IsGone request reference none (await_response request p),
      advance_at-LeftNothing c.stage c p refl running,
      λ escalate timeout now later. cancel_at-IsGone escalate timeout now later c.stage c p running,
      λ task e. close_at-IsGone c.stage c p task e running,
    )

  InOrder-append :
      (now : ℕ) (queue : List (ExecutionEvent V F)) (later : List (ℕ × Mirror V F))
      → InOrder now later
      → InOrder now (queued_at now queue ++ later)
  InOrder-append now [] later h = h
  InOrder-append now (e ∷ queue) later h = (omega arith, InOrder-append now queue later h)

  -- Cancelling a call that waits for its answer ends it at once and asks the server for nothing, so that
  -- a task which the server has made by then, or makes later, goes on. Cancelling one that follows its
  -- task, with a positive timeout and mirrors that arrive in order, asks to cancel; it asks to interrupt
  -- too just when it may and no cancelled mirror is queued or arrives within the timeout; and it is over
  -- within one timeout, or two if it may interrupt.
  pub cancelled_call_asks :
      (escalate : Bool) (timeout now : ℕ) (later : List (ℕ × Mirror V F)) (c : Call V F)
      (p : AgentPostman V F)
      → 0 < timeout
      → InOrder now later
      → let (after, p', requests, over_at) = cancel escalate timeout now later c p in
        (c.stage ≡ asking → (requests ≡ []) × (over_at ≡ now))
        × ((task : String) (seen : List ℕ)
            → c.stage ≡ following task seen
            → let queued = queued_at now (get_or task p.task_queues []) in
              let in_time = comes_before is_cancelled (now + timeout) (queued ++ later) in
              (requests
                ≡ cancel_request ∷ (if escalate && not in_time then interrupt_request ∷ [] else []))
              × (over_at ≤ now + (if escalate then 2 * timeout else timeout)))
  unfolding cancel cancel_at
  cancelled_call_asks escalate timeout now later c p h o = (
    λ e. rw e (refl, refl),
    λ task seen e.
        let queue : List (ExecutionEvent V F) = get_or task p.task_queues [] in
        let confirmed =
          confirm_cancellation_lem escalate timeout now now (queued_at now queue ++ later) h
            (InOrder-append now queue later o) in
        rw e (confirmed.0, confirmed.2),
  )
