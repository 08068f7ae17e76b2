-- ===== src/Caller/Arrivals.antt =====
-- Mirrors may come before the answer that names their task: none is lost, and their order is kept.
use rekuest.Prelude.{
  truthy, ◌≡◌, refl, sym, ap, ◌∙◌, String, true, ◌||◌, Option, none, some, List, [], ◌∷◌, ◌++◌,
  append-nil, append_assoc, arith, ◌==◌, if◌then◌else◌, string_eq, Option-cases, inl, inr,
}
use rekuest.Prelude.Dict.{lookup, insert, get_or, has, lookup-insert, lookup-remove}
use rekuest.Caller.{
  ExecutionEvent, AgentPostman, Response, ensure_queue, register_task, resolve, handle_response,
  handle_execution_event, response_id, new_postman,
}

-- What the message loop hands to the postman.
pub data Input (V F : Type 0) : Type 0 where
  mirror_came : ExecutionEvent V F → Input V F
  answer_came : Response → Input V F

module _ {V F : Type 0} where
  -- All mirrors of a task that have come, wherever they wait.
  abbrev pub arrived : String → AgentPostman V F → List (ExecutionEvent V F)
  arrived t p = get_or t p.task_queues [] ++ get_or t p.orphan_by_task []

  -- Nothing is parked for a task that has a queue.
  unfoldable pub IsSettled : AgentPostman V F → Type 0
  IsSettled p = (t : String) → has t p.task_queues ≡ true → get_or t p.orphan_by_task [] ≡ []

  pub ensure_queue_lem :
      (task t : String) (p : AgentPostman V F)
      → (get_or t (ensure_queue task p).task_queues []
          ≡ (if task == t then arrived task p else get_or t p.task_queues []))
        × (has t (ensure_queue task p).task_queues ≡ ((task == t) || has t p.task_queues))
        × (get_or t (ensure_queue task p).orphan_by_task []
            ≡ (if task == t then [] else get_or t p.orphan_by_task []))
  unfolding ensure_queue
  ensure_queue_lem task t p = ground (
    arith,
    lookup-insert task t (arrived task p) p.task_queues,
    lookup-remove task t p.orphan_by_task,
    string_eq.beq_iff task t,
    string_eq.beq_iff t task,
  )

  pub arrived-ensure_queue :
      (task t : String) (p : AgentPostman V F) → arrived t (ensure_queue task p) ≡ arrived t p
  arrived-ensure_queue task t p =
      ground
        (arith, ensure_queue_lem task t p, string_eq.beq_iff task t, append-nil (arrived task p))

  pub ensure_queue-IsSettled :
      (task : String) (p : AgentPostman V F) → IsSettled p → IsSettled (ensure_queue task p)
  unfolding IsSettled
  ensure_queue-IsSettled task p s t h = ground (arith, ensure_queue_lem task t p, s t)

  handle_execution_event-IsSettled :
      (e : ExecutionEvent V F) (p : AgentPostman V F)
      → IsSettled p
      → IsSettled (handle_execution_event e p)
  unfolding IsSettled handle_execution_event
  handle_execution_event-IsSettled e p s t h = elim (Option-cases (lookup e.task p.task_queues)) [
    | inl none_ ↦ ground (
      arith,
      s t,
      lookup-insert e.task t (get_or e.task p.orphan_by_task [] ++ e ∷ []) p.orphan_by_task,
      string_eq.beq_iff e.task t,
    )
    | inr (q, some_) ↦
        ground (
          arith,
          s t,
          lookup-insert e.task t (q ++ e ∷ []) p.task_queues,
          string_eq.beq_iff e.task t,
        )
  ]

  -- A mirror is added behind those of its task that came before it, and to no other task.
  pub arrived-handle_execution_event :
      (e : ExecutionEvent V F) (t : String) (p : AgentPostman V F)
      → IsSettled p
      → arrived t (handle_execution_event e p) ≡ arrived t p ++ (if e.task == t then e ∷ [] else [])
  unfolding IsSettled handle_execution_event
  arrived-handle_execution_event e t p s = elim (Option-cases (lookup e.task p.task_queues)) [
    | inl none_ ↦ ground (
      arith,
      lookup-insert e.task t (get_or e.task p.orphan_by_task [] ++ e ∷ []) p.orphan_by_task,
      string_eq.beq_iff e.task t,
      append-nil (arrived t p),
    )
    | inr (q, some_) ↦ ground (
      arith,
      s e.task,
      lookup-insert e.task t (q ++ e ∷ []) p.task_queues,
      string_eq.beq_iff e.task t,
      append-nil (arrived t p),
      append-nil (q ++ e ∷ []),
      append-nil q,
    )
  ]

  arrived-resolve :
      (r : Response) (t : String) (p : AgentPostman V F) → arrived t (resolve r p) ≡ arrived t p
  unfolding resolve
  arrived-resolve r t p = ground arith

  resolve-IsSettled : (r : Response) (p : AgentPostman V F) → IsSettled p → IsSettled (resolve r p)
  unfolding IsSettled resolve
  resolve-IsSettled r p s t h = ground (arith, s t)

  abbrev pub receive : Input V F → AgentPostman V F → AgentPostman V F
  receive (mirror_came e) p = handle_execution_event e p
  receive (answer_came r) p = handle_response r p

  abbrev pub receive_all : List (Input V F) → AgentPostman V F → AgentPostman V F
  receive_all [] p = p
  receive_all (i ∷ is) p = receive_all is (receive i p)

  -- The mirrors of a task among the inputs, in order.
  abbrev pub mirrors_of : String → List (Input V F) → List (ExecutionEvent V F)
  mirrors_of t [] = []
  mirrors_of t (mirror_came e ∷ is) = (if e.task == t then e ∷ [] else []) ++ mirrors_of t is
  mirrors_of t (answer_came r ∷ is) = mirrors_of t is

  handle_response_lem :
      (r : Response) (t : String) (p : AgentPostman V F)
      → IsSettled p
      → (arrived t (handle_response r p) ≡ arrived t p) × IsSettled (handle_response r p)
  unfolding handle_response
  handle_response_lem r t p s = go (truthy (response_id r)) (truthy r.error)
    where
      state : Option String → Option String → AgentPostman V F
      state id error = elim id [
        | none ↦ p
        | some task ↦ elim error [ none ↦ ensure_queue task p | some e ↦ p ]
      ]

      go :
          (id error : Option String)
          → (arrived t (resolve r (state id error)) ≡ arrived t p)
            × IsSettled (resolve r (state id error))
      go none error = (arrived-resolve r t p, resolve-IsSettled r p s)
      go (some task) (some e) = (arrived-resolve r t p, resolve-IsSettled r p s)
      go (some task) none = (
        arrived-resolve r t (ensure_queue task p) ∙ arrived-ensure_queue task t p,
        resolve-IsSettled r (ensure_queue task p) (ensure_queue-IsSettled task p s),
      )

  pub receive_all_lem :
      (is : List (Input V F)) (t : String) (p : AgentPostman V F)
      → IsSettled p
      → (arrived t (receive_all is p) ≡ arrived t p ++ mirrors_of t is)
        × IsSettled (receive_all is p)
  receive_all_lem [] t p s = (sym (append-nil (arrived t p)), s)
  receive_all_lem (mirror_came e ∷ is) t p s =
      let ih =
        receive_all_lem is t (handle_execution_event e p)
          (handle_execution_event-IsSettled e p s) in
      (
        ih.0
            ∙ ap (λ xs. xs ++ mirrors_of t is) (arrived-handle_execution_event e t p s)
            ∙ append_assoc (arrived t p) (if e.task == t then e ∷ [] else []) (mirrors_of t is),
        ih.1,
      )
  receive_all_lem (answer_came r ∷ is) t p s =
      let now = handle_response_lem r t p s in
      let ih = receive_all_lem is t (handle_response r p) now.1 in
      (ih.0 ∙ ap (λ xs. xs ++ mirrors_of t is) now.0, ih.1)

  -- However the mirrors of a task and the answers of the server interleave, the queue that the call
  -- registers holds all of the task's mirrors that came since the postman was new, in the order in
  -- which they came, and nothing of the task stays parked.
  pub queue_of_call :
      (is : List (Input V F)) (reference t : String)
      → let p = register_task reference t (receive_all is new_postman) in
        (get_or t p.task_queues [] ≡ mirrors_of t is) × (get_or t p.orphan_by_task [] ≡ [])
  unfolding register_task lookup
  queue_of_call is reference t =
      let all = receive_all_lem is t new_postman settled in
      let q = ensure_queue_lem t t (bound (receive_all is new_postman)) in
      let here = string_eq.beq_iff t t in (ground (arith, q, here, all), ground (arith, q, here))
    where
      bound : AgentPostman V F → AgentPostman V F
      bound p = record p { reference_to_task = insert reference t p.reference_to_task }

      settled : IsSettled new_postman
      settled = unfold IsSettled in λ s h. refl
