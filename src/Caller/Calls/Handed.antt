-- ===== src/Caller/Calls/Handed.antt =====
-- What a call hands on, whatever interleaves with it.
use rekuest.Prelude.{
  ℕ, ◌≡◌, ◌≢◌, refl, sym, ap, subst, ◌∙◌, String, Bool, true, false, Option, none, some, List, [],
  ◌∷◌, ◌++◌, append_assoc, arith, ◌==◌, if◌then◌else◌, contains, option_list, string_eq, nat_eq,
  Bool-cases, inl, inr,
}
use rekuest.Prelude.Dict.{insert, get_or, lookup-insert, lookup-remove}
use rekuest.Caller.{
  Mirror, CallerTaskEvent, ExecutionEvent, AgentPostman, Response, Accepted, task_of, refused,
  adapt, stream, register_task, drop_call, accept_response,
}
use rekuest.Caller.Arrivals.{arrived, IsSettled, arrived-ensure_queue, ensure_queue-IsSettled}
use rekuest.Caller.Calls.{
  Stage, asking, following, ending, returned, Call, take_response, take_last, take_event, answer_of,
  on_answer, on_queue, advance_at,
}

module _ {V F : Type 0} where
  pub drop_call_lem :
      (request reference : String) (task : Option String) (t : String) (p : AgentPostman V F)
      → IsSettled p
      → IsSettled (drop_call request reference task p)
        × (task ≢ some t → arrived t (drop_call request reference task p) ≡ arrived t p)
  unfolding drop_call IsSettled
  drop_call_lem request reference none t p s = (s, λ h. refl)
  drop_call_lem request reference (some u) t p s = (
    λ v h. ground (
      arith,
      s v,
      h,
      lookup-remove u v p.task_queues,
      lookup-remove u v p.orphan_by_task,
      string_eq.beq_iff v u,
    ),
    λ h. ground (
      arith,
      h,
      lookup-remove u t p.task_queues,
      lookup-remove u t p.orphan_by_task,
      string_eq.beq_iff t u,
    ),
  )

  register_task_lem :
      (reference task t : String) (p : AgentPostman V F)
      → IsSettled p
      → IsSettled (register_task reference task p)
        × (arrived t (register_task reference task p) ≡ arrived t p)
  unfolding register_task
  register_task_lem reference task t p s =
      (ensure_queue-IsSettled task bound (unfold IsSettled in s), arrived-ensure_queue task t bound)
    where
      bound : AgentPostman V F
      bound = record p { reference_to_task = insert reference task p.reference_to_task }

  module _ (terminal : Mirror V F → Bool) where
    -- Taking the head of a task's queue leaves what came for other tasks.
    taken_lem :
        (task t : String) (e : ExecutionEvent V F) (rest : List (ExecutionEvent V F))
        (p : AgentPostman V F)
        → get_or task p.task_queues [] ≡ e ∷ rest
        → IsSettled p
        → let taken = record p { task_queues = insert task rest p.task_queues } in
          IsSettled taken
          × (arrived t p ≡ (if task == t then e ∷ arrived t taken else arrived t taken))
    unfolding IsSettled
    taken_lem task t e rest p q s = (
      λ v h.
          ground
            (arith, s v, h, q, lookup-insert task v rest p.task_queues, string_eq.beq_iff task v),
      ground (arith, q, lookup-insert task t rest p.task_queues, string_eq.beq_iff task t),
    )

    take_response_lem :
        (a : Accepted) (c : Call V F) (t : String) (p : AgentPostman V F)
        → IsSettled p
        → IsSettled (take_response a c p).1 × (arrived t (take_response a c p).1 ≡ arrived t p)
    unfolding take_response
    take_response_lem (refused why) c t p s =
        let d = drop_call_lem c.request c.reference none t p s in (d.0, d.1 (λ e. cc e))
    take_response_lem (task_of task) c t p s = register_task_lem c.reference task t p s

    take_last_lem :
        (o : Option (CallerTaskEvent V F)) (task : String) (c : Call V F) (t : String)
        (p : AgentPostman V F)
        → IsSettled p
        → let p' = (take_last o task c p).1 in
          IsSettled p' × (task ≢ t → arrived t p' ≡ arrived t p)
    unfolding take_last
    take_last_lem (some adapted) task c t p s = (s, λ h. refl)
    take_last_lem none task c t p s =
        let d = drop_call_lem c.request c.reference (some task) t p s in
        (d.0, λ h. d.1 (λ e. h (cc e)))

    take_event_lem :
        (task : String) (seen : List ℕ) (e : ExecutionEvent V F) (rest : List (ExecutionEvent V F))
        (c : Call V F) (t : String) (p : AgentPostman V F)
        → get_or task p.task_queues [] ≡ e ∷ rest
        → IsSettled p
        → let p' = (take_event terminal task seen e rest c p).1 in
          IsSettled p' × (task ≢ t → arrived t p' ≡ arrived t p)
    unfolding take_event
    take_event_lem task seen e rest c t p q s =
        let taken : AgentPostman V F = record p { task_queues = insert task rest p.task_queues } in
        let now = taken_lem task t e rest p q s in
        let handed = c.handed ++ option_list (adapt e) in
        let last_ = take_last_lem (adapt e) task (record c { handed = handed }) t taken now.0 in
        let elsewhere : task ≢ t → arrived t taken ≡ arrived t p =
          λ h. ground (arith, now.1, h, string_eq.beq_iff task t) in
        elim (Bool-cases (contains e.seq seen)) [
          | inl old ↦ rw old (now.0, elsewhere)
          | inr new ↦ elim (Bool-cases (terminal e.mirror)) [
            | inl last ↦ rw (new, last) (last_.0, λ h. last_.1 h ∙ elsewhere h)
            | inr more ↦ rw (new, more) (now.0, elsewhere)
          ]
        ]

    -- How far a call is with the mirrors of its task that came. In words: whatever comes now, all the
    -- mirrors together stream to what was handed on, followed by what the rest streams to.
    abbrev pub Progress :
        String
        → Stage
        → List (CallerTaskEvent V F)
        → List (ExecutionEvent V F)
        → AgentPostman V F
        → Type 0
    Progress t asking handed came p = (handed ≡ []) × (came ≡ arrived t p)
    Progress t (following u seen) handed came p =
        u ≡ t
        → (consumed : List (ExecutionEvent V F)) × (came ≡ consumed ++ arrived t p)
          × ((es : List (ExecutionEvent V F))
              → stream terminal [] (consumed ++ es)
                ≡ (handed ++ (stream terminal seen es).0, (stream terminal seen es).1))
    Progress t (returned u) handed came p =
        u ≡ t
        → (consumed rest : List (ExecutionEvent V F)) × (came ≡ consumed ++ rest)
          × ((es : List (ExecutionEvent V F))
              → stream terminal [] (consumed ++ es) ≡ (handed, true))
    Progress t (ending u) handed came p =
        u ≡ t
        → (consumed rest : List (ExecutionEvent V F)) × (came ≡ consumed ++ rest)
          × ((es : List (ExecutionEvent V F))
              → stream terminal [] (consumed ++ es) ≡ (handed, true))
    Progress t _ handed came p = Unit {0}

    abbrev pub Ahead : String → List (ExecutionEvent V F) → Call V F × AgentPostman V F → Type 0
    Ahead t came (c, p) = Progress t c.stage c.handed came p

    -- The next resumption may touch the task: it takes the task's mirrors, or learns its name.
    abbrev pub touches : String → Stage → Call V F → AgentPostman V F → Bool
    touches t asking c p = elim (answer_of c p) [
      | none ↦ false
      | some r ↦ elim (accept_response r) [ task_of task ↦ task == t | refused why ↦ false ]
    ]
    touches t (following task seen) c p = task == t
    touches t (ending task) c p = task == t
    touches t _ c p = false

    -- A resumption loses nothing, and leaves alone what came for a task that it does not touch.
    pub advance_lem :
        (stage : Stage) (c : Call V F) (t : String) (p : AgentPostman V F)
        → IsSettled p
        → IsSettled (advance_at terminal stage c p).1
          × (touches t stage c p ≡ false
              → arrived t (advance_at terminal stage c p).1 ≡ arrived t p)
    unfolding advance_at on_answer on_queue
    advance_lem asking c t p s = answered (answer_of c p)
      where
        answered :
            (o : Option Response)
            → IsSettled (on_answer o c p).1
              × (touches t asking c p ≡ false → arrived t (on_answer o c p).1 ≡ arrived t p)
        answered none = (s, λ h. refl)
        answered (some r) =
            let taken = take_response_lem (accept_response r) c t p s in (taken.0, λ h. taken.1)
    advance_lem (following task seen) c t p s = queued (get_or task p.task_queues []) refl
      where
        queued :
            (es : List (ExecutionEvent V F))
            → get_or task p.task_queues [] ≡ es
            → IsSettled (on_queue terminal task seen es c p).1
              × (touches t (following task seen) c p ≡ false
                  → arrived t (on_queue terminal task seen es c p).1 ≡ arrived t p)
        queued [] q = (s, λ h. refl)
        queued (e ∷ rest) q =
            let taken = take_event_lem task seen e rest c t p q s in
            (taken.0, λ h. taken.1 (λ e. ground (arith, h, e, string_eq.beq_iff task t)))
    advance_lem (ending task) c t p s =
        let d = drop_call_lem c.request c.reference (some task) t p s in
        (d.0, λ h. d.1 (λ e. ground (arith, h, e, string_eq.beq_iff task t)))
    advance_lem _ c t p s = (s, λ h. refl)

    take_response-Progress :
        (a : Accepted) (c : Call V F) (t : String) (came : List (ExecutionEvent V F))
        (p : AgentPostman V F)
        → IsSettled p
        → c.handed ≡ []
        → came ≡ arrived t p
        → Ahead t came (take_response a c p)
    unfolding take_response
    take_response-Progress (refused why) c t came p s no_events all = tt
    take_response-Progress (task_of task) c t came p s no_events all = λ here.
        ([], all ∙ sym (register_task_lem c.reference task t p s).1, λ es. rw no_events refl)

    -- Whether or not there is something to yield, everything up to the terminal event is handed on.
    take_last-Progress :
        (o : Option (CallerTaskEvent V F)) (task : String) (c : Call V F) (t : String)
        (came : List (ExecutionEvent V F)) (p : AgentPostman V F)
        → Progress t (returned task) c.handed came p
        → Ahead t came (take_last o task c p)
    unfolding take_last
    take_last-Progress (some adapted) task c t came p h = h
    take_last-Progress none task c t came p h = h

    take_event-Progress :
        (task : String) (seen : List ℕ) (e : ExecutionEvent V F) (rest : List (ExecutionEvent V F))
        (c : Call V F) (t : String) (came : List (ExecutionEvent V F)) (p : AgentPostman V F)
        → get_or task p.task_queues [] ≡ e ∷ rest
        → IsSettled p
        → c.stage ≡ following task seen
        → Progress t (following task seen) c.handed came p
        → Ahead t came (take_event terminal task seen e rest c p)
    unfolding take_event stream
    take_event-Progress task seen e rest c t came p q s at_ h =
        let taken : AgentPostman V F = record p { task_queues = insert task rest p.task_queues } in
        let now = taken_lem task t e rest p q s in
        let head : task ≡ t → arrived t p ≡ e ∷ arrived t taken =
          λ here. ground (arith, now.1, here, string_eq.beq_iff task t) in
        let split : (here : task ≡ t) → came ≡ ((h here).0 ++ e ∷ []) ++ arrived t taken = λ here.
          (h here).1
          ∙ ap (λ xs. (h here).0 ++ xs) (head here)
          ∙ sym (append_assoc (h here).0 (e ∷ []) (arrived t taken)) in
        let streamed : (here : task ≡ t) (es : List (ExecutionEvent V F))
            → stream terminal [] (((h here).0 ++ e ∷ []) ++ es)
              ≡ (c.handed ++ (stream terminal seen (e ∷ es)).0, (stream terminal seen (e ∷ es)).1) =
          λ here es.
            ap (stream terminal []) (append_assoc (h here).0 (e ∷ []) es) ∙ (h here).2 (e ∷ es) in
        elim (Bool-cases (contains e.seq seen)) [
          | inl old ↦
              rw (old, at_)
                (λ here. ((h here).0 ++ e ∷ [], split here, λ es. streamed here es ∙ rw old refl))
          | inr new ↦ elim (Bool-cases (terminal e.mirror)) [
            | inl last ↦
                rw (new, last)
                  (take_last-Progress (adapt e) task
                    (record c { handed = c.handed ++ option_list (adapt e) }) t came taken
                    (λ here. (
                      (h here).0 ++ e ∷ [],
                      arrived t taken,
                      split here,
                      λ es. streamed here es ∙ rw (new, last) refl,
                    )))
            | inr more ↦
                rw (new, more)
                  (λ here. (
                    (h here).0 ++ e ∷ [],
                    split here,
                    λ es.
                        streamed here es
                        ∙ rw (new, more)
                            (ap (λ xs. (xs, (stream terminal (e.seq ∷ seen) es).1))
                              (sym (
                                append_assoc c.handed (option_list (adapt e))
                                  (stream terminal (e.seq ∷ seen) es).0))),
                  ))
          ]
        ]

    -- The call's own resumption
    pub advance-Progress :
        (stage : Stage) (c : Call V F) (t : String) (came : List (ExecutionEvent V F))
        (p : AgentPostman V F)
        → c.stage ≡ stage
        → IsSettled p
        → Progress t stage c.handed came p
        → Ahead t came (advance_at terminal stage c p)
    unfolding advance_at on_answer on_queue
    advance-Progress asking c t came p at_ s h = answered (answer_of c p)
      where
        answered : (o : Option Response) → Ahead t came (on_answer o c p)
        answered none = subst (λ st. Progress t st c.handed came p) (sym at_) h
        answered (some r) = take_response-Progress (accept_response r) c t came p s h.0 h.1
    advance-Progress (following task seen) c t came p at_ s h =
        queued (get_or task p.task_queues []) refl
      where
        queued :
            (es : List (ExecutionEvent V F))
            → get_or task p.task_queues [] ≡ es
            → Ahead t came (on_queue terminal task seen es c p)
        queued [] q = subst (λ st. Progress t st c.handed came p) (sym at_) h
        queued (e ∷ rest) q = take_event-Progress task seen e rest c t came p q s at_ h
    advance-Progress (ending task) c t came p at_ s h = h
    advance-Progress _ c t came p at_ s h = subst (λ st. Progress t st c.handed came p) (sym at_) h
