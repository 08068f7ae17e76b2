-- ===== src/Caller/Calls/Runs.antt =====
-- One call among any others, on the postman that they all share: the interleavings of its own
-- resumptions with the arriving mirrors and answers and with the other calls.
use rekuest.Prelude.{
  ℕ, ◌≡◌, refl, sym, ap, subst, ◌∙◌, String, Bool, true, false, Option, none, some, List, [], ◌∷◌,
  ◌++◌, append-nil, append_assoc, arith, string_eq,
}
use rekuest.Prelude.Dict.{lookup}
use rekuest.Caller.{
  Mirror, CallerTaskEvent, ExecutionEvent, AgentPostman, stream, new_postman, await_response,
  drop_call,
}
use rekuest.Caller.Arrivals.{Input, receive, mirrors_of, arrived, IsSettled, receive_all_lem}
use rekuest.Caller.Calls.{
  Stage, asking, following, ending, returned, Call, begin_call, advance, close, close_at, cancel,
  cancel_at,
}
use rekuest.Caller.Calls.Handed.{Progress, touches, drop_call_lem, advance_lem, advance-Progress}

-- `came` are the mirrors of one task that came since the postman was new. There is no call before it
-- is begun.
pub record World (V F : Type 0) : Type 0 where
  pub postman : AgentPostman V F
  pub call : Option (Call V F)
  pub came : List (ExecutionEvent V F)

module _ {V F : Type 0} (terminal : Mirror V F → Bool) (t : String) where
  pub data Step : World V F → World V F → Type 0 where
    receives :
        (i : Input V F) (w : World V F)
        → Step w
            (record w { postman = receive i w.postman; came = w.came ++ mirrors_of t (i ∷ []) })
    begins :
        (request reference : String) (w : World V F)
        → w.call ≡ none
        → Step w (record w {
          postman = (begin_call true request reference w.postman).1;
          call = some (begin_call true request reference w.postman).0;
        })
    advances :
        (c : Call V F) (w : World V F)
        → w.call ≡ some c
        → Step w (record w {
          postman = (advance terminal c w.postman).1;
          call = some (advance terminal c w.postman).0;
        })
    other_begins :
        (sent : Bool) (request reference : String) (w : World V F)
        → Step w (record w { postman = (begin_call sent request reference w.postman).1 })
    -- The other calls have other tasks.
    other_advances :
        (c : Call V F) (w : World V F)
        → touches terminal t c.stage c w.postman ≡ false
        → Step w (record w { postman = (advance terminal c w.postman).1 })
    other_closes :
        (c : Call V F) (w : World V F)
        → touches terminal t c.stage c w.postman ≡ false
        → Step w (record w { postman = (close c w.postman).1 })
    other_is_cancelled :
        (escalate : Bool) (timeout now : ℕ) (later : List (ℕ × Mirror V F)) (c : Call V F)
        (w : World V F)
        → touches terminal t c.stage c w.postman ≡ false
        → Step w (record w { postman = (cancel escalate timeout now later c w.postman).1 })

  pub data Reach : World V F → Type 0 where
    new : Reach (record { postman = new_postman; call = none; came = [] })
    then_ : {w w' : World V F} → Reach w → Step w w' → Reach w'

  abbrev OnTheWay : Option (Call V F) → List (ExecutionEvent V F) → AgentPostman V F → Type 0
  OnTheWay none came p = came ≡ arrived t p
  OnTheWay (some c) came p = Progress terminal t c.stage c.handed came p

  Progress-more :
      (stage : Stage) (handed : List (CallerTaskEvent V F)) (came more : List (ExecutionEvent V F))
      (p p' : AgentPostman V F)
      → arrived t p' ≡ arrived t p ++ more
      → Progress terminal t stage handed came p
      → Progress terminal t stage handed (came ++ more) p'
  Progress-more asking handed came more p p' e (no_events, all) =
      (no_events, ap (λ xs. xs ++ more) all ∙ sym e)
  Progress-more (following u seen) handed came more p p' e h = λ here.
      let (consumed, split, streamed) = h here in
      (
        consumed,
        ap (λ xs. xs ++ more) split
            ∙ append_assoc consumed (arrived t p) more
            ∙ ap (λ xs. consumed ++ xs) (sym e),
        streamed,
      )
  Progress-more (returned u) handed came more p p' e h = λ here.
      let (consumed, rest, split, streamed) = h here in
      (
        consumed,
        rest ++ more,
        ap (λ xs. xs ++ more) split ∙ append_assoc consumed rest more,
        streamed,
      )
  Progress-more (ending u) handed came more p p' e h = λ here.
      let (consumed, rest, split, streamed) = h here in
      (
        consumed,
        rest ++ more,
        ap (λ xs. xs ++ more) split ∙ append_assoc consumed rest more,
        streamed,
      )
  Progress-more _ handed came more p p' e h = tt

  OnTheWay-more :
      (call : Option (Call V F)) (came more : List (ExecutionEvent V F)) (p p' : AgentPostman V F)
      → arrived t p' ≡ arrived t p ++ more
      → OnTheWay call came p
      → OnTheWay call (came ++ more) p'
  OnTheWay-more none came more p p' e h = ap (λ xs. xs ++ more) h ∙ sym e
  OnTheWay-more (some c) came more p p' e h = Progress-more c.stage c.handed came more p p' e h

  OnTheWay-same :
      (call : Option (Call V F)) (came : List (ExecutionEvent V F)) (p p' : AgentPostman V F)
      → arrived t p' ≡ arrived t p
      → OnTheWay call came p
      → OnTheWay call came p'
  OnTheWay-same call came p p' e h =
      subst (λ xs. OnTheWay call xs p') (append-nil came)
        (OnTheWay-more call came [] p p' (e ∙ sym (append-nil (arrived t p))) h)

  begin_call_lem :
      (sent : Bool) (request reference : String) (p : AgentPostman V F)
      → IsSettled p
      → IsSettled (begin_call sent request reference p).1
        × (arrived t (begin_call sent request reference p).1 ≡ arrived t p)
  unfolding begin_call await_response drop_call IsSettled
  begin_call_lem true request reference p s = (s, refl)
  begin_call_lem false request reference p s = (s, refl)

  close_lem :
      (stage : Stage) (c : Call V F) (p : AgentPostman V F)
      → touches terminal t stage c p ≡ false
      → IsSettled p
      → IsSettled (close_at stage c p).1 × (arrived t (close_at stage c p).1 ≡ arrived t p)
  unfolding close_at
  close_lem (following task seen) c p apart s =
      let d = drop_call_lem c.request c.reference (some task) t p s in
      (d.0, d.1 (λ e. ground (arith, apart, e, string_eq.beq_iff task t)))
  close_lem (ending task) c p apart s =
      let d = drop_call_lem c.request c.reference (some task) t p s in
      (d.0, d.1 (λ e. ground (arith, apart, e, string_eq.beq_iff task t)))
  close_lem _ c p apart s = (s, refl)

  cancel_lem :
      (escalate : Bool) (timeout now : ℕ) (later : List (ℕ × Mirror V F)) (stage : Stage)
      (c : Call V F) (p : AgentPostman V F)
      → touches terminal t stage c p ≡ false
      → IsSettled p
      → let p' = (cancel_at escalate timeout now later stage c p).1 in
        IsSettled p' × (arrived t p' ≡ arrived t p)
  unfolding cancel_at
  cancel_lem escalate timeout now later asking c p apart s =
      let d = drop_call_lem c.request c.reference none t p s in (d.0, d.1 (λ e. cc e))
  cancel_lem escalate timeout now later (following task seen) c p apart s =
      let d = drop_call_lem c.request c.reference (some task) t p s in
      (d.0, d.1 (λ e. ground (arith, apart, e, string_eq.beq_iff task t)))
  cancel_lem escalate timeout now later (ending task) c p apart s =
      let d = drop_call_lem c.request c.reference (some task) t p s in
      (d.0, d.1 (λ e. ground (arith, apart, e, string_eq.beq_iff task t)))
  cancel_lem escalate timeout now later _ c p apart s = (s, refl)

  Step-OnTheWay :
      {w w' : World V F}
      → Step w w'
      → IsSettled w.postman × OnTheWay w.call w.came w.postman
      → IsSettled w'.postman × OnTheWay w'.call w'.came w'.postman
  Step-OnTheWay (receives i w) (s, h) =
      let got = receive_all_lem (i ∷ []) t w.postman s in
      (got.1, OnTheWay-more w.call w.came (mirrors_of t (i ∷ [])) w.postman _ got.0 h)
  Step-OnTheWay (begins request reference w e) (s, h) =
      let asked = begin_call_lem true request reference w.postman s in
      (
        asked.0,
        unfold begin_call in
            (refl, subst (λ call. OnTheWay call w.came w.postman) e h ∙ sym asked.1),
      )
  Step-OnTheWay (advances c w e) (s, h) = (
    unfold advance in (advance_lem terminal c.stage c t w.postman s).0,
    unfold advance in
        advance-Progress terminal c.stage c t w.came w.postman refl s
          (subst (λ call. OnTheWay call w.came w.postman) e h),
  )
  Step-OnTheWay (other_begins sent request reference w) (s, h) =
      let kept = begin_call_lem sent request reference w.postman s in
      (kept.0, OnTheWay-same w.call w.came w.postman _ kept.1 h)
  Step-OnTheWay (other_advances c w apart) (s, h) =
      let kept = advance_lem terminal c.stage c t w.postman s in
      unfold advance in (kept.0, OnTheWay-same w.call w.came w.postman _ (kept.1 apart) h)
  Step-OnTheWay (other_closes c w apart) (s, h) =
      let kept = close_lem c.stage c w.postman apart s in
      unfold close in (kept.0, OnTheWay-same w.call w.came w.postman _ kept.1 h)
  Step-OnTheWay (other_is_cancelled escalate timeout now later c w apart) (s, h) =
      let kept = cancel_lem escalate timeout now later c.stage c w.postman apart s in
      unfold cancel in (kept.0, OnTheWay-same w.call w.came w.postman _ kept.1 h)

  Reach-OnTheWay :
      {w : World V F} → Reach w → IsSettled w.postman × OnTheWay w.call w.came w.postman
  unfolding IsSettled lookup
  Reach-OnTheWay new = ((λ s h. refl), refl)
  Reach-OnTheWay (then_ r s) = Step-OnTheWay s (Reach-OnTheWay r)

  -- However a call's resumptions, the mirrors and answers that arrive, and other calls that are begun,
  -- resumed, closed and cancelled on the same postman interleave, as long as the others have other tasks:
  -- once the call follows the task, the mirrors of the task that came since the postman was new, before
  -- the call or after, stream to what was handed on followed by what the ones still waiting stream to;
  -- and a call that has returned, or stands at the yield of a terminal event, has handed on exactly what
  -- all of them stream to, up to a terminal one.
  pub call_hands_on :
      {w : World V F} (c : Call V F)
      → Reach w
      → w.call ≡ some c
      → ((seen : List ℕ)
          → c.stage ≡ following t seen
          → let waiting = stream terminal seen (arrived t w.postman) in
            stream terminal [] w.came ≡ (c.handed ++ waiting.0, waiting.1))
        × (c.stage ≡ ending t → stream terminal [] w.came ≡ (c.handed, true))
        × (c.stage ≡ returned t → stream terminal [] w.came ≡ (c.handed, true))
  call_hands_on {w} c r at_ =
      let h = subst (λ call. OnTheWay call w.came w.postman) at_ (Reach-OnTheWay r).1 in
      let at_stage : (st : Stage)
          → c.stage ≡ st
          → Progress terminal t st c.handed w.came w.postman =
        λ st e. subst (λ st. Progress terminal t st c.handed w.came w.postman) e h in
      (
        λ seen e.
            let (consumed, split, streamed) = at_stage (following t seen) e refl in
            ap (stream terminal []) split ∙ streamed (arrived t w.postman),
        λ e.
            let (consumed, rest, split, streamed) = at_stage (ending t) e refl in
            ap (stream terminal []) split ∙ streamed rest,
        λ e.
            let (consumed, rest, split, streamed) = at_stage (returned t) e refl in
            ap (stream terminal []) split ∙ streamed rest,
      )
