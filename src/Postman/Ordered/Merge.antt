-- ===== src/Postman/Ordered/Merge.antt =====
-- A read of a history that is an initial part of the server's log, wherever it ends.
use rekuest.Prelude.{
  ◌≡◌, refl, sym, ap, subst, ◌∙◌, inl, inr, String, ◌||◌, List, [], ◌++◌, append-nil, append_assoc,
  arith, contains, string_eq,
}
use rekuest.Postman.{TaskEventChange, events, event_ids, still_waiting, untaken}
use rekuest.Postman.CatchUp.{Distinct}
use rekuest.Postman.Routing.{events-append}
use rekuest.Postman.Ordered.{
  cuts, untaken-Apart, untaken-Inside, untaken-append, still_waiting-events, later-Apart,
  contains-ids,
}

module _ {P : Type 0} where
  -- What a read makes of a queue: `waiting'` waits afterwards, and follows what was taken.
  pub record Merged (taken waiting future history : List (TaskEventChange P)) (skip : List String)
      : Type 0 where
    pub waiting' : List (TaskEventChange P)
    pub future' : List (TaskEventChange P)
    pub same_log : waiting' ++ future' ≡ waiting ++ future
    pub queued :
        events (untaken skip history) ++ still_waiting (event_ids history) (events waiting)
        ≡ events waiting'
    pub known :
        (i : String)
        → contains i (event_ids (taken ++ waiting')) ≡ (
            contains i (event_ids (untaken skip history))
            || contains i (event_ids (taken ++ waiting)))
    pub beyond : List (TaskEventChange P)
    pub reaches : taken ++ waiting' ≡ history ++ beyond

  module _ (taken waiting future history : List (TaskEventChange P)) (skip : List String)
      (d : Distinct (event_ids (taken ++ (waiting ++ future))))
      (skips : (i : String) → contains i skip ≡ contains i (event_ids taken)) where
    requeued :
        (fresh kept : List (TaskEventChange P))
        → untaken skip history ≡ fresh
        → untaken (event_ids history) waiting ≡ kept
        → events (untaken skip history) ++ still_waiting (event_ids history) (events waiting)
          ≡ events (fresh ++ kept)
    requeued fresh kept f k =
        ap (λ xs. events xs ++ still_waiting (event_ids history) (events waiting)) f
        ∙ ap (λ xs. events fresh ++ xs)
            (still_waiting-events (event_ids history) waiting ∙ ap events k)
        ∙ sym (events-append fresh kept)

    skip-taken : untaken skip taken ≡ []
    skip-taken = untaken-Inside skip taken (λ i h. skips i ∙ h)

    -- What the history has past what was taken is fresh.
    fresh_past :
        (m x : List (TaskEventChange P))
        → history ≡ taken ++ m
        → waiting ++ future ≡ m ++ x
        → untaken skip history ≡ m
    fresh_past m x h same =
        ap (untaken skip) h
        ∙ untaken-append skip taken m
        ∙ ap (λ xs. xs ++ untaken skip m) skip-taken
        ∙ untaken-Apart skip m (λ i k.
          skips i
          ∙ later-Apart taken m x (subst (λ xs. Distinct (event_ids (taken ++ xs))) same d) i k)

    -- The history ends before or at what was taken.
    merge-short :
        (m : List (TaskEventChange P))
        → taken ≡ history ++ m
        → Merged taken waiting future history skip
    merge-short m e =
        let none_fresh : untaken skip history ≡ [] = untaken-Inside skip history (λ i h.
          ground (
            arith,
            skips i,
            h,
            ap (λ xs. contains i (event_ids xs)) e,
            contains-ids i history m,
          )) in
        let all_kept : untaken (event_ids history) waiting ≡ waiting =
          untaken-Apart (event_ids history) waiting (λ i h. ground (
            arith,
            later-Apart taken waiting future d i h,
            ap (λ xs. contains i (event_ids xs)) e,
            contains-ids i history m,
          )) in
        record {
          waiting' = waiting;
          future' = future;
          same_log = refl;
          queued = requeued [] waiting none_fresh all_kept;
          known = λ i. rw none_fresh refl;
          beyond = m ++ waiting;
          reaches = ap (λ xs. xs ++ waiting) e ∙ append_assoc history m waiting;
        }

    -- It ends within what waits.
    merge-middle :
        (m rest : List (TaskEventChange P))
        → history ≡ taken ++ m
        → waiting ≡ m ++ rest
        → Merged taken waiting future history skip
    merge-middle m rest h w =
        let same : waiting ++ future ≡ m ++ (rest ++ future) =
          ap (λ xs. xs ++ future) w ∙ append_assoc m rest future in
        let fresh = fresh_past m (rest ++ future) h same in
        let whole : taken ++ (waiting ++ future) ≡ (taken ++ m) ++ (rest ++ future) =
          ap (λ xs. taken ++ xs) same ∙ sym (append_assoc taken m (rest ++ future)) in
        let old_gone : untaken (event_ids history) m ≡ [] =
          untaken-Inside (event_ids history) m (λ i k.
            ground (arith, k, ap (λ xs. contains i (event_ids xs)) h, contains-ids i taken m)) in
        let new_kept : untaken (event_ids history) rest ≡ rest =
          untaken-Apart (event_ids history) rest (λ i k.
            ap (λ xs. contains i (event_ids xs)) h
            ∙ later-Apart (taken ++ m) rest future (subst (λ xs. Distinct (event_ids xs)) whole d) i
                k) in
        let kept : untaken (event_ids history) waiting ≡ rest =
          ap (untaken (event_ids history)) w
          ∙ untaken-append (event_ids history) m rest
          ∙ ap (λ xs. xs ++ untaken (event_ids history) rest) old_gone
          ∙ new_kept in
        record {
          waiting' = waiting;
          future' = future;
          same_log = refl;
          queued = requeued m rest fresh kept ∙ ap events (sym w);
          known = λ i. ground (
            arith,
            ap (λ xs. contains i (event_ids xs)) fresh,
            ap (λ xs. contains i (event_ids xs)) w,
            contains-ids i taken waiting,
            contains-ids i m rest,
          );
          beyond = rest;
          reaches =
              ap (λ xs. taken ++ xs) w
              ∙ sym (append_assoc taken m rest)
              ∙ ap (λ xs. xs ++ rest) (sym h);
        }

    -- It has more.
    merge-long :
        (m rest later : List (TaskEventChange P))
        → history ≡ taken ++ m
        → m ≡ waiting ++ rest
        → future ≡ rest ++ later
        → Merged taken waiting future history skip
    merge-long m rest later h w f =
        let same : waiting ++ future ≡ m ++ later =
          ap (λ xs. waiting ++ xs) f
          ∙ sym (append_assoc waiting rest later)
          ∙ ap (λ xs. xs ++ later) (sym w) in
        let fresh = fresh_past m later h same in
        let kept : untaken (event_ids history) waiting ≡ [] =
          untaken-Inside (event_ids history) waiting (λ i k. ground (
            arith,
            k,
            ap (λ xs. contains i (event_ids xs)) h,
            ap (λ xs. contains i (event_ids xs)) w,
            contains-ids i taken m,
            contains-ids i waiting rest,
          )) in
        record {
          waiting' = m;
          future' = later;
          same_log = sym same;
          queued = requeued m [] fresh kept ∙ ap events (append-nil m);
          known = λ i. ground (
            arith,
            ap (λ xs. contains i (event_ids xs)) fresh,
            ap (λ xs. contains i (event_ids xs)) w,
            contains-ids i taken waiting,
            contains-ids i taken m,
            contains-ids i waiting rest,
          );
          beyond = [];
          reaches = sym (append-nil history ∙ h);
        }

    -- A read of any prefix of the server's log leaves the call where it is in the log, or further.
    pub merge :
        (later : List (TaskEventChange P))
        → taken ++ (waiting ++ future) ≡ history ++ later
        → Merged taken waiting future history skip
    merge later log = elim (cuts taken (waiting ++ future) history later log) [
      | inr (m, first, rest) ↦ merge-short m first
      | inl (m, h, rest) ↦ elim (cuts waiting future m later rest) [
        | inl (n, first, rest') ↦ merge-long m n later h first rest'
        | inr (n, first, rest') ↦ merge-middle m n h first
      ]
    ]
