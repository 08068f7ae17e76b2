-- ===== src/Caller/Stream.antt =====
-- What a call's stream hands on: each event once, up to the first terminal one.
use rekuest.Prelude.{
  ℕ, ◌≡◌, ◌↔◌, ◌⊎◌, refl, sym, ap, ◌∙◌, String, Bool, true, false, ◌||◌, none, some, List, [], ◌∷◌,
  ◌++◌, arith, if◌then◌else◌, contains, option_list, All, nat_eq, Bool-cases, inl, inr,
}
use rekuest.Caller.{
  critical, Mirror, cancelled_event, interrupted_event, bookkeeping, CallerTaskEvent,
  ExecutionEvent, adapt, adapt_mirror, stream,
}

module _ {V F : Type 0} (terminal : Mirror V F → Bool) where
  -- The first event of each `seq`, of those that were not seen before.
  pub firsts : List ℕ → List (ExecutionEvent V F) → List (ExecutionEvent V F)
  firsts seen [] = []
  firsts seen (e ∷ es) =
      let skipped = firsts seen es in
      let later = firsts (e.seq ∷ seen) es in if contains e.seq seen then skipped else e ∷ later

  -- What callers see of events, up to and with the first terminal one.
  pub until_terminal : List (ExecutionEvent V F) → List (CallerTaskEvent V F) × Bool
  until_terminal [] = ([], false)
  until_terminal (e ∷ es) =
      let (later, ended) = until_terminal es in
      if terminal e.mirror
      then (option_list (adapt e), true)
      else (option_list (adapt e) ++ later, ended)

  -- A stream hands on what callers see of the first event of each `seq`, up to the first terminal
  -- one among those, where it ends; it does not end before.
  pub stream-firsts :
      (seen : List ℕ) (es : List (ExecutionEvent V F))
      → stream terminal seen es ≡ until_terminal (firsts seen es)
  unfolding stream firsts until_terminal
  stream-firsts seen [] = refl
  stream-firsts seen (e ∷ es) = elim (Bool-cases (contains e.seq seen)) [
    | inl old ↦ rw old (stream-firsts seen es)
    | inr new ↦ rw new (rw (stream-firsts (e.seq ∷ seen) es) refl)
  ]

  abbrev pub seqs : List (ExecutionEvent V F) → List ℕ
  seqs [] = []
  seqs (e ∷ es) = e.seq ∷ seqs es

  -- Every event of the list has a `seq` that was seen.
  abbrev pub AllSeen : List ℕ → List (ExecutionEvent V F) → Type 0
  AllSeen seen = All (λ e. contains e.seq seen ≡ true)

  firsts-replay :
      (seen : List ℕ) (again rest : List (ExecutionEvent V F))
      → AllSeen seen again
      → firsts seen (again ++ rest) ≡ firsts seen rest
  unfolding firsts
  firsts-replay seen [] rest a = refl
  firsts-replay seen (e ∷ again) rest a = rw a.0 (firsts-replay seen again rest a.1)

  AllSeen-cons :
      (n : ℕ) (seen : List ℕ) (again : List (ExecutionEvent V F))
      → AllSeen seen again
      → AllSeen (n ∷ seen) again
  AllSeen-cons n seen [] a = tt
  AllSeen-cons n seen (e ∷ again) a = (ground (arith, a.0), AllSeen-cons n seen again a.1)

  -- Each event of the second list has the `seq` of one of the first.
  abbrev pub Replays : List (ExecutionEvent V F) → List (ExecutionEvent V F) → Type 0
  Replays es = All (λ e. contains e.seq (seqs es) ≡ true)

  -- What has been delivered counts as seen at the end of it.
  firsts-append :
      (seen : List ℕ) (es again rest : List (ExecutionEvent V F))
      → All (λ e. (contains e.seq seen || contains e.seq (seqs es)) ≡ true) again
      → firsts seen (es ++ (again ++ rest)) ≡ firsts seen (es ++ rest)
  unfolding firsts
  firsts-append seen [] again rest a = firsts-replay seen again rest (simple again a)
    where
      simple :
          (xs : List (ExecutionEvent V F))
          → All (λ e. (contains e.seq seen || false) ≡ true) xs
          → AllSeen seen xs
      simple [] h = tt
      simple (x ∷ xs) h = (ground (arith, h.0), simple xs h.1)
  firsts-append seen (e ∷ es) again rest a = elim (Bool-cases (contains e.seq seen)) [
    | inl old ↦ rw old (firsts-append seen es again rest (same old again a))
    | inr new ↦ rw new (ap (◌∷◌ e) (firsts-append (e.seq ∷ seen) es again rest (moved again a)))
  ]
    where
      same :
          contains e.seq seen ≡ true
          → (xs : List (ExecutionEvent V F))
          → All (λ x. (contains x.seq seen || contains x.seq (e.seq ∷ seqs es)) ≡ true) xs
          → All (λ x. (contains x.seq seen || contains x.seq (seqs es)) ≡ true) xs
      same old [] h = tt
      same old (x ∷ xs) h = (ground (arith, h.0, old, nat_eq.beq_iff e.seq x.seq), same old xs h.1)

      moved :
          (xs : List (ExecutionEvent V F))
          → All (λ x. (contains x.seq seen || contains x.seq (e.seq ∷ seqs es)) ≡ true) xs
          → All (λ x. (contains x.seq (e.seq ∷ seen) || contains x.seq (seqs es)) ≡ true) xs
      moved [] h = tt
      moved (x ∷ xs) h = (ground (arith, h.0), moved xs h.1)

  -- A replay changes nothing: when events come again that a call's queue has carried before, as they
  -- do for a child that was found again, the caller sees what it would have seen without them.
  pub stream-replay :
      (es again rest : List (ExecutionEvent V F))
      → Replays es again
      → stream terminal [] (es ++ (again ++ rest)) ≡ stream terminal [] (es ++ rest)
  stream-replay es again rest r =
      stream-firsts [] (es ++ (again ++ rest))
      ∙ ap until_terminal (firsts-append [] es again rest r)
      ∙ sym (stream-firsts [] (es ++ rest))

abbrev pub Killed : {V F : Type 0} → Mirror V F → Type 0
Killed m = (m ≡ cancelled_event) ⊎ (m ≡ interrupted_event)

adapt_mirror_lem :
    {V F : Type 0} (task : String) (m : Mirror V F)
    → ((adapt_mirror task m ≡ none) ↔ (m ≡ bookkeeping))
      × (Killed m
          → (c : CallerTaskEvent V F) × (adapt_mirror task m ≡ some c) × (c.kind ≡ critical))
unfolding adapt_mirror
adapt_mirror_lem task bookkeeping = ((λ h. refl, λ h. refl), λ k. absurd (ground arith))
adapt_mirror_lem task cancelled_event = ((λ h. cc, λ h. cc), λ k. (_, refl, refl))
adapt_mirror_lem task interrupted_event = ((λ h. cc, λ h. cc), λ k. (_, refl, refl))
adapt_mirror_lem task _ = ((λ h. cc, λ h. cc), λ k. absurd (ground arith))

-- A mirror is kept from the caller exactly if it is bookkeeping, and a child that was cancelled or
-- interrupted is shown as critical, so that its caller's stream does not go on as if nothing were.
pub adapt_lem :
    {V F : Type 0} (e : ExecutionEvent V F)
    → ((adapt e ≡ none) ↔ (e.mirror ≡ bookkeeping))
      × (Killed e.mirror → (c : CallerTaskEvent V F) × (adapt e ≡ some c) × (c.kind ≡ critical))
unfolding adapt
adapt_lem e = adapt_mirror_lem e.task e.mirror
