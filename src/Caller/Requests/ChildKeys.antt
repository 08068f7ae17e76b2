-- ===== src/Caller/Requests/ChildKeys.antt =====
-- The call keys of a task's children, as `aassign` gives them.
use rekuest.Prelude.{
  ℕ, ◌+◌, ◌≡◌, ◌≢◌, refl, sym, ap, ◌∙◌, String, Option, none, some, List, [], ◌∷◌, ◌++◌, arith,
  string_eq, nat_eq, pair_eq,
}
use rekuest.Caller.{AgentPostman, derive_call_key, forget_parent}
use rekuest.Caller.Keys.{derive_all, count, made, made-forget_parent, key_of_call, keys_differ}
use rekuest.Caller.Requests.{derived, AssignCall, call_base, key_for, assign, assign_all}

derive_all-append :
    {U F : Type 0} (xs ys : List (String × String)) (p : AgentPostman U F)
    → derive_all (xs ++ ys) p ≡ derive_all ys (derive_all xs p)
derive_all-append [] ys p = refl
derive_all-append ((parent, base) ∷ xs) ys p =
    derive_all-append xs ys (derive_call_key parent base p).0

derived_parts :
    {b b' : String} {n n' : ℕ}
    → some (derived b n) ≡ some (derived b' n')
    → ◌≡◌ {A = String × ℕ} (b, n) (b', n')
derived_parts {b} {b'} {n} {n'} e =
    let same : b ≡ b' = cc e in let often : n ≡ n' = cc e in cc (same, often)

module _ {V X : Type 0} (digest : V → String) (no_args : V) where
  abbrev pub derived_of : Option String → Option String → AssignCall V X → List (String × String)
  derived_of parent (some key) c = []
  derived_of none none c = []
  derived_of (some parent) none c = (parent, call_base digest no_args c) ∷ []

  -- The calls whose key is derived, by parent and base
  abbrev pub derived_calls : List (String × AssignCall V X) → List (String × String)
  derived_calls [] = []
  derived_calls ((fresh, c) ∷ cs) = derived_of c.parent c.call_key c ++ derived_calls cs

  module _ {U F : Type 0} (child_step : Option (String → Option ℕ)) where
    key_for_lem :
        (parent key : Option String) (c : AssignCall V X) (p : AgentPostman U F)
        → (key_for digest no_args parent key c p).0 ≡ derive_all (derived_of parent key c) p
    unfolding key_for
    key_for_lem parent (some key) c p = refl
    key_for_lem none none c p = refl
    key_for_lem (some parent) none c p = refl

    assign_lem :
        (fresh : String) (c : AssignCall V X) (p : AgentPostman U F)
        → (assign digest no_args child_step fresh c p).0
          ≡ derive_all (derived_of c.parent c.call_key c) p
    unfolding assign
    assign_lem fresh c p = key_for_lem c.parent c.call_key c p

    assign_all_lem :
        (cs : List (String × AssignCall V X)) (p : AgentPostman U F)
        → assign_all digest no_args child_step cs p ≡ derive_all (derived_calls cs) p
    assign_all_lem [] p = refl
    assign_all_lem ((fresh, c) ∷ cs) p =
        assign_all_lem cs (assign digest no_args child_step fresh c p).0
        ∙ ap (derive_all (derived_calls cs)) (assign_lem fresh c p)
        ∙ sym (derive_all-append (derived_of c.parent c.call_key c) (derived_calls cs) p)

    assign_key :
        (fresh parent : String) (c : AssignCall V X) (p : AgentPostman U F)
        → c.parent ≡ some parent
        → c.call_key ≡ none
        → let (base, occurrence) = (derive_call_key parent (call_base digest no_args c) p).1 in
          (assign digest no_args child_step fresh c p).1.call_key ≡ some (derived base occurrence)
    unfolding assign key_for
    assign_key fresh parent c p at_parent no_key = rw (at_parent, no_key) refl

    -- Two children that one task calls without a key of their own never get the same key, whatever calls
    -- of this and other tasks, with keys of their own or not, come between them.
    pub child_keys_differ :
        (fresh fresh' parent : String) (c c' : AssignCall V X)
        (between : List (String × AssignCall V X)) (p : AgentPostman U F)
        → c.parent ≡ some parent
        → c.call_key ≡ none
        → c'.parent ≡ some parent
        → c'.call_key ≡ none
        → let (p₁, first) = assign digest no_args child_step fresh c p in
          let later = assign_all digest no_args child_step between p₁ in
          first.call_key ≢ (assign digest no_args child_step fresh' c' later).1.call_key
    child_keys_differ fresh fresh' parent c c' between p own no_key own' no_key' same =
        let base = call_base digest no_args c in
        let base' = call_base digest no_args c' in
        let p₁ = (assign digest no_args child_step fresh c p).0 in
        let later = assign_all digest no_args child_step between p₁ in
        let made_first : p₁ ≡ (derive_call_key parent base p).0 =
          assign_lem fresh c p ∙ rw (own, no_key) refl in
        let in_between : later
            ≡ derive_all (derived_calls between) (derive_call_key parent base p).0 =
          assign_all_lem between p₁ ∙ ap (derive_all (derived_calls between)) made_first in
        let keys =
          sym (assign_key fresh parent c p own no_key)
          ∙ same
          ∙ assign_key fresh' parent c' later own' no_key' in
        keys_differ parent base base' (derived_calls between) p
          (derived_parts keys ∙ ap (λ p. (derive_call_key parent base' p).1) in_between)

    -- The key of a child that a task calls without one depends on the task's own calls alone: after its
    -- counters were forgotten, it is the base of the call, which is its target and the digest of its
    -- arguments, with the number of the task's keyless calls with this base so far, this one included,
    -- in whatever way calls of other tasks and calls with keys of their own come between. So a task that
    -- runs again and makes the same calls gives its children the same keys.
    pub child_key_counts :
        (fresh parent : String) (c : AssignCall V X) (before : List (String × AssignCall V X))
        (p : AgentPostman U F)
        → c.parent ≡ some parent
        → c.call_key ≡ none
        → let base = call_base digest no_args c in
          let later = assign_all digest no_args child_step before (forget_parent parent p) in
          (assign digest no_args child_step fresh c later).1.call_key
          ≡ some (derived base (count (parent, base) (derived_calls before) + 1))
    child_key_counts fresh parent c before p own no_key =
        let base = call_base digest no_args c in
        let start = forget_parent parent p in
        let later = assign_all digest no_args child_step before start in
        let key = key_of_call parent base (derived_calls before) start in
        let forgotten : made (parent, base) start ≡ 0 =
          made-forget_parent parent parent base p
          ∙ ground (arith, string_eq.beq_iff parent parent) in
        assign_key fresh parent c later own no_key
        ∙ ap (λ p. let (b, n) = (derive_call_key parent base p).1 in some (derived b n))
            (assign_all_lem before start)
        ∙ ap (λ k. some (derived k.0 k.1)) key
        ∙ ap (λ n. some (derived base n)) (omega (arith, forgotten))
