-- ===== src/Postman/Ordered.antt =====
-- A read of a task's history against what its call took and what waits for it: in the order in which
-- the server has them, the events that the call knows are always a prefix of its task's.
pub mod Merge
pub mod Opening
pub mod Runs
pub mod Others
pub mod Fed
pub mod Read
pub mod Alive
pub mod Opened
pub mod Follows
mod Examples
use rekuest.Prelude.{
  ◌≡◌, ◌⊎◌, refl, sym, ap, subst, ◌∙◌, inl, inr, String, Bool, true, false, not, ◌&&◌, ◌||◌, Option,
  none, some, List, [], ◌∷◌, ◌++◌, append-nil, append_assoc, arith, contains, contains-append,
  contains-keep, keep, keep-append, Bool-cases, string_eq,
}
use rekuest.Prelude.Dict.{lookup, get_or}
use rekuest.Postman.{
  TaskEventChange, Item, event, GraphqlPostman, events, ids, event_ids, still_waiting, untaken,
  taken_ids,
}
use rekuest.Postman.CatchUp.{Distinct}
use rekuest.Postman.Routing.{events-append}

-- Of two ways to cut a list, one cuts no later than the other.
pub cuts {ℓ} :
    {A : Type ℓ} (xs ys zs ws : List A)
    → xs ++ ys ≡ zs ++ ws
    → ((m : List A) × (zs ≡ xs ++ m) × (ys ≡ m ++ ws))
      ⊎ ((m : List A) × (xs ≡ zs ++ m) × (ws ≡ m ++ ys))
cuts [] ys zs ws e = inl (zs, refl, e)
cuts (x ∷ xs) ys [] ws e = inr (x ∷ xs, refl, sym e)
cuts (x ∷ xs) ys (z ∷ zs) ws e = elim (cuts xs ys zs ws (cc e)) [
  | inl (m, first, rest) ↦ inl (m, cc (e, first), rest)
  | inr (m, first, rest) ↦ inr (m, cc (e, first), rest)
]

pub Distinct-apart :
    (xs ys : List String)
    → Distinct (xs ++ ys)
    → (i : String) → contains i ys ≡ true
    → contains i xs ≡ false
Distinct-apart [] ys d i h = refl
Distinct-apart (x ∷ xs) ys d i h =
    ground
      (arith, d.0, contains-append x xs ys, h, Distinct-apart xs ys d.1 i h, string_eq.beq_iff x i)

module _ {P : Type 0} where
  pub event_ids-append :
      (xs ys : List (TaskEventChange P)) → event_ids (xs ++ ys) ≡ event_ids xs ++ event_ids ys
  event_ids-append [] ys = refl
  event_ids-append (x ∷ xs) ys = ap (◌∷◌ x.id) (event_ids-append xs ys)

  -- The events' ids are not in the other list.
  abbrev Apart : List String → List (TaskEventChange P) → Type 0
  Apart seen es = (i : String) → contains i (event_ids es) ≡ true → contains i seen ≡ false

  abbrev Inside : List String → List (TaskEventChange P) → Type 0
  Inside seen es = (i : String) → contains i (event_ids es) ≡ true → contains i seen ≡ true

  pub untaken-Apart :
      (seen : List String) (es : List (TaskEventChange P)) → Apart seen es → untaken seen es ≡ es
  unfolding untaken
  untaken-Apart seen [] h = refl
  untaken-Apart seen (e ∷ es) h =
      let new : contains e.id seen ≡ false = h e.id (ground (arith, string_eq.beq_iff e.id e.id)) in
      rw new (ap (◌∷◌ e) (untaken-Apart seen es (λ i k. h i (ground (arith, k)))))

  pub untaken-Inside :
      (seen : List String) (es : List (TaskEventChange P)) → Inside seen es → untaken seen es ≡ []
  unfolding untaken
  untaken-Inside seen [] h = refl
  untaken-Inside seen (e ∷ es) h =
      let old : contains e.id seen ≡ true = h e.id (ground (arith, string_eq.beq_iff e.id e.id)) in
      rw old (untaken-Inside seen es (λ i k. h i (ground (arith, k))))

  pub untaken-append :
      (seen : List String) (xs ys : List (TaskEventChange P))
      → untaken seen (xs ++ ys) ≡ untaken seen xs ++ untaken seen ys
  unfolding untaken
  untaken-append seen xs ys = keep-append (λ e. not (contains e.id seen)) xs ys

  pub ids-events : (es : List (TaskEventChange P)) → ids (events es) ≡ event_ids es
  ids-events [] = refl
  ids-events (e ∷ es) = ap (◌∷◌ e.id) (ids-events es)

  pub still_waiting-events :
      (read : List String) (es : List (TaskEventChange P))
      → still_waiting read (events es) ≡ events (untaken read es)
  unfolding still_waiting untaken
  still_waiting-events read [] = refl
  still_waiting-events read (e ∷ es) = elim (Bool-cases (contains e.id read)) [
    | inl old ↦ rw old (still_waiting-events read es)
    | inr new ↦ rw new (ap (◌∷◌ (event e)) (still_waiting-events read es))
  ]

  -- Of an ordered log with distinct ids, a later part is apart from an earlier one.
  pub later-Apart :
      (xs ys zs : List (TaskEventChange P))
      → Distinct (event_ids (xs ++ (ys ++ zs)))
      → Apart (event_ids xs) ys
  later-Apart xs ys zs d i h =
      Distinct-apart (event_ids xs) (event_ids (ys ++ zs))
        (subst Distinct (event_ids-append xs (ys ++ zs)) d) i
        (ground (
          arith,
          h,
          ap (contains i) (event_ids-append ys zs),
          contains-append i (event_ids ys) (event_ids zs),
        ))

  pub contains-ids :
      (i : String) (xs ys : List (TaskEventChange P))
      → contains i (event_ids (xs ++ ys)) ≡ (contains i (event_ids xs) || contains i (event_ids ys))
  contains-ids i xs ys =
      ap (contains i) (event_ids-append xs ys) ∙ contains-append i (event_ids xs) (event_ids ys)
