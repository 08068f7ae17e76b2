-- ===== src/Prelude/Sorted.antt =====
-- Dictionaries in which no key stands twice: what they hold decides them, once they are sorted.
use mathlib.Core.Path.{◌≡◌, refl, sym, ◌∙◌}
use mathlib.Core.Logic.{inl, inr}
use mathlib.Core.Bool.{Bool, true, false}
use mathlib.Core.Option.{Option, none, some}
use mathlib.Core.List.{[], ◌∷◌}
use native.Mathlib.Omega.{arith}
use rekuest.Prelude.Tests.{Eq, ◌==◌, Bool-cases}
use rekuest.Prelude.Lists.{All}
use rekuest.Prelude.Dict.{
  Dict, lookup, insert, set_default, keep_keys, lookup-insert, lookup-keep_keys,
}
use rekuest.Prelude.Order.{IsOrdered, insert_sorted, sort, lookup-insert_sorted, lookup-sort}

module _ {ℓ κ} {K : Type ℓ} {V : Type κ} ⦃e : Eq K⦄ where
  -- A primary key
  abbrev pub UniqueKeys : Dict K V → Type κ
  UniqueKeys [] = Unit
  UniqueKeys ((k, v) ∷ d) = (lookup k d ≡ none) × UniqueKeys d

  pub UniqueKeys-insert : (k : K) (v : V) (d : Dict K V) → UniqueKeys d → UniqueKeys (insert k v d)
  unfolding insert lookup
  UniqueKeys-insert k v [] u = (refl, tt)
  UniqueKeys-insert k v ((j, w) ∷ d) u = elim (Bool-cases (j == k)) [
    | inl same ↦ rw same u
    | inr differs ↦ rw differs (
      ground (arith, u.0, differs, lookup-insert k j v d, e.beq_iff j k, e.beq_iff k j),
      UniqueKeys-insert k v d u.1,
    )
  ]

  pub UniqueKeys-set_default :
      (k : K) (v : V) (d : Dict K V) → UniqueKeys d → UniqueKeys (set_default k v d)
  UniqueKeys-set_default k v d u = by_value (lookup k d)
    where
      by_value :
          (o : Option V)
          → let d' : Dict K V = elim o [ none ↦ insert k v d | some w ↦ d ] in UniqueKeys d'
      by_value none = UniqueKeys-insert k v d u
      by_value (some w) = u

  pub UniqueKeys-keep_keys :
      (p : K → Bool) (d : Dict K V) → UniqueKeys d → UniqueKeys (keep_keys p d)
  UniqueKeys-keep_keys p [] u = tt
  UniqueKeys-keep_keys p ((j, w) ∷ d) u = elim (Bool-cases (p j)) [
    | inl kept ↦
        rw kept (ground (arith, u.0, kept, lookup-keep_keys p j d), UniqueKeys-keep_keys p d u.1)
    | inr dropped ↦ rw dropped (UniqueKeys-keep_keys p d u.1)
  ]

-- An order of entries that looks at their keys alone and tells different keys apart
module _ {ℓ κ} {K : Type ℓ} {V : Type κ} ⦃e : Eq K⦄ (le : K × V → K × V → Bool)
    (le_same : (k : K) (v w : V) → le (k, v) (k, w) ≡ true)
    (le_antisymm : (k j : K) (v w : V)
      → le (k, v) (j, w) ≡ true
      → le (j, w) (k, v) ≡ true
      → k ≡ j) where
  UniqueKeys-insert_sorted :
      (k : K) (v : V) (d : Dict K V)
      → lookup k d ≡ none
      → UniqueKeys d
      → UniqueKeys (insert_sorted le (k, v) d)
  unfolding insert_sorted lookup
  UniqueKeys-insert_sorted k v [] n u = (n, tt)
  UniqueKeys-insert_sorted k v ((j, w) ∷ d) n u = elim (Bool-cases (le (k, v) (j, w))) [
    | inl below ↦ rw below (n, u)
    | inr above ↦ rw above (
      ground (arith, n, u.0, lookup-insert_sorted le le_same j k v d, e.beq_iff k j, e.beq_iff j k),
      UniqueKeys-insert_sorted k v d (ground (arith, n)) u.1,
    )
  ]

  pub UniqueKeys-sort : (d : Dict K V) → UniqueKeys d → UniqueKeys (sort le d)
  unfolding sort
  UniqueKeys-sort [] u = tt
  UniqueKeys-sort ((k, v) ∷ d) u =
      UniqueKeys-insert_sorted k v (sort le d) (lookup-sort le le_same k d ∙ u.0)
        (UniqueKeys-sort d u.1)

  -- The first entry is below every entry that is found.
  le_of_lookup :
      (x : K × V) (k : K) (v : V) (d : Dict K V)
      → All (λ y. le x y ≡ true) d
      → lookup k d ≡ some v
      → le x (k, v) ≡ true
  unfolding lookup
  le_of_lookup x k v [] a h = absurd (cc h)
  le_of_lookup x k v ((j, w) ∷ d) a h = elim (Bool-cases (j == k)) [
    | inl same ↦
        let key : j ≡ k = (e.beq_iff j k).0 same in
        let value : w ≡ v = ground (arith, h, same) in cc (key, value, a.0)
    | inr differs ↦ le_of_lookup x k v d a.1 (ground (arith, h, differs))
  ]

  first_below :
      (k j : K) (v w : V) (xs ys : Dict K V)
      → All (λ y. le (k, v) y ≡ true) xs
      → (k == j) ≡ false
      → lookup j ((k, v) ∷ xs) ≡ lookup j ((j, w) ∷ ys)
      → le (k, v) (j, w) ≡ true
  unfolding lookup
  first_below k j v w xs ys a differs same =
      le_of_lookup (k, v) j w xs a (ground (arith, same, differs, e.beq_iff j j))

  -- Of two dictionaries in order, with unique keys, that hold the same, both are the same list.
  pub same_sorted :
      (xs ys : Dict K V)
      → IsOrdered le xs
      → IsOrdered le ys
      → UniqueKeys xs
      → UniqueKeys ys
      → ((i : K) → lookup i xs ≡ lookup i ys)
      → xs ≡ ys
  unfolding lookup
  same_sorted [] [] ox oy ux uy same = refl
  same_sorted [] ((j, w) ∷ ys) ox oy ux uy same = absurd (ground (arith, same j, e.beq_iff j j))
  same_sorted ((k, v) ∷ xs) [] ox oy ux uy same = absurd (ground (arith, same k, e.beq_iff k k))
  same_sorted ((k, v) ∷ xs) ((j, w) ∷ ys) ox oy ux uy same = elim (Bool-cases (k == j)) [
    | inl equal ↦
        let key : k ≡ j = (e.beq_iff k j).0 equal in
        let value : v ≡ w = ground (arith, same k, e.beq_iff k k, e.beq_iff j k, key) in
        let rest : (i : K) → lookup i xs ≡ lookup i ys =
          λ i. ground (arith, same i, ux.0, uy.0, key, e.beq_iff k i, e.beq_iff j i) in
        cc (key, value, same_sorted xs ys ox.1 oy.1 ux.1 uy.1 rest)
    | inr differs ↦
        let below = first_below k j v w xs ys ox.0 differs (same j) in
        let above =
          first_below j k w v ys xs oy.0 (ground (arith, differs, e.beq_iff k j, e.beq_iff j k))
            (sym (same k)) in
        absurd (ground (arith, le_antisymm k j v w below above, differs, e.beq_iff k j))
  ]
