-- ===== src/Prelude/Dict.antt =====
-- Python's `dict`: an association list in the order of insertion. A write to a key that is there
-- replaces its value in place, any other is appended. The first entry of a key counts.
use mathlib.Core.Path.{◌≡◌, refl, ap}
use mathlib.Core.Logic.{◌≢◌}
use mathlib.Core.Bool.{Bool, true, false, not}
use mathlib.Core.Option.{Option, none, some}
use mathlib.Core.List.{List, [], ◌∷◌}
use native.Mathlib.Omega.{arith}
use rekuest.Prelude.Tests.{if◌then◌else◌, Eq, ◌==◌}
use rekuest.Prelude.Lists.{All}

abbrev pub Dict {ℓ κ} : Type ℓ → Type κ → Type (ℓ ⊔ κ)
Dict K V = List (K × V)

module _ {ℓ κ} {K : Type ℓ} {V : Type κ} where
  abbrev pub keys : Dict K V → List K
  keys [] = []
  keys ((k, v) ∷ d) = k ∷ keys d

  -- `for key in [k for k in d if not p(k)]: del d[key]`
  abbrev pub keep_keys : (K → Bool) → Dict K V → Dict K V
  keep_keys p [] = []
  keep_keys p ((k, v) ∷ d) = if p k then (k, v) ∷ keep_keys p d else keep_keys p d

module _ {ℓ κ} {K : Type ℓ} {V : Type κ} ⦃e : Eq K⦄ where
  -- `d.get(k)`
  unfoldable pub lookup : K → Dict K V → Option V
  lookup k [] = none
  lookup k ((j, v) ∷ d) = if j == k then some v else lookup k d

  -- `k in d`
  abbrev pub has : K → Dict K V → Bool
  has k d = elim (lookup k d) [ none ↦ false | some v ↦ true ]

  -- `d[k] = v`
  unfoldable pub insert : K → V → Dict K V → Dict K V
  insert k v [] = (k, v) ∷ []
  insert k v ((j, w) ∷ d) = if j == k then (j, v) ∷ d else (j, w) ∷ insert k v d

  -- `d.setdefault(k, v)`, and SQL's INSERT OR IGNORE
  abbrev pub set_default : K → V → Dict K V → Dict K V
  set_default k v d = elim (lookup k d) [ none ↦ insert k v d | some w ↦ d ]

  -- `d.pop(k, None)`
  abbrev pub remove : K → Dict K V → Dict K V
  remove k = keep_keys (λ j. not (j == k))

  -- `d.get(k, v)`
  abbrev pub get_or : K → Dict K V → V → V
  get_or k d v = elim (lookup k d) [ none ↦ v | some w ↦ w ]

  pub lookup-insert :
      (k j : K) (v : V) (d : Dict K V)
      → lookup j (insert k v d) ≡ (if k == j then some v else lookup j d)
  unfolding lookup insert
  lookup-insert k j v [] = refl
  lookup-insert k j v ((i, w) ∷ d) =
      ground (arith, e.beq_iff k j, e.beq_iff i k, e.beq_iff i j, lookup-insert k j v d)

  pub lookup-insert_ne :
      (k j : K) (v : V) (d : Dict K V) → k ≢ j → lookup j (insert k v d) ≡ lookup j d
  lookup-insert_ne k j v d differs = ground (arith, differs, lookup-insert k j v d, e.beq_iff k j)

  pub lookup-insert_comm :
      (k j i : K) (v w : V) (d : Dict K V)
      → k ≢ j
      → lookup i (insert k v (insert j w d)) ≡ lookup i (insert j w (insert k v d))
  lookup-insert_comm k j i v w d differs = ground (
    arith,
    differs,
    lookup-insert k i v (insert j w d),
    lookup-insert j i w (insert k v d),
    lookup-insert k i v d,
    lookup-insert j i w d,
    e.beq_iff k i,
    e.beq_iff j i,
  )

  pub lookup-keep_keys :
      (p : K → Bool) (j : K) (d : Dict K V)
      → lookup j (keep_keys p d) ≡ (if p j then lookup j d else none)
  unfolding lookup
  lookup-keep_keys p j [] = ground arith
  lookup-keep_keys p j ((i, w) ∷ d) = ground (arith, e.beq_iff i j, lookup-keep_keys p j d)

  pub lookup-keep_keys_comm :
      (p q : K → Bool) (j : K) (d : Dict K V)
      → lookup j (keep_keys p (keep_keys q d)) ≡ lookup j (keep_keys q (keep_keys p d))
  lookup-keep_keys_comm p q j d = ground (
    arith,
    lookup-keep_keys p j (keep_keys q d),
    lookup-keep_keys q j (keep_keys p d),
    lookup-keep_keys p j d,
    lookup-keep_keys q j d,
  )

  pub lookup-insert-keep_keys :
      (p : K → Bool) (k j : K) (v : V) (d : Dict K V)
      → p k ≡ true
      → lookup j (insert k v (keep_keys p d)) ≡ lookup j (keep_keys p (insert k v d))
  lookup-insert-keep_keys p k j v d kept = ground (
    arith,
    kept,
    lookup-insert k j v (keep_keys p d),
    lookup-keep_keys p j (insert k v d),
    lookup-insert k j v d,
    lookup-keep_keys p j d,
    ap p,
    e.beq_iff k j,
  )

  pub lookup-remove :
      (k j : K) (d : Dict K V) → lookup j (remove k d) ≡ (if j == k then none else lookup j d)
  lookup-remove k j d = ground (arith, lookup-keep_keys (λ (i : K). not (i == k)) j d)

  pub lookup-set_default :
      (k j : K) (v : V) (d : Dict K V)
      → lookup j (set_default k v d) ≡ (if k == j then some (get_or k d v) else lookup j d)
  lookup-set_default k j v d = ground (arith, lookup-insert k j v d, e.beq_iff k j)

  pub lookup_refl : (k : K) (v : V) (d : Dict K V) → lookup k (insert k v d) ≡ some v
  lookup_refl k v d = ground (arith, lookup-insert k k v d, e.beq_iff k k)

  pub All-insert {μ} :
      (P : K × V → Type μ) (k : K) (v : V) (d : Dict K V)
      → P (k, v)
      → All P d
      → All P (insert k v d)
  unfolding insert
  All-insert P k v [] h a = (h, tt)
  All-insert P k v ((i, w) ∷ d) h a = ground (arith, e.beq_iff i k, All-insert P k v d h a.1)

  pub All-keep_keys {μ} :
      (P : K × V → Type μ) (p : K → Bool) (d : Dict K V) → All P d → All P (keep_keys p d)
  All-keep_keys P p [] a = a
  All-keep_keys P p ((i, w) ∷ d) a = ground (arith, All-keep_keys P p d a.1)
