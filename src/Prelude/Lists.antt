-- ===== src/Prelude/Lists.antt =====
-- Lists measured by native numbers, filtered by Boolean tests.
use Prim.Native.Nat.{ℕ, suc, ◌+◌, ◌≤◌}
use mathlib.Core.Path.{◌≡◌, refl, ap₂}
use mathlib.Core.Bool.{Bool, false, ◌&&◌, ◌||◌}
use mathlib.Core.List.{List, [], ◌∷◌, ◌++◌, map}
use native.Mathlib.Omega.{arith}
use rekuest.Prelude.Tests.{if◌then◌else◌, Eq, ◌==◌}

module _ {ℓ} {A : Type ℓ} where
  abbrev pub length : List A → ℕ
  length [] = 0
  length (x ∷ xs) = suc (length xs)

  pub length-append : (xs ys : List A) → length (xs ++ ys) ≡ length xs + length ys
  length-append [] ys = omega arith
  length-append (x ∷ xs) ys = omega (arith, length-append xs ys)

  -- Python's `[x for x in xs if p(x)]`
  abbrev pub keep : (A → Bool) → List A → List A
  keep p [] = []
  keep p (x ∷ xs) = if p x then x ∷ keep p xs else keep p xs

  pub keep-append : (p : A → Bool) (xs ys : List A) → keep p (xs ++ ys) ≡ keep p xs ++ keep p ys
  keep-append p [] ys = refl
  keep-append p (x ∷ xs) ys = ground (arith, keep-append p xs ys)

  pub keep-keep : (p : A → Bool) (xs : List A) → keep p (keep p xs) ≡ keep p xs
  keep-keep p [] = refl
  keep-keep p (x ∷ xs) = ground (arith, keep-keep p xs)

  pub length-keep : (p : A → Bool) (xs : List A) → length (keep p xs) ≤ length xs
  length-keep p [] = omega arith
  length-keep p (x ∷ xs) = ground (arith, length-keep p xs)

  -- Every member satisfies `P`.
  abbrev pub All {κ} : (A → Type κ) → List A → Type κ
  All P [] = Unit
  All P (x ∷ xs) = P x × All P xs

  pub All-map {κ μ} :
      {P : A → Type κ} {Q : A → Type μ} (f : (a : A) → P a → Q a) (xs : List A)
      → All P xs
      → All Q xs
  All-map f [] h = tt
  All-map f (x ∷ xs) h = (f x h.0, All-map f xs h.1)

  pub All-append {κ} : (P : A → Type κ) (xs ys : List A) → All P xs → All P ys → All P (xs ++ ys)
  All-append P [] ys hx hy = hy
  All-append P (x ∷ xs) ys hx hy = (hx.0, All-append P xs ys hx.1 hy)

pub map_congr {ℓ κ} :
    {A : Type ℓ} {B : Type κ} (f g : A → B) (xs : List A)
    → All (λ x. f x ≡ g x) xs
    → map f xs ≡ map g xs
map_congr f g [] a = refl
map_congr f g (x ∷ xs) a = ap₂ ◌∷◌ a.0 (map_congr f g xs a.1)

module _ {ℓ} {A : Type ℓ} ⦃e : Eq A⦄ where
  -- Python's `x in xs`
  abbrev pub contains : A → List A → Bool
  contains a [] = false
  contains a (x ∷ xs) = (x == a) || contains a xs

  pub contains-append :
      (a : A) (xs ys : List A) → contains a (xs ++ ys) ≡ (contains a xs || contains a ys)
  contains-append a [] ys = refl
  contains-append a (x ∷ xs) ys = ground (arith, contains-append a xs ys)

  pub contains-keep :
      (p : A → Bool) (a : A) (xs : List A) → contains a (keep p xs) ≡ (p a && contains a xs)
  contains-keep p a [] = ground arith
  contains-keep p a (x ∷ xs) = ground (arith, contains-keep p a xs, e.beq_iff x a)
