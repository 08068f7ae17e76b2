-- ===== src/Prelude/Order.antt =====
-- Orders on sort keys, and Python's `sorted`.
use Prim.Native.Nat.{ℕ, suc}
use Prim.Native.Char.{code}
use Prim.Native.String.{String}
use mathlib.Core.Path.{◌≡◌, refl, ap, ap₂, ◌∙◌}
use mathlib.Core.Logic.{inl, inr}
use mathlib.Core.Bool.{Bool, true, false, ◌&&◌}
use mathlib.Core.Option.{some}
use mathlib.Core.List.{List, [], ◌∷◌}
use native.Mathlib.Omega.{arith}
use text.Mathlib.TextEquality.{Char-path}
use rekuest.Prelude.Tests.{leb, ltb, nat_beq, if◌then◌else◌, Bool-cases, Eq, ◌==◌}
use rekuest.Prelude.Lists.{length, All}
use rekuest.Prelude.Dict.{Dict, lookup}

-- The order of texts: by code points, a prefix first.
abbrev pub codes : String → List ℕ
codes String.[] = []
codes (String.◌∷◌ c s) = code c ∷ codes s

unfoldable pub lex_le : List ℕ → List ℕ → Bool
lex_le [] ys = true
lex_le (x ∷ xs) [] = false
lex_le (x ∷ xs) (y ∷ ys) = if nat_beq x y then lex_le xs ys else ltb x y

lex_le_refl : (xs : List ℕ) → lex_le xs xs ≡ true
unfolding lex_le
lex_le_refl [] = refl
lex_le_refl (x ∷ xs) = ground (arith, lex_le_refl xs)

lex_le_total : (xs ys : List ℕ) → lex_le xs ys ≡ false → lex_le ys xs ≡ true
unfolding lex_le
lex_le_total [] ys h = absurd (cc)
lex_le_total (x ∷ xs) [] h = refl
lex_le_total (x ∷ xs) (y ∷ ys) h = ground (arith, lex_le_total xs ys)

lex_le_trans : (xs ys zs : List ℕ) → lex_le xs ys ≡ true → lex_le ys zs ≡ true → lex_le xs zs ≡ true
unfolding lex_le
lex_le_trans [] ys zs p q = refl
lex_le_trans (x ∷ xs) [] zs p q = absurd (cc)
lex_le_trans (x ∷ xs) (y ∷ ys) [] p q = absurd (cc)
lex_le_trans (x ∷ xs) (y ∷ ys) (z ∷ zs) p q = ground (arith, lex_le_trans xs ys zs)

lex_le_antisymm : (xs ys : List ℕ) → lex_le xs ys ≡ true → lex_le ys xs ≡ true → xs ≡ ys
unfolding lex_le
lex_le_antisymm [] [] p q = refl
lex_le_antisymm [] (y ∷ ys) p q = absurd (cc)
lex_le_antisymm (x ∷ xs) [] p q = absurd (cc)
lex_le_antisymm (x ∷ xs) (y ∷ ys) p q = ground (arith, lex_le_antisymm xs ys)

codes-inj : (s t : String) → codes s ≡ codes t → s ≡ t
codes-inj String.[] String.[] h = refl
codes-inj String.[] (String.◌∷◌ d t) h = absurd (cc h)
codes-inj (String.◌∷◌ c s) String.[] h = absurd (cc h)
codes-inj (String.◌∷◌ c s) (String.◌∷◌ d t) h =
    ap₂ String.◌∷◌ (Char-path c d (cc h)) (codes-inj s t (cc h))

-- The key `(created_at, session_id, pos)`, compared as Python compares tuples and SQL's ORDER BY
-- compares rows.
abbrev pub FrameKey : Type 0
FrameKey = ℕ × String × ℕ

unfoldable pub str_le : String → String → Bool
str_le s t = lex_le (codes s) (codes t)

unfoldable pub key_le : FrameKey → FrameKey → Bool
key_le (c, s, p) (d, t, q) =
    if nat_beq c d then if str_le s t && str_le t s then leb p q else str_le s t else ltb c d

pub str_le_antisymm : (s t : String) → str_le s t ≡ true → str_le t s ≡ true → s ≡ t
unfolding str_le
str_le_antisymm s t h k = codes-inj s t (lex_le_antisymm (codes s) (codes t) h k)

pub key_le_refl : (a : FrameKey) → key_le a a ≡ true
unfolding key_le str_le
key_le_refl (c, s, p) = ground (arith, lex_le_refl (codes s))

pub key_le_total : (a b : FrameKey) → key_le a b ≡ false → key_le b a ≡ true
unfolding key_le str_le
key_le_total (c, s, p) (d, t, q) h = ground (arith, lex_le_total (codes s) (codes t))

-- The order tells two keys apart.
pub key_le_antisymm : (a b : FrameKey) → key_le a b ≡ true → key_le b a ≡ true → a ≡ b
unfolding key_le
key_le_antisymm (c, s, p) (d, t, q) h k =
    ground (arith, str_le_antisymm s t, key_le_total (c, s, p) (d, t, q))

pub key_le_trans : (a b c : FrameKey) → key_le a b ≡ true → key_le b c ≡ true → key_le a c ≡ true
unfolding key_le str_le
key_le_trans (c, s, p) (d, t, q) (e, u, r) h k = ground (
  arith,
  lex_le_trans (codes s) (codes t) (codes u),
  lex_le_trans (codes u) (codes s) (codes t),
  lex_le_trans (codes t) (codes u) (codes s),
)

module _ {ℓ} {A : Type ℓ} (le : A → A → Bool) where
  unfoldable pub insert_sorted : A → List A → List A
  insert_sorted x [] = x ∷ []
  insert_sorted x (y ∷ ys) = if le x y then x ∷ y ∷ ys else y ∷ insert_sorted x ys

  -- `sorted(xs)`: stable.
  unfoldable pub sort : List A → List A
  unfolding insert_sorted
  sort [] = []
  sort (x ∷ xs) = insert_sorted x (sort xs)

  -- Each element is below all that follow it.
  abbrev pub IsOrdered : List A → Type 0
  IsOrdered [] = Unit
  IsOrdered (x ∷ xs) = All (λ y. le x y ≡ true) xs × IsOrdered xs

  pub All-insert_sorted {κ} :
      (P : A → Type κ) (x : A) (xs : List A) → P x → All P xs → All P (insert_sorted x xs)
  unfolding insert_sorted
  All-insert_sorted P x [] h a = (h, tt)
  All-insert_sorted P x (y ∷ ys) h a = elim (Bool-cases (le x y)) [
    | inl e ↦ rw e (h, a)
    | inr e ↦ rw e (a.0, All-insert_sorted P x ys h a.1)
  ]

  pub All-sort {κ} : (P : A → Type κ) (xs : List A) → All P xs → All P (sort xs)
  unfolding sort
  All-sort P [] a = a
  All-sort P (x ∷ xs) a = All-insert_sorted P x (sort xs) a.0 (All-sort P xs a.1)

  pub length-insert_sorted : (x : A) (xs : List A) → length (insert_sorted x xs) ≡ suc (length xs)
  unfolding insert_sorted
  length-insert_sorted x [] = refl
  length-insert_sorted x (y ∷ ys) = ground (arith, length-insert_sorted x ys)

  pub length-sort : (xs : List A) → length (sort xs) ≡ length xs
  unfolding sort
  length-sort [] = refl
  length-sort (x ∷ xs) = omega (arith, length-insert_sorted x (sort xs), length-sort xs)

module _ {ℓ} {A : Type ℓ} (le : A → A → Bool)
    (le_total : (a b : A) → le a b ≡ false → le b a ≡ true)
    (le_trans : (a b c : A) → le a b ≡ true → le b c ≡ true → le a c ≡ true) where
  All-le_trans :
      (a b : A) (xs : List A)
      → le a b ≡ true
      → All (λ y. le b y ≡ true) xs
      → All (λ y. le a y ≡ true) xs
  All-le_trans a b [] h k = tt
  All-le_trans a b (x ∷ xs) h k = (le_trans a b x h k.0, All-le_trans a b xs h k.1)

  insert_sorted-IsOrdered :
      (x : A) (xs : List A) → IsOrdered le xs → IsOrdered le (insert_sorted le x xs)
  unfolding insert_sorted
  insert_sorted-IsOrdered x [] o = (tt, tt)
  insert_sorted-IsOrdered x (y ∷ ys) o = elim (Bool-cases (le x y)) [
    | inl e ↦ rw e ((e, All-le_trans x y ys e o.0), o)
    | inr e ↦ rw e (
      All-insert_sorted le (λ z. le y z ≡ true) x ys (le_total x y e) o.0,
      insert_sorted-IsOrdered x ys o.1,
    )
  ]

  pub sort-IsOrdered : (xs : List A) → IsOrdered le (sort le xs)
  unfolding sort
  sort-IsOrdered [] = tt
  sort-IsOrdered (x ∷ xs) = insert_sorted-IsOrdered x (sort le xs) (sort-IsOrdered xs)

-- Sorting the entries of a dictionary hides none and uncovers none.
module _ {ℓ κ} {K : Type ℓ} {V : Type κ} ⦃e : Eq K⦄ (le : K × V → K × V → Bool)
    (le_same : (k : K) (v w : V) → le (k, v) (k, w) ≡ true) where
  pub lookup-insert_sorted :
      (j k : K) (v : V) (d : Dict K V)
      → lookup j (insert_sorted le (k, v) d) ≡ (if k == j then some v else lookup j d)
  unfolding lookup insert_sorted
  lookup-insert_sorted j k v [] = refl
  lookup-insert_sorted j k v ((i, w) ∷ d) = elim (Bool-cases (le (k, v) (i, w))) [
    | inl h ↦ rw h refl
    | inr h ↦ rw h (
        ground (
          arith,
          lookup-insert_sorted j k v d,
          e.beq_iff k j,
          e.beq_iff i j,
          λ (p : k ≡ i). differ (rw (← p) at h),
        ))
  ]
    where
      differ : le (k, v) (k, w) ≡ false → ⊥
      differ h = cc (le_same k v w)

  pub lookup-sort : (j : K) (d : Dict K V) → lookup j (sort le d) ≡ lookup j d
  unfolding lookup sort
  lookup-sort j [] = refl
  lookup-sort j ((k, v) ∷ d) = rw (lookup-insert_sorted j k v (sort le d), lookup-sort j d)

-- `sorted(xs, key=f)`
abbrev pub sort_by {ℓ} : {A : Type ℓ} → (A → FrameKey) → List A → List A
sort_by f = sort (λ x y. key_le (f x) (f y))

module _ {ℓ} {A : Type ℓ} (f g : A → FrameKey) where
  insert_sorted_congr :
      (x : A) (xs : List A)
      → f x ≡ g x
      → All (λ y. f y ≡ g y) xs
      → insert_sorted (λ x y. key_le (f x) (f y)) x xs
        ≡ insert_sorted (λ x y. key_le (g x) (g y)) x xs
  unfolding insert_sorted
  insert_sorted_congr x [] h a = refl
  insert_sorted_congr x (y ∷ ys) h a =
      rw (h, a.0)
        (ap (λ zs. if key_le (g x) (g y) then x ∷ y ∷ ys else y ∷ zs)
          (insert_sorted_congr x ys h a.1))

  -- Sort keys that agree on the elements sort alike.
  pub sort_by_congr : (xs : List A) → All (λ y. f y ≡ g y) xs → sort_by f xs ≡ sort_by g xs
  unfolding sort
  sort_by_congr [] a = refl
  sort_by_congr (x ∷ xs) a =
      insert_sorted_congr x (sort_by f xs) a.0
        (All-sort (λ x y. key_le (f x) (f y)) (λ y. f y ≡ g y) xs a.1)
      ∙ ap (insert_sorted (λ x y. key_le (g x) (g y)) x) (sort_by_congr xs a.1)
