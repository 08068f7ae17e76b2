-- ===== src/Prelude/Tests.antt =====
-- Boolean tests on numbers and texts, the conditional, and equality as an interface.
use Prim.Native.Nat.{ℕ, compare, Ordering}
use Prim.Native.String.{String}
use mathlib.Core.Path.{◌≡◌, refl}
use mathlib.Core.Logic.{◌↔◌, ◌⊎◌, inl, inr}
use mathlib.Core.Bool.{Bool, true, false, ◌&&◌}
use mathlib.Core.Option.{Option, none, some}
use mathlib.Core.List.{List, [], ◌∷◌}
use native.Mathlib.Omega.{arith}
use text.Mathlib.Text.{◌==◌ as str_eq}
use text.Mathlib.TextEquality.{eq_iff}

abbrev pub ltb : ℕ → ℕ → Bool
ltb a b = elim (compare a b) [ Ordering.lt ↦ true | _ ↦ false ]

abbrev pub leb : ℕ → ℕ → Bool
leb a b = elim (compare a b) [ Ordering.gt ↦ false | _ ↦ true ]

abbrev pub nat_beq : ℕ → ℕ → Bool
nat_beq a b = elim (compare a b) [ Ordering.eq ↦ true | _ ↦ false ]

pub nat_beq_iff : (a b : ℕ) → (nat_beq a b ≡ true) ↔ (a ≡ b)
nat_beq_iff a b = ground arith

infix 1 if◌then◌else◌
abbrev pub if◌then◌else◌ {ℓ} : {A : Type ℓ} → Bool → A → A → A
if true then x else y = x
if false then x else y = y

-- To split on a computed value and keep the equation.
pub Bool-cases : (b : Bool) → (b ≡ true) ⊎ (b ≡ false)
Bool-cases true = inl refl
Bool-cases false = inr refl

pub Option-cases {ℓ} : {A : Type ℓ} (o : Option A) → (o ≡ none) ⊎ ((a : A) × (o ≡ some a))
Option-cases none = inl refl
Option-cases (some a) = inr (a, refl)

abbrev pub option_list {ℓ} : {A : Type ℓ} → Option A → List A
option_list none = []
option_list (some a) = a ∷ []

-- Python's `==` on the keys of its dictionaries.
pub record Eq {ℓ} (A : Type ℓ) : Type ℓ where
  pub beq : A → A → Bool
  pub beq_iff : (a b : A) → (beq a b ≡ true) ↔ (a ≡ b)

-- Texts are equal as the library of texts decides.
instance abbrev pub string_eq : Eq String
string_eq = record { beq = str_eq; beq_iff = eq_iff }

module _ {ℓ κ} {A : Type ℓ} {B : Type κ} ⦃d : Eq A⦄ ⦃e : Eq B⦄ where
  abbrev pub pair_beq : A × B → A × B → Bool
  pair_beq (a, b) (c, f) = d.beq a c && e.beq b f

  pub pair_beq_iff : (p q : A × B) → (pair_beq p q ≡ true) ↔ (p ≡ q)
  pair_beq_iff (a, b) (c, f) = ground (arith, d.beq_iff a c, e.beq_iff b f)

  instance abbrev pub pair_eq : Eq (A × B)
  pair_eq = record { beq = pair_beq; beq_iff = pair_beq_iff }

instance abbrev pub nat_eq : Eq ℕ
nat_eq = record { beq = nat_beq; beq_iff = nat_beq_iff }

infix 50 ◌==◌
abbrev pub ◌==◌ {ℓ} : {A : Type ℓ} ⦃e : Eq A⦄ → A → A → Bool
◌==◌ ⦃e⦄ = e.beq

-- The truth of an optional text: neither `None` nor empty.
abbrev pub truthy : Option String → Option String
truthy none = none
truthy (some s) = if s == "" then none else some s
