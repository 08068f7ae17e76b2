-- ===== src/Upload/Link.antt =====
-- rekuest/client/upload/link.py: the files among an operation's variables are uploaded, and each is
-- replaced by what the upload returns.
pub mod Uploaded
use rekuest.Prelude.{
  ◌≡◌, ◌↔◌, refl, sym, ap, subst, ◌∙◌, inl, inr, String, Bool, Option, none, some, List, [], ◌∷◌,
  ◌++◌, append_assoc, map, arith, Option-cases,
}

-- Python's nested values: `media` are of the guarded type, `plain` of no type that is looked into.
mutual
  pub data Value (M S : Type 0) : Type 0 where
    dictionary : Fields M S → Value M S
    sequence : Values M S → Value M S
    tuple : Values M S → Value M S
    media : M → Value M S
    plain : S → Value M S

  pub data Values (M S : Type 0) : Type 0 where
    end : Values M S
    then_value : Value M S → Values M S → Values M S

  pub data Fields (M S : Type 0) : Type 0 where
    no_field : Fields M S
    then_field : String → Value M S → Fields M S → Fields M S

-- `func` returns a plain value, or raises; one that raises ends the whole.
module _ {M S : Type 0} (func : M → Option S) where
  unfoldable mutual
    pub apply_recursive : Value M S → Option (Value M S)
    apply_recursive (dictionary fields) = elim (apply_fields fields) [
      | none ↦ none
      | some done ↦ some (dictionary done)
    ]
    apply_recursive (sequence values) = elim (apply_values values) [
      | none ↦ none
      | some done ↦ some (sequence done)
    ]
    apply_recursive (tuple values) = elim (apply_values values) [
      | none ↦ none
      | some done ↦ some (tuple done)
    ]
    apply_recursive (media file) = elim (func file) [ none ↦ none | some key ↦ some (plain key) ]
    apply_recursive (plain value) = some (plain value)

    pub apply_values : Values M S → Option (Values M S)
    apply_values end = some end
    apply_values (then_value v rest) = elim (apply_recursive v) [
      | none ↦ none
      | some done ↦ elim (apply_values rest) [
        | none ↦ none
        | some others ↦ some (then_value done others)
      ]
    ]

    pub apply_fields : Fields M S → Option (Fields M S)
    apply_fields no_field = some no_field
    apply_fields (then_field name v rest) = elim (apply_recursive v) [
      | none ↦ none
      | some done ↦ elim (apply_fields rest) [
        | none ↦ none
        | some others ↦ some (then_field name done others)
      ]
    ]

-- A value without its nesting
pub data Leaf (M S : Type 0) : Type 0 where
  file : M → Leaf M S
  other : S → Leaf M S

unfoldable mutual
  pub leaves : {M S : Type 0} → Value M S → List (Leaf M S)
  leaves (dictionary fields) = leaves_of_fields fields
  leaves (sequence values) = leaves_of_values values
  leaves (tuple values) = leaves_of_values values
  leaves (media m) = file m ∷ []
  leaves (plain s) = other s ∷ []

  pub leaves_of_values : {M S : Type 0} → Values M S → List (Leaf M S)
  leaves_of_values end = []
  leaves_of_values (then_value v rest) = leaves v ++ leaves_of_values rest

  pub leaves_of_fields : {M S : Type 0} → Fields M S → List (Leaf M S)
  leaves_of_fields no_field = []
  leaves_of_fields (then_field name v rest) = leaves v ++ leaves_of_fields rest

-- A value without its leaves
unfoldable mutual
  pub shape : {M S : Type 0} → Value M S → Value Unit Unit
  shape (dictionary fields) = dictionary (shape_of_fields fields)
  shape (sequence values) = sequence (shape_of_values values)
  shape (tuple values) = tuple (shape_of_values values)
  shape (media m) = plain tt
  shape (plain s) = plain tt

  pub shape_of_values : {M S : Type 0} → Values M S → Values Unit Unit
  shape_of_values end = end
  shape_of_values (then_value v rest) = then_value (shape v) (shape_of_values rest)

  pub shape_of_fields : {M S : Type 0} → Fields M S → Fields Unit Unit
  shape_of_fields no_field = no_field
  shape_of_fields (then_field name v rest) = then_field name (shape v) (shape_of_fields rest)
