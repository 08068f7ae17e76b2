-- ===== src/Upload/Link/Uploaded.antt =====
-- What an operation's variables are after the upload, told from a flat list of their leaves.
use rekuest.Prelude.{
  ◌≡◌, ◌↔◌, refl, sym, ap, ◌∙◌, inl, inr, String, Option, none, some, List, [], ◌∷◌, ◌++◌, map,
  arith, Option-cases,
}
use rekuest.Upload.Link.{
  Value, dictionary, sequence, tuple, media, plain, Values, end, then_value, Fields, no_field,
  then_field, apply_recursive, apply_values, apply_fields, Leaf, file, other, leaves,
  leaves_of_values, leaves_of_fields, shape, shape_of_values, shape_of_fields,
}

module _ {M S : Type 0} (func : M → Option S) where
  -- The leaves uploaded one after the other
  unfoldable pub upload_leaf : Leaf M S → Option S
  upload_leaf (file m) = func m
  upload_leaf (other s) = some s

  unfoldable pub upload_leaves : List (Leaf M S) → Option (List S)
  unfolding upload_leaf
  upload_leaves [] = some []
  upload_leaves (x ∷ xs) = elim (upload_leaf x) [
    | none ↦ none
    | some s ↦ elim (upload_leaves xs) [ none ↦ none | some ss ↦ some (s ∷ ss) ]
  ]

  abbrev both_lists : Option (List S) → Option (List S) → Option (List S)
  both_lists none b = none
  both_lists (some xs) none = none
  both_lists (some xs) (some ys) = some (xs ++ ys)

  upload_leaves-append :
      (xs ys : List (Leaf M S))
      → upload_leaves (xs ++ ys) ≡ both_lists (upload_leaves xs) (upload_leaves ys)
  unfolding upload_leaves
  upload_leaves-append [] ys = elim (Option-cases (upload_leaves ys)) [
    | inl e ↦ rw e refl
    | inr (ss, e) ↦ rw e refl
  ]
  upload_leaves-append (x ∷ xs) ys = ground (arith, upload_leaves-append xs ys)

  abbrev pub others : List S → List (Leaf M S)
  others ss = map other ss

  others-append : (xs ys : List S) → others (xs ++ ys) ≡ others xs ++ others ys
  others-append [] ys = refl
  others-append (x ∷ xs) ys = ap (◌∷◌ (other x)) (others-append xs ys)

  -- A result holds, in order, what the leaves upload to, in the shape that is given; there is none
  -- exactly if one of them raises.
  abbrev pub Holds :
      {T U : Type 0} → (T → List (Leaf M S)) → (T → U) → Option T → List (Leaf M S) → U → Type 0
  Holds f sh none xs u = upload_leaves xs ≡ none
  Holds f sh (some v) xs u =
      (ss : List S) × (upload_leaves xs ≡ some ss) × (f v ≡ others ss) × (sh v ≡ u)

  append_raises :
      (xs ys : List (Leaf M S)) → upload_leaves xs ≡ none → upload_leaves (xs ++ ys) ≡ none
  append_raises xs ys e = upload_leaves-append xs ys ∙ rw e refl

  append_raises_later :
      (xs ys : List (Leaf M S)) (ss : List S)
      → upload_leaves xs ≡ some ss
      → upload_leaves ys ≡ none
      → upload_leaves (xs ++ ys) ≡ none
  append_raises_later xs ys ss e e' = upload_leaves-append xs ys ∙ rw (e, e') refl

  append_done :
      (xs ys : List (Leaf M S)) (ss ss' : List S)
      → upload_leaves xs ≡ some ss
      → upload_leaves ys ≡ some ss'
      → upload_leaves (xs ++ ys) ≡ some (ss ++ ss')
  append_done xs ys ss ss' e e' = upload_leaves-append xs ys ∙ rw (e, e') refl

  values_join :
      (a : Option (Value M S)) (b : Option (Values M S)) (xs ys : List (Leaf M S))
      (u : Value Unit Unit) (us : Values Unit Unit)
      → Holds leaves shape a xs u
      → Holds leaves_of_values shape_of_values b ys us
      → Holds leaves_of_values shape_of_values
          (elim a [
            | none ↦ none
            | some d ↦ elim b [ none ↦ none | some ds ↦ some (then_value d ds) ]
          ])
          (xs ++ ys)
          (then_value u us)
  unfolding leaves shape
  values_join none b xs ys u us h k = append_raises xs ys h
  values_join (some d) none xs ys u us (ss, e, f, s) k = append_raises_later xs ys ss e k
  values_join (some d) (some ds) xs ys u us (ss, e, f, s) (ss', e', f', s') = (
    ss ++ ss',
    append_done xs ys ss ss' e e',
    rw (f, f') (sym (others-append ss ss')),
    cc (s, s'),
  )

  fields_join :
      (name : String) (a : Option (Value M S)) (b : Option (Fields M S)) (xs ys : List (Leaf M S))
      (u : Value Unit Unit) (us : Fields Unit Unit)
      → Holds leaves shape a xs u
      → Holds leaves_of_fields shape_of_fields b ys us
      → Holds leaves_of_fields shape_of_fields
          (elim a [
            | none ↦ none
            | some d ↦ elim b [ none ↦ none | some ds ↦ some (then_field name d ds) ]
          ])
          (xs ++ ys)
          (then_field name u us)
  unfolding leaves shape
  fields_join name none b xs ys u us h k = append_raises xs ys h
  fields_join name (some d) none xs ys u us (ss, e, f, s) k = append_raises_later xs ys ss e k
  fields_join name (some d) (some ds) xs ys u us (ss, e, f, s) (ss', e', f', s') = (
    ss ++ ss',
    append_done xs ys ss ss' e e',
    rw (f, f') (sym (others-append ss ss')),
    cc (s, s'),
  )

  sequence_wrapped :
      (b : Option (Values M S)) (xs : List (Leaf M S)) (us : Values Unit Unit)
      → Holds leaves_of_values shape_of_values b xs us
      → Holds leaves shape
          (elim b [ none ↦ none | some done ↦ some (sequence done) ])
          xs
          (sequence us)
  unfolding leaves shape
  sequence_wrapped none xs us h = h
  sequence_wrapped (some vs) xs us (ss, e, f, s) = (ss, e, f, ap sequence s)

  tuple_wrapped :
      (b : Option (Values M S)) (xs : List (Leaf M S)) (us : Values Unit Unit)
      → Holds leaves_of_values shape_of_values b xs us
      → Holds leaves shape (elim b [ none ↦ none | some done ↦ some (tuple done) ]) xs (tuple us)
  unfolding leaves shape
  tuple_wrapped none xs us h = h
  tuple_wrapped (some vs) xs us (ss, e, f, s) = (ss, e, f, ap tuple s)

  dictionary_wrapped :
      (b : Option (Fields M S)) (xs : List (Leaf M S)) (us : Fields Unit Unit)
      → Holds leaves_of_fields shape_of_fields b xs us
      → Holds leaves shape
          (elim b [ none ↦ none | some done ↦ some (dictionary done) ])
          xs
          (dictionary us)
  unfolding leaves shape
  dictionary_wrapped none xs us h = h
  dictionary_wrapped (some vs) xs us (ss, e, f, s) = (ss, e, f, ap dictionary s)

  media-Holds :
      (o : Option S) (m : M)
      → func m ≡ o
      → Holds leaves shape
          (elim o [ none ↦ none | some key ↦ some (plain key) ])
          (file m ∷ [])
          (plain tt)
  unfolding leaves shape upload_leaves upload_leaf
  media-Holds none m e = ground (arith, e)
  media-Holds (some key) m e = (key ∷ [], ground (arith, e), refl, refl)

  mutual
    unfolding apply_recursive leaves shape upload_leaves upload_leaf

    pub apply_recursive_lem :
        (v : Value M S) → Holds leaves shape (apply_recursive func v) (leaves v) (shape v)
    apply_recursive_lem (dictionary fields) =
        dictionary_wrapped (apply_fields func fields) (leaves_of_fields fields)
          (shape_of_fields fields) (apply_fields_lem fields)
    apply_recursive_lem (sequence values) =
        sequence_wrapped (apply_values func values) (leaves_of_values values)
          (shape_of_values values) (apply_values_lem values)
    apply_recursive_lem (tuple values) =
        tuple_wrapped (apply_values func values) (leaves_of_values values) (shape_of_values values)
          (apply_values_lem values)
    apply_recursive_lem (media m) = media-Holds (func m) m refl
    apply_recursive_lem (plain s) = (s ∷ [], refl, refl, refl)

    apply_values_lem :
        (vs : Values M S)
        → Holds leaves_of_values shape_of_values
            (apply_values func vs)
            (leaves_of_values vs)
            (shape_of_values vs)
    apply_values_lem end = ([], refl, refl, refl)
    apply_values_lem (then_value v rest) =
        values_join (apply_recursive func v) (apply_values func rest) (leaves v)
          (leaves_of_values rest) (shape v) (shape_of_values rest) (apply_recursive_lem v)
          (apply_values_lem rest)

    apply_fields_lem :
        (fs : Fields M S)
        → Holds leaves_of_fields shape_of_fields
            (apply_fields func fs)
            (leaves_of_fields fs)
            (shape_of_fields fs)
    apply_fields_lem no_field = ([], refl, refl, refl)
    apply_fields_lem (then_field name v rest) =
        fields_join name (apply_recursive func v) (apply_fields func rest) (leaves v)
          (leaves_of_fields rest) (shape v) (shape_of_fields rest) (apply_recursive_lem v)
          (apply_fields_lem rest)

  read_off :
      (o : Option (Value M S)) (v' : Value M S) (xs : List (Leaf M S)) (u : Value Unit Unit)
      → Holds leaves shape o xs u
      → ((o ≡ some v')
          → (ss : List S) × (upload_leaves xs ≡ some ss) × (leaves v' ≡ others ss) × (shape v' ≡ u))
        × ((o ≡ none) ↔ (upload_leaves xs ≡ none))
  read_off none v' xs u h = (λ e. absurd (cc e), (λ e. h, λ e. refl))
  read_off (some w) v' xs u (ss, e, f, s) = (
    λ same.
        let here : w ≡ v' = cc same in (ss, e, ap leaves (sym here) ∙ f, ap shape (sym here) ∙ s),
    (λ n. absurd (cc n), λ n. absurd (cc (e, n))),
  )

  -- The variables of an operation are uploaded exactly if each of their files is, and then they are what
  -- they were in every respect but one: of the same nesting, the same names and the same plain values,
  -- with what its upload returned in the place of each file, so that no file is left.
  pub variables_are_uploaded :
      (v v' : Value M S)
      → ((apply_recursive func v ≡ some v')
          → (ss : List S) × (upload_leaves (leaves v) ≡ some ss)
            × (leaves v' ≡ others ss)
            × (shape v' ≡ shape v))
        × ((apply_recursive func v ≡ none) ↔ (upload_leaves (leaves v) ≡ none))
  variables_are_uploaded v v' =
      read_off (apply_recursive func v) v' (leaves v) (shape v) (apply_recursive_lem v)
