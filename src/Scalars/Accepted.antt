-- ===== src/Scalars/Accepted.antt =====
-- Which documents the checks of a search query let pass.
use rekuest.Prelude.{
  ◌≡◌, ◌↔◌, ◌⊎◌, sym, refl, ap, ◌∙◌, inl, inr, String, true, Option, none, some, List, [], ◌∷◌,
  arith, Option-cases, string_eq,
}
use rekuest.Scalars.{
  query, mutation, subscription, TypeKind, named_type, list_type, non_null_type, VariableDefinition,
  field, leaf, other, SelectionSet, nothing, selection, Definition, operation, other_definition,
  shown_name, is_named, names_of, check_options, check_variables, check_definition, check_document,
  QueryError, search_query, SearchQueryCoercible, text, document_node, other_value, parse_or_raise,
  coerce, validate, get_search_query_variables, declared_variables, IsSearchQuery,
}

named_type_lem : (kind : TypeKind) → is_named kind ≡ true → kind ≡ named_type
named_type_lem named_type h = refl
named_type_lem list_type h = absurd (cc h)
named_type_lem non_null_type h = absurd (cc h)

accepted_lem :
    (document : List Definition) → check_document document ≡ none → IsSearchQuery document
unfolding check_document check_definition check_variables check_options
accepted_lem [] h = absurd (cc h)
accepted_lem (d ∷ e ∷ es) h = absurd (cc h)
accepted_lem (other_definition ∷ []) h = absurd (cc h)
accepted_lem (operation mutation vs s ∷ []) h = absurd (cc h)
accepted_lem (operation subscription vs s ∷ []) h = absurd (cc h)
accepted_lem (operation query [] s ∷ []) h = absurd (cc h)
accepted_lem (operation query (v ∷ []) s ∷ []) h = absurd (cc h)
accepted_lem (operation query (v ∷ w ∷ vs) nothing ∷ []) h = ground arith
accepted_lem (operation query (v ∷ w ∷ vs) (selection other rest) ∷ []) h = ground arith
accepted_lem (operation query (v ∷ w ∷ vs) (selection (leaf a n) rest) ∷ []) h = ground arith
accepted_lem (operation query (v ∷ w ∷ vs) (selection (field a n inner) rest) ∷ []) h = record {
  first = v;
  second = w;
  more_variables = vs;
  alias = a;
  name = n;
  wrapped = inner;
  more_selections = rest;
  shape = refl;
  first_is_search = ground (arith, string_eq.beq_iff v.name "search");
  first_is_named = named_type_lem v.kind (ground arith);
  second_is_values = ground (arith, string_eq.beq_iff w.name "values");
  wraps_options = ground (arith, string_eq.beq_iff (shown_name a n) "options");
  has_value = ground arith;
  has_label = ground arith;
}

accepts : (document : List Definition) → IsSearchQuery document → check_document document ≡ none
unfolding check_document check_definition check_variables check_options
accepts document s =
    rw
      (
        s.shape, s.first_is_search, s.first_is_named, s.second_is_values, s.wraps_options,
        s.has_value, s.has_label,
      )
      refl

-- A document passes the checks exactly when it is one query whose first two variables are `search`,
-- of a named type, and `values`, and whose first selection is shown as `options` and selects fields
-- shown as `value` and `label`.
pub check_document_lem :
    (document : List Definition) → (check_document document ≡ none) ↔ IsSearchQuery document
check_document_lem document = (accepted_lem document, accepts document)

-- The type of `values` does not matter: a query that declares it with any other type passes or fails
-- in the same way, though the message of the failure asks for `[ID]`.
pub values_type_free :
    (first second : VariableDefinition) (kind : TypeKind) (more : List VariableDefinition)
    (selections : SelectionSet)
    → check_document (operation query (first ∷ second ∷ more) selections ∷ [])
      ≡ check_document
          (operation query (first ∷ record second { kind = kind } ∷ more) selections ∷ [])
unfolding check_document check_definition check_variables
values_type_free first second kind more selections = refl

module _ (parse : String → Option (List Definition)) where
  -- What the value stands for, if it stands for a document
  abbrev pub Denotes : SearchQueryCoercible → List Definition → Type 0
  Denotes (text v) document = parse v ≡ some document
  Denotes (document_node given) document = given ≡ document
  Denotes other_value document = ⊥

  coerce-inl :
      (v : SearchQueryCoercible) (document : List Definition)
      → (coerce parse v ≡ inl document) ↔ Denotes v document
  unfolding coerce parse_or_raise
  coerce-inl (text v) document = (λ h. ground (arith, h), λ h. ground (arith, h))
  coerce-inl (document_node given) document = (λ h. cc h, λ h. cc h)
  coerce-inl other_value document = (λ h. cc h, λ h. absurd h)

module _ (parse : String → Option (List Definition)) (print_ast : List Definition → String) where
  validated :
      (v : SearchQueryCoercible) (document : List Definition)
      → Denotes parse v document
      → IsSearchQuery document
      → validate parse print_ast v ≡ search_query (print_ast document)
  unfolding validate
  validated v document d s = ground (arith, (coerce-inl parse v document).1 d, accepts document s)

  denoted :
      (v : SearchQueryCoercible) (printed : String)
      → validate parse print_ast v ≡ search_query printed
      → (document : List Definition) × Denotes parse v document
        × IsSearchQuery document
        × (printed ≡ print_ast document)
  unfolding validate
  denoted v printed h = by_coerced (coerce parse v) refl
    where
      by_coerced :
          (r : List Definition ⊎ QueryError)
          → coerce parse v ≡ r
          → (document : List Definition) × Denotes parse v document
            × IsSearchQuery document
            × (printed ≡ print_ast document)
      by_coerced (inr e) c = absurd (ground (arith, h, c))
      by_coerced (inl document) c = elim (Option-cases (check_document document)) [
        | inr (e, failed) ↦ absurd (ground (arith, h, c, failed))
        | inl passed ↦ (
          document,
          (coerce-inl parse v document).0 c,
          accepted_lem document passed,
          ground (arith, h, c, passed),
        )
      ]

  -- `validate` accepts exactly what stands for a document that is one query whose first two variables
  -- are `search`, of any named type, and `values`, of any type, and whose first selection is shown as
  -- `options`, whatever stands beside it, and selects fields shown as `value` and `label`; and then it returns that document, printed. If its
  -- document, printed, parses back as it was, what it returns survives the round trip through the server: it is
  -- accepted again, unchanged, and its variables are read as `search`, `values` and any others.
  pub search_query_again :
      (v : SearchQueryCoercible) (printed : String)
      → ((document : List Definition)
          → Denotes parse v document
          → parse (print_ast document) ≡ some document)
      → ((validate parse print_ast v ≡ search_query printed) ↔ (
          (document : List Definition) × Denotes parse v document
          × IsSearchQuery document
          × (printed ≡ print_ast document)))
        × (validate parse print_ast v ≡ search_query printed
            → (validate parse print_ast (text printed) ≡ search_query printed)
              × ((rest : List String) × (get_search_query_variables parse printed
                    ≡ some ("search" ∷ "values" ∷ rest))))
  unfolding get_search_query_variables parse_or_raise declared_variables
  search_query_again v printed parses_back = (
    (denoted v printed, λ (document, d, s, e). validated v document d s ∙ ap search_query (sym e)),
    λ h.
        let (document, d, s, e) = denoted v printed h in
        let back : parse printed ≡ some document = ap parse e ∙ parses_back document d in
        (
          validated (text printed) document back s ∙ ap search_query (sym e),
          (
            names_of s.more_variables,
            rw (back, get_search_query_variables, parse_or_raise)
                (ap declared_variables s.shape ∙ rw (s.first_is_search, s.second_is_values) refl),
          ),
        ),
  )
