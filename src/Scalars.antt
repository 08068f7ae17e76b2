-- ===== src/Scalars.antt =====
-- rekuest/scalars.py: the identifiers and the search queries that a widget may carry. The syntax tree
-- is another package's: a node has the fields that this file reads.
pub mod Accepted
mod Examples
use rekuest.Prelude.{
  ℕ, nat_eq, ◌&&◌, ℕ, ◌≡◌, ◌≢◌, ◌↔◌, ◌⊎◌, refl, sym, ap, ◌∙◌, inl, inr, String, Bool, true, false,
  not, ◌&&◌, ◌||◌, Option, none, some, List, [], ◌∷◌, ◌++◌, arith, ◌==◌, if◌then◌else◌, contains,
  Bool-cases, Option-cases, string_eq,
}
use rekuest.Prelude.Order.{codes}

pub data OperationType : Type 0 where
  query mutation subscription : OperationType

pub data TypeKind : Type 0 where
  named_type list_type non_null_type : TypeKind

pub record VariableDefinition : Type 0 where
  pub name : String
  pub kind : TypeKind

-- `field alias name selection_set`; a `leaf` is a field without a selection set, and `other` a
-- fragment's spread.
mutual
  pub data Selection : Type 0 where
    leaf : Option String → String → Selection
    field : Option String → String → SelectionSet → Selection
    other : Selection

  pub data SelectionSet : Type 0 where
    nothing : SelectionSet
    selection : Selection → SelectionSet → SelectionSet

pub data Definition : Type 0 where
  operation : OperationType → List VariableDefinition → SelectionSet → Definition
  other_definition : Definition

pub data QueryError : Type 0 where
  could_not_parse one_definition needs_an_operation needs_a_query two_arguments : QueryError
  first_search second_values needs_a_field first_options needs_selections : QueryError
  needs_value needs_label index_error not_a_query : QueryError

-- `None` for a query that is accepted
abbrev pub Checked : Type 0
Checked = Option QueryError

-- `alias.value if alias else name.value`
abbrev pub shown_name : Option String → String → String
shown_name none name = name
shown_name (some alias) name = alias

abbrev pub aliases : SelectionSet → List String
aliases nothing = []
aliases (selection (field alias name inner) rest) = shown_name alias name ∷ aliases rest
aliases (selection (leaf alias name) rest) = shown_name alias name ∷ aliases rest
aliases (selection other rest) = aliases rest

abbrev pub is_named : TypeKind → Bool
is_named named_type = true
is_named _ = false

unfoldable pub check_options : SelectionSet → Checked
check_options nothing = some index_error
check_options (selection other rest) = some needs_a_field
check_options (selection (leaf alias name) rest) =
    if not (shown_name alias name == "options") then some first_options else some needs_selections
check_options (selection (field alias name wrapped) rest) =
    if not (shown_name alias name == "options")
    then some first_options
    else if not (contains "value" (aliases wrapped))
    then some needs_value
    else if not (contains "label" (aliases wrapped))
    then some needs_label
    else none

unfoldable pub check_variables : List VariableDefinition → SelectionSet → Checked
unfolding check_options
check_variables [] selections = some two_arguments
check_variables (only ∷ []) selections = some two_arguments
check_variables (first ∷ second ∷ rest) selections =
    if not (first.name == "search") || not (is_named first.kind)
    then some first_search
    else if not (second.name == "values") || not (is_named first.kind)
    then some second_values
    else check_options selections

unfoldable pub check_definition : Definition → Checked
unfolding check_variables
check_definition other_definition = some needs_an_operation
check_definition (operation query variables selections) = check_variables variables selections
check_definition (operation _ variables selections) = some needs_a_query

-- The checks of `SearchQuery.validate` on a parsed document.
unfoldable pub check_document : List Definition → Checked
unfolding check_definition
check_document [] = some one_definition
check_document (definition ∷ []) = check_definition definition
check_document (definition ∷ _) = some one_definition

pub data Validated : Type 0 where
  search_query : String → Validated
  value_error : QueryError → Validated

-- What a search query may be made from; `other_value` is a value of any other type.
pub data SearchQueryCoercible : Type 0 where
  text : String → SearchQueryCoercible
  document_node : List Definition → SearchQueryCoercible
  other_value : SearchQueryCoercible

abbrev pub names_of : List VariableDefinition → List String
names_of [] = []
names_of (v ∷ vs) = v.name ∷ names_of vs

-- On a parsed document; `none` is an `IndexError`.
unfoldable pub declared_variables : List Definition → Option (List String)
declared_variables [] = none
declared_variables (other_definition ∷ rest) = some []
declared_variables (operation kind variables selections ∷ rest) = some (names_of variables)

-- `parse` and `print_ast` are the syntax package's; `none` is its syntax error.
module _ (parse : String → Option (List Definition)) where
  -- `none` is the `ValueError`, whose text is left out.
  unfoldable pub parse_or_raise : String → Option (List Definition)
  parse_or_raise v = parse v

  unfoldable pub coerce : SearchQueryCoercible → List Definition ⊎ QueryError
  unfolding parse_or_raise
  coerce (text v) = elim (parse_or_raise v) [
    | none ↦ inr could_not_parse
    | some document ↦ inl document
  ]
  coerce (document_node document) = inl document
  coerce other_value = inr not_a_query

  -- `none` where it raises
  unfoldable pub get_search_query_variables : String → Option (List String)
  unfolding parse_or_raise declared_variables
  get_search_query_variables v = elim (parse_or_raise v) [
    | none ↦ none
    | some document ↦ declared_variables document
  ]

module _ (parse : String → Option (List Definition)) (print_ast : List Definition → String) where
  unfoldable pub validate : SearchQueryCoercible → Validated
  unfolding coerce check_document
  validate v = elim (coerce parse v) [
    | inr e ↦ value_error e
    | inl document ↦ elim (check_document document) [
      | some e ↦ value_error e
      | none ↦ search_query (print_ast document)
    ]
  ]

-- The characters `@` and `/`
abbrev at_sign : ℕ
at_sign = 64

abbrev slash : ℕ
slash = 47

-- `none` is the `ValueError`.
unfoldable pub validate_identifier : String → Option String
validate_identifier v =
    if contains at_sign (codes v) && not (contains slash (codes v)) then none else some v

-- The documents that the checks pass, told by their shape. The class's description asks for more: the
-- types of both variables, and no other selection than `options`.
pub record IsSearchQuery (document : List Definition) : Type 0 where
  pub first : VariableDefinition
  pub second : VariableDefinition
  pub more_variables : List VariableDefinition
  pub alias : Option String
  pub name : String
  pub wrapped : SelectionSet
  pub more_selections : SelectionSet
  pub shape :
      document
      ≡ operation query
          (first ∷ second ∷ more_variables)
          (selection (field alias name wrapped) more_selections)
        ∷ []
  pub first_is_search : first.name ≡ "search"
  pub first_is_named : first.kind ≡ named_type
  pub second_is_values : second.name ≡ "values"
  pub wraps_options : shown_name alias name ≡ "options"
  pub has_value : contains "value" (aliases wrapped) ≡ true
  pub has_label : contains "label" (aliases wrapped) ≡ true
