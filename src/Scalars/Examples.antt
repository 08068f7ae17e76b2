-- ===== src/Scalars/Examples.antt =====
-- `query ($search: String, $values: Int) { options: rooms { value: id label: name } }`
use rekuest.Prelude.{◌≡◌, ◌↔◌, refl, ap, String, Option, none, some, List, [], ◌∷◌}
use rekuest.Scalars.{
  query, named_type, operation, selection, field, leaf, nothing, Definition, IsSearchQuery,
  check_document, check_definition, check_variables, check_options, validate, search_query, text,
  document_node, get_search_query_variables,
}
use rekuest.Scalars.Accepted.{Denotes, search_query_again}

abbrev rooms : List Definition
rooms =
    operation query
      (record { name = "search"; kind = named_type }
        ∷ record { name = "values"; kind = named_type }
        ∷ [])
      (selection
        (field (some "options") "rooms"
          (selection (leaf (some "value") "id") (selection (leaf (some "label") "name") nothing)))
        nothing)
    ∷ []

abbrev parse : String → Option (List Definition)
parse v = some rooms

abbrev print_ast : List Definition → String
print_ast document = "query rooms"

search_query_again_example :
    ((validate parse print_ast (document_node rooms) ≡ search_query "query rooms") ↔ (
      (document : List Definition) × Denotes parse (document_node rooms) document
      × IsSearchQuery document
      × (◌≡◌ {A = String} "query rooms" (print_ast document))))
    × (validate parse print_ast (document_node rooms) ≡ search_query "query rooms"
        → (validate parse print_ast (text "query rooms") ≡ search_query "query rooms")
          × ((rest : List String) × (get_search_query_variables parse "query rooms"
                ≡ some ("search" ∷ "values" ∷ rest))))
search_query_again_example =
    search_query_again parse print_ast (document_node rooms) "query rooms" (λ document e. ap some e)

-- The query passes.
rooms_pass : check_document rooms ≡ none
unfolding check_document check_definition check_variables check_options
rooms_pass = refl
