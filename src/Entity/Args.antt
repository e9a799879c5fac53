-- ===== src/Entity/Args.antt =====
-- lib/entity/entity.go: the queries of its routes, `KnownKeys`, `listArgs` and `fieldsOf`.
use go_platform.Base.{
  GoString, Bool, ◌||◌, List, [], ◌∷◌, ◌++◌, Option, none, some, lit, str_eq, has_prefix, ltb,
  lookup, delete, keys_of, if◌then◌else◌, any, length,
}
use go_platform.Problem.{Problem, with_code, code_json_key}
use go_platform.Query
use go_platform.Query.{Params, Values, QueryError}
use go_platform.Search.{Condition, search_of}
use go_platform.Rest.Row.{Result, ok, err, validation}

-- `KnownKeys`, over the names of the query in the order in which the map is walked.
unfoldable pub is_known : List GoString → GoString → Bool
is_known plain k =
    has_prefix k (lit "filter[") || has_prefix k (lit "page[") || any (λ p. str_eq k p) plain

unfoldable pub unknown_parameter : GoString → Problem
unknown_parameter k = with_code (validation (lit "unknown parameter " ++ k)) code_json_key

unfoldable pub known_keys : List GoString → List GoString → Option Problem
known_keys plain [] = none
known_keys plain (k ∷ ks) =
    let rest = known_keys plain ks in if is_known plain k then rest else some (unknown_parameter k)

-- The bare names that a list takes.
unfoldable pub plain_of : List GoString → List GoString
plain_of [] = lit "sort" ∷ lit "fields" ∷ []
plain_of (f ∷ fs) = lit "sort" ∷ lit "fields" ∷ lit "q" ∷ []

-- `values["q"]` and `values.Get("q")`.
unfoldable pub values_of : GoString → Values → List GoString
values_of k values = elim (lookup k values) [ none ↦ [] | some vs ↦ vs ]

unfoldable pub first_of_values : List GoString → GoString
first_of_values [] = []
first_of_values (v ∷ vs) = v

-- A list as it was checked: the translated query, and the search array (`none` for nil).
pub record ListArgs : Type 0 where
  pub params : Params
  pub terms : Option (List Condition)

module _ (error_text : QueryError → GoString) where
  -- `query.Parse` of what is left without q, and `SearchOf`.
  unfoldable pub parsed_args : Values → GoString → List GoString → Result ListArgs
  parsed_args values term fields = elim (Query.parse (delete (lit "q") values)) [
    | Query.err e ↦ err (validation (error_text e))
    | Query.ok p ↦ ok (record { params = p; terms = search_of p term fields })
  ]

  -- `listArgs`
  unfoldable pub list_args : Values → List GoString → Result ListArgs
  list_args values fields = elim (known_keys (plain_of fields) (keys_of values)) [
    | some p ↦ err p
    | none ↦
        if ltb 1 (length (values_of (lit "q") values))
        then err (validation (lit "q is given more than once"))
        else parsed_args values (first_of_values (values_of (lit "q") values)) fields
  ]

  unfoldable pub only_fields : GoString → Problem
  only_fields k = with_code (validation (lit "only fields= is taken here, not " ++ k)) code_json_key

  -- The loop of `fieldsOf`.
  unfoldable pub check_fields_only : List GoString → Option Problem
  check_fields_only [] = none
  check_fields_only (k ∷ ks) =
      let rest = check_fields_only ks in
      if str_eq k (lit "fields") then rest else some (only_fields k)

  -- `fieldsOf`
  unfoldable pub fields_of : Values → Result (List GoString)
  fields_of values = elim (check_fields_only (keys_of values)) [
    | some p ↦ err p
    | none ↦ elim (Query.parse values) [
      | Query.err e ↦ err (validation (error_text e))
      | Query.ok p ↦ ok p.fields
    ]
  ]
