-- ===== src/Entity/Keys.antt =====
-- The queries that the lists of lib/entity/entity.go take: `KnownKeys`, `listArgs` and `fieldsOf`.
use go_platform.Base.{
  GoString, ◌≤◌, true, List, [], ◌∷◌, Option, none, some, ◌≡◌, refl, inl, inr, arith, lit, ltb,
  length, all, keys_of, delete, Bool-cases, if◌then◌else◌,
}
use go_platform.Problem.{Problem}
use go_platform.Query
use go_platform.Query.{Params, Values, QueryError}
use go_platform.Query.Sound.{parse-IsAccepted}
use go_platform.Search.{search_of}
use go_platform.Rest.Row.{ok, err, validation}
use go_platform.Entity.Args.{
  is_known, known_keys, plain_of, values_of, first_of_values, ListArgs, parsed_args, list_args,
}

known_keys-none :
    (plain ks : List GoString) → known_keys plain ks ≡ none → all (is_known plain) ks ≡ true
unfolding known_keys
known_keys-none plain [] h = refl
known_keys-none plain (k ∷ ks) h = ground (arith, known_keys-none plain ks)

module _ (error_text : QueryError → GoString) where
  parsed_args-ok :
      (values : Values) (term : GoString) (fields : List GoString) (a : ListArgs)
      (parsed : Query.Result Params)
      → Query.parse (delete (lit "q") values) ≡ parsed
      → elim parsed [
        | Query.err e ↦ err (validation (error_text e))
        | Query.ok p ↦ ok (record { params = p; terms = search_of p term fields })
      ]
        ≡ ok a
      → (Query.parse (delete (lit "q") values) ≡ Query.ok a.params)
        × (a.terms ≡ search_of a.params term fields)
  parsed_args-ok values term fields a (Query.err e) read h = cc
  parsed_args-ok values term fields a (Query.ok p) read h = (ground arith, ground arith)

  -- What a list has checked of its query.
  abbrev pub IsChecked : Values → List GoString → ListArgs → Type 0
  IsChecked values fields a =
      (all (is_known (plain_of fields)) (keys_of values) ≡ true)
      × (length (values_of (lit "q") values) ≤ 1)
      × (Query.parse (delete (lit "q") values) ≡ Query.ok a.params)
      × (1 ≤ a.params.limit)
      × (a.params.limit ≤ 1000)
      × (a.terms ≡ search_of a.params (first_of_values (values_of (lit "q") values)) fields)

  checked :
      (values : Values) (fields : List GoString) (a : ListArgs) (unknown : Option Problem)
      → known_keys (plain_of fields) (keys_of values) ≡ unknown
      → elim unknown [
        | some p ↦ err p
        | none ↦
            if ltb 1 (length (values_of (lit "q") values))
            then err (validation (lit "q is given more than once"))
            else parsed_args error_text values (first_of_values (values_of (lit "q") values)) fields
      ]
        ≡ ok a
      → IsChecked values fields a
  unfolding parsed_args
  checked values fields a (some p) known h = cc
  checked values fields a none known h =
      elim (Bool-cases (ltb 1 (length (values_of (lit "q") values)))) [
        | inl more ↦ absurd (ground arith)
        | inr once ↦
            let (parsed, terms) =
              parsed_args-ok values (first_of_values (values_of (lit "q") values)) fields a
                (Query.parse (delete (lit "q") values)) refl (rw once at h) in
            let accepted = parse-IsAccepted (delete (lit "q") values) a.params parsed in
            (
              known_keys-none (plain_of fields) (keys_of values) known,
              ground arith,
              parsed,
              accepted.limit_min,
              accepted.limit_max,
              terms,
            )
      ]

-- A list of an entity is answered only for a query whose every name is filter[…], page[…], sort, fields
-- or, where the entity has fields to search, q; which has q at most once; and which lib/query accepts
-- without q, with a page of 1 to 1000 rows. Its search is that of the filters and of q.
pub list_args-IsChecked :
    (error_text : QueryError → GoString) (values : Values) (fields : List GoString) (a : ListArgs)
    → list_args error_text values fields ≡ ok a
    → IsChecked error_text values fields a
unfolding list_args
list_args-IsChecked error_text values fields a h =
    checked error_text values fields a (known_keys (plain_of fields) (keys_of values)) refl h
