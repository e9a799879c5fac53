-- ===== src/Object/Search.antt =====
-- entity/object/object.go: `search`, over the query of the request.
use go_platform.Base.{
  GoString, not, List, [], ◌∷◌, lit, str_eq, trim_space, split_at, if◌then◌else◌, Map,
}
use go_platform.Pgtx.Doer.{Doer}
use go_platform.Query.{Values}
use go_platform.Rest.Row.{Result, ok, err, validation}
use go_platform.Rest.Handler.{HttpRequest, Answer}
use go_platform.Rest.Many.{call_rows}
use go_platform.Entity.{is_action}
use go_platform.Entity.Args.{values_of, first_of_values}
use go_platform.Object.{Objects}

unfoldable pub with_code : GoString → Result (List GoString) → Result (List GoString)
with_code e (err p) = err p
with_code e (ok es) = ok (e ∷ es)

-- The loop over the parts of `entities`: blank ones are left out, and each other one is a code.
unfoldable pub entities_of : List GoString → Result (List GoString)
unfolding with_code
entities_of [] = ok []
entities_of (part ∷ parts) =
    let e = trim_space part in
    let rest = entities_of parts in
    if str_eq e []
    then rest
    else if not (is_action e)
    then err (validation (lit "entities must be a comma-separated list of entity codes"))
    else with_code e rest

-- `q.Get(name)`
unfoldable pub query_value : Values → GoString → GoString
query_value q name = first_of_values (values_of name q)

module _ {V W : Type 0} (o : Objects V W) (codes_text : List GoString → GoString) where
  -- The JSON of the codes, nil for none.
  unfoldable pub codes_value : List GoString → V
  codes_value [] = o.null_value
  codes_value (e ∷ es) = o.json_value (codes_text (e ∷ es))

  -- A locale that is not given is left out.
  unfoldable pub locale_args : GoString → Map V
  locale_args l = if str_eq l [] then [] else (lit "localecode", o.text_value l) ∷ []

  unfoldable pub search_args_of : GoString → Result (List GoString) → GoString → Result (Map V)
  search_args_of term (err p) locale = err p
  search_args_of term (ok es) locale =
      ok ((lit "text", o.text_value term) ∷ (lit "entities", codes_value es) ∷ locale_args locale)

  unfoldable pub search_args : Values → Result (Map V)
  search_args q =
      let term = trim_space (query_value q (lit "q")) in
      if str_eq term []
      then err (validation (lit "q is required"))
      else search_args_of term (entities_of (split_at b',' (query_value q (lit "entities"))))
          (query_value q (lit "locale"))

  -- `search`
  unfoldable pub search : Doer W → HttpRequest → Values → W → Answer × W
  search run r q = call_rows o.texts (o.api (lit "search")) run r (search_args q)
