-- ===== src/Entity/Listed.antt =====
-- The list of lib/entity/entity.go, `List`, over a transaction.
use go_platform.Base.{GoString, ◌≡◌, refl, inl}
use go_platform.Pgtx.Doer.{Doer, IsDoer}
use go_platform.Query.{Values, QueryError}
use go_platform.Rest.Row.{Result, ok, err}
use go_platform.Rest.Handler.{HttpRequest, Answer, failed}
use go_platform.Rest.Many.{Lister, list_page}
use go_platform.Rest.Many.Listed.{OrRefused, OrRefused-map, IsPage, list_page-IsPage}
use go_platform.Entity.{Entity, list}
use go_platform.Entity.Args.{ListArgs, list_args}
use go_platform.Entity.Keys.{IsChecked, list_args-IsChecked}

module _ {B V W : Type 0} (e : Entity B V W) (run : Doer W) (d : IsDoer run) (r : HttpRequest)
    (error_text : QueryError → GoString) (l : Lister V W) (raw_query : GoString)
    (values : Values) where
  -- A page of the rows that the checked query asks for.
  abbrev pub IsListed : W → Answer → W → Type 0
  IsListed w a after =
      (args : ListArgs) × IsChecked error_text values e.search_fields args
      × IsPage e.texts l (e.terms_value args.terms) args.params w a after

  list-checked :
      (args : Result ListArgs) (w : W)
      → list_args error_text values e.search_fields ≡ args
      → OrRefused (IsListed w) w (elim args [
        | err p ↦ (failed p, w)
        | ok a ↦ list_page e.texts l run r raw_query (e.terms_value a.terms) a.params w
      ])
  list-checked (err p) w h = inl (p, refl, refl)
  list-checked (ok args) w h =
      OrRefused-map (IsPage e.texts l (e.terms_value args.terms) args.params w) (IsListed w) _
        (λ a after x. (args, list_args-IsChecked error_text values e.search_fields args h, x))
        (list_page-IsPage e.texts l run d r raw_query (e.terms_value args.terms) args.params w)

-- A list of an entity over a transaction either is refused, and the database is as it was, or answers
-- 200 with a page. Then every name of its query is one that the list takes, q is there at most once, the
-- limit of its page is 1 to 1000, and api.count_<x> and behind it api.list_<x>, with this limit and the
-- offset and order of the query, were called with one search, which is made of the filters and of q.
pub list-IsListed :
    {B V W : Type 0} (e : Entity B V W) (run : Doer W) (d : IsDoer run) (r : HttpRequest)
    (error_text : QueryError → GoString) (l : Lister V W) (raw_query : GoString) (values : Values)
    (w : W)
    → OrRefused
        (IsListed e run d r error_text l raw_query values w)
        w
        (list e run r error_text l raw_query values w)
unfolding list
list-IsListed e run d r error_text l raw_query values w =
    list-checked e run d r error_text l raw_query values
      (list_args error_text values e.search_fields) w refl
