-- ===== src/Entity/Tests.antt =====
-- An entity over the transaction of Rest/Sample, and the theorems at it.
use go_platform.Base.{GoString, false, List, [], ◌∷◌, none, lit, str_eq, ◌≡◌, ◌↔◌, ap}
use go_platform.Rest.Row.{good}
use go_platform.Rest.Sample.{run, ended, run-IsDoer, json, called, patch, texts, lister}
use go_platform.Rest.Many.Listed.{OrRefused}
use go_platform.Entity.{Entity, text, update, row_sent, action, list}
use go_platform.Entity.Updated.{IsUpdated}
use go_platform.Entity.Answered.{IsReliable, update_iff}
use go_platform.Rest.Handler.{sent}
use go_platform.Entity.Acted.{IsActed, action-IsActed}
use go_platform.Entity.Listed.{IsListed, list-IsListed}

abbrev jobs : Entity GoString GoString GoString
jobs = record {
  get_fn = lit "api.get_job";
  set_fn = lit "api.set_job";
  update_fn = [];
  search_fields = lit "code" ∷ [];
  fresh = [];
  decode = λ s. good s;
  validate = λ create b. none;
  args = λ id b. (lit "code", b) ∷ [];
  is_nil = λ v. str_eq v [];
  id_value = λ id. lit "id";
  text_value = λ s. s;
  json_value = λ s. s;
  terms_value = λ cs. lit "search";
  json = json;
  texts = texts;
  has_null_id = λ s. false;
  is_object = λ s. false;
  api = called;
}

run-IsReliable : IsReliable run
run-IsReliable req handler w after status h = ap (λ o. ended o w) h

update_iff_example :
    (update jobs run patch (lit "old") ≡ (sent (row_sent jobs (lit "new")), lit "new"))
    ↔ IsUpdated jobs run run-IsDoer patch (lit "old") (sent (row_sent jobs (lit "new"))) (lit "new")
update_iff_example =
    update_iff jobs run run-IsDoer run-IsReliable patch (lit "old") (row_sent jobs (lit "new"))
      (lit "new")

action-IsActed_example :
    OrRefused
      (IsActed jobs run run-IsDoer patch (lit "enable") (text []) (lit "old"))
      (lit "old")
      (action jobs run patch (lit "enable") (text []) (lit "old"))
action-IsActed_example =
    action-IsActed jobs run run-IsDoer patch (lit "enable") (text []) (lit "old")

abbrev values : List (GoString × List GoString)
values = (lit "q", lit "night" ∷ []) ∷ (lit "sort", lit "code" ∷ []) ∷ []

list-IsListed_example :
    OrRefused
      (IsListed jobs run run-IsDoer patch (λ e. []) lister [] values (lit "old"))
      (lit "old")
      (list jobs run patch (λ e. []) lister [] values (lit "old"))
list-IsListed_example =
    list-IsListed jobs run run-IsDoer patch (λ e. []) lister [] values (lit "old")
