-- ===== src/Rest/Sample.antt =====
-- A transaction that keeps its work in one text, and a resource over it, for the tests.
use go_platform.Base.{
  GoString, true, false, [], ◌∷◌, Option, none, some, refl, lit, str_eq, if◌then◌else◌, Map, pos,
}
use go_platform.Problem.{Problem}
use go_platform.Pgtx.Explain.{internal_problem}
use go_platform.Pgtx.Direct.{Outcome, done, refused}
use go_platform.Pgtx.Doer.{Doer, Commits, IsDoer}
use go_platform.Rest.Row.{Json, good, Called, rows}
use go_platform.Rest.Handler.{HttpRequest}
use go_platform.Rest.Writable.{Writable, text}
use go_platform.Rest.Read.{Object}
use go_platform.Rest.Many.{Texts, Lister}

-- A transaction that commits whatever succeeds.
abbrev pub ended : {W : Type 0} → Outcome W → W → Option Problem × W
ended (done after status) w = (none, after)
ended (refused e after) w = (some (internal_problem (lit "request")), w)

abbrev pub run : Doer GoString
run req handler w = ended (handler w) w

ended-Commits : (o : Outcome GoString) (w : GoString) → Commits o w (ended o w)
ended-Commits (done after status) w = (status, refl)
ended-Commits (refused e after) w = refl

pub run-IsDoer : IsDoer run
run-IsDoer = record { commits = λ req handler w. ended-Commits (handler w) w }

abbrev pub json : Json
json = record {
  valid = λ s. true;
  last_update = λ s. s;
  udate = λ s. [];
  hash_of = λ s. s;
  id_text = λ s. none;
  id_number = λ s. none;
}

-- The work is the one row that there is, "" for none; a set writes its argument there.
abbrev pub called : GoString → Map GoString → GoString → Called GoString
called fn args w =
    if str_eq fn (lit "api.get_job")
    then rows (if str_eq w [] then [] else w ∷ []) w
    else if str_eq fn (lit "api.set_job")
    then rows (lit "new" ∷ []) (lit "new")
    else rows [] []

abbrev pub jobs : Writable GoString GoString GoString
jobs = record {
  prefix = lit "/api/v2/jobs";
  get_fn = lit "api.get_job";
  int_id = false;
  set_fn = lit "api.set_job";
  create_fn = [];
  create_omit = [];
  delete_fn = lit "api.delete_job";
  fresh = [];
  decode = λ s. good s;
  validate = λ create b. none;
  args = λ id b. (lit "code", b) ∷ [];
  is_nil = λ v. str_eq v [];
  id_value = λ id. lit "id";
  redact = λ s. s;
  defaults = λ b. b;
  new_id = λ s. text s;
  json = json;
  api = called;
}

abbrev pub job_id : GoString
job_id = lit "0b5c7a1e-3f21-4d5a-9c44-1a2b3c4d5e6f"

abbrev pub patch : HttpRequest
patch = record {
  method = lit "PATCH";
  path = lit "/api/v2/jobs/1";
  id = job_id;
  if_match = lit "W/\"old\"";
  raw = some (lit "{}");
  request_id = [];
}

abbrev pub object : Object
object = record {
  fields_of = λ s. some ((lit "id", s) ∷ (lit "code", lit "c") ∷ []);
  text_of = λ m. lit "{}";
}

-- A count is 1, and a list is the row.
abbrev pub texts : Texts
texts = record {
  array = λ rs. lit "[]";
  page = λ rs total limit offset. lit "{}";
  number_of = λ s. some (pos 1);
  object = object;
}

abbrev pub lister : Lister GoString GoString
lister = record {
  list_fn = lit "api.get_job";
  count_fn = lit "api.get_job";
  number = λ n. lit "n";
  order = λ es. lit "[]";
  api = called;
}
