-- ===== src/Rest/Tests.antt =====
-- The parts of lib/rest over a transaction that keeps its work in one text, and the theorems at it.
use go_platform.Base.{
  arith, GoString, ℕ, suc, false, List, [], ◌∷◌, none, some, ◌≡◌, refl, lit, str_eq, lookup, insert,
  uuid_match, matches_row, is_hex, pos, Lacks,
}
use go_platform.Rest.Idempotency.{
  Header, Idempotency, write_header, write, Ran, store_key, idem_scope, missed, capture,
  capture_event, is_over, find, once, wrote, Post, new_idempotency,
}
use go_platform.Rest.Idempotency.Keys.{store_key-injective}
use go_platform.Rest.Idempotency.Once.{Call, serve}
use go_platform.Rest.Idempotency.Answers.{IsDistinct, IsRepeat, once-answers}
use go_platform.Rest.Row.{ok, uuid, id_of, uuid_id_of, good, rows}
use go_platform.Rest.Writable.{create, update}
use go_platform.Rest.Writable.Guarded.{Updated, update-Updated}
use go_platform.Rest.Writable.Created.{Created, create-Created}
use go_platform.Rest.Access.{AccessBody, Access, mask_bits6, bound, grant}
use go_platform.Rest.Access.Granted.{Granted, grant-Granted}
use go_platform.Rest.Row.{Step, row}
use go_platform.Rest.Sample.{run, run-IsDoer, called, jobs, job_id, patch}

rest : Unit {0}
unfolding lit str_eq lookup insert store_key idem_scope capture capture_event is_over find
    new_idempotency bound id_of uuid_id_of uuid_match matches_row is_hex
rest = tt

u-Lacks : Lacks 0 (lit "u1")
unfolding rest
u-Lacks = (refl, (refl, tt))

key-Lacks : Lacks 0 (lit "k1")
unfolding rest
key-Lacks = (refl, (refl, tt))

abbrev hash : GoString → GoString
hash s = s

abbrev post : Post
post = record { user = lit "u1"; path = lit "/jobs"; key = lit "k1"; raw = lit "{}" }

-- A handler that counts its runs.
abbrev counting : Header → ℕ → Ran ℕ
counting w n = record {
  db = suc n;
  header = (lit "Date", lit "today" ∷ []) ∷ [];
  events = write_header 201 ∷ write (lit "row") ∷ [];
}

abbrev empty : Idempotency
empty = record { ttl = 100; m = [] }

abbrev between : List (Call ℕ)
between =
    record {
      now = 20;
      finished = 22;
      post = record post { key = lit "k2" };
      header = [];
      handler = counting;
    }
    ∷ []

keyed : str_eq post.key [] ≡ false
unfolding rest
keyed = refl

fresh_key : find hash empty 10 (idem_scope post.user post.path) post.key post.raw ≡ missed
unfolding rest
fresh_key = refl

dated : IsDistinct (counting [] 0).header
unfolding lookup
dated = (refl, tt)

not_mark : str_eq (lit "Idempotency-Replayed") (lit "Date") ≡ false
unfolding rest
not_mark = refl

once-answers_example :
    (let first = once hash 10 11 post [] counting (some empty) 0 in
      let later = serve hash between first.idem first.db in
      let again = once hash 90 91 post [] counting later.0 later.1 in
      (first.sent ≡ wrote (counting [] 0).header (counting [] 0).events)
      × IsRepeat (counting [] 0) [] (lit "Date") again.sent
      × (again.db ≡ later.1)
      × (again.idem ≡ later.0))
once-answers_example =
    once-answers hash post 10 11 90 91 [] [] counting counting between empty 0 (lit "Date") keyed
      fresh_key (omega arith, refl) (omega arith) dated ((omega arith, omega arith), tt)
      (omega arith) not_mark

store_key-injective_example :
    (lit "u1" ≡ lit "u1") × (lit "/jobs" ≡ lit "/jobs") × (lit "k1" ≡ lit "k1")
store_key-injective_example =
    store_key-injective (lit "u1") (lit "u1") (lit "/jobs") (lit "/jobs") (lit "k1") (lit "k1")
      u-Lacks u-Lacks key-Lacks key-Lacks refl

update-Updated_example :
    Updated jobs run run-IsDoer patch (lit "old") (update jobs run patch (lit "old"))
update-Updated_example = update-Updated jobs run run-IsDoer patch (lit "old")

create-Created_example :
    Created jobs run patch (lit "{}", lit "b") [] (create jobs run patch (lit "{}", lit "b") [])
create-Created_example = create-Created jobs run run-IsDoer patch (lit "{}") (lit "b") []

job_id-known : id_of jobs.int_id patch.id ≡ ok (uuid job_id)
unfolding rest
job_id-known = refl

abbrev grant_body : AccessBody
grant_body = record { user_id = job_id; mask = some (pos 56); recursive = none; object_set = none }

abbrev object_access : Access GoString GoString
object_access = record {
  get_fn = lit "api.get_job";
  list_fn = lit "api.object_access";
  decode_fn = lit "api.decode_object_access";
  max_mask = mask_bits6;
  class_options = false;
  set = λ id b w. rows [] w;
  text_value = λ s. s;
  array = λ rs. lit "[]";
  decode = λ s. good grant_body;
  api = called;
}

grant-Granted_example :
    Granted object_access run patch (lit "old") (grant object_access run patch (lit "old"))
grant-Granted_example = grant-Granted object_access run run-IsDoer patch (lit "old")

narrow : bound grant_body 56 mask_bits6 false ≡ none
unfolding rest
narrow = refl

abbrev read_text : GoString → GoString → Step GoString
read_text a w = row w w

abbrev values : List (GoString × List GoString)
values = (lit "page[limit]", lit "10" ∷ []) ∷ []
