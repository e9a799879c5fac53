-- ===== src/Pgtx/Tests.antt =====
-- The request road at concrete databases, calls and refusals, and the theorems at them.
use go_platform.Base.{
  GoString, ℕ, Bool, true, false, ◌&&◌, List, [], ◌∷◌, none, some, ◌≡◌, refl, lit, str_eq,
  cut_prefix, has_prefix, trim_prefix, leb, lookup, keys_of, sort_strings, insert_sorted, str_le,
  is_lower, is_digit, Map, IsDistinct, if◌then◌else◌,
}
use go_platform.Query.{is_ident, ident_start, ident_byte}
use go_platform.Pgtx.Features.{Proc, Features}
use go_platform.Pgtx.Call.{
  Arg, value, typed, ok, sql_types, is_sql_type, decimal_from, decimal, part_of, join,
  function_name, check_keys, sql_text, bind_arg, find_arg, bind_args, call_sql,
}
use go_platform.Pgtx.Call.Text.{IsSql, call_sql-IsSql}
use go_platform.Pgtx.Explain.{GoError, pg, other, row, no_row, Runner, explain}
use go_platform.Pgtx.Explain.Laws.{error_status, explain-status}
use go_platform.Pgtx.Explain.Cache.{IsCache}
use go_platform.Pgtx.Direct.{Request, Db, Outcome, refused, answered, Env, do_direct}
use go_platform.Pgtx.Direct.Atomic.{After, do_direct-After}

calls : Unit {0}
unfolding lit str_eq cut_prefix has_prefix trim_prefix lookup keys_of sort_strings insert_sorted
    str_le is_lower is_digit is_ident ident_start ident_byte sql_types is_sql_type decimal_from
    decimal part_of join function_name check_keys sql_text bind_arg find_arg bind_args call_sql
calls = tt

abbrev procs : List Proc
procs =
    record { schema = lit "api"; name = lit "log_request"; nargs = 7; exec = true }
    ∷ record { schema = lit "daemon"; name = lit "begin"; nargs = 4; exec = true }
    ∷ []

abbrev args : Map (Arg ℕ)
args = (lit "id", typed 7 (lit "uuid")) ∷ (lit "code", value 3) ∷ []

abbrev args_swapped : Map (Arg ℕ)
args_swapped = (lit "code", value 3) ∷ (lit "id", typed 7 (lit "uuid")) ∷ []

abbrev set_text : GoString
set_text = lit "SELECT to_json(t) FROM api.set_job(pcode => $1, pid => $2::uuid) t"

set_job : call_sql (lit "api.set_job") args ≡ ok (set_text, 3 ∷ 7 ∷ [])
unfolding calls
set_job = refl

call_sql-IsSql_example : IsSql set_text
call_sql-IsSql_example = call_sql-IsSql (lit "api.set_job") args set_text (3 ∷ 7 ∷ []) set_job

abbrev is_three : ℕ → Bool
is_three n = leb 3 n && leb n 3

args-IsDistinct : IsDistinct (keys_of args)
unfolding calls
args-IsDistinct = ((λ e. absurd (cc e), tt), (tt, tt))

-- A catalogue of one message.
abbrev runner : Runner
runner = record {
  titles = [];
  has_pool = true;
  daemon = true;
  parses = false;
  catalogue =
      λ code. if str_eq code (lit "ERR-403-012") then row (some (lit "Forbidden")) else no_row;
  parse_in_db = λ m. none;
}

abbrev raised_403 : GoError
raised_403 = pg (lit "P0001") (lit "ERR-403-012: Access denied.")

explain-status_example :
    (explain runner [] (some (lit "GET")) raised_403).status
    ≡ error_status (some (lit "GET")) raised_403
explain-status_example = explain-status runner [] (some (lit "GET")) raised_403

other_state : str_eq (lit "57014") (lit "P0001") ≡ false
unfolding calls
other_state = refl

no_constraint : has_prefix (lit "57014") (lit "23") ≡ false
unfolding calls
no_constraint = refl

no_data : has_prefix (lit "57014") (lit "22") ≡ false
unfolding calls
no_data = refl

nothing_looked : IsCache runner []
unfolding calls
nothing_looked = record { remembers = λ code t h. absurd (cc h) }

abbrev features : Features
features = record {
  authorize_local = true;
  log_request = true;
  log_request_err = true;
  parse_message = false;
  daemon = false;
}

-- Every statement succeeds.
abbrev fine : Env
fine = record {
  begin_ok = true;
  authorize = answered true none;
  fresh_ok = true;
  savepoint_ok = true;
  rollback_ok = true;
  log_ok = true;
  log_id = 5;
  log_error = other;
  commit_ok = true;
  commit_error = other;
}

abbrev post : Request
post = record {
  method = lit "POST";
  path = lit "/api/v2/jobs";
  payload = lit "{}";
  request_id = [];
}

abbrev empty_db : Db ℕ
empty_db = record { work = 0; journal = [] }

-- A handler that has written and then meets an error of the database.
abbrev failing : ℕ → Outcome ℕ
failing n = refused raised_403 9

do_direct-After_example :
    After features runner [] fine empty_db
      (some post)
      failing
      (do_direct features runner [] fine empty_db (some post) failing).answer
      (do_direct features runner [] fine empty_db (some post) failing).db
do_direct-After_example = do_direct-After features runner [] fine empty_db (some post) failing
