-- ===== src/Registry/Tests.antt =====
-- A registry over the transaction of Rest/Sample, and the theorem at it.
use go_platform.Base.{GoString, [], ◌∷◌, none, some, ◌≡◌, refl, lit, str_eq, ℤ, pos}
use go_platform.Rest.Row.{rows, good, read_body}
use go_platform.Rest.Handler.{sent}
use go_platform.Rest.Sample.{run, run-IsDoer, patch, texts}
use go_platform.Rest.Many.{json_answer, transact_reading, reading_outcome, call_scalar}
use go_platform.Rest.Many.Listed.{OrRefused}
use go_platform.Registry.{
  Registry, number, ValueBody, and_then, check_write, is_blank, is_bad_id, is_given, variant_of,
  typed, typed_value_of, typed_as, integer_of,
}
use go_platform.Registry.Handlers.{
  write, checked, write_body, accepted, map_ok, write_accepted, write_step, write_args,
}
use go_platform.Registry.Written.{IsWritten, write-IsWritten}

registry : Unit {0}
unfolding lit str_eq and_then check_write is_blank is_bad_id is_given variant_of typed
    typed_value_of typed_as integer_of write checked write_body accepted map_ok write_accepted
    write_step write_args read_body transact_reading reading_outcome call_scalar json_answer
registry = tt

abbrev count_body : ValueBody
count_body = record {
  id = none;
  key = some (lit "CURRENT_CONFIG");
  subkey = none;
  value_name = lit "count";
  type_name = lit "integer";
  value = lit "7";
}

-- The numbers are integers, and a write answers the identifier of the value.
abbrev values : Registry ℤ GoString GoString
values = record {
  id_value = λ id. lit "id";
  text_value = λ s. lit "text";
  code_value = λ n. lit "code";
  typed_value = λ v sql. sql;
  parse_value = λ s. some (number (pos 7));
  as_int = λ n. some n;
  float_text = λ n. lit "7";
  read_value = λ s. good count_body;
  no_value = count_body;
  scalar_of = λ s. some s;
  written_text = λ id name type. id;
  texts = texts;
  api = λ fn args w. rows (lit "id" ∷ []) (lit "written");
}

written_count : write values run patch (lit "old") ≡ (sent (json_answer (lit "id")), lit "written")
unfolding registry
written_count = refl

write-IsWritten_example :
    OrRefused
      (IsWritten values run run-IsDoer patch (lit "old"))
      (lit "old")
      (write values run patch (lit "old"))
write-IsWritten_example = write-IsWritten values run run-IsDoer patch (lit "old")
