-- ===== src/Object/Tests.antt =====
-- The generic object over the transaction of Rest/Sample, and the theorems at it.
use go_platform.Base.{GoString, true, [], ◌∷◌, some, lit, pos}
use go_platform.Rest.Sample.{run, run-IsDoer, json, called, patch, texts, lister}
use go_platform.Rest.Many.Listed.{OrRefused}
use go_platform.Entity.{is_action}
use go_platform.Object.Bodies.{FileBody}
use go_platform.Object.{Objects, run_on, files_add}
use go_platform.Object.Behind.{IsRun, run_on-IsRun}
use go_platform.Object.Files.{IsAdded, files_add-IsAdded}

abbrev note : FileBody
note = record {
  name = some (lit "note.txt");
  size = some (pos 3);
  file_data = some (lit "YWJj");
  others = [];
}

abbrev objects : Objects GoString GoString
objects = record {
  get_fn = lit "api.get_job";
  id_value = λ id. lit "id";
  text_value = λ s. s;
  json_value = λ s. s;
  null_value = [];
  json = json;
  texts = texts;
  flag_of = λ s. some true;
  is_object = λ s. true;
  decode_files = λ s. some (some note ∷ []);
  files_text = λ fs. lit "{}";
  terms_value = λ cs. lit "search";
  files = lister;
  api = called;
}

run_on-IsRun_example :
    OrRefused
      (IsRun objects run run-IsDoer patch
        (lit "action")
        is_action
        (lit "execute_object_action")
        (lit "code")
        (lit "enable")
        (lit "old"))
      (lit "old")
      (run_on objects run patch
        (lit "action")
        is_action
        (lit "execute_object_action")
        (lit "code")
        (lit "enable")
        (lit "old"))
run_on-IsRun_example =
    run_on-IsRun objects run run-IsDoer patch (lit "action") is_action (lit "execute_object_action")
      (lit "code") (lit "enable") (lit "old")

files_add-IsAdded_example :
    OrRefused
      (IsAdded objects run run-IsDoer patch (lit "old"))
      (lit "old")
      (files_add objects run patch (lit "old"))
files_add-IsAdded_example = files_add-IsAdded objects run run-IsDoer patch (lit "old")
