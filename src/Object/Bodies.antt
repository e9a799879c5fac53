-- ===== src/Object/Bodies.antt =====
-- entity/object/object.go: what its handlers read of a request, `paramsOf` and `filesOf`.
use go_platform.Base.{
  GoString, ℕ, suc, Bool, true, false, List, [], ◌∷◌, ◌++◌, Option, none, some, lit, str_eq,
  trim_space, if◌then◌else◌, ℤ, pos, negsuc, uuid_match,
}
use go_platform.Problem.{Problem}
use go_platform.Pgtx.Call.{decimal}
use go_platform.Rest.Row.{Result, ok, err, validation}
use go_platform.Rest.Handler.{Sent}

-- `fileBody`, as far as the package reads it; the other fields are one text.
pub record FileBody : Type 0 where
  pub name : Option GoString
  pub size : Option ℤ
  pub file_data : Option GoString
  pub others : GoString

-- `paramsOf`, of a body that could be read or not.
unfoldable pub params_of : (GoString → Bool) → Option GoString → Result GoString
params_of is_object none = err (validation (lit "cannot read the body"))
params_of is_object (some raw) =
    let text = trim_space raw in
    if str_eq text []
    then ok []
    else if is_object text
    then ok text
    else err (validation (lit "the body must be a JSON object or empty"))

-- `f.Name == nil || strings.TrimSpace(*f.Name) == ""`
unfoldable pub is_unnamed : Option GoString → Bool
is_unnamed none = true
is_unnamed (some n) = str_eq (trim_space n) []

-- `f.Size != nil && *f.Size < 0`
unfoldable pub is_negative : Option ℤ → Bool
is_negative none = false
is_negative (some (pos n)) = false
is_negative (some (negsuc n)) = true

-- The `switch` of `filesOf` for one element.
unfoldable pub check_file : ℕ → Option FileBody → Result FileBody
check_file i none = err (validation (lit "files[" ++ (decimal i ++ lit "]: not an object")))
check_file i (some f) =
    if is_unnamed f.name
    then err (validation (lit "files[" ++ (decimal i ++ lit "]: name is required")))
    else if is_negative f.size
    then err (validation (lit "files[" ++ (decimal i ++ lit "]: size must not be negative")))
    else ok f

unfoldable pub with_file : FileBody → Result (List FileBody) → Result (List FileBody)
with_file f (err p) = err p
with_file f (ok fs) = ok (f ∷ fs)

unfoldable pub file_before : Result FileBody → Result (List FileBody) → Result (List FileBody)
unfolding with_file
file_before (err p) rest = err p
file_before (ok f) rest = with_file f rest

-- The loop of `filesOf`.
unfoldable pub check_files : ℕ → List (Option FileBody) → Result (List FileBody)
check_files i [] = ok []
check_files i (f ∷ fs) = file_before (check_file i f) (check_files (suc i) fs)

unfoldable pub not_files : Problem
not_files = validation (
    lit
      "the body must be a non-empty JSON array of files {name, path, size, date, data, hash, text, type}")

unfoldable pub with_raw : GoString → Result (List FileBody) → Result (GoString × List FileBody)
with_raw raw (err p) = err p
with_raw raw (ok fs) = ok (raw, fs)

unfoldable pub decoded_files :
    GoString → Option (List (Option FileBody)) → Result (GoString × List FileBody)
decoded_files raw none = err not_files
decoded_files raw (some []) = err not_files
decoded_files raw (some (f ∷ fs)) = with_raw raw (check_files 0 (f ∷ fs))

-- `filesOf`
unfoldable pub files_of :
    (GoString → Option (List (Option FileBody)))
    → Option GoString
    → Result (GoString × List FileBody)
files_of decode none = err (validation (lit "cannot read the body"))
files_of decode (some raw) = decoded_files raw (decode raw)

-- `withoutData`, before it is marshalled.
unfoldable pub without_data : List FileBody → List FileBody
without_data [] = []
without_data (f ∷ fs) = record f { file_data = none } ∷ without_data fs

unfoldable pub file_id : GoString → Result GoString
file_id file = if uuid_match file then ok file else err (validation (lit "bad file id"))

abbrev pub no_body : ℕ → Sent
no_body status = record { status = status; etag = []; location = []; body = [] }

-- `valid` of `run`, and what its refusal says.
unfoldable pub key_of_run : (GoString → Bool) → GoString → GoString → Result GoString
key_of_run valid what key = if valid key then ok key else err (validation (lit "bad " ++ what))
