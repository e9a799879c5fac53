-- ===== src/Rest/Row.antt =====
-- The parts of lib/rest/rest.go that a resource of rows is made of: ids, ETags and If-Match, bodies,
-- and the call of one row. JSON and SHA-256 are a parameter; a header that is not there is "".
use go_platform.Base.{
  GoString, ℕ, Bool, true, false, ◌&&◌, ◌||◌, not, List, [], ◌∷◌, ◌++◌, Option, none, some, lit,
  str_eq, has_prefix, ltb, zero, suc, ℤ, pos, negsuc, if◌then◌else◌, uuid_match,
}
use go_platform.Problem
use go_platform.Problem.{Problem, with_code, code_json_key}
use go_platform.Query.{atoi}
use go_platform.Pgtx.Call.{decimal}
use go_platform.Pgtx.Explain.{GoError}

pub data Result {ℓ} (A : Type ℓ) : Type ℓ where
  ok : A → Result A
  err : Problem → Result A

unfoldable pub validation : GoString → Problem
validation detail = Problem.new 400 (lit "validation") (lit "Bad request") detail

-- The id of a row in the type that its resource has: text (a UUID in a path), or a number.
pub data RowId : Type 0 where
  uuid : GoString → RowId
  number : ℤ → RowId

-- `IDOf`
unfoldable pub uuid_id_of : GoString → Result RowId
uuid_id_of value =
    if uuid_match value then ok (uuid value) else err (validation (lit "id must be a UUID"))

-- `IntIDOf`
unfoldable pub int_id_of : GoString → Result RowId
int_id_of value =
    let refused = err (validation (lit "id must be a positive integer")) in
    elim (atoi value) [ none ↦ refused | some n ↦ if ltb n 1 then refused else ok (number (pos n)) ]

-- `(Resource).id`
unfoldable pub id_of : Bool → GoString → Result RowId
id_of int_id value = if int_id then int_id_of value else uuid_id_of value

-- What is read off the JSON of a row, and its digest in hex.
pub record Json : Type 0 where
  pub valid : GoString → Bool
  pub last_update : GoString → GoString
  pub udate : GoString → GoString
  pub hash_of : GoString → GoString
  pub id_text : GoString → Option GoString
  pub id_number : GoString → Option ℤ

-- `hashOf(row)[:32]`
unfoldable pub take_bytes : ℕ → GoString → GoString
take_bytes zero s = []
take_bytes (suc n) [] = []
take_bytes (suc n) (c ∷ s) = c ∷ take_bytes n s

unfoldable pub weak_tag : GoString → GoString
weak_tag s = lit "W/\"" ++ (s ++ lit "\"")

module _ (j : Json) where
  unfoldable pub stamp_of : GoString → GoString
  stamp_of row = if str_eq (j.last_update row) [] then j.udate row else j.last_update row

  -- `ETagOf`
  unfoldable pub etag_of : GoString → GoString
  etag_of row =
      if str_eq row [] || not (j.valid row)
      then []
      else if not (str_eq (stamp_of row) [])
      then weak_tag (stamp_of row)
      else weak_tag (take_bytes 32 (j.hash_of row))

  -- `LocationOf`; a number below 1 gives none.
  unfoldable pub location_of : GoString → Bool → GoString → GoString
  location_of prefix true row = elim (j.id_number row) [
    | none ↦ []
    | some n ↦ elim n [
      | pos m ↦ if ltb m 1 then [] else prefix ++ (lit "/" ++ decimal m)
      | negsuc m ↦ []
    ]
  ]
  location_of prefix false row = elim (j.id_text row) [
    | none ↦ []
    | some s ↦ if uuid_match s then prefix ++ (lit "/" ++ s) else []
  ]

-- `Precondition` of the If-Match of a request: `none` where there is no refusal.
unfoldable pub precondition : GoString → Option Problem
precondition tag =
    if str_eq tag []
    then some (
        Problem.new 428 (lit "precondition-required") (lit "Precondition required")
          (lit "PATCH needs If-Match with the ETag of the current revision"))
    else none

-- `IfMatch`
unfoldable pub if_match : Json → GoString → GoString → Option Problem
if_match j tag current = elim (precondition tag) [
  | some p ↦ some p
  | none ↦
      if not (str_eq tag (lit "*")) && not (str_eq (etag_of j current) tag)
      then some (
          Problem.new 412 (lit "precondition-failed") (lit "Precondition failed")
            (lit "the object changed since it was read"))
      else none
]

-- What `encoding/json` makes of a body: the text of its error, or the body.
pub data Decoded (B : Type 0) : Type 0 where
  bad : GoString → Decoded B
  good : B → Decoded B

unfoldable pub decode_problem : GoString → Problem
decode_problem text =
    if has_prefix text (lit "json: unknown field ")
    then with_code (validation text) code_json_key
    else validation text

-- `ReadBody` of what the first 1 MiB of the body is, `none` where it cannot be read.
unfoldable pub read_body :
    {B : Type 0} → (GoString → Decoded B) → B → Option GoString → Result (GoString × B)
read_body decode fresh none = err (validation (lit "cannot read body"))
read_body decode fresh (some []) = ok ([], fresh)
read_body decode fresh (some (c ∷ raw)) = elim (decode (c ∷ raw)) [
  | bad text ↦ err (decode_problem text)
  | good b ↦ ok (c ∷ raw, b)
]

-- A call of a function of schema api inside the transaction: what it raises, or its rows.
pub data Called (W : Type 0) : Type 0 where
  raised : GoError → W → Called W
  rows : List GoString → W → Called W

-- A handler so far: an error with the work done by then, or a row.
pub data Step (W : Type 0) : Type 0 where
  stop : GoError → W → Step W
  row : GoString → W → Step W

-- `pgtx.CallRow`; the first argument is what stands for `ErrNoRow`.
unfoldable pub call_row : {W : Type 0} → GoError → Called W → Step W
call_row no_row (raised e w) = stop e w
call_row no_row (rows [] w) = stop no_row w
call_row no_row (rows (r ∷ rs) w) = row r w

unfoldable pub not_found : Problem
not_found = Problem.new 404 (lit "not-found") (lit "Not found") []

infixl 5 ◌>>=◌
abbrev pub ◌>>=◌ : {W : Type 0} → Step W → (GoString → W → Step W) → Step W
stop e w >>= f = stop e w
row r w >>= f = f r w
