-- ===== src/Rest/Read.antt =====
-- The readers of lib/rest/rest.go: `Project`, and one row with its ETag and If-None-Match, as
-- `rowHandler` and `Get` answer it. The JSON object of a row and its text are parameters.
pub mod Shown
use go_platform.Base.{
  GoString, ℕ, Bool, true, false, ◌&&◌, not, List, [], ◌∷◌, Option, none, some, lit, str_eq, lookup,
  insert, Map, ◌==◌, if◌then◌else◌,
}
use go_platform.Problem.{Problem}
use go_platform.Pgtx.Doer.{Doer}
use go_platform.Rest.Row.{Result, ok, err, RowId, id_of, Json, etag_of, Step}
use go_platform.Rest.Handler.{HttpRequest, Sent, Answer, failed, sent, transact}
use go_platform.Rest.Writable.{Writable, get_row}

-- The fields of a JSON object, `none` where the text is no object, and the text of some fields.
pub record Object : Type 0 where
  pub fields_of : GoString → Option (Map GoString)
  pub text_of : Map GoString → GoString

-- The loop of `Project`.
unfoldable pub pick : List GoString → Map GoString → Map GoString → Map GoString
pick [] m out = out
pick (f ∷ fs) m out = elim (lookup f m) [
  | none ↦ pick fs m out
  | some v ↦ pick fs m (insert f v out)
]

-- `Project`
unfoldable pub project : Object → List GoString → GoString → GoString
project o [] row = row
project o (f ∷ fs) row = elim (o.fields_of row) [
  | none ↦ row
  | some m ↦ o.text_of (pick (f ∷ fs) m [])
]

module _ (j : Json) (o : Object) (none_match : GoString) (cut : List GoString) where
  -- `req.Status` as the closure leaves it.
  unfoldable pub status_of_row : GoString → ℕ
  status_of_row row =
      if not (str_eq (etag_of j row) []) && str_eq none_match (etag_of j row) then 304 else 200

  -- The answer behind the transaction: the tag of the whole row, and its cut.
  unfoldable pub shown : GoString → Sent
  shown row = record {
    status = status_of_row row;
    etag = etag_of j row;
    location = [];
    body = if status_of_row row == 304 then [] else project o cut row;
  }

module _ {A W : Type 0} (j : Json) (o : Object) (run : Doer W) (r : HttpRequest)
    (none_match : GoString) where
  unfoldable pub read_with : (A → W → Step W) → Result A → Result (List GoString) → W → Answer × W
  read_with read (err p) fields w = (failed p, w)
  read_with read (ok a) (err p) w = (failed p, w)
  read_with read (ok a) (ok cut) w =
      transact run r [] (status_of_row j o none_match cut) (read a) (shown j o none_match cut) w

-- `rowHandler`: what to read and the cut, decided from the request, and the read.
unfoldable pub row_handler :
    {A W : Type 0}
    → Json
    → Object
    → Doer W
    → (HttpRequest → Result A)
    → (A → W → Step W)
    → (HttpRequest → Result (List GoString))
    → GoString
    → HttpRequest
    → W
    → Answer × W
row_handler j o run args read fields none_match r =
    read_with j o run r none_match read (args r) (fields r)

-- `Get`: the whole row of an id.
unfoldable pub get :
    {B V W : Type 0} → Writable B V W → Object → Doer W → GoString → HttpRequest → W → Answer × W
get wr o run none_match r =
    read_with wr.json o run r none_match (get_row wr) (id_of wr.int_id r.id) (ok [])
