-- ===== src/Object/Files.antt =====
-- The files of an object of entity/object/object.go.
use mathlib.Core.Path.{subst, ap₂}
use go_platform.Base.{
  GoString, ℕ, suc, Bool, true, false, List, [], ◌∷◌, Option, none, some, lit, ◌≡◌, ◌≢◌, refl, sym,
  ◌∙◌, ap, ◌⊎◌, inl, inr, arith, if◌then◌else◌, All, trim_space, str_eq_iff, ℤ, pos, negsuc,
}
use go_platform.Pgtx.Doer.{Doer, IsDoer}
use go_platform.Pgtx.Explain.{problem}
use go_platform.Rest.Row.{Result, ok, err, RowId, uuid_id_of, rows, row, not_found}
use go_platform.Rest.Handler.{HttpRequest, Sent, Answer, sent}
use go_platform.Rest.Many.{broke, read, call_scalar, json_answer}
use go_platform.Rest.Many.Listed.{OrRefused, OrRefused-map, call-rows, read-bind}
use go_platform.Object.{
  Objects, get_row, add_behind, files_add, delete_behind, file_args, file_delete,
}
use go_platform.Object.Bodies.{
  FileBody, is_unnamed, is_negative, check_file, with_file, file_before, check_files, with_raw,
  decoded_files, files_of, without_data, file_id, no_body,
}
use go_platform.Object.Behind.{IsBehind, behind_row-IsBehind}

-- A file that the database may get: it has a name that is not blank, and no negative size.
abbrev pub IsFile : FileBody → Type 0
IsFile f =
    ((n : GoString) × (f.name ≡ some n) × (trim_space n ≢ []))
    × ((f.size ≡ none) ⊎ ((n : ℕ) × (f.size ≡ some (pos n))))

abbrev pub given_files : List FileBody → List (Option FileBody)
given_files [] = []
given_files (f ∷ fs) = some f ∷ given_files fs

named :
    (n : Option GoString)
    → is_unnamed n ≡ false
    → (m : GoString) × (n ≡ some m) × (trim_space m ≢ [])
unfolding is_unnamed
named none h = cc
named (some m) h = (m, refl, λ e. ground (arith, str_eq_iff (trim_space m) []))

not_negative : (n : Option ℤ) → is_negative n ≡ false → (n ≡ none) ⊎ ((m : ℕ) × (n ≡ some (pos m)))
unfolding is_negative
not_negative none h = inl refl
not_negative (some (pos m)) h = inr (m, refl)
not_negative (some (negsuc m)) h = cc

check_file-IsFile :
    (i : ℕ) (f : Option FileBody) (g : FileBody) → check_file i f ≡ ok g → (f ≡ some g) × IsFile g
unfolding check_file
check_file-IsFile i none g h = cc
check_file-IsFile i (some f) g h =
    let same : f ≡ g = ground arith in
    (
      ap some same,
      subst IsFile same (named f.name (ground arith), not_negative f.size (ground arith)),
    )

with_file-ok :
    (f : FileBody) (rest : Result (List FileBody)) (gs : List FileBody)
    → with_file f rest ≡ ok gs
    → (tail : List FileBody) × (rest ≡ ok tail) × (f ∷ tail ≡ gs)
unfolding with_file
with_file-ok f (err p) gs h = cc
with_file-ok f (ok tail) gs h = (tail, refl, cc)

file_before-ok :
    (x : Result FileBody) (rest : Result (List FileBody)) (gs : List FileBody)
    → file_before x rest ≡ ok gs
    → (f : FileBody) × (tail : List FileBody) × (x ≡ ok f) × (rest ≡ ok tail) × (f ∷ tail ≡ gs)
unfolding file_before
file_before-ok (err p) rest gs h = cc
file_before-ok (ok f) rest gs h =
    let (tail, e, same) = with_file-ok f rest gs h in (f, tail, refl, e, same)

-- The files of a body, in the order and the number in which it gives them.
abbrev pub AreFiles : List (Option FileBody) → List FileBody → Type 0
AreFiles fs gs = (fs ≡ given_files gs) × All IsFile gs

check_files-AreFiles :
    (i : ℕ) (fs : List (Option FileBody)) (gs : List FileBody)
    → check_files i fs ≡ ok gs
    → AreFiles fs gs
unfolding check_files
check_files-AreFiles i [] gs h = let same : [] ≡ gs = cc h in subst (AreFiles []) same (refl, tt)
check_files-AreFiles i (f ∷ fs) gs h =
    let (g, tail, first, rest, same) =
      file_before-ok (check_file i f) (check_files (suc i) fs) gs h in
    let (given, good) = check_file-IsFile i f g first in
    let (givens, goods) = check_files-AreFiles (suc i) fs tail rest in
    subst (AreFiles (f ∷ fs)) same (ap₂ (λ x xs. x ∷ xs) given givens, (good, goods))

-- A body of files: an array that decodes to `gs`, none of which is missing.
abbrev pub IsBody :
    (GoString → Option (List (Option FileBody)))
    → Option GoString
    → GoString
    → List FileBody
    → Type 0
IsBody decode body raw gs =
    (body ≡ some raw) × (decode raw ≡ some (given_files gs)) × (gs ≢ []) × All IsFile gs

with_raw-ok :
    (raw : GoString) (x : Result (List FileBody)) (g : GoString × List FileBody)
    → with_raw raw x ≡ ok g
    → (raw ≡ g.0) × (x ≡ ok g.1)
unfolding with_raw
with_raw-ok raw (err p) g h = cc
with_raw-ok raw (ok fs) g h = (cc, cc)

decoded-IsBody :
    (decode : GoString → Option (List (Option FileBody))) (raw : GoString)
    (x : Option (List (Option FileBody))) (g : GoString × List FileBody)
    → decode raw ≡ x
    → decoded_files raw x ≡ ok g
    → IsBody decode (some raw) g.0 g.1
unfolding decoded_files
decoded-IsBody decode raw none g e h = cc
decoded-IsBody decode raw (some []) g e h = cc
decoded-IsBody decode raw (some (f ∷ fs)) g e h =
    let (here, files) = with_raw-ok raw (check_files 0 (f ∷ fs)) g h in
    let (given, good) = check_files-AreFiles 0 (f ∷ fs) g.1 files in
    (
      ap some here,
      ap decode (sym here) ∙ e ∙ ap some given,
      λ none_given. (let gone = given ∙ ap given_files none_given in cc gone),
      good,
    )

files_of-IsBody :
    (decode : GoString → Option (List (Option FileBody))) (body : Option GoString)
    (g : GoString × List FileBody)
    → files_of decode body ≡ ok g
    → IsBody decode body g.0 g.1
unfolding files_of
files_of-IsBody decode none g h = cc
files_of-IsBody decode (some raw) g h = decoded-IsBody decode raw (decode raw) g refl h

module _ {V W : Type 0} (o : Objects V W) (run : Doer W) (d : IsDoer run) (r : HttpRequest) where
  -- The files of the body were given to the database as they came, for an object that was visible.
  abbrev pub IsAdded : W → Answer → W → Type 0
  IsAdded w a after =
      (id : RowId) × (uuid_id_of r.id ≡ ok id)
      × (raw : GoString) × (files : List FileBody) × IsBody o.decode_files r.raw raw files
      × (out : GoString) × (w' : W) × (get_row o id w ≡ row out w')
      × (rs : List GoString) × (o.api (lit "set_object_files_json")
            ((lit "id", o.id_value id) ∷ (lit "files", o.json_value raw) ∷ []) w'
          ≡ rows rs after)
      × (a ≡ sent (json_answer (o.texts.array rs)))

  abbrev payload : GoString × List FileBody → GoString
  payload x = o.files_text (without_data x.1)

  abbrev answer_files : GoString × List FileBody → List GoString → Sent
  answer_files x items = json_answer (o.texts.array items)

  added :
      (a : Answer) (w after : W)
      → IsBehind o run d r payload 200
          (files_of o.decode_files r.raw)
          (λ x. add_behind o x.0)
          answer_files
          w
          a
          after
      → IsAdded w a after
  unfolding add_behind
  added a w after (id, known, g, given, out, w', shown, rs, ran, same) = (
    id,
    known,
    g.0,
    g.1,
    files_of-IsBody o.decode_files r.raw g given,
    out,
    w',
    shown,
    rs,
    call-rows _ ran,
    same,
  )

  -- What the deletion of a file has established: it was there.
  abbrev pub IsFileGone : GoString → W → Answer → W → Type 0
  IsFileGone name w a after =
      (id : RowId) × (uuid_id_of r.id ≡ ok id)
      × (file : GoString) × (file_id name ≡ ok file)
      × (out : GoString) × (w' : W) × (get_row o id w ≡ row out w')
      × (call_scalar false o.flag_of (o.api (lit "delete_object_file") (file_args o id file) w')
          ≡ read true after)
      × (a ≡ sent (no_body 204))

  deleted-true :
      (flag deleted : Bool) (w' after : W)
      → (if flag then read true w' else broke (problem not_found) w') ≡ read deleted after
      → (flag ≡ true) × (w' ≡ after)
  deleted-true true deleted w' after h = (refl, cc)
  deleted-true false deleted w' after h = cc

  file_gone :
      (name : GoString) (a : Answer) (w after : W)
      → IsBehind o run d r
          (λ (x : GoString). [])
          204
          (file_id name)
          (delete_behind o)
          (λ x (y : Bool). no_body 204)
          w
          a
          after
      → IsFileGone name w a after
  unfolding delete_behind
  file_gone name a w after (id, known, file, named', out, w', shown, deleted, h, same) =
      let (flag, w'', ran, h') =
        read-bind
          (call_scalar false o.flag_of (o.api (lit "delete_object_file") (file_args o id file) w'))
          _ h in
      let (there, here) = deleted-true flag deleted w'' after h' in
      (id, known, file, named', out, w', shown, ran ∙ ap₂ read there here, same)

-- A POST of files over a transaction either is refused, and the database is as it was, or the body is an
-- array of at least one file, of which none is null, each has a name that is not blank and none a negative
-- size, the object was visible, and the answer is the array of the rows that the database wrote for the
-- body as it came.
pub files_add-IsAdded :
    {V W : Type 0} (o : Objects V W) (run : Doer W) (d : IsDoer run) (r : HttpRequest) (w : W)
    → OrRefused (IsAdded o run d r w) w (files_add o run r w)
unfolding files_add
files_add-IsAdded o run d r w =
    OrRefused-map
      (IsBehind o run d r (payload o run d r) 200 (files_of o.decode_files r.raw)
        (λ x. add_behind o x.0) (answer_files o run d r) w)
      (IsAdded o run d r w) _ (λ a after. added o run d r a w after)
      (behind_row-IsBehind o run d r (payload o run d r) 200 (files_of o.decode_files r.raw)
        (λ x. add_behind o x.0) (answer_files o run d r) w)

-- The DELETE of a file over a transaction either is refused, and the database is as it was, or answers
-- 204, the object was visible, and the database said that the object had the file.
pub file_delete-IsFileGone :
    {V W : Type 0} (o : Objects V W) (run : Doer W) (d : IsDoer run) (r : HttpRequest)
    (name : GoString) (w : W)
    → OrRefused (IsFileGone o run d r name w) w (file_delete o run r name w)
unfolding file_delete
file_delete-IsFileGone o run d r name w =
    OrRefused-map
      (IsBehind o run d r (λ (x : GoString). []) 204 (file_id name) (delete_behind o)
        (λ x (y : Bool). no_body 204) w)
      (IsFileGone o run d r name w) _ (λ a after. file_gone o run d r name a w after)
      (behind_row-IsBehind o run d r (λ (x : GoString). []) 204 (file_id name) (delete_behind o)
        (λ x (y : Bool). no_body 204) w)
