-- ===== src/Rest/Read/Shown.antt =====
-- The reader of one row of lib/rest/rest.go, `rowHandler`, and the loop of `Project`.
use go_platform.Base.{
  GoString, Bool, true, false, ◌&&◌, ◌||◌, not, List, [], ◌∷◌, Option, none, some, ◌≡◌, ◌≢◌, refl,
  sym, ◌∙◌, ap, ◌⊎◌, inl, inr, arith, str_eq, str_eq_iff, str_eq_sound, lookup, insert,
  lookup-insert, Map, any, ◌==◌, if◌then◌else◌, Bool-cases, is_some,
}
use go_platform.Problem.{Problem}
use go_platform.Pgtx.Doer.{Doer, IsDoer}
use go_platform.Rest.Row.{Result, ok, err, Json, etag_of, Step, row}
use go_platform.Rest.Handler.{HttpRequest, Sent, Answer, failed, sent, Done, transact-Done}
use go_platform.Rest.Read.{Object, pick, project, status_of_row, shown, read_with, row_handler}

lookup-same : (f k : GoString) (m : Map GoString) → str_eq f k ≡ true → lookup k m ≡ lookup f m
lookup-same f k m e = ap (λ x. lookup x m) (sym (str_eq_sound f k e))

-- One turn of the loop of `Project`, where the rest of the loop picks what was asked for.
pick-turn :
    (f k : GoString) (later : Bool) (m out : Map GoString) (found : Option GoString)
    (rest : Map GoString → Map GoString)
    → lookup f m ≡ found
    → ((w : Map GoString)
        → lookup k (rest w) ≡ (if later && is_some (lookup k m) then lookup k m else lookup k w))
    → lookup k (elim found [ none ↦ rest out | some v ↦ rest (insert f v out) ])
      ≡ (if (str_eq f k || later) && is_some (lookup k m) then lookup k m else lookup k out)
pick-turn f k later m out none rest h step = elim (Bool-cases (str_eq f k)) [
  | inl same ↦ ground (arith, step out, lookup-same f k m same)
  | inr differs ↦ ground (arith, step out)
]
pick-turn f k later m out (some v) rest h step = elim (Bool-cases (str_eq f k)) [
  | inl same ↦
      ground (arith, step (insert f v out), lookup-insert f k v out, lookup-same f k m same)
  | inr differs ↦ ground (arith, step (insert f v out), lookup-insert f k v out)
]

lookup-pick :
    (fs : List GoString) (m out : Map GoString) (k : GoString)
    → lookup k (pick fs m out)
      ≡ (if any (λ f. str_eq f k) fs && is_some (lookup k m) then lookup k m else lookup k out)
unfolding pick
lookup-pick [] m out k = refl
lookup-pick (f ∷ fs) m out k =
    pick-turn f k (any (λ f. str_eq f k) fs) m out (lookup f m) (λ w. pick fs m w) refl
      (λ w. lookup-pick fs m w k)

-- The cut of an object has a field exactly when it was asked for and the object has it, with the
-- value that it has there.
pub lookup-pick_fields :
    (fs : List GoString) (m : Map GoString) (k : GoString)
    → lookup k (pick fs m []) ≡ (if any (λ f. str_eq f k) fs then lookup k m else none)
unfolding lookup
lookup-pick_fields fs m k = ground (arith, lookup-pick fs m [] k)

-- The answer for a row with the tag `tag`; `fresh` says that the client has that version.
abbrev answer_for : Bool → GoString → GoString → Sent
answer_for fresh tag body = record {
  status = if fresh then 304 else 200;
  etag = tag;
  location = [];
  body = if (if fresh then 304 else 200) == 304 then [] else body;
}

-- The client has the version of the row: a 304 with no body. It has not, or named none: the row.
abbrev pub Versioned : GoString → GoString → GoString → Sent → Type 0
Versioned none_match tag body s =
    ((s ≡ record { status = 304; etag = tag; location = []; body = [] })
      × (none_match ≡ tag)
      × (none_match ≢ []))
    ⊎ ((s ≡ record { status = 200; etag = tag; location = []; body = body })
        × ((none_match ≢ tag) ⊎ (none_match ≡ [])))

other_version :
    (tag none_match : GoString)
    → (not (str_eq tag []) && str_eq none_match tag) ≡ false
    → (none_match ≢ tag) ⊎ (none_match ≡ [])
other_version tag none_match h = elim (Bool-cases (str_eq none_match tag)) [
  | inl same ↦ inr (str_eq_sound none_match tag same ∙ str_eq_sound tag [] (ground arith))
  | inr differs ↦ inl (λ e. absurd (ground (arith, str_eq_iff none_match tag)))
]

answer_for-Versioned :
    (fresh : Bool) (tag none_match body : GoString)
    → (not (str_eq tag []) && str_eq none_match tag) ≡ fresh
    → Versioned none_match tag body (answer_for fresh tag body)
answer_for-Versioned true tag none_match body h = inl (
  refl,
  ground (arith, str_eq_iff none_match tag),
  λ e. absurd (ground (arith, str_eq_iff none_match tag, str_eq_iff tag [])),
)
answer_for-Versioned false tag none_match body h = inr (refl, other_version tag none_match h)

module _ {A W : Type 0} (j : Json) (o : Object) (run : Doer W) (r : HttpRequest)
    (none_match : GoString) where
  -- The answer of a reader: a problem, or the row that was read, by its version.
  abbrev pub Shown : (A → W → Step W) → Result A → Result (List GoString) → W → Answer × W → Type 0
  Shown read a cut w (answer, after) =
      ((p : Problem) × (answer ≡ failed p) × (after ≡ w))
      ⊎ ((x : A) × (fields : List GoString) × (out : GoString) × (s : Sent) × (a ≡ ok x)
          × (cut ≡ ok fields)
          × (read x w ≡ row out after)
          × (answer ≡ sent s)
          × Versioned none_match (etag_of j out) (project o fields out) s)

  Shown-of_Done :
      (read : A → W → Step W) (x : A) (fields : List GoString) (w : W) (res : Answer × W)
      → Done run r (read x) (shown j o none_match fields) w res
      → Shown read (ok x) (ok fields) w res
  unfolding shown status_of_row
  Shown-of_Done read x fields w (answer, after) (inl h) = inl h
  Shown-of_Done read x fields w (answer, after) (inr (out, h, same)) = inr (
    x,
    fields,
    out,
    shown j o none_match fields out,
    refl,
    refl,
    h,
    same,
    answer_for-Versioned _ (etag_of j out) none_match (project o fields out) refl,
  )

  read_with-Shown :
      (d : IsDoer run) (read : A → W → Step W) (a : Result A) (cut : Result (List GoString)) (w : W)
      → Shown read a cut w (read_with j o run r none_match read a cut w)
  unfolding read_with
  read_with-Shown d read (err p) cut w = inl (p, refl, refl)
  read_with-Shown d read (ok x) (err p) w = inl (p, refl, refl)
  read_with-Shown d read (ok x) (ok fields) w =
      Shown-of_Done read x fields w _ (transact-Done run r d [] _ (read x) _ w)

-- A reader of one row over a transaction either is refused, and the database is as it was, or answers
-- with the row that was read and the tag of the whole of it: 304 with no body exactly when the
-- client's If-None-Match is that tag, and 200 with the fields that were asked for otherwise.
pub row_handler-Shown :
    {A W : Type 0} (j : Json) (o : Object) (run : Doer W) (d : IsDoer run)
    (args : HttpRequest → Result A) (read : A → W → Step W)
    (fields : HttpRequest → Result (List GoString)) (none_match : GoString) (r : HttpRequest)
    (w : W)
    → Shown j o run r none_match read
        (args r)
        (fields r)
        w
        (row_handler j o run args read fields none_match r w)
unfolding row_handler
row_handler-Shown j o run d args read fields none_match r w =
    read_with-Shown j o run r none_match d read (args r) (fields r) w
