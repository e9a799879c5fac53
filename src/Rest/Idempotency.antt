-- ===== src/Rest/Idempotency.antt =====
-- The Idempotency-Key of lib/rest/rest.go: `Idempotency`, `Lookup`, `Store`, `Once`, `Replay` and
-- `Capture`. The clock counts nanoseconds and never goes back; SHA-256 is a parameter.
pub mod Keys
pub mod Answers
pub mod Once
use go_platform.Base.{
  GoString, ℕ, ◌-◌, Bool, true, false, ◌&&◌, ◌||◌, not, List, [], ◌∷◌, ◌++◌, Option, none, some,
  lit, str_eq, ltb, ◌==◌, length, if◌then◌else◌, lookup, insert, Map,
}
use go_platform.Problem
use go_platform.Problem.{Problem}

-- `http.Header`: the values of each name.
abbrev pub Header : Type 0
Header = Map (List GoString)

-- `Stored`: one captured answer.
pub record Stored : Type 0 where
  pub hash : GoString
  pub status : ℕ
  pub header : Header
  pub body : GoString
  pub at : ℕ

-- `Idempotency`, without its mutex.
pub record Idempotency : Type 0 where
  pub ttl : ℕ
  pub m : Map Stored

-- `NewIdempotency`
unfoldable pub new_idempotency : ℕ → Idempotency
new_idempotency ttl = record { ttl = ttl; m = [] }

-- The calls of a handler on its `http.ResponseWriter`.
pub data Event : Type 0 where
  write_header : ℕ → Event
  write : GoString → Event

-- `Capture`
pub record Capture : Type 0 where
  pub status : ℕ
  pub body : GoString

unfoldable pub capture_event : Capture → Event → Capture
capture_event c (write_header code) = record c { status = code }
capture_event c (write b) = record {
  status = if c.status == 0 then 200 else c.status;
  body = c.body ++ b;
}

unfoldable pub capture : Capture → List Event → Capture
capture c [] = c
capture c (e ∷ es) = capture (capture_event c e) es

-- What a handler does: the database after it, the header of the answer and the calls on the writer.
pub record Ran (D : Type 0) : Type 0 where
  pub db : D
  pub header : Header
  pub events : List Event

-- What the client gets: calls on the writer, or a problem.
pub data Sent : Type 0 where
  wrote : Header → List Event → Sent
  failed : Problem → Sent

-- The key of the map: `scope+"\x00"+key`.
unfoldable pub store_key : GoString → GoString → GoString
store_key scope key = scope ++ 0 ∷ key

-- `IdemScope`
unfoldable pub idem_scope : GoString → GoString → GoString
idem_scope user path = user ++ 0 ∷ path

pub data Found : Type 0 where
  missed conflict : Found
  hit : Stored → Found

-- `time.Since(s.at) > i.ttl`
unfoldable pub is_over : ℕ → ℕ → Stored → Bool
is_over ttl now s = ltb ttl (now - s.at)

-- The loop that drops what is over.
unfoldable pub prune : ℕ → ℕ → Map Stored → Map Stored
prune ttl now [] = []
prune ttl now ((k, s) ∷ m) =
    let rest = prune ttl now m in if is_over ttl now s then rest else (k, s) ∷ rest

unfoldable pub set_all : Header → Header → Header
set_all [] w = w
set_all ((k, v) ∷ h) w = set_all h (insert k v w)

-- `(*Stored).Replay` on a writer with the header `w`.
unfoldable pub replay : Stored → Header → Sent
replay s w =
    wrote (insert (lit "Idempotency-Replayed") (lit "true" ∷ []) (set_all s.header w))
      (write_header s.status ∷ write s.body ∷ [])

-- The answer, the database and the store after one POST.
pub record Reply (D : Type 0) : Type 0 where
  pub sent : Sent
  pub db : D
  pub idem : Option Idempotency

unfoldable pub conflict_problem : Problem
conflict_problem =
    Problem.new 409 (lit "conflict") (lit "Conflict")
      (lit "Idempotency-Key reused with a different body")

-- One POST: the user, the path, the Idempotency-Key ("" for none) and the body.
pub record Post : Type 0 where
  pub user : GoString
  pub path : GoString
  pub key : GoString
  pub raw : GoString

module _ (hash_of : GoString → GoString) where
  -- `(*Idempotency).Lookup`
  unfoldable pub find : Idempotency → ℕ → GoString → GoString → GoString → Found
  find i now scope key body = elim (lookup (store_key scope key) i.m) [
    | none ↦ missed
    | some s ↦
        if is_over i.ttl now s
        then missed
        else if not (str_eq s.hash (hash_of body))
        then conflict
        else hit s
  ]

  -- `(*Idempotency).Store`
  unfoldable pub store :
      Idempotency → ℕ → GoString → GoString → GoString → Header → Capture → Idempotency
  store i now scope key body header c =
      let room = if ltb 10000 (length i.m) then prune i.ttl now i.m else i.m in
      let s : Stored = record {
        hash = hash_of body;
        status = c.status;
        header = header;
        body = c.body;
        at = now;
      } in
      record i { m = insert (store_key scope key) s room }

  -- A POST looks into the store at `now`, and its handler returns at `finished`.
  module _ {D : Type 0} (now finished : ℕ) (p : Post) (w : Header)
      (do_post : Header → D → Ran D) where
    abbrev scope : GoString
    scope = idem_scope p.user p.path

    -- `do(w)` alone.
    unfoldable pub run_only : Option Idempotency → D → Reply D
    run_only idem db =
        let ran = do_post w db in
        record { sent = wrote ran.header ran.events; db = ran.db; idem = idem }

    -- What follows a lookup.
    unfoldable pub once_found : Idempotency → Found → D → Reply D
    once_found i conflict db = record { sent = failed conflict_problem; db = db; idem = some i }
    once_found i (hit s) db = record { sent = replay s w; db = db; idem = some i }
    once_found i missed db =
        let ran = do_post w db in
        let c = capture (record { status = 0; body = [] }) ran.events in
        record {
          sent = wrote ran.header ran.events;
          db = ran.db;
          idem =
              some
                (if ltb c.status 500 then store i finished scope p.key p.raw ran.header c else i);
        }

    -- `Once`
    unfoldable pub once : Option Idempotency → D → Reply D
    once none db = run_only none db
    once (some i) db =
        if str_eq p.key []
        then run_only (some i) db
        else once_found i (find i now scope p.key p.raw) db
