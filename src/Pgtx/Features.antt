-- ===== src/Pgtx/Features.antt =====
-- `featuresFrom` of lib/pgtx/pgtx.go: which functions of the request road the database has, read
-- off the rows of pg_proc.
pub mod Order
use go_platform.Base.{
  GoString, ℕ, Bool, true, false, ◌&&◌, ◌||◌, List, [], ◌∷◌, Option, none, some, lit, str_eq, leb,
  if◌then◌else◌, lookup, insert,
}

pub record Features : Type 0 where
  pub authorize_local : Bool
  pub log_request : Bool
  pub log_request_err : Bool
  pub parse_message : Bool
  pub daemon : Bool

pub record Proc : Type 0 where
  pub schema : GoString
  pub name : GoString
  pub nargs : ℕ
  pub exec : Bool

-- The variables of the loop: the features so far, and the map `road`.
pub record Scan : Type 0 where
  pub features : Features
  pub road : List (GoString × Bool)

abbrev pub no_features : Features
no_features = record {
  authorize_local = false;
  log_request = false;
  log_request_err = false;
  parse_message = false;
  daemon = false;
}

-- `road[name]`, false on a missing key.
unfoldable pub on_road : List (GoString × Bool) → GoString → Bool
on_road road name = elim (lookup name road) [ none ↦ false | some b ↦ b ]

unfoldable pub api_feature : Features → Proc → Features
api_feature f p =
    if str_eq p.name (lit "authorize_local")
    then record f { authorize_local = true }
    else if str_eq p.name (lit "log_request")
    then record f { log_request = true; log_request_err = f.log_request_err || leb 7 p.nargs }
    else if str_eq p.name (lit "parse_message")
    then record f { parse_message = true }
    else f

unfoldable pub scan_proc : Scan → Proc → Scan
scan_proc s p =
    if str_eq p.schema (lit "daemon")
    then record s { road = insert p.name (on_road s.road p.name || p.exec) s.road }
    else record s { features = api_feature s.features p }

unfoldable pub scan_procs : Scan → List Proc → Scan
scan_procs s [] = s
scan_procs s (p ∷ ps) = scan_procs (scan_proc s p) ps

unfoldable pub daemon_road : List GoString
daemon_road = lit "begin" ∷ lit "call" ∷ lit "end" ∷ lit "error" ∷ lit "routes" ∷ []

-- The loop over `daemonRoad`.
unfoldable pub whole_road : List (GoString × Bool) → List GoString → Bool
whole_road road [] = true
whole_road road (n ∷ ns) = on_road road n && whole_road road ns

unfoldable pub features_from : List Proc → Features
features_from procs =
    let s = scan_procs (record { features = no_features; road = [] }) procs in
    record (s.features) { daemon = whole_road s.road daemon_road }
