-- ===== src/Pgtx/Features/Order.antt =====
-- `featuresFrom` of lib/pgtx/pgtx.go by what is among the rows.
use mathlib.Core.Path.{ap₂}
use go_platform.Base.{
  GoString, Bool, false, ◌&&◌, ◌||◌, not, List, [], ◌∷◌, ◌≡◌, refl, ◌∙◌, ap, arith, lit, str_eq,
  str_eq_iff, leb, if◌then◌else◌, lookup, insert, lookup-insert, any, all,
}
use go_platform.Pgtx.Features.{
  Features, Proc, Scan, no_features, on_road, api_feature, scan_proc, scan_procs, daemon_road,
  whole_road, features_from,
}

-- A function of schema api of that name.
unfoldable pub is_api : GoString → Proc → Bool
is_api name p = not (str_eq p.schema (lit "daemon")) && str_eq p.name name

-- A function of schema daemon of that name that the role may execute.
unfoldable pub is_daemon : GoString → Proc → Bool
is_daemon name p = str_eq p.schema (lit "daemon") && str_eq p.name name && p.exec

lit_names :
    (str_eq (lit "authorize_local") (lit "log_request") ≡ false)
    × (str_eq (lit "authorize_local") (lit "parse_message") ≡ false)
    × (str_eq (lit "log_request") (lit "parse_message") ≡ false)
unfolding lit str_eq
lit_names = (refl, refl, refl)

or_assoc : (a b c : Bool) → ((a || b) || c) ≡ (a || (b || c))
or_assoc a b c = ground arith

or_false : (a : Bool) → (a || false) ≡ a
or_false a = ground arith

on_road-insert :
    (road : List (GoString × Bool)) (k j : GoString) (b : Bool)
    → on_road (insert k b road) j ≡ (if str_eq k j then b else on_road road j)
unfolding on_road
on_road-insert road k j b = ground (arith, lookup-insert k j b road)

on_road-scan_proc :
    (s : Scan) (p : Proc) (n : GoString)
    → on_road (scan_proc s p).road n ≡ (on_road s.road n || is_daemon n p)
unfolding scan_proc is_daemon
on_road-scan_proc s p n =
    ground
      (arith, on_road-insert s.road p.name n (on_road s.road p.name || p.exec), str_eq_iff p.name n)

on_road-scan_procs :
    (s : Scan) (ps : List Proc) (n : GoString)
    → on_road (scan_procs s ps).road n ≡ (on_road s.road n || any (is_daemon n) ps)
unfolding scan_procs
on_road-scan_procs s [] n = ground arith
on_road-scan_procs s (p ∷ ps) n =
    ground (arith, on_road-scan_procs (scan_proc s p) ps n, on_road-scan_proc s p n)

-- The four features of schema api after some more rows.
abbrev more : Features → List Proc → Features
more f ps = record f {
  authorize_local = f.authorize_local || any (is_api (lit "authorize_local")) ps;
  log_request = f.log_request || any (is_api (lit "log_request")) ps;
  log_request_err =
      f.log_request_err || any (λ p. is_api (lit "log_request") p && leb 7 p.nargs) ps;
  parse_message = f.parse_message || any (is_api (lit "parse_message")) ps;
}

scan_proc-more : (s : Scan) (p : Proc) → (scan_proc s p).features ≡ more s.features (p ∷ [])
unfolding scan_proc api_feature is_api
scan_proc-more s p = ground (
  arith,
  lit_names,
  str_eq_iff p.name (lit "authorize_local"),
  str_eq_iff p.name (lit "log_request"),
  str_eq_iff p.name (lit "parse_message"),
)

scan_procs-more : (s : Scan) (ps : List Proc) → (scan_procs s ps).features ≡ more s.features ps
unfolding scan_procs
scan_procs-more s [] = simp or_false
scan_procs-more s (p ∷ ps) =
    scan_procs-more (scan_proc s p) ps
    ∙ ap (λ (f : Features). more f ps) (scan_proc-more s p)
    ∙ simp (or_assoc, or_false)

whole_road-any :
    (procs : List Proc) (ns : List GoString)
    → whole_road (scan_procs (record { features = no_features; road = [] }) procs).road ns
      ≡ all (λ n. any (is_daemon n) procs) ns
unfolding whole_road
whole_road-any procs [] = refl
whole_road-any procs (n ∷ ns) =
    rw (on_road-scan_procs (record { features = no_features; road = [] }) procs n)
      (rw (whole_road-any procs ns) (unfold on_road lookup in refl))

-- Each feature is there exactly when a row of pg_proc shows it, in whatever order the rows come:
-- log_request with an error code exactly when some overload has seven parameters, and the daemon
-- road exactly when each of its five functions has a row that the role may execute.
pub features_from-any :
    (procs : List Proc)
    → features_from procs ≡ record {
      authorize_local = any (is_api (lit "authorize_local")) procs;
      log_request = any (is_api (lit "log_request")) procs;
      log_request_err = any (λ p. is_api (lit "log_request") p && leb 7 p.nargs) procs;
      parse_message = any (is_api (lit "parse_message")) procs;
      daemon = all (λ n. any (is_daemon n) procs) daemon_road;
    }
unfolding features_from
features_from-any procs =
    ap₂ (λ (f : Features) (b : Bool). record f { daemon = b })
      (scan_procs-more (record { features = no_features; road = [] }) procs)
      (whole_road-any procs daemon_road)
