-- ===== src/Host/Serve.antt =====
-- The host of module.go: `ServeHTTP`, which stands before every route. The mux of net/http, the reading
-- of a query and the addresses of net/netip are parameters.
pub mod Guarded
pub mod Segments
pub mod Canonical
mod Tests
use go_platform.Base.{
  GoString, ℕ, Bool, true, false, ◌&&◌, ◌||◌, not, List, [], ◌∷◌, ◌++◌, Option, none, some, lit,
  str_eq, trim_prefix, split_at, lookup, ◌==◌, if◌then◌else◌, ℤ, pos, negsuc,
}
use go_platform.Problem
use go_platform.Problem.{
  Problem, unauthorized, without_credentials, code_login_failed, code_token_expired,
}
use go_platform.Jwt
use go_platform.Host.Address.{Netip, client_addr}
use go_platform.Jwt.{Claims, Keyring, Codec, JwtError, expired, verify}

-- `Session`, as `SessionOf` gives it to a route.
pub record Session : Type 0 where
  pub code : GoString
  pub token : GoString
  pub agent : GoString
  pub host : GoString

-- A request: its headers (empty where they are absent), the peer and the values of X-Forwarded-For, the
-- method, the path and the query.
pub record Incoming : Type 0 where
  pub authorization : GoString
  pub request_id : GoString
  pub user_agent : GoString
  pub remote : GoString
  pub forwarded : List GoString
  pub method : GoString
  pub path : GoString
  pub raw_query : GoString

-- The configuration of the host: the keys, the titles of the catalogue, the trusted proxies, whether
-- there is a counter in flight; the pattern that the mux has for a method and a path (empty for none), and the error of
-- `url.ParseQuery`.
pub record Host (A P : Type 0) : Type 0 where
  pub keys : Keyring
  pub codec : Codec
  pub catalogue : Option (GoString → GoString → GoString)
  pub netip : Netip A P
  pub trusted_proxies : Option (List P)
  pub counts : Bool
  pub pattern : GoString → GoString → GoString
  pub query_error : GoString → Option GoString

-- What a request comes to: a refusal, a 405 with its Allow, or a route with the session.
pub data Reply : Type 0 where
  refused : Problem → Reply
  not_allowed : (allow : GoString) → Problem → Reply
  routed : Session → Reply

-- One segment behind `path.Clean`: what is kept of those before it, the last first.
unfoldable pub keep_segment : List GoString → GoString → List GoString
keep_segment kept s =
    if str_eq s [] || str_eq s (lit ".")
    then kept
    else if str_eq s (lit "..")
    then (elim kept [ [] ↦ [] | k ∷ ks ↦ ks ])
    else s ∷ kept

unfoldable pub keep_segments : List GoString → List GoString → List GoString
keep_segments kept [] = kept
keep_segments kept (s ∷ ss) = keep_segments (keep_segment kept s) ss

-- The segments, the last first, each behind a slash.
unfoldable pub slashed : List GoString → GoString
slashed [] = []
slashed (s ∷ ss) = slashed ss ++ (b'/' ∷ s)

-- `path.Clean` of a path that begins with a slash, by what is behind it.
unfoldable pub cleaned : List GoString → GoString
cleaned [] = lit "/"
cleaned (k ∷ ks) = slashed (k ∷ ks)

unfoldable pub clean : GoString → GoString
clean rest = cleaned (keep_segments [] (split_at b'/' rest))

-- `strings.HasSuffix(s, "/")`
unfoldable pub ends_slash : GoString → Bool
ends_slash [] = false
ends_slash (c ∷ []) = c == b'/'
ends_slash (c ∷ d ∷ s) = ends_slash (d ∷ s)

-- The trailing slash of a path, which `path.Clean` drops.
unfoldable pub with_slash : Bool → GoString → GoString
with_slash had path = if had && not (ends_slash path) then path ++ lit "/" else path

-- `canonical`
unfoldable pub canonical : GoString → Bool
canonical [] = false
canonical (c ∷ rest) =
    c == b'/' && str_eq (with_slash (ends_slash (c ∷ rest)) (clean rest)) (c ∷ rest)

unfoldable pub join_comma : List GoString → GoString
join_comma [] = []
join_comma (s ∷ []) = s
join_comma (s ∷ t ∷ ss) = s ++ (lit ", " ++ join_comma (t ∷ ss))

unfoldable pub no_page : Problem
no_page = Problem.new 404 (lit "not-found") (lit "Not found") []

-- What `ServeHTTP` does beside it: it adds to the counter in flight and takes it back at its return,
-- and gives the identifier of the request back.
pub record Served : Type 0 where
  pub adds : List ℤ
  pub echoed_id : GoString
  pub reply : Reply

module _ {A P : Type 0} (h : Host A P) where
  -- One turn of the loop over the methods: HEAD is served wherever GET is.
  unfoldable pub allowed_by : GoString → GoString → List GoString
  allowed_by path m =
      if str_eq (h.pattern m path) []
      then []
      else if str_eq m (lit "GET")
      then m ∷ lit "HEAD" ∷ []
      else m ∷ []

  unfoldable pub allowed : GoString → List GoString
  allowed path =
      allowed_by path (lit "GET")
      ++ (allowed_by path (lit "POST")
          ++ (allowed_by path (lit "PATCH") ++ allowed_by path (lit "DELETE")))

  -- No route: 405 where another method has one, else 404.
  unfoldable pub unrouted : List GoString → Reply
  unrouted [] = refused no_page
  unrouted (m ∷ ms) =
      not_allowed (join_comma (m ∷ ms))
        (Problem.new 405 (lit "method-not-allowed") (lit "Method not allowed") [])

  unfoldable pub bad_query : GoString → Problem
  bad_query e = Problem.new 400 (lit "validation") (lit "Bad request") (lit "query: " ++ e)

  -- What is behind the verification of the token.
  unfoldable pub dispatch : Incoming → Session → Reply
  dispatch r s =
      if not (canonical r.path)
      then refused no_page
      else if str_eq (h.pattern r.method r.path) []
      then unrouted (allowed r.path)
      else elim (h.query_error r.raw_query) [ some e ↦ refused (bad_query e) | none ↦ routed s ]

  unfoldable pub session_of : Incoming → GoString → Claims → Session
  session_of r token c = record {
    code = c.sub;
    token = token;
    agent = r.user_agent;
    host = client_addr h.netip h.trusted_proxies r.remote r.forwarded;
  }

  -- The one answer that a token gets which is refused, but for its expiry.
  unfoldable pub token_problem : JwtError → Problem
  token_problem expired =
      unauthorized h.catalogue code_token_expired (lit "The access token has expired.")
  token_problem other =
      unauthorized h.catalogue code_login_failed (lit "The access token could not be verified.")

  unfoldable pub no_bearer : Problem
  no_bearer =
      without_credentials (unauthorized h.catalogue code_login_failed (lit "Bearer token required"))

  unfoldable pub after_verify : Incoming → GoString → Jwt.Result → Reply
  after_verify r token (Jwt.err e) = refused (token_problem e)
  after_verify r token (Jwt.ok c) = dispatch r (session_of r token c)

  -- The answer of `ServeHTTP` at the time `now`, up to the route.
  unfoldable pub serve : ℕ → Incoming → Reply
  serve now r =
      let token = trim_prefix r.authorization (lit "Bearer ") in
      if str_eq token [] || str_eq token r.authorization
      then refused no_bearer
      else after_verify r token (verify h.keys h.codec now token)

  -- `ServeHTTP`
  unfoldable pub serve_http : ℕ → Incoming → Served
  serve_http now r = record {
    adds = if h.counts then pos 1 ∷ negsuc 0 ∷ [] else [];
    echoed_id = r.request_id;
    reply = serve now r;
  }
