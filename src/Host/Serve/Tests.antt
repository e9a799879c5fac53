-- ===== src/Host/Serve/Tests.antt =====
-- A host with one route, the requests that come to it, and the theorems at them.
use go_platform.Base.{
  GoString, true, false, List, [], ◌∷◌, ◌++◌, none, some, ◌≡◌, ◌≢◌, ◌↔◌, refl, lit, str_eq,
  cut_prefix, trim_prefix, trim_space, strip, space_width, is_space, is_space2, is_space3,
  space_width_back, split_at, lookup, pos, if◌then◌else◌, IsDistinct,
}
use go_platform.Problem.{
  new, with_code, without_credentials, unauthorized, code_login_failed, code_token_expired,
}
use go_platform.Jwt.{
  Claims, known_alg, contains, signed_part, is_expired, check_claims, check_signature, check_body,
  read_body, verify_parts, verify,
}
use go_platform.Host.Serve.{
  Host, Incoming, Session, not_allowed, routed, canonical, cleaned, with_slash, clean, keep_segment,
  keep_segments, slashed, ends_slash, allowed_by, allowed, join_comma, no_page, unrouted, bad_query,
  dispatch, session_of, token_problem, no_bearer, after_verify, serve,
}
use go_platform.Host.Address.{
  client_addr, walked, is_trusted, address_of, walk, forwarded_chain, elements, turn_after, turn,
}
use go_platform.Host.Serve.Segments.{is_plain_path}
use go_platform.Host.Serve.Canonical.{is_rooted, canonical_iff}
use go_platform.Host.Compose.{
  Module, new_host, own_modules, own_prefixes, then_own, error_of, claimed,
}
use go_platform.Jwt.Valid.{IsSigned}
use go_platform.Host.Serve.Guarded.{IsServed, serve_iff, serve-forged}
use go_platform.Host.Compose.Owned.{new_host-none_iff, all_declared}

served : Unit {0}
unfolding lit str_eq cut_prefix trim_prefix split_at lookup new with_code without_credentials
    unauthorized code_login_failed code_token_expired known_alg contains signed_part is_expired
    check_claims check_signature check_body read_body verify_parts verify canonical cleaned
    with_slash clean keep_segment keep_segments slashed ends_slash allowed_by allowed join_comma
    no_page unrouted bad_query dispatch session_of token_problem no_bearer after_verify serve
    new_host own_modules own_prefixes then_own error_of client_addr walked is_trusted address_of
    walk forwarded_chain elements trim_space strip space_width is_space is_space2 is_space3
    space_width_back turn_after turn
served = tt

abbrev claims : Claims
claims = record {
  iss = lit "https://id";
  aud = lit "web";
  sub = lit "u1";
  iat = pos 10;
  exp = pos 100;
}

-- Texts stand for themselves, the MAC is the algorithm with the key, and GET has one route.
abbrev host : Host GoString GoString
host = record {
  keys = record {
    audiences = (lit "web", record { alg = lit "HS256"; secret = lit "k" }) ∷ [];
    issuers = lit "https://id" ∷ [];
  };
  codec = record {
    decode = λ s. some s;
    encode = λ s. s;
    read_header = λ s. some s;
    write_header = λ s. s;
    read_claims = λ s. if str_eq s (lit "claims") then some claims else none;
    write_claims = λ c. lit "claims";
    mac = λ alg secret message. alg ++ secret;
  };
  catalogue = none;
  netip = record { addr_of = λ s. some s; text_of = λ s. s; contains = λ p a. str_eq p a };
  trusted_proxies = some (lit "10.0.0.2" ∷ []);
  counts = true;
  pattern = λ m p.
      if str_eq m (lit "GET")
      then (if str_eq p (lit "/users") then lit "GET /users" else [])
      else [];
  query_error = λ q. none;
}

abbrev request : GoString → GoString → GoString → Incoming
request authorization method path = record {
  authorization = authorization;
  request_id = [];
  user_agent = lit "ua";
  remote = lit "10.0.0.2";
  forwarded = lit "203.0.113.7" ∷ [];
  method = method;
  path = path;
  raw_query = [];
}

abbrev signed : GoString
signed = lit "HS256.claims.HS256k"

abbrev session : Session
session = record { code = lit "u1"; token = signed; agent = lit "ua"; host = lit "203.0.113.7" }

canonical_paths :
    (canonical (lit "/users/") ≡ true)
    × (canonical (lit "/") ≡ true)
    × (canonical (lit "/users//1") ≡ false)
    × (canonical (lit "/users/../1") ≡ false)
    × (canonical (lit "users") ≡ false)
unfolding served
canonical_paths = (refl, refl, refl, refl, refl)

routed_users :
    serve host 50 (request (lit "Bearer " ++ signed) (lit "GET") (lit "/users")) ≡ routed session
unfolding served
routed_users = refl

allowed_users :
    serve host 50 (request (lit "Bearer " ++ signed) (lit "POST") (lit "/users"))
    ≡ not_allowed
        (lit "GET, HEAD")
        (new 405 (lit "method-not-allowed") (lit "Method not allowed") [])
unfolding served
allowed_users = refl

serve_iff_example :
    (serve host 50 (request (lit "Bearer " ++ signed) (lit "GET") (lit "/users")) ≡ routed session)
    ↔ IsServed host 50 (request (lit "Bearer " ++ signed) (lit "GET") (lit "/users")) session
serve_iff_example =
    serve_iff host 50 (request (lit "Bearer " ++ signed) (lit "GET") (lit "/users")) session

one_part-forged : (lit "x" ≢ []) × ((c : Claims) → ¬ IsSigned host.keys host.codec (lit "x") c)
unfolding served
one_part-forged = (λ e. cc, λ c s. absurd (cc s.parts))

two_parts-forged : (lit "a.b" ≢ []) × ((c : Claims) → ¬ IsSigned host.keys host.codec (lit "a.b") c)
unfolding served
two_parts-forged = (λ e. cc, λ c s. absurd (cc s.parts))

serve-forged_example :
    serve host 50 (request (lit "Bearer " ++ lit "x") (lit "GET") (lit "/users"))
    ≡ serve host 60 (request (lit "Bearer " ++ lit "a.b") (lit "POST") (lit "/nowhere"))
serve-forged_example =
    serve-forged host 50 60 (request (lit "Bearer " ++ lit "x") (lit "GET") (lit "/users"))
      (request (lit "Bearer " ++ lit "a.b") (lit "POST") (lit "/nowhere")) (lit "x") (lit "a.b")
      refl refl one_part-forged two_parts-forged

abbrev users_twice : List Module
users_twice =
    record { name = lit "user"; declared = lit "/users" ∷ [] }
    ∷ record { name = lit "admin"; declared = lit "/users" ∷ [] }
    ∷ []

twice_refused : new_host users_twice ≡ some (claimed (lit "/users") (lit "user") (lit "admin"))
unfolding served
twice_refused = refl

new_host-none_iff_example :
    (new_host users_twice ≡ none) ↔ ((users_twice ≢ []) × IsDistinct (all_declared users_twice))
new_host-none_iff_example = new_host-none_iff users_twice

canonical_iff_example :
    (canonical (lit "/users/") ≡ true)
    ↔ ((is_rooted (lit "/users/") ≡ true) × (is_plain_path (lit "/users/") ≡ true))
canonical_iff_example = canonical_iff (lit "/users/")
