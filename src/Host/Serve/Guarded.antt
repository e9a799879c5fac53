-- ===== src/Host/Serve/Guarded.antt =====
-- `ServeHTTP` of module.go: which request comes to a route, and what a stranger learns.
use go_platform.Base.{
  GoString, ℕ, Bool-cases, true, false, List, [], ◌∷◌, ◌++◌, none, ◌≡◌, ◌≢◌, ◌↔◌, inl, inr, refl,
  sym, ap, ◌∙◌, arith, lit, str_eq, str_eq_iff, trim_prefix, cut_prefix, cut_prefix_sound,
  cut_prefix-append, length, Option-cases,
}
use go_platform.Jwt
use go_platform.Problem.{Problem, unauthorized, code_login_failed}
use go_platform.Jwt.{Claims, JwtError, malformed, signature, audience, issuer, expired, verify}
use go_platform.Jwt.Valid.{IsSigned, IsLive, verify_iff, expired-IsSigned}
use go_platform.Host.Serve.{
  Host, Incoming, Session, refused, routed, canonical, dispatch, session_of, after_verify, unrouted,
  allowed, serve, token_problem,
}

-- `strings.TrimPrefix` takes something off exactly where the prefix is there.
trimmed-bearer :
    (a t : GoString)
    → trim_prefix a (lit "Bearer ") ≡ t
    → str_eq t a ≡ false
    → a ≡ lit "Bearer " ++ t
unfolding trim_prefix
trimmed-bearer a t e moved = elim (Option-cases (cut_prefix (lit "Bearer ") a)) [
  | inl h ↦ ground (arith, str_eq_iff t a)
  | inr (rest, h) ↦
      let same : rest ≡ t = ground arith in
      cut_prefix_sound (lit "Bearer ") a rest h ∙ ap (λ x. lit "Bearer " ++ x) same
]

prefix-trimmed : (p t : GoString) → trim_prefix (p ++ t) p ≡ t
unfolding trim_prefix
prefix-trimmed p t = ground (arith, cut_prefix-append p t)

bearer-longer : (t : GoString) → str_eq t (lit "Bearer " ++ t) ≡ false
unfolding lit
bearer-longer t = elim (Bool-cases (str_eq t (lit "Bearer " ++ t))) [
  | inl same ↦ absurd (ground (arith, ap length ((str_eq_iff t (lit "Bearer " ++ t)).0 same)))
  | inr other ↦ other
]

module _ {A P : Type 0} (h : Host A P) where
  unrouted-routed : (ms : List GoString) (s : Session) → unrouted h ms ≢ routed s
  unfolding unrouted
  unrouted-routed [] s e = cc
  unrouted-routed (m ∷ ms) s e = cc

  -- The path is canonical, the mux has a pattern for it, and the query can be read.
  abbrev pub IsKnown : Incoming → Type 0
  IsKnown r =
      (canonical r.path ≡ true)
      × (h.pattern r.method r.path ≢ [])
      × (h.query_error r.raw_query ≡ none)

  dispatch_iff :
      (r : Incoming) (s t : Session) → (dispatch h r s ≡ routed t) ↔ (IsKnown r × (s ≡ t))
  unfolding dispatch
  dispatch_iff r s t =
      let never = unrouted-routed (allowed h r.path) t in
      let found = str_eq_iff (h.pattern r.method r.path) [] in
      (
        λ e. (
          (
            ground arith,
            λ (missing : h.pattern r.method r.path ≡ []). ground (arith, found),
            ground arith,
          ),
          ground arith,
        ),
        λ ((clean', there, readable), same). ground (arith, found),
      )

  -- A token behind `Bearer `, which is signed for the claims `c` and in time, and a request that is known
  -- of it.
  pub record IsServed (now : ℕ) (r : Incoming) (s : Session) : Type 0 where
    pub token : GoString
    pub claims : Claims
    pub has_bearer : r.authorization ≡ lit "Bearer " ++ token
    pub has_token : token ≢ []
    pub signed : IsSigned h.keys h.codec token claims
    pub live : IsLive h.keys now claims
    pub known : IsKnown r
    pub session : session_of h r token claims ≡ s

  verified-routed :
      (now : ℕ) (r : Incoming) (token : GoString) (v : Jwt.Result) (s : Session)
      → after_verify h r token v ≡ routed s
      → (c : Claims) × (v ≡ Jwt.ok c) × IsKnown r × (session_of h r token c ≡ s)
  unfolding after_verify
  verified-routed now r token (Jwt.err e) s same = absurd (cc same)
  verified-routed now r token (Jwt.ok c) s same =
      let (known, given) = (dispatch_iff r (session_of h r token c) s).0 same in
      (c, refl, known, given)

  IsServed-of : (now : ℕ) (r : Incoming) (s : Session) → serve h now r ≡ routed s → IsServed now r s
  unfolding serve
  IsServed-of now r s e =
      let token = trim_prefix r.authorization (lit "Bearer ") in
      let (c, ok', known, same) =
        verified-routed now r token (verify h.keys h.codec now token) s (ground arith) in
      let (signed, live) = (verify_iff h.keys h.codec now token c).0 ok' in
      record {
        token = token;
        claims = c;
        has_bearer = trimmed-bearer r.authorization token refl (ground arith);
        has_token = λ (none' : token ≡ []). ground (arith, str_eq_iff token []);
        signed = signed;
        live = live;
        known = known;
        session = same;
      }

  serve-of : (now : ℕ) (r : Incoming) (s : Session) → IsServed now r s → serve h now r ≡ routed s
  unfolding serve after_verify
  serve-of now r s i =
      let trimmed : trim_prefix r.authorization (lit "Bearer ") ≡ i.token =
        ap (λ a. trim_prefix a (lit "Bearer ")) i.has_bearer
        ∙ prefix-trimmed (lit "Bearer ") i.token in
      let longer : str_eq i.token r.authorization ≡ false =
        ap (str_eq i.token) i.has_bearer ∙ bearer-longer i.token in
      let verified = (verify_iff h.keys h.codec now i.token i.claims).1 (i.signed, i.live) in
      let routes = (dispatch_iff r (session_of h r i.token i.claims) s).1 (i.known, i.session) in
      ground (arith, str_eq_iff i.token [])

  -- A request comes to a route exactly when it has a bearer token that is signed for its claims and in
  -- time, its path is canonical, the mux has a pattern for it and its query can be read; the session of
  -- the route has the subject of those claims, the token, the agent of the request, and the address
  -- that `clientAddr` gives.
  pub serve_iff :
      (now : ℕ) (r : Incoming) (s : Session) → (serve h now r ≡ routed s) ↔ IsServed now r s
  serve_iff now r s = (IsServed-of now r s, serve-of now r s)

  -- A token that no key of the ring has signed.
  abbrev pub IsForged : GoString → Type 0
  IsForged token = (token ≢ []) × ((c : Claims) → ¬ IsSigned h.keys h.codec token c)

  abbrev forged_answer : Problem
  forged_answer =
      unauthorized h.catalogue code_login_failed (lit "The access token could not be verified.")

  forged-problem :
      (now : ℕ) (r : Incoming) (token : GoString) (v : Jwt.Result)
      → verify h.keys h.codec now token ≡ v
      → IsForged token
      → after_verify h r token v ≡ refused forged_answer
  unfolding after_verify token_problem
  forged-problem now r token (Jwt.ok c) e (there, forged) =
      absurd (forged c ((verify_iff h.keys h.codec now token c).0 e).0)
  forged-problem now r token (Jwt.err expired) e (there, forged) =
      let (c, signed, known) = expired-IsSigned h.keys h.codec now token e in
      absurd (forged c signed)
  forged-problem now r token (Jwt.err malformed) e i = refl
  forged-problem now r token (Jwt.err signature) e i = refl
  forged-problem now r token (Jwt.err audience) e i = refl
  forged-problem now r token (Jwt.err issuer) e i = refl

  forged-answered :
      (now : ℕ) (r : Incoming) (token : GoString)
      → r.authorization ≡ lit "Bearer " ++ token
      → IsForged token
      → serve h now r ≡ refused forged_answer
  unfolding serve
  forged-answered now r token e (there, forged) =
      let trimmed : trim_prefix r.authorization (lit "Bearer ") ≡ token =
        ap (λ a. trim_prefix a (lit "Bearer ")) e ∙ prefix-trimmed (lit "Bearer ") token in
      let longer : str_eq token r.authorization ≡ false =
        ap (str_eq token) e ∙ bearer-longer token in
      let answer =
        forged-problem now r token (verify h.keys h.codec now token) refl (there, forged) in
      ground (arith, str_eq_iff token [])

  -- Two requests whose bearer tokens no key of the ring has signed get the same answer, whatever else
  -- they differ in, and at whatever times.
  pub serve-forged :
      (now then' : ℕ) (r q : Incoming) (a b : GoString)
      → r.authorization ≡ lit "Bearer " ++ a
      → q.authorization ≡ lit "Bearer " ++ b
      → IsForged a
      → IsForged b
      → serve h now r ≡ serve h then' q
  serve-forged now then' r q a b ra qb fa fb =
      forged-answered now r a ra fa ∙ sym (forged-answered then' q b qb fb)
