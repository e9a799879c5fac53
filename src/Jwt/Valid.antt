-- ===== src/Jwt/Valid.antt =====
-- `Verify` of lib/auth/jwt/jwt.go, by what an accepted token is.
use mathlib.Core.Path.{subst}
use go_platform.Base.{
  GoString, ℕ, ◌<◌, Bool, true, false, ◌||◌, not, List, [], ◌∷◌, some, ◌≡◌, refl, ◌↔◌, sym, ◌∙◌,
  arith, str_eq, str_eq_iff, split_at, lookup, ℤ, pos, negsuc, int_eq, nat_lt_int, Option-cases,
  inl, inr,
}
use go_platform.Jwt.{
  malformed, signature, audience, issuer, expired, Claims, Key, Keyring, Result, ok, err, Codec,
  known_alg, contains, signed_part, is_expired, check_claims, check_signature, check_body,
  read_body, verify_parts, verify,
}

module _ (k : Keyring) (codec : Codec) where
  -- Three parts, a known algorithm in the header, claims with a subject and an audience of the
  -- ring whose key signs by that algorithm, and the MAC of that key over the first two parts.
  pub record IsSigned (token : GoString) (c : Claims) : Type 0 where
    pub header : GoString
    pub body : GoString
    pub sig64 : GoString
    pub raw_header : GoString
    pub raw_body : GoString
    pub alg : GoString
    pub key : Key
    pub parts : split_at b'.' token ≡ header ∷ body ∷ sig64 ∷ []
    pub header_decoded : codec.decode header ≡ some raw_header
    pub header_read : codec.read_header raw_header ≡ some alg
    pub alg_known : known_alg alg ≡ true
    pub body_decoded : codec.decode body ≡ some raw_body
    pub body_read : codec.read_claims raw_body ≡ some c
    pub has_sub : str_eq c.sub [] ≡ false
    pub has_aud : str_eq c.aud [] ≡ false
    pub key_found : lookup c.aud k.audiences ≡ some key
    pub same_alg : key.alg ≡ alg
    pub signed : codec.decode sig64 ≡ some (codec.mac key.alg key.secret (signed_part header body))

  module _ (now : ℕ) where
    -- What is left of the verification of a signed token is the issuer and the time.
    verify_of_IsSigned :
        (token : GoString) (c : Claims)
        → IsSigned token c
        → verify k codec now token ≡ check_claims k codec now c
    unfolding verify verify_parts read_body check_body check_signature
    verify_of_IsSigned token c s = ground (
      arith,
      str_eq_iff s.key.alg s.alg,
      str_eq_iff (codec.mac s.key.alg s.key.secret (signed_part s.header s.body))
          (codec.mac s.key.alg s.key.secret (signed_part s.header s.body)),
    )

    -- The answers that only the checks behind the signature give.
    abbrev is_late : Result → Bool
    is_late (ok c) = true
    is_late (err malformed) = false
    is_late (err signature) = false
    is_late (err audience) = false
    is_late (err issuer) = true
    is_late (err expired) = true

    check_signature-late :
        (alg header body sig64 : GoString) (c : Claims) (key : Key)
        → is_late (check_signature k codec now alg header body sig64 c key) ≡ true
        → (key.alg ≡ alg)
          × (codec.decode sig64 ≡ some (codec.mac key.alg key.secret (signed_part header body)))
    unfolding check_signature
    check_signature-late alg header body sig64 c key h = elim (Option-cases (codec.decode sig64)) [
      | inl missed ↦ absurd (ground arith)
      | inr (sig, e) ↦ (
        ground (arith, str_eq_iff key.alg alg),
        ground (arith, str_eq_iff sig (codec.mac key.alg key.secret (signed_part header body))),
      )
    ]

    check_body-late :
        (alg header body sig64 : GoString) (c : Claims)
        → is_late (check_body k codec now alg header body sig64 c) ≡ true
        → (key : Key) × (lookup c.aud k.audiences ≡ some key)
          × (str_eq c.sub [] ≡ false)
          × (str_eq c.aud [] ≡ false)
          × (is_late (check_signature k codec now alg header body sig64 c key) ≡ true)
    unfolding check_body
    check_body-late alg header body sig64 c h = elim (Option-cases (lookup c.aud k.audiences)) [
      | inl missed ↦ absurd (ground arith)
      | inr (key, e) ↦ (key, e, ground arith, ground arith, ground arith)
    ]

    read_body-late :
        (alg header body sig64 : GoString)
        → is_late (read_body k codec now alg header body sig64) ≡ true
        → (raw : GoString) × (c : Claims) × (codec.decode body ≡ some raw)
          × (codec.read_claims raw ≡ some c)
          × (is_late (check_body k codec now alg header body sig64 c) ≡ true)
    unfolding read_body
    read_body-late alg header body sig64 h = elim (Option-cases (codec.decode body)) [
      | inl missed ↦ absurd (ground arith)
      | inr (raw, e) ↦ elim (Option-cases (codec.read_claims raw)) [
        | inl missed ↦ absurd (ground arith)
        | inr (c, e') ↦ (raw, c, e, e', ground arith)
      ]
    ]

    verify_parts-late :
        (header body sig64 : GoString)
        → is_late (verify_parts k codec now header body sig64) ≡ true
        → (raw : GoString) × (alg : GoString) × (codec.decode header ≡ some raw)
          × (codec.read_header raw ≡ some alg)
          × (known_alg alg ≡ true)
          × (is_late (read_body k codec now alg header body sig64) ≡ true)
    unfolding verify_parts
    verify_parts-late header body sig64 h = elim (Option-cases (codec.decode header)) [
      | inl missed ↦ absurd (ground arith)
      | inr (raw, e) ↦ elim (Option-cases (codec.read_header raw)) [
        | inl missed ↦ absurd (ground arith)
        | inr (alg, e') ↦ (raw, alg, e, e', ground arith, ground arith)
      ]
    ]

    IsSigned-of_parts :
        (token header body sig64 : GoString)
        → split_at b'.' token ≡ header ∷ body ∷ sig64 ∷ []
        → is_late (verify_parts k codec now header body sig64) ≡ true
        → (c : Claims) × IsSigned token c
    IsSigned-of_parts token header body sig64 parts h =
        let (raw_header, alg, header_decoded, header_read, alg_known, h1) =
          verify_parts-late header body sig64 h in
        let (raw_body, c, body_decoded, body_read, h2) = read_body-late alg header body sig64 h1 in
        let (key, key_found, has_sub, has_aud, h3) = check_body-late alg header body sig64 c h2 in
        let (same_alg, signed) = check_signature-late alg header body sig64 c key h3 in
        (
          c,
          record {
            header = header;
            body = body;
            sig64 = sig64;
            raw_header = raw_header;
            raw_body = raw_body;
            alg = alg;
            key = key;
            parts = parts;
            header_decoded = header_decoded;
            header_read = header_read;
            alg_known = alg_known;
            body_decoded = body_decoded;
            body_read = body_read;
            has_sub = has_sub;
            has_aud = has_aud;
            key_found = key_found;
            same_alg = same_alg;
            signed = signed;
          },
        )

    IsSigned-of_late :
        (token : GoString) (parts : List GoString)
        → split_at b'.' token ≡ parts
        → is_late (verify k codec now token) ≡ true
        → (c : Claims) × IsSigned token c
    unfolding verify
    IsSigned-of_late token [] e h = absurd (cc)
    IsSigned-of_late token (a ∷ []) e h = absurd (cc)
    IsSigned-of_late token (a ∷ b ∷ []) e h = absurd (cc)
    IsSigned-of_late token (a ∷ b ∷ s ∷ []) e h =
        IsSigned-of_parts token a b s e (rw (e, verify) at h)
    IsSigned-of_late token (a ∷ b ∷ s ∷ t ∷ more) e h = absurd (cc)

-- The issuer is accepted and the time of expiry, which is set, has not come.
abbrev pub IsLive : Keyring → ℕ → Claims → Type 0
IsLive k now c = (contains k.issuers c.iss ≡ true) × (n : ℕ) × (c.exp ≡ pos n) × (now < n)

live_time :
    (now : ℕ) (e : ℤ)
    → (int_eq e (pos 0) || not (nat_lt_int now e)) ≡ false
    → (n : ℕ) × (e ≡ pos n) × (now < n)
live_time now (pos n) h = (n, refl, ground arith)
live_time now (negsuc n) h = absurd (cc)

check_claims_iff :
    (k : Keyring) (codec : Codec) (now : ℕ) (c c' : Claims)
    → (check_claims k codec now c ≡ ok c') ↔ (IsLive k now c × (c ≡ c'))
unfolding check_claims is_expired
check_claims_iff k codec now c c' = (
  λ h.
      let (n, set, early) = live_time now c.exp (ground arith) in
      ((ground arith, n, set, early), ground arith),
  λ ((accepted, n, set, early), same). ground arith,
)

-- `Verify` accepts a token with its claims exactly when its subject and its audience are not empty, it is
-- signed by the key that the ring has for its audience, with that key's algorithm, which is a known one,
-- its issuer is accepted and it is not over.
pub verify_iff :
    (k : Keyring) (codec : Codec) (now : ℕ) (token : GoString) (c : Claims)
    → (verify k codec now token ≡ ok c) ↔ (IsSigned k codec token c × IsLive k now c)
verify_iff k codec now token c = (
  λ h.
      let (c', s) = IsSigned-of_late k codec now token _ refl (rw h refl) in
      let (live, same) =
        (check_claims_iff k codec now c' c).0
          (sym (verify_of_IsSigned k codec now token c' s) ∙ h) in
      (subst (IsSigned k codec token) same s, subst (IsLive k now) same live),
  λ h.
      verify_of_IsSigned k codec now token c h.0 ∙ (check_claims_iff k codec now c c).1 (h.1, refl),
)

accepted_of_expired :
    (k : Keyring) (codec : Codec) (now : ℕ) (c : Claims)
    → check_claims k codec now c ≡ err expired
    → contains k.issuers c.iss ≡ true
unfolding check_claims
accepted_of_expired k codec now c h = ground arith

-- The answer "expired", the one refusal that the host tells a client apart, is given only for a
-- token whose signature holds and whose issuer is accepted.
pub expired-IsSigned :
    (k : Keyring) (codec : Codec) (now : ℕ) (token : GoString)
    → verify k codec now token ≡ err expired
    → (c : Claims) × IsSigned k codec token c × (contains k.issuers c.iss ≡ true)
expired-IsSigned k codec now token h =
    let (c, s) = IsSigned-of_late k codec now token _ refl (rw h refl) in
    (c, s, accepted_of_expired k codec now c (sym (verify_of_IsSigned k codec now token c s) ∙ h))
