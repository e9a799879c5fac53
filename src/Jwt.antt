-- ===== src/Jwt.antt =====
-- lib/auth/jwt/jwt.go: the local verification of access tokens. Base64, JSON and the HMAC come
-- from Go's standard library and are parameters; the clock is the second of `now`.
pub mod Valid
pub mod RoundTrip
mod Tests
use go_platform.Base.{
  GoString, ℕ, Bool, true, false, ◌||◌, not, List, [], ◌∷◌, ◌++◌, Option, none, some, lit, str_eq,
  split_at, lookup, any, ℤ, pos, int_eq, nat_lt_int, if◌then◌else◌,
}

pub data JwtError : Type 0 where
  malformed signature audience issuer expired : JwtError

-- The platform's claims; the two times are seconds of the Unix epoch.
pub record Claims : Type 0 where
  pub iss : GoString
  pub aud : GoString
  pub sub : GoString
  pub iat : ℤ
  pub exp : ℤ

pub record Key : Type 0 where
  pub alg : GoString
  pub secret : GoString

pub record Keyring : Type 0 where
  pub audiences : List (GoString × Key)
  pub issuers : List GoString

pub data Result : Type 0 where
  ok : Claims → Result
  err : JwtError → Result

-- What the package takes from the standard library: `base64.RawURLEncoding`, `json.Unmarshal` and
-- `json.Marshal` of the header and of the claims, and the MAC of a message by algorithm and secret.
pub record Codec : Type 0 where
  pub decode : GoString → Option GoString
  pub encode : GoString → GoString
  pub read_header : GoString → Option GoString
  pub write_header : GoString → GoString
  pub read_claims : GoString → Option Claims
  pub write_claims : Claims → GoString
  pub mac : GoString → GoString → GoString → GoString

-- `hasher(alg) != nil`
unfoldable pub known_alg : GoString → Bool
known_alg alg = str_eq alg (lit "HS256") || str_eq alg (lit "HS384") || str_eq alg (lit "HS512")

unfoldable pub contains : List GoString → GoString → Bool
contains xs s = any (λ x. str_eq x s) xs

-- The bytes that are signed.
unfoldable pub signed_part : GoString → GoString → GoString
signed_part header body = header ++ (lit "." ++ body)

-- `c.Exp == 0 || !now.Before(time.Unix(c.Exp, 0))`
unfoldable pub is_expired : ℕ → Claims → Bool
is_expired now c = int_eq c.exp (pos 0) || not (nat_lt_int now c.exp)

module _ (k : Keyring) (codec : Codec) (now : ℕ) where
  -- The checks behind the signature.
  unfoldable pub check_claims : Claims → Result
  check_claims c =
      if not (contains k.issuers c.iss)
      then err issuer
      else if is_expired now c
      then err expired
      else ok c

  -- From the key of the audience to the signature.
  unfoldable pub check_signature : GoString → GoString → GoString → GoString → Claims → Key → Result
  check_signature alg header body sig64 c key =
      if not (str_eq key.alg alg) then err signature else elim (codec.decode sig64) [
        | none ↦ err malformed
        | some sig ↦
            if not (str_eq sig (codec.mac key.alg key.secret (signed_part header body)))
            then err signature
            else check_claims c
      ]

  unfoldable pub check_body : GoString → GoString → GoString → GoString → Claims → Result
  check_body alg header body sig64 c =
      if str_eq c.sub [] || str_eq c.aud []
      then err malformed
      else elim (lookup c.aud k.audiences) [
        | none ↦ err audience
        | some key ↦ check_signature alg header body sig64 c key
      ]

  unfoldable pub read_body : GoString → GoString → GoString → GoString → Result
  read_body alg header body sig64 = elim (codec.decode body) [
    | none ↦ err malformed
    | some raw ↦ elim (codec.read_claims raw) [
      | none ↦ err malformed
      | some c ↦ check_body alg header body sig64 c
    ]
  ]

  unfoldable pub verify_parts : GoString → GoString → GoString → Result
  verify_parts header body sig64 = elim (codec.decode header) [
    | none ↦ err malformed
    | some raw ↦ elim (codec.read_header raw) [
      | none ↦ err malformed
      | some alg ↦ if not (known_alg alg) then err malformed else read_body alg header body sig64
    ]
  ]

  unfoldable pub verify : GoString → Result
  verify token = elim (split_at b'.' token) [
    | [] ↦ err malformed
    | h ∷ rest ↦ elim rest [
      | [] ↦ err malformed
      | b ∷ rest' ↦ elim rest' [
        | [] ↦ err malformed
        | s ∷ more ↦ elim more [ [] ↦ verify_parts h b s | _ ∷ _ ↦ err malformed ]
      ]
    ]
  ]

-- `Sign`
unfoldable pub sign : Codec → Claims → GoString → GoString → GoString
sign codec c alg secret =
    let signables =
      signed_part (codec.encode (codec.write_header alg)) (codec.encode (codec.write_claims c)) in
    signables ++ (lit "." ++ codec.encode (codec.mac alg secret signables))
