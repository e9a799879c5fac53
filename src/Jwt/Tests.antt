-- ===== src/Jwt/Tests.antt =====
-- A token made and verified with a concrete codec, and the theorems about it.
use go_platform.Base.{
  GoString, true, false, [], ◌∷◌, ◌++◌, none, some, ◌≡◌, refl, ◌↔◌, lit, str_eq, split_at, span,
  lookup, pos, if◌then◌else◌,
}
use go_platform.Jwt.{
  Claims, Keyring, ok, err, expired, Codec, known_alg, contains, signed_part, is_expired,
  check_claims, check_signature, check_body, read_body, verify_parts, verify, sign,
}
use go_platform.Jwt.Valid.{IsSigned, IsLive, verify_iff}
use go_platform.Jwt.RoundTrip.{IsReadable, sign-verify}

token : Unit {0}
unfolding lit str_eq split_at span lookup known_alg contains signed_part is_expired check_claims
    check_signature check_body read_body verify_parts verify sign
token = tt

abbrev claims : Claims
claims = record {
  iss = lit "https://id";
  aud = lit "web";
  sub = lit "u1";
  iat = pos 10;
  exp = pos 100;
}

-- Texts stand for themselves, and the MAC is the algorithm with the key.
abbrev plain_codec : Codec
plain_codec = record {
  decode = λ s. some s;
  encode = λ s. s;
  read_header = λ s. some s;
  write_header = λ s. s;
  read_claims = λ s. if str_eq s (lit "claims") then some claims else none;
  write_claims = λ c. lit "claims";
  mac = λ alg secret message. alg ++ secret;
}

abbrev ring : Keyring
ring = record {
  audiences = (lit "web", record { alg = lit "HS256"; secret = lit "k" }) ∷ [];
  issuers = lit "https://id" ∷ [];
}

abbrev made : GoString
made = lit "HS256.claims.HS256k"

made-sign : sign plain_codec claims (lit "HS256") (lit "k") ≡ made
unfolding token
made-sign = refl

made-verify : verify ring plain_codec 50 made ≡ ok claims
unfolding token
made-verify = refl

late-verify : verify ring plain_codec 100 made ≡ err expired
unfolding token
late-verify = refl

verify_iff_example :
    (verify ring plain_codec 50 made ≡ ok claims)
    ↔ (IsSigned ring plain_codec made claims × IsLive ring 50 claims)
verify_iff_example = verify_iff ring plain_codec 50 made claims

made-IsReadable : IsReadable plain_codec claims (lit "HS256") (lit "k")
unfolding token
made-IsReadable = record {
  header_back = refl;
  alg_back = refl;
  body_back = refl;
  claims_back = refl;
  mac_back = refl;
  header_plain = (refl, (refl, (refl, (refl, (refl, tt)))));
  body_plain = (refl, (refl, (refl, (refl, (refl, (refl, tt))))));
  mac_plain = (refl, (refl, (refl, (refl, (refl, (refl, tt))))));
}

alg_known : known_alg (lit "HS256") ≡ true
unfolding token
alg_known = refl

has_sub : str_eq claims.sub [] ≡ false
unfolding token
has_sub = refl

has_aud : str_eq claims.aud [] ≡ false
unfolding token
has_aud = refl

key_found : lookup claims.aud ring.audiences ≡ some (record { alg = lit "HS256"; secret = lit "k" })
unfolding token
key_found = refl

claims-IsLive : IsLive ring 50 claims
claims-IsLive = ((verify_iff ring plain_codec 50 made claims).0 made-verify).1

sign-verify_example :
    verify ring plain_codec 50 (sign plain_codec claims (lit "HS256") (lit "k")) ≡ ok claims
sign-verify_example =
    sign-verify plain_codec claims (lit "HS256") (lit "k") ring 50 made-IsReadable alg_known has_sub
      has_aud key_found claims-IsLive
