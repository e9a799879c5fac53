-- ===== src/Jwt/RoundTrip.antt =====
-- `Sign` and `Verify` of lib/auth/jwt/jwt.go together.
use mathlib.Core.List.{append_assoc}
use go_platform.Base.{
  GoString, ℕ, true, false, [], ◌∷◌, some, ◌≡◌, refl, ◌∙◌, ap, lit, str_eq, split_at, split_at-one,
  split_at-append, Lacks, lookup,
}
use go_platform.Jwt.{Claims, Keyring, ok, Codec, known_alg, signed_part, sign, verify}
use go_platform.Jwt.Valid.{IsLive, verify_iff}

module _ (codec : Codec) (c : Claims) (alg secret : GoString) where
  abbrev header_text : GoString
  header_text = codec.encode (codec.write_header alg)

  abbrev body_text : GoString
  body_text = codec.encode (codec.write_claims c)

  abbrev mac_of : GoString
  mac_of = codec.mac alg secret (signed_part header_text body_text)

  -- What Base64 and JSON promise about one token: what was written is read back, and the encoded
  -- texts hold no dot.
  pub record IsReadable : Type 0 where
    pub header_back : codec.decode header_text ≡ some (codec.write_header alg)
    pub alg_back : codec.read_header (codec.write_header alg) ≡ some alg
    pub body_back : codec.decode body_text ≡ some (codec.write_claims c)
    pub claims_back : codec.read_claims (codec.write_claims c) ≡ some c
    pub mac_back : codec.decode (codec.encode mac_of) ≡ some mac_of
    pub header_plain : Lacks b'.' header_text
    pub body_plain : Lacks b'.' body_text
    pub mac_plain : Lacks b'.' (codec.encode mac_of)

  sign-parts :
      IsReadable
      → split_at b'.' (sign codec c alg secret) ≡ header_text ∷ body_text ∷ codec.encode mac_of ∷ []
  unfolding sign signed_part lit
  sign-parts r =
      ap (split_at b'.') (append_assoc header_text (b'.' ∷ body_text) _)
      ∙ split_at-append b'.' header_text _ r.header_plain
      ∙ ap (λ l. header_text ∷ l)
          (split_at-append b'.' body_text _ r.body_plain
            ∙ ap (λ l. body_text ∷ l) (split_at-one b'.' _ r.mac_plain))

-- A token of a subject and an audience that are not empty, signed by a known algorithm with the key that
-- the ring has for its audience, is accepted, with the claims that went into it, as long as its issuer is
-- accepted and it is not over, where base64 and JSON read back what they wrote of it and write no dot.
pub sign-verify :
    (codec : Codec) (c : Claims) (alg secret : GoString) (k : Keyring) (now : ℕ)
    → IsReadable codec c alg secret
    → known_alg alg ≡ true
    → str_eq c.sub [] ≡ false
    → str_eq c.aud [] ≡ false
    → lookup c.aud k.audiences ≡ some (record { alg = alg; secret = secret })
    → IsLive k now c
    → verify k codec now (sign codec c alg secret) ≡ ok c
sign-verify codec c alg secret k now r known sub aud found live =
    (verify_iff k codec now (sign codec c alg secret) c).1 (
      record {
        header = header_text codec c alg secret;
        body = body_text codec c alg secret;
        sig64 = codec.encode (mac_of codec c alg secret);
        raw_header = codec.write_header alg;
        raw_body = codec.write_claims c;
        alg = alg;
        key = record { alg = alg; secret = secret };
        parts = sign-parts codec c alg secret r;
        header_decoded = r.header_back;
        header_read = r.alg_back;
        alg_known = known;
        body_decoded = r.body_back;
        body_read = r.claims_back;
        has_sub = sub;
        has_aud = aud;
        key_found = found;
        same_alg = refl;
        signed = r.mac_back;
      },
      live,
    )
