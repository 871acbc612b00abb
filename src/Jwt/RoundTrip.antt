-- ===== src/Jwt/RoundTrip.antt =====
-- `JwtManager::verify` on what `JwtManager::generate` has made.
use management_sensors.Prelude.{
  ℕ, ◌+◌, ◌%◌, ltb, lt→ltb, ◌^◌, ◌<◌, ◌≡◌, refl, ◌∙◌, Text, codes, pos, to_uint64, to_uint64_of_lt,
  append_assoc, none, some, ok, arith, leb, true, if◌then◌else◌, text_eq, text_eq_refl,
}
use management_sensors.Json
use management_sensors.Json.{
  Value, uint64, Members, end, member, set, object, string, int64, as_object, as_string, as_int64,
  find-set, find,
}
use management_sensors.Jwt.{
  Crypto, JwtClaims, jwt_algo, jwt_header, base64url_encode, base64url_decode, payload,
  signing_input, generate, header_alg, read_claims, check_parts, check_split, caught, verify,
  split_token,
}
use management_sensors.Jwt.Base64url.{
  IsBase64, base64url_encode-Without-dot, base64url_decode-encode,
}
use management_sensors.Jwt.Verify.{split_token-dots}

-- Botan's codec on one text: the encoding has the base64 format, and decodes to the text.
pub record Codec (c : Crypto) (bytes : Text) : Type 0 where
  pub format : IsBase64 (c.base64_encode bytes)
  pub inverse : c.base64_decode (c.base64_encode bytes) ≡ ok bytes

pub decode-Codec :
    (c : Crypto) (bytes : Text)
    → Codec c bytes
    → base64url_decode c (base64url_encode c bytes) ≡ ok bytes
decode-Codec c bytes k = base64url_decode-encode c bytes k.format ∙ k.inverse

-- What serializing and parsing does to numbers: the parser gives one that fits the kind int64.
abbrev pub parsed_value : Value → Value
parsed_value (uint64 n) = if ltb n (2 ^ 63) then int64 (pos n) else uint64 n
parsed_value v = v

abbrev pub parsed_members : Members → Members
parsed_members end = end
parsed_members (member k v m) = member k (parsed_value v) (parsed_members m)

-- The claims of a token whose expiry fits.
abbrev claims_of : Text → Text → ℕ → ℕ → Members
claims_of subject role ttl now = set (codes "exp") (int64 (pos (now + ttl))) (
    set (codes "iat") (int64 (pos now)) (
      set (codes "role") (string role) (
        set (codes "sub") (string subject)
          (set (codes "iss") (string (codes "management-sensors")) end))))

parsed_members-payload :
    (subject role : Text) (ttl now : ℕ)
    → now + ttl < 2 ^ 63
    → parsed_members (payload subject role ttl now) ≡ claims_of subject role ttl now
unfolding payload set text_eq
parsed_members-payload subject role ttl now fits =
    let whole : (now + ttl) % 2 ^ 64 ≡ now + ttl = omega arith in
    let small : ltb (now + ttl) (2 ^ 63) ≡ true = lt→ltb (now + ttl) (2 ^ 63) fits in
    let smaller : ltb now (2 ^ 63) ≡ true = lt→ltb now (2 ^ 63) (omega arith) in
    rw (whole, small, smaller) refl

abbrev pub parsed_header : Members
parsed_header =
    set (codes "alg") (string (codes "ES384")) (set (codes "typ") (string (codes "JWT")) end)

-- What the libraries do on the texts of one token: the codec on the header, the payload and the
-- signature, the parser on the header and on the serialized payload, and the key pair.
pub record Sound (lib : Json.Library) (c : Crypto) (subject role : Text) (ttl now : ℕ)
    : Type 0 where
  pub header_codec : Codec c jwt_header
  pub payload_codec : Codec c (lib.serialize (object (payload subject role ttl now)))
  pub signature_codec : Codec c (c.sign_message (signing_input lib c subject role ttl now))
  pub header_parsed : lib.parse jwt_header ≡ ok (object parsed_header)
  pub payload_parsed :
      lib.parse (lib.serialize (object (payload subject role ttl now)))
      ≡ ok (object (parsed_members (payload subject role ttl now)))
  pub key_pair :
      c.verify_message
        (signing_input lib c subject role ttl now)
        (c.sign_message (signing_input lib c subject role ttl now))
      ≡ true

module _ (lib : Json.Library) (c : Crypto) (subject role : Text) (ttl now : ℕ)
    (k : Sound lib c subject role ttl now) where
  header-alg : header_alg lib c (base64url_encode c jwt_header) ≡ ok jwt_algo
  unfolding header_alg as_object Json.at find set as_string text_eq
  header-alg = rw (decode-Codec c jwt_header k.header_codec) (rw k.header_parsed refl)

  abbrev issued : JwtClaims
  issued = record {
    sub = subject;
    role = role;
    iat = to_uint64 (pos now);
    exp = to_uint64 (pos (now + ttl));
  }

  payload-claims :
      now + ttl < 2 ^ 63
      → read_claims lib c
          (base64url_encode c (lib.serialize (object (payload subject role ttl now))))
        ≡ ok issued
  unfolding read_claims as_object Json.at find set as_string as_int64 text_eq
  payload-claims fits =
      rw (decode-Codec c (lib.serialize (object (payload subject role ttl now))) k.payload_codec)
        (rw k.payload_parsed (rw (parsed_members-payload subject role ttl now fits) refl))

  abbrev signature : Text
  signature = c.sign_message (signing_input lib c subject role ttl now)

  parts-checked :
      (later : ℕ)
      → now + ttl < 2 ^ 63
      → check_parts lib c
          (base64url_encode c jwt_header)
          (base64url_encode c (lib.serialize (object (payload subject role ttl now))))
          (base64url_encode c signature)
          later
        ≡ (if leb issued.exp later then ok none else ok (some issued))
  unfolding check_parts signing_input
  parts-checked later fits = rw header-alg (
      rw (text_eq_refl jwt_algo) (
        rw (decode-Codec c signature k.signature_codec)
          (rw k.key_pair (rw (payload-claims fits) refl))))

  token-parts :
      split_token (generate lib c subject role ttl now)
      ≡ some (
        base64url_encode c jwt_header,
        base64url_encode c (lib.serialize (object (payload subject role ttl now))),
        base64url_encode c signature,
      )
  unfolding generate
  token-parts = rw (append_assoc (base64url_encode c jwt_header) _ _) (
      split_token-dots (base64url_encode c jwt_header) _ _
        (base64url_encode-Without-dot c jwt_header k.header_codec.format)
        (base64url_encode-Without-dot c _ k.payload_codec.format))

  -- While its expiry fits in 63 bits, a token that `generate` has made at the time `now` is accepted
  -- at every time before `now + ttl`, with the subject, the role and the two times that went into
  -- it, and is refused from then on.
  pub verify-generate :
      (later : ℕ)
      → now + ttl < 2 ^ 63
      → verify lib c (generate lib c subject role ttl now) later ≡ (
          if leb (now + ttl) later
          then none
          else some (record { sub = subject; role = role; iat = now; exp = now + ttl }))
  unfolding verify check_split caught
  verify-generate later fits =
      let iat : to_uint64 (pos now) ≡ now = to_uint64_of_lt now (omega arith) in
      let exp : to_uint64 (pos (now + ttl)) ≡ now + ttl = to_uint64_of_lt (now + ttl) fits in
      rw token-parts (rw (parts-checked later fits) (rw (iat, exp) (ground arith)))
