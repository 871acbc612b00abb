-- ===== src/Jwt.antt =====
-- libs/jwt/JwtManager.cpp and common/jwt/JwtManager.hpp: ES384 tokens. Botan's base64 codec, its
-- signer and its verifier, with the keys that the constructor has loaded, are fields of `Crypto`;
-- boost::json is `Json.Library`. The clock is an argument. Bytes are numbers.

pub mod Keys
pub mod Base64url
pub mod Verify
pub mod RoundTrip
use management_sensors.Prelude.{
  ℕ, zero, suc, ◌^◌, ◌+◌, ◌%◌, ◌-◌, Bool, true, false, not, Text, codes, text_eq, find_char,
  find_char_from, substr, drop, length, replace_char, remove_char, List, [], ◌∷◌, ◌++◌, Option,
  none, some, Outcome, ok, throw, ◌>>=◌, if◌then◌else◌, leb, to_uint64, ◌==◌,
}
use management_sensors.Json
use management_sensors.Json.{
  Value, Members, int64, uint64, string, object, end, set, as_object, as_string, as_int64,
}

pub record Crypto : Type 0 where
  pub base64_encode : Text → Text
  pub base64_decode : Text → Outcome Text
  pub sign_message : Text → Text
  pub verify_message : Text → Text → Bool

-- struct JwtClaims
pub record JwtClaims : Type 0 where
  pub sub : Text
  pub role : Text
  pub iat : ℕ
  pub exp : ℕ

abbrev pub jwt_algo : Text
jwt_algo = codes "ES384"

abbrev pub jwt_header : Text
jwt_header = codes "{\"alg\":\"ES384\",\"typ\":\"JWT\"}"

-- `while (b64.size() % 4 != 0) b64.push_back('=')`, on fuel; three rounds always suffice.
unfoldable pub pad : ℕ → Text → Text
pad zero s = s
pad (suc f) s = elim (length s % 4 == 0) [ true ↦ s | false ↦ pad f (s ++ b'=' ∷ []) ]

unfoldable pub base64url_encode : Crypto → Text → Text
base64url_encode c bytes =
    remove_char b'=' (replace_char b'/' b'_' (replace_char b'+' b'-' (c.base64_encode bytes)))

unfoldable pub base64url_decode : Crypto → Text → Outcome Text
unfolding pad
base64url_decode c input =
    c.base64_decode (pad 3 (replace_char b'_' b'/' (replace_char b'-' b'+' input)))

-- The payload that `JwtManager::generate` builds.
unfoldable pub payload : Text → Text → ℕ → ℕ → Members
payload subject role ttl now = set (codes "exp") (uint64 ((now + ttl) % 2 ^ 64)) (
    set (codes "iat") (uint64 now) (
      set (codes "role") (string role) (
        set (codes "sub") (string subject)
          (set (codes "iss") (string (codes "management-sensors")) end))))

-- The token cut at its first two dots.
unfoldable pub split_token : Text → Option (Text × Text × Text)
split_token token = elim (find_char b'.' token) [
  | none ↦ none
  | some dot1 ↦ elim (find_char_from b'.' token (dot1 + 1)) [
    | none ↦ none
    | some dot2 ↦
        some (substr token 0 dot1, substr token (dot1 + 1) (dot2 - dot1 - 1), drop (dot2 + 1) token)
  ]
]

-- `catch (...) { return std::nullopt; }`
caught : Outcome (Option JwtClaims) → Option JwtClaims
caught (ok r) = r
caught (throw e) = none

module _ (lib : Json.Library) (c : Crypto) where
  unfoldable pub signing_input : Text → Text → ℕ → ℕ → Text
  signing_input subject role ttl now =
      base64url_encode c jwt_header
      ++ (b'.' ∷ base64url_encode c (lib.serialize (object (payload subject role ttl now))))

  -- `JwtManager::generate` at the time `now`.
  unfoldable pub generate : Text → Text → ℕ → ℕ → Text
  unfolding signing_input
  generate subject role ttl now =
      let input = signing_input subject role ttl now in
      input ++ (b'.' ∷ base64url_encode c (c.sign_message input))

  -- The header's algorithm, step 1 of `verify`.
  unfoldable pub header_alg : Text → Outcome Text
  header_alg header_b64 = do
    raw ← base64url_decode c header_b64
    json ← lib.parse raw
    obj ← as_object lib json
    alg ← Json.at lib (codes "alg") obj
    as_string lib alg

  -- The claims of the payload, step 3 of `verify`.
  unfoldable pub read_claims : Text → Outcome JwtClaims
  read_claims payload_b64 = do
    raw ← base64url_decode c payload_b64
    json ← lib.parse raw
    obj ← as_object lib json
    v ← Json.at lib (codes "sub") obj
    sub ← as_string lib v
    v ← Json.at lib (codes "role") obj
    role ← as_string lib v
    v ← Json.at lib (codes "iat") obj
    iat ← as_int64 lib v
    v ← Json.at lib (codes "exp") obj
    exp ← as_int64 lib v
    ok (record { sub = sub; role = role; iat = to_uint64 iat; exp = to_uint64 exp })

  -- The three steps, on the parts of the token; `none` is `std::nullopt`.
  check_parts : Text → Text → Text → ℕ → Outcome (Option JwtClaims)
  unfolding header_alg read_claims
  check_parts header_b64 payload_b64 sig_b64 now = do
    alg ← header_alg header_b64
    if not (text_eq alg jwt_algo) then ok none else do
      sig ← base64url_decode c sig_b64
      if not (c.verify_message (header_b64 ++ (b'.' ∷ payload_b64)) sig) then ok none else do
        claims ← read_claims payload_b64
        if leb claims.exp now then ok none else ok (some claims)

  check_split : Option (Text × Text × Text) → ℕ → Outcome (Option JwtClaims)
  unfolding check_parts
  check_split none now = ok none
  check_split (some (h, p, s)) now = check_parts h p s now

  -- `JwtManager::verify` at the time `now`.
  unfoldable pub verify : Text → ℕ → Option JwtClaims
  unfolding check_split caught split_token
  verify token now = caught (check_split (split_token token) now)
