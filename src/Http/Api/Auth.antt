-- ===== src/Http/Api/Auth.antt =====
-- Which requests the API lets in: `require_auth` and `handle_api_request` of
-- server/src/http/QuantumSafeHttp.cpp.
use management_sensors.Prelude.{
  ℕ, ◌≡◌, ◌≢◌, ◌↔◌, refl, ap, true, false, Text, codes, [], ◌∷◌, ◌++◌, Option, none, some,
  starts_with, starts_with-drop, drop, length, length-append, leb, arith,
}
use management_sensors.Jwt.{JwtClaims}
use management_sensors.Http.{Request, Response, unauthorized_401, Jwt, Services}
use management_sensors.Http.Responses.{unauthorized}
use management_sensors.Http.Api.{
  bearer_prefix, AuthResult, allowed, denied, require_auth, check_header, check_claims, is_login,
  handle_api_request, guarded_request,
}

-- The request carries `Bearer <token>` with a token that the configured JwtManager verifies.
abbrev pub Authenticated : Option Jwt → Request → JwtClaims → Type 0
Authenticated none req claims = ⊥
Authenticated (some j) req claims =
    (token : Text) × (req.authorization ≡ some (bearer_prefix ++ token))
    × (token ≢ [])
    × (j.verify token ≡ some claims)

check_header_sound :
    (j : Jwt) (header : Option Text) (claims : JwtClaims)
    → check_header j header ≡ allowed claims
    → (token : Text) × (header ≡ some (bearer_prefix ++ token))
      × (token ≢ [])
      × (j.verify token ≡ some claims)
unfolding check_header check_claims
check_header_sound j none claims h = absurd (cc)
check_header_sound j (some value) claims h =
    let long : leb (length value) (length bearer_prefix) ≡ false = ground arith in
    let prefixed : starts_with value bearer_prefix ≡ true = ground arith in
    let whole : value ≡ bearer_prefix ++ drop (length bearer_prefix) value =
      starts_with-drop value bearer_prefix prefixed in
    (
      drop (length bearer_prefix) value,
      ap some whole,
      λ e. absurd (
          ground (
            arith,
            long,
            ap length whole,
            length-append bearer_prefix (drop (length bearer_prefix) value),
            ap (length {A = ℕ}) e,
          )),
      ground arith,
    )

check_header_complete :
    (j : Jwt) (token : Text) (claims : JwtClaims)
    → token ≢ []
    → j.verify token ≡ some claims
    → check_header j (some (bearer_prefix ++ token)) ≡ allowed claims
unfolding check_header check_claims starts_with
check_header_complete j [] claims ne h = absurd (ne refl)
check_header_complete j (c ∷ t) claims ne h = ground arith

-- The guard lets a request in, with some claims, exactly when a JwtManager is configured and the
-- Authorization header is `Bearer ` with a token, not empty, that it verifies with these claims.
pub require_auth_iff :
    (jwt : Option Jwt) (req : Request) (claims : JwtClaims)
    → (require_auth jwt req ≡ allowed claims) ↔ Authenticated jwt req claims
unfolding require_auth
require_auth_iff none req claims = (λ h. cc, λ h. absurd h)
require_auth_iff (some j) req claims = (
  check_header_sound j req.authorization claims,
  λ h. rw h.1 (check_header_complete j h.0 claims h.2 h.3),
)

-- The response and the state after a refusal.
abbrev pub Refused : (s : Services) → s.State → Response × s.State → Type 0
Refused s w (response, w') =
    (response.status ≡ unauthorized_401)
    × (response.www_authenticate ≡ some (codes "Bearer"))
    × (w' ≡ w)

guarded-Refused :
    (s : Services) (req : Request) (w : s.State) (r : AuthResult)
    → ((claims : JwtClaims) → r ≢ allowed claims)
    → Refused s w (guarded_request s r req w)
unfolding guarded_request unauthorized
guarded-Refused s req w (denied why) h = (refl, refl, refl)
guarded-Refused s req w (allowed claims) h = absurd (h claims refl)

-- Every API request but the login that is not authenticated is refused with 401 and the Bearer
-- challenge, and changes nothing: no handler, database call or wait is reached.
pub handle_api_request-Refused :
    (s : Services) (req : Request) (w : s.State)
    → is_login req ≡ false
    → ((claims : JwtClaims) → ¬ Authenticated s.jwt req claims)
    → Refused s w (handle_api_request s req w)
unfolding handle_api_request
handle_api_request-Refused s req w other h = rw other (
    guarded-Refused s req w (require_auth s.jwt req)
      (λ claims e. h claims ((require_auth_iff s.jwt req claims).0 e)))
