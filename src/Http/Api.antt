-- ===== src/Http/Api.antt =====
-- `handle_api_request` and the handlers that it calls, of server/src/http/QuantumSafeHttp.cpp. The
-- calls on the database and the dispatcher pass the services' state on.

pub mod Auth
pub mod Echo
pub mod Config
use management_sensors.Prelude.{
  ℕ, ◌-◌, ℤ, to_int, to_int64, show_int, Bool, true, false, not, ◌&&◌, ◌||◌, Text, codes, List, [],
  ◌∷◌, ◌++◌, Option, none, some, Outcome, ok, throw, what, text_eq, starts_with, drop, length, leb,
  c_str, if◌then◌else◌, ◌>>=◌,
}
use management_sensors.Dispatcher.{ResponseStatus, pending, success, timeout, db_error, system_full}
use management_sensors.Json
use management_sensors.Json.{
  Value, Members, string, int64, object, end, set, contains, as_object, as_string, as_int64,
}
use management_sensors.Http.{
  Verb, get, head, post, other_verb, Request, Response, Status, service_unavailable_503,
  string_body, Jwt, Services,
}
use management_sensors.Http.Responses.{
  server_name, unauthorized, bad_request, not_found, server_error, success_text,
}
use management_sensors.Jwt.{JwtClaims}

-- `QuantumSafeHttp::status_to_string`
unfoldable pub status_to_string : ResponseStatus → Text
status_to_string success = codes "SUCCESS"
status_to_string timeout = codes "Request Timed Out"
status_to_string db_error = codes "Database Failure"
status_to_string system_full = codes "Maximum Pending Requests Reached"
status_to_string pending = codes "PENDING"

abbrev pub bearer_prefix : Text
bearer_prefix = codes "Bearer "

abbrev pub request_timeout_ms : ℕ
request_timeout_ms = 2000

-- The result of `require_auth`: its claims, or `out_error`.
pub data AuthResult : Type 0 where
  allowed : JwtClaims → AuthResult
  denied : Text → AuthResult

check_claims : Option JwtClaims → AuthResult
check_claims none = denied (codes "Invalid or expired token")
check_claims (some claims) = allowed claims

check_header : Jwt → Option Text → AuthResult
unfolding check_claims
check_header jwt none = denied (codes "Missing Authorization header")
check_header jwt (some value) =
    if leb (length value) (length bearer_prefix) || not (starts_with value bearer_prefix)
    then denied (codes "Authorization header must use Bearer scheme")
    else check_claims (jwt.verify (drop (length bearer_prefix) value))

-- `QuantumSafeHttp::require_auth`
unfoldable pub require_auth : Option Jwt → Request → AuthResult
unfolding check_header
require_auth none req = denied (codes "JWT authentication not configured")
require_auth (some jwt) req = check_header jwt req.authorization

-- The body of a login: its user name and password, or none if one of them is missing.
unfoldable pub read_login : Json.Library → Text → Outcome (Option (Text × Text))
read_login lib body = do
  json ← lib.parse body
  obj ← as_object lib json
  if not (contains (codes "username") obj) || not (contains (codes "password") obj)
      then ok none
      else do
        v ← Json.at lib (codes "username") obj
        username ← as_string lib v
        v ← Json.at lib (codes "password") obj
        password ← as_string lib v
        ok (some (username, password))

-- The body of a configuration request: the sensor and its address, or the answer to a missing field.
pub data ConfigBody : Type 0 where
  missing_field : Text → ConfigBody
  config_fields : ℤ → Text → ConfigBody

unfoldable pub read_config : Json.Library → Text → Outcome ConfigBody
read_config lib body = do
  json ← lib.parse body
  obj ← as_object lib json
  if not (contains (codes "sensor_id") obj)
      then ok (
          missing_field
            (codes "{\"status\":\"error\",\"message\":\"Missing required field: sensor_id\"}"))
      else if not (contains (codes "ip") obj)
      then ok (
          missing_field (codes "{\"status\":\"error\",\"message\":\"Missing required field: ip\"}"))
      else do
        v ← Json.at lib (codes "sensor_id") obj
        sensor_id ← as_int64 lib v
        v ← Json.at lib (codes "ip") obj
        ip ← as_string lib v
        ok (config_fields (to_int sensor_id) (c_str ip))

is_get : Verb → Bool
is_get get = true
is_get _ = false

is_post : Verb → Bool
is_post post = true
is_post _ = false

-- The one request that needs no token.
unfoldable pub is_login : Request → Bool
unfolding is_post
is_login req = text_eq req.target (codes "/api/auth/login") && is_post req.method

module _ (s : Services) where
  open s use {State, json, botan_version, jwt}

  login_reply : Jwt → Request → Outcome (Option (Text × Text)) → Response
  login_reply j req (throw e) =
      bad_request botan_version req
        (codes "{\"status\":\"error\",\"message\":\"Invalid JSON body\"}")
  login_reply j req (ok none) =
      bad_request botan_version req
        (codes "{\"status\":\"error\",\"message\":\"Missing username or password\"}")
  login_reply j req (ok (some (username, password))) =
      if not (text_eq username (codes "admin")) || not (text_eq password (codes "admin"))
      then unauthorized botan_version req (
          json.serialize (
            object (
              set (codes "message") (string (codes "Invalid credentials"))
                (set (codes "status") (string (codes "error")) end))))
      else success_text botan_version req
          (json.serialize (
            object (
              set (codes "expires_in") (int64 (ℤ.pos 3600)) (
                set (codes "token") (string (j.generate username (codes "admin") 3600))
                  (set (codes "status") (string (codes "success")) end)))))
          (codes "application/json")

  -- `QuantumSafeHttp::handle_login`
  unfoldable pub handle_login : Request → Response
  unfolding login_reply
  handle_login req = elim jwt [
    | none ↦ server_error botan_version req (codes "JWT authentication not configured")
    | some j ↦ login_reply j req (read_login json req.body)
  ]

  -- The answer to an exception of the database, after `request_id` has been made or is still 0.
  db_failure : Request → ℕ → Text → Response
  db_failure req request_id message = server_error botan_version req (
      json.serialize (
        object (
          set (codes "request_id") (int64 (to_int64 request_id)) (
            set (codes "message") (string (codes "Database error: " ++ message))
              (set (codes "status") (string (codes "error")) end)))))

  -- The answer once the wait is over.
  pipeline_reply : Request → ℤ → ℕ → ResponseStatus → Response
  pipeline_reply req sensor_id request_id success =
      success_text botan_version req
        (json.serialize (
          object (
            set (codes "message")
              (string (codes "Sensor " ++ (show_int sensor_id ++ codes " updated successfully")))
              (set (codes "request_id") (int64 (to_int64 request_id)) (
                set (codes "sensor_id") (int64 sensor_id)
                  (set (codes "status") (string (codes "success")) end))))))
        (codes "application/json")
  pipeline_reply req sensor_id request_id status = record {
    status = service_unavailable_503;
    version = req.version;
    server = server_name botan_version;
    content_type = codes "application/json";
    www_authenticate = none;
    keep_alive = req.keep_alive;
    body = string_body (
        json.serialize (
          object (
            set (codes "message") (string (status_to_string status)) (
              set (codes "request_id") (int64 (to_int64 request_id)) (
                set (codes "sensor_id") (int64 sensor_id)
                  (set (codes "status") (string (codes "error")) end))))));
  }

  wait_stage : Request → ℤ → ℕ → Outcome (Unit {0}) × State → Response × State
  unfolding db_failure pipeline_reply
  wait_stage req sensor_id request_id (throw e, w) = (db_failure req request_id (what e), w)
  wait_stage req sensor_id request_id (ok _, w) =
      let (status, w') = s.wait_for_response request_id request_timeout_ms w in
      (pipeline_reply req sensor_id request_id status, w')

  pending_stage : Request → ℤ → Text → Outcome ℕ × State → Response × State
  unfolding db_failure wait_stage
  pending_stage req sensor_id ip (throw e, w) = (db_failure req 0 (what e), w)
  pending_stage req sensor_id ip (ok request_id, w) =
      wait_stage req sensor_id request_id (
        s.add_pending_config sensor_id (codes "sensor-" ++ show_int sensor_id) ip true request_id w)

  config_stage : Request → Outcome ConfigBody → State → Response × State
  unfolding pending_stage
  config_stage req (throw e) w =
      (bad_request botan_version req (codes "Invalid JSON body: " ++ what e), w)
  config_stage req (ok (missing_field text)) w = (bad_request botan_version req text, w)
  config_stage req (ok (config_fields sensor_id ip)) w =
      pending_stage req sensor_id ip (s.generate_request_id w)

  -- `QuantumSafeHttp::config_ip`
  unfoldable pub config_ip : Request → State → Response × State
  unfolding config_stage
  config_ip req w =
      if not s.has_dispatcher || not s.has_db
      then (server_error botan_version req (codes "Dispatcher or database not configured"), w)
      else config_stage req (read_config json req.body) w

  details_reply : Request → State → Response
  details_reply req w = elim s.details_provider [
    | none ↦ server_error botan_version req (codes "Connection details provider is not configured")
    | some details ↦ success_text botan_version req (details w) (codes "application/json")
  ]

  -- `handle_api_request` after the login and the token.
  authorized_request : Request → State → Response × State
  unfolding details_reply is_get is_post
  authorized_request req w =
      if text_eq req.target (codes "/api/connection_details") && is_get req.method
      then (details_reply req w, w)
      else if text_eq req.target (codes "/api/config_ip") && is_post req.method
      then config_ip req w
      else (not_found botan_version req, w)

  guarded_request : AuthResult → Request → State → Response × State
  unfolding authorized_request
  guarded_request (denied why) req w = (unauthorized botan_version req why, w)
  guarded_request (allowed claims) req w = authorized_request req w

  -- `QuantumSafeHttp::handle_api_request`
  unfoldable pub handle_api_request : Request → State → Response × State
  unfolding guarded_request
  handle_api_request req w =
      if is_login req then (handle_login req, w) else guarded_request (require_auth jwt req) req w
