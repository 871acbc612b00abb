-- ===== src/Tests/Requests.antt =====
-- Requests to the HTTP side of the server: server/src/http/QuantumSafeHttp.cpp.
use management_sensors.Prelude.{
  ℕ, ◌+◌, ◌≡◌, ◌↔◌, refl, pos, Text, codes, text_eq, find_text, starts_with, ends_with_char,
  pop_back, List, [], ◌∷◌, none, some, ok, true, false, if◌then◌else◌, to_int, c_str,
}
use management_sensors.Json
use management_sensors.Json.{
  object, end, set, string, int64, contains, as_object, as_string, as_int64, find,
}
use management_sensors.Jwt.{JwtClaims}
use management_sensors.Dispatcher.{success}
use management_sensors.Backend.{Backend}
use management_sensors.Http.{
  Request, post, get, status_ok, Jwt, Services, OpenResult, opened, no_such_file,
}
use management_sensors.Http.Responses.{success_file}
use management_sensors.Http.Static.{
  handle_request, illegal_target, file_path, path_cat, strip_slash,
}
use management_sensors.Http.Static.Paths.{Served, handle_request-Served}
use management_sensors.Http.Api.{
  read_config, require_auth, allowed, is_login, handle_api_request, config_ip,
}
use management_sensors.Http.Api.Auth.{
  Authenticated, Refused, require_auth_iff, handle_api_request-Refused,
}
use management_sensors.Http.Api.Config.{
  Completed, Configured, answered, http_status, config_ip-answers, config_ip-success,
}
use management_sensors.Http.Session.{served}

abbrev pub config_body : Text
config_body = codes "{\"sensor_id\":3,\"ip\":\"10.0.0.3\"}"

-- A JSON library that knows one body, and reads every other text as the empty object.
abbrev pub body_json : Json.Library
body_json = record {
  parse = λ t.
      if text_eq t config_body
      then ok (
          object (
            set (codes "ip") (string (codes "10.0.0.3"))
              (set (codes "sensor_id") (int64 (pos 3)) end)))
      else ok (object end);
  serialize = λ v. codes "{}";
  wrong_kind = codes "kind";
  no_such_key = codes "key";
}

abbrev admin : JwtClaims
admin = record { sub = codes "admin"; role = codes "admin"; iat = 0; exp = 3600 }

abbrev pub one_token : Jwt
one_token = record {
  verify = λ t. if text_eq t (codes "good") then some admin else none;
  generate = λ sub role ttl. codes "good";
}

-- A database that counts its ids, and a dispatcher that always has the answer.
abbrev counter : Backend
counter = record {
  State = ℕ;
  generate_request_id = λ w. (ok (w + 1), w + 1);
  add_pending_config = λ sensor_id hostname ip active id w. (ok tt, w);
  wait_for_response = λ id ms w. (success, w);
}

abbrev pub index_only : Text → OpenResult
index_only path = if text_eq path (codes "/srv/index.html") then opened 12 else no_such_file

abbrev pub services : Services
services = record {
  backend = counter;
  json = body_json;
  botan_version = codes "Botan 3";
  jwt = some one_token;
  has_dispatcher = true;
  has_db = true;
  details_provider = none;
  open_file = index_only;
  document_root = codes "/srv/";
}

abbrev pub config_request : Request
config_request = record {
  method = post;
  target = codes "/api/config_ip";
  version = 11;
  keep_alive = true;
  authorization = some (codes "Bearer good");
  body = config_body;
}

abbrev anonymous : Request
anonymous = record config_request { authorization = none }

abbrev empty_body : Request
empty_body = record config_request { body = codes "{}" }

abbrev pub index_request : Request
index_request = record {
  method = get;
  target = codes "/";
  version = 11;
  keep_alive = false;
  authorization = none;
  body = [];
}

config_request-Completed : Completed services config_request 6
unfolding read_config as_object contains find Json.at as_int64 as_string text_eq set to_int c_str
config_request-Completed = record {
  sensor_id = pos 3;
  ip = codes "10.0.0.3";
  request_id = 7;
  made = 7;
  stored = 7;
  body_read = refl;
  id_made = refl;
  change_stored = refl;
}

services-Configured : Configured services
services-Configured = (refl, refl)

config_ip-answers_example :
    ((config_ip services config_request 6).0.status
      ≡ http_status (answered services config_request 6 config_request-Completed))
    × ((config_ip services config_request 6).1 ≡ config_request-Completed.stored)
config_ip-answers_example =
    config_ip-answers services config_request 6 services-Configured config_request-Completed

config_ip-success_example :
    (c : Completed services config_request 6) × (answered services config_request 6 c ≡ success)
config_ip-success_example =
    config_ip-success services config_request 6 services-Configured config_ip-answers_example.0

require_auth_iff_example :
    (require_auth (some one_token) config_request ≡ allowed admin)
    ↔ Authenticated (some one_token) config_request admin
require_auth_iff_example = require_auth_iff (some one_token) config_request admin

anonymous-other : is_login anonymous ≡ false
unfolding is_login text_eq
anonymous-other = refl

anonymous-unauthenticated : (claims : JwtClaims) → ¬ Authenticated (some one_token) anonymous claims
anonymous-unauthenticated claims h = absurd (cc (h.1))

handle_api_request-Refused_example : Refused services 6 (handle_api_request services anonymous 6)
handle_api_request-Refused_example =
    handle_api_request-Refused services anonymous 6 anonymous-other anonymous-unauthenticated

index-served :
    (handle_request (codes "Botan 3") index_only index_request (codes "/srv/")).status ≡ status_ok
unfolding handle_request illegal_target find_text starts_with file_path path_cat strip_slash
    ends_with_char pop_back text_eq success_file
index-served = refl

handle_request-Served_example :
    Served index_only index_request
      (codes "/srv/")
      (handle_request (codes "Botan 3") index_only index_request (codes "/srv/"))
handle_request-Served_example =
    handle_request-Served (codes "Botan 3") index_only index_request (codes "/srv/") index-served

abbrev pub three_requests : List Request
three_requests = config_request ∷ index_request ∷ config_request ∷ []

-- The third request comes after one that does not keep the connection.
two_served : served three_requests ≡ config_request ∷ index_request ∷ []
two_served = refl
