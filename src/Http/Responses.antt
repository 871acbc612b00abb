-- ===== src/Http/Responses.antt =====
-- The response constructors at the end of server/src/http/QuantumSafeHttp.cpp. The parameter is
-- Botan's version text.
use management_sensors.Prelude.{ℕ, ◌≡◌, Text, codes, ◌++◌, none, some}
use management_sensors.Http.{
  Request, Response, Status, status_ok, bad_request_400, unauthorized_401, not_found_404,
  server_error_500, Body, string_body, empty_body, file_body,
}

module _ (botan_version : Text) where
  unfoldable pub server_name : Text
  server_name = codes "Botan " ++ botan_version

  unfoldable pub unauthorized : Request → Text → Response
  unauthorized req why = record {
    status = unauthorized_401;
    version = req.version;
    server = server_name;
    content_type = codes "application/json";
    www_authenticate = some (codes "Bearer");
    keep_alive = req.keep_alive;
    body = string_body why;
  }

  -- The response that most constructors share: no `www_authenticate`, the request's `keep_alive`.
  plain : Request → Status → Text → Body → Response
  plain req status content_type body = record {
    status = status;
    version = req.version;
    server = server_name;
    content_type = content_type;
    www_authenticate = none;
    keep_alive = req.keep_alive;
    body = body;
  }

  unfoldable pub bad_request : Request → Text → Response
  unfolding plain
  bad_request req why = plain req bad_request_400 (codes "text/plain") (string_body why)

  unfoldable pub not_found : Request → Response
  unfolding plain
  not_found req = plain req not_found_404 (codes "text/plain") (string_body req.target)

  unfoldable pub server_error : Request → Text → Response
  unfolding plain
  server_error req text =
      plain req server_error_500 (codes "text/plain")
        (string_body (codes "An error occurred: " ++ text))

  unfoldable pub success_text : Request → Text → Text → Response
  unfolding plain
  success_text req body content_type = plain req status_ok content_type (string_body body)

  unfoldable pub success_head : Request → ℕ → Text → Response
  unfolding plain
  success_head req size content_type = plain req status_ok content_type (empty_body size)

  unfoldable pub success_file : Request → Text → ℕ → Text → Response
  unfolding plain
  success_file req path size content_type = plain req status_ok content_type (file_body path size)

-- The response goes back in the version of the request, and keeps the connection as it asks.
abbrev pub Echoes : Request → Response → Type 0
Echoes req r = (r.keep_alive ≡ req.keep_alive) × (r.version ≡ req.version)
