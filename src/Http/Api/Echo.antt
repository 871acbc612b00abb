-- ===== src/Http/Api/Echo.antt =====
-- The answers of the API keep the version and the connection of the request.
use management_sensors.Prelude.{
  ℕ, ℤ, refl, Text, Option, none, some, Outcome, ok, throw, inl, inr, Option-cases, arith,
}
use management_sensors.Dispatcher.{ResponseStatus, success}
use management_sensors.Http.{Request, Services, Jwt}
use management_sensors.Http.Responses.{
  Echoes, unauthorized, bad_request, not_found, server_error, success_text,
}
use management_sensors.Http.Api.{
  AuthResult, allowed, denied, ConfigBody, missing_field, config_fields, handle_api_request,
  handle_login, login_reply, config_ip, config_stage, pending_stage, wait_stage, db_failure,
  pipeline_reply, details_reply, authorized_request, guarded_request, require_auth, read_config,
  read_login,
}

module _ (s : Services) (req : Request) where
  open s use {State}

  login-Echoes : (j : Jwt) (o : Outcome (Option (Text × Text))) → Echoes req (login_reply s j req o)
  unfolding login_reply bad_request unauthorized success_text
  login-Echoes j (throw e) = (refl, refl)
  login-Echoes j (ok none) = (refl, refl)
  login-Echoes j (ok (some (u, p))) = ground arith

  handle_login-Echoes : Echoes req (handle_login s req)
  unfolding handle_login server_error
  handle_login-Echoes = elim (Option-cases s.jwt) [
    | inl e ↦ rw (e, handle_login) (refl, refl)
    | inr (j, e) ↦ rw (e, handle_login) (login-Echoes j (read_login s.json req.body))
  ]

  pipeline-Echoes :
      (sensor_id : ℤ) (id : ℕ) (r : ResponseStatus)
      → Echoes req (pipeline_reply s req sensor_id id r)
  unfolding pipeline_reply success_text
  pipeline-Echoes sensor_id id success = (refl, refl)
  pipeline-Echoes sensor_id id _ = (refl, refl)

  wait-Echoes :
      (sensor_id : ℤ) (id : ℕ) (o : Outcome (Unit {0})) (w : State)
      → Echoes req (wait_stage s req sensor_id id (o, w)).0
  unfolding wait_stage db_failure server_error
  wait-Echoes sensor_id id (ok _) w = pipeline-Echoes sensor_id id _
  wait-Echoes sensor_id id (throw e) w = (refl, refl)

  pending-Echoes :
      (sensor_id : ℤ) (ip : Text) (o : Outcome ℕ) (w : State)
      → Echoes req (pending_stage s req sensor_id ip (o, w)).0
  unfolding pending_stage db_failure server_error
  pending-Echoes sensor_id ip (ok id) w = wait-Echoes sensor_id id _ _
  pending-Echoes sensor_id ip (throw e) w = (refl, refl)

  config-Echoes : (o : Outcome ConfigBody) (w : State) → Echoes req (config_stage s req o w).0
  unfolding config_stage bad_request
  config-Echoes (throw e) w = (refl, refl)
  config-Echoes (ok (missing_field t)) w = (refl, refl)
  config-Echoes (ok (config_fields sensor_id ip)) w = pending-Echoes sensor_id ip _ _

  config_ip-Echoes : (w : State) → Echoes req (config_ip s req w).0
  unfolding config_ip server_error
  config_ip-Echoes w = ground (arith, config-Echoes (read_config s.json req.body) w)

  details-Echoes : (w : State) → Echoes req (details_reply s req w)
  unfolding details_reply server_error success_text
  details-Echoes w = ground arith

  authorized-Echoes : (w : State) → Echoes req (authorized_request s req w).0
  unfolding authorized_request not_found
  authorized-Echoes w = ground (arith, config_ip-Echoes w, details-Echoes w)

  guarded-Echoes : (r : AuthResult) (w : State) → Echoes req (guarded_request s r req w).0
  unfolding guarded_request unauthorized
  guarded-Echoes (denied why) w = (refl, refl)
  guarded-Echoes (allowed claims) w = authorized-Echoes w

  pub handle_api_request-Echoes : (w : State) → Echoes req (handle_api_request s req w).0
  unfolding handle_api_request
  handle_api_request-Echoes w =
      ground (arith, handle_login-Echoes, guarded-Echoes (require_auth s.jwt req) w)
