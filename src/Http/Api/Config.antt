-- ===== src/Http/Api/Config.antt =====
-- The configuration request: `config_ip` of server/src/http/QuantumSafeHttp.cpp.
use management_sensors.Prelude.{
  ℕ, ℤ, show_int, ◌≡◌, refl, sym, ap, ◌∙◌, ◌≢◌, Bool, true, false, not, ◌||◌, Text, codes, ◌++◌,
  Outcome, ok, throw, Exception, what, if◌then◌else◌,
}
use management_sensors.Dispatcher.{ResponseStatus, success}
use management_sensors.Http.{
  Request, Status, status_ok, bad_request_400, server_error_500, service_unavailable_503, Services,
}
use management_sensors.Http.Responses.{bad_request, server_error, success_text}
use management_sensors.Http.Api.{
  ConfigBody, missing_field, config_fields, read_config, request_timeout_ms, config_ip,
  config_stage, pending_stage, wait_stage, pipeline_reply, db_failure,
}

-- The run of a request that reaches its end: the body has a sensor and an address, the database makes
-- an id, `add_pending_config` returns without an exception, and the wait for the id ends with a status.
pub record Completed (s : Services) (req : Request) (w : s.State) : Type 0 where
  pub sensor_id : ℤ
  pub ip : Text
  pub request_id : ℕ
  pub made : s.State
  pub stored : s.State
  pub body_read : read_config s.json req.body ≡ ok (config_fields sensor_id ip)
  pub id_made : s.generate_request_id w ≡ (ok request_id, made)
  pub change_stored :
      s.add_pending_config sensor_id (codes "sensor-" ++ show_int sensor_id) ip true request_id made
      ≡ (ok tt, stored)

-- The status with which the wait of a completed run ends.
abbrev pub answered :
    (s : Services) (req : Request) (w : s.State) → Completed s req w → ResponseStatus
answered s req w c = (s.wait_for_response c.request_id request_timeout_ms c.stored).0

abbrev pub http_status : ResponseStatus → Status
http_status success = status_ok
http_status _ = service_unavailable_503

-- Both pointers that `config_ip` tests are set.
abbrev pub Configured : Services → Type 0
Configured s = (s.has_dispatcher ≡ true) × (s.has_db ≡ true)

both_true {ℓ} :
    {A : Type ℓ} (x y : A) {d b : Bool}
    → d ≡ true
    → b ≡ true
    → (if not d || not b then x else y) ≡ y
both_true x y {d = true} {b = true} p q = refl
both_true x y {d = true} {b = false} p q = absurd (cc)
both_true x y {d = false} p q = absurd (cc)

module _ (s : Services) (req : Request) where
  open s use {State, botan_version}

  pipeline-status :
      (sensor_id : ℤ) (id : ℕ) (r : ResponseStatus)
      → (pipeline_reply s req sensor_id id r).status ≡ http_status r
  unfolding pipeline_reply success_text
  pipeline-status sensor_id id success = refl
  pipeline-status sensor_id id _ = refl

  -- 200 comes only from a wait that ended with SUCCESS.
  pipeline-success :
      (sensor_id : ℤ) (id : ℕ) (r : ResponseStatus)
      → (pipeline_reply s req sensor_id id r).status ≡ status_ok
      → r ≡ success
  unfolding pipeline_reply
  pipeline-success sensor_id id success h = refl
  pipeline-success sensor_id id _ h = cc

  wait-success :
      (sensor_id : ℤ) (id : ℕ) (o : Outcome (Unit {0})) (w : State)
      → (wait_stage s req sensor_id id (o, w)).0.status ≡ status_ok
      → (o ≡ ok tt) × ((s.wait_for_response id request_timeout_ms w).0 ≡ success)
  unfolding wait_stage db_failure server_error
  wait-success sensor_id id (ok tt) w h = (refl, pipeline-success sensor_id id _ h)
  wait-success sensor_id id (throw e) w h = absurd (cc)

  abbrev store : ℤ → Text → ℕ → State → Outcome (Unit {0}) × State
  store sensor_id ip id w =
      s.add_pending_config sensor_id (codes "sensor-" ++ show_int sensor_id) ip true id w

  pending-success :
      (sensor_id : ℤ) (ip : Text) (o : Outcome ℕ) (w : State)
      → (pending_stage s req sensor_id ip (o, w)).0.status ≡ status_ok
      → (id : ℕ) × (o ≡ ok id)
        × ((store sensor_id ip id w).0 ≡ ok tt)
        × ((s.wait_for_response id request_timeout_ms (store sensor_id ip id w).1).0 ≡ success)
  unfolding pending_stage db_failure server_error
  pending-success sensor_id ip (throw e) w h = absurd (cc)
  pending-success sensor_id ip (ok id) w h =
      let (r, w') = store sensor_id ip id w in
      let (stored, told) = wait-success sensor_id id r w' h in (id, refl, stored, told)

  config-success :
      (o : Outcome ConfigBody) (w : State)
      → o ≡ read_config s.json req.body
      → (config_stage s req o w).0.status ≡ status_ok
      → (c : Completed s req w) × (answered s req w c ≡ success)
  unfolding config_stage bad_request
  config-success (throw e) w q h = absurd (cc)
  config-success (ok (missing_field t)) w q h = absurd (cc)
  config-success (ok (config_fields sensor_id ip)) w q h =
      let (r, w') = s.generate_request_id w in
      let (id, made, stored, told) = pending-success sensor_id ip r w' h in
      (
        record {
          sensor_id = sensor_id;
          ip = ip;
          request_id = id;
          made = w';
          stored = (store sensor_id ip id w').1;
          body_read = sym q;
          id_made = ap (λ x. (x, w')) made;
          change_stored = ap (λ x. (x, (store sensor_id ip id w').1)) stored;
        },
        told,
      )

  Completed-answer :
      (w : State) (c : Completed s req w)
      → config_stage s req (read_config s.json req.body) w ≡ (
        pipeline_reply s req c.sensor_id c.request_id (answered s req w c),
        (s.wait_for_response c.request_id request_timeout_ms c.stored).1,
      )
  unfolding config_stage pending_stage wait_stage
  Completed-answer w c = rw (c.body_read) (rw (c.id_made) (rw (c.change_stored)))

  Configured-stage :
      (w : State)
      → Configured s
      → config_ip s req w ≡ config_stage s req (read_config s.json req.body) w
  unfolding config_ip
  Configured-stage w h = both_true _ _ h.0 h.1

  -- What the database throws when it is to store the change is answered by 500, without a wait.
  pub config_ip-fails :
      (w : State)
      → Configured s
      → (sensor_id : ℤ) (ip : Text) (id : ℕ) (e : Exception) (made failed : State)
      → read_config s.json req.body ≡ ok (config_fields sensor_id ip)
      → s.generate_request_id w ≡ (ok id, made)
      → store sensor_id ip id made ≡ (throw e, failed)
      → ((config_ip s req w).0.status ≡ server_error_500) × ((config_ip s req w).1 ≡ failed)
  unfolding config_stage pending_stage wait_stage db_failure server_error
  config_ip-fails w h sensor_id ip id e made failed read makes throws =
      let answer : config_ip s req w ≡ (db_failure s req id (what e), failed) =
        Configured-stage w h ∙ rw read (rw makes (rw throws refl)) in
      (ap (λ x. x.0.status) answer, ap (λ x. x.1) answer)

  -- With a dispatcher and a database, a request whose body has a sensor and an address, for which the
  -- database makes an id and `add_pending_config` returns without an exception, is answered by 200 if the wait for that id ends with
  -- SUCCESS and by 503 if it ends otherwise, in the state that the wait leaves.
  pub config_ip-answers :
      (w : State)
      → Configured s
      → (c : Completed s req w)
      → ((config_ip s req w).0.status ≡ http_status (answered s req w c))
        × ((config_ip s req w).1 ≡ (s.wait_for_response c.request_id request_timeout_ms c.stored).1)
  config_ip-answers w h c =
      let e = Configured-stage w h ∙ Completed-answer w c in
      (
        ap (λ x. x.0.status) e ∙ pipeline-status c.sensor_id c.request_id (answered s req w c),
        ap (λ x. x.1) e,
      )

  -- With a dispatcher and a database, 200 is answered only to a request for whose change
  -- `add_pending_config` returned without an exception, under an id that the database made, and where the
  -- wait for that id ended with SUCCESS.
  pub config_ip-success :
      (w : State)
      → Configured s
      → (config_ip s req w).0.status ≡ status_ok
      → (c : Completed s req w) × (answered s req w c ≡ success)
  config_ip-success w h q =
      config-success (read_config s.json req.body) w refl
        (ap (λ x. x.0.status) (sym (Configured-stage w h)) ∙ q)

  rejected :
      (o : Outcome ConfigBody) (w : State)
      → ((sensor_id : ℤ) (ip : Text) → o ≢ ok (config_fields sensor_id ip))
      → ((config_stage s req o w).0.status ≡ bad_request_400) × ((config_stage s req o w).1 ≡ w)
  unfolding config_stage bad_request
  rejected (throw e) w g = (refl, refl)
  rejected (ok (missing_field t)) w g = (refl, refl)
  rejected (ok (config_fields sensor_id ip)) w g = absurd (g sensor_id ip refl)

  -- A body that is not JSON, or lacks a field, or has one of the wrong kind, is answered by 400 and
  -- changes nothing: the database and the dispatcher are not called.
  pub config_ip-rejects :
      (w : State)
      → Configured s
      → ((sensor_id : ℤ) (ip : Text)
          → read_config s.json req.body ≢ ok (config_fields sensor_id ip))
      → ((config_ip s req w).0.status ≡ bad_request_400) × ((config_ip s req w).1 ≡ w)
  config_ip-rejects w c h = rw (Configured-stage w c) (rejected (read_config s.json req.body) w h)
