-- ===== src/System/Refused.antt =====
-- A configuration request over HTTP that the database refuses: `handle_config_ip` of
-- server/src/http/QuantumSafeHttp.cpp on database/sql/db.sql.
use management_sensors.Prelude.{
  ℕ, ℤ, suc, ◌<◌, ◌^◌, ◌≡◌, refl, ap, ◌∙◌, true, Text, codes, ◌++◌, Option, some, ok, show_int,
}
use management_sensors.Json
use management_sensors.Db.{Connection, is_usable}
use management_sensors.Http.{Request, Services, Jwt, OpenResult, server_error_500}
use management_sensors.Http.Api.{config_ip, read_config, config_fields}
use management_sensors.Http.Api.Config.{config_ip-fails}
use management_sensors.Prelude.{sql_error}
use management_sensors.Server.Wiring.{ServerState, server_services}
use management_sensors.Schema.{Dialect}
use management_sensors.Schema.Statements.{postgres}
use management_sensors.Schema.Seeding.{with_sequence, generate_ready}
use management_sensors.Schema.Refusing.{Unstorable, add_pending_config-refused}

module _ (lib : Json.Library) (g : Dialect) (c : Connection) (version : Text) (jwt : Option Jwt)
    (details : Option (ServerState (postgres g) → Text)) (open_file : Text → OpenResult)
    (root : Text) (usable : is_usable c ≡ true) where
  abbrev services : Services
  services = server_services (postgres g) c lib version jwt details open_file root

  -- A configuration request for a sensor that has no configuration, or with a text that is no address,
  -- is answered by 500: the tables keep their rows, only the sequence has given a number, nothing is
  -- notified, and the dispatcher is as before. The sequence has a number left, and the name of the
  -- sensor fits its column.
  pub config_ip-refused :
      (req : Request) (w : ServerState (postgres g)) (sensor_id : ℤ) (ip : Text) (n : ℕ)
      → read_config lib req.body ≡ ok (config_fields sensor_id ip)
      → w.database.tables.sequence ≡ some n
      → suc n < 2 ^ 63
      → g.varchar_100 (codes "sensor-" ++ show_int sensor_id) ≡ true
      → Unstorable g sensor_id ip w.database.tables.configs
      → let (answer, w') = config_ip services req w in
        (answer.status ≡ server_error_500)
        × (w'.database.tables ≡ (with_sequence (suc n) w.database).tables)
        × (w'.database.sent ≡ w.database.sent)
        × (w'.dispatcher ≡ w.dispatcher)
  config_ip-refused req w sensor_id ip n read given small fits u =
      let made = with_sequence (suc n) w.database in
      let (m, d', refused, tables, sent) =
        add_pending_config-refused g (suc n) sensor_id (codes "sensor-" ++ show_int sensor_id) ip
          true c made usable small fits u in
      let (status, state) =
        config_ip-fails services req w (refl, refl) sensor_id ip (suc n) (sql_error m)
          (record w { database = made }) (record w { database = d' }) read
          (ap (λ x. (x.0, record w { database = x.1 }))
            (generate_ready g c w.database n usable given small))
          (ap (λ x. (x.0, record w { database = x.1 })) refused) in
      (
        status,
        ap (λ x. x.database.tables) state ∙ tables,
        ap (λ x. x.database.sent) state ∙ sent,
        ap (λ x. x.dispatcher) state,
      )
