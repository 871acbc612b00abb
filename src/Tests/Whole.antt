-- ===== src/Tests/Whole.antt =====
-- One configuration request through all processes: server/src/main.cpp, controller/src/main.cpp and
-- sensor/src/main.cpp over database/sql/db.sql.
use management_sensors.Prelude.{
  ◌≡◌, refl, pos, true, false, codes, text_eq, [], ◌∷◌, ◌++◌, some, none, ok, safe, arith, c_str,
  to_int, int_eq, show_int, show_nat,
}
use management_sensors.Prelude.Map.{lookup}
use management_sensors.Prelude.Rows.{row_of}
use management_sensors.Json
use management_sensors.Json.{Members, object, find, set, contains, as_object, as_int64, as_string}
use management_sensors.Db.{connection}
use management_sensors.Dispatcher.{init}
use management_sensors.Dispatcher.Safety.{init-Inv}
use management_sensors.Http.{status_ok, server_error_500}
use management_sensors.Http.Api.{config_ip, read_config, config_fields}
use management_sensors.Server.Wiring.{ServerState, server_services}
use management_sensors.Controller.{events_config_topic, Message, consume}
use management_sensors.Controller.Pipeline.{confirmed}
use management_sensors.Schema.{insertion, modification, request_change}
use management_sensors.Schema.Statements.{Database, requested, postgres}
use management_sensors.Schema.Seeding.{with_sequence}
use management_sensors.Schema.Storing.{with_request, committed}
use management_sensors.System.Answered.{Storable, config_ip-confirmed}
use management_sensors.System.Refused.{config_ip-refused}
use management_sensors.Schema.Refusing.{unknown_sensor}
use management_sensors.System.Uncertified.{consume-uncertified}
use management_sensors.Tests.Bridge.{
  requested as asked, event_three, change, change_json, change-event,
}
use management_sensors.Tests.Requests.{config_request, one_token, index_only}
use management_sensors.Tests.Schemas.{
  short_names, old_row, new_row, one_sensor, request_json, new_row-Reads,
}

abbrev waiting : ServerState (postgres short_names)
waiting = record {
  database = one_sensor;
  dispatcher = init;
  arriving =
      (record { channel = codes "state_events"; payload = codes "config" })
      ∷ (record { channel = codes "config_events"; payload = codes "config" })
      ∷ [];
}

request-Storable :
    Storable request_json short_names config_request waiting
      (pos 3)
      (codes "10.0.0.3")
      (codes "10.0.0.3")
      6
      old_row
unfolding read_config as_object contains find Json.at as_int64 as_string text_eq set to_int c_str
    show_int show_nat row_of int_eq
request-Storable = record {
  body_read = refl;
  sequence = refl;
  bounded = (tt, (omega arith, tt));
  known = refl;
  fits = record { bigint = omega arith; varchar = refl; inet = refl };
}

config_ip-confirmed_example :
    let services =
      server_services
        (postgres short_names)
        (connection true)
        request_json
        (codes "Botan 3")
        (some one_token)
        none
        index_only
        (codes "/srv/") in
    let row = requested 7 (pos 3) (codes "sensor-" ++ show_int (pos 3)) (codes "10.0.0.3") true in
    ((config_ip services config_request waiting).0.status ≡ status_ok)
    × ((config_ip services config_request waiting).1.database
        ≡ committed short_names
            (with_request (with_sequence 7 one_sensor).tables row)
            (request_change insertion row)
            (with_sequence 7 one_sensor))
    × (lookup 7 (config_ip services config_request waiting).1.dispatcher.pending_requests ≡ none)
unfolding lookup
config_ip-confirmed_example =
    config_ip-confirmed request_json short_names (connection true) (codes "Botan 3")
      (some one_token) none index_only (codes "/srv/") refl config_request waiting (pos 3)
      (codes "10.0.0.3") (codes "10.0.0.3") 6 old_row request-Storable modification new_row
      ((record { channel = codes "state_events"; payload = codes "config" }) ∷ []) [] init-Inv
      (omega arith) (λ a f e. absurd (cc)) refl new_row-Reads refl

-- The tables without the sensor and its certificate.
abbrev no_sensor : Database
no_sensor = record {
  tables = record { certs = []; configs = []; pendings = []; states = []; sequence = some 7 };
  queued = [];
  sent = [];
}

abbrev lone_confirmation : Message
lone_confirmation = record { topic = events_config_topic; payload = codes "config_events" }

confirmed-parsed : change_json.parse (codes "config_events") ≡ ok (object (confirmed asked))
unfolding text_eq
confirmed-parsed = refl

confirmed-found : find (codes "payload") (confirmed asked) ≡ some (object change)
unfolding find set text_eq
confirmed-found = refl

consume-uncertified_example :
    (d' : Database) × (consume change_json
        (postgres short_names)
        (connection true)
        (lone_confirmation ∷ lone_confirmation ∷ [])
        no_sensor
      ≡ safe (false, d'))
    × (d'.tables ≡ no_sensor.tables)
    × (d'.sent ≡ [])
unfolding row_of
consume-uncertified_example =
    consume-uncertified change_json short_names true lone_confirmation (lone_confirmation ∷ [])
      (confirmed asked) (object change) event_three (codes "10.0.0.3") no_sensor refl
      confirmed-parsed confirmed-found change-event
      (record { bigint = omega arith; varchar = refl; inet = refl }) refl refl

-- The tables have no sensor 3.
abbrev unknown_waiting : ServerState (postgres short_names)
unknown_waiting = record { database = no_sensor; dispatcher = init; arriving = [] }

config-read :
    read_config request_json config_request.body ≡ ok (config_fields (pos 3) (codes "10.0.0.3"))
unfolding read_config as_object contains find Json.at as_int64 as_string text_eq set to_int c_str
config-read = refl

short_name : short_names.varchar_100 (codes "sensor-" ++ show_int (pos 3)) ≡ true
unfolding show_int show_nat
short_name = refl

config_ip-refused_example :
    let services =
      server_services
        (postgres short_names)
        (connection true)
        request_json
        (codes "Botan 3")
        (some one_token)
        none
        index_only
        (codes "/srv/") in
    let (answer, w') = config_ip services config_request unknown_waiting in
    (answer.status ≡ server_error_500)
    × (w'.database.tables ≡ (with_sequence 8 no_sensor).tables)
    × (w'.database.sent ≡ [])
    × (w'.dispatcher ≡ init)
unfolding row_of
config_ip-refused_example =
    config_ip-refused request_json short_names (connection true) (codes "Botan 3") (some one_token)
      none index_only (codes "/srv/") refl config_request unknown_waiting (pos 3) (codes "10.0.0.3")
      7 config-read refl (omega arith) short_name (unknown_sensor refl)
