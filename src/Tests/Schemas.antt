-- ===== src/Tests/Schemas.antt =====
-- A small database with one sensor, of the schema in database/sql/db.sql.
use management_sensors.Prelude.{
  ◌≡◌, refl, pos, suc, true, false, codes, text_eq, [], ◌∷◌, ◌++◌, some, none, ok, throw,
  std_exception, if◌then◌else◌, leb, length, arith, c_str,
}
use management_sensors.Json
use management_sensors.Json.{Members, object, string, end, set, find}
use management_sensors.Db.{connection}
use management_sensors.Db.Queries.{init_request_id_sequence, generate_request_id}
use management_sensors.Server.Delivery.{deliveries, sections}
use management_sensors.Server.Start.{start_server, exit_code}
use management_sensors.Controller.Pipeline.{confirmed}
use management_sensors.Schema.{
  Dialect, CertRow, ConfigRow, insertion, modification, request_written, config_written,
  config_change, notify,
}
use management_sensors.Schema.Statements.{
  Database, requested, configured, postgres, find_pending, seed, max_config_id, max_pending_id,
  greater, or_zero,
}
use management_sensors.Schema.Seeding.Fresh.{
  Bounded, generate_request_id-fresh, init_request_id_sequence-repeats,
}
use management_sensors.Schema.Seeding.Empty.{out_of_bounds, start_server-empty}
use management_sensors.Schema.Announcing.{Reads, ended_request, notify-deliveries}
use management_sensors.Tests.Bridge.{channel_of}
use management_sensors.Tests.Requests.{config_body, body_json}
use management_sensors.Tests.Wired.{no_files, raw_options}

-- A dialect that takes every address, and writes two texts.
abbrev pub short_names : Dialect
short_names = record {
  varchar_100 = λ t. leb (length t) 100;
  inet = λ t. some t;
  inet_text = λ t. t ++ codes "/32";
  numeric_5_2 = λ temp. some temp;
  json_text = λ m. codes "request";
  jsonb_text = λ m. codes "config";
  now = codes "2026-01-01";
  version = codes "PostgreSQL 16";
  uptime = codes "1 day";
  pqxx_version = codes "7.9.0";
  backend_pid = pos 4711;
}

abbrev pub old_row : ConfigRow
old_row = record {
  sensor_id = pos 3;
  hostname = codes "cpu-node-03";
  ip_address = codes "192.168.1.103";
  is_active = some true;
  cert_id = pos 3;
  request_id = some 6;
}

abbrev third_cert : CertRow
third_cert = record { cert_id = pos 3; common_name = none; is_revoked = some false }

abbrev pub one_sensor : Database
one_sensor = record {
  tables = record {
    certs = third_cert ∷ [];
    configs = old_row ∷ [];
    pendings = [];
    states = [];
    sequence = some 6;
  };
  queued = [];
  sent = [];
}

abbrev no_tables : Database
no_tables = record {
  tables = record { certs = []; configs = []; pendings = []; states = []; sequence = none };
  queued = [];
  sent = [];
}

abbrev pub new_row : ConfigRow
new_row = configured (pos 3) (pos 3) (codes "sensor-3") (codes "10.0.0.3") true 7

abbrev pub written_request : Members
written_request =
    request_written insertion (requested 7 (pos 3) (codes "sensor-3") (codes "10.0.0.3") true)

abbrev pub forwarded : Members
forwarded =
    set (codes "payload") (object written_request)
      (set (codes "channel") (string (codes "config_requested")) end)

-- A JSON library that knows the texts of one request.
abbrev pub request_json : Json.Library
request_json = record {
  parse = λ t.
      if text_eq t (codes "request")
      then ok (object written_request)
      else if text_eq t (codes "config")
      then ok (object (config_written short_names modification new_row))
      else if text_eq t (codes "config_requested")
      then ok (object forwarded)
      else if text_eq t (codes "config_events")
      then ok (object (confirmed forwarded))
      else if text_eq t config_body
      then body_json.parse t
      else throw (std_exception (codes "syntax error"));
  serialize = channel_of;
  wrong_kind = codes "kind";
  no_such_key = codes "key";
}

one_sensor-seed : seed one_sensor.tables ≡ 6
unfolding seed max_config_id max_pending_id greater or_zero
one_sensor-seed = refl

generate_request_id-fresh_example :
    let id = suc (seed one_sensor.tables) in
    let (started, d₁) =
      init_request_id_sequence (postgres short_names) (connection true) one_sensor in
    (started ≡ ok tt)
    × ((generate_request_id (postgres short_names) (connection true) d₁).0 ≡ ok id)
    × Bounded (seed one_sensor.tables) one_sensor.tables
    × (find_pending id one_sensor.tables.pendings ≡ none)
unfolding seed max_config_id max_pending_id greater or_zero
generate_request_id-fresh_example =
    generate_request_id-fresh short_names (connection true) (connection true) one_sensor refl refl
      (omega arith) (omega arith)

init_request_id_sequence-repeats_example :
    let id = suc (seed one_sensor.tables) in
    let (made, d₁) = generate_request_id (postgres short_names) (connection true) one_sensor in
    let (started, d₂) = init_request_id_sequence (postgres short_names) (connection true) d₁ in
    (made ≡ ok id)
    × (started ≡ ok tt)
    × ((generate_request_id (postgres short_names) (connection true) d₂).0 ≡ ok id)
unfolding seed max_config_id max_pending_id greater or_zero
init_request_id_sequence-repeats_example =
    init_request_id_sequence-repeats short_names (connection true) (connection true) one_sensor refl
      refl refl (omega arith) (omega arith)

no_tables-seed : seed no_tables.tables ≡ 0
unfolding seed max_config_id max_pending_id greater or_zero
no_tables-seed = refl

start_server-empty_example :
    (start_server
        (postgres short_names)
        (λ e. false)
        request_json
        no_files
        raw_options
        (ok tt)
        []
        no_tables
      ≡ throw out_of_bounds)
    × (exit_code (
          start_server
            (postgres short_names)
            (λ e. false)
            request_json
            no_files
            raw_options
            (ok tt)
            []
            no_tables)
        ≡ 1)
start_server-empty_example =
    start_server-empty short_names (λ e. false) request_json no_files raw_options [] no_tables
      no_tables-seed

pub new_row-Reads :
    Reads request_json (codes "config") (config_written short_names modification new_row)
unfolding text_eq c_str
new_row-Reads = (config_written short_names modification new_row, refl, refl, λ k. refl)

notify-deliveries_example :
    deliveries request_json (notify short_names (config_change modification new_row))
    ≡ sections (ended_request (config_change modification new_row))
notify-deliveries_example =
    notify-deliveries request_json short_names (config_change modification new_row) new_row-Reads
      (omega arith)
