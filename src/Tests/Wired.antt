-- ===== src/Tests/Wired.antt =====
-- The server's parts together, on a database in memory: server/src/main.cpp, and the connections of
-- libs/db/DatabaseManager.cpp.
use management_sensors.Prelude.{
  ◌≡◌, refl, pos, codes, text_eq, [], ◌∷◌, none, some, ok, throw, true, false, if◌then◌else◌,
  to_int, to_uint64, c_str, broken_connection, arith, show_int, show_nat,
}
use management_sensors.Prelude.Map.{lookup}
use management_sensors.Json
use management_sensors.Json.{find, contains, set, as_object, as_string, as_int64}
use management_sensors.Dispatcher.{init, World}
use management_sensors.Dispatcher.Safety.{init-Inv}
use management_sensors.Db.{Postgres, insert_pending, connection, transaction, leave_transaction}
use management_sensors.Db.Queries
use management_sensors.Jwt.Keys.{KeyFiles, load_keys}
use management_sensors.Db.Listener.{Callbacks}
use management_sensors.Server.Start.{
  Options, Serving, raw_handler, start_server, register_events, choose_handler, exit_code,
}
use management_sensors.Server.Start.Readiness.{Ready, start_server-Ready}
use management_sensors.Db.Queries.{swallow_unless_sql, init_request_id_sequence, get_sanity_info}
use management_sensors.Db.Lifecycle.{DatabaseManager, connect, start_listener, disconnect, destroy}
use management_sensors.Db.Lifecycle.Closing.{disconnect-throws, ended}
use management_sensors.Http.{Services, status_ok, service_unavailable_503}
use management_sensors.Http.Api.{config_ip, read_config}
use management_sensors.Http.Api.Config.{Completed}
use management_sensors.Server.Delivery.{announces}
use management_sensors.Server.Wiring.{ServerState, server_services}
use management_sensors.Server.Wiring.Requests.{config_ip-announced}
use management_sensors.Tests.Requests.{
  config_body, body_json, config_request, one_token, index_only,
}
use management_sensors.Tests.Events.{event_json, three_events, init-no_frames}
use management_sensors.Tests.Storage.{memory, execute_in, next_number}

-- A JSON library that knows the body of the request and the payload of the event.
abbrev both_json : Json.Library
both_json = record event_json {
  parse = λ t. if text_eq t config_body then body_json.parse t else event_json.parse t;
}

abbrev wired : Services
wired =
    server_services memory (connection true) both_json (codes "Botan 3") (some one_token) none
      index_only (codes "/srv/")

abbrev before : ServerState memory
before = record { database = ([], 6); dispatcher = init; arriving = three_events }

wired-Completed : Completed wired config_request before
unfolding read_config as_object contains find Json.at as_int64 as_string text_eq set to_int c_str
    Queries.generate_request_id Queries.add_pending_config transaction leave_transaction execute_in
    next_number to_uint64 show_int show_nat
wired-Completed = record {
  sensor_id = pos 3;
  ip = codes "10.0.0.3";
  request_id = 7;
  made = record before { database = ([], 7) };
  stored = record before {
    database = (insert_pending 7 (pos 3) (codes "sensor-3") (codes "10.0.0.3") true ∷ [], 7);
  };
  body_read = refl;
  id_made = refl;
  change_stored = refl;
}

config_ip-announced_example :
    ((config_ip wired config_request before).0.status
      ≡ (if announces both_json 7 three_events then status_ok else service_unavailable_503))
    × (lookup 7 (config_ip wired config_request before).1.dispatcher.pending_requests ≡ none)
unfolding wired-Completed
config_ip-announced_example =
    config_ip-announced memory (connection true) both_json (codes "Botan 3") (some one_token) none
      index_only (codes "/srv/") config_request before wired-Completed init-Inv (omega arith)
      (init-no_frames 7)

-- A database whose connection breaks when it is closed.
abbrev breaking : Postgres
breaking = record memory { close_connection = λ s. (throw (broken_connection (codes "lost")), s) }

abbrev connected : DatabaseManager
connected = record {
  connection_listener = connection true;
  connection_queries = connection true;
  listener_thread = true;
}

disconnect-throws_example :
    ((disconnect breaking (λ e. false) connected ([], 6)).1.connection_queries ≡ connection true)
    × ((disconnect breaking (λ e. false) connected ([], 6)).0
        ≡ swallow_unless_sql (throw (broken_connection (codes "lost"))))
    × (destroy breaking (λ e. false) connected ([], 6) ≡ ended (broken_connection (codes "lost")))
disconnect-throws_example =
    disconnect-throws breaking (λ e. false) connected ([], 6) (broken_connection (codes "lost"))
      refl refl

abbrev pub no_files : KeyFiles
no_files = record {
  opens = λ path. false;
  load_key = λ path. ok false;
  subject_public_key = λ path. ok false;
}

abbrev pub raw_options : Options
raw_options = record { mode = codes "raw"; jwt_key = []; jwt_cert = [] }

abbrev events : Callbacks World × memory.State
events = register_events memory (λ e. false) both_json no_files (connection true) ([], 6)

abbrev serving : Serving memory
serving = record {
  manager = connected;
  callbacks = events.0;
  handler = raw_handler;
  database = events.1;
}

server-starts :
    start_server memory (λ e. false) both_json no_files raw_options (ok tt) [] ([], 6) ≡ ok serving
unfolding start_server choose_handler text_eq connect init_request_id_sequence get_sanity_info
    transaction leave_transaction execute_in next_number start_listener
server-starts = refl

start_server-Ready_example : Ready memory (λ e. false) both_json no_files raw_options serving
start_server-Ready_example =
    start_server-Ready memory (λ e. false) both_json no_files raw_options (ok tt) [] ([], 6) serving
      server-starts

-- Keys that cannot be read, in the mode for HTTP, and a mode that there is not, end the program with 1.
no_keys-exit :
    exit_code (
      start_server memory
        (λ e. false)
        both_json
        no_files
        (record { mode = codes "http"; jwt_key = codes "k"; jwt_cert = codes "c" })
        (ok tt)
        []
        ([], 6))
    ≡ 1
unfolding start_server choose_handler text_eq connect init_request_id_sequence get_sanity_info
    transaction leave_transaction execute_in next_number start_listener load_keys
no_keys-exit = refl
