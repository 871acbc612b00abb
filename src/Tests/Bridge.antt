-- ===== src/Tests/Bridge.antt =====
-- A configuration change on its way over the broker: controller/src/main.cpp and sensor/src/main.cpp.
use management_sensors.Prelude.{
  ℕ, ◌≡◌, refl, pos, true, false, Text, codes, text_eq, [], ◌∷◌, ◌++◌, Option, some, ok, throw,
  std_exception, broken_connection, safe, fault, if◌then◌else◌, to_int, to_uint64, c_str,
}
use management_sensors.Json
use management_sensors.Json.{
  Value, Members, object, string, int64, boolean, end, set, find, as_object, as_string, as_int64,
  as_bool,
}
use management_sensors.Db.{Postgres, connection}
use management_sensors.Db.Listener.{Callback}
use management_sensors.Db.Lifecycle.{new_manager, connect}
use management_sensors.Controller.Running.{Link, controller_link, exited, run_controller}
use management_sensors.Db.Lifecycle.{DatabaseManager}
use management_sensors.Controller.Start.{start_database}
use management_sensors.Controller.Start.Unconnected.{start_database-faults}
use management_sensors.Controller.{
  events_config_topic, telemetry_topic, Message, Broker, ConfigEvent, read_config_event, on_message,
  consume, dispatch_message,
}
use management_sensors.Controller.Pipeline.{confirmed, ReadsBack}

abbrev pub change : Members
change = set (codes "request_id") (int64 (pos 7)) (
    set (codes "action") (string (codes "UPDATE")) (
      set (codes "is_active") (boolean true) (
        set (codes "ip_address") (string (codes "10.0.0.3")) (
          set (codes "hostname") (string (codes "sensor-3"))
            (set (codes "sensor_id") (int64 (pos 3)) end)))))

abbrev pub requested : Members
requested =
    set (codes "payload") (object change)
      (set (codes "channel") (string (codes "config_requested")) end)

abbrev pub text_of : Option Value → Text
text_of (some (string t)) = t
text_of _ = []

-- The text of an object is its channel.
unfoldable pub channel_of : Value → Text
channel_of (object m) = text_of (find (codes "channel") m)
channel_of _ = []

-- A JSON library that knows the change before and after the sensor.
abbrev pub change_json : Json.Library
change_json = record {
  parse = λ t.
      if text_eq t (codes "config_requested")
      then ok (object requested)
      else if text_eq t (codes "config_events")
      then ok (object (confirmed requested))
      else throw (std_exception (codes "syntax error"));
  serialize = channel_of;
  wrong_kind = codes "kind";
  no_such_key = codes "key";
}

-- A broker that keeps the last text, and a database that accepts everything.
abbrev pub last_text : Broker
last_text = record {
  State = Text;
  is_connected = λ t. true;
  publish = λ topic text t. (ok tt, text);
}

abbrev silent : Postgres
silent = record {
  State = ℕ;
  open_connection = λ uri s. (ok true, s);
  begin = λ s. (ok tt, s);
  exec = λ q s. (ok [], s);
  listen = λ channel s. (ok tt, s);
  commit = λ s. (ok tt, s);
  rollback = λ before after. before;
  close_connection = λ s. (ok tt, s);
  backend_pid = λ s. pos 1;
  pqxx_version = [];
}

abbrev pub event_three : ConfigEvent
event_three = record {
  sensor_id = pos 3;
  hostname = codes "sensor-3";
  ip = codes "10.0.0.3";
  is_active = true;
  request_id = 7;
}

requested-ReadsBack : ReadsBack change_json requested
unfolding channel_of find set text_eq
requested-ReadsBack = refl

confirmed-ReadsBack : ReadsBack change_json (confirmed requested)
unfolding channel_of find set text_eq
confirmed-ReadsBack = refl

requested-payload : find (codes "payload") requested ≡ some (object change)
unfolding find set text_eq
requested-payload = refl

pub change-event : read_config_event change_json (object change) ≡ ok event_three
unfolding read_config_event as_object as_int64 as_string as_bool Json.at find set text_eq to_int
    to_uint64 c_str
change-event = refl

abbrev unknown_topic : Message
unknown_topic = record { topic = codes "other"; payload = codes "config_events" }

abbrev broken : Message
broken = record { topic = telemetry_topic; payload = codes "{" }

abbrev good_link : Link
good_link = record { start_consuming = ok tt; connect = ok tt; subscribe = λ topic. ok tt }

-- A manager that is connected and listens.
abbrev listening_manager : DatabaseManager
listening_manager = record {
  connection_listener = connection true;
  connection_queries = connection true;
  listener_thread = true;
}

-- Without a listener thread, the controller ends.
no_listener-exits :
    run_controller change_json good_link silent
      (record listening_manager { listener_thread = false })
      true
      (broken ∷ unknown_topic ∷ [])
      0
    ≡ safe (exited (ok tt), 0)
unfolding run_controller controller_link consume on_message dispatch_message as_object text_eq
no_listener-exits = refl

-- A database that cannot be reached.
abbrev unreachable : Postgres
unreachable = record silent {
  open_connection = λ uri s. (throw (broken_connection (codes "no route")), s);
}

abbrev confirmation : Message
confirmation = record { topic = events_config_topic; payload = codes "config_events" }

unreachable-throws :
    (connect unreachable (λ e. false) (codes "host=localhost") new_manager 0).0
    ≡ throw (broken_connection (codes "no route"))
unfolding connect
unreachable-throws = refl

abbrev ignore : Callback (Unit {0})
ignore msg s = safe (ok tt, s)

nowhere-alive :
    consume change_json unreachable
      (start_database unreachable
        (λ e. false)
        (codes "host=localhost")
        ignore
        0).manager.connection_queries
      (unknown_topic ∷ [])
      (start_database unreachable (λ e. false) (codes "host=localhost") ignore 0).database
    ≡ safe (true, 0)
unfolding consume on_message dispatch_message as_object text_eq start_database connect
nowhere-alive = refl

confirmation-parsed : change_json.parse (codes "config_events") ≡ ok (object (confirmed requested))
unfolding text_eq
confirmation-parsed = refl

confirmation-payload : find (codes "payload") (confirmed requested) ≡ some (object change)
unfolding find set text_eq
confirmation-payload = refl

start_database-faults_example :
    consume change_json unreachable
      (start_database unreachable
        (λ e. false)
        (codes "host=localhost")
        ignore
        0).manager.connection_queries
      ((unknown_topic ∷ []) ++ confirmation ∷ [])
      (start_database unreachable (λ e. false) (codes "host=localhost") ignore 0).database
    ≡ fault
start_database-faults_example =
    start_database-faults unreachable (λ e. false) change_json (codes "host=localhost") ignore
      (broken_connection (codes "no route")) 0 (unknown_topic ∷ []) [] 0 confirmation
      (confirmed requested) (object change) event_three unreachable-throws nowhere-alive refl
      confirmation-parsed confirmation-payload change-event
