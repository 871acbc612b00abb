-- ===== src/Controller.antt =====
-- controller/src/main.cpp and sensor/src/main.cpp: the bridge between the database and the sensors. A
-- broker connection of paho.mqtt.cpp is the parameter `Broker`. Log lines are left out.
pub mod Pipeline
pub mod Start
pub mod Telemetry
pub mod Running
use management_sensors.Prelude.{
  ℕ, ℤ, Bool, true, false, not, ◌||◌, Text, codes, text_eq, c_str, List, [], ◌∷◌, Outcome, ok,
  throw, ◌>>=◌, Safe, safe, fault, and_then, to_int, to_uint64, if◌then◌else◌,
}
use management_sensors.Json
use management_sensors.Json.{
  Value, Members, end, member, object, string, set, contains, as_object, as_string, as_int64,
  as_bool, as_double,
}
use management_sensors.Db.{Postgres, Connection}
use management_sensors.Db.Queries.{upsert_sensor_state, upsert_sensor_config}

abbrev pub request_config_topic : Text
request_config_topic = codes "config/requested"

abbrev pub events_config_topic : Text
events_config_topic = codes "config/events"

abbrev pub telemetry_topic : Text
telemetry_topic = codes "telemetry/state"

-- A message that `consume_message` gives.
pub record Message : Type 0 where
  pub topic : Text
  pub payload : Text

-- mqtt::async_client: `publish` takes the topic and the payload.
pub record Broker : Type 1 where
  pub State : Type 0
  pub is_connected : State → Bool
  pub publish : Text → Text → State → Outcome (Unit {0}) × State

-- The fields of the payload of a configuration event.
pub record ConfigEvent : Type 0 where
  pub sensor_id : ℤ
  pub hostname : Text
  pub ip : Text
  pub is_active : Bool
  pub request_id : ℕ

no_members : Members → Bool
no_members end = true
no_members (member k v m) = false

module _ (lib : Json.Library) where
  unfoldable pub read_config_event : Value → Outcome ConfigEvent
  read_config_event v = do
    payload ← as_object lib v
    x ← Json.at lib (codes "sensor_id") payload
    sensor_id ← as_int64 lib x
    x ← Json.at lib (codes "hostname") payload
    hostname ← as_string lib x
    x ← Json.at lib (codes "ip_address") payload
    ip ← as_string lib x
    x ← Json.at lib (codes "is_active") payload
    is_active ← as_bool lib x
    x ← Json.at lib (codes "action") payload
    action ← as_string lib x
    x ← Json.at lib (codes "request_id") payload
    request_id ← as_int64 lib x
    ok (record {
      sensor_id = to_int sensor_id;
      hostname = c_str hostname;
      ip = c_str ip;
      is_active = is_active;
      request_id = to_uint64 request_id;
    })

  unfoldable pub read_telemetry : Members → Outcome (ℤ × ℕ)
  read_telemetry obj = do
    x ← Json.at lib (codes "sensor_id") obj
    sensor_id ← as_int64 lib x
    x ← Json.at lib (codes "temp") obj
    temp ← as_double lib x
    ok (to_int sensor_id, temp)

  module _ (p : Postgres) (c : Connection) where
    open p use {State}

    store_telemetry : Outcome (ℤ × ℕ) → State → Safe (Outcome (Unit {0}) × State)
    store_telemetry (throw e) s = safe (throw e, s)
    store_telemetry (ok (sensor_id, temp)) s = safe (upsert_sensor_state p c sensor_id temp s)

    store_config : Outcome ConfigEvent → State → Safe (Outcome (Unit {0}) × State)
    store_config (throw e) s = safe (throw e, s)
    store_config (ok e) s =
        upsert_sensor_config p c e.sensor_id e.hostname e.ip e.is_active e.request_id s

    -- The handler of "config/events" in `mqtt_dispatch_table`.
    unfoldable pub on_config_event : Members → State → Safe (Outcome (Unit {0}) × State)
    unfolding store_config
    on_config_event obj s =
        if contains (codes "payload") obj
        then store_config (Json.at lib (codes "payload") obj >>= read_config_event) s
        else safe (ok tt, s)

    -- `mqtt_dispatch_table` and the branch for an unknown topic.
    unfoldable pub dispatch_message :
        Text → Outcome Members → State → Safe (Outcome (Unit {0}) × State)
    unfolding store_telemetry
    dispatch_message topic (throw e) s = safe (throw e, s)
    dispatch_message topic (ok obj) s =
        if text_eq topic telemetry_topic
        then store_telemetry (read_telemetry obj) s
        else if text_eq topic events_config_topic
        then on_config_event obj s
        else safe (ok tt, s)

    unfoldable pub on_message : Message → State → Safe (Outcome (Unit {0}) × State)
    on_message m s = dispatch_message m.topic (lib.parse m.payload >>= as_object lib) s

    unfoldable pub after_message :
        (State → Safe (Bool × State)) → Outcome (Unit {0}) × State → Safe (Bool × State)
    after_message next (ok _, s) = next s
    after_message next (throw e, s) = safe (false, s)

    -- The loop over the messages that arrive: whether the controller still consumes after them. The
    -- handler of exceptions stands outside the loop.
    unfoldable pub consume : List Message → State → Safe (Bool × State)
    unfolding after_message
    consume [] s = safe (true, s)
    consume (m ∷ ms) s = and_then (on_message m s) (after_message (consume ms))

  module _ (b : Broker) where
    open b use {State, is_connected, publish}

    -- `catch (const std::exception& e)` around a publication.
    published : Outcome (Unit {0}) × State → Outcome (Unit {0}) × State
    published (r, s) = (ok tt, s)

    forward : Bool → Members → Outcome Text → State → Outcome (Unit {0}) × State
    unfolding published
    forward has_client msg (throw e) s = (throw e, s)
    forward has_client msg (ok channel) s =
        if not has_client || not (is_connected s)
        then (ok tt, s)
        else published (publish request_config_topic (lib.serialize (object msg)) s)

    -- `on_db_event_received`; `has_client` tells whether `g_mqtt_client` is set.
    unfoldable pub on_db_event_received : Bool → Members → State → Outcome (Unit {0}) × State
    unfolding no_members forward
    on_db_event_received has_client msg s =
        if no_members msg
        then (ok tt, s)
        else forward has_client msg (Json.at lib (codes "channel") msg >>= as_string lib) s

    answer_config : Outcome Members → State → Outcome (Unit {0}) × State
    unfolding published
    answer_config (throw e) s = (ok tt, s)
    answer_config (ok obj) s = published (
        publish events_config_topic
          (lib.serialize (object (set (codes "channel") (string (codes "config_events")) obj))) s)

    -- One round of the loop of the sensor's `main`, on the payload of a message.
    unfoldable pub sensor_round : Text → State → Outcome (Unit {0}) × State
    unfolding answer_config
    sensor_round payload s = answer_config (lib.parse payload >>= as_object lib) s
