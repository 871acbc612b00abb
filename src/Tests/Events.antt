-- ===== src/Tests/Events.antt =====
-- Notifications of the database and the requests that they announce: server/src/main.cpp.
use management_sensors.Prelude.{
  ℕ, ◌≡◌, refl, pos, to_uint64, true, Text, codes, text_eq, c_str, List, [], ◌∷◌, ok, throw,
  std_exception, safe, if◌then◌else◌,
}
use management_sensors.Prelude.Map.{lookup}
use management_sensors.Json
use management_sensors.Json.{string, int64, object, end, set, find, as_object, as_string, as_int64}
use management_sensors.Dispatcher.{World, init, run}
use management_sensors.Dispatcher.Safety.{Inv, init-Inv}
use management_sensors.Dispatcher.Delivery.{Unused}
use management_sensors.Db.Listener.{Notification, run_listener_loop, payload_value}
use management_sensors.Server.{server_callbacks, read_payload}
use management_sensors.Server.Delivery.{announces, deliveries, run_listener_loop-deliveries}

abbrev event_payload : Text
event_payload = codes "{event}"

-- A JSON library that knows one payload.
abbrev pub event_json : Json.Library
event_json = record {
  parse = λ t.
      if text_eq t event_payload
      then ok (
          object (
            set (codes "new_ip") (string (codes "10.0.0.3")) (
              set (codes "hostname") (string (codes "sensor-3")) (
                set (codes "action") (string (codes "UPDATE")) (
                  set (codes "request_id") (int64 (pos 7))
                    (set (codes "sensor_id") (int64 (pos 3)) end))))))
      else throw (std_exception (codes "syntax error"));
  serialize = λ v. codes "{}";
  wrong_kind = codes "kind";
  no_such_key = codes "key";
}

-- An error event, an event whose payload is not JSON, and one that announces request 7.
abbrev pub three_events : List Notification
three_events =
    (record { channel = codes "error_events"; payload = event_payload })
    ∷ (record { channel = codes "config_events"; payload = codes "oops" })
    ∷ (record { channel = codes "config_events"; payload = event_payload })
    ∷ []

run_listener_loop-deliveries_example :
    (w : World) × (run_listener_loop event_json (server_callbacks event_json) three_events init
      ≡ safe (true, w))
    × (run (deliveries event_json three_events) init ≡ safe w)
    × Inv w
run_listener_loop-deliveries_example =
    run_listener_loop-deliveries event_json three_events init init-Inv

pub init-no_frames : (id : ℕ) → Unused id init
unfolding lookup
init-no_frames id b f p = absurd (cc)

-- The third event announces request 7.
announces_seven : announces event_json 7 three_events ≡ true
unfolding text_eq read_payload payload_value c_str as_object as_int64 as_string Json.at find set
    to_uint64
announces_seven = refl
