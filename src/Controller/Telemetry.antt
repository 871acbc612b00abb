-- ===== src/Controller/Telemetry.antt =====
-- Telemetry from a sensor to the database: `run_telemetry_producer` of sensor/src/main.cpp, and its
-- handler in controller/src/main.cpp. A double is its bits.
use management_sensors.Prelude.{ℕ, ℤ, ◌≡◌, refl, to_int, text_eq, codes, Outcome, ok, safe}
use management_sensors.Json
use management_sensors.Json.{
  Members, end, set, object, int64, double, find, as_object, as_int64, as_double,
}
use management_sensors.Db.{Postgres, Connection}
use management_sensors.Db.Queries.{upsert_sensor_state}
use management_sensors.Controller.{
  telemetry_topic, Broker, read_telemetry, store_telemetry, dispatch_message, on_message, published,
}
use management_sensors.Controller.Pipeline.{ReadsBack}

-- The object that is published.
unfoldable pub telemetry : ℤ → ℕ → Members
telemetry sensor_id temp =
    set (codes "temp") (double temp) (set (codes "sensor_id") (int64 sensor_id) end)

-- One round of `run_telemetry_producer`, with the temperature that it draws; `rounded` is the
-- arithmetic of `std::round(temp * 100.0) / 100.0`.
unfoldable pub telemetry_round :
    (lib : Json.Library) (b : Broker) → (ℕ → ℕ) → ℤ → ℕ → b.State → Outcome (Unit {0}) × b.State
unfolding published
telemetry_round lib b rounded sensor_id temp t =
    published lib b
      (b.publish telemetry_topic (lib.serialize (object (telemetry sensor_id (rounded temp)))) t)

-- The temperature that a sensor publishes, rounded, is stored by the controller under the sensor's id.
pub telemetry-stored :
    (lib : Json.Library) (b : Broker) (p : Postgres) (c : Connection) (rounded : ℕ → ℕ)
    (sensor_id : ℤ) (temp : ℕ)
    → to_int sensor_id ≡ sensor_id
    → ReadsBack lib (telemetry sensor_id (rounded temp))
    → (t : b.State) (s : p.State)
    → (telemetry_round lib b rounded sensor_id temp t ≡ (
      ok tt,
      (b.publish telemetry_topic (lib.serialize (object (telemetry sensor_id (rounded temp)))) t).1,
    ))
      × (on_message lib p c
            (record {
              topic = telemetry_topic;
              payload = lib.serialize (object (telemetry sensor_id (rounded temp)));
            })
            s
          ≡ safe (upsert_sensor_state p c sensor_id (rounded temp) s))
unfolding telemetry_round published on_message dispatch_message text_eq as_object telemetry
    read_telemetry Json.at find set as_int64 as_double store_telemetry
telemetry-stored lib b p c rounded sensor_id temp int back t s = (refl, rw back (rw int refl))
