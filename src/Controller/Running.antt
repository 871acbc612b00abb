-- ===== src/Controller/Running.antt =====
-- The second half of `main` of controller/src/main.cpp, and `main` of sensor/src/main.cpp: the
-- connection to the broker, the subscriptions, and how the processes end.
use management_sensors.Prelude.{
  ◌≡◌, Bool, true, false, Text, List, [], ◌∷◌, Option, none, some, Outcome, ok, throw, ◌>>◌, Safe,
  safe, and_then, ◌&&◌, if◌then◌else◌,
}
use management_sensors.Json
use management_sensors.Db.{Postgres}
use management_sensors.Db.Lifecycle.{DatabaseManager}
use management_sensors.Controller.{
  request_config_topic, events_config_topic, telemetry_topic, Message, Broker, consume,
  sensor_round,
}

-- What the calls to the broker do when they are waited for; what they throw is an `mqtt::exception`.
pub record Link : Type 0 where
  pub start_consuming : Outcome (Unit {0})
  pub connect : Outcome (Unit {0})
  pub subscribe : Text → Outcome (Unit {0})

-- Where a process stands: it waits for the next message; or it waits for a thread, in `join` of the
-- database or in the destructor of the telemetry thread; or it has ended.
pub data Standing : Type 0 where
  consuming : Standing
  joining : Standing
  exited : Outcome (Unit {0}) → Standing

-- Where a controller stands that has stopped to consume: in `join`, if there is a listener thread and it
-- runs; else it has ended without an exception.
pub data Stopped (m : DatabaseManager) (running : Bool) (end : Standing) : Type 0 where
  waits : m.listener_thread ≡ true → running ≡ true → end ≡ joining → Stopped m running end
  no_thread : m.listener_thread ≡ false → end ≡ exited (ok tt) → Stopped m running end
  thread_over : running ≡ false → end ≡ exited (ok tt) → Stopped m running end

module _ (lib : Json.Library) (l : Link) where
  unfoldable pub controller_link : Outcome (Unit {0})
  controller_link =
      l.start_consuming
      >> (l.connect >> (l.subscribe events_config_topic >> l.subscribe telemetry_topic))

  -- `running` tells whether the listener thread, if there is one, is still running at the end.
  module _ (p : Postgres) (m : DatabaseManager) (running : Bool) where
    -- `DatabaseManager::join`, and the end of `main`.
    joined : Standing
    joined = if m.listener_thread && running then joining else exited (ok tt)

    after_consume : Bool × p.State → Safe (Standing × p.State)
    unfolding joined
    after_consume (true, s) = safe (consuming, s)
    after_consume (false, s) = safe (joined, s)

    consume_from : Outcome (Unit {0}) → List Message → p.State → Safe (Standing × p.State)
    unfolding after_consume
    consume_from (throw e) ms s = safe (exited (throw e), s)
    consume_from (ok _) ms s = and_then (consume lib p m.connection_queries ms s) after_consume

    -- The `try` block of the controller on the messages that arrive; an exception is exit code 1.
    unfoldable pub run_controller : List Message → p.State → Safe (Standing × p.State)
    unfolding consume_from
    run_controller ms s = consume_from controller_link ms s

  module _ (b : Broker) where
    -- The loop of the sensor: none is the null that `consume_message` gives once the connection is lost.
    unfoldable pub sensor_loop : List (Option Text) → b.State → Standing × b.State
    sensor_loop [] s = (consuming, s)
    sensor_loop (none ∷ ms) s = (joining, s)
    sensor_loop (some payload ∷ ms) s = sensor_loop ms (sensor_round lib b payload s).1

    -- The `try` block of the sensor; the telemetry thread starts before the subscription.
    unfoldable pub run_sensor : List (Option Text) → b.State → Standing × b.State
    run_sensor ms s = elim (l.start_consuming >> l.connect) [
      | throw e ↦ (exited (throw e), s)
      | ok _ ↦ elim (l.subscribe request_config_topic) [
        | throw e ↦ (joining, s)
        | ok _ ↦ sensor_loop ms s
      ]
    ]
