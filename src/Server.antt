-- ===== src/Server.antt =====
-- The handlers of database events of server/src/main.cpp. Their state is the dispatcher's. Log lines
-- are left out.
pub mod Delivery
pub mod Wiring
pub mod Start
use management_sensors.Prelude.{
  ℕ, Bool, true, false, Text, codes, text_eq, ◌&&◌, List, [], ◌∷◌, Outcome, ok, throw, ◌>>=◌, ◌>>◌,
  Safe, safe, fault, and_then, to_uint64, to_int, if◌then◌else◌, not,
}
use management_sensors.Json
use management_sensors.Json.{Value, Members, end, member, contains, as_object, as_string, as_int64}
use management_sensors.Dispatcher.{World, ResponseStatus, success, dispatch}
use management_sensors.Db.Listener.{Callback, Callbacks, set_callback}

is_empty : Members → Bool
is_empty end = true
is_empty (member k v m) = false

returned : World → Safe (Outcome (Unit {0}) × World)
returned w = safe (ok tt, w)

-- `g_dispatcher.dispatch`, or the handler of the `try` block.
dispatch_payload : Outcome ℕ → World → Safe (Outcome (Unit {0}) × World)
unfolding returned
dispatch_payload (throw e) w = safe (ok tt, w)
dispatch_payload (ok request_id) w = and_then (dispatch request_id success w) returned

module _ (lib : Json.Library) where
  -- The reads of the payload; the request id is all that is used but for the log.
  unfoldable pub read_payload : Value → Outcome ℕ
  read_payload v = do
    payload ← as_object lib v
    x ← Json.at lib (codes "sensor_id") payload
    sensor_id ← as_int64 lib x
    x ← Json.at lib (codes "request_id") payload
    request_id ← as_int64 lib x
    x ← Json.at lib (codes "action") payload
    action ← as_string lib x
    x ← Json.at lib (codes "hostname") payload
    hostname ← as_string lib x
    x ← Json.at lib (codes "new_ip") payload
    new_ip ← as_string lib x
    ok (to_uint64 request_id)

  read_channel : Members → Outcome Text
  read_channel msg = Json.at lib (codes "channel") msg >>= as_string lib

  config_event : Members → Outcome Text → World → Safe (Outcome (Unit {0}) × World)
  unfolding dispatch_payload
  config_event msg (throw e) w = safe (throw e, w)
  config_event msg (ok channel) w =
      if contains (codes "payload") msg
      then dispatch_payload (Json.at lib (codes "payload") msg >>= read_payload) w
      else safe (ok tt, w)

  unfoldable pub on_db_config_event_received : Members → World → Safe (Outcome (Unit {0}) × World)
  unfolding is_empty config_event read_channel
  on_db_config_event_received msg w =
      if is_empty msg then safe (ok tt, w) else config_event msg (read_channel msg) w

  unfoldable pub on_db_state_event_received : Members → World → Safe (Outcome (Unit {0}) × World)
  unfolding is_empty read_channel
  on_db_state_event_received msg w =
      if is_empty msg then safe (ok tt, w) else safe (read_channel msg >>= (λ channel. ok tt), w)

  read_type : Members → Outcome (Unit {0})
  read_type msg =
      if contains (codes "type") msg
      then (Json.at lib (codes "type") msg >>= as_string lib) >>= (λ t. ok tt)
      else ok tt

  unfoldable pub on_db_error_event_received : Members → World → Safe (Outcome (Unit {0}) × World)
  unfolding is_empty read_channel read_type
  on_db_error_event_received msg w =
      if is_empty msg
      then safe (ok tt, w)
      else safe (read_channel msg >>= (λ channel. read_type msg), w)

  -- `callbacks_` after the three calls of `register_listen_async` in `main`.
  unfoldable pub server_callbacks : Callbacks World
  server_callbacks = set_callback (codes "error_events") on_db_error_event_received (
      set_callback (codes "state_events") on_db_state_event_received
        (set_callback (codes "config_events") on_db_config_event_received []))
