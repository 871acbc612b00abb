-- ===== src/System/Confirmation.antt =====
-- A configuration request from its row in the database to the row that confirms it: the triggers of
-- database/sql/db.sql, controller/src/main.cpp and sensor/src/main.cpp.
use management_sensors.Prelude.{ℕ, ℤ, ◌≡◌, Bool, Text, c_str, some, to_int}
use management_sensors.Json
use management_sensors.Json.{Value, Members, end, find-set}
use management_sensors.Db.Listener.{Notification, parser_notify}
use management_sensors.Controller.{ConfigEvent}
use management_sensors.Controller.Pipeline.{confirmed, ReadsBack}
use management_sensors.Schema.{
  Dialect, ConfigRow, insertion, modification, request_written, notify_config_request,
  notify_config_change,
}
use management_sensors.Schema.Statements.{requested, configured}
use management_sensors.Schema.Announcing.{Reads}
use management_sensors.Schema.Storing.{Fits}

module _ (lib : Json.Library) (g : Dialect) (id : ℕ) (sensor_id : ℤ) (hostname ip address : Text)
    (is_active : Bool) where
  -- The notification of the request, and the message that the listener makes of it.
  abbrev pub request_notification : Notification
  request_notification =
      notify_config_request g insertion (requested id sensor_id hostname address is_active)

  abbrev pub request_message : Members
  request_message = parser_notify lib request_notification end

  -- What the way of the request relies on: its values are of the columns' types, and the texts that
  -- PostgreSQL and the library write are read back.
  pub record Readable : Type 0 where
    pub fits : Fits g id hostname ip address
    -- A stored address is one that can be stored, as it is written.
    pub stored_address : g.inet address ≡ some address
    pub sensor : to_int sensor_id ≡ sensor_id
    pub clean_hostname : c_str hostname ≡ hostname
    pub clean_address : c_str address ≡ address
    pub request_reads :
        Reads lib request_notification.payload
          (request_written insertion (requested id sensor_id hostname address is_active))
    pub forwarded : ReadsBack lib request_message
    pub returned : ReadsBack lib (confirmed request_message)

  module _ (r : Readable) where
    change_event : ConfigEvent
    change_event = record {
      sensor_id = sensor_id;
      hostname = hostname;
      ip = address;
      is_active = is_active;
      request_id = id;
    }

    -- The row that confirms the request, and its notification.
    module _ (old : ConfigRow) where
      abbrev pub confirming_row : ConfigRow
      confirming_row = configured sensor_id old.cert_id hostname address is_active id

      abbrev pub confirmation : Notification
      confirmation = notify_config_change g modification confirming_row
