-- ===== src/System/Uncertified.antt =====
-- A confirmation for a sensor that has neither a configuration nor a certificate:
-- `upsert_sensor_config` of libs/db/DatabaseManager.cpp on database/sql/db.sql, and the loop of
-- controller/src/main.cpp.
use management_sensors.Prelude.{
  ◌≡◌, refl, false, Bool, Text, codes, text_eq, List, ◌∷◌, none, some, ok, safe,
}
use management_sensors.Json
use management_sensors.Json.{Value, Members, object, find, as_object}
use management_sensors.Db.{connection}
use management_sensors.Controller.{
  events_config_topic, Message, ConfigEvent, read_config_event, dispatch_message, on_message,
  after_message, consume,
}
use management_sensors.Controller.Pipeline.{on_config_event-stored}
use management_sensors.Schema.{Dialect}
use management_sensors.Schema.Statements.{Database, find_config, find_cert, postgres}
use management_sensors.Schema.Storing.{Fits, upsert_sensor_config-uncertified}

-- A confirmation whose values fit their columns, for a sensor without a configuration, whose number no
-- certificate has, ends the controller's loop: the tables and the notifications stay as they were, and
-- the later messages are not looked at.
pub consume-uncertified :
    (lib : Json.Library) (g : Dialect) (o : Bool) (m : Message) (rest : List Message)
    (msg : Members) (v : Value) (e : ConfigEvent) (address : Text) (d : Database)
    → m.topic ≡ events_config_topic
    → lib.parse m.payload ≡ ok (object msg)
    → find (codes "payload") msg ≡ some v
    → read_config_event lib v ≡ ok e
    → Fits g e.request_id e.hostname e.ip address
    → find_config e.sensor_id d.tables.configs ≡ none
    → find_cert e.sensor_id d.tables.certs ≡ none
    → (d' : Database) × (consume lib (postgres g) (connection o) (m ∷ rest) d ≡ safe (false, d'))
      × (d'.tables ≡ d.tables)
      × (d'.sent ≡ d.sent)
unfolding consume on_message dispatch_message as_object after_message text_eq
consume-uncertified lib g o m rest msg v e address d topic parsed payload read f unknown
      uncertified =
    let (d', thrown, same, sent) =
      upsert_sensor_config-uncertified g e.request_id e.sensor_id e.hostname e.ip address
        e.is_active f d o unknown uncertified in
    (
      d',
      rw
          (
            topic,
            parsed,
            on_config_event-stored lib (postgres g) (connection o) msg v e d payload read,
            thrown,
          )
          refl,
      same,
      sent,
    )
