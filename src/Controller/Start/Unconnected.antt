-- ===== src/Controller/Start/Unconnected.antt =====
-- A controller whose database cannot be reached: controller/src/main.cpp.
use management_sensors.Prelude.{
  true, ◌≡◌, refl, Text, codes, text_eq, List, ◌∷◌, some, ok, throw, Exception, fault, Bool, safe,
  ◌++◌, ◌∙◌,
}
use management_sensors.Json
use management_sensors.Json.{Value, Members, object, find, contains, as_object}
use management_sensors.Db.{Postgres, null}
use management_sensors.Db.Queries.{upsert_sensor_config}
use management_sensors.Db.Listener.{Callback}
use management_sensors.Db.Lifecycle.{new_manager, connect}
use management_sensors.Db.Lifecycle.Connecting.{connect-throws}
use management_sensors.Controller.{
  events_config_topic, Message, ConfigEvent, read_config_event, on_config_event, store_config,
  dispatch_message, on_message, consume,
}
use management_sensors.Controller.Pipeline.{consume-after}
use management_sensors.Controller.Start.{start_database, after_connect}

on_config_event-null :
    (p : Postgres) (lib : Json.Library) (msg : Members) (v : Value) (event : ConfigEvent)
    (s : p.State)
    → find (codes "payload") msg ≡ some v
    → read_config_event lib v ≡ ok event
    → on_config_event lib p null msg s ≡ fault
unfolding on_config_event contains Json.at store_config upsert_sensor_config
on_config_event-null p lib msg v event s payload read =
    rw (payload, contains, Json.at) (rw read refl)

consume-null :
    (p : Postgres) (lib : Json.Library) (m : Message) (rest : List Message) (s : p.State)
    (msg : Members) (v : Value) (event : ConfigEvent)
    → m.topic ≡ events_config_topic
    → lib.parse m.payload ≡ ok (object msg)
    → find (codes "payload") msg ≡ some v
    → read_config_event lib v ≡ ok event
    → consume lib p null (m ∷ rest) s ≡ fault
unfolding consume on_message dispatch_message as_object text_eq
consume-null p lib m rest s msg v event topic parsed payload read =
    rw topic (rw parsed (rw (on_config_event-null p lib msg v event s payload read) refl))

module _ {ℓ} {S : Type ℓ} (p : Postgres) (still_open : Exception → Bool) where
  start-null :
      (conn_str : Text) (on_event : Callback S) (e : Exception) (s : p.State)
      → (connect p still_open conn_str new_manager s).0 ≡ throw e
      → (start_database p still_open conn_str on_event s).manager.connection_queries ≡ null
  unfolding start_database after_connect
  start-null conn_str on_event e s h = rw h (connect-throws p still_open conn_str new_manager s e h)

  -- Where `connect` throws, the controller consumes messages all the same: a configuration event that it
  -- can read makes it follow a null pointer, whatever comes after it, if the messages before it leave it
  -- consuming.
  pub start_database-faults :
      (lib : Json.Library) (conn_str : Text) (on_event : Callback S) (e : Exception) (s : p.State)
      (before rest : List Message) (s' : p.State) (m : Message) (msg : Members) (v : Value)
      (event : ConfigEvent)
      → (connect p still_open conn_str new_manager s).0 ≡ throw e
      → consume lib p
          (start_database p still_open conn_str on_event s).manager.connection_queries
          before
          (start_database p still_open conn_str on_event s).database
        ≡ safe (true, s')
      → m.topic ≡ events_config_topic
      → lib.parse m.payload ≡ ok (object msg)
      → find (codes "payload") msg ≡ some v
      → read_config_event lib v ≡ ok event
      → consume lib p
          (start_database p still_open conn_str on_event s).manager.connection_queries
          (before ++ m ∷ rest)
          (start_database p still_open conn_str on_event s).database
        ≡ fault
  start_database-faults lib conn_str on_event e s before rest s' m msg v event h alive topic parsed
        payload read =
      let started = start_database p still_open conn_str on_event s in
      let nowhere = start-null conn_str on_event e s h in
      consume-after lib p started.manager.connection_queries before (m ∷ rest) started.database s'
        alive
      ∙ rw nowhere (consume-null p lib m rest s' msg v event topic parsed payload read)
