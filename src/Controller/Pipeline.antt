-- ===== src/Controller/Pipeline.antt =====
-- The way of a configuration change from the database to a sensor and back, and what ends the
-- controller's loop: controller/src/main.cpp and sensor/src/main.cpp.
use management_sensors.Prelude.{
  ◌∙◌, ◌≡◌, ◌∙◌, refl, ap, Bool, true, false, codes, text_eq, List, [], ◌∷◌, ◌++◌, some, Outcome,
  ok, throw, Exception, ◌>>=◌, Safe, safe, fault, and_then, arith,
}
use management_sensors.Json
use management_sensors.Json.{
  Value, Members, object, string, set, find, contains, as_object, find-set,
}
use management_sensors.Db.{Postgres, Connection}
use management_sensors.Db.Queries.{upsert_sensor_config}
use management_sensors.Controller.{
  events_config_topic, Message, Broker, ConfigEvent, read_config_event, on_config_event,
  store_config, dispatch_message, on_message, after_message, consume, published, answer_config,
  sensor_round,
}

-- What the sensor makes of a change: the same members, on the channel of events.
abbrev pub confirmed : Members → Members
confirmed msg = set (codes "channel") (string (codes "config_events")) msg

-- The library reads back what it has written.
abbrev pub ReadsBack : Json.Library → Members → Type 0
ReadsBack lib m = lib.parse (lib.serialize (object m)) ≡ ok (object m)

module _ (lib : Json.Library) where
  confirmed-payload :
      (msg : Members) (v : Value)
      → find (codes "payload") msg ≡ some v
      → find (codes "payload") (confirmed msg) ≡ some v
  unfolding text_eq
  confirmed-payload msg v h =
      find-set (codes "channel") (codes "payload") (string (codes "config_events")) msg ∙ h

  pub on_config_event-stored :
      (p : Postgres) (c : Connection) (m : Members) (v : Value) (e : ConfigEvent) (s : p.State)
      → find (codes "payload") m ≡ some v
      → read_config_event lib v ≡ ok e
      → on_config_event lib p c m s
        ≡ upsert_sensor_config p c e.sensor_id e.hostname e.ip e.is_active e.request_id s
  unfolding on_config_event contains Json.at store_config
  on_config_event-stored p c m v e s h r = rw (h, contains, Json.at) (rw r refl)

  -- The sensor, on a change that the controller has forwarded, publishes its confirmation on
  -- "config/events"; and the controller, on that confirmation, stores exactly the fields of the change's
  -- payload, whatever its other members are.
  pub confirmation-stored :
      (b : Broker) (p : Postgres) (c : Connection) (msg : Members) (v : Value) (e : ConfigEvent)
      → ReadsBack lib msg
      → ReadsBack lib (confirmed msg)
      → find (codes "payload") msg ≡ some v
      → read_config_event lib v ≡ ok e
      → (t : b.State) (s : p.State)
      → let text = lib.serialize (object (confirmed msg)) in
        (sensor_round lib b (lib.serialize (object msg)) t
          ≡ (ok tt, (b.publish events_config_topic text t).1))
        × (on_message lib p c (record { topic = events_config_topic; payload = text }) s
            ≡ upsert_sensor_config p c e.sensor_id e.hostname e.ip e.is_active e.request_id s)
  unfolding sensor_round answer_config published as_object on_message dispatch_message text_eq
  confirmation-stored b p c msg v e back back' h r t s = (
    rw back refl,
    rw back' (on_config_event-stored p c (confirmed msg) v e s (confirmed-payload msg v h) r),
  )

  and_then-alive :
      (p : Postgres) (c : Connection) (x : Safe (Outcome (Unit {0}) × p.State))
      (f g : p.State → Safe (Bool × p.State)) (s' : p.State) (y : Safe (Bool × p.State))
      → and_then x (after_message lib p c f) ≡ safe (true, s')
      → ((a : p.State) → f a ≡ safe (true, s') → g a ≡ y)
      → and_then x (after_message lib p c g) ≡ y
  unfolding after_message
  and_then-alive p c (safe (ok u, a)) f g s' y h k = k a h
  and_then-alive p c (safe (throw e, a)) f g s' y h k = absurd (cc)
  and_then-alive p c fault f g s' y h k = absurd (cc)

  -- After messages that leave the controller consuming, it goes on with the next ones.
  pub consume-after :
      (p : Postgres) (c : Connection) (before rest : List Message) (s s' : p.State)
      → consume lib p c before s ≡ safe (true, s')
      → consume lib p c (before ++ rest) s ≡ consume lib p c rest s'
  unfolding consume
  consume-after p c [] rest s s' alive =
      let same : s ≡ s' = ground (arith, alive) in ap (consume lib p c rest) same
  consume-after p c (m ∷ before) rest s s' alive =
      and_then-alive p c (on_message lib p c m s) (consume lib p c before)
        (consume lib p c (before ++ rest)) s' (consume lib p c rest s') alive
        (λ a h. consume-after p c before rest a s' h)

  -- Wherever it comes among the messages, one that is not a JSON object ends the controller's loop: the
  -- messages after it are not looked at.
  pub consume-stops :
      (p : Postgres) (c : Connection) (before after : List Message) (m : Message) (x : Exception)
      (s s' : p.State)
      → consume lib p c before s ≡ safe (true, s')
      → (lib.parse m.payload >>= as_object lib) ≡ throw x
      → consume lib p c (before ++ m ∷ after) s ≡ safe (false, s')
  unfolding consume on_message dispatch_message after_message
  consume-stops p c before after m x s s' alive bad =
      consume-after p c before (m ∷ after) s s' alive ∙ rw bad refl
