-- ===== src/Schema/Announcing.antt =====
-- What the server makes of the notifications of database/sql/db.sql: `on_db_config_event_received` of
-- server/src/main.cpp on the payload that a trigger has written.
use management_sensors.Prelude.{
  ℕ, ℤ, ◌<◌, ◌^◌, ◌≡◌, refl, ap, ◌∙◌, Text, codes, text_eq, c_str, [], ◌∷◌, append-nil, Option,
  none, some, Outcome, ok, throw, std_exception, ◌>>=◌, to_uint64, to_uint64_of_lt,
}
use management_sensors.Json
use management_sensors.Json.{
  at-same, Value, int64, string, Members, object, find, as_object, as_int64, as_string,
}
use management_sensors.Db.Listener.{Notification, payload_value}
use management_sensors.Server.{read_payload}
use management_sensors.Server.Delivery.{some_ok, announced, deliveries, sections}
use management_sensors.Schema.{
  Dialect, operation_text, ConfigRow, Operation, insertion, modification, deletion, nullable,
  bigint, config_written, config_deleted, notify_config_change, Change, config_change, state_change,
  cert_change, request_change, error_change, notify,
}

-- The library reads a text as an object with these members, in some order.
abbrev pub Reads : Json.Library → Text → Members → Type 0
Reads lib text m =
    (m' : Members) × (c_str text ≡ text)
    × (lib.parse text ≡ ok (object m'))
    × ((k : Text) → find k m' ≡ find k m)

-- The request that a change of the tables ends: a configuration that is stored, not deleted, for one.
unfoldable pub ended_request : Change → Option ℕ
ended_request (config_change deletion row) = none
ended_request (config_change op row) = row.request_id
ended_request other = none

-- The id, if there is one, is a value of BIGINT.
abbrev pub Bigint : Option ℕ → Type 0
Bigint none = Unit
Bigint (some id) = id < 2 ^ 63

module _ (lib : Json.Library) (g : Dialect) where
  -- The text of the payload that `notify_config_change` writes can be read.
  abbrev pub ConfigReads : Change → Type 0
  ConfigReads (config_change deletion row) =
      Reads lib (g.jsonb_text (config_deleted row)) (config_deleted row)
  ConfigReads (config_change op row) =
      Reads lib (g.jsonb_text (config_written g op row)) (config_written g op row)
  ConfigReads other = Unit

  -- A change whose request id, where it has one, is a value of BIGINT.
  abbrev pub ConfigBigint : Change → Type 0
  ConfigBigint (config_change op row) = Bigint row.request_id
  ConfigBigint other = Unit

  -- What the reads of a payload make of the value of its request id.
  id_of : Option ℕ → Outcome ℕ
  id_of id = as_int64 lib (nullable bigint id) >>= (λ z. ok (to_uint64 z))

  id_of-Bigint : (id : Option ℕ) → Bigint id → some_ok (id_of id) ≡ id
  unfolding id_of as_int64
  id_of-Bigint none small = refl
  id_of-Bigint (some id) small = ap some (to_uint64_of_lt id small)

  read-values :
      (m : Members) (id : Option ℕ) (z : ℤ) (action hostname ip : Text)
      → Json.at lib (codes "sensor_id") m ≡ ok (int64 z)
      → Json.at lib (codes "request_id") m ≡ ok (nullable bigint id)
      → Json.at lib (codes "action") m ≡ ok (string action)
      → Json.at lib (codes "hostname") m ≡ ok (string hostname)
      → Json.at lib (codes "new_ip") m ≡ ok (string ip)
      → read_payload lib (object m) ≡ id_of id
  unfolding read_payload as_object as_string as_int64 id_of
  read-values m none z action hostname ip e₁ e₂ e₃ e₄ e₅ = rw (e₁, e₂) refl
  read-values m (some id) z action hostname ip e₁ e₂ e₃ e₄ e₅ = rw (e₁, e₂, e₃, e₄, e₅) refl

  read-written :
      (op : Operation) (row : ConfigRow) (m' : Members)
      → ((k : Text) → find k m' ≡ find k (config_written g op row))
      → read_payload lib (object m') ≡ id_of row.request_id
  unfolding find text_eq Json.at
  read-written op row m' same =
      let m = config_written g op row in
      let at : (k : Text) → Json.at lib k m' ≡ Json.at lib k m = λ k. at-same lib k m m' (same k) in
      read-values m' row.request_id row.sensor_id (operation_text op) row.hostname
        (g.inet_text row.ip_address) (at (codes "sensor_id")) (at (codes "request_id"))
        (at (codes "action")) (at (codes "hostname")) (at (codes "new_ip"))

  -- A read of a payload without an address throws, whatever else it has.
  read-without :
      (x : Value)
      → (m : Members) (z : ℤ) (action hostname : Text)
      → Json.at lib (codes "sensor_id") m ≡ ok (int64 z)
      → Json.at lib (codes "request_id") m ≡ ok x
      → Json.at lib (codes "action") m ≡ ok (string action)
      → Json.at lib (codes "hostname") m ≡ ok (string hostname)
      → Json.at lib (codes "new_ip") m ≡ throw (std_exception lib.no_such_key)
      → some_ok (read_payload lib (object m)) ≡ none
  unfolding read_payload as_object as_string as_int64
  read-without (int64 i) m z action hostname e₁ e₂ e₃ e₄ e₅ = rw (e₁, e₂, e₃, e₄, e₅) refl
  read-without _ m z action hostname e₁ e₂ e₃ e₄ e₅ = rw (e₁, e₂) refl

  read-deleted :
      (row : ConfigRow) (m' : Members)
      → ((k : Text) → find k m' ≡ find k (config_deleted row))
      → some_ok (read_payload lib (object m')) ≡ none
  unfolding find text_eq Json.at
  read-deleted row m' same =
      let m = config_deleted row in
      let at : (k : Text) → Json.at lib k m' ≡ Json.at lib k m = λ k. at-same lib k m m' (same k) in
      read-without (nullable bigint row.request_id) m' row.sensor_id (codes "DELETE") row.hostname
        (at (codes "sensor_id")) (at (codes "request_id")) (at (codes "action"))
        (at (codes "hostname")) (at (codes "new_ip"))

  -- A text that is read as an object, on "config_events".
  announced-read :
      (text : Text) (m : Members) (r : Reads lib text m) (o : Option ℕ)
      → some_ok (read_payload lib (object r.0)) ≡ o
      → announced lib (record { channel = codes "config_events"; payload = text }) ≡ o
  unfolding text_eq payload_value
  announced-read text m (m', clean, e, same) o h = rw (clean, e) h

  pub written-announced :
      (op : Operation) (row : ConfigRow)
      → Reads lib (g.jsonb_text (config_written g op row)) (config_written g op row)
      → Bigint row.request_id
      → announced lib (record {
        channel = codes "config_events";
        payload = g.jsonb_text (config_written g op row);
      })
        ≡ row.request_id
  written-announced op row r small =
      announced-read (g.jsonb_text (config_written g op row)) (config_written g op row) r
        row.request_id
        (ap some_ok (read-written op row r.0 r.3) ∙ id_of-Bigint row.request_id small)

  deliveries-one :
      (n : Notification) (o : Option ℕ) → announced lib n ≡ o → deliveries lib (n ∷ []) ≡ sections o
  deliveries-one n o h = append-nil (sections (announced lib n)) ∙ ap sections h

  -- Of all changes of the tables, the server takes exactly the storing of a configuration for the answer
  -- to a request, and to the request whose id the row holds: a row without one, the deletion of a
  -- configuration, and every change of another table end no request. The payload, where it is one of
  -- "config_events", is read back as the object that the trigger wrote, and ids are of type BIGINT.
  pub notify-deliveries :
      (c : Change)
      → ConfigReads c
      → ConfigBigint c
      → deliveries lib (notify g c) ≡ sections (ended_request c)
  unfolding notify ended_request text_eq
  notify-deliveries (config_change insertion row) r small =
      deliveries-one (notify_config_change g insertion row) row.request_id
        (written-announced insertion row r small)
  notify-deliveries (config_change modification row) r small =
      deliveries-one (notify_config_change g modification row) row.request_id
        (written-announced modification row r small)
  notify-deliveries (config_change deletion row) r small =
      deliveries-one (notify_config_change g deletion row) none (
        announced-read (g.jsonb_text (config_deleted row)) (config_deleted row) r none
          (read-deleted row r.0 r.3))
  notify-deliveries (state_change row) r small = refl
  notify-deliveries (cert_change op row) r small = refl
  notify-deliveries (request_change insertion row) r small = refl
  notify-deliveries (request_change modification row) r small = refl
  notify-deliveries (request_change deletion row) r small = refl
  notify-deliveries (error_change op row) r small = refl
