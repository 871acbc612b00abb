-- ===== src/Schema.antt =====
-- The database of database/sql/db.sql: its tables, and the notifications of its triggers. PostgreSQL's
-- types and its writers of JSON are the parameter `Dialect`. A row keeps the columns that a trigger or
-- a statement of the program reads. A request id is a number, since the program writes only uint64_t.
pub mod Statements
pub mod Seeding
pub mod Announcing
pub mod Storing
pub mod Refusing
use management_sensors.Prelude.{
  ℕ, ℤ, pos, Bool, true, false, Text, codes, List, [], ◌∷◌, Option, none, some,
}
use management_sensors.Json.{Value, null, boolean, int64, double, string, Members, end, member}
use management_sensors.Db.Listener.{Notification}

-- What PostgreSQL does with a text that is stored in a column, or that it writes.
pub record Dialect : Type 0 where
  -- Whether a text is a value of VARCHAR(100).
  pub varchar_100 : Text → Bool
  -- The address that a text is stored as in a column of type INET, as it is written in JSON.
  pub inet : Text → Option Text
  -- `::text` of such an address, which adds the length of the network mask.
  pub inet_text : Text → Text
  -- The bits of the double that is read back from a column of type NUMERIC(5, 2).
  pub numeric_5_2 : ℕ → Option ℕ
  -- The casts to text of a JSON and of a JSONB object.
  pub json_text : Members → Text
  pub jsonb_text : Members → Text
  -- `NOW()`, which the program stores and never reads.
  pub now : Text
  pub version : Text
  pub uptime : Text
  pub pqxx_version : Text
  pub backend_pid : ℤ

-- sensor_certs
pub record CertRow : Type 0 where
  pub cert_id : ℤ
  pub common_name : Option Text
  pub is_revoked : Option Bool

-- sensor_config
pub record ConfigRow : Type 0 where
  pub sensor_id : ℤ
  pub hostname : Text
  pub ip_address : Text
  pub is_active : Option Bool
  pub cert_id : ℤ
  pub request_id : Option ℕ

-- sensor_config_pending
pub record PendingRow : Type 0 where
  pub request_id : ℕ
  pub sensor_id : ℤ
  pub requested_hostname : Option Text
  pub requested_ip : Text
  pub requested_is_active : Option Bool
  pub status : Text

-- sensor_config_errors
pub record ErrorRow : Type 0 where
  pub request_id : Option ℕ
  pub sensor_id : ℤ
  pub error_code : Option Text
  pub error_detail : Option Text
  pub occurred_at : Text

-- sensor_state
pub record StateRow : Type 0 where
  pub sensor_id : ℤ
  pub current_temp : Option ℕ
  pub last_update : Text

-- The tables, and the sequence of request ids, which the program creates: the last number given.
pub record Tables : Type 0 where
  pub certs : List CertRow
  pub configs : List ConfigRow
  pub pendings : List PendingRow
  pub states : List StateRow
  pub sequence : Option ℕ

-- TG_OP
pub data Operation : Type 0 where
  insertion modification deletion : Operation

abbrev pub operation_text : Operation → Text
operation_text insertion = codes "INSERT"
operation_text modification = codes "UPDATE"
operation_text deletion = codes "DELETE"

-- A column that may be NULL, in JSON.
abbrev pub nullable : {A : Type 0} → (A → Value) → Option A → Value
nullable f none = null
nullable f (some a) = f a

abbrev pub bigint : ℕ → Value
bigint n = int64 (pos n)

-- The object of `notify_config_change`, on a row that is stored and on one that is deleted.
abbrev pub config_written : Dialect → Operation → ConfigRow → Members
config_written d op row = member (codes "action") (string (operation_text op)) (
    member (codes "sensor_id") (int64 row.sensor_id) (
      member (codes "new_ip") (string (d.inet_text row.ip_address)) (
        member (codes "hostname") (string row.hostname)
          (member (codes "request_id") (nullable bigint row.request_id) end))))

abbrev pub config_deleted : ConfigRow → Members
config_deleted row = member (codes "action") (string (codes "DELETE")) (
    member (codes "sensor_id") (int64 row.sensor_id) (
      member (codes "hostname") (string row.hostname)
        (member (codes "request_id") (nullable bigint row.request_id) end)))

-- The object of `notify_config_request`.
abbrev pub request_written : Operation → PendingRow → Members
request_written op row = member (codes "request_id") (bigint row.request_id) (
    member (codes "sensor_id") (int64 row.sensor_id) (
      member (codes "hostname") (nullable string row.requested_hostname) (
        member (codes "ip_address") (string row.requested_ip) (
          member (codes "is_active") (nullable boolean row.requested_is_active)
            (member (codes "action") (string (operation_text op)) end)))))

-- The change of a row. The old row is given for a deletion, else the new one.
pub data Change : Type 0 where
  config_change : Operation → ConfigRow → Change
  state_change : StateRow → Change
  cert_change : Operation → CertRow → Change
  request_change : Operation → PendingRow → Change
  error_change : Operation → ErrorRow → Change

module _ (d : Dialect) where
  abbrev pub notify_config_change : Operation → ConfigRow → Notification
  notify_config_change deletion row = record {
    channel = codes "config_events";
    payload = d.jsonb_text (config_deleted row);
  }
  notify_config_change op row = record {
    channel = codes "config_events";
    payload = d.jsonb_text (config_written d op row);
  }

  abbrev notify_state_change : StateRow → Notification
  notify_state_change row = record {
    channel = codes "state_events";
    payload = d.json_text (
        member (codes "sensor_id") (int64 row.sensor_id) (
          member (codes "temp") (nullable double row.current_temp)
            (member (codes "ts") (string row.last_update) end)));
  }

  -- `COALESCE(NEW.is_revoked, FALSE)`; NEW is null on a deletion.
  abbrev revoked : Operation → Option Bool → Bool
  revoked deletion b = false
  revoked op none = false
  revoked op (some b) = b

  abbrev notify_cert_change : Operation → CertRow → Notification
  notify_cert_change op row = record {
    channel = codes "cert_events";
    payload = d.json_text (
        member (codes "action") (string (operation_text op)) (
          member (codes "cert_id") (int64 row.cert_id) (
            member (codes "revoked") (boolean (revoked op row.is_revoked))
              (member (codes "cn") (nullable string row.common_name) end))));
  }

  abbrev pub notify_config_request : Operation → PendingRow → Notification
  notify_config_request op row = record {
    channel = codes "config_requested";
    payload = d.json_text (request_written op row);
  }

  -- NEW is null on a deletion.
  abbrev error_written : Operation → ErrorRow → Members
  error_written deletion row = member (codes "sensor_id") null (
      member (codes "error_code") null (
        member (codes "detail") null
          (member (codes "timestamp") null (member (codes "request_id") null end))))
  error_written op row = member (codes "sensor_id") (int64 row.sensor_id) (
      member (codes "error_code") (nullable string row.error_code) (
        member (codes "detail") (nullable string row.error_detail) (
          member (codes "timestamp") (string row.occurred_at)
            (member (codes "request_id") (nullable bigint row.request_id) end))))

  abbrev notify_config_error : Operation → ErrorRow → Notification
  notify_config_error op row = record {
    channel = codes "error_events";
    payload = d.json_text (error_written op row);
  }

  -- The notifications that the five triggers send.
  unfoldable pub notify : Change → List Notification
  notify (config_change op row) = notify_config_change op row ∷ []
  notify (state_change row) = notify_state_change row ∷ []
  notify (cert_change op row) = notify_cert_change op row ∷ []
  notify (request_change deletion row) = []
  notify (request_change op row) = notify_config_request op row ∷ []
  notify (error_change op row) = notify_config_error op row ∷ []
