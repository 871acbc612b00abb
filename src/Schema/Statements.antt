-- ===== src/Schema/Statements.antt =====
-- The statements of libs/db/DatabaseManager.cpp on the tables of database/sql/db.sql, as SQL defines
-- them: a column's type and its constraints are checked, and a trigger's notification is sent with the
-- commit. The connection itself does not break.
use management_sensors.Prelude.{
  ℕ, ℤ, pos, suc, Bool, true, not, ◌&&◌, Text, codes, List, [], ◌∷◌, ◌++◌, Option, none, some,
  Outcome, ok, throw, sql_error, ltb, ◌^◌, if◌then◌else◌,
}
use management_sensors.Prelude.Rows.{row_of, replaced}
use management_sensors.Db.{
  Statement, upsert_state, upsert_config, insert_pending, create_sequence, seed_sequence,
  next_request_id, select_version, select_uptime, listen_channel, sql_bigint, sql_text, Rows,
  Postgres,
}
use management_sensors.Db.Listener.{Notification}
use management_sensors.Schema.{
  Dialect, CertRow, ConfigRow, PendingRow, StateRow, Tables, insertion, modification, Change,
  config_change, state_change, request_change, notify,
}

-- The database with the transaction that is open: the notifications that wait for its commit, and all
-- those that were sent.
pub record Database : Type 0 where
  pub tables : Tables
  pub queued : List Notification
  pub sent : List Notification

-- The row of a sensor or of a certificate, and the configuration that holds a certificate.
abbrev pub find_config : ℤ → List ConfigRow → Option ConfigRow
find_config = row_of (λ row. row.sensor_id)

abbrev pub find_cert : ℤ → List CertRow → Option CertRow
find_cert = row_of (λ row. row.cert_id)

abbrev pub find_state : ℤ → List StateRow → Option StateRow
find_state = row_of (λ row. row.sensor_id)

abbrev pub cert_owner : ℤ → List ConfigRow → Option ConfigRow
cert_owner = row_of (λ row. row.cert_id)

abbrev pub find_pending : ℕ → List PendingRow → Option PendingRow
find_pending id = row_of (λ row. pos row.request_id) (pos id)

-- The rows that the statements write.
abbrev pub requested : ℕ → ℤ → Text → Text → Bool → PendingRow
requested request_id sensor_id hostname ip is_active = record {
  request_id = request_id;
  sensor_id = sensor_id;
  requested_hostname = some hostname;
  requested_ip = ip;
  requested_is_active = some is_active;
  status = codes "PENDING";
}

abbrev pub configured : ℤ → ℤ → Text → Text → Bool → ℕ → ConfigRow
configured sensor_id cert_id hostname ip is_active request_id = record {
  sensor_id = sensor_id;
  hostname = hostname;
  ip_address = ip;
  is_active = some is_active;
  cert_id = cert_id;
  request_id = some request_id;
}

-- MAX(request_id) of each table, NULL where there is none.
unfoldable pub greater : Option ℕ → Option ℕ → Option ℕ
greater none b = b
greater a none = a
greater (some a) (some b) = some (if ltb a b then b else a)

unfoldable pub max_pending_id : List PendingRow → Option ℕ
unfolding greater
max_pending_id [] = none
max_pending_id (row ∷ rows) = greater (some row.request_id) (max_pending_id rows)

unfoldable pub max_config_id : List ConfigRow → Option ℕ
unfolding greater
max_config_id [] = none
max_config_id (row ∷ rows) = greater row.request_id (max_config_id rows)

unfoldable pub or_zero : Option ℕ → ℕ
or_zero none = 0
or_zero (some n) = n

-- COALESCE(GREATEST(…), 0)
unfoldable pub seed : Tables → ℕ
unfolding greater or_zero
seed t = or_zero (greater (max_pending_id t.pendings) (max_config_id t.configs))

abbrev pub Effect : Type 0
Effect = Outcome Rows × Database

abbrev violates : Text → Database → Effect
violates message d = (throw (sql_error message), d)

abbrev with_row : Rows → Change → Dialect → Tables → Database → Effect
with_row rows change g t d =
    (ok rows, record d { tables = t; queued = d.queued ++ notify g change })

module _ (g : Dialect) where
  unfoldable pub put_state : Option StateRow → ℤ → Option ℕ → Database → Effect
  put_state stored sensor_id none d = violates (codes "numeric field overflow") d
  put_state none sensor_id (some temp) d =
      let row : StateRow = record {
        sensor_id = sensor_id;
        current_temp = some temp;
        last_update = g.now;
      } in
      elim (find_config sensor_id d.tables.configs) [
        | none ↦ violates (codes "foreign key sensor_state_sensor_id_fkey") d
        | some config ↦
            with_row [] (state_change row) g
              (record d.tables { states = d.tables.states ++ row ∷ [] }) d
      ]
  put_state (some old) sensor_id (some temp) d =
      let row : StateRow = record {
        sensor_id = sensor_id;
        current_temp = some temp;
        last_update = g.now;
      } in
      with_row [] (state_change row) g
        (record d.tables { states = replaced (λ r. r.sensor_id) row d.tables.states }) d

  -- The part of the upsert below the types of its columns, with the configuration that the sensor has.
  unfoldable pub put_config : Option ConfigRow → ℤ → Text → Text → Bool → ℕ → Database → Effect
  put_config (some old) sensor_id hostname ip is_active request_id d =
      let row = configured sensor_id old.cert_id hostname ip is_active request_id in
      with_row ((sql_bigint old.cert_id ∷ []) ∷ []) (config_change modification row) g
        (record d.tables { configs = replaced (λ r. r.sensor_id) row d.tables.configs }) d
  put_config none sensor_id hostname ip is_active request_id d =
      elim (find_cert sensor_id d.tables.certs) [
        | none ↦ violates (codes "null value in column cert_id") d
        | some cert ↦ elim (cert_owner sensor_id d.tables.configs) [
          | some owner ↦ violates (codes "duplicate key sensor_config_cert_id_key") d
          | none ↦
              let row = configured sensor_id cert.cert_id hostname ip is_active request_id in
              with_row ((sql_bigint cert.cert_id ∷ []) ∷ []) (config_change insertion row) g
                (record d.tables { configs = d.tables.configs ++ row ∷ [] }) d
        ]
      ]

  unfoldable pub put_pending : ℕ → ℤ → Text → Text → Bool → Database → Effect
  put_pending request_id sensor_id hostname ip is_active d =
      elim (find_pending request_id d.tables.pendings) [
        | some old ↦ violates (codes "duplicate key sensor_config_pending_pkey") d
        | none ↦ elim (find_config sensor_id d.tables.configs) [
          | none ↦ violates (codes "foreign key sensor_config_pending_sensor_id_fkey") d
          | some config ↦
              let row = requested request_id sensor_id hostname ip is_active in
              with_row [] (request_change insertion row) g
                (record d.tables { pendings = d.tables.pendings ++ row ∷ [] }) d
        ]
      ]

  -- The values that two columns take, or the error of a type: BIGINT, VARCHAR(100) and INET.
  unfoldable pub with_columns : ℕ → Text → Text → (Text → Database → Effect) → Database → Effect
  with_columns request_id hostname ip put d =
      if not (ltb request_id (2 ^ 63))
      then violates (codes "value out of range for type bigint") d
      else if not (g.varchar_100 hostname)
      then violates (codes "value too long for type character varying(100)") d
      else elim (g.inet ip) [
        | none ↦ violates (codes "invalid input syntax for type inet") d
        | some address ↦ put address d
      ]

  -- setval, on a sequence with the default bounds, of which a value is at least 1.
  unfoldable pub set_sequence : ℕ → Option ℕ → Database → Effect
  set_sequence value none d = violates (codes "relation request_id_seq does not exist") d
  set_sequence value (some last) d =
      if ltb 0 value && ltb value (2 ^ 63)
      then (
        ok ((sql_bigint (pos value) ∷ []) ∷ []),
        record d { tables = record d.tables { sequence = some value } },
      )
      else violates (codes "setval: value is out of bounds for sequence") d

  unfoldable pub next_value : Option ℕ → Database → Effect
  next_value none d = violates (codes "relation request_id_seq does not exist") d
  next_value (some last) d =
      if ltb (suc last) (2 ^ 63)
      then (
        ok ((sql_bigint (pos (suc last)) ∷ []) ∷ []),
        record d { tables = record d.tables { sequence = some (suc last) } },
      )
      else violates (codes "nextval: reached maximum value of sequence") d

  unfoldable pub created : Option ℕ → Database → Effect
  created none d = (ok [], record d { tables = record d.tables { sequence = some 0 } })
  created (some last) d = (ok [], d)

  unfoldable pub execute : Statement → Database → Effect
  unfolding put_state put_config put_pending with_columns set_sequence next_value created
  execute (upsert_state sensor_id temp) d =
      put_state (find_state sensor_id d.tables.states) sensor_id (g.numeric_5_2 temp) d
  execute (upsert_config sensor_id hostname ip is_active request_id) d =
      with_columns request_id hostname ip
        (λ address.
          put_config (find_config sensor_id d.tables.configs) sensor_id hostname address is_active
            request_id)
        d
  execute (insert_pending request_id sensor_id hostname ip is_active) d =
      with_columns request_id hostname ip
        (λ address. put_pending request_id sensor_id hostname address is_active) d
  execute create_sequence d = created d.tables.sequence d
  execute seed_sequence d = set_sequence (seed d.tables) d.tables.sequence d
  execute next_request_id d = next_value d.tables.sequence d
  execute select_version d = (ok ((sql_text g.version ∷ []) ∷ []), d)
  execute select_uptime d = (ok ((sql_text g.uptime ∷ []) ∷ []), d)
  execute (listen_channel channel) d = (ok [], d)

  -- No transaction takes back what a sequence that was there before has given.
  abbrev pub kept_sequence : Option ℕ → Option ℕ → Option ℕ
  kept_sequence none after = none
  kept_sequence (some last) after = after

  abbrev pub undo : Database → Database → Database
  undo before after = record {
    tables = record before.tables {
      sequence = kept_sequence before.tables.sequence after.tables.sequence;
    };
    queued = [];
    sent = after.sent;
  }

  abbrev pub postgres : Postgres
  postgres = record {
    State = Database;
    open_connection = λ uri d. (ok true, d);
    begin = λ d. (ok tt, record d { queued = [] });
    exec = execute;
    listen = λ channel d. (ok tt, d);
    commit = λ d. (ok tt, record d { queued = []; sent = d.sent ++ d.queued });
    rollback = undo;
    close_connection = λ d. (ok tt, d);
    backend_pid = λ d. g.backend_pid;
    pqxx_version = g.pqxx_version;
  }
