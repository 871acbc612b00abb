-- ===== src/Schema/Storing.antt =====
-- What `add_pending_config` and `upsert_sensor_config` of libs/db/DatabaseManager.cpp leave in the
-- tables of database/sql/db.sql, and what they notify.
use management_sensors.Prelude.{
  ℕ, ℤ, ◌<◌, ◌^◌, ◌≡◌, refl, ap, ◌∙◌, true, Bool, Text, codes, [], ◌∷◌, ◌++◌, Option, none, some,
  ok, throw, sql_error, lt→ltb, safe,
}
use management_sensors.Prelude.Rows.{replaced}
use management_sensors.Db.{
  insert_pending, upsert_config, sql_bigint, Connection, connection, is_usable, transaction,
  leave_transaction,
}
use management_sensors.Db.Queries.{
  add_pending_config, upsert_sensor_config, swallow_unless_sql, swallow_broken, require_certificate,
  no_certificate,
}
use management_sensors.Schema.{
  Dialect, ConfigRow, PendingRow, Tables, insertion, modification, Change, config_change,
  request_change, notify,
}
use management_sensors.Schema.Statements.{
  Database, Effect, find_config, find_cert, find_pending, requested, configured, put_config,
  put_pending, with_columns, execute, postgres, undo, kept_sequence,
}

-- The values are of the types of the columns, and the address is stored as `address`.
pub record Fits (g : Dialect) (id : ℕ) (hostname ip address : Text) : Type 0 where
  pub bigint : id < 2 ^ 63
  pub varchar : g.varchar_100 hostname ≡ true
  pub inet : g.inet ip ≡ some address

-- The tables with a request more, and with the configuration of a sensor replaced.
abbrev pub with_request : Tables → PendingRow → Tables
with_request t row = record t { pendings = t.pendings ++ row ∷ [] }

abbrev pub with_config : Tables → ConfigRow → Tables
with_config t row = record t { configs = replaced (λ r. r.sensor_id) row t.configs }

-- The database after a transaction that has changed the tables and one row of them.
abbrev pub committed : Dialect → Tables → Change → Database → Database
committed g t change d = record { tables = t; queued = []; sent = d.sent ++ notify g change }

module _ (g : Dialect) where
  pub kept-same : (s : Option ℕ) → kept_sequence g s s ≡ s
  kept-same none = refl
  kept-same (some last) = refl

  with_columns-Fits :
      (id : ℕ) (hostname ip address : Text) (put : Text → Database → Effect) (d : Database)
      → Fits g id hostname ip address
      → with_columns g id hostname ip put d ≡ put address d
  unfolding with_columns
  with_columns-Fits id hostname ip address put d f =
      rw (lt→ltb id (2 ^ 63) f.bigint, f.varchar, f.inet) refl

  module _ (id : ℕ) (sensor_id : ℤ) (hostname ip address : Text) (is_active : Bool)
      (f : Fits g id hostname ip address) where
    insert-executed :
        (d : Database) (config : ConfigRow)
        → find_pending id d.tables.pendings ≡ none
        → find_config sensor_id d.tables.configs ≡ some config
        → execute g (insert_pending id sensor_id hostname ip is_active) d ≡ (
          ok [],
          record d {
            tables = with_request d.tables (requested id sensor_id hostname address is_active);
            queued =
                d.queued
                ++ notify g
                    (request_change insertion (requested id sensor_id hostname address is_active));
          },
        )
    unfolding execute
    insert-executed d config unused known =
        with_columns-Fits id hostname ip address
          (λ a. put_pending g id sensor_id hostname a is_active) d f
        ∙ rw (put_pending, unused, put_pending, known) refl

    pub add_pending_config-stored :
        (c : Connection) (d : Database) (config : ConfigRow)
        → is_usable c ≡ true
        → find_pending id d.tables.pendings ≡ none
        → find_config sensor_id d.tables.configs ≡ some config
        → add_pending_config (postgres g) c sensor_id hostname ip is_active id d ≡ (
          ok tt,
          committed g
              (with_request d.tables (requested id sensor_id hostname address is_active))
              (request_change insertion (requested id sensor_id hostname address is_active))
              d,
        )
    unfolding add_pending_config transaction leave_transaction swallow_broken
    add_pending_config-stored c d config usable unused known =
        rw (usable, insert-executed (record d { queued = [] }) config unused known) refl

    upsert-executed :
        (d : Database) (old : ConfigRow)
        → find_config sensor_id d.tables.configs ≡ some old
        → let row = configured sensor_id old.cert_id hostname address is_active id in
          execute g (upsert_config sensor_id hostname ip is_active id) d ≡ (
            ok ((sql_bigint old.cert_id ∷ []) ∷ []),
            record d {
              tables = with_config d.tables row;
              queued = d.queued ++ notify g (config_change modification row);
            },
          )
    unfolding execute put_config
    upsert-executed d old known =
        with_columns-Fits id hostname ip address
          (λ a.
            put_config g (find_config sensor_id d.tables.configs) sensor_id hostname a is_active id)
          d f
        ∙ rw known refl

    pub upsert_sensor_config-stored :
        (d : Database) (o : Bool) (old : ConfigRow)
        → find_config sensor_id d.tables.configs ≡ some old
        → let row = configured sensor_id old.cert_id hostname address is_active id in
          upsert_sensor_config (postgres g) (connection o) sensor_id hostname ip is_active id d
          ≡ safe (ok tt, committed g (with_config d.tables row) (config_change modification row) d)
    unfolding upsert_sensor_config transaction leave_transaction swallow_unless_sql
        require_certificate no_certificate
    upsert_sensor_config-stored d o old known =
        rw (upsert-executed (record d { queued = [] }) old known) refl

    pub upsert_sensor_config-uncertified :
        (d : Database) (o : Bool)
        → find_config sensor_id d.tables.configs ≡ none
        → find_cert sensor_id d.tables.certs ≡ none
        → (d' : Database) × (upsert_sensor_config
              (postgres g)
              (connection o)
              sensor_id
              hostname
              ip
              is_active
              id
              d
            ≡ safe (throw (sql_error (codes "null value in column cert_id")), d'))
          × (d'.tables ≡ d.tables)
          × (d'.sent ≡ d.sent)
    unfolding upsert_sensor_config transaction leave_transaction swallow_unless_sql
        require_certificate no_certificate execute put_config
    upsert_sensor_config-uncertified d o unknown uncertified =
        let begun : Database = record d { queued = [] } in
        let refused : execute g (upsert_config sensor_id hostname ip is_active id) begun
            ≡ (throw (sql_error (codes "null value in column cert_id")), begun) =
          with_columns-Fits id hostname ip address
            (λ a.
              put_config g (find_config sensor_id d.tables.configs) sensor_id hostname a is_active
                id)
            begun f
          ∙ rw (unknown, put_config, uncertified) refl in
        (
          undo g d begun,
          rw refused refl,
          ap (λ s. record d.tables { sequence = s }) (kept-same d.tables.sequence),
          refl,
        )
