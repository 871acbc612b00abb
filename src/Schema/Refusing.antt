-- ===== src/Schema/Refusing.antt =====
-- The requests that `add_pending_config` of libs/db/DatabaseManager.cpp cannot store in the tables of
-- database/sql/db.sql.
use management_sensors.Prelude.{
  ℕ, ℤ, ◌<◌, ◌^◌, ◌≡◌, refl, ap, inl, inr, Bool, true, Text, codes, List, [], none, Option-cases,
  throw, sql_error, lt→ltb,
}
use management_sensors.Db.{insert_pending, Connection, is_usable, transaction, leave_transaction}
use management_sensors.Db.Queries.{add_pending_config, swallow_broken}
use management_sensors.Schema.{Dialect, ConfigRow}
use management_sensors.Schema.Statements.{
  Database, find_config, find_pending, put_pending, with_columns, execute, postgres, undo,
}
use management_sensors.Schema.Storing.{kept-same}

-- Why a request cannot be stored: its sensor has no configuration, or its address is none.
pub data Unstorable (g : Dialect) (sensor_id : ℤ) (ip : Text) (configs : List ConfigRow)
    : Type 0 where
  unknown_sensor : find_config sensor_id configs ≡ none → Unstorable g sensor_id ip configs
  no_address : g.inet ip ≡ none → Unstorable g sensor_id ip configs

module _ (g : Dialect) where
  -- A request that the columns or the references of its table refuse.
  module _ (id : ℕ) (sensor_id : ℤ) (hostname ip : Text) (is_active : Bool) where
    put_pending-unknown :
        (address : Text) (d : Database)
        → find_config sensor_id d.tables.configs ≡ none
        → (m : Text) × (put_pending g id sensor_id hostname address is_active d
            ≡ (throw (sql_error m), d))
    unfolding put_pending
    put_pending-unknown address d unknown =
        elim (Option-cases (find_pending id d.tables.pendings)) [
          | inr (old, e) ↦
              (codes "duplicate key sensor_config_pending_pkey", rw (put_pending, e) refl)
          | inl unused ↦ (
            codes "foreign key sensor_config_pending_sensor_id_fkey",
            rw (put_pending, unused, put_pending, unknown) refl,
          )
        ]

    insert-refused :
        (d : Database)
        → id < 2 ^ 63
        → g.varchar_100 hostname ≡ true
        → Unstorable g sensor_id ip d.tables.configs
        → (m : Text) × (execute g (insert_pending id sensor_id hostname ip is_active) d
            ≡ (throw (sql_error m), d))
    unfolding execute with_columns
    insert-refused d small fits (no_address e) =
        (codes "invalid input syntax for type inet", rw (lt→ltb id (2 ^ 63) small, fits, e) refl)
    insert-refused d small fits (unknown_sensor unknown) = elim (Option-cases (g.inet ip)) [
      | inl none_such ↦ (
        codes "invalid input syntax for type inet",
        rw (lt→ltb id (2 ^ 63) small, fits, none_such) refl,
      )
      | inr (address, e) ↦
          let (m, refused) = put_pending-unknown address d unknown in
          (m, rw (lt→ltb id (2 ^ 63) small, fits, e) refused)
    ]

    pub add_pending_config-refused :
        (c : Connection) (d : Database)
        → is_usable c ≡ true
        → id < 2 ^ 63
        → g.varchar_100 hostname ≡ true
        → Unstorable g sensor_id ip d.tables.configs
        → (m : Text) × (d' : Database) × (add_pending_config
              (postgres g)
              c
              sensor_id
              hostname
              ip
              is_active
              id
              d
            ≡ (throw (sql_error m), d'))
          × (d'.tables ≡ d.tables)
          × (d'.sent ≡ d.sent)
    unfolding add_pending_config transaction leave_transaction swallow_broken
    add_pending_config-refused c d usable small fits u =
        let begun : Database = record d { queued = [] } in
        let (m, refused) = insert-refused begun small fits u in
        (
          m,
          undo g d begun,
          rw (usable, refused) refl,
          ap (λ s. record d.tables { sequence = s }) (kept-same g d.tables.sequence),
          refl,
        )
