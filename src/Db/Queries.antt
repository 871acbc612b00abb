-- ===== src/Db/Queries.antt =====
-- The methods of libs/db/DatabaseManager.cpp that read and write tables, over the connection for
-- queries. Each ends in the handlers of its `try` block, in their order.

pub mod Errors
pub mod Ids
use management_sensors.Prelude.{
  ℕ, ℤ, to_uint64, Bool, true, false, not, Text, codes, ◌++◌, show_int, List, [], ◌∷◌, Option, none,
  some, Outcome, ok, throw, Exception, sql_error, broken_connection, std_exception, what, Safe,
  safe, fault, if◌then◌else◌,
}
use management_sensors.Json
use management_sensors.Json.{Value, Members, end, set, string, int64, object}
use management_sensors.Db.{
  Statement, upsert_state, upsert_config, insert_pending, create_sequence, seed_sequence,
  next_request_id, select_version, select_uptime, Cell, sql_null, sql_bigint, sql_text, Rows,
  Postgres, Connection, null, connection, is_usable, Exec, pure, raise, transaction, ◌>>=◌, ◌>>◌,
}

-- The three shapes of the handlers: what each lets through, and what it swallows.
unfoldable pub swallow_unless_sql : Outcome (Unit {0}) → Outcome (Unit {0})
swallow_unless_sql (throw (sql_error m)) = throw (sql_error m)
swallow_unless_sql _ = ok tt

unfoldable pub swallow_broken : Outcome (Unit {0}) → Outcome (Unit {0})
swallow_broken (throw (broken_connection m)) = ok tt
swallow_broken r = r

abbrev lost : Exception
lost = std_exception (codes "Database connection lost.")

-- `res[0][0].as<long long>()` on the row of a sequence.
unfoldable pub first_bigint : Rows → Outcome ℤ
first_bigint ((sql_bigint z ∷ cells) ∷ rows) = ok z
first_bigint _ = throw (std_exception (codes "conversion error"))

-- `one_row()` and the text of its first column.
first_text : Rows → Outcome Text
first_text ((sql_text t ∷ cells) ∷ []) = ok t
first_text _ = throw (std_exception (codes "unexpected rows"))

-- `res.empty() || res[0][0].is_null()`
unfoldable pub no_certificate : Rows → Bool
no_certificate [] = true
no_certificate ([] ∷ rows) = true
no_certificate ((sql_null ∷ cells) ∷ rows) = true
no_certificate _ = false

module _ (p : Postgres) where
  open p use {State, exec, commit}

  unfoldable pub lift : {A : Type 0} → Outcome A → Exec State A
  lift r s = (r, s)

  -- `DatabaseManager::upsert_sensor_state`
  unfoldable pub upsert_sensor_state : Connection → ℤ → ℕ → Exec State (Unit {0})
  unfolding swallow_unless_sql
  upsert_sensor_state c sensor_id temp s =
      if not (is_usable c)
      then (throw (std_exception (codes "DML Connection not available for telemetry.")), s)
      else let (r, s') = transaction p (exec (upsert_state sensor_id temp) >> commit) s in
        (swallow_unless_sql r, s')

  unfoldable pub require_certificate : ℤ → Rows → Exec State (Unit {0})
  require_certificate sensor_id rows =
      if no_certificate rows
      then raise (
          std_exception (
            codes "No certificate associated with sensor "
            ++ (show_int sensor_id ++ codes ". Create/associate sensor_certs first.")))
      else commit

  -- `DatabaseManager::upsert_sensor_config`; it tests no pointer before it follows one.
  unfoldable pub upsert_sensor_config :
      Connection → ℤ → Text → Text → Bool → ℕ → State → Safe (Outcome (Unit {0}) × State)
  unfolding swallow_unless_sql require_certificate
  upsert_sensor_config null sensor_id hostname ip is_active request_id s = fault
  upsert_sensor_config (connection open_now) sensor_id hostname ip is_active request_id s =
      let (r, s') =
        transaction p
          (exec (upsert_config sensor_id hostname ip is_active request_id)
            >>= require_certificate sensor_id)
          s in
      safe (swallow_unless_sql r, s')

  -- `DatabaseManager::add_pending_config`
  unfoldable pub add_pending_config :
      Connection → ℤ → Text → Text → Bool → ℕ → Exec State (Unit {0})
  unfolding swallow_broken
  add_pending_config c sensor_id hostname ip is_active request_id s =
      if not (is_usable c)
      then (throw lost, s)
      else let (r, s') =
          transaction p (exec (insert_pending request_id sensor_id hostname ip is_active) >> commit)
            s in
        (swallow_broken r, s')

  -- `DatabaseManager::init_request_id_sequence`
  unfoldable pub init_request_id_sequence : Connection → Exec State (Unit {0})
  init_request_id_sequence c s =
      if not (is_usable c)
      then (throw lost, s)
      else transaction p (exec create_sequence >> (exec seed_sequence >> commit)) s

  -- `DatabaseManager::generate_request_id`; the result is read after the commit.
  unfoldable pub generate_request_id : Connection → Exec State ℕ
  unfolding lift first_bigint
  generate_request_id c s =
      if not (is_usable c)
      then (throw lost, s)
      else (transaction p (exec next_request_id >>= (λ rows. commit >> pure rows))
            >>= (λ rows. lift (first_bigint rows) >>= (λ z. pure (to_uint64 z))))
          s

  -- The object that `get_sanity_info` has filled when its block ends, and how it ends.
  sanity_block : State → Outcome (Unit {0}) × Members × State
  unfolding first_text
  sanity_block s = after_version (exec select_version s)
    where
      after_uptime : Members → Outcome Rows × State → Outcome (Unit {0}) × Members × State
      after_uptime info (throw e, s') = (throw e, info, s')
      after_uptime info (ok rows, s') = elim (first_text rows) [
        | throw e ↦ (throw e, info, s')
        | ok t ↦ (
          ok tt,
          set (codes "pqxx_version") (string p.pqxx_version) (
              set (codes "backend_pid") (int64 (p.backend_pid s'))
                (set (codes "db_uptime") (string t) info)),
          s',
        )
      ]

      after_version : Outcome Rows × State → Outcome (Unit {0}) × Members × State
      after_version (throw e, s') = (throw e, end, s')
      after_version (ok rows, s') = elim (first_text rows) [
        | throw e ↦ (throw e, end, s')
        | ok t ↦
            after_uptime (set (codes "postgres_version") (string t) end) (exec select_uptime s')
      ]

  sanity_handlers : Outcome (Unit {0}) × Members × State → Outcome Members × State
  sanity_handlers (ok _, info, s) = (ok info, s)
  sanity_handlers (throw (std_exception m), info, s) = (ok (set (codes "error") (string m) info), s)
  sanity_handlers (throw e, info, s) = (throw e, s)

  -- `DatabaseManager::get_sanity_info`
  unfoldable pub get_sanity_info : Connection → Exec State Members
  unfolding sanity_block sanity_handlers
  get_sanity_info c s =
      if not (is_usable c)
      then (ok (set (codes "error") (string (codes "Database connection not available")) end), s)
      else sanity_handlers (sanity_block s)
