-- ===== src/Schema/Seeding/Empty.antt =====
-- A server whose database holds no request id yet: server/src/main.cpp on database/sql/db.sql.
use management_sensors.Prelude.{
  ◌≡◌, refl, [], true, Bool, Text, codes, ok, throw, Exception, sql_error,
}
use management_sensors.Json
use management_sensors.Jwt.Keys.{KeyFiles}
use management_sensors.Db.{Connection, connection, is_usable, transaction, leave_transaction}
use management_sensors.Db.Queries.{init_request_id_sequence}
use management_sensors.Db.Lifecycle.{connect}
use management_sensors.Server.Start.{Options, start_server, exit_code}
use management_sensors.Schema.{Dialect}
use management_sensors.Schema.Statements.{Database, seed, set_sequence, execute, postgres}
use management_sensors.Schema.Seeding.{created-ready, seed-number}

abbrev pub out_of_bounds : Exception
out_of_bounds = sql_error (codes "setval: value is out of bounds for sequence")

module _ (g : Dialect) where
  init-zero :
      (c : Connection) (d : Database)
      → is_usable c ≡ true
      → seed d.tables ≡ 0
      → (init_request_id_sequence (postgres g) c d).0 ≡ throw out_of_bounds
  unfolding init_request_id_sequence transaction leave_transaction execute set_sequence
  init-zero c d usable none_given =
      let begun : Database = record d { queued = [] } in
      let (n, e) = created-ready g begun in rw (usable, e, seed-number g n begun, none_given) refl

  -- Where no row has a request id above 0, as in new tables, the server does not come to serve: the
  -- sequence of request ids cannot be set to 0, and `main` ends with 1.
  pub start_server-empty :
      (still_open : Exception → Bool) (lib : Json.Library) (f : KeyFiles) (o : Options)
      (conn_str : Text) (d : Database)
      → seed d.tables ≡ 0
      → (start_server (postgres g) still_open lib f o (ok tt) conn_str d ≡ throw out_of_bounds)
        × (exit_code (start_server (postgres g) still_open lib f o (ok tt) conn_str d) ≡ 1)
  unfolding start_server connect
  start_server-empty still_open lib f o conn_str d none_given =
      rw (init-zero (connection true) d refl none_given) (refl, refl)
