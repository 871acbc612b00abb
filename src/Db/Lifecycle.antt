-- ===== src/Db/Lifecycle.antt =====
-- The connections of libs/db/DatabaseManager.cpp and its listener thread: `connect`, `disconnect`,
-- `run_listener_loop`, the constructor and the destructor. Log lines are left out.
pub mod Closing
pub mod Connecting
use management_sensors.Prelude.{
  ℕ, Bool, true, false, Text, Outcome, ok, throw, Exception, sql_error, if◌then◌else◌,
}
use management_sensors.Db.{Postgres, Connection, null, connection, is_usable}
use management_sensors.Db.Queries.{swallow_unless_sql}

-- The members; of `listener_thread_`, whether it is set.
pub record DatabaseManager : Type 0 where
  pub connection_listener : Connection
  pub connection_queries : Connection
  pub listener_thread : Bool

-- The constructor.
abbrev pub new_manager : DatabaseManager
new_manager = record {
  connection_listener = null;
  connection_queries = null;
  listener_thread = false;
}

-- `run_listener_loop`, up to the start of its thread: whether it starts one.
unfoldable pub start_listener : DatabaseManager → Bool × DatabaseManager
start_listener m =
    if m.listener_thread then (false, m) else (true, record m { listener_thread = true })

-- How the destructor, which may not throw, ends.
pub data Destroyed : Type 0 where
  terminated : Exception → Destroyed
  released : Destroyed

-- `still_open` tells whether a connection is open after its `close` has thrown.
module _ (p : Postgres) (still_open : Exception → Bool) where
  open p use {State, open_connection, close_connection}

  queries_opened :
      DatabaseManager → Outcome Bool × State → Outcome (Unit {0}) × DatabaseManager × State
  queries_opened m (throw e, s) = (throw e, m, s)
  queries_opened m (ok b, s) = (ok tt, record m { connection_queries = connection b }, s)

  listener_opened :
      Text → DatabaseManager → Outcome Bool × State → Outcome (Unit {0}) × DatabaseManager × State
  unfolding queries_opened
  listener_opened conn_str m (throw e, s) = (throw e, m, s)
  listener_opened conn_str m (ok b, s) =
      queries_opened (record m { connection_listener = connection b }) (open_connection conn_str s)

  -- `connect`: the handlers throw again what they have caught.
  unfoldable pub connect :
      Text → DatabaseManager → State → Outcome (Unit {0}) × DatabaseManager × State
  unfolding listener_opened
  connect conn_str m s = listener_opened conn_str m (open_connection conn_str s)

  closed : Outcome (Unit {0}) × State → Outcome (Unit {0}) × Connection × State
  closed (ok _, s) = (ok tt, connection false, s)
  closed (throw e, s) = (throw e, connection (still_open e), s)

  -- `if (c && c->is_open()) c->close();`
  unfoldable pub close_if_open : Connection → State → Outcome (Unit {0}) × Connection × State
  unfolding closed
  close_if_open c s = if is_usable c then closed (close_connection s) else (ok tt, c, s)

  listener_closed :
      DatabaseManager
      → Outcome (Unit {0}) × Connection × State
      → Outcome (Unit {0}) × DatabaseManager × State
  unfolding close_if_open
  listener_closed m (throw e, c, s) = (throw e, record m { connection_listener = c }, s)
  listener_closed m (ok _, c, s) =
      let (r, d, s') = close_if_open m.connection_queries s in
      (r, record m { connection_listener = c; connection_queries = d }, s')

  -- `disconnect`: an exception other than an `sql_error` is swallowed.
  unfoldable pub disconnect : DatabaseManager → State → Outcome (Unit {0}) × DatabaseManager × State
  unfolding listener_closed swallow_unless_sql
  disconnect m s =
      let (r, m', s') = listener_closed m (close_if_open m.connection_listener s) in
      (swallow_unless_sql r, m', s')

  after_disconnect : Outcome (Unit {0}) → Destroyed
  after_disconnect (ok _) = released
  after_disconnect (throw e) = terminated e

  -- The destructor, whose `join` comes after `disconnect`: an exception that leaves it ends the process.
  unfoldable pub destroy : DatabaseManager → State → Destroyed
  unfolding after_disconnect
  destroy m s = after_disconnect (disconnect m s).0
