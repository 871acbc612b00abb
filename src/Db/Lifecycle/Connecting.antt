-- ===== src/Db/Lifecycle/Connecting.antt =====
-- A failed `connect` of libs/db/DatabaseManager.cpp.
use management_sensors.Prelude.{◌≡◌, refl, Bool, Text, Outcome, ok, throw, Exception}
use management_sensors.Db.{Postgres, connection}
use management_sensors.Db.Lifecycle.{DatabaseManager, connect, listener_opened, queries_opened}

module _ (p : Postgres) (still_open : Exception → Bool) where
  queries_opened-throws :
      (m : DatabaseManager) (o : Outcome Bool × p.State) (e : Exception)
      → (queries_opened p still_open m o).0 ≡ throw e
      → (queries_opened p still_open m o).1.connection_queries ≡ m.connection_queries
  unfolding queries_opened
  queries_opened-throws m (throw x, s) e h = refl
  queries_opened-throws m (ok b, s) e h = absurd (cc)

  listener_opened-throws :
      (conn_str : Text) (m : DatabaseManager) (o : Outcome Bool × p.State) (e : Exception)
      → (listener_opened p still_open conn_str m o).0 ≡ throw e
      → (listener_opened p still_open conn_str m o).1.connection_queries ≡ m.connection_queries
  unfolding listener_opened
  listener_opened-throws conn_str m (throw x, s) e h = refl
  listener_opened-throws conn_str m (ok b, s) e h =
      queries_opened-throws (record m { connection_listener = connection b })
        (p.open_connection conn_str s) e h

  -- A `connect` that throws leaves the connection for queries as it was, whichever of the two could not
  -- be opened.
  pub connect-throws :
      (conn_str : Text) (m : DatabaseManager) (s : p.State) (e : Exception)
      → (connect p still_open conn_str m s).0 ≡ throw e
      → (connect p still_open conn_str m s).1.connection_queries ≡ m.connection_queries
  unfolding connect
  connect-throws conn_str m s e h =
      listener_opened-throws conn_str m (p.open_connection conn_str s) e h
