-- ===== src/Db/Lifecycle/Closing.antt =====
-- How the connections of libs/db/DatabaseManager.cpp end.
use management_sensors.Prelude.{
  ◌≡◌, refl, ap, ◌∙◌, inl, inr, Bool, true, false, Outcome, ok, throw, Exception, sql_error,
  broken_connection, std_exception, Bool-cases,
}
use management_sensors.Db.{Postgres, Connection, is_usable}
use management_sensors.Db.Queries.{swallow_unless_sql}
use management_sensors.Db.Lifecycle.{
  DatabaseManager, disconnect, listener_closed, close_if_open, closed, destroy, after_disconnect,
  Destroyed, released, terminated,
}

-- What the exception of a close makes of the destructor.
abbrev pub ended : Exception → Destroyed
ended (sql_error t) = terminated (sql_error t)
ended _ = released

module _ (p : Postgres) (still_open : Exception → Bool) where
  open p use {State, open_connection, close_connection}

  -- No close throws.
  abbrev pub Closes : Type 0
  Closes = (s : State) → (close_connection s).0 ≡ ok tt

  close-ok :
      Closes
      → (c : Connection) (s : State)
      → ((close_if_open p still_open c s).0 ≡ ok tt)
        × (is_usable (close_if_open p still_open c s).1 ≡ false)
  unfolding close_if_open closed
  close-ok h c s = elim (Bool-cases (is_usable c)) [
    | inl usable ↦ rw usable (rw (h s) (refl, refl))
    | inr shut ↦ rw shut (refl, shut)
  ]

  close-throws :
      (e : Exception) (c : Connection) (s : State)
      → is_usable c ≡ true
      → (close_connection s).0 ≡ throw e
      → (close_if_open p still_open c s).0 ≡ throw e
  unfolding close_if_open closed
  close-throws e c s usable throws = rw usable (rw throws refl)

  listener_closed-throws :
      (e : Exception) (m : DatabaseManager) (o : Outcome (Unit {0}) × Connection × State)
      → o.0 ≡ throw e
      → ((listener_closed p still_open m o).1.connection_queries ≡ m.connection_queries)
        × ((listener_closed p still_open m o).0 ≡ throw e)
  unfolding listener_closed
  listener_closed-throws e m o h = rw h (refl, refl)

  listener_closed-ok :
      Closes
      → (m : DatabaseManager) (o : Outcome (Unit {0}) × Connection × State) → o.0 ≡ ok tt
      → is_usable o.1 ≡ false
      → ((listener_closed p still_open m o).0 ≡ ok tt)
        × (is_usable (listener_closed p still_open m o).1.connection_listener ≡ false)
        × (is_usable (listener_closed p still_open m o).1.connection_queries ≡ false)
  unfolding listener_closed
  listener_closed-ok h m o returned shut =
      let (fine, queries_shut) = close-ok h m.connection_queries o.2 in
      rw returned (fine, shut, queries_shut)

  destroyed :
      (e : Exception) → after_disconnect p still_open (swallow_unless_sql (throw e)) ≡ ended e
  unfolding after_disconnect swallow_unless_sql
  destroyed (sql_error t) = refl
  destroyed (broken_connection t) = refl
  destroyed (std_exception t) = refl

  -- Where closing throws nothing, `disconnect` returns and leaves no connection open, whatever connections
  -- there were; and the destructor runs to its end.
  pub disconnect-closes :
      Closes
      → (m : DatabaseManager) (s : State)
      → ((disconnect p still_open m s).0 ≡ ok tt)
        × (is_usable (disconnect p still_open m s).1.connection_listener ≡ false)
        × (is_usable (disconnect p still_open m s).1.connection_queries ≡ false)
        × (destroy p still_open m s ≡ released)
  unfolding disconnect destroy swallow_unless_sql after_disconnect
  disconnect-closes h m s =
      let first = close_if_open p still_open m.connection_listener s in
      let (fine, shut) = close-ok h m.connection_listener s in
      let (returned, listener_shut, queries_shut) = listener_closed-ok h m first fine shut in
      (
        ap swallow_unless_sql returned,
        listener_shut,
        queries_shut,
        ap (λ r. after_disconnect p still_open (swallow_unless_sql r)) returned,
      )

  -- Where closing the open connection of the listener throws, the connection for queries is left as it is;
  -- `disconnect` returns all the same, unless that is an `sql_error`, which then ends the process in the
  -- destructor.
  pub disconnect-throws :
      (m : DatabaseManager) (s : State) (e : Exception)
      → is_usable m.connection_listener ≡ true
      → (close_connection s).0 ≡ throw e
      → ((disconnect p still_open m s).1.connection_queries ≡ m.connection_queries)
        × ((disconnect p still_open m s).0 ≡ swallow_unless_sql (throw e))
        × (destroy p still_open m s ≡ ended e)
  unfolding disconnect destroy
  disconnect-throws m s e usable throws =
      let first = close_if_open p still_open m.connection_listener s in
      let (kept_open, thrown) =
        listener_closed-throws e m first (close-throws e m.connection_listener s usable throws) in
      (
        kept_open,
        ap swallow_unless_sql thrown,
        ap (λ r. after_disconnect p still_open (swallow_unless_sql r)) thrown ∙ destroyed e,
      )
