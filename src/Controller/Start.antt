-- ===== src/Controller/Start.antt =====
-- The first half of `main` of controller/src/main.cpp: the database. Its handler of exceptions logs
-- them, and the second half runs all the same.
pub mod Unconnected
use management_sensors.Prelude.{Bool, Text, codes, List, [], Outcome, ok, throw, Exception}
use management_sensors.Db.{Postgres}
use management_sensors.Db.Listener.{Callback, Callbacks, register_listen_async}
use management_sensors.Db.Lifecycle.{DatabaseManager, new_manager, connect, start_listener}

-- What the second half finds: `g_db`, its callbacks, and the database.
pub record Started {ℓ} (p : Postgres) (S : Type ℓ) : Type ℓ where
  pub manager : DatabaseManager
  pub callbacks : Callbacks S
  pub database : p.State

module _ {ℓ} {S : Type ℓ} (p : Postgres) (still_open : Exception → Bool) where
  after_connect : Callback S → Outcome (Unit {0}) × DatabaseManager × p.State → Started p S
  after_connect on_event (throw e, m, s) = record { manager = m; callbacks = []; database = s }
  after_connect on_event (ok _, m, s) =
      let (callbacks, s') =
        register_listen_async p m.connection_listener (codes "config_requested") on_event [] s in
      record { manager = (start_listener m).1; callbacks = callbacks; database = s' }

  unfoldable pub start_database : Text → Callback S → p.State → Started p S
  unfolding after_connect
  start_database conn_str on_event s =
      after_connect on_event (connect p still_open conn_str new_manager s)
