-- ===== src/Server/Start.antt =====
-- `main` of server/src/main.cpp from the options that it has read to the sessions that it serves.
pub mod Readiness
use management_sensors.Prelude.{
  ℕ, Bool, true, false, ◌&&◌, ◌||◌, not, Text, codes, text_eq, ◌++◌, List, [], ◌∷◌, Outcome, ok,
  throw, Exception, std_exception, if◌then◌else◌, ◌>>◌,
}
use management_sensors.Json
use management_sensors.Json.{Members}
use management_sensors.Dispatcher.{World}
use management_sensors.Jwt.Keys.{KeyFiles, load_keys}
use management_sensors.Db.{Postgres, Connection}
use management_sensors.Db.Queries.{init_request_id_sequence, get_sanity_info}
use management_sensors.Db.Listener.{Callbacks, register_listen_async}
use management_sensors.Db.Lifecycle.{DatabaseManager, new_manager, connect, start_listener}
use management_sensors.Server.{
  on_db_config_event_received, on_db_state_event_received, on_db_error_event_received,
}

-- The options that `main` looks at itself.
pub record Options : Type 0 where
  pub mode : Text
  pub jwt_key : Text
  pub jwt_cert : Text

-- The handler that is set: `QuantumSafeHttp`, with a JwtManager or without, or `QuantumCommandCli`.
pub data SessionHandler : Type 0 where
  http_handler : Bool → SessionHandler
  raw_handler : SessionHandler

abbrev is_empty : Text → Bool
is_empty [] = true
is_empty _ = false

abbrev pub has_keys : Options → Bool
has_keys o = not (is_empty o.jwt_key) && not (is_empty o.jwt_cert)

-- The choice of the handler.
unfoldable pub choose_handler : KeyFiles → Options → Outcome SessionHandler
choose_handler f o =
    if text_eq o.mode (codes "http")
    then (if has_keys o
        then load_keys f o.jwt_key o.jwt_cert >> ok (http_handler true)
        else ok (http_handler false))
    else if text_eq o.mode (codes "raw")
    then ok raw_handler
    else throw
        (std_exception (codes "Invalid mode: " ++ (o.mode ++ codes ". Use 'raw' or 'http'.")))

-- What serves: the manager of the database with its callbacks, and the handler.
pub record Serving (p : Postgres) : Type 0 where
  pub manager : DatabaseManager
  pub callbacks : Callbacks World
  pub handler : SessionHandler
  pub database : p.State

module _ (p : Postgres) (still_open : Exception → Bool) (lib : Json.Library) (f : KeyFiles) where
  -- The three calls of `register_listen_async`.
  unfoldable pub register_events : Connection → p.State → Callbacks World × p.State
  register_events c s =
      let (config, s') =
        register_listen_async p c (codes "config_events") (on_db_config_event_received lib) [] s in
      let (state, s'') =
        register_listen_async p c (codes "state_events") (on_db_state_event_received lib) config
          s' in
      register_listen_async p c (codes "error_events") (on_db_error_event_received lib) state s''

  handler_chosen :
      DatabaseManager → Callbacks World → p.State → Outcome SessionHandler → Outcome (Serving p)
  handler_chosen m callbacks s (throw e) = throw e
  handler_chosen m callbacks s (ok h) =
      ok (record { manager = m; callbacks = callbacks; handler = h; database = s })

  sanity_checked :
      Options → DatabaseManager → Callbacks World → Outcome Members × p.State → Outcome (Serving p)
  unfolding handler_chosen
  sanity_checked o m callbacks (throw e, s) = throw e
  sanity_checked o m callbacks (ok info, s) = handler_chosen m callbacks s (choose_handler f o)

  sequence_ready : Options → DatabaseManager → Outcome (Unit {0}) × p.State → Outcome (Serving p)
  unfolding sanity_checked
  sequence_ready o m (throw e, s) = throw e
  sequence_ready o m (ok _, s) =
      let (callbacks, s') = register_events m.connection_listener s in
      let m' = (start_listener m).1 in
      sanity_checked o m' callbacks (get_sanity_info p m'.connection_queries s')

  database_connected :
      Options → Outcome (Unit {0}) × DatabaseManager × p.State → Outcome (Serving p)
  unfolding sequence_ready
  database_connected o (throw e, m, s) = throw e
  database_connected o (ok _, m, s) =
      sequence_ready o m (init_request_id_sequence p m.connection_queries s)

  -- The `try` block up to `initialize`; the first outcome is that of the engine's constructor.
  unfoldable pub start_server : Options → Outcome (Unit {0}) → Text → p.State → Outcome (Serving p)
  unfolding database_connected
  start_server o (throw e) conn_str s = throw e
  start_server o (ok _) conn_str s =
      database_connected o (connect p still_open conn_str new_manager s)

-- The exit code, once the server has stopped.
abbrev pub exit_code : {p : Postgres} → Outcome (Serving p) → ℕ
exit_code (throw e) = 1
exit_code (ok serving) = 0
