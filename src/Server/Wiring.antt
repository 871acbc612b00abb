-- ===== src/Server/Wiring.antt =====
-- The parts of the server together, as `main` of server/src/main.cpp puts them: the session handler
-- calls libs/db/DatabaseManager.cpp and the dispatcher, which the listener of the database serves.
pub mod Requests
use management_sensors.Prelude.{
  ℕ, ℤ, Bool, true, false, Text, List, Option, none, some, Outcome, Safe, safe, fault,
}
use management_sensors.Json
use management_sensors.Dispatcher
use management_sensors.Dispatcher.{World, ResponseStatus, pending}
use management_sensors.Backend.{Backend}
use management_sensors.Db.{Postgres, Connection}
use management_sensors.Db.Queries
use management_sensors.Db.Listener.{Notification}
use management_sensors.Http.{Services, Jwt, OpenResult}
use management_sensors.Server.Delivery.{deliveries}

-- The database, the dispatcher, and the notifications that the listener gets during the next wait.
pub record ServerState (p : Postgres) : Type 0 where
  pub database : p.State
  pub dispatcher : World
  pub arriving : List Notification

-- What a wait returns; for a wait that reaches undefined behaviour, or whose frame another thread has
-- ended, nothing is promised.
abbrev pub settled : Safe (Option ResponseStatus × World) → World → ResponseStatus × World
settled (safe (some status, w')) w = (status, w')
settled _ w = (pending, w)

module _ (p : Postgres) (c : Connection) (lib : Json.Library) where
  abbrev pub server_backend : Backend
  server_backend = record {
    State = ServerState p;
    generate_request_id = λ s.
        let (r, d) = Queries.generate_request_id p c s.database in (r, record s { database = d });
    add_pending_config = λ sensor_id hostname ip is_active request_id s.
        let (r, d) =
          Queries.add_pending_config p c sensor_id hostname ip is_active request_id s.database in
        (r, record s { database = d });
    wait_for_response = λ id timeout_ms s.
        let (status, w) =
          settled (Dispatcher.wait_for_response id (deliveries lib s.arriving) s.dispatcher)
            s.dispatcher in
        (status, record s { dispatcher = w });
  }

  -- The HTTP handler with its dispatcher and its database.
  abbrev pub server_services :
      Text → Option Jwt → Option (ServerState p → Text) → (Text → OpenResult) → Text → Services
  server_services version jwt details open_file root = record {
    backend = server_backend;
    json = lib;
    botan_version = version;
    jwt = jwt;
    has_dispatcher = true;
    has_db = true;
    details_provider = details;
    open_file = open_file;
    document_root = root;
  }
