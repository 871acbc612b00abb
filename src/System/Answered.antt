-- ===== src/System/Answered.antt =====
-- A configuration request over HTTP on the database of database/sql/db.sql: `handle_config_ip` of
-- server/src/http/QuantumSafeHttp.cpp with libs/db/DatabaseManager.cpp and the dispatcher.
use management_sensors.Prelude.{
  ℕ, ℤ, suc, ◌<◌, ◌≤◌, ◌≡◌, refl, sym, ap, ◌∙◌, subst, inl, inr, Bool, true, false, ◌||◌, Text,
  text_eq, codes, List, [], ◌∷◌, ◌++◌, Option, none, some, ok, length, show_int, ◌==◌, ==_refl,
  if◌then◌else◌, Option-cases, arith,
}
use management_sensors.Prelude.Map.{lookup}
use management_sensors.Json
use management_sensors.Dispatcher.{World, Frame, max_pending}
use management_sensors.Dispatcher.Safety.{Inv}
use management_sensors.Dispatcher.Delivery.{Unused}
use management_sensors.Db.{Connection, is_usable}
use management_sensors.Db.Listener.{Notification}
use management_sensors.Http.{Request, Services, Jwt, OpenResult, status_ok, service_unavailable_503}
use management_sensors.Http.Api.{config_ip, read_config, config_fields}
use management_sensors.Http.Api.Config.{Completed, config_ip-answers}
use management_sensors.Server.Delivery.{announced, announces}
use management_sensors.Server.Wiring.{ServerState, server_services}
use management_sensors.Server.Wiring.Requests.{config_ip-announced}
use management_sensors.Schema.{
  Dialect, ConfigRow, Operation, insertion, request_change, config_written,
}
use management_sensors.Schema.Announcing.{Reads, Bigint, written-announced}
use management_sensors.Schema.Statements.{find_config, requested, postgres}
use management_sensors.Schema.Seeding.{with_sequence, generate_ready}
use management_sensors.Schema.Seeding.Fresh.{Bounded, above-missing}
use management_sensors.Schema.Storing.{Fits, with_request, committed, add_pending_config-stored}

-- Every thread that waits does so for an id of at most `n`.
abbrev pub WaitsWithin : ℕ → World → Type 0
WaitsWithin n w = (a : ℕ) (f : Frame) → lookup a w.frames ≡ some f → f.id ≤ n

or_true : (b : Bool) → (b || true) ≡ true
or_true true = refl
or_true false = refl

announces-among :
    (lib : Json.Library) (id : ℕ) (before after : List Notification) (n : Notification)
    → announced lib n ≡ some id
    → announces lib id (before ++ n ∷ after) ≡ true
unfolding text_eq
announces-among lib id [] after n e = rw (e, ==_refl id) refl
announces-among lib id (m ∷ before) after n e = elim (Option-cases (announced lib m)) [
  | inl silent ↦ rw silent (announces-among lib id before after n e)
  | inr (j, k) ↦ rw k (rw (announces-among lib id before after n e) (or_true (j == id)))
]

module _ (lib : Json.Library) (g : Dialect) (req : Request) (w : ServerState (postgres g))
    (sensor_id : ℤ) (ip address : Text) (n : ℕ) (config : ConfigRow) where
  -- The request can be stored: its body has a sensor that has a configuration and an address, `n` is
  -- the last number of the sequence, and no row has a greater id.
  pub record Storable : Type 0 where
    pub body_read : read_config lib req.body ≡ ok (config_fields sensor_id ip)
    pub sequence : w.database.tables.sequence ≡ some n
    pub bounded : Bounded n w.database.tables
    pub known : find_config sensor_id w.database.tables.configs ≡ some config
    pub fits : Fits g (suc n) (codes "sensor-" ++ show_int sensor_id) ip address

module _ (lib : Json.Library) (g : Dialect) (c : Connection) (version : Text) (jwt : Option Jwt)
    (details : Option (ServerState (postgres g) → Text)) (open_file : Text → OpenResult)
    (root : Text) (usable : is_usable c ≡ true) where
  abbrev services : Services
  services = server_services (postgres g) c lib version jwt details open_file root

  module _ (req : Request) (w : ServerState (postgres g)) (sensor_id : ℤ) (ip address : Text)
      (n : ℕ) (config : ConfigRow) where
    Storable-Completed :
        Storable lib g req w sensor_id ip address n config → Completed services req w
    Storable-Completed s =
        let row =
          requested (suc n) sensor_id (codes "sensor-" ++ show_int sensor_id) address true in
        let made = with_sequence (suc n) w.database in
        record {
          sensor_id = sensor_id;
          ip = ip;
          request_id = suc n;
          made = record w { database = made };
          stored = record w {
            database =
                committed g (with_request made.tables row) (request_change insertion row) made;
          };
          body_read = s.body_read;
          id_made =
              ap (λ x. (x.0, record w { database = x.1 }))
                (generate_ready g c w.database n usable s.sequence s.fits.bigint);
          change_stored =
              ap (λ x. (x.0, record w { database = x.1 }))
                (add_pending_config-stored g (suc n) sensor_id
                  (codes "sensor-" ++ show_int sensor_id) ip address true s.fits c made config
                  usable
                  (above-missing (suc n) n w.database.tables.pendings (omega arith) s.bounded.0)
                  s.known);
        }

    -- A configuration request that can be stored is stored under the next number of the sequence, and it
    -- is answered by 200 if, while it waits, the listener gets the notification of a configuration row
    -- with this id, whatever other notifications come before and after; no entry is left in the
    -- dispatcher. The dispatcher is well formed and has room, no thread waits for a number that the
    -- sequence has not given, and the notification's payload is read back.
    pub config_ip-confirmed :
        (s : Storable lib g req w sensor_id ip address n config) (op : Operation) (row : ConfigRow)
        (before after : List Notification)
        → Inv w.dispatcher
        → length w.dispatcher.pending_requests < max_pending
        → WaitsWithin n w.dispatcher
        → row.request_id ≡ some (suc n)
        → Reads lib (g.jsonb_text (config_written g op row)) (config_written g op row)
        → w.arriving
          ≡ before
            ++ (record {
              channel = codes "config_events";
              payload = g.jsonb_text (config_written g op row);
            })
              ∷ after
        → ((config_ip services req w).0.status ≡ status_ok)
          × ((config_ip services req w).1.database
              ≡ committed g
                  (with_request (with_sequence (suc n) w.database).tables (
                    requested
                      (suc n)
                      sensor_id
                      (codes "sensor-" ++ show_int sensor_id)
                      address
                      true))
                  (request_change insertion (
                    requested
                      (suc n)
                      sensor_id
                      (codes "sensor-" ++ show_int sensor_id)
                      address
                      true))
                  (with_sequence (suc n) w.database))
          × (lookup (suc n) (config_ip services req w).1.dispatcher.pending_requests ≡ none)
    unfolding Storable-Completed
    config_ip-confirmed s op row before after v room within same reads arrived =
        let o = Storable-Completed s in
        let small : Bigint row.request_id = subst Bigint (sym same) s.fits.bigint in
        let told = written-announced lib g op row reads small ∙ same in
        let heard : announces lib (suc n) w.arriving ≡ true =
          ap (announces lib (suc n)) arrived
          ∙ announces-among lib (suc n) before after
              (record {
                channel = codes "config_events";
                payload = g.jsonb_text (config_written g op row);
              })
              told in
        let unused : Unused (suc n) w.dispatcher =
          λ b f e q. let low = within b f e in absurd (omega (arith, low, q)) in
        let (status, gone) =
          config_ip-announced (postgres g) c lib version jwt details open_file root req w o v room
            unused in
        let (_, state) = config_ip-answers services req w (refl, refl) o in
        (
          status ∙ ap (λ b. if b then status_ok else service_unavailable_503) heard,
          ap (λ x. x.database) state,
          gone,
        )
