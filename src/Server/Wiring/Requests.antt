-- ===== src/Server/Wiring/Requests.antt =====
-- A configuration request from its HTTP request to the notification that ends it.
use management_sensors.Prelude.{
  ℕ, ◌<◌, ◌≡◌, refl, sym, ap, ◌∙◌, subst, Bool, true, false, Text, Option, none, length,
  if◌then◌else◌,
}
use management_sensors.Prelude.Map.{lookup}
use management_sensors.Json
use management_sensors.Dispatcher.{success, timeout, max_pending}
use management_sensors.Dispatcher.Safety.{Inv}
use management_sensors.Dispatcher.Delivery.{Unused}
use management_sensors.Db.{Postgres, Connection}
use management_sensors.Http.{Request, Services, Jwt, OpenResult, status_ok, service_unavailable_503}
use management_sensors.Http.Api.{config_ip, request_timeout_ms}
use management_sensors.Http.Api.Config.{Completed, http_status, config_ip-answers}
use management_sensors.Server.Delivery.{announces, wait_for_response-announced}
use management_sensors.Server.Wiring.{ServerState, server_services, settled}

module _ (p : Postgres) (c : Connection) (lib : Json.Library) (version : Text) (jwt : Option Jwt)
    (details : Option (ServerState p → Text)) (open_file : Text → OpenResult) (root : Text) where
  abbrev services : Services
  services = server_services p c lib version jwt details open_file root

  -- The two calls of the database leave the dispatcher, and what arrives, as they are.
  stored-same :
      (req : Request) (w : ServerState p) (o : Completed services req w)
      → (o.stored.dispatcher ≡ w.dispatcher) × (o.stored.arriving ≡ w.arriving)
  stored-same req w o = (
    ap (λ x. x.1.dispatcher) (sym o.change_stored) ∙ ap (λ x. x.1.dispatcher) (sym o.id_made),
    ap (λ x. x.1.arriving) (sym o.change_stored) ∙ ap (λ x. x.1.arriving) (sym o.id_made),
  )

  wait-announced :
      (id : ℕ) (s : ServerState p)
      → Inv s.dispatcher
      → length s.dispatcher.pending_requests < max_pending
      → Unused id s.dispatcher
      → ((services.wait_for_response id request_timeout_ms s).0
          ≡ (if announces lib id s.arriving then success else timeout))
        × (lookup id
              (services.wait_for_response id request_timeout_ms s).1.dispatcher.pending_requests
            ≡ none)
  wait-announced id s v room u =
      let (w', e, gone, _) = wait_for_response-announced lib id s.arriving s.dispatcher v room u in
      (
        ap (λ x. (settled x s.dispatcher).0) e,
        ap (λ x. lookup id (settled x s.dispatcher).1.pending_requests) e ∙ gone,
      )

  http_status-if :
      (b : Bool)
      → http_status (if b then success else timeout)
        ≡ (if b then status_ok else service_unavailable_503)
  http_status-if true = refl
  http_status-if false = refl

  -- A request whose body has a sensor and an address, for which the database makes an id and
  -- `add_pending_config` returns without an exception, is answered by 200 exactly if, while it waits, the
  -- listener gets a notification that announces its id, and by 503 otherwise; afterwards the dispatcher
  -- has no entry for it. The dispatcher is well formed and has room, and no other thread waits for the
  -- id.
  pub config_ip-announced :
      (req : Request) (w : ServerState p) (o : Completed services req w)
      → Inv w.dispatcher
      → length w.dispatcher.pending_requests < max_pending
      → Unused o.request_id w.dispatcher
      → ((config_ip services req w).0.status
          ≡ (if announces lib o.request_id w.arriving then status_ok else service_unavailable_503))
        × (lookup o.request_id (config_ip services req w).1.dispatcher.pending_requests ≡ none)
  config_ip-announced req w o v room u =
      let (status, after) = config_ip-answers services req w (refl, refl) o in
      let (same, arrived) = stored-same req w o in
      let (told, gone) =
        wait-announced o.request_id o.stored (subst Inv (sym same) v)
          (subst (λ d. length d.pending_requests < max_pending) (sym same) room)
          (subst (Unused o.request_id) (sym same) u) in
      (
        status
            ∙ (ap http_status told
                ∙ (http_status-if (announces lib o.request_id o.stored.arriving)
                    ∙ ap
                        (λ ns.
                          if announces lib o.request_id ns
                          then status_ok
                          else service_unavailable_503)
                        arrived)),
        ap (λ s. lookup o.request_id s.dispatcher.pending_requests) after ∙ gone,
      )
