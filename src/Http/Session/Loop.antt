-- ===== src/Http/Session/Loop.antt =====
-- The loop of `handle_session` of server/src/http/QuantumSafeHttp.cpp, over all handlers.
use management_sensors.Prelude.{ℕ, Bool, List, [], ◌∷◌, map, ◌≡◌, refl, arith}
use management_sensors.Http.{Request, Response, Services}
use management_sensors.Http.Responses.{Echoes}
use management_sensors.Http.Static.Echo.{handle_request-Echoes}
use management_sensors.Http.Api.Echo.{handle_api_request-Echoes}
use management_sensors.Http.Session.{answer, handle_session, served}

abbrev pub request_head : Request → ℕ × Bool
request_head req = (req.version, req.keep_alive)

abbrev pub response_head : Response → ℕ × Bool
response_head r = (r.version, r.keep_alive)

module _ (s : Services) where
  open s use {State}

  -- Every answer, of every handler and on every branch, has the version of its request, and keeps the
  -- connection exactly if the request asks for it.
  pub answer-Echoes : (req : Request) (w : State) → Echoes req (answer s req w).0
  unfolding answer
  answer-Echoes req w = ground (
    arith,
    handle_api_request-Echoes s req w,
    handle_request-Echoes s.botan_version s.open_file req s.document_root,
  )

  -- The session answers one by one the requests up to the first that does not keep the connection, and
  -- no other; the answers have the versions of these requests, in their order.
  pub handle_session-served :
      (reqs : List Request) (w : State)
      → map response_head (handle_session s reqs w).0 ≡ map request_head (served reqs)
  unfolding handle_session
  handle_session-served [] w = refl
  handle_session-served (req ∷ rest) w =
      ground (arith, answer-Echoes req w, handle_session-served rest (answer s req w).1)
