-- ===== src/Http/Session.antt =====
-- `QuantumSafeHttp::handle_session` of server/src/http/QuantumSafeHttp.cpp: the loop over the requests
-- of one connection. The list has the requests that the client will send; where it ends, the read
-- throws and the session is over.
pub mod Loop
use management_sensors.Prelude.{
  ℕ, Bool, true, false, not, Text, codes, List, [], ◌∷◌, if◌then◌else◌, starts_with, ◌≡◌, refl,
  arith, map, All, Option, none, some, length,
}
use management_sensors.Http.{Request, Response, Services}
use management_sensors.Http.Static.{handle_request}
use management_sensors.Http.Api.{handle_api_request}

module _ (s : Services) where
  open s use {State}

  -- One round of the loop, up to the write.
  unfoldable pub answer : Request → State → Response × State
  answer req w =
      if starts_with req.target (codes "/api")
      then handle_api_request s req w
      else (handle_request s.botan_version s.open_file req s.document_root, w)

  -- The answers that the loop writes.
  unfoldable pub handle_session : List Request → State → List Response × State
  handle_session [] w = ([], w)
  handle_session (req ∷ rest) w =
      let (response, w') = answer req w in
      let (responses, w'') = handle_session rest w' in
      if response.keep_alive then (response ∷ responses, w'') else (response ∷ [], w')

-- The requests that the loop answers: up to the first that does not keep the connection.
abbrev pub served : List Request → List Request
served [] = []
served (req ∷ rest) = if req.keep_alive then req ∷ served rest else req ∷ []
