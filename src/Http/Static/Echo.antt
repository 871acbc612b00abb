-- ===== src/Http/Static/Echo.antt =====
-- The answers of the static handler keep the version and the connection of the request.
use management_sensors.Prelude.{ℕ, refl, Text, arith}
use management_sensors.Http.{Request, OpenResult, opened, no_such_file, open_error, Verb, head}
use management_sensors.Http.Responses.{
  Echoes, bad_request, not_found, server_error, success_head, success_file,
}
use management_sensors.Http.Static.{handle_request, open_path, serve_file, file_path}

module _ (v : Text) (o : Text → OpenResult) (req : Request) where
  serve-Echoes : (m : Verb) (path : Text) (size : ℕ) → Echoes req (serve_file v o m req path size)
  unfolding serve_file success_head success_file
  serve-Echoes head path size = (refl, refl)
  serve-Echoes _ path size = (refl, refl)

  open-Echoes : (path : Text) (r : OpenResult) → Echoes req (open_path v o req path r)
  unfolding open_path not_found server_error
  open-Echoes path no_such_file = (refl, refl)
  open-Echoes path (open_error m) = (refl, refl)
  open-Echoes path (opened size) = serve-Echoes req.method path size

  pub handle_request-Echoes : (doc_root : Text) → Echoes req (handle_request v o req doc_root)
  unfolding handle_request bad_request
  handle_request-Echoes doc_root =
      ground
        (arith, open-Echoes (file_path doc_root req.target) (o (file_path doc_root req.target)))
