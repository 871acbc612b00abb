-- ===== src/Http/Static.antt =====
-- `handle_request`, `path_cat` and `mime_type` of server/src/http/QuantumSafeHttp.cpp: static files.

pub mod Paths
pub mod Echo
use management_sensors.Prelude.{
  ℕ, ◌+◌, Bool, true, false, not, ◌&&◌, ◌||◌, Text, codes, List, [], ◌∷◌, ◌++◌, map, Option, none,
  some, text_eq, find_text, rfind_char, drop, ends_with_char, pop_back, leb, if◌then◌else◌, ◌==◌,
}
use management_sensors.Http.{
  Verb, get, head, post, other_verb, Request, Response, OpenResult, opened, no_such_file,
  open_error,
}
use management_sensors.Http.Responses.{
  bad_request, not_found, server_error, success_head, success_file,
}

-- Letters in lower case, for boost::beast::iequals.
unfoldable pub to_lower : ℕ → ℕ
to_lower c = if leb b'A' c && leb c b'Z' then c + 32 else c

unfoldable pub iequals : Text → Text → Bool
unfolding to_lower
iequals s t = text_eq (map to_lower s) (map to_lower t)

-- The path from its last dot on.
unfoldable pub extension : Text → Text
extension path = elim (rfind_char b'.' path) [ none ↦ [] | some pos ↦ drop pos path ]

type_of_extension : Text → Text
type_of_extension ext =
    if iequals ext (codes ".htm") || iequals ext (codes ".html")
    then codes "text/html"
    else if iequals ext (codes ".css")
    then codes "text/css"
    else if iequals ext (codes ".txt")
    then codes "text/plain"
    else if iequals ext (codes ".js")
    then codes "application/javascript"
    else if iequals ext (codes ".json")
    then codes "application/json"
    else if iequals ext (codes ".png")
    then codes "image/png"
    else if iequals ext (codes ".jpe")
        || (iequals ext (codes ".jpeg") || iequals ext (codes ".jpg"))
    then codes "image/jpeg"
    else if iequals ext (codes ".gif")
    then codes "image/gif"
    else if iequals ext (codes ".ico")
    then codes "image/vnd.microsoft.icon"
    else if iequals ext (codes ".svg") || iequals ext (codes ".svgz")
    then codes "image/svg+xml"
    else codes "application/text"

unfoldable pub mime_type : Text → Text
unfolding type_of_extension
mime_type path = type_of_extension (extension path)

-- The base without the slash at its end.
unfoldable pub strip_slash : Text → Text
strip_slash base = if ends_with_char b'/' base then pop_back base else base

unfoldable pub path_cat : Text → Text → Text
path_cat [] path = path
path_cat (c ∷ base) path = strip_slash (c ∷ base) ++ path

-- `req.target().empty() || req.target()[0] != '/' || req.target().find("..") != npos`
unfoldable pub illegal_target : Text → Bool
illegal_target [] = true
illegal_target (c ∷ t) =
    not (c == b'/') || elim (find_text (codes "..") (c ∷ t)) [ none ↦ false | some i ↦ true ]

is_get_or_head : Verb → Bool
is_get_or_head get = true
is_get_or_head head = true
is_get_or_head _ = false

unfoldable pub file_path : Text → Text → Text
file_path doc_root target =
    let path = path_cat doc_root target in
    if ends_with_char b'/' target then path ++ codes "index.html" else path

module _ (botan_version : Text) (open_file : Text → OpenResult) where
  serve_file : Verb → Request → Text → ℕ → Response
  serve_file head req path size = success_head botan_version req size (mime_type path)
  serve_file _ req path size = success_file botan_version req path size (mime_type path)

  open_path : Request → Text → OpenResult → Response
  unfolding serve_file
  open_path req path no_such_file = not_found botan_version req
  open_path req path (open_error message) = server_error botan_version req message
  open_path req path (opened size) = serve_file req.method req path size

  -- `QuantumSafeHttp::handle_request`
  unfoldable pub handle_request : Request → Text → Response
  unfolding open_path is_get_or_head
  handle_request req doc_root =
      if not (is_get_or_head req.method)
      then bad_request botan_version req (codes "Unknown HTTP-method")
      else if illegal_target req.target
      then bad_request botan_version req (codes "Illegal request-target")
      else let path = file_path doc_root req.target in open_path req path (open_file path)
