-- ===== src/Http.antt =====
-- server/src/http/QuantumSafeHttp.{hpp,cpp}: the HTTP side of the server. This file has the messages
-- and the services; the handlers stand in the files below. A request is what Beast's parser hands
-- over: the fields that the program reads. Log lines are left out.
pub mod Responses
pub mod Static
pub mod Api
pub mod Session
use management_sensors.Prelude.{ℕ, Bool, Text, Option}
use management_sensors.Json
use management_sensors.Backend.{Backend}
use management_sensors.Jwt.{JwtClaims}

pub data Verb : Type 0 where
  get head post other_verb : Verb

pub record Request : Type 0 where
  pub method : Verb
  pub target : Text
  pub version : ℕ
  pub keep_alive : Bool
  -- The value of the first Authorization field, if there is one.
  pub authorization : Option Text
  pub body : Text

pub data Status : Type 0 where
  status_ok bad_request_400 unauthorized_401 not_found_404 server_error_500 : Status
  service_unavailable_503 : Status

-- An empty body carries only its length; a file body is the file at a path, with its size.
pub data Body : Type 0 where
  string_body : Text → Body
  empty_body : ℕ → Body
  file_body : Text → ℕ → Body

pub record Response : Type 0 where
  pub status : Status
  pub version : ℕ
  pub server : Text
  pub content_type : Text
  pub www_authenticate : Option Text
  pub keep_alive : Bool
  pub body : Body

-- `file.open` on a path: the size of the file, or one of the two kinds of error.
pub data OpenResult : Type 0 where
  opened : ℕ → OpenResult
  no_such_file : OpenResult
  open_error : Text → OpenResult

-- A JwtManager, at the time of one request.
pub record Jwt : Type 0 where
  pub verify : Text → Option JwtClaims
  pub generate : Text → Text → ℕ → Text

-- What the handlers are given: the constructor's arguments, each of which may be null, with the
-- calls that the handlers make on them, and the libraries.
pub record Services : Type 1 where
  pub backend : Backend
  pub open backend use *
  pub json : Json.Library
  pub botan_version : Text
  pub jwt : Option Jwt
  pub has_dispatcher : Bool
  pub has_db : Bool
  pub details_provider : Option (State → Text)
  pub open_file : Text → OpenResult
  pub document_root : Text
