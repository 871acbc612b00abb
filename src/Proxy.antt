-- ===== src/Proxy.antt =====
-- proxy/src/main.cpp: plain HTTP on one side, one TLS connection to the server on the other, which all
-- sessions share. A session is a coroutine: what it does between two waits is one step, and the steps
-- of the sessions interleave. The backend, and the frontends' requests, are the environment.
pub mod Swapped
pub mod Start
use management_sensors.Prelude.{
  ℕ, ◌+◌, ◌≡◌, Bool, true, false, List, [], ◌∷◌, ◌++◌, Option, none, some,
}
use management_sensors.Prelude.Map.{Map, lookup, insert}
use management_sensors.Http.{Request, Response}

-- `req.keep_alive(true)`
abbrev pub kept : Request → Request
kept q = record q { keep_alive = true }

-- `res.keep_alive(false)`
abbrev pub closing : Response → Response
closing r = record r { keep_alive = false }

-- Where a `do_session` stands, with the local variables that are live there.
pub data Stage : Type 0 where
  reading : Stage
  forwarding : (q : Request) → Stage
  awaiting : (q : Request) → Stage
  answering : (q : Request) (r : Response) → Stage
  answered : (q : Request) (r : Response) → Stage
  ended : Stage

-- The sessions, and the TLS connection: whether it is up, the requests that the backend has still to
-- answer, and the responses that are still to be read.
pub record System : Type 0 where
  pub sessions : Map Stage
  pub connected : Bool
  pub requests : List Request
  pub responses : List Response

abbrev pub init : System
init = record { sessions = []; connected = true; requests = []; responses = [] }

abbrev pub at : ℕ → Stage → System → System
at i stage s = record s { sessions = insert i stage s.sessions }

-- A step. The backend answers in the order of the requests, with a response that `Answers` allows: one
-- that `http::async_read` of the proxy can read to its end. There is none to HEAD where its header states
-- a length, since the parser then waits for a body, and none with a body over the parser's limit; what
-- becomes of the connection after such a response is not modelled.
pub data Step (Answers : Request → Response → Type 0) (s : System) : System → Type 0 where
  accept : (i : ℕ) → lookup i s.sessions ≡ none → Step Answers s (at i reading s)
  receive :
      (i : ℕ) (q : Request)
      → lookup i s.sessions ≡ some reading
      → Step Answers s (at i (forwarding q) s)
  forward :
      (i : ℕ) (q : Request)
      → lookup i s.sessions ≡ some (forwarding q)
      → s.connected ≡ true
      → Step Answers s (record (at i (awaiting q) s) { requests = s.requests ++ kept q ∷ [] })
  reply :
      (q : Request) (qs : List Request) (r : Response)
      → s.requests ≡ q ∷ qs
      → Answers q r
      → Step Answers s (record s { requests = qs; responses = s.responses ++ r ∷ [] })
  -- `be_buf` belongs to the session: responses that it has read after the first are lost with it. That
  -- it holds only a part of the next one is not modelled.
  take :
      (i : ℕ) (q : Request) (r : Response) (lost rs : List Response)
      → lookup i s.sessions ≡ some (awaiting q)
      → s.responses ≡ r ∷ (lost ++ rs)
      → Step Answers s (record (at i (answering q (closing r)) s) { responses = rs })
  answer :
      (i : ℕ) (q : Request) (r : Response)
      → lookup i s.sessions ≡ some (answering q r)
      → Step Answers s (at i (answered q r) s)
  -- The connection is lost, with all that is under way on it.
  lose : Step Answers s (record s { connected = false; requests = []; responses = [] })
  -- The handler of exceptions of `do_session`: a read or a write on the frontend's socket throws, or,
  -- where the connection is lost, one on the TLS stream.
  hang_up : (i : ℕ) → lookup i s.sessions ≡ some reading → Step Answers s (at i ended s)
  not_delivered :
      (i : ℕ) (q : Request) (r : Response)
      → lookup i s.sessions ≡ some (answering q r)
      → Step Answers s (at i ended s)
  not_forwarded :
      (i : ℕ) (q : Request)
      → lookup i s.sessions ≡ some (forwarding q)
      → s.connected ≡ false
      → Step Answers s (at i ended s)
  not_answered :
      (i : ℕ) (q : Request)
      → lookup i s.sessions ≡ some (awaiting q)
      → s.connected ≡ false
      → Step Answers s (at i ended s)

pub data Reach (Answers : Request → Response → Type 0) : System → Type 0 where
  start : Reach Answers init
  later : {s t : System} → Reach Answers s → Step Answers s t → Reach Answers t
