-- ===== src/Tls/Engine.antt =====
-- The sessions of `QuantumSafeTlsEngine`, server/src/net/QuantumSafeTlsEngine.{hpp,cpp}. The pool of
-- threads is left out: sessions share the latest connection details alone, which a mutex guards.
pub mod Sessions
use management_sensors.Prelude.{
  ℕ, Bool, true, false, not, Text, codes, List, [], ◌∷◌, ◌++◌, Option, none, some, Outcome, ok,
  throw, if◌then◌else◌,
}
use management_sensors.Ocsp.{Network, OcspCache, Subject, get_ocsp_response}
use management_sensors.Tls.Details.{GroupParams, collect_connection_details_as_json}

-- The members that sessions read and write: whether the handler's pointer is set, and
-- `latest_connection_details_`.
pub record Engine : Type 0 where
  pub session_handler : Bool
  pub latest_connection_details : Text

-- The constructor and `set_session_handler`.
abbrev pub new_engine : Engine
new_engine = record { session_handler = false; latest_connection_details = codes "{}" }

abbrev pub set_session_handler : Bool → Engine → Engine
set_session_handler handler e = record e { session_handler = handler }

-- `get_latest_connection_details`
abbrev pub get_latest_connection_details : Engine → Text
get_latest_connection_details e = e.latest_connection_details

-- How the calls of one session end, if it makes them.
pub record Session : Type 0 where
  pub handshake : Outcome GroupParams
  pub handled : Outcome (Unit {0})
  pub tls_shutdown : Outcome (Unit {0})
  pub socket_shutdown : Outcome (Unit {0})

-- The calls that a session makes.
pub data Call : Type 0 where
  async_handshake handle_session async_shutdown shutdown_send : Call

-- The `try` block: its calls, and the engine after it; the handler of exceptions is empty.
try_block : Session → Outcome GroupParams → Engine → List Call × Engine
try_block s (throw e) engine = (async_handshake ∷ [], engine)
try_block s (ok group) engine =
    let engine' : Engine = record engine {
      latest_connection_details = collect_connection_details_as_json group;
    } in
    (
      if engine.session_handler
          then async_handshake ∷ handle_session ∷ []
          else async_handshake ∷ [],
      engine',
    )

-- After it: a call that throws ends the session.
close_block : Session → Outcome (Unit {0}) → List Call × Outcome (Unit {0})
close_block s (throw e) = (async_shutdown ∷ [], throw e)
close_block s (ok _) = (async_shutdown ∷ shutdown_send ∷ [], s.socket_shutdown)

-- `do_session`
unfoldable pub do_session : Session → Engine → List Call × Outcome (Unit {0}) × Engine
unfolding try_block close_block
do_session s engine =
    let (tried, engine') = try_block s s.handshake engine in
    let (closed, result) = close_block s s.tls_shutdown in (tried ++ closed, result, engine')

-- `make_final_completion_handler`: an exception is logged, and goes no further.
unfoldable pub completion_handler : Outcome (Unit {0}) → Outcome (Unit {0})
completion_handler _ = ok tt

-- Sessions, in the order in which their handshakes end.
unfoldable pub serve : List Session → Engine → Engine
serve [] engine = engine
serve (s ∷ sessions) engine = serve sessions (do_session s engine).2

-- `TlsHttpCallbacks::tls_provide_cert_status`, on what the cache asks of the certificates of the chain;
-- `others` is what other sessions do to the cache meanwhile.
unfoldable pub tls_provide_cert_status :
    Network
    → (OcspCache → OcspCache)
    → OcspCache
    → List Subject
    → ℕ
    → ℕ
    → ℕ
    → Outcome Text × OcspCache
tls_provide_cert_status n others cache (subject ∷ issuer ∷ chain) read checked stored =
    get_ocsp_response n others cache subject read checked stored
tls_provide_cert_status n others cache _ read checked stored = (ok [], cache)
