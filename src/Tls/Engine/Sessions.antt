-- ===== src/Tls/Engine/Sessions.antt =====
-- What `/api/connection_details` tells: the sessions of server/src/net/QuantumSafeTlsEngine.cpp.
use management_sensors.Prelude.{◌≡◌, refl, List, [], ◌∷◌, ◌++◌, All, ok, throw, Exception}
use management_sensors.Tls.Details.{GroupParams, collect_connection_details_as_json}
use management_sensors.Tls.Engine.{
  Engine, Session, do_session, try_block, serve, get_latest_connection_details,
}

-- The handshake throws.
abbrev pub Failed : Session → Type 0
Failed s = (e : Exception) × (s.handshake ≡ throw e)

serve-append : (xs ys : List Session) (e : Engine) → serve (xs ++ ys) e ≡ serve ys (serve xs e)
unfolding serve
serve-append [] ys e = refl
serve-append (x ∷ xs) ys e = serve-append xs ys (do_session x e).2

serve-Failed : (sessions : List Session) (e : Engine) → All Failed sessions → serve sessions e ≡ e
unfolding serve do_session try_block
serve-Failed [] e h = refl
serve-Failed (s ∷ sessions) e ((x, f), h) = rw f (serve-Failed sessions e h)

-- The details that the engine tells, to whichever client asks, are those of the last session whose
-- handshake was completed, whatever sessions and failed handshakes there are before and after it.
pub serve-latest :
    (before after : List Session) (s : Session) (group : GroupParams) (e : Engine)
    → s.handshake ≡ ok group
    → All Failed after
    → get_latest_connection_details (serve (before ++ s ∷ after) e)
      ≡ collect_connection_details_as_json group
unfolding serve do_session try_block
serve-latest before after s group e h failures =
    rw (serve-append before (s ∷ after) e)
      (rw (serve-Failed after (do_session s (serve before e)).2 failures) (rw h refl))
