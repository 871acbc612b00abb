-- ===== src/Tls.antt =====
-- server/src/net/QuantumSafeTlsEngine.{hpp,cpp}, and the parts of proxy/src/main.cpp that set up TLS.
-- Botan's certificates, keys, key exchange groups and handshakes are parameters. Log lines are left out.
pub mod Credentials
pub mod Details
pub mod Engine
use management_sensors.Prelude.{
  ℕ, Bool, true, false, ◌||◌, Text, codes, text_eq, List, [], ◌∷◌, Option, none, some,
  if◌then◌else◌,
}

-- What `load_tls_policy` makes, of the server and of the proxy: Botan's own policy, or the one in a file.
pub data Policy : Type 0 where
  default_policy : Policy
  text_policy : Text → Policy

is_empty : Text → Bool
is_empty [] = true
is_empty _ = false

-- `load_tls_policy`
unfoldable pub load_tls_policy : Text → Policy
unfolding is_empty
load_tls_policy path =
    if text_eq path (codes "default") || is_empty path then default_policy else text_policy path
