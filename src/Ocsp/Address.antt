-- ===== src/Ocsp/Address.antt =====
-- `parse_url` of server/src/oscp/ocsp_cache.cpp, and the port that `fetchOCSPResponse` asks for.

use management_sensors.Prelude.{
  ℕ, ◌+◌, ◌-◌, Text, codes, text_eq, [], ◌∷◌, Option, none, some, find_text, find_char,
  find_char_from, substr, drop, if◌then◌else◌,
}

-- struct URL
pub record Url : Type 0 where
  pub protocol : Text
  pub host : Text
  pub port : Option Text
  pub target : Text

-- The part from the host on: the host with its port, and the target.
unfoldable pub host_and_target : Text → ℕ → Text × Text
host_and_target urlstr sep = elim (find_char_from b'/' urlstr (sep + 3)) [
  | none ↦ (drop (sep + 3) urlstr, b'/' ∷ [])
  | some slash ↦ (substr urlstr (sep + 3) (slash - sep - 3), drop slash urlstr)
]

-- Where the host has a port, `url.protocol` is left empty; where it has none, it becomes "http".
unfoldable pub split_port : Text × Text → Url
split_port (host, target) = elim (find_char b':' host) [
  | none ↦ record { protocol = codes "http"; host = host; port = none; target = target }
  | some colon ↦ record {
    protocol = [];
    host = substr host 0 colon;
    port = some (drop (colon + 1) host);
    target = target;
  }
]

unfoldable pub parse_url : Text → Option Url
unfolding host_and_target split_port
parse_url urlstr = elim (find_text (codes "://") urlstr) [
  | none ↦ none
  | some sep ↦ some (split_port (host_and_target urlstr sep))
]

-- `url->port.value_or(url->protocol == "http" ? "80" : "443")`
unfoldable pub port_of : Url → Text
port_of url = elim url.port [
  | some port ↦ port
  | none ↦ if text_eq url.protocol (codes "http") then codes "80" else codes "443"
]
