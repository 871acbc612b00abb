-- ===== src/Tls/Details.antt =====
-- `TlsHttpCallbacks::collect_connection_details_as_json` of server/src/net/QuantumSafeTlsEngine.hpp.
pub mod RoundTrip
use management_sensors.Prelude.{
  ℕ, zero, suc, ◌+◌, ◌-◌, ◌*◌, ◌/◌, ◌%◌, Bool, Text, codes, List, [], ◌∷◌, ◌++◌, Option, none, some,
  pad, if◌then◌else◌, ltb,
}

-- Botan::TLS::Group_Params
pub record GroupParams : Type 0 where
  pub name : Option Text
  pub is_post_quantum : Bool
  pub wire_code : ℕ

-- A digit below sixteen, in lower case, as `std::hex` writes it.
unfoldable pub hex_digit : ℕ → ℕ
hex_digit d = if ltb d 10 then b'0' + d else b'a' + (d - 10)

-- The digits of a number, the first one first, before `acc`; the fuel bounds their count.
unfoldable pub hex_digits : ℕ → ℕ → Text → Text
unfolding hex_digit
hex_digits zero n acc = acc
hex_digits (suc f) n acc =
    let rest = hex_digits f (n / 16) (hex_digit (n % 16) ∷ acc) in
    if ltb n 16 then hex_digit n ∷ acc else rest

-- `std::hex << std::setw(4) << std::setfill('0') << wire_code`
unfoldable pub show_wire_code : ℕ → Text
unfolding hex_digits
show_wire_code n = pad 4 (hex_digits (suc n) n [])

abbrev pub name_or : Text → Option Text → Text
name_or unknown none = unknown
name_or unknown (some name) = name

-- `TlsHttpCallbacks::collect_connection_details_as_json`, on the group of the last encapsulation.
unfoldable pub collect_connection_details_as_json : GroupParams → Text
collect_connection_details_as_json group =
    codes "{\"kex_algo\": \""
    ++ (name_or (codes "unknown") group.name
        ++ (codes "\",\"is_quantum_safe\": "
            ++ ((if group.is_post_quantum then codes "true" else codes "false")
                ++ (codes ",\"wire_code\": \"0x"
                    ++ (show_wire_code group.wire_code ++ codes "\"}")))))
