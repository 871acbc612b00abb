-- ===== src/Tests/Handshakes.antt =====
-- Handshakes of the server: server/src/net/QuantumSafeTlsEngine.{hpp,cpp}.
use management_sensors.Prelude.{
  ◌≡◌, ◌↔◌, refl, codes, Text, text_eq, text_eq_refl, [], ◌∷◌, some, true, false, ok, throw,
  std_exception, safe, fault, Outcome, List,
}
use management_sensors.Tls.Credentials.{
  Botan, CertificateInfo, basic_credentials, load_chain, find_cert_chain, private_key_for, any_of,
  is_empty, find_if, serves,
}
use management_sensors.Tls.Credentials.Keys.{
  private_key_for-find_cert_chain, find_cert_chain_fault_iff,
}
use management_sensors.Tls.Details.{GroupParams, show_wire_code, collect_connection_details_as_json}
use management_sensors.Tls.Engine.{Session, new_engine, serve, get_latest_connection_details}
use management_sensors.Tls.Engine.Sessions.{serve-latest}

-- Certificates are host names, and a key is the name of its algorithm.
abbrev names : Botan
names = record {
  X509Certificate = Text;
  PrivateKey = Text;
  same_certificate = text_eq;
  matches_dns_name = text_eq;
  algo_name = λ key. key;
}

-- A file with a certificate after what cannot be read.
abbrev tries : List (Outcome Text)
tries = throw (std_exception (codes "PEM")) ∷ ok (codes "localhost") ∷ []

abbrev dilithium : Text
dilithium = codes "Dilithium"

abbrev creds : List (CertificateInfo names)
creds = record { certs = codes "localhost" ∷ []; key = dilithium } ∷ []

creds-made : basic_credentials names (ok dilithium) tries ≡ ok creds
unfolding basic_credentials load_chain
creds-made = refl

chain-found :
    find_cert_chain names creds (dilithium ∷ []) (codes "localhost") ≡ safe (codes "localhost" ∷ [])
unfolding find_cert_chain find_if serves text_eq
chain-found = refl

private_key_for-find_cert_chain_example :
    (any_of names (dilithium ∷ []) dilithium ≡ true)
    × (private_key_for names creds (codes "localhost") ≡ safe (some dilithium))
private_key_for-find_cert_chain_example =
    private_key_for-find_cert_chain names text_eq_refl dilithium tries creds (dilithium ∷ [])
      (codes "localhost") (codes "localhost") [] creds-made chain-found

find_cert_chain_fault_iff_example :
    (find_cert_chain names creds (dilithium ∷ []) (codes "localhost") ≡ fault) ↔ (
      (any_of names (dilithium ∷ []) dilithium ≡ true)
      × (is_empty names (codes "localhost") ≡ false)
      × (load_chain names tries ≡ []))
find_cert_chain_fault_iff_example =
    find_cert_chain_fault_iff names dilithium tries creds (dilithium ∷ []) (codes "localhost")
      creds-made

abbrev kyber : GroupParams
kyber = record { name = some (codes "ML-KEM-768"); is_post_quantum = true; wire_code = 513 }

abbrev completed : Session
completed = record {
  handshake = ok kyber;
  handled = ok tt;
  tls_shutdown = ok tt;
  socket_shutdown = ok tt;
}

abbrev refused : Session
refused = record completed { handshake = throw (std_exception (codes "alert")) }

serve-latest_example :
    get_latest_connection_details (serve (refused ∷ completed ∷ refused ∷ []) new_engine)
    ≡ collect_connection_details_as_json kyber
serve-latest_example =
    serve-latest (refused ∷ []) (refused ∷ []) completed kyber new_engine refl
      ((std_exception (codes "alert"), refl), tt)

kyber-details :
    collect_connection_details_as_json kyber
    ≡ codes "{\"kex_algo\": \"ML-KEM-768\",\"is_quantum_safe\": true,\"wire_code\": \"0x0201\"}"
unfolding collect_connection_details_as_json show_wire_code
kyber-details = refl
