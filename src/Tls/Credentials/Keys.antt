-- ===== src/Tls/Credentials/Keys.antt =====
-- The credentials of the server's handshakes: `Basic_Credentials_Manager` of
-- server/src/net/QuantumSafeTlsEngine.hpp.
use management_sensors.Prelude.{
  ◌≡◌, ◌↔◌, sym, subst, true, false, Text, List, [], ◌∷◌, some, Outcome, ok, safe, fault, arith,
}
use management_sensors.Tls.Credentials.{
  Botan, CertificateInfo, load_chain, basic_credentials, find_cert_chain, private_key_for, find_if,
  serves, leads_with, any_of, is_empty, certs_or_none, key_or_null,
}

module _ (b : Botan) where
  open b use {X509Certificate, PrivateKey, same_certificate, algo_name}

  key_of_chain :
      (same : (c : X509Certificate) → same_certificate c c ≡ true) (certs : List X509Certificate)
      (key : PrivateKey) (algos : List Text) (hostname : Text) (cert : X509Certificate)
      (rest : List X509Certificate)
      → find_cert_chain b (record { certs = certs; key = key } ∷ []) algos hostname
        ≡ safe (cert ∷ rest)
      → (any_of b algos (algo_name key) ≡ true)
        × (private_key_for b (record { certs = certs; key = key } ∷ []) cert ≡ safe (some key))
  unfolding find_cert_chain private_key_for find_if serves leads_with certs_or_none key_or_null
  key_of_chain same [] key algos hostname cert rest found = ground (arith, found)
  key_of_chain same (first ∷ certs) key algos hostname cert rest found =
      ground (arith, found, same first)

  fault_of_chain :
      (certs : List X509Certificate) (key : PrivateKey) (algos : List Text) (hostname : Text)
      → (find_cert_chain b (record { certs = certs; key = key } ∷ []) algos hostname ≡ fault)
        ↔ ((any_of b algos (algo_name key) ≡ true) × (is_empty b hostname ≡ false) × (certs ≡ []))
  unfolding find_cert_chain find_if serves certs_or_none
  fault_of_chain [] key algos hostname = ground arith
  fault_of_chain (first ∷ certs) key algos hostname = ground arith

  -- A chain that `find_cert_chain` offers, of one certificate or more, is of a key whose algorithm the
  -- client takes, and `private_key_for` its first certificate is that key.
  pub private_key_for-find_cert_chain :
      (same : (c : X509Certificate) → same_certificate c c ≡ true) (key : PrivateKey)
      (tries : List (Outcome X509Certificate)) (creds : List (CertificateInfo b))
      (algos : List Text) (hostname : Text) (cert : X509Certificate) (rest : List X509Certificate)
      → basic_credentials b (ok key) tries ≡ ok creds
      → find_cert_chain b creds algos hostname ≡ safe (cert ∷ rest)
      → (any_of b algos (algo_name key) ≡ true) × (private_key_for b creds cert ≡ safe (some key))
  unfolding basic_credentials
  private_key_for-find_cert_chain same key tries creds algos hostname cert rest made found =
      let one : (record { certs = load_chain b tries; key = key } ∷ []) ≡ creds = cc in
      subst
        (λ l.
          (any_of b algos (algo_name key) ≡ true) × (private_key_for b l cert ≡ safe (some key)))
        one
        (key_of_chain same (load_chain b tries) key algos hostname cert rest
          (subst (λ l. find_cert_chain b l algos hostname ≡ safe (cert ∷ rest)) (sym one) found))

  -- With the key of the constructor, `find_cert_chain` follows the pointer to the first of no certificates
  -- exactly if no certificate of the file could be read, the client offers the algorithm of the key, and
  -- it names a host.
  pub find_cert_chain_fault_iff :
      (key : PrivateKey) (tries : List (Outcome X509Certificate)) (creds : List (CertificateInfo b))
      (algos : List Text) (hostname : Text)
      → basic_credentials b (ok key) tries ≡ ok creds
      → (find_cert_chain b creds algos hostname ≡ fault) ↔ (
          (any_of b algos (algo_name key) ≡ true)
          × (is_empty b hostname ≡ false)
          × (load_chain b tries ≡ []))
  unfolding basic_credentials
  find_cert_chain_fault_iff key tries creds algos hostname made =
      let one : (record { certs = load_chain b tries; key = key } ∷ []) ≡ creds = cc in
      subst
        (λ l. (find_cert_chain b l algos hostname ≡ fault) ↔ (
          (any_of b algos (algo_name key) ≡ true)
          × (is_empty b hostname ≡ false)
          × (load_chain b tries ≡ [])))
        one (fault_of_chain (load_chain b tries) key algos hostname)
