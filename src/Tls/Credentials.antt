-- ===== src/Tls/Credentials.antt =====
-- The two credentials managers: `Basic_Credentials_Manager` of server/src/net/QuantumSafeTlsEngine.hpp
-- and `Proxy_Credentials_Manager` of proxy/src/main.cpp. A file of certificates is what the tries to read
-- one from it give, up to its end: a certificate, or an exception.
pub mod Keys
use management_sensors.Prelude.{
  ℕ, ◌<◌, ◌≡◌, ◌↔◌, refl, sym, ap, ◌∙◌, inl, inr, Bool, true, false, not, ◌&&◌, ◌||◌, Text, codes,
  text_eq, text_eq_refl, List, [], ◌∷◌, Option, none, some, Outcome, ok, throw, Safe, safe, fault,
  and_then, if◌then◌else◌, Bool-cases, arith,
}

-- Botan's certificates and private keys, with what the managers ask of them.
pub record Botan : Type 1 where
  pub X509Certificate : Type 0
  pub PrivateKey : Type 0
  pub same_certificate : X509Certificate → X509Certificate → Bool
  pub matches_dns_name : X509Certificate → Text → Bool
  pub algo_name : PrivateKey → Text

module _ (b : Botan) where
  open b use {X509Certificate, PrivateKey, same_certificate, matches_dns_name, algo_name}

  -- The loop over the file: what cannot be read is left out.
  unfoldable pub load_chain : List (Outcome X509Certificate) → List X509Certificate
  load_chain [] = []
  load_chain (ok cert ∷ tries) = cert ∷ load_chain tries
  load_chain (throw e ∷ tries) = load_chain tries

  -- Basic_Credentials_Manager::Certificate_Info
  pub record CertificateInfo : Type 0 where
    pub certs : List X509Certificate
    pub key : PrivateKey

  -- The constructor: `m_creds`, or the exception of a key file that cannot be read.
  unfoldable pub basic_credentials :
      Outcome PrivateKey → List (Outcome X509Certificate) → Outcome (List CertificateInfo)
  basic_credentials (throw e) tries = throw e
  basic_credentials (ok key) tries = ok (record { certs = load_chain tries; key = key } ∷ [])

  -- certs.front()
  abbrev pub front : List X509Certificate → Safe X509Certificate
  front [] = fault
  front (cert ∷ certs) = safe cert

  abbrev pub any_of : List Text → Text → Bool
  any_of [] name = false
  any_of (algo ∷ algos) name = text_eq algo name || any_of algos name

  abbrev pub is_empty : Text → Bool
  is_empty [] = true
  is_empty _ = false

  -- The test of `find_cert_chain`, in the order of its `&&` and `||`.
  unfoldable pub serves : List Text → Text → CertificateInfo → Safe Bool
  serves algos hostname cred =
      if not (any_of algos (algo_name cred.key))
      then safe false
      else if is_empty hostname
      then safe true
      else and_then (front cred.certs) (λ cert. safe (matches_dns_name cert hostname))

  -- std::ranges::find_if with a test that follows pointers.
  unfoldable pub find_if :
      (CertificateInfo → Safe Bool) → List CertificateInfo → Safe (Option CertificateInfo)
  find_if test [] = safe none
  find_if test (cred ∷ creds) =
      let rest = find_if test creds in
      and_then (test cred) (λ found. if found then safe (some cred) else rest)

  certs_or_none : Option CertificateInfo → List X509Certificate
  certs_or_none none = []
  certs_or_none (some cred) = cred.certs

  key_or_null : Option CertificateInfo → Option PrivateKey
  key_or_null none = none
  key_or_null (some cred) = some cred.key

  -- `Basic_Credentials_Manager::find_cert_chain`
  unfoldable pub find_cert_chain :
      List CertificateInfo → List Text → Text → Safe (List X509Certificate)
  unfolding certs_or_none
  find_cert_chain creds algos hostname =
      and_then (find_if (serves algos hostname) creds) (λ cred. safe (certs_or_none cred))

  unfoldable pub leads_with : X509Certificate → CertificateInfo → Safe Bool
  leads_with cert cred = and_then (front cred.certs) (λ first. safe (same_certificate first cert))

  -- `Basic_Credentials_Manager::private_key_for`
  unfoldable pub private_key_for : List CertificateInfo → X509Certificate → Safe (Option PrivateKey)
  unfolding key_or_null
  private_key_for creds cert =
      and_then (find_if (leads_with cert) creds) (λ cred. safe (key_or_null cred))

  -- Proxy_Credentials_Manager, without its CA store: `certs_` and `key_`.
  unfoldable pub proxy_private_key_for : CertificateInfo → X509Certificate → Option PrivateKey
  proxy_private_key_for creds cert = key_if creds.certs
    where
      key_if : List X509Certificate → Option PrivateKey
      key_if [] = none
      key_if (first ∷ rest) = if same_certificate first cert then some creds.key else none

  -- Proxy_Credentials_Manager::trusted_certificate_authorities: whether the CA store is among them.
  unfoldable pub trusts_ca_store : Text → Bool
  trusts_ca_store type = text_eq type (codes "tls-client")
