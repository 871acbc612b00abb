-- ===== src/Ocsp.antt =====
-- server/src/oscp/ocsp_cache.{hpp,cpp}: OCSP responses of the server's certificate, fetched from the CA
-- and kept for a while. Botan's certificates and responses and the HTTP exchange are parameters; the
-- clock is an argument, in nanoseconds. `fromCache` and the storing in `intoCache` hold `m_mutex` and are
-- one step each. Durations and times are natural numbers: what the 64-bit integers of std::chrono do
-- with an ocsp-cache-time that is negative as an int64, or ends after 2^63 nanoseconds, is not modelled.
pub mod Address
pub mod Backoff
pub mod Cache
pub mod Lookup
pub mod Ports
use management_sensors.Prelude.{
  ℕ, zero, suc, ◌+◌, ◌*◌, ◌/◌, Bool, true, false, not, ◌&&◌, ◌||◌, Text, codes, text_eq, List, [],
  ◌∷◌, Option, none, some, Outcome, ok, throw, if◌then◌else◌, ltb, ◌==◌,
}
use Address.{Url, parse_url, port_of}

pub data CertificateStatus : Type 0 where
  ocsp_response_good ocsp_not_yet_valid other_status : CertificateStatus

-- Botan::OCSP::Response: whether its status is Successful, its `status_for` the server's certificate at
-- a time, and its `raw_bits`.
pub record Response : Type 0 where
  pub successful : Bool
  pub status_for : ℕ → CertificateStatus
  pub raw_bits : Text

-- What is asked of the subject's certificate.
pub record Subject : Type 0 where
  pub fingerprint : Text
  pub ocsp_responder : Text

-- The exchange with a responder: host, port and target give whether the status was 200, and the body;
-- and the constructor of a response, which throws on a body that it cannot read.
pub record Network : Type 0 where
  pub post : Text → Text → Text → Outcome (Bool × Text)
  pub read_response : Text → Outcome Response

pub record CacheEntry : Type 0 where
  pub ocsp_response : Text
  pub valid_until : ℕ

-- `m_cache`, a std::map, with one entry for each fingerprint.
abbrev pub Entries : Type 0
Entries = List (Text × CacheEntry)

pub record OcspCache : Type 0 where
  pub m_cache : Entries
  pub m_cache_duration : ℕ

abbrev pub minute : ℕ
minute = 60_000_000_000

unfoldable pub find : Text → Entries → Option CacheEntry
find k [] = none
find k ((j, e) ∷ m) = if text_eq j k then some e else find k m

unfoldable pub insert : Text → CacheEntry → Entries → Entries
insert k e [] = (k, e) ∷ []
insert k e ((j, f) ∷ m) = if text_eq j k then (k, e) ∷ m else (j, f) ∷ insert k e m

unfoldable pub is_not_yet_valid : CertificateStatus → Bool
is_not_yet_valid ocsp_not_yet_valid = true
is_not_yet_valid _ = false

unfoldable pub is_good : CertificateStatus → Bool
is_good ocsp_response_good = true
is_good _ = false

-- `OCSP_Cache::fromCache`
unfoldable pub from_cache : OcspCache → Text → ℕ → Text
from_cache c fingerprint now = elim (find fingerprint c.m_cache) [
  | none ↦ []
  | some e ↦ if ltb e.valid_until now then [] else e.ocsp_response
]

-- The loop of `intoCache` that halves the duration, in minutes; the fuel is more than the duration.
unfoldable pub backoff : Response → ℕ → ℕ → ℕ → ℕ
backoff r ref zero d = d
backoff r ref (suc f) d =
    elim (not (d == 0) && is_not_yet_valid (r.status_for (ref + d * minute))) [
      | true ↦ backoff r ref f (d / 2)
      | false ↦ d
    ]

-- `OCSP_Cache::intoCache`
unfoldable pub into_cache : OcspCache → Text → Response → ℕ → Text × OcspCache
into_cache c fingerprint r now =
    let d = backoff r now (suc c.m_cache_duration) c.m_cache_duration in
    let entry : CacheEntry = record {
      ocsp_response = r.raw_bits;
      valid_until = now + d * minute;
    } in
    (entry.ocsp_response, record c { m_cache = insert fingerprint entry c.m_cache })

module _ (n : Network) where
  unfoldable pub read_reply : Outcome (Bool × Text) → Outcome (Option Response)
  read_reply (throw e) = throw e
  read_reply (ok (false, body)) = ok none
  read_reply (ok (true, body)) = elim (n.read_response body) [
    | throw e ↦ throw e
    | ok r ↦ ok (some r)
  ]

  unfoldable pub fetch_from : Option Url → Outcome (Option Response)
  unfolding read_reply
  fetch_from none = ok none
  fetch_from (some url) = read_reply (n.post url.host (port_of url) url.target)

  unfoldable pub is_empty : Text → Bool
  is_empty [] = true
  is_empty (c ∷ s) = false

  -- `OCSP_Cache::fetchOCSPResponse`
  unfoldable pub fetch_ocsp_response : Subject → Outcome (Option Response)
  unfolding fetch_from is_empty
  fetch_ocsp_response subject =
      if is_empty subject.ocsp_responder
      then ok none
      else fetch_from (parse_url subject.ocsp_responder)

  unfoldable pub keep_response :
      OcspCache → Text → ℕ → ℕ → Outcome (Option Response) → Outcome Text × OcspCache
  keep_response c fingerprint checked stored (throw e) = (throw e, c)
  keep_response c fingerprint checked stored (ok none) = (ok [], c)
  keep_response c fingerprint checked stored (ok (some r)) =
      if not r.successful || not (is_good (r.status_for checked))
      then (ok [], c)
      else let (bits, c') = into_cache c fingerprint r stored in (ok bits, c')

  module _ (others : OcspCache → OcspCache) where
    unfoldable pub cached_or_fetched : OcspCache → Subject → ℕ → ℕ → Text → Outcome Text × OcspCache
    unfolding keep_response
    cached_or_fetched c subject checked stored (b ∷ bits) = (ok (b ∷ bits), c)
    cached_or_fetched c subject checked stored [] =
        keep_response (others c) subject.fingerprint checked stored (fetch_ocsp_response subject)

    -- `OCSP_Cache::getOCSPResponse`; the three times are those at which the cache is read, the fetched
    -- response is checked, and it is stored. `m_mutex` is free between the reading and the storing:
    -- `others` is what the other sessions do to the cache meanwhile.
    unfoldable pub get_ocsp_response : OcspCache → Subject → ℕ → ℕ → ℕ → Outcome Text × OcspCache
    unfolding cached_or_fetched
    get_ocsp_response c subject read checked stored =
        cached_or_fetched c subject checked stored (from_cache c subject.fingerprint read)
