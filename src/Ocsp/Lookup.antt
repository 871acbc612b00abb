-- ===== src/Ocsp/Lookup.antt =====
-- `getOCSPResponse` of server/src/oscp/ocsp_cache.cpp: what it answers and what it keeps.
use management_sensors.Prelude.{
  ◌+◌, ◌*◌, ◌≤◌, ◌<◌, ℕ, ◌≡◌, ◌≢◌, true, Text, [], none, some, Exception, ok, throw, Outcome,
}
use management_sensors.Ocsp.Backoff.{Halves}
use management_sensors.Ocsp.{
  minute, OcspCache, Subject, Network, Response, from_cache, fetch_ocsp_response, is_good,
}

-- The cache after a response has been stored: it gives the response for its certificate until the time
-- that is left of halving the duration is over, and none after that; for every other certificate it
-- gives what it gave before.
pub record Stored (before : OcspCache) (key : Text) (r : Response) (stored : ℕ) (after : OcspCache)
    : Type 0 where
  pub minutes : ℕ
  pub halved : Halves r stored before.m_cache_duration minutes
  pub hit : (now : ℕ) → now ≤ stored + minutes * minute → from_cache after key now ≡ r.raw_bits
  pub over : (now : ℕ) → stored + minutes * minute < now → from_cache after key now ≡ []
  pub others_kept :
      (other : Text) (now : ℕ)
      → key ≢ other
      → from_cache after other now ≡ from_cache before other now

module _ (n : Network) (others : OcspCache → OcspCache) (c : OcspCache) (subject : Subject) where
  -- A fetched response that the server hands on.
  abbrev pub Usable : Response → ℕ → Type 0
  Usable r checked = (r.successful ≡ true) × (is_good (r.status_for checked) ≡ true)

  -- What a request reads from the cache.
  abbrev pub Cached : ℕ → Text
  Cached read = from_cache c subject.fingerprint read

  -- The ways a request can end: the answer with the cache that it leaves.
  pub data Answer (read checked stored : ℕ) : Outcome Text × OcspCache → Type 0 where
    from_the_cache : Cached read ≢ [] → Answer read checked stored (ok (Cached read), c)
    from_the_responder :
        Cached read ≡ []
        → (r : Response) → fetch_ocsp_response n subject ≡ ok (some r)
        → Usable r checked
        → (after : OcspCache) → Stored (others c) subject.fingerprint r stored after
        → Answer read checked stored (ok r.raw_bits, after)
    no_response :
        Cached read ≡ []
        → fetch_ocsp_response n subject ≡ ok none
        → Answer read checked stored (ok [], others c)
    not_usable :
        Cached read ≡ []
        → (r : Response) → fetch_ocsp_response n subject ≡ ok (some r)
        → ¬ Usable r checked
        → Answer read checked stored (ok [], others c)
    failed :
        Cached read ≡ []
        → (e : Exception) → fetch_ocsp_response n subject ≡ throw e
        → Answer read checked stored (throw e, others c)
