-- ===== src/Ocsp/Backoff.antt =====
-- The loop of `intoCache` of server/src/oscp/ocsp_cache.cpp that halves the cache duration.
use management_sensors.Prelude.{ℕ, ◌+◌, ◌*◌, ◌/◌, ◌≡◌, ◌≢◌, true}
use management_sensors.Ocsp.{Response, minute, is_not_yet_valid}

-- A duration that the loop goes on from.
abbrev pub TooLong : Response → ℕ → ℕ → Type 0
TooLong r ref d = (d ≢ 0) × (is_not_yet_valid (r.status_for (ref + d * minute)) ≡ true)

-- The runs of the loop without fuel, from a duration to the one it ends with.
pub data Halves (r : Response) (ref : ℕ) : ℕ → ℕ → Type 0 where
  stops : (d : ℕ) → ¬ TooLong r ref d → Halves r ref d d
  halves : (d e : ℕ) → TooLong r ref d → Halves r ref (d / 2) e → Halves r ref d e
