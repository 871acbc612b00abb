-- ===== src/Ocsp/Cache.antt =====
-- `fromCache` and `intoCache` of server/src/oscp/ocsp_cache.cpp: the cache as a map that forgets.
use management_sensors.Prelude.{
  ℕ, suc, ◌+◌, ◌*◌, ◌≡◌, refl, sym, inl, inr, Bool, true, false, Text, text_eq, text_eq_refl,
  text_eq_sound, Bool-cases, [], ◌∷◌, some, if◌then◌else◌, ltb,
}
use management_sensors.Ocsp.{
  OcspCache, CacheEntry, Entries, find, insert, from_cache, into_cache, backoff, minute, Response,
}

if_again {ℓ} :
    {A : Type ℓ} (b : Bool) (x y z : A)
    → (if b then x else y) ≡ (if b then x else if b then z else y)
if_again true x y z = refl
if_again false x y z = refl

pub find-insert :
    (k j : Text) (e : CacheEntry) (m : Entries)
    → find j (insert k e m) ≡ (if text_eq k j then some e else find j m)
unfolding find insert
find-insert k j e [] = refl
find-insert k j e ((i, f) ∷ m) = elim (Bool-cases (text_eq i k)) [
  | inl same ↦
      rw (same, text_eq_sound i k same) (if_again (text_eq k j) (some e) (find j m) (some f))
  | inr other ↦ elim (Bool-cases (text_eq k j)) [
    | inl here ↦
        rw (sym (text_eq_sound k j here), other, other, find-insert k k e m, text_eq_refl k) refl
    | inr there ↦ rw (other, find-insert k j e m, there) refl
  ]
]

-- After `intoCache`, a certificate's response is the one stored until its time is over and none after
-- it, and what the cache gives for every other certificate is as before.
pub from_cache-into_cache :
    (c : OcspCache) (k : Text) (r : Response) (stored : ℕ) (j : Text) (now : ℕ)
    → let (bits, after) = into_cache c k r stored in
      let valid_until =
        stored + backoff r stored (suc c.m_cache_duration) c.m_cache_duration * minute in
      from_cache after j now
      ≡ (if text_eq k j then if ltb valid_until now then [] else r.raw_bits else from_cache c j now)
unfolding from_cache into_cache
from_cache-into_cache c k r stored j now =
    let e : CacheEntry = record {
      ocsp_response = r.raw_bits;
      valid_until = stored + backoff r stored (suc c.m_cache_duration) c.m_cache_duration * minute;
    } in
    elim (Bool-cases (text_eq k j)) [
      | inl same ↦ rw (from_cache, find-insert k j e c.m_cache, same) refl
      | inr other ↦ rw (from_cache, find-insert k j e c.m_cache, other) refl
    ]
