-- ===== src/Tests/Certificates.antt =====
-- The OCSP cache on one certificate: server/src/oscp/ocsp_cache.cpp.
use management_sensors.Prelude.{
  ◌++◌, Without, ◌*◌, ◌≡◌, refl, codes, [], none, some, ok, true, if◌then◌else◌, ltb,
}
use management_sensors.Ocsp.{
  ocsp_response_good, ocsp_not_yet_valid, Response, Subject, Network, OcspCache, minute, backoff,
  is_not_yet_valid,
}
use management_sensors.Ocsp.Address.{Url, parse_url, port_of}
use management_sensors.Ocsp.Ports.{separator, authority, parse_url-parts}

-- A response that is good for twenty minutes.
abbrev good_response : Response
good_response = record {
  successful = true;
  status_for = λ t. if ltb t (20 * minute) then ocsp_response_good else ocsp_not_yet_valid;
  raw_bits = codes "bits";
}

abbrev server_certificate : Subject
server_certificate = record {
  fingerprint = codes "AA:BB";
  ocsp_responder = codes "http://ca.local/ocsp";
}

abbrev good_network : Network
good_network = record {
  post = λ host port target. ok (true, codes "body");
  read_response = λ body. ok good_response;
}

abbrev empty_cache : OcspCache
empty_cache = record { m_cache = []; m_cache_duration = 60 }

https-Without : Without b':' (codes "https")
https-Without = (λ e. cc, (λ e. cc, (λ e. cc, (λ e. cc, (λ e. cc, tt)))))

host_colon : Without b':' (codes "ca.local")
host_colon =
    (λ e. cc, (λ e. cc, (λ e. cc, (λ e. cc, (λ e. cc, (λ e. cc, (λ e. cc, (λ e. cc, tt))))))))

host_slash : Without b'/' (codes "ca.local")
host_slash =
    (λ e. cc, (λ e. cc, (λ e. cc, (λ e. cc, (λ e. cc, (λ e. cc, (λ e. cc, (λ e. cc, tt))))))))

-- The port 80 for an address of the scheme https.
parse_url-parts_example :
    (url : Url) × (parse_url
        (codes "https" ++ (separator ++ (authority (codes "ca.local") none ++ codes "/ocsp")))
      ≡ some url)
    × (url.host ≡ codes "ca.local")
    × (url.target ≡ codes "/ocsp")
    × (port_of url ≡ codes "80")
parse_url-parts_example =
    parse_url-parts (codes "https") (codes "ca.local") none (codes "/ocsp") https-Without host_colon
      host_slash refl

-- The halved duration: sixty minutes, thirty, and then fifteen, at whose end the response is good.
fifteen_minutes : backoff good_response 0 61 60 ≡ 15
unfolding backoff is_not_yet_valid
fifteen_minutes = refl
