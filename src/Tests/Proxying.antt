-- ===== src/Tests/Proxying.antt =====
-- Two frontends at the proxy: proxy/src/main.cpp.
use management_sensors.Prelude.{◌≡◌, refl, codes, none, some}
use management_sensors.Prelude.Map.{lookup}
use management_sensors.Http.{Request, Response, status_ok, string_body}
use management_sensors.Proxy.{answered, System, Reach, kept, closing}
use management_sensors.Proxy.Swapped.{Reach-swapped}
use management_sensors.Tests.Requests.{index_request, config_request}

-- A backend that answers with the target that it was asked for.
abbrev told : Request → Response
told q = record {
  status = status_ok;
  version = q.version;
  server = codes "Botan 3";
  content_type = codes "text/plain";
  www_authenticate = none;
  keep_alive = q.keep_alive;
  body = string_body q.target;
}

abbrev Told : Request → Response → Type 0
Told q r = r ≡ told q

Reach-swapped_example :
    (s : System) × Reach Told s
    × (lookup 0 s.sessions ≡ some (answered index_request (closing (told (kept config_request)))))
    × (lookup 1 s.sessions ≡ some (answered config_request (closing (told (kept index_request)))))
Reach-swapped_example =
    Reach-swapped Told index_request config_request (told (kept index_request))
      (told (kept config_request)) refl refl
