-- ===== src/Tests/ServerTests.antt =====
-- Inputs for the theorems on the request handler of src/server.rs.
use http_cache.Server.Admission.Admitted.{Admits, enforce_request_limits-Admits}
use http_cache.Server.RateLimit.{default_limiter, allow}
use http_cache.Server.Admission.{enforce_request_limits, estimate_request_header_bytes}
use http_cache.Server.Redaction.{redact_headers_for_logging}
use http_cache.Tests.HeaderMaps.{Entries, header_lib}
use http_cache.Prelude.{refl, [], ◌∷◌, List, codes, to_ascii_lowercase, Str, str_eq, ◌≡◌}
use mathlib.Core.List.{Memᴰ}

-- `redacts_configured_headers_for_logging`
abbrev headers : Entries
headers = (codes "authorization", codes "secret") ∷ (codes "x-test", codes "value") ∷ []

abbrev names : List Str
names = codes "Authorization" ∷ codes "cookie" ∷ []

log :
    redact_headers_for_logging header_lib names headers
    ≡ (codes "authorization", codes "<redacted>") ∷ (codes "x-test", codes "value") ∷ []
unfolding redact_headers_for_logging str_eq to_ascii_lowercase
log = refl

in_log :
    Memᴰ
      (codes "authorization", codes "<redacted>")
      (redact_headers_for_logging header_lib names headers)
in_log = rw log (Memᴰ.head refl)

enforce_request_limits-Admits_example :
    Admits
      (estimate_request_header_bytes header_lib (codes "GET") (codes "http://a/") headers)
      4096
      1
      (allow default_limiter 1 7 1).1
      default_limiter
      (enforce_request_limits header_lib
        (codes "GET")
        (codes "http://a/")
        headers
        7
        4096
        1
        1
        default_limiter)
enforce_request_limits-Admits_example =
    enforce_request_limits-Admits 7 4096 1 1 default_limiter header_lib (codes "GET")
      (codes "http://a/") headers
