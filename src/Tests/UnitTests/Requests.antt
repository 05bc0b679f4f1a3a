-- ===== src/Tests/UnitTests/Requests.antt =====
-- The unit tests of src/server.rs.
use http_cache.Tests.HeaderMaps.{Entries, header_lib}
use http_cache.Server.RateLimit.{default_limiter, allow}
use http_cache.Server.Admission.{estimate_request_header_bytes}
use http_cache.Server.Redaction.{redact_headers_for_logging}
use http_cache.Prelude.{
  ◌≡◌, refl, [], ◌∷◌, true, false, codes, to_ascii_lowercase, str_eq, ◌<◌, arith,
}
use mathlib.Core.List.{Memᴰ}

abbrev headers : Entries
headers =
    (codes "authorization", codes "secret")
    ∷ (codes "cookie", codes "session=abc")
    ∷ (codes "x-test", codes "value")
    ∷ []

abbrev logged_headers : Entries
logged_headers =
    redact_headers_for_logging header_lib (codes "authorization" ∷ codes "cookie" ∷ []) headers

abbrev RedactsConfiguredHeadersForLogging : Type 0
RedactsConfiguredHeadersForLogging =
    Memᴰ (codes "authorization", codes "<redacted>") logged_headers
    × Memᴰ (codes "cookie", codes "<redacted>") logged_headers
    × Memᴰ (codes "x-test", codes "value") logged_headers

redacts_configured_headers_for_logging : RedactsConfiguredHeadersForLogging
unfolding redact_headers_for_logging str_eq to_ascii_lowercase
redacts_configured_headers_for_logging =
    (Memᴰ.head refl, Memᴰ.tail (Memᴰ.head refl), Memᴰ.tail (Memᴰ.tail (Memᴰ.head refl)))

-- In one second, 7, for one address, 1.
abbrev RateLimiterBlocksAfterLimitWithinSameSecond : Type 0
RateLimiterBlocksAfterLimitWithinSameSecond =
    let (limiter, first) = allow default_limiter 7 1 1 in
    (first ≡ true) × ((allow limiter 7 1 1).1 ≡ false)

rate_limiter_blocks_after_limit_within_same_second : RateLimiterBlocksAfterLimitWithinSameSecond
unfolding allow
rate_limiter_blocks_after_limit_within_same_second = (refl, refl)

abbrev two_headers : Entries
two_headers = (codes "host", codes "example.com") ∷ (codes "x-test", codes "value") ∷ []

abbrev EstimatesRequestHeaderBytes : Type 0
EstimatesRequestHeaderBytes =
    0
    < estimate_request_header_bytes header_lib (codes "GET") (codes "http://example.com/asset")
        two_headers

estimates_request_header_bytes : EstimatesRequestHeaderBytes
unfolding estimate_request_header_bytes
estimates_request_header_bytes = omega arith
