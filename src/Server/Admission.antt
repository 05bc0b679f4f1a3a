-- ===== src/Server/Admission.antt =====
-- src/server.rs: `enforce_request_limits` and `estimate_request_header_bytes`. The estimate is a
-- plain sum: a usize does not overflow on headers that fit in memory.
pub mod Admitted
use http_cache.Errors.{Result, err, header_too_large, ok, too_many_requests}
use http_cache.Server.RateLimit.{IpRateLimiter, allow}
use http_cache.Headers.{HeaderLib}
use http_cache.Prelude.{[], ◌∷◌, false, List, Str, ℕ, len, Bool, ◌+◌, if◌then◌else◌, ◌==◌, ltb}

module _ (lib : HeaderLib) where
  open lib use {HeaderName, HeaderValue, HeaderMap, as_str, value_len, iter}

  unfoldable pub headers_bytes : List (HeaderName × HeaderValue) → ℕ
  headers_bytes [] = 0
  headers_bytes ((name, value) ∷ entries) =
      len (as_str name) + value_len value + 4 + headers_bytes entries

  unfoldable pub estimate_request_header_bytes : Str → Str → HeaderMap → ℕ
  unfolding headers_bytes
  estimate_request_header_bytes method uri headers =
      len method + 1 + len uri + 10 + headers_bytes (iter headers) + 2

-- `per_ip_rps == 0 || !rate_limiter.allow(..)`, where the limiter is not asked at a rate of zero.
abbrev pub ask_limiter : IpRateLimiter → ℕ → ℕ → ℕ → IpRateLimiter × Bool
ask_limiter limiter client_ip per_ip_rps now =
    if per_ip_rps == 0 then (limiter, false) else allow limiter now client_ip per_ip_rps

unfoldable pub enforce_bytes : ℕ → ℕ → ℕ → ℕ → ℕ → IpRateLimiter → IpRateLimiter × Result (Unit {0})
unfolding allow
enforce_bytes bytes client_ip max_header_bytes per_ip_rps now limiter =
    if ltb max_header_bytes bytes
    then (limiter, err header_too_large)
    else let asked = ask_limiter limiter client_ip per_ip_rps now in
      (asked.0, if asked.1 then ok tt else err too_many_requests)

unfoldable pub enforce_request_limits :
    (lib : HeaderLib)
    → Str
    → Str
    → lib.HeaderMap
    → ℕ
    → ℕ
    → ℕ
    → ℕ
    → IpRateLimiter
    → IpRateLimiter × Result (Unit {0})
unfolding enforce_bytes estimate_request_header_bytes
enforce_request_limits lib method uri headers client_ip max_header_bytes per_ip_rps now limiter =
    enforce_bytes (estimate_request_header_bytes lib method uri headers) client_ip max_header_bytes
      per_ip_rps now limiter
