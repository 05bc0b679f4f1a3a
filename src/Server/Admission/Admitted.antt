-- ===== src/Server/Admission/Admitted.antt =====
-- Which requests `enforce_request_limits` of src/server.rs lets through.
use http_cache.Headers.{HeaderLib}
use http_cache.Server.Admission.{
  enforce_request_limits, enforce_bytes, estimate_request_header_bytes,
}
use http_cache.Errors.{ok, err, header_too_large, too_many_requests, Result}
use http_cache.Server.RateLimit.{IpRateLimiter, allow}
use http_cache.Prelude.{true, false, ℕ, ◌≡◌, ◌↔◌, ◌≤◌, ◌<◌, ◌⊎◌, arith, Bool, Str}

-- What comes of a request whose headers are estimated at so many bytes.
abbrev pub Admits : ℕ → ℕ → ℕ → Bool → IpRateLimiter → IpRateLimiter × Result (Unit {0}) → Type 0
Admits bytes max_header_bytes per_ip_rps granted limiter result =
    ((result.1 ≡ ok tt) ↔ ((bytes ≤ max_header_bytes) × (0 < per_ip_rps) × (granted ≡ true)))
    × (max_header_bytes < bytes → result ≡ (limiter, err header_too_large))
    × (bytes ≤ max_header_bytes
        → (per_ip_rps ≡ 0) ⊎ (granted ≡ false)
        → result.1 ≡ err too_many_requests)

module _ (client_ip max_header_bytes per_ip_rps now : ℕ) (limiter : IpRateLimiter) where
  enforce_bytes-Admits :
      (bytes : ℕ)
      → Admits bytes max_header_bytes per_ip_rps
          (allow limiter now client_ip per_ip_rps).1
          limiter
          (enforce_bytes bytes client_ip max_header_bytes per_ip_rps now limiter)
  unfolding enforce_bytes
  enforce_bytes-Admits bytes = ground arith

  -- A request passes exactly if its headers, as estimated, are within the limit, the rate is not
  -- zero and the rate limiter grants it. Headers over the limit are refused as such and leave the
  -- limiter as it is; every other refusal is for the rate.
  pub enforce_request_limits-Admits :
      (lib : HeaderLib) (method uri : Str) (headers : lib.HeaderMap)
      → Admits
          (estimate_request_header_bytes lib method uri headers)
          max_header_bytes
          per_ip_rps
          (allow limiter now client_ip per_ip_rps).1
          limiter
          (enforce_request_limits lib method uri headers client_ip max_header_bytes per_ip_rps now
            limiter)
  unfolding enforce_request_limits
  enforce_request_limits-Admits lib method uri headers =
      enforce_bytes-Admits (estimate_request_header_bytes lib method uri headers)
