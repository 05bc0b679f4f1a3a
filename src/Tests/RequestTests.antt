-- ===== src/Tests/RequestTests.antt =====
-- Inputs for the theorems on src/http_proxy and src/server.rs.
use Prim.Native.Nat.{min}
use http_cache.Prelude.{◌≡◌, refl, ◌-◌, ◌≤◌, [], ◌∷◌, arith, codes, List}
use http_cache.Body.{
  Poll, ready_frame, ready_err, ready_none, pending, data_frame, trailers, payload,
}
use http_cache.Errors.{ProxyError, request_body_too_large}
use http_cache.HttpProxy.LimitedBody.{new, poll_all, poll_frame}
use http_cache.HttpProxy.LimitedBody.Limits.{spec_all, poll_all-spec_all, payload-poll_all-le}
use http_cache.Server.RateLimit.{default_limiter, allow}
use http_cache.Server.RateLimit.Windows.{used, granted, requests, granted-min}

granted-min_example :
    granted default_limiter 7 2 1 (1 ∷ 9 ∷ 1 ∷ 1 ∷ [])
    ≡ min (2 - used default_limiter 1 7) (requests 1 (1 ∷ 9 ∷ 1 ∷ 1 ∷ []))
unfolding allow
granted-min_example =
    granted-min default_limiter 7 2 1 (1 ∷ 9 ∷ 1 ∷ 1 ∷ []) (omega arith) (omega arith)

abbrev polls : List (Poll ProxyError)
polls =
    pending
    ∷ ready_frame (data_frame (codes "hello"))
    ∷ ready_frame (data_frame (codes "world"))
    ∷ ready_frame trailers
    ∷ ready_none
    ∷ []

-- `limited_body_rejects_payloads_that_exceed_limit`
rejects :
    poll_all (λ e. e) (new 8) polls
    ≡ pending
      ∷ ready_frame (data_frame (codes "hello"))
      ∷ ready_err request_body_too_large
      ∷ ready_frame trailers
      ∷ ready_none
      ∷ []
unfolding poll_all poll_frame new
rejects = refl

poll_all-spec_all_example : poll_all (λ e. e) (new 8) polls ≡ spec_all (λ e. e) 8 0 polls
poll_all-spec_all_example = poll_all-spec_all (λ e. e) 8 polls (omega arith)

payload-poll_all-le_example : payload (poll_all (λ e. e) (new 8) polls) ≤ 8
payload-poll_all-le_example = payload-poll_all-le (λ e. e) 8 polls (omega arith)
