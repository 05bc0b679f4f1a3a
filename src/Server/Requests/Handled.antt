-- ===== src/Server/Requests/Handled.antt =====
-- What comes of a request to `handle_request` of src/server.rs.
use http_cache.Server.Admission.{enforce_request_limits}
use http_cache.Server.RateLimit.{IpAddr, IpRateLimiter}
use http_cache.Config.{Config}
use http_cache.Cache.Backend.{Cache}
use http_cache.Policy.{PolicyEngine}
use http_cache.Cache.Sqlite.{Json, Order}
use http_cache.HttpProxy.Expiry.{DateReader}
use http_cache.HttpProxy.Upstream.{UriLib, Request}
use http_cache.Headers.{HeaderLib}
use http_cache.Prelude.{
  ℕ, arith, ◌≤◌, ◌<◌, refl, inl, inr, List, ◌≢◌, Bool-cases, Str, codes, str_eq, ◌≡◌, str_eq_sound,
  str_eq_iff,
}
use http_cache.Policy
use http_cache.Network.Permitted.{TriesPermitted}
use http_cache.Connect.{Tunnel}
use http_cache.Connect.Tunnelled.{Opens, IsTunnelled, handle_connect-IsTunnelled}
use http_cache.HttpProxy.Forwarding.{Shared, Readings, Network, Reply}
use http_cache.HttpProxy.Forwarding.Served.{IsReply, IsServed, handle_http-IsServed}
use http_cache.Errors.{ProxyError, Result, ok, err, to_response, status_code}
use http_cache.Server.Requests.{
  app_state, Proxy, Outcome, tunnelled, replied, failed, end_connect, end_http, dispatch,
  after_limits, handle_request, LogLine,
}

-- The status of an error is that of a client or a server error.
abbrev pub IsFailure : ℕ → Type 0
IsFailure status = (400 ≤ status) × (status < 600)

status_code-IsFailure : (e : ProxyError) → IsFailure (status_code e)
unfolding status_code
status_code-IsFailure _ = ground arith

to_response-IsFailure : (e : ProxyError) → IsFailure (to_response e).text_status
unfolding to_response
to_response-IsFailure e = status_code-IsFailure e

module _ (lib : HeaderLib) (uris : UriLib) (parse_http_date : DateReader) (policy : PolicyEngine)
    (cache : Cache) (config : Config) (readings : Readings) (net : Network lib uris) where
  -- What each kind of response means, of a request that found and left the shared state so.
  abbrev pub IsOutcome : Request lib uris → Shared → List Str → Outcome lib uris → Type 0
  IsOutcome req before after (tunnelled tunnel) =
      (req.method ≡ codes "CONNECT") × Opens policy net.dial uris req.uri tunnel
  IsOutcome req before after (replied reply) =
      (req.method ≢ codes "CONNECT")
      × IsReply lib uris parse_http_date cache policy config.caching
          config.limits.max_request_body_bytes readings net req before after reply
  IsOutcome req before after (failed page) = IsFailure page.text_status

  abbrev pub IsDispatched : Request lib uris → Shared → Outcome lib uris × Shared → Type 0
  IsDispatched req before r =
      TriesPermitted policy before.tried r.1.tried × IsOutcome req before r.1.tried r.0

  end_connect-IsDispatched :
      (req : Request lib uris) (s : Shared) (r : Result Tunnel × List Str)
      → req.method ≡ codes "CONNECT"
      → IsTunnelled policy net.dial uris req.uri s.tried r
      → IsDispatched req s (end_connect lib uris s r)
  end_connect-IsDispatched req s (ok tunnel, tried) e (opens, tries) =
      (tries, (e, (opens tunnel).0 refl))
  end_connect-IsDispatched req s (err f, tried) e (opens, tries) = (tries, to_response-IsFailure f)

  end_http-IsDispatched :
      (req : Request lib uris) (s : Shared) (r : Result (Reply lib uris) × Shared)
      → req.method ≢ codes "CONNECT"
      → IsServed lib uris parse_http_date cache policy config.caching
          config.limits.max_request_body_bytes readings net req s r
      → IsDispatched req s (end_http lib uris r)
  end_http-IsDispatched req s (ok reply, after) e (tries, is_reply) = (tries, (e, is_reply))
  end_http-IsDispatched req s (err f, after) e (tries, is_reply) = (tries, to_response-IsFailure f)

module _ (lib : HeaderLib) (uris : UriLib) (json : Json) (order : Order)
    (parse_http_date : DateReader) (config : Config) (cache : Cache) (readings : Readings)
    (net : Network lib uris) where
  abbrev policy_of : PolicyEngine
  policy_of = Policy.new config.policy

  dispatch-IsDispatched :
      (req : Request lib uris) (s : Shared)
      → IsDispatched lib uris parse_http_date policy_of cache config readings net req s
          (dispatch lib uris json order parse_http_date (app_state config cache) readings net req s)
  unfolding dispatch app_state
  dispatch-IsDispatched req s = elim (Bool-cases (str_eq req.method (codes "CONNECT"))) [
    | inl is ↦ rw is (
        end_connect-IsDispatched lib uris parse_http_date policy_of cache config readings net req s
          _ (str_eq_sound _ _ is)
          (handle_connect-IsTunnelled policy_of net.dial uris req.uri s.tried))
    | inr other ↦ rw other (
        end_http-IsDispatched lib uris parse_http_date policy_of cache config readings net req s _
          (λ e. let f = (str_eq_iff req.method (codes "CONNECT")).1 e in cc)
          (handle_http-IsServed lib uris parse_http_date cache policy_of config.caching
            config.limits.max_request_body_bytes readings net json order req s))
  ]

  -- What the limits say of the request.
  abbrev pub limits_of :
      IpAddr → ℕ → Request lib uris → IpRateLimiter → IpRateLimiter × Result (Unit {0})
  limits_of client_ip now_second req limiter =
      enforce_request_limits lib req.method (uris.to_string req.uri) req.headers client_ip
        config.limits.max_header_bytes config.limits.per_ip_rps now_second limiter

  -- A request over a limit gets the limit's error and touches nothing else; any other is handled.
  abbrev pub IsHandled :
      Request lib uris
      → IpRateLimiter × Result (Unit {0})
      → Shared
      → Outcome lib uris × Proxy × List LogLine
      → Type 0
  IsHandled req (limiter, err e) before r =
      (r.0 ≡ failed (to_response e)) × (r.1.shared ≡ before) × IsFailure (to_response e).text_status
  IsHandled req (limiter, ok u) before r =
      TriesPermitted policy_of before.tried r.1.shared.tried
      × IsOutcome lib uris parse_http_date policy_of cache config readings net req before
          r.1.shared.tried r.0

  after_limits-IsHandled :
      (req : Request lib uris) (r : IpRateLimiter × Result (Unit {0})) (s : Shared)
      → IsHandled req r s (
          after_limits lib uris json order parse_http_date
            (app_state config cache)
            readings
            net
            req
            r
            s)
  after_limits-IsHandled req (limiter, err e) s = (refl, refl, to_response-IsFailure e)
  after_limits-IsHandled req (limiter, ok u) s = dispatch-IsDispatched req s

  -- What is logged besides makes no difference.
  also_logged :
      (req : Request lib uris) (r : IpRateLimiter × Result (Unit {0})) (s : Shared)
      (handled : Outcome lib uris × Proxy × List LogLine) (lines : List LogLine)
      → IsHandled req r s handled
      → IsHandled req r s (handled.0, handled.1, lines)
  also_logged req (limiter, err e) s handled lines h = h
  also_logged req (limiter, ok u) s handled lines h = h

  -- Every request is handled as the configuration says, whatever the network answers and whichever
  -- calls of the cache fail. A request over a limit gets the error of that limit, and neither the
  -- cache nor the network is asked. Of any other at most one address is tried, of a host and a port
  -- that the configured policy permits. Its response is a tunnel, only for CONNECT and only one
  -- that is due; a reply of the cache or the upstream, only for other methods and only one that is
  -- due; or an error whose status is from 400 to 599.
  pub handle_request-IsHandled :
      (uuid : Str) (client_ip : IpAddr) (now_second : ℕ) (req : Request lib uris) (p : Proxy)
      → IsHandled req (limits_of client_ip now_second req p.limiter) p.shared (
          handle_request lib uris json order parse_http_date
            (app_state config cache)
            readings
            net
            uuid
            client_ip
            now_second
            req
            p)
  unfolding handle_request app_state
  handle_request-IsHandled uuid client_ip now_second req p =
      let admitted = limits_of client_ip now_second req p.limiter in
      also_logged req admitted p.shared _ _ (after_limits-IsHandled req admitted p.shared)
