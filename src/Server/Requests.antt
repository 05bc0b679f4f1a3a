-- ===== src/Server/Requests.antt =====
-- src/server.rs: `AppState` and `handle_request`, which sends a request through its limits to one of
-- the two handlers and turns an error into its response, and the lines that it logs.
-- The wrapper of a response's body is in TimedBody.
pub mod Handled
pub mod Unlogged
use http_cache.Server.Redaction.{redact_headers_for_logging}
use http_cache.Server.Admission.{enforce_request_limits}
use http_cache.HttpProxy.Expiry.{DateReader}
use http_cache.Cache.Sqlite.{Json, Order}
use http_cache.Prelude.{List, Str, if◌then◌else◌, str_eq, ℕ, codes, [], ◌∷◌}
use http_cache.HttpProxy.Upstream.{UriLib, Request}
use http_cache.Cache.Backend.{Cache}
use http_cache.Policy.{PolicyEngine}
use http_cache.Headers.{HeaderLib}
use http_cache.Server.RateLimit.{IpRateLimiter, IpAddr}
use http_cache.Config.{Config}
use http_cache.Policy
use http_cache.Cache.Backend
use http_cache.Server.TimedBody
use http_cache.Server.TimedBody.{TimedBody}
use http_cache.Cache.Backend.{is_enabled}
use http_cache.Prelude.{Option, some, none, Bool}
use http_cache.HttpProxy.Forwarding.{Shared, Readings, Network, Reply, handle_http}
use http_cache.Connect.{Tunnel, handle_connect}
use http_cache.Errors.{Result, ok, err, TextResponse, to_response, to_string}
use http_cache.HttpProxy.Forwarding.{from_cache, from_upstream}

-- What every request reads. The rate limiter, which it also changes, is in `Proxy`.
pub record AppState : Type 0 where
  pub config : Config
  pub policy : PolicyEngine
  pub cache : Cache

-- `AppState::new`
unfoldable pub app_state : Config → Cache → AppState
unfolding Policy.new
app_state config cache = record {
  config = config;
  policy = Policy.new config.policy;
  cache = cache;
}

pub record Proxy : Type 0 where
  pub limiter : IpRateLimiter
  pub shared : Shared

-- The span that the lines of a request stand in.
pub record RequestSpan : Type 0 where
  pub request_id : Option Str
  pub method : Str
  pub uri : Str
  pub client_ip : IpAddr
  pub cache_name : Str
  pub cache_enabled : Bool

-- What a request logs.
pub data LogLine : Type 0 where
  request_span : RequestSpan → LogLine
  request_details : List (Str × Str) → LogLine
  limit_rejected : Str → LogLine
  request_failed : Str → LogLine
  response_details : ℕ → List (Str × Str) → LogLine

module _ (lib : HeaderLib) (uris : UriLib) where
  -- The three kinds of response.
  pub data Outcome : Type 0 where
    tunnelled : Tunnel → Outcome
    replied : Reply lib uris → Outcome
    failed : TextResponse → Outcome

  abbrev pub end_connect : Shared → Result Tunnel × List Str → Outcome × Shared
  end_connect s (ok tunnel, tried) = (tunnelled tunnel, record s { tried = tried })
  end_connect s (err e, tried) = (failed (to_response e), record s { tried = tried })

  abbrev pub end_http : Result (Reply lib uris) × Shared → Outcome × Shared
  end_http (ok reply, s) = (replied reply, s)
  end_http (err e, s) = (failed (to_response e), s)

  -- The line on the response. That of a tunnel has no headers.
  unfoldable pub outcome_line : List Str → Outcome → LogLine
  unfolding redact_headers_for_logging
  outcome_line names (tunnelled tunnel) =
      response_details 200 (redact_headers_for_logging lib names lib.empty)
  outcome_line names (replied (from_cache response)) =
      response_details response.status (redact_headers_for_logging lib names response.headers)
  outcome_line names (replied (from_upstream answer decision)) =
      response_details answer.answer_status
        (redact_headers_for_logging lib names answer.answer_headers)
  outcome_line names (failed page) = request_failed page.text

  -- The wrapper of the response's body. Only that of an error has none.
  unfoldable pub timed_body : Outcome → Option TimedBody
  unfolding TimedBody.new
  timed_body (tunnelled tunnel) = some (TimedBody.new 200)
  timed_body (replied (from_cache response)) = some (TimedBody.new response.status)
  timed_body (replied (from_upstream answer decision)) = some (TimedBody.new answer.answer_status)
  timed_body (failed page) = none

  module _ (json : Json) (order : Order) (parse_http_date : DateReader) (state : AppState)
      (readings : Readings) (net : Network lib uris) where
    -- `match method`
    unfoldable pub dispatch : Request lib uris → Shared → Outcome × Shared
    unfolding handle_connect handle_http to_response
    dispatch req s =
        if str_eq req.method (codes "CONNECT")
        then end_connect s (handle_connect state.policy net.dial uris req.uri s.tried)
        else end_http (
            handle_http lib uris json order parse_http_date state.cache state.policy
              state.config.caching state.config.limits.max_request_body_bytes readings net req s)

    abbrev pub after_limits :
        Request lib uris
        → IpRateLimiter × Result (Unit {0})
        → Shared
        → Outcome × Proxy × List LogLine
    after_limits req (limiter, err e) s = (
      failed (to_response e),
      record { limiter = limiter; shared = s },
      limit_rejected (to_string e) ∷ [],
    )
    after_limits req (limiter, ok u) s =
        let (outcome, after) = dispatch req s in
        (
          outcome,
          record { limiter = limiter; shared = after },
          outcome_line state.config.logging.redact_headers outcome ∷ [],
        )

    -- `Uuid::new_v4()` is the first argument.
    unfoldable pub span_of : Str → IpAddr → Request lib uris → RequestSpan
    unfolding Backend.name is_enabled
    span_of uuid client_ip req = record {
      request_id = if state.config.logging.request_id then some uuid else none;
      method = req.method;
      uri = uris.to_string req.uri;
      client_ip = client_ip;
      cache_name = Backend.name state.cache;
      cache_enabled = is_enabled state.cache;
    }

    unfoldable pub handle_request :
        Str → IpAddr → ℕ → Request lib uris → Proxy → Outcome × Proxy × List LogLine
    unfolding dispatch enforce_request_limits outcome_line span_of
    handle_request uuid client_ip now_second req p =
        let (outcome, after, lines) =
          after_limits req
            (enforce_request_limits lib req.method (uris.to_string req.uri) req.headers client_ip
              state.config.limits.max_header_bytes state.config.limits.per_ip_rps now_second
              p.limiter)
            p.shared in
        (
          outcome,
          after,
          request_span (span_of uuid client_ip req)
              ∷ request_details
                  (redact_headers_for_logging lib state.config.logging.redact_headers req.headers)
              ∷ lines,
        )
