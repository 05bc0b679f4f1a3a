-- ===== src/Tests/RequestsTests.antt =====
-- Inputs for the theorems on src/connect_tunnel.rs, on the whole of `handle_http` and on
-- `handle_request`.
use http_cache.Server.Redaction.{redact_headers_for_logging}
use http_cache.Errors.{ok}
use http_cache.Prelude.Decimal.{to_decimal}
use http_cache.Server.RateLimit.{default_limiter}
use http_cache.Config.{default_caching, default_config}
use http_cache.Policy.{domain_matches}
use http_cache.Network.{Dialled, connected, refused}
use http_cache.Server.Requests.Handled.{IsHandled, limits_of, handle_request-IsHandled}
use http_cache.Server.Requests.{Proxy, handle_request, app_state}
use http_cache.HttpProxy.Forwarding.Served.{IsServed, handle_http-IsServed}
use http_cache.Connect.Tunnelled.{IsTunnelled, handle_connect-IsTunnelled}
use http_cache.Connect.{handle_connect}
use http_cache.HttpProxy.Upstream.{Request}
use http_cache.HttpProxy.Forwarding.{Network, Readings, Shared, handle_http}
use http_cache.Prelude.{
  refl, none, [], ◌∷◌, inr, Str, codes, if◌then◌else◌, str_eq, strip_prefix, to_ascii_lowercase,
  ◌≡◌,
}
use http_cache.Tests.HandlerTests.{uri_lib, request_to, policy, empty_world, cache}
use http_cache.Tests.HeaderMaps.{header_lib}
use http_cache.Tests.Headers.{json}
use http_cache.Tests.Fixtures.{order}
use http_cache.Server.Requests.{LogLine, request_details}
use http_cache.Server.Requests.Unlogged.{handle_request_hides}
use mathlib.Core.List.{Memᴰ}

-- A network in which only one address answers.
abbrev pub dial_good : Str → Dialled
dial_good addr = if str_eq addr (codes "good.com:80") then connected else refused (codes "refused")

abbrev pub net : Network header_lib uri_lib
net = record {
  dial = dial_good;
  handshake = λ addr. none;
  send_request = λ addr req body. inr (record { answer_status = 200; answer_headers = [] });
}

abbrev pub readings : Readings
readings = record { at_lookup = none; at_expiry = none; at_test = none; at_creation = none }

abbrev pub request_good : Request header_lib uri_lib
request_good = request_to (codes "good.com")

-- The policy's port is the one the URI writes out.
opens :
    handle_connect policy dial_good uri_lib request_good.uri []
    ≡ (ok (record { tunnel_host = codes "good.com"; tunnel_port = 80 }), codes "good.com:80" ∷ [])
unfolding handle_connect domain_matches str_eq strip_prefix to_ascii_lowercase to_decimal
opens = refl

-- A host that the policy denies is not tried.
stays_closed :
    (handle_connect policy dial_good uri_lib (request_to (codes "bad.com")).uri []).1 ≡ []
unfolding handle_connect domain_matches str_eq strip_prefix to_ascii_lowercase
stays_closed = refl

handle_connect-IsTunnelled_example :
    IsTunnelled policy dial_good uri_lib request_good.uri []
      (handle_connect policy dial_good uri_lib request_good.uri [])
handle_connect-IsTunnelled_example =
    handle_connect-IsTunnelled policy dial_good uri_lib request_good.uri []

abbrev pub shared : Shared
shared = record { world = empty_world; held = []; tried = [] }

handle_http-IsServed_example :
    IsServed header_lib uri_lib
      (λ date. none)
      cache
      policy
      default_caching
      10
      readings
      net
      request_good
      shared
      (handle_http header_lib uri_lib json order
        (λ date. none)
        cache
        policy
        default_caching
        10
        readings
        net
        request_good
        shared)
handle_http-IsServed_example =
    handle_http-IsServed header_lib uri_lib (λ date. none) cache policy default_caching 10 readings
      net json order request_good shared

abbrev proxy : Proxy
proxy = record { limiter = default_limiter; shared = shared }

handle_request-IsHandled_example :
    IsHandled header_lib uri_lib json order
      (λ date. none)
      default_config
      cache
      readings
      net
      request_good
      (limits_of header_lib uri_lib json order
        (λ date. none)
        default_config
        cache
        readings
        net
        7
        1
        request_good
        default_limiter)
      shared
      (handle_request header_lib uri_lib json order
        (λ date. none)
        (app_state default_config cache)
        readings
        net
        (codes "id")
        7
        1
        request_good
        proxy)
handle_request-IsHandled_example =
    handle_request-IsHandled header_lib uri_lib json order (λ date. none) default_config cache
      readings net (codes "id") 7 1 request_good proxy

-- The value of a header that is to be redacted, and what stands for it.
abbrev secret_request : Request header_lib uri_lib
secret_request = record request_good { headers = (codes "authorization", codes "secret") ∷ [] }

abbrev secret_line : LogLine
secret_line = request_details ((codes "authorization", codes "<redacted>") ∷ [])

in_log :
    Memᴰ secret_line
      (handle_request header_lib uri_lib json order
        (λ date. none)
        (app_state default_config cache)
        readings
        net
        (codes "id")
        7
        1
        secret_request
        proxy).2
unfolding handle_request app_state redact_headers_for_logging str_eq to_ascii_lowercase
in_log = Memᴰ.tail (Memᴰ.head refl)

handle_request_hides_example : codes "<redacted>" ≡ codes "<redacted>"
unfolding app_state to_ascii_lowercase
handle_request_hides_example =
    handle_request_hides header_lib uri_lib json order (λ date. none)
      (app_state default_config cache) readings net (codes "id") 7 1 secret_request proxy
      secret_line (codes "authorization") (codes "<redacted>") (codes "authorization") in_log
      (Memᴰ.head refl) refl (Memᴰ.head refl)
