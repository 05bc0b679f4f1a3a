-- ===== src/Tests/ForwardingTests.antt =====
-- Inputs for the theorem on the requests that `handle_http` of src/http_proxy/mod.rs forwards.
use http_cache.Headers.{strip_hop_by_hop}
use http_cache.HttpProxy.Expiry.{parse_content_length}
use http_cache.HttpProxy.Handler.{look_up_cache}
use http_cache.Errors.{ok}
use http_cache.Prelude.Decimal.{to_decimal, parse_u64}
use http_cache.Config.{default_caching}
use http_cache.Policy.{domain_matches, check}
use http_cache.Network.{connected}
use http_cache.HttpProxy.Forwarding.{handle_http, Answer, storing_of}
use http_cache.Prelude.{
  refl, none, [], codes, str_eq, strip_prefix, to_ascii_lowercase, ◌≡◌, false, arith,
}
use http_cache.Policy.Decisions.{check-Permits}
use http_cache.Cache.Backend.{noop_cache, is_enabled}
use http_cache.HttpProxy.Forwarding.{from_upstream}
use http_cache.HttpProxy.Forwarding.Forwards.{handle_http_forwards}
use http_cache.Tests.HandlerTests.{rewrites, sent_to, target_at, uri_lib, policy, empty_world}
use http_cache.Tests.HeaderMaps.{header_lib, look_up, name_of, without}
use http_cache.Tests.Headers.{json}
use http_cache.Tests.Fixtures.{order}
use http_cache.Tests.RequestsTests.{dial_good, net, readings, request_good, shared}

permitted_good : check policy (codes "good.com") 80 ≡ ok tt
unfolding check domain_matches str_eq strip_prefix to_ascii_lowercase
permitted_good = refl

missed_good :
    look_up_cache header_lib uri_lib json order noop_cache policy 10 none request_good.method
      (codes "/a")
      false
      empty_world
    ≡ (ok none, empty_world)
unfolding look_up_cache is_enabled
missed_good = refl

dialled_good : dial_good (codes "good.com:80") ≡ connected
unfolding str_eq
dialled_good = refl

abbrev answer_good : Answer header_lib uri_lib
answer_good = record { answer_status = 200; answer_headers = [] }

handle_http_forwards_example :
    (handle_http header_lib uri_lib json order
      (λ date. none)
      noop_cache
      policy
      default_caching
      10
      readings
      net
      request_good
      shared).0
    ≡ ok (
        from_upstream answer_good (
          storing_of header_lib uri_lib json order
            (λ date. none)
            noop_cache
            policy
            default_caching
            10
            readings
            net
            request_good
            answer_good
            []))
unfolding to_decimal look_up name_of str_eq without parse_u64 parse_content_length strip_hop_by_hop
    to_ascii_lowercase
handle_http_forwards_example =
    handle_http_forwards header_lib uri_lib json order (λ date. none) noop_cache policy
      default_caching 10 readings net request_good (sent_to (codes "good.com"))
      (target_at (codes "good.com")) answer_good shared empty_world rewrites
      ((check-Permits policy (codes "good.com") 80).0 permitted_good) missed_good (omega arith)
      dialled_good refl refl
