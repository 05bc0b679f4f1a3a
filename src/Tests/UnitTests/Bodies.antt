-- ===== src/Tests/UnitTests/Bodies.antt =====
-- The unit tests of src/http_proxy/mod.rs. What the wrapped bodies yield: `Full` its bytes in one
-- frame, `Empty` its end.
use http_cache.Body.{Poll, ready_frame, ready_err, ready_none, data_frame, Bytes}
use http_cache.Errors.{ProxyError, err, request_body_too_large, internal}
use http_cache.HttpProxy.Handler.{wrap_limited_request_body}
use http_cache.HttpProxy.LimitedBody.{LimitedBody, new, poll_frame}
use http_cache.HttpProxy.Upstream.{Request}
use http_cache.Prelude.Decimal.{parse_u64}
use http_cache.Tests.HandlerTests.{uri_lib}
use http_cache.Tests.HeaderMaps.{header_lib, look_up}
use http_cache.Prelude.{◌≡◌, refl, [], ◌∷◌, some, codes, str_eq, none}

abbrev upload : Request header_lib uri_lib
upload = record {
  method = codes "POST";
  uri = record {
    scheme_part = some (codes "http");
    authority_part = some (codes "example.com", none);
    path_part = some (codes "/upload");
  };
  headers = (codes "content-length", codes "11") ∷ [];
}

abbrev WrapRejectsLargeContentLength : Type 0
WrapRejectsLargeContentLength =
    wrap_limited_request_body header_lib uri_lib upload 10 ≡ err request_body_too_large

wrap_rejects_large_content_length : WrapRejectsLargeContentLength
unfolding wrap_limited_request_body look_up str_eq parse_u64
wrap_rejects_large_content_length = refl

-- The first frame of a limited body; the wrapped one cannot fail.
abbrev frame : LimitedBody → Poll ⊥ → Poll ProxyError
frame body poll = (poll_frame (λ e. internal) body poll).1

abbrev LimitedBodyAllowsSmallPayloads : Type 0
LimitedBodyAllowsSmallPayloads =
    frame (new 8) (ready_frame (data_frame (codes "ok"))) ≡ ready_frame (data_frame (codes "ok"))

limited_body_allows_small_payloads : LimitedBodyAllowsSmallPayloads
unfolding poll_frame new
limited_body_allows_small_payloads = refl

abbrev sixteen : Bytes
sixteen = codes "xxxxxxxxxxxxxxxx"

abbrev LimitedBodyRejectsPayloadsThatExceedLimit : Type 0
LimitedBodyRejectsPayloadsThatExceedLimit =
    frame (new 8) (ready_frame (data_frame sixteen)) ≡ ready_err request_body_too_large

limited_body_rejects_payloads_that_exceed_limit : LimitedBodyRejectsPayloadsThatExceedLimit
unfolding poll_frame new
limited_body_rejects_payloads_that_exceed_limit = refl

abbrev LimitedBodyHandlesEmptyPayloads : Type 0
LimitedBodyHandlesEmptyPayloads = frame (new 1) ready_none ≡ ready_none

limited_body_handles_empty_payloads : LimitedBodyHandlesEmptyPayloads
unfolding poll_frame new
limited_body_handles_empty_payloads = refl
