-- ===== src/HttpProxy/Forwarding/Forwards.antt =====
-- When `handle_http` of src/http_proxy/mod.rs answers with what the upstream answered.
use http_cache.Policy.Decisions.{Permits, check-Permits}
use http_cache.Errors.{ok}
use http_cache.Config.{CacheConfig}
use http_cache.Policy.{PolicyEngine}
use http_cache.Cache.Backend.{Cache}
use http_cache.Cache.Sqlite.{Json, Order}
use http_cache.HttpProxy.Upstream.{UriLib, Request, UpstreamTarget, rewrite_absolute_form}
use http_cache.Headers.{HeaderLib, strip_hop_by_hop}
use http_cache.Prelude.{
  to_ascii_lowercase, refl, none, some, inr, ℕ, Option, ◌≤◌, ◌≡◌, arith, to_ascii_lowercase,
  is_some, ◌∙◌,
}
use http_cache.HttpProxy.Expiry.{parse_content_length, DateReader}
use http_cache.HttpProxy.Handler.{
  look_up_cache, handle_front, answer_or_send, limit_body, forwarded, wrap_limited_request_body,
  format_addr,
}
use http_cache.HttpProxy.LimitedBody.{new}
use http_cache.HttpProxy.Forwarding.{
  Shared, Readings, Answer, Network, from_upstream, storing_of, proceed, handle_http,
}
use http_cache.Network.{connected, connect}
use http_cache.Cache.World.{bind_found, World}

module _ (lib : HeaderLib) (uris : UriLib) (json : Json) (order : Order)
    (parse_http_date : DateReader) (cache : Cache) (policy : PolicyEngine) (config : CacheConfig)
    (max : ℕ) (readings : Readings) (net : Network lib uris) where
  -- The announced length of the body, if there is one, is within the limit.
  abbrev pub Announces : Option ℕ → Type 0
  Announces none = Unit
  Announces (some n) = n ≤ max

  within : (length : Option ℕ) → Announces length → limit_body lib uris length max ≡ ok (new max)
  within none h = refl
  within (some n) h = ground arith

  -- A request that the cache does not answer goes upstream and is answered from there: when it
  -- names an http target that the policy permits, announces no body over the limit, finds no
  -- replayable entry, and its target connects, shakes hands and answers, then the reply is that
  -- answer, and what is stored of it is decided as `storing` does.
  pub handle_http_forwards :
      (req sent : Request lib uris) (target : UpstreamTarget) (answer : Answer lib uris)
      (s : Shared) (w : World)
      → rewrite_absolute_form lib uris req ≡ ok (target, sent)
      → Permits policy (to_ascii_lowercase target.target_host) target.target_port
      → look_up_cache lib uris json order cache policy max readings.at_lookup req.method
          (uris.to_string req.uri)
          (is_some (lib.get req.headers lib.range))
          s.world
        ≡ (ok none, w)
      → Announces (parse_content_length lib (strip_hop_by_hop lib sent.headers))
      → net.dial (format_addr target.target_host target.target_port) ≡ connected
      → net.handshake (format_addr target.target_host target.target_port) ≡ none
      → net.send_request
          (format_addr target.target_host target.target_port)
          (record sent { headers = strip_hop_by_hop lib sent.headers })
          (new max)
        ≡ inr answer
      → (handle_http lib uris json order parse_http_date cache policy config max readings net req
          s).0
        ≡ ok (
            from_upstream answer (
              storing_of lib uris json order parse_http_date cache policy config max readings net
                req answer s.held))
  unfolding handle_http proceed handle_front connect wrap_limited_request_body
  handle_http_forwards req sent target answer s w f permits missed small d h a =
      let allowed = (check-Permits policy target.target_host target.target_port).1 permits in
      let look =
        look_up_cache lib uris json order cache policy max readings.at_lookup req.method
          (uris.to_string req.uri) (is_some (lib.get req.headers lib.range)) in
      let open_up =
        answer_or_send lib uris json order cache policy max readings.at_lookup target sent in
      let addr = format_addr target.target_host target.target_port in
      let front : handle_front lib uris json order cache policy max readings.at_lookup req s.world
          ≡ (
            ok (
                forwarded addr (record sent { headers = strip_hop_by_hop lib sent.headers })
                  (new max)),
            w,
          ) =
        rw (f, allowed)
          (bind_found look open_up s.world none w missed ∙ rw (within _ small) refl) in
      rw (front, d, h, a) refl
