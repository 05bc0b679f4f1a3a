-- ===== src/HttpProxy/Reuse/Answered.antt =====
-- How `handle_http` of src/http_proxy/mod.rs answers a request whose response was stored.
use http_cache.HttpProxy.Forwarding.{
  Readings, Network, handle_http, proceed, Shared, from_cache, Reply,
}
use http_cache.HttpProxy.Stored.{Response}
use http_cache.Config.{CacheConfig}
use http_cache.Cache.World.{World, bind_found}
use http_cache.Errors.{Result, err, ok}
use http_cache.HttpProxy.Expiry.{DateReader}
use http_cache.Cache.{Clock}
use http_cache.Policy.{PolicyEngine, check}
use http_cache.Cache.Backend.{Cache}
use http_cache.Cache.Sqlite.{Json, Order}
use http_cache.HttpProxy.Upstream.{UriLib, Request, UpstreamTarget, rewrite_absolute_form}
use http_cache.Headers.{HeaderLib}
use http_cache.HttpProxy.Handler.{
  Front, replayed, handle_front, rewritten, permitted, look_up_cache, answer_or_send,
}
use http_cache.Prelude.{◌≡◌, refl, some, ℕ, is_some}

module _ (lib : HeaderLib) (uris : UriLib) (json : Json) (order : Order) (cache : Cache)
    (policy : PolicyEngine) (max : ℕ) where
  -- A request that gets past the front has passed the rewriting and the policy.
  pub record Passes (req : Request lib uris) : Type 0 where
    target : UpstreamTarget
    sent : Request lib uris
    rewrites : rewrite_absolute_form lib uris req ≡ ok (target, sent)
    allowed : check policy target.target_host target.target_port ≡ ok tt

  allowed-Passes :
      (clock : Clock) (req sent : Request lib uris) (target : UpstreamTarget)
      (r : Result (Unit {0})) (w : World) (o : Front lib uris)
      → rewrite_absolute_form lib uris req ≡ ok (target, sent)
      → check policy target.target_host target.target_port ≡ r
      → (permitted lib uris json order cache policy max clock req target sent r w).0 ≡ ok o
      → Passes req
  allowed-Passes clock req sent target (err e) w o f g h = cc
  allowed-Passes clock req sent target (ok u) w o f g h = record {
    target = target;
    sent = sent;
    rewrites = f;
    allowed = g;
  }

  rewritten-Passes :
      (clock : Clock) (req : Request lib uris) (r : Result (UpstreamTarget × Request lib uris))
      (w : World) (o : Front lib uris)
      → rewrite_absolute_form lib uris req ≡ r
      → (rewritten lib uris json order cache policy max clock req r w).0 ≡ ok o
      → Passes req
  rewritten-Passes clock req (err e) w o f h = cc
  rewritten-Passes clock req (ok (target, sent)) w o f h =
      allowed-Passes clock req sent target (check policy target.target_host target.target_port) w o
        f refl h

  handle_front-Passes :
      (clock : Clock) (req : Request lib uris) (w : World) (o : Front lib uris)
      → (handle_front lib uris json order cache policy max clock req w).0 ≡ ok o
      → Passes req
  unfolding handle_front
  handle_front-Passes clock req w o h =
      rewritten-Passes clock req (rewrite_absolute_form lib uris req) w o refl h

  -- Such a request is answered with what the lookup replays.
  front-replays :
      (clock : Clock) (req : Request lib uris) (w after : World) (response : Response lib)
      → Passes req
      → look_up_cache lib uris json order cache policy max clock req.method
          (uris.to_string req.uri)
          (is_some (lib.get req.headers lib.range))
          w
        ≡ (ok (some response), after)
      → handle_front lib uris json order cache policy max clock req w
        ≡ (ok (replayed response), after)
  unfolding handle_front
  front-replays clock req w after response p found =
      let look =
        look_up_cache lib uris json order cache policy max clock req.method (uris.to_string req.uri)
          (is_some (lib.get req.headers lib.range)) in
      rw (p.rewrites, p.allowed)
        (bind_found look (answer_or_send lib uris json order cache policy max clock p.target p.sent)
          w (some response) after found)

  module _ (parse_http_date : DateReader) (config : CacheConfig) (readings : Readings)
      (net : Network lib uris) where
    pub handle_http-replays :
        (req : Request lib uris) (s : Shared) (after : World) (response : Response lib)
        → Passes req
        → look_up_cache lib uris json order cache policy max readings.at_lookup req.method
            (uris.to_string req.uri)
            (is_some (lib.get req.headers lib.range))
            s.world
          ≡ (ok (some response), after)
        → handle_http lib uris json order parse_http_date cache policy config max readings net req s
          ≡ (ok (from_cache response), record s { world = after })
    unfolding handle_http proceed
    handle_http-replays req s after response p found =
        rw (front-replays readings.at_lookup req s.world after response p found) refl

    proceed-Front :
        (req : Request lib uris) (r : Result (Front lib uris)) (w : World) (s : Shared)
        (reply : Reply lib uris)
        → (proceed lib uris json order parse_http_date cache policy config max readings net req
            (r, w)
            s).0
          ≡ ok reply
        → (o : Front lib uris) × (r ≡ ok o)
    unfolding proceed
    proceed-Front req (err e) w s reply h = cc
    proceed-Front req (ok o) w s reply h = (o, refl)

    pub handle_http-Passes :
        (req : Request lib uris) (s : Shared) (reply : Reply lib uris)
        → (handle_http lib uris json order parse_http_date cache policy config max readings net req
            s).0
          ≡ ok reply
        → Passes req
    unfolding handle_http
    handle_http-Passes req s reply h =
        let (r, w) =
          handle_front lib uris json order cache policy max readings.at_lookup req s.world in
        let (o, e) = proceed-Front req r w s reply h in
        handle_front-Passes readings.at_lookup req s.world o e
