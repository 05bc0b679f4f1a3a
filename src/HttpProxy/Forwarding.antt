-- ===== src/HttpProxy/Forwarding.antt =====
-- src/http_proxy/mod.rs: the whole of `handle_http`. The connection to the upstream, the HTTP
-- handshake and the exchange on it are answers of a parameter; the tasks that it spawns (the
-- connection's, the cache writer's, the store of a HEAD response) run apart from it.
pub mod Served
pub mod Forwards
use http_cache.Errors.{Result, ok, err, http}
use http_cache.Config.{CacheConfig}
use http_cache.Policy.{PolicyEngine}
use http_cache.Cache.Backend.{Cache, is_enabled}
use http_cache.HttpProxy.LimitedBody.{LimitedBody}
use http_cache.HttpProxy.Expiry.{DateReader, compute_expiry, parse_content_length}
use http_cache.Cache.Sqlite.{Json, Order}
use http_cache.Network.{Dialled, connect}
use http_cache.HttpProxy.Upstream.{UriLib, Request}
use http_cache.Headers.{HeaderLib}
use http_cache.Cache.{Clock, now_unix}
use http_cache.Cache.World.{World}
use http_cache.Prelude.{none, some, inl, inr, List, Str, ℕ, Option, ◌⊎◌, is_some}
use http_cache.HttpProxy.Handler.{Front, replayed, forwarded, handle_front}
use http_cache.HttpProxy.Storing.{
  Storing, Exchange, storing, pass_on, store_head, store_body, try_acquire_cache_write,
}
use http_cache.HttpProxy.Stored.{Response, headers_for_storage}
use mathlib.Core.Option.{get_or}

-- What the handler shares with the others: the cache's world, the keys of the write permits that
-- are held, and the addresses that were tried.
pub record Shared : Type 0 where
  pub world : World
  pub held : List Str
  pub tried : List Str

-- The clock at its readings: the lookup, `compute_expiry`, the test of the expiry, the creation.
pub record Readings : Type 0 where
  pub at_lookup : Clock
  pub at_expiry : Clock
  pub at_test : Clock
  pub at_creation : Clock

-- `CACHE_WRITE_LOCKS` after the decision.
unfoldable pub held_after : Storing → List Str → List Str
unfolding try_acquire_cache_write
held_after pass_on held = held
held_after (store_head entry) held = held
held_after (store_body key headers expires_at settings) held =
    get_or (try_acquire_cache_write key held) held

module _ (lib : HeaderLib) (uris : UriLib) where
  -- The upstream's response without its body.
  pub record Answer : Type 0 where
    pub answer_status : ℕ
    pub answer_headers : lib.HeaderMap

  -- What the network answers: to a connection within the timeout, to the handshake on it (an error
  -- or none), and to the request.
  pub record Network : Type 0 where
    pub dial : Str → Dialled
    pub handshake : Str → Option Str
    pub send_request : Str → Request lib uris → LimitedBody → Str ⊎ Answer

  -- A response from the cache, or the upstream's with what becomes of its body.
  pub data Reply : Type 0 where
    from_cache : Response lib → Reply
    from_upstream : Answer → Storing → Reply

  abbrev pub exchange_of : Readings → Request lib uris → Answer → Exchange
  exchange_of readings req answer = record {
    method = req.method;
    url = uris.to_string req.uri;
    range_requested = is_some (lib.get req.headers lib.range);
    status = answer.answer_status;
    now = now_unix readings.at_test;
    created_at = now_unix readings.at_creation;
  }

  module _ (json : Json) (order : Order) (parse_http_date : DateReader) (cache : Cache)
      (policy : PolicyEngine) (config : CacheConfig) (max_request_body_bytes : ℕ)
      (readings : Readings) (net : Network) where
    unfoldable pub storing_of : Request lib uris → Answer → List Str → Storing
    unfolding storing compute_expiry headers_for_storage parse_content_length
    storing_of req answer held =
        storing config held (exchange_of readings req answer)
          (headers_for_storage lib answer.answer_headers)
          (parse_content_length lib answer.answer_headers) (is_enabled cache)
          (compute_expiry lib parse_http_date readings.at_expiry answer.answer_headers
            config.ttl_seconds)

    abbrev pub keep_answer : Request lib uris → Answer → Shared → Result Reply × Shared
    keep_answer req answer s =
        let decision = storing_of req answer s.held in
        (ok (from_upstream answer decision), record s { held = held_after decision s.held })

    -- `sender.send_request(req).await?`
    abbrev pub answered : Request lib uris → Str ⊎ Answer → Shared → Result Reply × Shared
    answered req (inl message) s = (err (http message), s)
    answered req (inr answer) s = keep_answer req answer s

    -- `handshake(..).await?`
    abbrev pub shaken :
        Request lib uris
        → Str
        → Request lib uris
        → LimitedBody
        → Option Str
        → Shared
        → Result Reply × Shared
    shaken req addr sent body (some message) s = (err (http message), s)
    shaken req addr sent body none s = answered req (net.send_request addr sent body) s

    abbrev pub dialled :
        Request lib uris
        → Str
        → Request lib uris
        → LimitedBody
        → Result (Unit {0}) × List Str
        → Shared
        → Result Reply × Shared
    dialled req addr sent body (err e, tried) s = (err e, record s { tried = tried })
    dialled req addr sent body (ok u, tried) s =
        shaken req addr sent body (net.handshake addr) (record s { tried = tried })

    unfoldable pub proceed :
        Request lib uris → Result (Front lib uris) × World → Shared → Result Reply × Shared
    unfolding connect storing_of held_after
    proceed req (err e, w) s = (err e, record s { world = w })
    proceed req (ok (replayed response), w) s = (ok (from_cache response), record s { world = w })
    proceed req (ok (forwarded addr sent body), w) s =
        dialled req addr sent body (connect net.dial addr s.tried) (record s { world = w })

    unfoldable pub handle_http : Request lib uris → Shared → Result Reply × Shared
    unfolding handle_front proceed
    handle_http req s =
        proceed req
          (handle_front lib uris json order cache policy max_request_body_bytes readings.at_lookup
            req s.world)
          s
