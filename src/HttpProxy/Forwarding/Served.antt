-- ===== src/HttpProxy/Forwarding/Served.antt =====
-- What comes of a request to `handle_http` of src/http_proxy/mod.rs.
use http_cache.HttpProxy.Stored.{headers_for_storage}
use http_cache.Cache.{now_unix}
use http_cache.Cache.World.{World}
use http_cache.HttpProxy.Storing.{Storing}
use http_cache.HttpProxy.LimitedBody.{LimitedBody}
use http_cache.Errors.{Result, ok, err}
use http_cache.Cache.Sqlite.{Json, Order}
use http_cache.Config.{CacheConfig}
use http_cache.Policy.{PolicyEngine}
use http_cache.Cache.Backend.{Cache, is_enabled}
use http_cache.HttpProxy.Expiry.{DateReader, parse_content_length, compute_expiry}
use http_cache.HttpProxy.Upstream.{UriLib, Request}
use http_cache.Headers.{HeaderLib}
use http_cache.Prelude.{
  refl, none, some, ◌∷◌, inl, inr, ℕ, List, Str, ◌≡◌, is_some, ◌∙◌, ◌⊎◌, Option, ap, subst,
}
use http_cache.HttpProxy.Handler.Guarded.{IsGuarded, handle_front-IsGuarded}
use http_cache.HttpProxy.Storing.Storable.{IsStored, storing-IsStored}
use http_cache.Network.Permitted.{TriesPermitted}
use http_cache.HttpProxy.Forwarding.{
  Shared, Readings, Answer, Network, Reply, from_cache, from_upstream, exchange_of, storing_of,
  answered, shaken, dialled, proceed, handle_http,
}
use http_cache.HttpProxy.Handler.{Front, replayed, forwarded}
use http_cache.Network.{Dialled, connected, refused, elapsed, connect, stream_of}

module _ (lib : HeaderLib) (uris : UriLib) (parse_http_date : DateReader) (cache : Cache)
    (policy : PolicyEngine) (config : CacheConfig) (max : ℕ) (readings : Readings)
    (net : Network lib uris) where
  -- The upstream was asked at the address: it was tried and reached, and answered the request.
  abbrev pub Asked :
      List Str → List Str → Str → Request lib uris → LimitedBody → Answer lib uris → Type 0
  Asked before after addr sent body answer =
      (after ≡ addr ∷ before)
      × (net.dial addr ≡ connected)
      × (net.handshake addr ≡ none)
      × (net.send_request addr sent body ≡ inr answer)

  abbrev pub StoresOf : Request lib uris → List Str → Answer lib uris → Storing → Type 0
  StoresOf req held answer decision =
      IsStored config held
        (record {
          method = req.method;
          url = uris.to_string req.uri;
          range_requested = is_some (lib.get req.headers lib.range);
          status = answer.answer_status;
          now = now_unix readings.at_test;
          created_at = now_unix readings.at_creation;
        })
        (headers_for_storage lib answer.answer_headers)
        (parse_content_length lib answer.answer_headers) (is_enabled cache)
        (compute_expiry lib parse_http_date readings.at_expiry answer.answer_headers
          config.ttl_seconds)
        decision

  abbrev pub IsReply : Request lib uris → Shared → List Str → Reply lib uris → Type 0
  IsReply req before after (from_cache response) =
      IsGuarded lib uris policy cache max req (replayed response) × (after ≡ before.tried)
  IsReply req before after (from_upstream answer decision) =
      (addr : Str) × (sent : Request lib uris) × (body : LimitedBody) × IsGuarded lib uris policy
        cache max req (forwarded addr sent body)
      × Asked before.tried after addr sent body answer
      × StoresOf req before.held answer decision

  abbrev pub Replies : Request lib uris → Shared → List Str → Result (Reply lib uris) → Type 0
  Replies req before after (ok reply) = IsReply req before after reply
  Replies req before after (err e) = Unit

  abbrev pub IsServed : Request lib uris → Shared → Result (Reply lib uris) × Shared → Type 0
  IsServed req before r =
      TriesPermitted policy before.tried r.1.tried × Replies req before r.1.tried r.0

  module _ (json : Json) (order : Order) where
    stores :
        (req : Request lib uris) (answer : Answer lib uris) (held : List Str)
        → StoresOf req held answer (
            storing_of lib uris json order parse_http_date cache policy config max readings net req
              answer held)
    unfolding storing_of
    stores req answer held =
        storing-IsStored config held (exchange_of lib uris readings req answer)
          (headers_for_storage lib answer.answer_headers)
          (parse_content_length lib answer.answer_headers) (is_enabled cache)
          (compute_expiry lib parse_http_date readings.at_expiry answer.answer_headers
            config.ttl_seconds)

    permits_of :
        (req sent : Request lib uris) (addr : Str) (body : LimitedBody) (before after : List Str)
        → IsGuarded lib uris policy cache max req (forwarded addr sent body)
        → after ≡ addr ∷ before
        → TriesPermitted policy before after
    permits_of req sent addr body before after g e =
        inr (
          g.target.target_host,
          g.target.target_port,
          g.permits,
          e ∙ ap (λ a. a ∷ before) g.upshot.0,
        )

    module _ (req sent : Request lib uris) (addr : Str) (body : LimitedBody) (before : Shared)
        (guarded : IsGuarded lib uris policy cache max req (forwarded addr sent body)) where
      answered-IsServed :
          (r : Str ⊎ Answer lib uris) (s : Shared)
          → net.dial addr ≡ connected
          → net.handshake addr ≡ none
          → net.send_request addr sent body ≡ r
          → s.held ≡ before.held
          → s.tried ≡ addr ∷ before.tried
          → IsServed req before (
              answered lib uris json order parse_http_date cache policy config max readings net req
                r s)
      answered-IsServed (inl m) s d h e k t =
          (permits_of req sent addr body before.tried s.tried guarded t, tt)
      answered-IsServed (inr answer) s d h e k t = (
        permits_of req sent addr body before.tried s.tried guarded t,
        (
          addr,
          sent,
          body,
          guarded,
          (t, d, h, e),
          subst
              (λ held. StoresOf req held answer (
                storing_of lib uris json order parse_http_date cache policy config max readings net
                  req answer s.held))
              k (stores req answer s.held),
        ),
      )

      shaken-IsServed :
          (o : Option Str) (s : Shared)
          → net.dial addr ≡ connected
          → net.handshake addr ≡ o
          → s.held ≡ before.held
          → s.tried ≡ addr ∷ before.tried
          → IsServed req before (
              shaken lib uris json order parse_http_date cache policy config max readings net req
                addr sent body o s)
      shaken-IsServed (some m) s d h k t =
          (permits_of req sent addr body before.tried s.tried guarded t, tt)
      shaken-IsServed none s d h k t = answered-IsServed _ s d h refl k t

      dialled-IsServed :
          (d : Dialled) (s : Shared)
          → net.dial addr ≡ d
          → s.held ≡ before.held
          → IsServed req before (
              dialled lib uris json order parse_http_date cache policy config max readings net req
                addr sent body
                (stream_of d, addr ∷ before.tried)
                s)
      dialled-IsServed connected s e k =
          shaken-IsServed _ (record s { tried = addr ∷ before.tried }) e refl k refl
      dialled-IsServed (refused m) s e k =
          (permits_of req sent addr body before.tried _ guarded refl, tt)
      dialled-IsServed elapsed s e k =
          (permits_of req sent addr body before.tried _ guarded refl, tt)

    proceed-IsServed :
        (req : Request lib uris) (before : Shared) (r : Result (Front lib uris) × World)
        → ((o : Front lib uris) → r.0 ≡ ok o → IsGuarded lib uris policy cache max req o)
        → IsServed req before (
            proceed lib uris json order parse_http_date cache policy config max readings net req r
              before)
    unfolding proceed connect
    proceed-IsServed req before (err e, w) guards = (inl refl, tt)
    proceed-IsServed req before (ok (replayed response), w) guards =
        (inl refl, (guards (replayed response) refl, refl))
    proceed-IsServed req before (ok (forwarded addr sent body), w) guards =
        dialled-IsServed req sent addr body before (guards (forwarded addr sent body) refl) _
          (record before { world = w }) refl refl

    -- Whatever the network answers and whichever calls of the cache fail, at most one address is
    -- tried, and only one that the policy permits. A reply from the cache means that none was tried
    -- and that the request may be answered so. A reply from the upstream is what it answered, at
    -- the one address that was tried and reached, to the request as it is to be forwarded; and its
    -- body is stored only as that may be.
    pub handle_http-IsServed :
        (req : Request lib uris) (s : Shared)
        → IsServed req s (
            handle_http lib uris json order parse_http_date cache policy config max readings net req
              s)
    unfolding handle_http
    handle_http-IsServed req s = proceed-IsServed req s _ (λ o h.
        handle_front-IsGuarded lib uris json order cache policy max readings.at_lookup req s.world o
          h)
