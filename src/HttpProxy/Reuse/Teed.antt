-- ===== src/HttpProxy/Reuse/Teed.antt =====
-- What is known of a request whose response goes through the tee of src/http_proxy/cache_pipeline.rs,
-- of the row of that response, and of the next request for it.
use http_cache.HttpProxy.Committing.{request_of}
use http_cache.HttpProxy.Stored.{Response}
use http_cache.Cache.{now_unix, cache_key}
use http_cache.HttpProxy.Reuse.{job_of, Meanwhile}
use http_cache.Cache.Backend.{sqlite_cache}
use http_cache.Cache.World.{World, Row}
use http_cache.Config.{CacheConfig}
use http_cache.Policy.{PolicyEngine}
use http_cache.HttpProxy.Expiry.{DateReader}
use http_cache.Cache.Sqlite.{Json, Order, SqliteCache, to_row}
use http_cache.HttpProxy.Upstream.{UriLib, Request}
use http_cache.Headers.{HeaderLib}
use http_cache.Errors.{ok}
use http_cache.HttpProxy.Forwarding.{
  from_upstream, from_cache, exchange_of, Readings, Network, Shared, Answer, handle_http,
}
use http_cache.HttpProxy.Forwarding.Served.{Replies, handle_http-IsServed}
use http_cache.HttpProxy.Storing.{store_body}
use http_cache.HttpProxy.CacheWrite.{Settings}
use http_cache.Prelude.Int.{ℤ}
use http_cache.Cache.Backend.Provenance.{with_world}
use http_cache.HttpProxy.Reuse.Answered.{Passes, handle_http-replays}
use http_cache.HttpProxy.Handler.{look_up_cache}
use http_cache.Prelude.{
  ◌<◌, ◌∙◌, ap, is_some, false, ◌≡◌, ◌≤◌, some, subst, codes, ℕ, Str, List, refl,
}

module _ (lib : HeaderLib) (uris : UriLib) where
  -- A row that records the exchange in which the response came.
  pub record IsRowOf (readings : Readings) (req : Request lib uris) (answer : Answer lib uris)
      (text : Str) (t : ℤ) (row : Row) : Type 0 where
    method : row.method ≡ req.method
    url : row.url ≡ uris.to_string req.uri
    status : row.status ≡ answer.answer_status
    headers : row.headers ≡ text
    created_at : row.created_at ≡ now_unix readings.at_creation
    expires_at : row.expires_at ≡ t

module _ (lib : HeaderLib) (uris : UriLib) (json : Json) (order : Order)
    (parse_http_date : DateReader) (cache : SqliteCache) (policy : PolicyEngine)
    (config : CacheConfig) (max : ℕ) where
  -- What is known of a request whose response goes through the tee.
  pub record IsTeed (req : Request lib uris) (answer : Answer lib uris) (key : Str) : Type 0 where
    pub method : req.method ≡ codes "GET"
    pub whole : is_some (lib.get req.headers lib.range) ≡ false
    pub same_key : key ≡ cache_key (codes "GET") (uris.to_string req.uri)
    pub low : 200 ≤ answer.answer_status
    pub high : answer.answer_status < 300

  pub teed :
      (readings : Readings) (net : Network lib uris) (req : Request lib uris) (s : Shared)
      (answer : Answer lib uris) (key : Str) (headers : List (Str × Str)) (t : ℤ)
      (settings : Settings)
      → (handle_http lib uris json order parse_http_date
          (sqlite_cache cache)
          policy
          config
          max
          readings
          net
          req
          s).0
        ≡ ok (from_upstream answer (store_body key headers t settings))
      → IsTeed req answer key
  teed readings net req s answer key headers t settings h =
      let r =
        handle_http lib uris json order parse_http_date (sqlite_cache cache) policy config max
          readings net req s in
      let served =
        handle_http-IsServed lib uris parse_http_date (sqlite_cache cache) policy config max
          readings net json order req s in
      let (addr, sent, body, guarded, asked, stores) =
        subst
          (Replies lib uris parse_http_date (sqlite_cache cache) policy config max readings net req
            s r.1.tried)
          h served.1 in
      let (storable, method, same, _, _, _, _, _) = stores in
      record {
        method = method;
        whole = storable.1;
        same_key = same ∙ ap (λ m. cache_key m (uris.to_string req.uri)) method;
        low = storable.2;
        high = storable.3;
      }

  -- The handler answers with what the lookup of a GET replays.
  pub replays_next :
      (readings : Readings) (net : Network lib uris) (req : Request lib uris) (s : Shared)
      (answer : Answer lib uris) (key : Str) (response : Response lib)
      → Passes lib uris json order (sqlite_cache cache) policy max req
      → IsTeed req answer key
      → (look_up_cache lib uris json order
          (sqlite_cache cache)
          policy
          max
          readings.at_lookup
          (codes "GET")
          (uris.to_string req.uri)
          false
          s.world).0
        ≡ ok (some response)
      → (after : World) × (handle_http lib uris json order parse_http_date
            (sqlite_cache cache)
            policy
            config
            max
            readings
            net
            req
            s
          ≡ (ok (from_cache response), record s { world = after }))
  replays_next readings net req s answer key response passes t found =
      let look =
        look_up_cache lib uris json order (sqlite_cache cache) policy max readings.at_lookup
          (codes "GET") (uris.to_string req.uri) false s.world in
      (
        look.1,
        handle_http-replays lib uris json order (sqlite_cache cache) policy max parse_http_date
            config readings net req s look.1 response passes
            (rw (t.method, t.whole) (with_world look (ok (some response)) found)),
      )

module _ (lib : HeaderLib) (uris : UriLib) (json : Json) (hash_key : Str → Str) (dir uuid : Str)
    (renaming storing : Meanwhile) where
  pub to_row-IsRowOf :
      (readings : Readings) (req : Request lib uris) (answer : Answer lib uris) (key : Str)
      (headers : List (Str × Str)) (text : Str) (t : ℤ) (size : ℕ)
      → json.to_json headers ≡ some text
      → let job =
          job_of hash_key dir uuid renaming storing
            (exchange_of lib uris readings req answer)
            key
            headers
            t in
        IsRowOf lib uris readings req answer text t (to_row json (request_of job size))
  unfolding to_row
  to_row-IsRowOf readings req answer key headers text t size printed = record {
    method = refl;
    url = refl;
    status = refl;
    headers = rw printed refl;
    created_at = refl;
    expires_at = refl;
  }
