-- ===== src/HttpProxy/Reuse/Chain.antt =====
-- From a request over its stored response to the next request for the same URL: `handle_http` of
-- src/http_proxy/mod.rs, `cache_body` of cache_pipeline.rs, the cache of src/cache.rs, `handle_http`.
use http_cache.HttpProxy.Reuse.Teed.{IsRowOf, teed, replays_next, to_row-IsRowOf}
use http_cache.Cache.Table.{select_key}
use http_cache.HttpProxy.Committing.{request_of}
use http_cache.Cache.Sqlite.Lookups.{entry_of}
use http_cache.HttpProxy.Stored.Replay.{Replays}
use http_cache.HttpProxy.Stored.{Response}
use http_cache.Cache.{now_unix}
use http_cache.Prelude.Words.{u64_max}
use http_cache.Cache.Sqlite.Calm.{calm}
use http_cache.HttpProxy.CacheBody.Simulated.{observed_all}
use http_cache.HttpProxy.CacheBody.{turn}
use http_cache.HttpProxy.Reuse.{job_of, Meanwhile}
use http_cache.Cache.Backend.{sqlite_cache}
use http_cache.Cache.World.{World, Row}
use http_cache.Body.{Bytes}
use http_cache.HttpProxy.Committing.Placed.{IsSpared, renamed_in}
use http_cache.Config.{CacheConfig}
use http_cache.Policy.{PolicyEngine}
use http_cache.HttpProxy.Expiry.{DateReader}
use http_cache.Cache.Sqlite.{Json, Order, SqliteCache, to_row}
use http_cache.HttpProxy.Upstream.{UriLib, Request}
use http_cache.Headers.{HeaderLib}
use http_cache.Errors.{ProxyError, ok}
use http_cache.HttpProxy.Forwarding.{
  from_upstream, from_cache, exchange_of, Readings, Network, Shared, Answer, handle_http,
}
use http_cache.HttpProxy.Storing.{store_body}
use http_cache.HttpProxy.CacheBody.Served.{begins, committed-Replays, turn-IsInPlace}
use http_cache.HttpProxy.CacheBody.Runs.{Event, steps}
use http_cache.HttpProxy.CacheWrite.{committed, Settings}
use http_cache.HttpProxy.CacheWrite.Streams.{begun}
use http_cache.Prelude.Decimal.{to_decimal}
use http_cache.Prelude.Int.{ℤ, ◌<ℤ◌}
use http_cache.HttpProxy.Reuse.Answered.{handle_http-Passes}
use http_cache.HttpProxy.Reuse.{paths_apart}
use http_cache.Prelude.{◌≡◌, ◌≢◌, ◌≤◌, some, arith, length, ℕ, Str, List}

module _ {E : Type 0} (from : E → ProxyError) (lib : HeaderLib) (uris : UriLib) (json : Json)
    (order : Order) (parse_http_date : DateReader) (cache : SqliteCache) (policy : PolicyEngine)
    (config : CacheConfig) (max : ℕ) (hash_key : Str → Str) (uuid : Str)
    (renaming storing : Meanwhile) where
  -- A response that was stored answers the next request. When `handle_http` has answered a request
  -- with the upstream's response and sent its body through the tee, and the writer commits, in
  -- whatever order the reader of that body, the writer and the rest of the program ran, also
  -- between the flush, the rename and the store of the commit, and whichever of their calls failed;
  -- then the row of its key has the request's method and URL, the status that the upstream
  -- answered, the stored headers as they are printed, the time of the response and its expiry, and
  -- `handle_http` answers the same request, when no call fails from there, from the cache: with the
  -- status that the upstream answered, exactly the bytes that the first reader saw and a Content-
  -- Length that reads as their number, without trying an address, and with nothing changed but the
  -- cache's world. The temporary file is the writer's own. The file that it has renamed is still
  -- there as it was when the writer comes to its store, and no row that a limit of the table makes
  -- that store evict is the new one or names the file; the entry is still live at the second
  -- request; its headers and its size can be printed.
  pub handle_http_reuses :
      (first next : Readings) (net next_net : Network lib uris) (req : Request lib uris)
      (s since : Shared) (answer : Answer lib uris) (key : Str) (headers : List (Str × Str)) (t : ℤ)
      (settings : Settings) (events : List (Event E)) (held : Bytes) (w : World) (text : Str)
      (value : lib.HeaderValue)
      → (handle_http lib uris json order parse_http_date
          (sqlite_cache cache)
          policy
          config
          max
          first
          net
          req
          s).0
        ≡ ok (from_upstream answer (store_body key headers t settings))
      → let job =
          job_of hash_key cache.dir uuid renaming storing
            (exchange_of lib uris first req answer)
            key
            headers
            t in
        let c = steps from json order (sqlite_cache cache) job settings events (begins w) in
        let c' = turn json order (sqlite_cache cache) job settings held c.pipeline c.world in
        let bytes = (observed_all events begun).bytes in
        let there = record since { world = calm c'.world.rows c'.world.files } in
        IsSpared json order cache job c.pipeline.written c.pipeline.size
          (renamed_in json order cache job c.pipeline.written c.pipeline.size c.world)
        → c.pipeline.phase ≢ committed
        → c'.pipeline.phase ≡ committed
        → json.to_json headers ≡ some text
        → length bytes ≤ u64_max
        → lib.from_str (to_decimal (length bytes)) ≡ some value
        → now_unix next.at_lookup <ℤ t
        → ((row : Row) × (select_key key c'.world.rows ≡ some row)
            × IsRowOf lib uris first req answer text t row)
          × (r : Response lib) × (after : World) × (handle_http lib uris json order parse_http_date
                (sqlite_cache cache)
                policy
                config
                max
                next
                next_net
                req
                there
              ≡ (ok (from_cache r), record there { world = after }))
          × (r.status ≡ answer.answer_status)
          × Replays lib (entry_of (request_of job (length bytes)) (now_unix next.at_lookup)) bytes r
  handle_http_reuses first next net next_net req s since answer key headers t settings events held w
        text value h spared new done printed small sized fresh =
      let job =
        job_of hash_key cache.dir uuid renaming storing (exchange_of lib uris first req answer) key
          headers t in
      let c = steps from json order (sqlite_cache cache) job settings events (begins w) in
      let c' = turn json order (sqlite_cache cache) job settings held c.pipeline c.world in
      let there = record since { world = calm c'.world.rows c'.world.files } in
      let passes =
        handle_http-Passes lib uris json order (sqlite_cache cache) policy max parse_http_date
          config first net req s _ h in
      let known =
        teed lib uris json order parse_http_date cache policy config max first net req s answer key
          headers t settings h in
      let (whole, r, sent, replays) =
        committed-Replays from json order cache job settings
          (paths_apart hash_key cache.dir key uuid) lib uris policy max next.at_lookup
          (uris.to_string req.uri) text value events held w spared new done known.same_key printed
          small fresh (let b = known.low in omega arith) (let b = known.high in omega arith)
          sized in
      let bytes = (observed_all events begun).bytes in
      let here =
        turn-IsInPlace from json order cache job settings (paths_apart hash_key cache.dir key uuid)
          held c.pipeline c.world (observed_all events begun) spared new done whole in
      let (after, answered) =
        replays_next lib uris json order parse_http_date cache policy config max next next_net req
          there answer key r passes known sent in
      (
        (
          to_row json (request_of job (length bytes)),
          here.row (omega arith),
          to_row-IsRowOf lib uris json hash_key cache.dir uuid renaming storing first req answer key
              headers text t (length bytes) printed,
        ),
        r,
        after,
        answered,
        replays.status,
        replays,
      )
