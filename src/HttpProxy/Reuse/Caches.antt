-- ===== src/HttpProxy/Reuse/Caches.antt =====
-- A response whose body arrives without trouble is cached by src/http_proxy/cache_pipeline.rs, and
-- answers the next request to `handle_http` of src/http_proxy/mod.rs.
use http_cache.HttpProxy.Reuse.Teed.{IsRowOf}
use http_cache.Cache.Table.{select_key}
use http_cache.HttpProxy.Committing.{request_of}
use http_cache.Cache.Sqlite.Lookups.{entry_of}
use http_cache.HttpProxy.Stored.Replay.{Replays}
use http_cache.HttpProxy.Stored.{Response}
use http_cache.Cache.Sqlite.Calm.{calm}
use http_cache.HttpProxy.CacheBody.{turn}
use http_cache.HttpProxy.Reuse.{job_of, Meanwhile}
use http_cache.Cache.{now_unix}
use http_cache.Cache.Backend.{sqlite_cache}
use http_cache.Cache.World.{World, Row}
use http_cache.Body.{Bytes}
use http_cache.HttpProxy.Committing.Placed.{IsSpared, renamed_in}
use http_cache.Config.{CacheConfig}
use http_cache.Policy.{PolicyEngine}
use http_cache.HttpProxy.Expiry.{DateReader}
use http_cache.Cache.Sqlite.{Json, Order, SqliteCache}
use http_cache.HttpProxy.Upstream.{UriLib, Request}
use http_cache.Headers.{HeaderLib}
use http_cache.Errors.{ProxyError, ok}
use http_cache.HttpProxy.Reuse.Chain.{handle_http_reuses}
use http_cache.HttpProxy.CacheBody.Arrives.{whole_run, whole_run-commits, whole_run-seen}
use http_cache.HttpProxy.CacheWrite.Commits.{Admits}
use http_cache.HttpProxy.CacheWrite.Streams.{joined}
use http_cache.HttpProxy.CacheBody.Served.{begins}
use http_cache.HttpProxy.Forwarding.{
  from_upstream, from_cache, exchange_of, Readings, Network, Shared, Answer, handle_http,
}
use http_cache.HttpProxy.Storing.{store_body}
use http_cache.HttpProxy.CacheBody.Runs.{steps}
use http_cache.HttpProxy.CacheWrite.{committed, awaiting, Pipeline, Settings}
use http_cache.Prelude.Decimal.{to_decimal}
use http_cache.Prelude.Int.{ℤ, ◌<ℤ◌}
use http_cache.Prelude.{◌≡◌, ◌≢◌, ◌∙◌, some, sym, length, [], ℕ, Str, List}

module _ {E : Type 0} (from : E → ProxyError) (lib : HeaderLib) (uris : UriLib) (json : Json)
    (order : Order) (parse_http_date : DateReader) (cache : SqliteCache) (policy : PolicyEngine)
    (config : CacheConfig) (max : ℕ) (hash_key : Str → Str) (uuid : Str)
    (renaming storing : Meanwhile) where
  waits_first : (p : Pipeline) → p.phase ≡ awaiting → p.phase ≢ committed
  waits_first p waits h = let e = sym waits ∙ h in cc

  -- A cacheable response is cached. When `handle_http` has answered a request with the upstream's
  -- response and sent its body through the tee, the body comes in any chunks of data, without
  -- trailers, and ends cleanly, its size is one that the settings admit, no call fails, and the
  -- writer keeps up: it opens its file before the first chunk and takes each chunk off the channel
  -- before the next is polled; then the writer commits, the row of its key has the request's method
  -- and URL, the status that the upstream answered, the stored headers as they are printed, the
  -- time of the response and its expiry, and `handle_http` answers the same request from the cache,
  -- with the status that the upstream answered, exactly the bytes of the chunks and a Content-
  -- Length that reads as their number, without trying an address. The rest of the program keeps
  -- still but between the flush, the rename and the store of the commit, where it may do anything
  -- but to the temporary file; when the writer comes to its store the file that it has renamed is
  -- still there as it was, and no row that a limit of the table makes that store evict is the new
  -- one or names the file. The entry is still live at the second request, and its headers and its
  -- size can be printed.
  pub handle_http_caches :
      (first next : Readings) (net next_net : Network lib uris) (req : Request lib uris)
      (s since : Shared) (answer : Answer lib uris) (key : Str) (headers : List (Str × Str)) (t : ℤ)
      (settings : Settings) (chunks : List Bytes) (held : Bytes) (w : World) (text : Str)
      (value : lib.HeaderValue)
      → (handle_http lib uris json order parse_http_date
          (sqlite_cache cache)
          policy
          config
          max
          first
          net
          req
          s).0
        ≡ ok (from_upstream answer (store_body key headers t settings))
      → w.faults ≡ []
      → Admits settings (length (joined chunks))
      → json.to_json headers ≡ some text
      → lib.from_str (to_decimal (length (joined chunks))) ≡ some value
      → now_unix next.at_lookup <ℤ t
      → let job =
          job_of hash_key cache.dir uuid renaming storing
            (exchange_of lib uris first req answer)
            key
            headers
            t in
        let run = whole_run from json order cache job settings held chunks in
        let c = steps from json order (sqlite_cache cache) job settings run (begins w) in
        let c' = turn json order (sqlite_cache cache) job settings held c.pipeline c.world in
        let there = record since { world = calm c'.world.rows c'.world.files } in
        IsSpared json order cache job c.pipeline.written c.pipeline.size
          (renamed_in json order cache job c.pipeline.written c.pipeline.size c.world)
        → (c'.pipeline.phase ≡ committed)
          × ((row : Row) × (select_key key c'.world.rows ≡ some row)
              × IsRowOf lib uris first req answer text t row)
          × (r : Response lib) × (after : World) × (handle_http lib uris json order parse_http_date
                (sqlite_cache cache)
                policy
                config
                max
                next
                next_net
                req
                there
              ≡ (ok (from_cache r), record there { world = after }))
          × (r.status ≡ answer.answer_status)
          × Replays lib
              (entry_of (request_of job (length (joined chunks))) (now_unix next.at_lookup))
              (joined chunks)
              r
  handle_http_caches first next net next_net req s since answer key headers t settings chunks held w
        text value h fine admits printed sized fresh spared =
      let job =
        job_of hash_key cache.dir uuid renaming storing (exchange_of lib uris first req answer) key
          headers t in
      let run = whole_run from json order cache job settings held chunks in
      let c = steps from json order (sqlite_cache cache) job settings run (begins w) in
      let seen = whole_run-seen from json order cache job settings held chunks in
      let (waits, _, _, done) =
        whole_run-commits from json order cache job settings held chunks w fine admits in
      let (recorded, r, after, answered, status, replays) =
        handle_http_reuses from lib uris json order parse_http_date cache policy config max hash_key
          uuid renaming storing first next net next_net req s since answer key headers t settings
          run held w text value h spared (waits_first c.pipeline waits) done printed
          (rw seen admits.is_u64) (rw seen sized) fresh in
      (done, recorded, r, after, answered, status, rw seen at replays)
