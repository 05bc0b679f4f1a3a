-- ===== src/HttpProxy/Committing/Replayed.antt =====
-- From the writer of src/http_proxy/cache_pipeline.rs, over the cache of src/cache.rs, to the hit of
-- src/http_proxy/mod.rs.
use http_cache.Prelude.Decimal.{to_decimal}
use http_cache.Prelude.Int.{◌<ℤ◌}
use http_cache.Prelude.Words.{u64_max}
use http_cache.Cache.{Clock, cache_key, now_unix, CacheEntry}
use http_cache.Errors.{ok}
use http_cache.Policy.{PolicyEngine}
use http_cache.HttpProxy.Upstream.{UriLib}
use http_cache.Headers.{HeaderLib}
use http_cache.Cache.Table.Eviction.{delete_keys}
use http_cache.Cache.Table.{upsert, touch_key, select_key}
use http_cache.Cache.World.{Row, World, bind_found}
use http_cache.Cache.Sqlite.{Json, Order, SqliteCache, to_row}
use http_cache.Body.{Bytes}
use http_cache.Prelude.{
  ◌<◌, refl, none, some, true, false, Str, Option, ◌≡◌, List, str_eq_refl, ℕ, length, ◌⊎◌, ◌≤◌,
  codes, ◌<◌, arith, str_eq, ap, ◌∙◌,
}
use http_cache.Cache.Backend
use http_cache.Cache.Sqlite
use http_cache.Cache.Backend.{sqlite_cache, is_enabled}
use http_cache.HttpProxy.Committing.{
  Job, request_of, with_file, flush, rename, store_job, commit_files,
}
use http_cache.HttpProxy.Handler.{
  look_up_cache, replay, replay_found, read_file, ok_only, may_replay,
}
use http_cache.HttpProxy.Stored.{Response, cached_response}
use http_cache.HttpProxy.Stored.Replay.{Replays, cached_response-Replays}
use http_cache.Cache.Sqlite.Lookups.{entry_of, get_found-calm, select_stored, no_victims}
use http_cache.Cache.Sqlite.Calm.{calm, store-calm}

get_is_not_head : str_eq (codes "GET") (codes "HEAD") ≡ false
unfolding str_eq
get_is_not_head = refl

get_may_replay :
    (lib : HeaderLib) (uris : UriLib) (cache : SqliteCache)
    → may_replay lib uris (sqlite_cache cache) (codes "GET") false ≡ true
unfolding str_eq is_enabled
get_may_replay lib uris cache = refl

-- The files once the writer has renamed its own.
abbrev committed_files : Job → Bytes → (Str → Option Bytes) → Str → Option Bytes
committed_files job written files =
    let flushed = with_file job.temp_path (some written) files in
    with_file job.final_path (flushed job.temp_path) (with_file job.temp_path none flushed)

final_file :
    (job : Job) (written : Bytes) (files : Str → Option Bytes)
    → committed_files job written files job.final_path ≡ some written
final_file job written files = rw (str_eq_refl job.final_path, str_eq_refl job.temp_path)

module _ (json : Json) (order : Order) (cache : SqliteCache) (job : Job) (written : Bytes)
    (rows : List Row) (files : Str → Option Bytes) where
  abbrev size : ℕ
  size = length written

  abbrev stored_rows : List Row
  stored_rows = upsert (to_row json (request_of job size)) rows

  pub commit_files-calm :
      (cache.max_entries ≡ 0) ⊎ (length stored_rows ≤ cache.max_entries)
      → commit_files json order (sqlite_cache cache) job written size (calm rows files)
        ≡ (ok true, calm stored_rows (committed_files job written files))
  unfolding commit_files flush rename store_job Backend.store delete_keys
  commit_files-calm fits =
      rw
        (
          store-calm order json cache (request_of job size) rows
              (committed_files job written files),
          no_victims order cache.max_entries stored_rows fits,
        )
        refl

  module _ (lib : HeaderLib) (uris : UriLib) (policy : PolicyEngine) (max : ℕ) (clock : Clock)
      (url text : Str) (value : lib.HeaderValue) where
    -- A lookup that finds an entry, whose response can be made, is a hit.
    found_hits :
        (w after : World) (entry : CacheEntry) (r : Response lib)
        → Sqlite.get json clock (codes "GET") url w ≡ (ok (some entry), after)
        → cached_response lib (read_file after) (codes "GET") entry ≡ ok r
        → (look_up_cache lib uris json order
            (sqlite_cache cache)
            policy
            max
            clock
            (codes "GET")
            url
            false
            w).0
          ≡ ok (some r)
    unfolding look_up_cache replay Backend.get
    found_hits w after entry r found sent = rw (get_may_replay lib uris cache) (
        ap (λ o. o.0)
          (bind_found (Sqlite.get json clock (codes "GET") url)
            (replay_found lib uris (codes "GET")) w (some entry) after found)
        ∙ ap (λ c. ok (ok_only c)) sent)

    -- A row of the job and its file, from wherever, are what the next hit sends.
    pub stored-Replays :
        (now_rows : List Row) (disk : Str → Option Bytes)
        → select_key (cache_key (codes "GET") url) now_rows
          ≡ some (to_row json (request_of job (length written)))
        → json.to_json job.headers ≡ some text
        → length written ≤ u64_max
        → now_unix clock <ℤ job.expires_at
        → 100 ≤ job.status
        → job.status < 1000
        → lib.from_str (to_decimal (length written)) ≡ some value
        → disk job.final_path ≡ some written
        → (r : Response lib) × ((look_up_cache lib uris json order
              (sqlite_cache cache)
              policy
              max
              clock
              (codes "GET")
              url
              false
              (calm now_rows disk)).0
            ≡ ok (some r))
          × Replays lib (entry_of (request_of job (length written)) (now_unix clock)) written r
    stored-Replays now_rows disk selected printed small fresh low high sized here =
        let found =
          get_found-calm json (request_of job size) clock (codes "GET") url text now_rows disk
            selected printed (omega arith) fresh (rw here refl) in
        let entry = entry_of (request_of job size) (now_unix clock) in
        let after = calm (touch_key (now_unix clock) job.key now_rows) disk in
        let (r, sent, replays) =
          cached_response-Replays lib (read_file after) (codes "GET") job.final_path entry written
            value get_is_not_head refl (rw here refl) low high small sized in
        (r, found_hits _ after entry r found sent, replays)

    -- What the writer has committed is what the next hit sends. When no call fails, the writer
    -- commits; and a GET of the same URL is then answered, while the entry is live and if neither
    -- the limit of the table nor the printer of the headers nor that of the size refuses it, with
    -- the stored status, exactly the bytes that were written, and a Content-Length that reads as
    -- their number.
    pub commit_files-Replays :
        job.key ≡ cache_key (codes "GET") url
        → json.to_json job.headers ≡ some text
        → length written ≤ u64_max
        → now_unix clock <ℤ job.expires_at
        → (cache.max_entries ≡ 0)
          ⊎ (length (upsert (to_row json (request_of job (length written))) rows)
              ≤ cache.max_entries)
        → 100 ≤ job.status
        → job.status < 1000
        → lib.from_str (to_decimal (length written)) ≡ some value
        → let (done, w) =
            commit_files json order
              (sqlite_cache cache)
              job
              written
              (length written)
              (calm rows files) in
          (done ≡ ok true)
          × (r : Response lib) × ((look_up_cache lib uris json order
                (sqlite_cache cache)
                policy
                max
                clock
                (codes "GET")
                url
                false
                w).0
              ≡ ok (some r))
          × Replays lib (entry_of (request_of job (length written)) (now_unix clock)) written r
    commit_files-Replays k printed small fresh fits low high sized =
        let (r, sent, replays) =
          stored-Replays stored_rows (committed_files job written files)
            (select_stored json (request_of job size) (cache_key (codes "GET") url) rows k) printed
            small fresh low high sized (final_file job written files) in
        rw (commit_files-calm fits) (refl, r, sent, replays)
