-- ===== src/Tests/CachingTests.antt =====
-- Inputs for the theorem on a response that is cached while the table is full.
use http_cache.HttpProxy.Reuse.Teed.{IsRowOf}
use http_cache.Cache.Table.{select_key}
use http_cache.HttpProxy.CacheBody.Arriving.{arriving}
use http_cache.Obs.{flush}
use http_cache.Server.TimedBody.{poll_frame}
use http_cache.HttpProxy.Committing.Placed.{renamed_in, IsSpared}
use http_cache.Cache.Sqlite.Lookups.{entry_of}
use http_cache.HttpProxy.Stored.Replay.{Replays}
use http_cache.HttpProxy.Stored.{Response}
use http_cache.Cache.{now_unix}
use http_cache.Cache.World.{World}
use http_cache.Prelude.Decimal.{to_decimal}
use http_cache.Prelude.Int.{pos, negsuc}
use http_cache.Errors.{ok, ProxyError}
use http_cache.Cache.Backend.{sqlite_cache, cache_objects_dir}
use http_cache.Cache.Sqlite.Calm.{calm}
use http_cache.Tests.CacheTests.{one_entry, old}
use http_cache.Cache.Sqlite.Stays.{Stays}
use http_cache.Cache.Sqlite.Newest.{IsNewest-Stays}
use http_cache.Cache.World.{Row}
use http_cache.Cache.Sqlite.{to_row}
use http_cache.Tests.Fixtures.{order, full_disk}
use http_cache.Tests.Headers.{json, print}
use http_cache.Tests.HandlerTests.{uri_lib, policy}
use http_cache.Tests.HeaderMaps.{header_lib}
use http_cache.Tests.RequestsTests.{readings, request_good}
use http_cache.HttpProxy.Forwarding.{from_cache, Shared, handle_http}
use http_cache.HttpProxy.CacheBody.Runs.{Event, steps, step}
use http_cache.HttpProxy.CacheBody.Served.{begins}
use http_cache.HttpProxy.CacheWrite.{committed, drop_tee}
use http_cache.Body.{Bytes}
use http_cache.HttpProxy.CacheBody.{Caching, turn, open_temp, take_chunk, test_abort, remove_temp}
use http_cache.HttpProxy.Committing.{request_of, final_path_of, quiet, rename}
use http_cache.HttpProxy.CacheWrite.Commits.{Admits}
use http_cache.HttpProxy.CacheWrite.Streams.{joined}
use http_cache.HttpProxy.CacheBody.Arrives.{whole_run}
use http_cache.HttpProxy.Reuse.Caches.{handle_http_caches}
use http_cache.Prelude.{
  inl, str_eq, [], ◌∷◌, none, inr, refl, codes, ◌≡◌, length, arith, inl, List, some,
}
use http_cache.Tests.ReuseTests.{
  first_stored, job, key, stored_headers, settings, answer_five, before, config, down, net,
}

-- The same body in two chunks, all taken at once, where the table is full.
abbrev earlier : Row
earlier = record old { last_access = negsuc 4 }

abbrev full_table : World
full_table = calm (earlier ∷ []) full_disk

abbrev chunks : List Bytes
chunks = codes "he" ∷ codes "llo" ∷ []

five_admitted : Admits settings (length (joined chunks))
unfolding joined
five_admitted = record { announced = inl refl; within = inr (omega arith); is_u64 = omega arith }

abbrev run : List (Event ProxyError)
run = whole_run (λ e. e) json order one_entry job settings [] chunks

abbrev waiting : Caching
waiting = steps (λ e. e) json order (sqlite_cache one_entry) job settings run (begins full_table)

abbrev done : Caching
done = turn json order (sqlite_cache one_entry) job settings [] waiting.pipeline waiting.world

abbrev afterwards : Shared
afterwards = record before { world = calm done.world.rows done.world.files }

abbrev renamed : World
renamed =
    renamed_in json order one_entry job waiting.pipeline.written waiting.pipeline.size waiting.world

stays : Stays order one_entry (to_row json (request_of job 5)) job.final_path (earlier ∷ [])
unfolding to_row str_eq final_path_of cache_objects_dir now_unix
stays =
    IsNewest-Stays (to_row json (request_of job 5)) job.final_path order one_entry (earlier ∷ [])
      (tt, tt) (inr (refl, omega arith, λ h. cc), tt)

spared : IsSpared json order one_entry job waiting.pipeline.written waiting.pipeline.size renamed
unfolding steps step poll_frame drop_tee turn open_temp take_chunk test_abort remove_temp flush
    rename arriving
spared = (refl, stays)

handle_http_caches_example :
    (done.pipeline.phase ≡ committed)
    × ((row : Row) × (select_key key done.world.rows ≡ some row)
        × IsRowOf header_lib uri_lib readings request_good answer_five
            (print stored_headers)
            (pos 300)
            row)
    × (r : Response header_lib) × (after : World) × (handle_http header_lib uri_lib json order
          (λ date. none)
          (sqlite_cache one_entry)
          policy
          config
          10
          readings
          down
          request_good
          afterwards
        ≡ (ok (from_cache r), record afterwards { world = after }))
    × (r.status ≡ 200)
    × Replays header_lib
        (entry_of (request_of job (length (joined chunks))) (now_unix none))
        (joined chunks)
        r
unfolding joined now_unix to_decimal
handle_http_caches_example =
    handle_http_caches (λ e. e) header_lib uri_lib json order (λ date. none) one_entry policy config
      10 (λ k. codes "a") (codes "1") quiet quiet readings readings net down request_good before
      before answer_five key stored_headers (pos 300) settings chunks [] full_table
      (print stored_headers) (to_decimal 5) first_stored refl five_admitted refl refl (omega arith)
      spared
