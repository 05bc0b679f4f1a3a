-- ===== src/Tests/CacheBodyTests.antt =====
-- Inputs for the theorems on `cache_body` of src/http_proxy/cache_pipeline.rs with its files.
use http_cache.HttpProxy.Committing.Placed.{IsSpared, renamed_in}
use http_cache.Cache.Sqlite.Lookups.{entry_of}
use http_cache.HttpProxy.Stored.Replay.{Replays}
use http_cache.HttpProxy.Handler.{look_up_cache}
use http_cache.HttpProxy.Stored.{Response}
use http_cache.HttpProxy.Committing.Cleared.{IsCleared}
use http_cache.Cache.World.{World}
use http_cache.HttpProxy.CacheWrite.Whole.{IsWhole}
use http_cache.Cache.Sqlite.Calm.{calm}
use http_cache.Cache.Backend.{sqlite_cache}
use http_cache.Errors.{ProxyError, ok}
use http_cache.Server.TimedBody.{poll_frame}
use http_cache.HttpProxy.CacheBody.{
  Caching, turn, open_temp, take_chunk, test_abort, remove_temp, finish_file,
}
use http_cache.Tests.StartupTests.{job, paths_differ}
use http_cache.Tests.CacheTests.{unlimited, old}
use http_cache.Tests.Fixtures.{order, full_disk}
use http_cache.Tests.Headers.{json, print}
use http_cache.Tests.HandlerTests.{uri_lib, policy}
use http_cache.Tests.HeaderMaps.{header_lib}
use http_cache.HttpProxy.CacheBody.Runs.{Event, polled, takes_turn, elsewhere, step, steps}
use http_cache.HttpProxy.CacheBody.Served.{begins, committed-Replays}
use http_cache.HttpProxy.CacheBody.Cleared.{turn-Clears}
use http_cache.HttpProxy.CacheBody.Simulated.{observed_all, observed}
use http_cache.HttpProxy.CacheWrite.{accepted, awaiting, committed, discarded, Settings, drop_tee}
use http_cache.HttpProxy.CacheWrite.Streams.{begun}
use http_cache.Body.{ready_frame, data_frame, ready_none}
use http_cache.Cache.Backend
use http_cache.Cache.Sqlite.{store, enforce_limit}
use http_cache.HttpProxy.Committing.{commit_amid, flush, rename, store_job, give_up, request_of}
use http_cache.HttpProxy.CacheWrite.Streams.{observe}
use http_cache.Prelude.Decimal.{to_decimal}
use http_cache.Cache.{cache_key, now_unix}
use http_cache.Tests.CacheTests.{request}
use http_cache.Prelude.{
  length, ◌∙◌, sym, arith, [], ◌∷◌, some, none, refl, codes, true, false, ◌≡◌, ◌≢◌, List,
}

abbrev settings : Settings
settings = record {
  content_length = some 11;
  max_object_size_bytes = 1000;
  require_content_length = true;
}

-- The body in two chunks. In between the rest of the program changes the rows.
abbrev events : List (Event ProxyError)
events =
    polled accepted (ready_frame (data_frame (codes "hello ")))
    ∷ takes_turn []
    ∷ takes_turn (codes "hel")
    ∷ elsewhere (old ∷ []) full_disk (none ∷ [])
    ∷ polled accepted (ready_frame (data_frame (codes "world")))
    ∷ takes_turn (codes "hello wo")
    ∷ polled accepted ready_none
    ∷ takes_turn []
    ∷ takes_turn []
    ∷ []

abbrev reached : Caching
reached =
    steps (λ e. e) json order (sqlite_cache unlimited) job settings events
      (begins (calm [] full_disk))

abbrev finished : Caching
finished = turn json order (sqlite_cache unlimited) job settings [] reached.pipeline reached.world

awaits : reached.pipeline.phase ≡ awaiting
unfolding steps step poll_frame drop_tee turn open_temp take_chunk test_abort remove_temp
    finish_file
awaits = refl

goes_on : reached.pipeline.phase ≢ committed
goes_on h = let e = sym awaits ∙ h in cc

commits : finished.pipeline.phase ≡ committed
unfolding steps step poll_frame drop_tee turn open_temp take_chunk test_abort remove_temp
    finish_file commit_amid flush rename store_job give_up Backend.store store enforce_limit
commits = refl

seen : (observed_all events begun).bytes ≡ codes "hello world"
unfolding observed_all observed observe
seen = refl

spared : IsSpared json order unlimited job reached.pipeline.written reached.pipeline.size (
    renamed_in json order unlimited job reached.pipeline.written reached.pipeline.size
      reached.world)
spared = (refl, tt)

committed-Replays_example :
    IsWhole settings finished.pipeline (observed_all events begun)
    × (r : Response header_lib) × ((look_up_cache header_lib uri_lib json order
          (sqlite_cache unlimited)
          policy
          10
          (some 1001)
          (codes "GET")
          (codes "http://example.com/asset")
          false
          (calm finished.world.rows finished.world.files)).0
        ≡ ok (some r))
    × Replays header_lib
        (entry_of
          (request_of job (length (observed_all events begun).bytes))
          (now_unix (some 1001)))
        (observed_all events begun).bytes
        r
unfolding cache_key now_unix to_decimal observed_all observed observe
committed-Replays_example =
    committed-Replays (λ e. e) json order unlimited job settings paths_differ header_lib uri_lib
      policy 10 (some 1001) (codes "http://example.com/asset") (print request.headers)
      (to_decimal 11) events [] (calm [] full_disk) spared goes_on commits refl refl (omega arith)
      (omega arith) (omega arith) (omega arith) refl

-- The store of the row fails, and the writer gives up.
abbrev stuck : World
stuck = record reached.world { faults = none ∷ none ∷ some (codes "disk I/O error") ∷ [] }

gives_up :
    (turn json order (sqlite_cache unlimited) job settings [] reached.pipeline stuck).pipeline.phase
    ≡ discarded
unfolding steps step poll_frame drop_tee turn open_temp take_chunk test_abort remove_temp
    finish_file commit_amid flush rename store_job give_up Backend.store store enforce_limit
gives_up = refl

turn-Clears_example :
    IsCleared job.temp_path stuck
      (turn json order (sqlite_cache unlimited) job settings [] reached.pipeline stuck).world
turn-Clears_example =
    turn-Clears json order unlimited job settings paths_differ [] reached.pipeline stuck
      (rw awaits refl) (rw gives_up refl)
