-- ===== src/HttpProxy/CacheBody/Runs.antt =====
-- Runs of `cache_body` of src/http_proxy/cache_pipeline.rs: the reader of the body, the writer, and
-- the rest of the program.
use http_cache.HttpProxy.Committing.{Job, with_file}
use http_cache.Cache.Backend.{Cache}
use http_cache.Cache.World.{Row}
use http_cache.Cache.Sqlite.{Json, Order}
use http_cache.Errors.{ProxyError}
use http_cache.HttpProxy.CacheWrite.{poll_frame, drop_tee, Sent, Settings}
use http_cache.HttpProxy.CacheBody.{Caching, turn}
use http_cache.Prelude.{[], ◌∷◌, List, Str, Option}
use http_cache.Body.{Poll, Bytes}

-- What the rest of the program does in between may change all but the temporary file, whose name is
-- its own.
pub data Event (E : Type 0) : Type 0 where
  polled : Sent → Poll E → Event E
  dropped : Event E
  takes_turn : Bytes → Event E
  elsewhere : List Row → (Str → Option Bytes) → List (Option Str) → Event E

module _ {E : Type 0} (from : E → ProxyError) (json : Json) (order : Order) (cache : Cache)
    (job : Job) (settings : Settings) where
  unfoldable pub step : Event E → Caching → Caching
  unfolding poll_frame drop_tee turn
  step (polled sent poll) c = record c { pipeline = (poll_frame from sent poll c.pipeline).0 }
  step dropped c = record c { pipeline = drop_tee c.pipeline }
  step (takes_turn held) c = turn json order cache job settings held c.pipeline c.world
  step (elsewhere rows files faults) c = record c {
    world = record {
      rows = rows;
      files = with_file job.temp_path (c.world.files job.temp_path) files;
      faults = faults;
    };
  }

  unfoldable pub steps : List (Event E) → Caching → Caching
  steps [] c = c
  steps (event ∷ events) c = steps events (step event c)
