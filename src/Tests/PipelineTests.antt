-- ===== src/Tests/PipelineTests.antt =====
-- Inputs for the theorems on the tee and the cache writer of src/http_proxy/cache_pipeline.rs.
use http_cache.HttpProxy.LimitedBody.{poll_frame}
use http_cache.Errors.{ProxyError}
use http_cache.Body.{ready_frame, data_frame, ready_none}
use http_cache.HttpProxy.CacheWrite.Whole.{IsWhole, steps-IsWhole}
use http_cache.HttpProxy.CacheWrite.Streams.{
  steps, Event, step, polled, observe_all, resumed, begun, dropped,
}
use http_cache.HttpProxy.CacheWrite.{
  Settings, started, accepted, drop_tee, run_writer, write_chunk, committed, commit, forward,
  finish, disable_cache, full, discarded,
}
use http_cache.Prelude.{refl, some, [], ◌∷◌, true, List, codes, ◌≡◌}

abbrev settings : Settings
settings = record {
  content_length = some 11;
  max_object_size_bytes = 1000;
  require_content_length = true;
}

-- The reader goes away after the whole body, without polling its end.
abbrev events : List (Event ProxyError)
events =
    polled accepted (ready_frame (data_frame (codes "hello ")))
    ∷ resumed true
    ∷ polled accepted (ready_frame (data_frame (codes "world")))
    ∷ resumed true
    ∷ dropped
    ∷ resumed true
    ∷ resumed true
    ∷ resumed true
    ∷ resumed true
    ∷ resumed true
    ∷ []

commits : (steps (λ e. e) settings events started).phase ≡ committed
unfolding steps step poll_frame drop_tee run_writer write_chunk commit forward finish disable_cache
commits = refl

steps-IsWhole_example :
    IsWhole settings (steps (λ e. e) settings events started) (observe_all events begun)
steps-IsWhole_example = steps-IsWhole (λ e. e) settings events commits

-- A chunk that finds the channel full gives the cache up, and the reader still gets every byte.
gives_up :
    (steps {E = ProxyError}
      (λ e. e)
      settings
      (polled full (ready_frame (data_frame (codes "hello ")))
        ∷ resumed true
        ∷ polled accepted ready_none
        ∷ resumed true
        ∷ resumed true
        ∷ [])
      started).phase
    ≡ discarded
unfolding steps step poll_frame drop_tee run_writer write_chunk commit forward finish disable_cache
gives_up = refl
