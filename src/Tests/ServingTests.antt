-- ===== src/Tests/ServingTests.antt =====
-- Inputs for the theorems on the listener and the timed bodies of src/server.rs, and on the end of
-- the cache writer of src/http_proxy/cache_pipeline.rs.
use http_cache.Prelude.Words.{u64_mod}
use http_cache.Body.{Poll, ready_none, pending, payload, ready_frame, data_frame}
use http_cache.Errors.{ProxyError}
use http_cache.HttpProxy.CacheWrite.Streams.{steps, dropped, resumed}
use http_cache.Prelude.{
  refl, some, [], ◌∷◌, true, false, List, arith, ◌≤◌, ◌≡◌, Bool, ℕ, ◌++◌, map, ◌%◌, codes,
}
use mathlib.Core.Option
use http_cache.HttpProxy.CacheWrite.Ends.{HasEnded, dropped-HasEnded}
use http_cache.HttpProxy.CacheWrite.{started, Settings}
use http_cache.Server.Listener.{
  Listener, Reach, accepts, spawns, ends, accepting, acquiring, listening, later,
}
use http_cache.Server.Listener
use http_cache.Server.Listener.Bounded.{Proceeds, Reach-IsBounded}
use http_cache.Server.TimedBody
use http_cache.Server.TimedBody.{Completed, as_millis}
use http_cache.Server.TimedBody.Logged.{poll_all-IsLogged, outs_of, first_of}

abbrev settings : Settings
settings = record {
  content_length = some 11;
  max_object_size_bytes = 1000;
  require_content_length = true;
}

abbrev oks : List Bool
oks = true ∷ true ∷ false ∷ true ∷ []

dropped-HasEnded_example :
    HasEnded (steps {E = ProxyError} (λ e. e) settings (dropped ∷ map resumed oks) started).phase
dropped-HasEnded_example = dropped-HasEnded (λ e. e) settings oks started (omega arith)

-- One connection is served and another waits, where one is allowed.
abbrev crowded : Listener
crowded = record { permits = 0; serving = 1; tunnels = 0; loop_at = acquiring }

abbrev reached : Reach 1 crowded
reached =
    later (later (later Listener.begins (accepts refl)) (spawns refl (omega arith))) (accepts refl)

Reach-IsBounded_example : (1 ≤ 1) × Proceeds 1 crowded acquiring
Reach-IsBounded_example = Reach-IsBounded 1 crowded reached

abbrev front : List (ℕ × Poll ProxyError)
front =
    (1_000_000, pending)
    ∷ (2_000_000, ready_frame (data_frame (codes "hello ")))
    ∷ (3_000_000, ready_frame (data_frame (codes "world")))
    ∷ []

poll_all-IsLogged_example :
    (TimedBody.poll_all front (TimedBody.new 200) ≡ (outs_of front, []))
    × (TimedBody.poll_all (front ++ ((4_000_000, ready_none) ∷ [])) (TimedBody.new 200) ≡ (
      outs_of (front ++ ((4_000_000, ready_none) ∷ [])),
      record {
        log_status = 200;
        duration_ms = as_millis 4_000_000;
        ttfb_ms = Option.map as_millis (first_of front);
        log_bytes = payload (outs_of front) % u64_mod;
      }
          ∷ [],
    ))
poll_all-IsLogged_example =
    poll_all-IsLogged 200 4_000_000 front [] (λ e. cc, (λ e. cc, (λ e. cc, tt)))
