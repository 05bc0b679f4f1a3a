-- ===== src/HttpProxy/CacheWrite/Whole.antt =====
-- What the writer of src/http_proxy/cache_pipeline.rs commits, over every interleaving of the tee
-- and the writer.
use http_cache.HttpProxy.CacheWrite.Writer.{run_writer-Agrees}
use http_cache.Prelude.Words.{u64_mod}
use http_cache.HttpProxy.CacheWrite.Tee.{polled-Agrees, dropped-Agrees, same-Agrees}
use mathlib.Core.List.{append-nil}
use http_cache.HttpProxy.CacheWrite.Streams.{
  dropped, step, steps, joined, observe, observe_all, Agrees, Stream, Event, polled, begun, resumed,
}
use http_cache.HttpProxy.CacheWrite.{started, Settings, Pipeline, committed}
use http_cache.Errors.{ProxyError}
use http_cache.Prelude.{
  none, some, [], ◌∷◌, true, List, ◌≡◌, length, arith, ◌%◌, is_some, ℕ, ◌<◌, ◌≤◌,
}

-- What a committed file holds: the whole of a body that ended, cleanly unless its length was
-- announced and is met, and within the limit on objects.
pub record IsWhole (settings : Settings) (p : Pipeline) (s : Stream) : Type 0 where
  pub bytes : p.written ≡ s.bytes
  pub size : p.size ≡ length s.bytes % u64_mod
  pub ended : is_some s.ended ≡ true
  pub clean : settings.content_length ≡ none → s.ended ≡ some true
  pub announced :
      (expected : ℕ) → settings.content_length ≡ some expected → length s.bytes % u64_mod ≡ expected
  pub bounded :
      0 < settings.max_object_size_bytes → length s.bytes % u64_mod ≤ settings.max_object_size_bytes
  pub required : settings.require_content_length ≡ true → is_some settings.content_length ≡ true

committed_whole :
    (settings : Settings) (p : Pipeline) (s : Stream)
    → Agrees settings p s
    → p.phase ≡ committed
    → p.written ≡ s.bytes
unfolding joined
committed_whole settings p s a h = ground (arith, append-nil p.written)

committed-IsWhole :
    (settings : Settings) (p : Pipeline) (s : Stream)
    → Agrees settings p s
    → p.phase ≡ committed
    → IsWhole settings p s
committed-IsWhole settings p s a h =
    let w = committed_whole settings p s a h in
    record {
      bytes = w;
      size = ground arith;
      ended = ground arith;
      clean = λ e. ground arith;
      announced = λ expected e. ground arith;
      bounded = λ e. ground arith;
      required = λ e. ground arith;
    }

module _ {E : Type 0} (from : E → ProxyError) (settings : Settings) where
  step-Agrees :
      (event : Event E) (p : Pipeline) (s : Stream)
      → Agrees settings p s
      → Agrees settings (step from settings event p) (observe event s)
  unfolding step observe
  step-Agrees (polled sent poll) p s a = polled-Agrees E settings from sent poll p s a
  step-Agrees dropped p s a = dropped-Agrees E settings p s a
  step-Agrees (resumed ok) p s a =
      same-Agrees E settings (is_some s.ended) _ s (run_writer-Agrees settings ok p s a)

  steps-Agrees :
      (events : List (Event E)) (p : Pipeline) (s : Stream)
      → Agrees settings p s
      → Agrees settings (steps from settings events p) (observe_all events s)
  unfolding steps observe_all
  steps-Agrees [] p s a = a
  steps-Agrees (event ∷ events) p s a =
      steps-Agrees events (step from settings event p) (observe event s) (step-Agrees event p s a)

  begun-Agrees : Agrees settings started begun
  unfolding joined
  begun-Agrees = ground arith

  -- Whatever the order in which the tee and the writer run, whatever `try_send` answers and
  -- whichever file and store calls fail: if the writer commits, the file holds exactly the bytes
  -- that the reader of the body saw up to its end; that end was clean if no length was announced,
  -- and otherwise the number of bytes, as a u64, is the announced one; it is within the limit, if
  -- there is one; and a length was announced if one is required.
  pub steps-IsWhole :
      (events : List (Event E))
      → (steps from settings events started).phase ≡ committed
      → IsWhole settings (steps from settings events started) (observe_all events begun)
  steps-IsWhole events h =
      committed-IsWhole settings _ _ (steps-Agrees events started begun begun-Agrees) h
