-- ===== src/HttpProxy/CacheWrite/Tee.antt =====
-- Every poll of the tee, and its end, keep what `Agrees` states.
use mathlib.Core.List.{append_assoc}
use http_cache.HttpProxy.CacheWrite.Streams.{
  Stream, Agrees, observe, joined, polled, dropped, joined-append,
}
use http_cache.Body.{data_frame, trailers}
use http_cache.Prelude.{some, Bool, true, false, is_some, arith, if◌then◌else◌}
use http_cache.Body.{Bytes, Poll, ready_frame, ready_err, ready_none, pending, data_frame}
use http_cache.Errors.{ProxyError}
use http_cache.HttpProxy.CacheWrite.{
  Sent, Pipeline, Settings, poll_frame, drop_tee, accepted, full, closed, finish, forward,
  disable_cache,
}

module _ (E : Type 0) (settings : Settings) where
  pub dropped-Agrees :
      (p : Pipeline) (s : Stream)
      → Agrees settings p s
      → Agrees settings (drop_tee p) (observe {E = E} dropped s)
  unfolding observe drop_tee finish
  dropped-Agrees p s a = ground arith

  ended-Agrees :
      (sent : Sent) (p : Pipeline) (s : Stream)
      → Agrees settings p s
      → Agrees settings (finish true p) (observe {E = E} (polled sent ready_none) s)
  unfolding observe finish
  ended-Agrees sent p s a = ground arith

  failed-Agrees :
      (sent : Sent) (e : E) (p : Pipeline) (s : Stream)
      → Agrees settings p s
      → Agrees settings
          (finish false (record p { abort_flag = true }))
          (observe {E = E} (polled sent (ready_err e)) s)
  unfolding observe finish
  failed-Agrees sent e p s a = ground arith

  chunk-Agrees :
      (sent : Sent) (chunk : Bytes) (p : Pipeline) (s : Stream)
      → Agrees settings p s
      → Agrees settings
          (forward sent (some chunk) p)
          (observe {E = E} (polled sent (ready_frame (data_frame chunk))) s)
  unfolding observe forward disable_cache
  chunk-Agrees accepted chunk p s a =
      ground (arith, joined-append p.queue chunk, append_assoc p.written (joined p.queue) chunk)
  chunk-Agrees full chunk p s a = ground arith
  chunk-Agrees closed chunk p s a = ground arith

  pub same-Agrees :
      (b : Bool) (p : Pipeline) (s : Stream)
      → Agrees settings p s
      → Agrees settings p (if b then s else s)
  same-Agrees true p s a = a
  same-Agrees false p s a = a

  pub polled-Agrees :
      (from : E → ProxyError) (sent : Sent) (poll : Poll E) (p : Pipeline) (s : Stream)
      → Agrees settings p s
      → Agrees settings ((poll_frame from sent poll p).0) (observe {E = E} (polled sent poll) s)
  unfolding poll_frame observe forward
  polled-Agrees from sent (ready_frame (data_frame chunk)) p s a = chunk-Agrees sent chunk p s a
  polled-Agrees from sent (ready_frame trailers) p s a = same-Agrees (is_some s.ended) p s a
  polled-Agrees from sent (ready_err e) p s a = failed-Agrees sent e p s a
  polled-Agrees from sent ready_none p s a = ended-Agrees sent p s a
  polled-Agrees from sent pending p s a = same-Agrees (is_some s.ended) p s a
