-- ===== src/HttpProxy/LimitedBody/Limits.antt =====
-- What `LimitedBody` of src/http_proxy/mod.rs lets through.
use http_cache.Prelude.{
  ◌-◌, ℕ, ◌+◌, ◌≤◌, ◌<◌, ◌≡◌, refl, List, [], ◌∷◌, arith, ltb, leb, length, if◌then◌else◌, ap₂,
}
use http_cache.Prelude.Words.{u64_max}
use http_cache.Body.{
  data_frame, trailers, Poll, ready_frame, ready_err, ready_none, pending, payload,
}
use http_cache.Errors.{ProxyError, request_body_too_large}
use http_cache.HttpProxy.LimitedBody.{LimitedBody, new, poll_frame, poll_all}

module _ {E : Type 0} (from : E → ProxyError) where
  -- The specification: `total` is the payload so far, without a bound on numbers. A data frame
  -- passes exactly while the total with it stays within the limit; nothing else is touched.
  pub spec_out : ℕ → ℕ → Poll E → Poll ProxyError
  spec_out limit total (ready_frame (data_frame d)) =
      if ltb limit (total + length d)
      then ready_err request_body_too_large
      else ready_frame (data_frame d)
  spec_out limit total (ready_frame trailers) = ready_frame trailers
  spec_out limit total (ready_err e) = ready_err (from e)
  spec_out limit total ready_none = ready_none
  spec_out limit total pending = pending

  abbrev added : ℕ → Poll E → ℕ
  added total (ready_frame (data_frame d)) = total + length d
  added total _ = total

  pub spec_all : ℕ → ℕ → List (Poll E) → List (Poll ProxyError)
  spec_all limit total [] = []
  spec_all limit total (p ∷ ps) = spec_out limit total p ∷ spec_all limit (added total p) ps

  -- The counter shows the total, or the largest u64 once the total passes it.
  record Counts (b : LimitedBody) (limit total : ℕ) : Type 0 where
    max_bytes : b.max_bytes ≡ limit
    seen_bytes : b.seen_bytes ≡ (if leb total u64_max then total else u64_max)

  poll_frame-Counts :
      (b : LimitedBody) (limit total : ℕ) (p : Poll E)
      → limit < u64_max
      → Counts b limit total
      → Counts (poll_frame from b p).0 limit (added total p)
        × ((poll_frame from b p).1 ≡ spec_out limit total p)
  unfolding poll_frame spec_out
  poll_frame-Counts b limit total (ready_frame (data_frame d)) h c = ground arith
  poll_frame-Counts b limit total (ready_frame trailers) h c = (c, refl)
  poll_frame-Counts b limit total (ready_err e) h c = (c, refl)
  poll_frame-Counts b limit total ready_none h c = (c, refl)
  poll_frame-Counts b limit total pending h c = (c, refl)

  poll_all-Counts :
      (b : LimitedBody) (limit total : ℕ) (ps : List (Poll E))
      → limit < u64_max
      → Counts b limit total
      → poll_all from b ps ≡ spec_all limit total ps
  unfolding poll_all spec_all
  poll_all-Counts b limit total [] h c = refl
  poll_all-Counts b limit total (p ∷ ps) h c =
      let (c', e) = poll_frame-Counts b limit total p h c in
      ap₂ ◌∷◌ e (poll_all-Counts (poll_frame from b p).0 limit (added total p) ps h c')

  -- Over any sequence of polls the limited body does what the specification says: each data frame
  -- passes exactly while the unbounded total with it is within the limit, for limits below the
  -- largest u64; errors, trailers, the end and pending polls are passed on.
  pub poll_all-spec_all :
      (limit : ℕ) (ps : List (Poll E))
      → limit < u64_max
      → poll_all from (new limit) ps ≡ spec_all limit 0 ps
  unfolding new
  poll_all-spec_all limit ps h =
      poll_all-Counts (new limit) limit 0 ps h (record { max_bytes = refl; seen_bytes = refl })

  spec_payload :
      (limit total : ℕ) (ps : List (Poll E)) → payload (spec_all limit total ps) ≤ limit - total
  unfolding spec_all spec_out
  spec_payload limit total [] = omega arith
  spec_payload limit total (ready_frame (data_frame d) ∷ ps) =
      ground (arith, spec_payload limit (total + length d) ps)
  spec_payload limit total (ready_frame trailers ∷ ps) = spec_payload limit total ps
  spec_payload limit total (ready_err e ∷ ps) = spec_payload limit total ps
  spec_payload limit total (ready_none ∷ ps) = spec_payload limit total ps
  spec_payload limit total (pending ∷ ps) = spec_payload limit total ps

  -- The reader never receives more payload than the limit, for limits below the largest u64,
  -- however long the body is polled, also after the error.
  pub payload-poll_all-le :
      (limit : ℕ) (ps : List (Poll E))
      → limit < u64_max
      → payload (poll_all from (new limit) ps) ≤ limit
  payload-poll_all-le limit ps h =
      rw (poll_all-spec_all limit ps h) (omega (arith, spec_payload limit 0 ps))
