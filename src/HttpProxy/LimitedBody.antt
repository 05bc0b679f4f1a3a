-- ===== src/HttpProxy/LimitedBody.antt =====
-- src/http_proxy/mod.rs: `LimitedBody`, the request body that fails once it passes its limit.
pub mod Limits
use http_cache.Prelude.{ℕ, List, [], ◌∷◌, Option, none, some, ltb, length, if◌then◌else◌}
use http_cache.Prelude.Words.{saturating_add}
use http_cache.Body.{Frame, Poll, ready_frame, ready_err, ready_none, pending, data_ref}
use http_cache.Errors.{ProxyError, request_body_too_large}

-- The wrapped body stands for what its polls yield, which is an argument of `poll_frame`.
pub record LimitedBody : Type 0 where
  pub max_bytes : ℕ  -- u64
  pub seen_bytes : ℕ  -- u64

unfoldable pub new : ℕ → LimitedBody
new max_bytes = record { max_bytes = max_bytes; seen_bytes = 0 }

-- A frame that carries data is counted first.
unfoldable pub poll_data : LimitedBody → Frame → Option (List ℕ) → LimitedBody × Poll ProxyError
poll_data b frame none = (b, ready_frame frame)
poll_data b frame (some bytes) =
    let seen = saturating_add b.seen_bytes (length bytes) in
    let counted = record b { seen_bytes = seen } in
    if ltb b.max_bytes seen
    then (counted, ready_err request_body_too_large)
    else (counted, ready_frame frame)

-- `E` is the error of the wrapped body and `from` its conversion.
module _ {E : Type 0} (from : E → ProxyError) where
  unfoldable pub poll_frame : LimitedBody → Poll E → LimitedBody × Poll ProxyError
  unfolding poll_data
  poll_frame b (ready_frame frame) = poll_data b frame (data_ref frame)
  poll_frame b (ready_err e) = (b, ready_err (from e))
  poll_frame b ready_none = (b, ready_none)
  poll_frame b pending = (b, pending)

  -- What the reader of the body sees over a sequence of polls.
  unfoldable pub poll_all : LimitedBody → List (Poll E) → List (Poll ProxyError)
  poll_all b [] = []
  poll_all b (p ∷ ps) = let (b', out) = poll_frame b p in out ∷ poll_all b' ps
