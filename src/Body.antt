-- ===== src/Body.antt =====
-- The stream interface of the http_body crate that the bodies of src/http_proxy/mod.rs,
-- src/http_proxy/cache_pipeline.rs and src/server.rs wrap: what one poll of a body yields.
use http_cache.Prelude.{ℕ, List, Option, none, some, length, ◌+◌, [], ◌∷◌}

abbrev pub Bytes : Type 0
Bytes = List ℕ

pub data Frame : Type 0 where
  data_frame : Bytes → Frame
  trailers : Frame

-- `frame.data_ref()`
abbrev pub data_ref : Frame → Option Bytes
data_ref (data_frame d) = some d
data_ref trailers = none

-- `Poll<Option<Result<Frame, E>>>`
pub data Poll (E : Type 0) : Type 0 where
  ready_frame : Frame → Poll E
  ready_err : E → Poll E
  ready_none : Poll E
  pending : Poll E

-- The payload of a sequence of polls, in bytes.
abbrev pub payload : {E : Type 0} → List (Poll E) → ℕ
payload [] = 0
payload (ready_frame (data_frame d) ∷ ps) = length d + payload ps
payload (_ ∷ ps) = payload ps
