-- ===== src/HttpProxy/CacheWrite.antt =====
-- src/http_proxy/cache_pipeline.rs: `TeeBody`, which passes a body on and copies it to the cache
-- writer, and the writer task of `cache_body`. The two run as tasks of their own; what they share
-- is the channel of chunks, the completion channel and the abort flag. A history of both is a
-- sequence of events, in any interleaving; what tokio and the file system answer is part of the
-- event.
pub mod Streams
pub mod Tee
pub mod Writer
pub mod Whole
pub mod Commits
pub mod Ends
use http_cache.Errors.{ProxyError}
use http_cache.Body.{ready_none, pending, Bytes, Poll, ready_frame, data_ref, ready_err}
use http_cache.Prelude.{
  none, some, [], ◌∷◌, true, false, Option, List, Bool, if◌then◌else◌, ℕ, ◌++◌, ltb, ◌&&◌, length,
  ◌==◌, not, ◌+◌, is_some, ◌%◌,
}
use http_cache.Prelude.Words.{u64_mod, saturating_add}

-- `try_send`: taken, or refused with `Full` or `Closed`.
pub data Sent : Type 0 where
  accepted full closed : Sent

-- Where the writer stands: before `File::create`, in the loop, at the test of the flag behind it,
-- at `completion_rx.await`, and at its two ends.
pub data Phase : Type 0 where
  starting receiving checking awaiting discarded committed : Phase

pub record Settings : Type 0 where
  pub content_length : Option ℕ  -- u64
  pub max_object_size_bytes : ℕ  -- u64
  pub require_content_length : Bool

pub record Pipeline : Type 0 where
  pub queue : List Bytes  -- sent and not received
  pub tx : Bool  -- the tee holds its sender
  pub completion_tx : Bool  -- the tee holds its completion sender
  pub completion : Option Bool  -- `clean` of the completion sent
  pub abort_flag : Bool
  pub phase : Phase
  pub size : ℕ  -- u64
  pub written : Bytes  -- given to `write_all`, which the temporary file holds after `flush`

abbrev pub started : Pipeline
started = record {
  queue = [];
  tx = true;
  completion_tx = true;
  completion = none;
  abort_flag = false;
  phase = starting;
  size = 0;
  written = [];
}

unfoldable pub disable_cache : Pipeline → Pipeline
disable_cache p = record p { abort_flag = true; tx = false; completion_tx = false }

unfoldable pub finish : Bool → Pipeline → Pipeline
finish clean p =
    if p.completion_tx
    then record p { completion = some clean; completion_tx = false; tx = false }
    else record p { tx = false }

abbrev pub try_send : Sent → Bytes → Pipeline → Pipeline
try_send accepted chunk p = record p { queue = p.queue ++ (chunk ∷ []) }
try_send full chunk p = disable_cache p
try_send closed chunk p = disable_cache p

unfoldable pub forward : Sent → Option Bytes → Pipeline → Pipeline
unfolding disable_cache
forward sent none p = p
forward sent (some chunk) p = if p.tx then try_send sent chunk p else p

module _ {E : Type 0} (from : E → ProxyError) where
  unfoldable pub poll_frame : Sent → Poll E → Pipeline → Pipeline × Poll ProxyError
  unfolding forward finish
  poll_frame sent (ready_frame frame) p = (forward sent (data_ref frame) p, ready_frame frame)
  poll_frame sent (ready_err e) p =
      (finish false (record p { abort_flag = true }), ready_err (from e))
  poll_frame sent ready_none p = (finish true p, ready_none)
  poll_frame sent pending p = (p, pending)

-- `Drop for TeeBody`, behind which its fields are dropped too.
unfoldable pub drop_tee : Pipeline → Pipeline
unfolding finish
drop_tee p =
    let q = if p.completion_tx then finish false p else p in
    record q { tx = false; completion_tx = false }

module _ (settings : Settings) where
  open settings use {content_length, max_object_size_bytes, require_content_length}

  -- One round of the loop, `wrote` being whether `write_all` succeeds.
  unfoldable pub write_chunk : Bool → Bytes → Pipeline → Pipeline
  write_chunk wrote chunk p =
      if p.abort_flag
      then record p { phase = checking }
      else if ltb 0 max_object_size_bytes
          && ltb max_object_size_bytes (saturating_add p.size (length chunk))
      then record p { abort_flag = true; phase = checking }
      else if wrote
      then record p { size = (p.size + length chunk) % u64_mod; written = p.written ++ chunk }
      else record p {
        size = (p.size + length chunk) % u64_mod;
        abort_flag = true;
        phase = discarded;
      }

  -- `rx.recv()`: no chunk is left only once the sender is dropped.
  abbrev pub receive : Bool → List Bytes → Pipeline → Pipeline
  receive wrote [] p = if p.tx then p else record p { phase = checking }
  receive wrote (chunk ∷ rest) p = write_chunk wrote chunk (record p { queue = rest })

  -- `flush`, `rename` and `store`, where `stored` is whether all three succeed.
  unfoldable pub commit : Bool → Pipeline → Pipeline
  commit stored p =
      if ltb 0 max_object_size_bytes && ltb max_object_size_bytes p.size
      then record p { phase = discarded }
      else if stored
      then record p { phase = committed }
      else record p { phase = discarded }

  abbrev pub decide : Bool → Bool → Option ℕ → Pipeline → Pipeline
  decide stored clean (some expected) p =
      if p.size == expected then commit stored p else record p { phase = discarded }
  decide stored clean none p = if clean then commit stored p else record p { phase = discarded }

  -- `completion_rx.await`: an error once the sender is dropped without a completion.
  abbrev pub await_completion : Bool → Option Bool → Pipeline → Pipeline
  await_completion stored (some clean) p = decide stored clean content_length p
  await_completion stored none p =
      if p.completion_tx then p else decide stored false content_length p

  abbrev pub resume : Bool → Phase → Pipeline → Pipeline
  resume ok starting p =
      if ok then record p { phase = receiving } else record p { phase = discarded }
  resume ok receiving p = receive ok p.queue p
  resume ok checking p =
      if p.abort_flag
      then record p { phase = discarded }
      else if require_content_length && not (is_some content_length)
      then record p { phase = discarded }
      else record p { phase = awaiting }
  resume ok awaiting p = await_completion ok p.completion p
  resume ok discarded p = p
  resume ok committed p = p

  -- The writer as far as its next wait; `ok` is whether its file and store calls succeed.
  unfoldable pub run_writer : Bool → Pipeline → Pipeline
  unfolding write_chunk commit
  run_writer ok p = resume ok p.phase p
