-- ===== src/HttpProxy/CacheWrite/Commits.antt =====
-- The writer of src/http_proxy/cache_pipeline.rs commits a body that arrives without trouble.
use mathlib.Core.List.{append_assoc, append-nil}
use http_cache.Prelude.{sym, ap, subst}
use http_cache.Prelude.Words.{u64_max}
use http_cache.HttpProxy.LimitedBody.{poll_frame}
use http_cache.HttpProxy.CacheWrite.Streams.{Event, step, polled, resumed, joined, steps}
use http_cache.Errors.{ProxyError}
use http_cache.HttpProxy.CacheWrite.{
  Settings, Pipeline, receiving, accepted, forward, run_writer, write_chunk, finish, started,
  commit, committed,
}
use http_cache.Body.{Bytes, ready_none, ready_frame, data_frame}
use http_cache.Prelude.{
  none, some, [], ◌∷◌, true, false, List, ℕ, ◌≡◌, length, ◌⊎◌, ◌≤◌, ◌+◌, ◌++◌, arith, length-append,
  ap, ◌∙◌,
}

-- Each chunk is polled, taken by the channel and received; then the body ends and the writer runs
-- to its end.
abbrev finale : {E : Type 0} → List (Event E)
finale = polled accepted ready_none ∷ resumed true ∷ resumed true ∷ resumed true ∷ []

unfoldable pub arrive : {E : Type 0} → List Bytes → List (Event E)
arrive [] = finale
arrive (chunk ∷ chunks) =
    polled accepted (ready_frame (data_frame chunk)) ∷ resumed true ∷ arrive chunks

-- The pipeline between two chunks.
abbrev pub between : Bytes → Pipeline
between written = record {
  queue = [];
  tx = true;
  completion_tx = true;
  completion = none;
  abort_flag = false;
  phase = receiving;
  size = length written;
  written = written;
}

-- A body that the settings let in: its announced length is right, or none is required, and it is
-- within the limit.
pub record Admits (settings : Settings) (size : ℕ) : Type 0 where
  pub announced :
      (settings.content_length ≡ some size)
      ⊎ ((settings.content_length ≡ none) × (settings.require_content_length ≡ false))
  pub within : (settings.max_object_size_bytes ≡ 0) ⊎ (size ≤ settings.max_object_size_bytes)
  pub is_u64 : size ≤ u64_max

module _ {E : Type 0} (from : E → ProxyError) (settings : Settings) where
  received :
      (written chunk : Bytes)
      → (settings.max_object_size_bytes ≡ 0)
        ⊎ (length written + length chunk ≤ settings.max_object_size_bytes)
      → length written + length chunk ≤ u64_max
      → step from settings
          (resumed true)
          (step from settings (polled accepted (ready_frame (data_frame chunk))) (between written))
        ≡ between (written ++ chunk)
  unfolding step poll_frame forward run_writer write_chunk
  received written chunk within is_u64 = ground (arith, length-append written chunk)

  arrive_lem :
      (chunks : List Bytes) (written : Bytes)
      → (settings.max_object_size_bytes ≡ 0)
        ⊎ (length written + length (joined chunks) ≤ settings.max_object_size_bytes)
      → length written + length (joined chunks) ≤ u64_max
      → steps from settings (arrive chunks) (between written)
        ≡ steps from settings finale (between (written ++ joined chunks))
  unfolding arrive joined steps
  arrive_lem [] written within is_u64 =
      let e = append-nil written in ap (λ w. steps from settings finale (between w)) (sym e)
  arrive_lem (chunk ∷ chunks) written within is_u64 =
      let total = length-append chunk (joined chunks) in
      let so_far = length-append written chunk in
      let first = received written chunk (ground arith) (ground arith) in
      let rest = arrive_lem chunks (written ++ chunk) (ground arith) (ground arith) in
      ap (λ p. steps from settings (arrive chunks) p) first
      ∙ (rest
          ∙ ap (λ w. steps from settings finale (between w))
              (append_assoc written chunk (joined chunks)))

  finale_lem :
      (written : Bytes)
      → Admits settings (length written)
      → ((steps from settings finale (between written)).phase ≡ committed)
        × ((steps from settings finale (between written)).written ≡ written)
  unfolding steps step poll_frame finish run_writer commit
  finale_lem written admits = ground (arith, admits.announced, admits.within)

  -- A body whose chunks are all taken by the channel and written, and which ends cleanly, is
  -- committed whole, if the settings admit its size: it is the announced length or none is required,
  -- it is within the limit on objects, if there is one, and it is a u64.
  pub arrive-Admits :
      (chunks : List Bytes)
      → Admits settings (length (joined chunks))
      → ((steps from settings (resumed true ∷ arrive chunks) started).phase ≡ committed)
        × ((steps from settings (resumed true ∷ arrive chunks) started).written ≡ joined chunks)
  unfolding steps step run_writer
  arrive-Admits chunks admits =
      subst (λ p. (p.phase ≡ committed) × (p.written ≡ joined chunks))
        (sym (arrive_lem chunks [] (ground (arith, admits.within)) (ground (arith, admits.is_u64))))
        (finale_lem (joined chunks) admits)
