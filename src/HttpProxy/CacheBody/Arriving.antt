-- ===== src/HttpProxy/CacheBody/Arriving.antt =====
-- The writer of src/http_proxy/cache_pipeline.rs, over its files, takes every chunk of a body that
-- arrives without trouble.
use http_cache.Server.TimedBody.{poll_frame}
use http_cache.Prelude.Words.{u64_max}
use http_cache.Cache.World.{World}
use http_cache.HttpProxy.Committing.{Job}
use http_cache.Cache.Backend.{Cache}
use http_cache.Cache.Sqlite.{Json, Order}
use http_cache.Errors.{ProxyError}
use http_cache.HttpProxy.CacheBody.Runs.{Event, polled, takes_turn, step, steps}
use http_cache.HttpProxy.CacheWrite.Commits.{between, Admits}
use http_cache.HttpProxy.CacheWrite.Streams.{joined}
use http_cache.HttpProxy.CacheWrite.{accepted, awaiting, Settings, Pipeline, forward, finish}
use http_cache.HttpProxy.CacheBody.{turn, take_chunk, test_abort, write_all, Caching}
use http_cache.Body.{ready_none, ready_frame, data_frame, Bytes}
use mathlib.Core.List.{append_assoc, append-nil}
use http_cache.Cache.World.{Row}
use http_cache.Prelude.{
  false, subst, sym, ◌≡◌, ◌⊎◌, ◌≤◌, ◌+◌, ◌++◌, [], ◌∷◌, length, length-append, arith, true, some,
  List, false,
}

-- Each chunk is polled, taken by the channel and received; then the body ends, and the writer runs
-- as far as the wait for that end.
unfoldable pub arriving : {E : Type 0} → Bytes → List Bytes → List (Event E)
arriving held [] = polled accepted ready_none ∷ takes_turn held ∷ takes_turn held ∷ []
arriving held (chunk ∷ chunks) =
    polled accepted (ready_frame (data_frame chunk)) ∷ takes_turn held ∷ arriving held chunks

-- In the loop, with nothing in the channel, no call that will fail, and the table as it was.
pub record IsBetween (rows : List Row) (written : Bytes) (c : Caching) : Type 0 where
  pub pipeline : c.pipeline ≡ between written
  pub calm : c.world.faults ≡ []
  pub table : c.world.rows ≡ rows

module _ {E : Type 0} (from : E → ProxyError) (json : Json) (order : Order) (cache : Cache)
    (job : Job) (settings : Settings) where
  turned_chunk :
      (held written chunk : Bytes) (w : World)
      → w.faults ≡ []
      → (settings.max_object_size_bytes ≡ 0)
        ⊎ (length written + length chunk ≤ settings.max_object_size_bytes)
      → length written + length chunk ≤ u64_max
      → IsBetween w.rows (written ++ chunk) (
          turn json order cache job settings held
            (record (between written) { queue = chunk ∷ [] })
            w)
  unfolding turn take_chunk write_all
  turned_chunk held written chunk w calm within is_u64 = rw calm (record {
    pipeline = ground (arith, length-append written chunk, within);
    calm = ground (arith, within);
    table = ground (arith, within);
  })

  received :
      (held written chunk : Bytes) (rows : List Row) (c : Caching)
      → IsBetween rows written c
      → (settings.max_object_size_bytes ≡ 0)
        ⊎ (length written + length chunk ≤ settings.max_object_size_bytes)
      → length written + length chunk ≤ u64_max
      → IsBetween rows (written ++ chunk) (
          step from json order cache job settings (takes_turn held) (
            step from json order cache job settings
              (polled accepted (ready_frame (data_frame chunk)))
              c))
  unfolding step poll_frame forward
  received held written chunk rows c s within is_u64 =
      rw (s.pipeline, ← s.table) (turned_chunk held written chunk c.world s.calm within is_u64)

  -- At the wait for the end of the body, which has ended cleanly.
  abbrev pub at_end : Bytes → Pipeline
  at_end written = record (between written) {
    tx = false;
    completion_tx = false;
    completion = some true;
    phase = awaiting;
  }

  pub record IsWaiting (rows : List Row) (written : Bytes) (c : Caching) : Type 0 where
    pub pipeline : c.pipeline ≡ at_end written
    pub calm : c.world.faults ≡ []
    pub table : c.world.rows ≡ rows

  ended :
      (held written : Bytes) (rows : List Row) (c : Caching)
      → IsBetween rows written c
      → Admits settings (length written)
      → IsWaiting rows written (steps from json order cache job settings (arriving held []) c)
  unfolding arriving steps step poll_frame finish turn test_abort
  ended held written rows c s admits = rw s.pipeline (record {
    pipeline = ground (arith, admits.announced);
    calm = ground (arith, admits.announced, s.calm);
    table = ground (arith, admits.announced, s.table);
  })

  pub arrived :
      (held : Bytes) (chunks : List Bytes) (written : Bytes) (rows : List Row) (c : Caching)
      → IsBetween rows written c
      → Admits settings (length (written ++ joined chunks))
      → IsWaiting rows
          (written ++ joined chunks)
          (steps from json order cache job settings (arriving held chunks) c)
  unfolding arriving joined steps
  arrived held [] written rows c s admits =
      let e = append-nil written in
      subst
        (λ bytes.
          IsWaiting rows bytes (steps from json order cache job settings (arriving held []) c))
        (sym e)
        (ended held written rows c s (subst (λ bytes. Admits settings (length bytes)) e admits))
  arrived held (chunk ∷ chunks) written rows c s admits =
      let e = append_assoc written chunk (joined chunks) in
      let grown = length-append written chunk in
      let total = length-append written (chunk ++ joined chunks) in
      let rest = length-append chunk (joined chunks) in
      let within = admits.within in
      let is_u64 = admits.is_u64 in
      let next = received held written chunk rows c s (ground arith) (omega arith) in
      subst
        (λ bytes.
          IsWaiting rows bytes
            (steps from json order cache job settings (arriving held (chunk ∷ chunks)) c))
        e
        (arrived held chunks (written ++ chunk) rows _ next
          (subst (λ bytes. Admits settings (length bytes)) (sym e) admits))
